-- ===== src/Shared/Replicate/Returns.antt =====
-- When the source is told to return.
use orpc.Prelude.{
  ℕ, suc, ◌+◌, ◌≤◌, String, Bool, false, Option, none, some, List, [], ◌∷◌, ◌++◌, map, ◌≡◌, ◌⊎◌,
  inl, inr, refl, ap, subst, ◌∙◌, arith, length, if◌then◌else◌, Bool-cases, All,
}
use orpc.Shared.Queue
use orpc.Shared.Queue.{AsyncIdQueue, Settlement, Pulled, item, pending}
use orpc.Shared.Replicate.Broadcast.{source_items}
use orpc.Shared.Replicate.{
  ends, Loop, idle, reading, over, replicate, Item, Replicator, Action, next_call, source_settles,
  cleanup, Event, settled, thrown, source_return, after_push, after_pull, push_if_open, push_each,
  read, next, return_source, clean_up, started, step, run,
}

length_zero : {A : Type 0} (xs : List A) → length xs ≡ 0 → xs ≡ []
length_zero [] h = refl
length_zero (x ∷ xs) h = absurd (omega arith)

module _ {T : Type 0} where
  abbrev pub returns : List (Event T) → ℕ
  returns [] = 0
  returns (settled k x ∷ events) = returns events
  returns (thrown k p ∷ events) = returns events
  returns (source_return ∷ events) = suc (returns events)

  -- how often the source may still be told to return
  abbrev pub allowance : Replicator T → ℕ
  allowance s = if s.is_source_finished then 0 else 1

  returns-append : (es fs : List (Event T)) → returns (es ++ fs) ≡ returns es + returns fs
  returns-append [] fs = omega arith
  returns-append (settled k x ∷ es) fs = returns-append es fs
  returns-append (thrown k p ∷ es) fs = returns-append es fs
  returns-append (source_return ∷ es) fs = omega (arith, returns-append es fs)

  returns-settled :
      (k : String) (ss : List (Settlement (Item T))) → returns (map (settled k) ss) ≡ 0
  returns-settled k [] = refl
  returns-settled k (x ∷ ss) = returns-settled k ss

  returns-push_if_open :
      (q : AsyncIdQueue (Item T)) (k : String) (x : Item T) → returns (push_if_open q k x).1 ≡ 0
  unfolding push_if_open
  returns-push_if_open q k x = elim (Bool-cases (Queue.is_open q k)) [
    | inl e ↦ rw e (pushed (Queue.push q k x))
    | inr e ↦ rw e refl
  ]
    where
      pushed :
          (r : Option (AsyncIdQueue (Item T) × List (Settlement (Item T))))
          → returns (after_push q k r).1 ≡ 0
      pushed none = refl
      pushed (some (q', ss)) = returns-settled k ss

  returns-push_each :
      (ids : List String) (q : AsyncIdQueue (Item T)) (x : Item T)
      → returns (push_each q ids x).1 ≡ 0
  unfolding push_each
  returns-push_each [] q x = refl
  returns-push_each (k ∷ ids) q x = omega (
    arith,
    returns-append (push_if_open q k x).1 (push_each (push_if_open q k x).0 ids x).1,
    returns-push_if_open q k x,
    returns-push_each ids (push_if_open q k x).0 x,
  )

  -- One step uses up what it returns.
  step-allowance :
      (s : Replicator T) (a : Action T)
      → returns (step s a).1 + allowance (step s a).0 ≤ allowance s
  unfolding step next clean_up read
  step-allowance s (next_call k p) = pulled (Queue.pull s.queue k p)
    where
      pulled :
          (r : Option (AsyncIdQueue (Item T) × Pulled (Item T)))
          → returns (after_pull (record s { loop = started s.loop }) k p r).1
              + allowance (after_pull (record s { loop = started s.loop }) k p r).0
            ≤ allowance s
      pulled none = omega arith
      pulled (some (q, item x)) = omega arith
      pulled (some (q, pending)) = omega arith
  step-allowance s (source_settles x) = ground (arith, returns-push_each s.ids s.queue x)
  step-allowance s (cleanup k cancelled error) =
      let closed = Queue.close s.queue (some k) error in
      let after : Replicator T = record s { queue = closed.0 } in
      ground (
        arith,
        returns-settled k closed.1,
        returns-append (map (settled k) closed.1) (return_source after cancelled).1,
      )

  returns-le :
      (s : Replicator T) (actions : List (Action T)) → returns (run s actions) ≤ allowance s
  unfolding run
  returns-le s [] = omega arith
  returns-le s (a ∷ actions) = omega (
    arith,
    returns-append (step s a).1 (run (step s a).0 actions),
    step-allowance s a,
    returns-le (step s a).0 actions,
  )

  return_source-cases :
      (s : Replicator T) (cancelled : Bool)
      → (returns (return_source s cancelled).1 ≡ 0)
        ⊎ ((returns (return_source s cancelled).1 ≡ 1)
            × (s.queue.open_ids ≡ [])
            × (s.is_source_finished ≡ false)
            × (allowance (return_source s cancelled).0 ≡ 0)
            × ((return_source s cancelled).0.queue ≡ s.queue))
  unfolding return_source
  return_source-cases s cancelled = ground (arith, length_zero s.queue.open_ids)

  step-returns_once :
      (s : Replicator T) (a : Action T) (later : List (Action T))
      → (returns (step s a).1 ≡ 0)
        ⊎ ((returns (step s a).1 ≡ 1)
            × ((step s a).0.queue.open_ids ≡ [])
            × (s.is_source_finished ≡ false)
            × (returns (run (step s a).0 later) ≡ 0))
  unfolding step next read clean_up
  step-returns_once s (next_call k p) later = inl (pulled (Queue.pull s.queue k p))
    where
      pulled :
          (r : Option (AsyncIdQueue (Item T) × Pulled (Item T)))
          → returns (after_pull (record s { loop = started s.loop }) k p r).1 ≡ 0
      pulled none = refl
      pulled (some (q, item x)) = refl
      pulled (some (q, pending)) = refl
  step-returns_once s (source_settles x) later =
      inl (ground (arith, returns-push_each s.ids s.queue x))
  step-returns_once s (cleanup k cancelled error) later =
      let closed = Queue.close s.queue (some k) error in
      let after : Replicator T = record s { queue = closed.0 } in
      let told = returns-append (map (settled k) closed.1) (return_source after cancelled).1 in
      elim (return_source-cases after cancelled) [
        | inl e ↦ inl (omega (arith, told, e, returns-settled k closed.1))
        | inr (one, shut, unfinished, spent, same) ↦ inr (
          omega (arith, told, one, returns-settled k closed.1),
          ap (λ (q : AsyncIdQueue (Item T)). q.open_ids) same ∙ shut,
          unfinished,
          omega (arith, returns-le (return_source after cancelled).0 later, spent),
        )
      ]

  unfoldable pub state_after : Replicator T → List (Action T) → Replicator T
  unfolding step
  state_after s [] = s
  state_after s (a ∷ actions) = state_after (step s a).0 actions

  returns-allowance :
      (s : Replicator T) (actions : List (Action T))
      → returns (run s actions) + allowance (state_after s actions) ≤ allowance s
  unfolding run state_after
  returns-allowance s [] = omega arith
  returns-allowance s (a ∷ actions) = omega (
    arith,
    returns-append (step s a).1 (run (step s a).0 actions),
    step-allowance s a,
    returns-allowance (step s a).0 actions,
  )

  allowance_unfinished : (s : Replicator T) → s.is_source_finished ≡ false → allowance s ≡ 1
  allowance_unfinished s h = rw h refl

  -- the items did not end the source
  abbrev pub AreLive : List (Item T) → Type 0
  AreLive items = All (λ (x : Item T). ends x ≡ false) items

  -- A source that is not marked as finished has given no item that ends it.
  abbrev IsUnfinished : Replicator T → List (Action T) → Type 0
  IsUnfinished s actions = (s.is_source_finished ≡ false) × AreLive (source_items s.loop actions)

  return_source-kept :
      (s : Replicator T) (cancelled : Bool)
      → (return_source s cancelled).0.is_source_finished ≡ false
      → (s.is_source_finished ≡ false) × ((return_source s cancelled).0.loop ≡ s.loop)
  unfolding return_source
  return_source-kept s cancelled h = ground arith

  state_after-IsUnfinished :
      (s : Replicator T) (actions : List (Action T))
      → (state_after s actions).is_source_finished ≡ false
      → IsUnfinished s actions
  unfolding state_after step next read clean_up
  state_after-IsUnfinished s [] h = (h, tt)
  state_after-IsUnfinished s (next_call k p ∷ actions) h =
      pulled (Queue.pull s.queue k p) (λ t. state_after-IsUnfinished t actions) h
    where
      pulled :
          (r : Option (AsyncIdQueue (Item T) × Pulled (Item T)))
          → ((t : Replicator T)
              → (state_after t actions).is_source_finished ≡ false
              → IsUnfinished t actions)
          → (state_after
              (after_pull (record s { loop = started s.loop }) k p r).0
              actions).is_source_finished
            ≡ false
          → IsUnfinished (record s { loop = started s.loop }) actions
      pulled none ih f = ih (record s { loop = started s.loop }) f
      pulled (some (q, item x)) ih f = ih (record s { loop = started s.loop; queue = q }) f
      pulled (some (q, pending)) ih f = ih (record s { loop = started s.loop; queue = q }) f
  state_after-IsUnfinished s (source_settles x ∷ actions) h =
      settles s.loop (λ t. state_after-IsUnfinished t actions) refl h
    where
      settles :
          (l : Loop)
          → ((t : Replicator T)
              → (state_after t actions).is_source_finished ≡ false
              → IsUnfinished t actions)
          → s.loop ≡ l
          → (state_after
              (elim l as (λ (m : Loop). Replicator T × List (Event T)) [
                | reading ↦ read s x
                | _ ↦ (s, [])
              ]).0
              actions).is_source_finished
            ≡ false
          → (s.is_source_finished ≡ false) × AreLive (source_items l (source_settles x ∷ actions))
      settles idle ih e f =
          let r = ih s f in (r.0, subst (λ m. AreLive (source_items m actions)) e r.1)
      settles over ih e f =
          let r = ih s f in (r.0, subst (λ m. AreLive (source_items m actions)) e r.1)
      settles reading ih e f =
          let r = ih (read s x).0 f in (ground (arith, r.0), (ground (arith, r.0), r.1))
  state_after-IsUnfinished s (cleanup k cancelled error ∷ actions) h =
      let after : Replicator T = record s { queue = (Queue.close s.queue (some k) error).0 } in
      let r = state_after-IsUnfinished (return_source after cancelled).0 actions h in
      let kept = return_source-kept after cancelled r.0 in
      (kept.0, subst (λ m. AreLive (source_items m actions)) kept.1 r.1)

-- A step behind any others tells the source to return at most once, and only if no replica is open
-- behind it, no item of the source has ended it, and it has not been told so before; from then on it is
-- never told again.
pub source_returns_once :
    {T : Type 0} (to_string : ℕ → String) (count : ℕ) (earlier : List (Action T)) (a : Action T)
    (later : List (Action T))
    → let s = state_after (replicate to_string count) earlier in
      (returns (step s a).1 ≡ 0)
      ⊎ ((returns (step s a).1 ≡ 1)
          × ((step s a).0.queue.open_ids ≡ [])
          × AreLive (source_items idle earlier)
          × (returns (run (replicate to_string count) earlier) ≡ 0)
          × (returns (run (step s a).0 later) ≡ 0))
unfolding replicate
source_returns_once to_string count earlier a later =
    let first = replicate to_string count in
    let s = state_after first earlier in
    elim (step-returns_once s a later) [
      | inl none_told ↦ inl none_told
      | inr (one, shut, unfinished, never) ↦ inr (
        one,
        shut,
        (state_after-IsUnfinished first earlier unfinished).1,
        omega (arith, returns-allowance first earlier, allowance_unfinished s unfinished),
        never,
      )
    ]
