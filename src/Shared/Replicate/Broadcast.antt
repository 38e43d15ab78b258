-- ===== src/Shared/Replicate/Broadcast.antt =====
-- Every replica receives what the source gives, whatever the other replicas do.
use orpc.Prelude.{
  ℕ, zero, suc, ◌+◌, ◌≤◌, ◌<◌, String, Bool, false, Option, none, some, List, [], ◌∷◌, ◌++◌, map,
  ◌≡◌, ◌⊎◌, inl, inr, refl, sym, ap, arith, dec_lt, eq_iff, str_eq, if◌then◌else◌, zip, Bool-cases,
  IsIn,
}
use orpc.Prelude.JsMap.{get-empty}
use orpc.Shared.Queue
use orpc.Shared.Queue.{
  AsyncIdQueue, Settlement, resolved, rejected, Pulled, item, pending, reject_all, reason_for,
}
use orpc.Shared.Queue.Channel.{Channel, channel, pushed, pulled, new_channel, pull-Implements}
use orpc.Shared.Queue.Rejections.{close_lem}
use orpc.Shared.Queue.Closing.{Reach, start, opened, channel-open_queue}
use orpc.Shared.Queue.Fifo.{
  IsOneSided, push-IsOneSided, pull-IsOneSided, zip-pushed, zip-pulled, zip-idle,
}
use orpc.Shared.Replicate.{
  Item, Loop, idle, reading, over, Replicator, Action, next_call, source_settles, cleanup, settled,
  ends, ids_from, started, open_each, replicate, read, next, return_source, clean_up, step, run,
}
use orpc.Shared.Replicate.Pushes.{
  received_at, IsOnce, received_at-append, received_at-settled, push_each-once,
}

-- The promises of a replica, in the order of its calls of `next`.
abbrev pub promises_of : {T : Type 0} → String → List (Action T) → List ℕ
promises_of id [] = []
promises_of id (next_call k p ∷ actions) =
    if str_eq k id then p ∷ promises_of id actions else promises_of id actions
promises_of id (source_settles x ∷ actions) = promises_of id actions
promises_of id (cleanup k cancelled error ∷ actions) = promises_of id actions

-- The items of the source: from the first call of `next` on any replica to the end of the source.
abbrev pub source_items : {T : Type 0} → Loop → List (Action T) → List (Item T)
source_items l [] = []
source_items l (next_call k p ∷ actions) = source_items (started l) actions
source_items idle (source_settles x ∷ actions) = source_items idle actions
source_items reading (source_settles x ∷ actions) =
    x ∷ source_items (if ends x then over else reading) actions
source_items over (source_settles x ∷ actions) = source_items over actions
source_items l (cleanup k cancelled error ∷ actions) = source_items l actions

-- The replica is not cleaned up.
abbrev pub IsKept : {T : Type 0} → String → List (Action T) → Type 0
IsKept id [] = Unit {0}
IsKept id (cleanup k cancelled error ∷ actions) = (str_eq k id ≡ false) × IsKept id actions
IsKept id (a ∷ actions) = IsKept id actions

Loop-cases : (l : Loop) → (l ≡ reading) ⊎ ((l ≡ idle) ⊎ (l ≡ over))
Loop-cases idle = inr (inl refl)
Loop-cases reading = inl refl
Loop-cases over = inr (inr refl)

module _ {T : Type 0} where
  -- the promises and the items that the channel of a replica holds come first
  abbrev IsServed : String → List (Action T) → Type 0
  IsServed id actions =
      (s : Replicator T) (c : Channel (Item T))
      → channel s.queue id ≡ some c
      → IsOneSided c
      → IsOnce id s.ids
      → received_at id (run s actions)
        ≡ zip (c.pulls ++ promises_of id actions) (c.items ++ source_items s.loop actions)

  next-IsServed :
      (id k : String) (p : ℕ) (actions : List (Action T))
      → IsServed id actions
      → IsServed id (next_call k p ∷ actions)
  unfolding run step next
  next-IsServed id k p actions later s c h one o = elim (pull-Implements s.queue k p) [
    | inl (shut, e) ↦ ground (arith, eq_iff k id, later (record s { loop = started s.loop }) c)
    | inr (ck, q', there, e, others) ↦ ground (
      arith,
      eq_iff k id,
      others id,
      zip-pulled p c (promises_of id actions) (source_items (started s.loop) actions) one,
      pull-IsOneSided p c one,
      later (record s { loop = started s.loop; queue = q' }) c,
      later (record s { loop = started s.loop; queue = q' }) (pulled p c).0,
    )
  ]

  settles-IsServed :
      (id : String) (x : Item T) (actions : List (Action T))
      → IsServed id actions
      → IsServed id (source_settles x ∷ actions)
  unfolding run step read
  settles-IsServed id x actions later s c h one o = elim (Loop-cases s.loop) [
    | inl e ↦ ground (
      arith,
      push_each-once id s.ids s.queue c x h o,
      zip-pushed x c (promises_of id actions)
          (source_items (if ends x then over else reading) actions) one,
      push-IsOneSided x c one,
      received_at-append id (read s x).1 (run (read s x).0 actions),
      later (read s x).0 (pushed x c).0,
    )
    | inr (inl e) ↦ ground (arith, later s c h one o)
    | inr (inr e) ↦ ground (arith, later s c h one o)
  ]

  cleanup-IsServed :
      (id k : String) (cancelled : Bool) (error : Option ℕ) (actions : List (Action T))
      → str_eq k id ≡ false
      → IsServed id actions
      → IsServed id (cleanup k cancelled error ∷ actions)
  unfolding run step clean_up
  cleanup-IsServed id k cancelled error actions d later s c h one o =
      let closed = (Queue.close s.queue (some k) error).0 in
      let after : Replicator T = record s { queue = closed } in
      ground (
        arith,
        close_lem s.queue (some k) error id,
        received_at-settled id k (Queue.close s.queue (some k) error).1,
        received_at-append id (clean_up s k cancelled error).1
            (run (clean_up s k cancelled error).0 actions),
        received_at-append id (map (settled k) (Queue.close s.queue (some k) error).1)
            (return_source after cancelled).1,
        later (clean_up s k cancelled error).0 c,
      )

  closed-empty : (id : String) → channel (Queue.empty {T = Item T}) id ≡ none
  unfolding Queue.empty Queue.is_open
  closed-empty id = ground (arith, get-empty {V = Unit {0}} id)

  run-IsServed : (id : String) (actions : List (Action T)) → IsKept id actions → IsServed id actions
  unfolding run
  run-IsServed id [] k = λ s c h one o. sym (zip-idle c one)
  run-IsServed id (next_call i p ∷ actions) k =
      next-IsServed id i p actions (run-IsServed id actions k)
  run-IsServed id (source_settles x ∷ actions) k =
      settles-IsServed id x actions (run-IsServed id actions k)
  run-IsServed id (cleanup i cancelled error ∷ actions) k =
      cleanup-IsServed id i cancelled error actions k.0 (run-IsServed id actions k.1)

  -- the channel of an id that is opened among others, each closed or new before
  channel-open_each :
      (id : String) (ids : List String) (q : AsyncIdQueue (Item T))
      → Reach q
      → (channel q id ≡ some new_channel) ⊎ ((channel q id ≡ none) × IsIn id ids)
      → channel (open_each ids q) id ≡ some new_channel
  unfolding open_each
  channel-open_each id [] q r (inl h) = h
  channel-open_each id [] q r (inr h) = elim h.1 [ ]
  channel-open_each id (k ∷ ids) q r (inl h) =
      channel-open_each id ids (Queue.open_queue q k) (Reach.next r (opened k))
        (inl (ground (arith, channel-open_queue k r id, eq_iff k id)))
  channel-open_each id (k ∷ ids) q r (inr (h, inl e)) =
      channel-open_each id ids (Queue.open_queue q k) (Reach.next r (opened k))
        (inl (ground (arith, channel-open_queue k r id, eq_iff k id)))
  channel-open_each id (k ∷ ids) q r (inr (h, inr i)) = elim (Bool-cases (str_eq k id)) [
    | inl e ↦
        channel-open_each id ids (Queue.open_queue q k) (Reach.next r (opened k))
          (inl (ground (arith, channel-open_queue k r id, eq_iff k id)))
    | inr e ↦
        channel-open_each id ids (Queue.open_queue q k) (Reach.next r (opened k))
          (inr (ground (arith, channel-open_queue k r id), i))
  ]

IsOnce-IsIn : (id : String) (ids : List String) → IsOnce id ids → IsIn id ids
IsOnce-IsIn id [] h = elim h [ ]
IsOnce-IsIn id (k ∷ ids) (inl (e, n)) = inl e
IsOnce-IsIn id (k ∷ ids) (inr (d, h)) = inr (IsOnce-IsIn id ids h)

module _ (to_string : ℕ → String) (a limit : ℕ)
    (differ : (j : ℕ) → j < limit → to_string j ≡ to_string a → j ≡ a) where
  not_earlier :
      (i count : ℕ)
      → a < i
      → i + count ≤ limit
      → IsIn (to_string a) (ids_from to_string i count)
      → ⊥
  not_earlier i zero l m h = elim h [ ]
  not_earlier i (suc count) l m (inl e) = omega (arith, differ i (omega arith) e)
  not_earlier i (suc count) l m (inr h) = not_earlier (suc i) count (omega arith) (omega arith) h

  ids_from-IsOnce :
      (i count : ℕ)
      → i ≤ a
      → a < i + count
      → i + count ≤ limit
      → IsOnce (to_string a) (ids_from to_string i count)
  ids_from-IsOnce i zero l h m = absurd (omega arith)
  ids_from-IsOnce i (suc count) l h m = elim (dec_lt i a) [
    | yes p ↦ inr (
      λ e. absurd (omega (arith, differ i (omega arith) e)),
      ids_from-IsOnce (suc i) count (omega arith) (omega arith) (omega arith),
    )
    | no p ↦
        let same : i ≡ a = omega arith in
        inl (ap to_string same, not_earlier (suc i) count (omega arith) (omega arith))
  ]

-- If no other number below the count prints as the replica's does: a replica that is not cleaned up receives every item that
-- the source gives from the first `next` of any replica to its end, the n-th `next` the n-th item,
-- whatever the other replicas do and when they are cleaned up.
pub replicas_receive_all :
    {T : Type 0} (to_string : ℕ → String) (count i : ℕ) (actions : List (Action T))
    → ((j : ℕ) → j < count → to_string j ≡ to_string i → j ≡ i)
    → i < count
    → IsKept (to_string i) actions
    → received_at (to_string i) (run (replicate to_string count) actions)
      ≡ zip (promises_of (to_string i) actions) (source_items idle actions)
unfolding replicate
replicas_receive_all {T} to_string count i actions differ l k =
    let once =
      ids_from-IsOnce to_string i count differ 0 count (omega arith) (omega arith) (omega arith) in
    run-IsServed (to_string i) actions k (replicate to_string count) new_channel
      (channel-open_each (to_string i) (ids_from to_string 0 count) Queue.empty start (
        inr (
          closed-empty (to_string i),
          IsOnce-IsIn (to_string i) (ids_from to_string 0 count) once,
        )))
      (inl refl) once
