-- ===== src/Shared/Queue/Closing.antt =====
-- Opening and closing, and the invariant that every operation keeps.
use orpc.Prelude.{
  ℕ, String, true, false, Option, none, some, List, [], ◌≡◌, ◌⊎◌, inl, inr, subst, arith, eq_iff,
  str_eq, if◌then◌else◌, Bool-cases, or_else,
}
use orpc.Prelude.JsMap.{get-set, get-delete, get-empty}
use orpc.Shared.Queue.{
  AsyncIdQueue, Settlement, Pulled, empty, open_queue, push, pull, is_open, close, push_open,
  pull_open,
}
use orpc.Shared.Queue.Channel.{at, channel, new_channel, shift-cases, at-append_at}

-- A queue that is not open holds nothing, and nobody waits where items do.
pub record IsWellFormed {T : Type 0} (q : AsyncIdQueue T) : Type 0 where
  pub closed_queues : (j : String) → is_open q j ≡ false → at q.queues j ≡ []
  pub closed_waiters : (j : String) → is_open q j ≡ false → at q.waiters j ≡ []
  pub one_sided : (j : String) → (at q.queues j ≡ []) ⊎ (at q.waiters j ≡ [])

module _ {T : Type 0} where
  empty-IsWellFormed : IsWellFormed (empty {T = T})
  unfolding empty
  empty-IsWellFormed = record {
    closed_queues = λ j h. ground (arith, get-empty {V = List T} j);
    closed_waiters = λ j h. ground (arith, get-empty {V = List ℕ} j);
    one_sided = λ j. inl (ground (arith, get-empty {V = List T} j));
  }

  open-IsWellFormed :
      (q : AsyncIdQueue T) (id : String) → IsWellFormed q → IsWellFormed (open_queue q id)
  unfolding open_queue is_open
  open-IsWellFormed q id v = record {
    closed_queues = λ j h. ground (arith, get-set q.open_ids id tt j, v.closed_queues j);
    closed_waiters = λ j h. ground (arith, get-set q.open_ids id tt j, v.closed_waiters j);
    one_sided = v.one_sided;
  }

  push_open-IsWellFormed :
      (q : AsyncIdQueue T) (id : String) (x : T)
      → is_open q id ≡ true
      → IsWellFormed q
      → IsWellFormed (push_open q id x).0
  unfolding push_open is_open
  push_open-IsWellFormed q id x o v = elim (shift-cases q.waiters id) [
    | inl (gone, e) ↦
        rw (e, push_open)
          (record {
            closed_queues =
                λ j h. ground (arith, at-append_at q.queues id x j, v.closed_queues j, eq_iff id j);
            closed_waiters = v.closed_waiters;
            one_sided =
                λ j. ground (arith, at-append_at q.queues id x j, v.one_sided j, eq_iff id j);
          })
    | inr (w, rest, m', first, e, later) ↦
        rw (e, push_open)
          (record {
            closed_queues = v.closed_queues;
            closed_waiters = λ j h. ground (arith, later j, v.closed_waiters j, eq_iff id j);
            one_sided = λ j. ground (arith, later j, v.one_sided j, eq_iff id j);
          })
  ]

  pull_open-IsWellFormed :
      (q : AsyncIdQueue T) (id : String) (p : ℕ)
      → is_open q id ≡ true
      → IsWellFormed q
      → IsWellFormed (pull_open q id p).0
  unfolding pull_open is_open
  pull_open-IsWellFormed q id p o v = elim (shift-cases q.queues id) [
    | inl (gone, e) ↦
        rw (e, pull_open)
          (record {
            closed_queues = v.closed_queues;
            closed_waiters = λ j h.
                ground (arith, at-append_at q.waiters id p j, v.closed_waiters j, eq_iff id j);
            one_sided =
                λ j. ground (arith, at-append_at q.waiters id p j, v.one_sided j, eq_iff id j);
          })
    | inr (x, rest, m', first, e, later) ↦
        rw (e, pull_open)
          (record {
            closed_queues = λ j h. ground (arith, later j, v.closed_queues j, eq_iff id j);
            closed_waiters = v.closed_waiters;
            one_sided = λ j. ground (arith, later j, v.one_sided j, eq_iff id j);
          })
  ]

  close-IsWellFormed :
      (q : AsyncIdQueue T) (id : Option String) (reason : Option ℕ)
      → IsWellFormed q
      → IsWellFormed (close q id reason).0
  unfolding close
  close-IsWellFormed q none reason v = empty-IsWellFormed
  close-IsWellFormed q (some id) reason v =
      unfold is_open in
      record {
        closed_queues = λ j h. ground (
          arith,
          get-delete q.open_ids id j,
          get-delete q.queues id j,
          v.closed_queues j,
          eq_iff id j,
        );
        closed_waiters = λ j h. ground (
          arith,
          get-delete q.open_ids id j,
          get-delete q.waiters id j,
          v.closed_waiters j,
          eq_iff id j,
        );
        one_sided = λ j. ground (
          arith,
          get-delete q.queues id j,
          get-delete q.waiters id j,
          v.one_sided j,
          eq_iff id j,
        );
      }

-- One operation of the class, which may throw: then the queue stays as it is.
pub data Step {T : Type 0} (q : AsyncIdQueue T) : AsyncIdQueue T → Type 0 where
  opened : (id : String) → Step q (open_queue q id)
  pushed_to :
      (id : String) (x : T) (q' : AsyncIdQueue T) (ss : List (Settlement T))
      → push q id x ≡ some (q', ss)
      → Step q q'
  pulled_from :
      (id : String) (p : ℕ) (q' : AsyncIdQueue T) (r : Pulled T)
      → pull q id p ≡ some (q', r)
      → Step q q'
  closed : (id : Option String) (reason : Option ℕ) → Step q (close q id reason).0

pub data Reach {T : Type 0} : AsyncIdQueue T → Type 0 where
  start : Reach empty
  next : {q q' : AsyncIdQueue T} → Reach q → Step q q' → Reach q'

module _ {T : Type 0} where
  Step-IsWellFormed : {q q' : AsyncIdQueue T} → Step q q' → IsWellFormed q → IsWellFormed q'
  unfolding push pull
  Step-IsWellFormed {q} (opened id) v = open-IsWellFormed q id v
  Step-IsWellFormed {q} (pushed_to id x q' ss e) v = elim (Bool-cases (is_open q id)) [
    | inl o ↦ subst IsWellFormed (ground arith) (push_open-IsWellFormed q id x o v)
    | inr o ↦ absurd (ground arith)
  ]
  Step-IsWellFormed {q} (pulled_from id p q' r e) v = elim (Bool-cases (is_open q id)) [
    | inl o ↦ subst IsWellFormed (ground arith) (pull_open-IsWellFormed q id p o v)
    | inr o ↦ absurd (ground arith)
  ]
  Step-IsWellFormed {q} (closed id reason) v = close-IsWellFormed q id reason v

  -- In every queue that can be reached, a closed id holds no item and no waiting pull, and an open
  -- id never holds both an item and a waiting pull.
  pub Reach-IsWellFormed : {q : AsyncIdQueue T} → Reach q → IsWellFormed q
  Reach-IsWellFormed start = empty-IsWellFormed
  Reach-IsWellFormed (next r s) = Step-IsWellFormed s (Reach-IsWellFormed r)

  -- In a queue that can be reached, `open` of a closed id gives an empty channel, `open` of an
  -- open one changes nothing, and no other id is touched.
  pub channel-open_queue :
      {q : AsyncIdQueue T} (id : String)
      → Reach q
      → (j : String)
      → channel (open_queue q id) j
        ≡ (if str_eq id j then some (or_else (channel q id) new_channel) else channel q j)
  unfolding open_queue is_open
  channel-open_queue {q} id r j =
      let v = Reach-IsWellFormed r in
      ground
        (arith, get-set q.open_ids id tt j, v.closed_queues id, v.closed_waiters id, eq_iff id j)
