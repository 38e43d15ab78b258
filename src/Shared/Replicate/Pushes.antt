-- ===== src/Shared/Replicate/Pushes.antt =====
-- One turn of the loop of `start`: what the push to every replica gives to one of them.
use orpc.Prelude.{
  ℕ, String, true, false, Option, some, List, [], ◌∷◌, ◌++◌, map, ◌≡◌, ◌≢◌, ◌⊎◌, inl, inr, refl,
  arith, eq_iff, str_eq, if◌then◌else◌, IsIn,
}
use mathlib.Core.List.{append-nil}
use orpc.Shared.Queue.{AsyncIdQueue, Settlement, resolved, rejected, reject_all}
use orpc.Shared.Queue.Channel.{Channel, channel, pushed, push-Implements}
use orpc.Shared.Queue.Fifo.{received}
use orpc.Shared.Replicate.{Item, Event, settled, thrown, source_return, push_if_open, push_each}

-- What the promises of a replica receive, among the events of the program.
abbrev pub received_at : {T : Type 0} → String → List (Event T) → List (ℕ × Item T)
received_at id [] = []
received_at id (settled k (resolved p x) ∷ events) =
    if str_eq k id then (p, x) ∷ received_at id events else received_at id events
received_at id (settled k (rejected p r) ∷ events) = received_at id events
received_at id (thrown k p ∷ events) = received_at id events
received_at id (source_return ∷ events) = received_at id events

-- The id stands in the list once.
abbrev pub IsOnce : String → List String → Type 0
IsOnce id [] = ⊥
IsOnce id (k ∷ ids) = ((k ≡ id) × (IsIn id ids → ⊥)) ⊎ ((k ≢ id) × IsOnce id ids)

module _ {T : Type 0} where
  pub received_at-append :
      (id : String) (es fs : List (Event T))
      → received_at id (es ++ fs) ≡ received_at id es ++ received_at id fs
  received_at-append id [] fs = refl
  received_at-append id (settled k (resolved p x) ∷ es) fs =
      ground (arith, received_at-append id es fs)
  received_at-append id (settled k (rejected p r) ∷ es) fs = received_at-append id es fs
  received_at-append id (thrown k p ∷ es) fs = received_at-append id es fs
  received_at-append id (source_return ∷ es) fs = received_at-append id es fs

  pub received_at-settled :
      (id k : String) (ss : List (Settlement (Item T)))
      → received_at id (map (settled k) ss) ≡ (if str_eq k id then received ss else [])
  received_at-settled id k [] = ground arith
  received_at-settled id k (resolved p x ∷ ss) = ground (arith, received_at-settled id k ss)
  received_at-settled id k (rejected p r ∷ ss) = ground (arith, received_at-settled id k ss)

  received-reject_all :
      (reason : Option ℕ) (k : String) (ws : List ℕ)
      → received (reject_all {T = Item T} reason k ws) ≡ []
  unfolding reject_all
  received-reject_all reason k [] = refl
  received-reject_all reason k (w ∷ ws) = received-reject_all reason k ws

  -- what one push does to the channel of `id` and gives to its promises
  push_if_open-eq :
      (id k : String) (q : AsyncIdQueue (Item T)) (c : Channel (Item T)) (x : Item T)
      → channel q id ≡ some c
      → (channel (push_if_open q k x).0 id ≡ some (if str_eq k id then (pushed x c).0 else c))
        × (received_at id (push_if_open q k x).1
            ≡ (if str_eq k id then received (pushed x c).1 else []))
  unfolding push_if_open
  push_if_open-eq id k q c x h = elim (push-Implements q k x) [
    | inl (shut, e) ↦ ground (arith, eq_iff k id)
    | inr (ck, q', there, e, others) ↦
        ground (arith, others id, eq_iff k id, received_at-settled id k (pushed x ck).1)
  ]

  push_each-absent :
      (id : String) (ids : List String) (q : AsyncIdQueue (Item T)) (c : Channel (Item T))
      (x : Item T)
      → channel q id ≡ some c
      → (IsIn id ids → ⊥)
      → (channel (push_each q ids x).0 id ≡ some c) × (received_at id (push_each q ids x).1 ≡ [])
  unfolding push_each
  push_each-absent id [] q c x h n = (h, refl)
  push_each-absent id (k ∷ ids) q c x h n =
      let differs : str_eq k id ≡ false = ground (arith, eq_iff k id, λ (e : k ≡ id). n (inl e)) in
      let one = push_if_open-eq id k q c x h in
      let later =
        push_each-absent id ids (push_if_open q k x).0 c x (ground (arith, one)) (λ i. n (inr i)) in
      (
        later.0,
        ground (
          arith,
          later,
          one,
          received_at-append id (push_if_open q k x).1 (push_each (push_if_open q k x).0 ids x).1,
        ),
      )

  pub push_each-once :
      (id : String) (ids : List String) (q : AsyncIdQueue (Item T)) (c : Channel (Item T))
      (x : Item T)
      → channel q id ≡ some c
      → IsOnce id ids
      → (channel (push_each q ids x).0 id ≡ some (pushed x c).0)
        × (received_at id (push_each q ids x).1 ≡ received (pushed x c).1)
  unfolding push_each
  push_each-once id [] q c x h o = elim o [ ]
  push_each-once id (k ∷ ids) q c x h (inl (e, n)) =
      let same : str_eq k id ≡ true = ground (arith, eq_iff k id) in
      let one = push_if_open-eq id k q c x h in
      let later =
        push_each-absent id ids (push_if_open q k x).0 (pushed x c).0 x (ground (arith, one)) n in
      (
        later.0,
        ground (
          arith,
          later,
          one,
          append-nil (received (pushed x c).1),
          received_at-append id (push_if_open q k x).1 (push_each (push_if_open q k x).0 ids x).1,
        ),
      )
  push_each-once id (k ∷ ids) q c x h (inr (d, o)) =
      let differs : str_eq k id ≡ false = ground (arith, eq_iff k id) in
      let one = push_if_open-eq id k q c x h in
      let later = push_each-once id ids (push_if_open q k x).0 c x (ground (arith, one)) o in
      (
        later.0,
        ground (
          arith,
          later,
          one,
          received_at-append id (push_if_open q k x).1 (push_each (push_if_open q k x).0 ids x).1,
        ),
      )
