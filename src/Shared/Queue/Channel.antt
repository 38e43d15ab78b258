-- ===== src/Shared/Queue/Channel.antt =====
-- What `AsyncIdQueue` promises: each id is a channel of its own, closed or open, with items that
-- wait for a pull or pulls that wait for an item, never both.
use orpc.Prelude.{
  ℕ, String, true, Option, none, some, List, [], ◌∷◌, ◌++◌, ◌≡◌, ◌⊎◌, inl, inr, refl, arith, eq_iff,
  str_eq, if◌then◌else◌, or_else, Option-cases, Bool-cases,
}
use orpc.Prelude.JsMap.{JsMap, get, get-set, get-delete}
use orpc.Shared.Queue.{
  AsyncIdQueue, Settlement, resolved, Pulled, item, pending, is_open, push, pull, push_open,
  pull_open, append_at, keep_rest, shift,
}

-- a list in a map, where a missing key stands for the empty list
abbrev pub at {ℓ} : {A : Type ℓ} → JsMap (List A) → String → List A
at m id = or_else (get m id) []

pub at-keep_rest {ℓ} :
    {A : Type ℓ} (m : JsMap (List A)) (id : String) (rest : List A) (j : String)
    → at (keep_rest m id rest) j ≡ (if str_eq id j then rest else at m j)
unfolding keep_rest
at-keep_rest m id [] j = ground (arith, get-delete m id j)
at-keep_rest m id (a ∷ rest) j = ground (arith, get-set m id (a ∷ rest) j)

pub at-append_at {ℓ} :
    {A : Type ℓ} (m : JsMap (List A)) (id : String) (a : A) (j : String)
    → at (append_at m id a) j ≡ (if str_eq id j then at m id ++ a ∷ [] else at m j)
unfolding append_at
at-append_at m id a j = ground (arith, get-set m id (a ∷ []) j, get-set m id (at m id ++ a ∷ []) j)

-- Either nothing is there to shift, or the first one is taken and the rest stays.
pub shift-cases {ℓ} :
    {A : Type ℓ} (m : JsMap (List A)) (id : String)
    → ((at m id ≡ []) × (shift m id ≡ none))
      ⊎ ((a : A) × (rest : List A) × (m' : JsMap (List A)) × (at m id ≡ a ∷ rest)
          × (shift m id ≡ some (a, m'))
          × ((j : String) → at m' j ≡ (if str_eq id j then rest else at m j)))
unfolding shift
shift-cases {A} m id = elim (Option-cases (get m id)) [
  | inl e ↦ rw (e, shift) (inl (refl, refl))
  | inr ([], e) ↦ rw (e, shift) (inl (refl, refl))
  | inr (a ∷ rest, e) ↦
      inr (a, rest, keep_rest m id rest, ground arith, ground arith, at-keep_rest m id rest)
]

pub record Channel (T : Type 0) : Type 0 where
  pub items : List T
  pub pulls : List ℕ

-- The channel that a queue shows at an id; `none` is a closed one.
abbrev pub channel : {T : Type 0} → AsyncIdQueue T → String → Option (Channel T)
channel q id =
    if is_open q id then some (record { items = at q.queues id; pulls = at q.waiters id }) else none

-- What a push and a pull do to an open channel.
abbrev pub pushed : {T : Type 0} → T → Channel T → Channel T × List (Settlement T)
pushed x c = elim c.pulls [
  | [] ↦ (record c { items = c.items ++ x ∷ [] }, [])
  | w ∷ rest ↦ (record c { pulls = rest }, resolved w x ∷ [])
]

abbrev pub pulled : {T : Type 0} → ℕ → Channel T → Channel T × Pulled T
pulled p c = elim c.items [
  | [] ↦ (record c { pulls = c.pulls ++ p ∷ [] }, pending)
  | x ∷ rest ↦ (record c { items = rest }, item x)
]

abbrev pub new_channel : {T : Type 0} → Channel T
new_channel = record { items = []; pulls = [] }

-- The channel of an id that is open.
abbrev pub inside : {T : Type 0} → AsyncIdQueue T → String → Channel T
inside q id = record { items = at q.queues id; pulls = at q.waiters id }

module _ {T : Type 0} (q : AsyncIdQueue T) (id : String) where
  channel-push_open :
      (x : T)
      → is_open q id ≡ true
      → (j : String)
      → channel (push_open q id x).0 j
        ≡ (if str_eq id j then some (pushed x (inside q id)).0 else channel q j)
  unfolding push_open is_open
  channel-push_open x h j = elim (shift-cases q.waiters id) [
    | inl (none_left, e) ↦ ground (arith, at-append_at q.queues id x j, eq_iff id j)
    | inr (w, rest, m', first, e, later) ↦ ground (arith, later j, eq_iff id j)
  ]

  settlements-push_open : (x : T) → (push_open q id x).1 ≡ (pushed x (inside q id)).1
  unfolding push_open
  settlements-push_open x = elim (shift-cases q.waiters id) [
    | inl (none_left, e) ↦ ground arith
    | inr (w, rest, m', first, e, later) ↦ ground arith
  ]

  channel-pull_open :
      (p : ℕ)
      → is_open q id ≡ true
      → (j : String)
      → channel (pull_open q id p).0 j
        ≡ (if str_eq id j then some (pulled p (inside q id)).0 else channel q j)
  unfolding pull_open is_open
  channel-pull_open p h j = elim (shift-cases q.queues id) [
    | inl (none_left, e) ↦ ground (arith, at-append_at q.waiters id p j, eq_iff id j)
    | inr (x, rest, m', first, e, later) ↦ ground (arith, later j, eq_iff id j)
  ]

  result-pull_open : (p : ℕ) → (pull_open q id p).1 ≡ (pulled p (inside q id)).1
  unfolding pull_open
  result-pull_open p = elim (shift-cases q.queues id) [
    | inl (none_left, e) ↦ ground arith
    | inr (x, rest, m', first, e, later) ↦ ground arith
  ]

-- `r` fails exactly on a closed channel; on an open one it gives the result and the channel that
-- the specification gives, and every other channel is as before.
abbrev pub Implements :
    {T R : Type 0}
    → AsyncIdQueue T
    → String
    → (Channel T → Channel T × R)
    → Option (AsyncIdQueue T × R)
    → Type 0
Implements {T} {R} q id spec r =
    ((channel q id ≡ none) × (r ≡ none))
    ⊎ ((c : Channel T) × (q' : AsyncIdQueue T) × (channel q id ≡ some c)
        × (r ≡ some (q', (spec c).1))
        × ((j : String) → channel q' j ≡ (if str_eq id j then some (spec c).0 else channel q j)))

module _ {T : Type 0} (q : AsyncIdQueue T) (id : String) where
  -- `push` hands the item to the pull that has waited longest, or stores it behind the items that
  -- wait; it throws exactly when the id is not open, and no other id is touched.
  pub push-Implements : (x : T) → Implements q id (pushed x) (push q id x)
  unfolding push
  push-Implements x = elim (Bool-cases (is_open q id)) [
    | inl h ↦ inr (
      inside q id,
      (push_open q id x).0,
      rw h,
      rw h (rw (← settlements-push_open q id x)),
      channel-push_open q id x h,
    )
    | inr h ↦ inl (rw h, rw h)
  ]

  -- `pull` takes the oldest item, or waits behind the pulls that wait; it throws exactly when the
  -- id is not open, and no other id is touched.
  pub pull-Implements : (p : ℕ) → Implements q id (pulled p) (pull q id p)
  unfolding pull
  pull-Implements p = elim (Bool-cases (is_open q id)) [
    | inl h ↦ inr (
      inside q id,
      (pull_open q id p).0,
      rw h,
      rw h (rw (← result-pull_open q id p)),
      channel-pull_open q id p h,
    )
    | inr h ↦ inl (rw h, rw h)
  ]
