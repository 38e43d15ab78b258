-- ===== src/Shared/Queue.antt =====
-- packages/shared/src/queue.ts: `AsyncIdQueue`. A promise is named by a number, which `pull` is
-- given; settling it is an output of the operation. A throw is `none`, and changes nothing.
pub mod Channel
pub mod Closing
pub mod Fifo
pub mod Rejections
mod Tests
use orpc.Prelude.{
  ℕ, String, Bool, Option, none, some, List, [], ◌∷◌, ◌++◌, map, or_else, if◌then◌else◌,
}
use orpc.Prelude.JsMap
use orpc.Prelude.JsMap.{JsMap, get, is_some}

-- The value that a pull is rejected with: the caller's reason, or an `AbortError` naming the queue.
pub data Reason : Type 0 where
  given : ℕ → Reason
  abort_error : String → Reason

pub data Settlement (T : Type 0) : Type 0 where
  resolved : ℕ → T → Settlement T
  rejected : ℕ → Reason → Settlement T

pub record AsyncIdQueue (T : Type 0) : Type 0 where
  pub open_ids : JsMap (Unit {0})
  pub queues : JsMap (List T)
  pub waiters : JsMap (List ℕ)

-- what `pull` returns: an item at once, or a promise that waits
pub data Pulled (T : Type 0) : Type 0 where
  item : T → Pulled T
  pending : Pulled T

-- what is left after a shift; an emptied list is deleted
unfoldable pub keep_rest {ℓ} : {A : Type ℓ} → JsMap (List A) → String → List A → JsMap (List A)
keep_rest m id [] = JsMap.delete m id
keep_rest m id (a ∷ rest) = JsMap.set m id (a ∷ rest)

-- The first of a list that is there and not empty, with the map after the shift.
unfoldable pub shift {ℓ} : {A : Type ℓ} → JsMap (List A) → String → Option (A × JsMap (List A))
unfolding keep_rest
shift m id = elim (get m id) [ some (a ∷ rest) ↦ some (a, keep_rest m id rest) | _ ↦ none ]

-- `push` with no waiter and `pull` with no item: the list at the key grows, or is made.
unfoldable pub append_at {ℓ} : {A : Type ℓ} → JsMap (List A) → String → A → JsMap (List A)
append_at m id a = elim (get m id) [
  | some old ↦ JsMap.set m id (old ++ a ∷ [])
  | none ↦ JsMap.set m id (a ∷ [])
]

-- `reason ?? new AbortError(...)`
abbrev pub reason_for : Option ℕ → String → Reason
reason_for none id = abort_error id
reason_for (some r) id = given r

module _ {T : Type 0} where
  unfoldable pub empty : AsyncIdQueue T
  empty = record { open_ids = []; queues = []; waiters = [] }

  unfoldable pub open_queue : AsyncIdQueue T → String → AsyncIdQueue T
  open_queue q id = record q { open_ids = JsMap.set q.open_ids id tt }

  unfoldable pub is_open : AsyncIdQueue T → String → Bool
  is_open q id = is_some (get q.open_ids id)

  unfoldable pub push_open : AsyncIdQueue T → String → T → AsyncIdQueue T × List (Settlement T)
  unfolding shift append_at
  push_open q id x = elim (shift q.waiters id) [
    | some (w, waiters) ↦ (record q { waiters = waiters }, resolved w x ∷ [])
    | none ↦ (record q { queues = append_at q.queues id x }, [])
  ]

  unfoldable pub push : AsyncIdQueue T → String → T → Option (AsyncIdQueue T × List (Settlement T))
  unfolding is_open push_open
  push q id x = if is_open q id then some (push_open q id x) else none

  unfoldable pub pull_open : AsyncIdQueue T → String → ℕ → AsyncIdQueue T × Pulled T
  unfolding shift append_at
  pull_open q id p = elim (shift q.queues id) [
    | some (x, queues) ↦ (record q { queues = queues }, item x)
    | none ↦ (record q { waiters = append_at q.waiters id p }, pending)
  ]

  unfoldable pub pull : AsyncIdQueue T → String → ℕ → Option (AsyncIdQueue T × Pulled T)
  unfolding is_open pull_open
  pull q id p = if is_open q id then some (pull_open q id p) else none

  unfoldable pub reject_all : Option ℕ → String → List ℕ → List (Settlement T)
  reject_all reason id ws = map (λ w. rejected w (reason_for reason id)) ws

  unfoldable pub reject_each : Option ℕ → JsMap (List ℕ) → List (Settlement T)
  unfolding reject_all
  reject_each reason [] = []
  reject_each reason ((id, ws) ∷ m) = reject_all reason id ws ++ reject_each reason m

  abbrev pub waiting_for : AsyncIdQueue T → String → List ℕ
  waiting_for q id = or_else (get q.waiters id) []

  -- `close({ id, reason })`; without an id every queue is closed
  unfoldable pub close :
      AsyncIdQueue T → Option String → Option ℕ → AsyncIdQueue T × List (Settlement T)
  unfolding reject_each empty
  close q none reason = (empty, reject_each reason q.waiters)
  close q (some id) reason = (
    record {
      open_ids = JsMap.delete q.open_ids id;
      queues = JsMap.delete q.queues id;
      waiters = JsMap.delete q.waiters id;
    },
    reject_all reason id (waiting_for q id),
  )
