-- ===== src/Shared/Replicate/Tests.antt =====
-- `replicateAsyncIterator` of packages/shared/src/iterator.ts with concrete consumers.
use orpc.Prelude.{
  ℕ, ◌==◌, ◌<◌, eq_iff, String, true, none, some, List, [], ◌∷◌, ◌≡◌, ◌⊎◌, refl, arith, zip,
  if◌then◌else◌,
}
use orpc.Prelude.JsMap.{get, set, delete}
use orpc.Shared.Queue.{
  empty, open_queue, is_open, push, pull, close, push_open, pull_open, reject_all,
}
use orpc.Shared.Replicate.{
  yielded, returned, idle, Action, next_call, source_settles, cleanup, open_each, replicate,
  push_if_open, push_each, next, read, return_source, clean_up, step, run,
}
use orpc.Shared.Replicate.Pushes.{received_at}
use orpc.Shared.Replicate.Broadcast.{promises_of, source_items, replicas_receive_all}
use orpc.Shared.Replicate.Returns.{AreLive, returns, state_after, source_returns_once}

replication : Unit {0}
unfolding open_each replicate push_if_open push_each next read return_source clean_up step run empty
    open_queue is_open push pull close push_open pull_open reject_all get set delete
replication = tt

-- three replicas, of which the second is cancelled before the source ends
abbrev name : ℕ → String
name i = if i == 0 then "0" else if i == 1 then "1" else "2"

abbrev actions : List (Action ℕ)
actions =
    next_call "0" 7
    ∷ next_call "1" 8
    ∷ source_settles (yielded 40)
    ∷ next_call "0" 9
    ∷ next_call "1" 10
    ∷ cleanup "1" true (some 5)
    ∷ source_settles (yielded 41)
    ∷ next_call "1" 11
    ∷ source_settles (returned 42)
    ∷ next_call "0" 12
    ∷ []

-- The first replica receives all, the second what came before it was cancelled.
replication_tests :
    (received_at "0" (run (replicate name 3) actions)
      ≡ (7, yielded 40) ∷ (9, yielded 41) ∷ (12, returned 42) ∷ [])
    × (received_at "1" (run (replicate name 3) actions) ≡ (8, yielded 40) ∷ [])
    × (returns {T = ℕ} (run (replicate name 1) (cleanup "0" true none ∷ cleanup "0" true none ∷ []))
        ≡ 1)
unfolding replication
replication_tests = (refl, refl, refl)

name-differ : (j : ℕ) → j < 3 → name j ≡ name 0 → j ≡ 0
name-differ j l e = ground (arith, eq_iff "1" "0", eq_iff "2" "0")

replicas_receive_all_example :
    received_at "0" (run (replicate name 3) actions)
    ≡ zip (promises_of "0" actions) (source_items idle actions)
replicas_receive_all_example =
    replicas_receive_all name 3 0 actions name-differ (omega arith) (refl, tt)

-- one item is given, and then the only replica is cancelled
abbrev one_item : List (Action ℕ)
one_item = next_call "0" 7 ∷ source_settles (yielded 5) ∷ []

source_returns_once_example :
    (returns (step (state_after (replicate name 1) one_item) (cleanup "0" true none)).1 ≡ 0)
    ⊎ ((returns (step (state_after (replicate name 1) one_item) (cleanup "0" true none)).1 ≡ 1)
        × ((step (state_after (replicate name 1) one_item) (cleanup "0" true none)).0.queue.open_ids
            ≡ [])
        × AreLive (source_items idle one_item)
        × (returns (run (replicate name 1) one_item) ≡ 0)
        × (returns (
              run
                (step (state_after (replicate name 1) one_item) (cleanup "0" true none)).0
                actions)
            ≡ 0))
source_returns_once_example = source_returns_once name 1 one_item (cleanup "0" true none) actions
