-- ===== src/Shared/Queue/Tests.antt =====
-- The queue of packages/shared/src/queue.ts on concrete calls.
use orpc.Prelude.{ℕ, none, some, List, [], ◌∷◌, ◌≡◌, refl, zip}
use orpc.Prelude.JsMap.{get, set, delete}
use orpc.Shared.Queue.{
  AsyncIdQueue, rejected, given, empty, open_queue, is_open, push, pull, close, push_open,
  pull_open,
}
use orpc.Shared.Queue.Fifo.{
  Call, push_call, open_call, close_call, pull_call, deliveries, pushes_to, pulls_from,
  deliveries_fifo,
}
use orpc.Shared.Queue.Closing.{
  IsWellFormed, Reach, start, next, opened, pushed_to, Reach-IsWellFormed,
}

queue : Unit {0}
unfolding open_queue is_open push pull close deliveries empty get set delete
queue = tt

abbrev opened_one : AsyncIdQueue ℕ
opened_one = open_queue empty "1"

abbrev calls : List (Call ℕ)
calls =
    pull_call "1" 7
    ∷ open_call "2"
    ∷ push_call "2" 40
    ∷ push_call "1" 41
    ∷ push_call "1" 42
    ∷ pull_call "1" 8
    ∷ close_call (some "2") none
    ∷ pull_call "2" 9
    ∷ open_call "1"
    ∷ pull_call "1" 10
    ∷ []

-- an id that is not open throws, a waiting pull is served first, and `close` rejects it
queue_tests :
    (push opened_one "2" 5 ≡ none)
    × (deliveries "1" opened_one calls ≡ (7, 41) ∷ (8, 42) ∷ [])
    × ((close (pull_open opened_one "1" 3).0 (some "1") (some 9)).1 ≡ rejected 3 (given 9) ∷ [])
unfolding queue
queue_tests = (refl, refl, refl)

deliveries_fifo_example :
    deliveries "1" opened_one calls ≡ zip (pulls_from "1" calls) (pushes_to "1" calls)
deliveries_fifo_example = deliveries_fifo "1" calls opened_one (unfold queue in refl) (refl, tt)

abbrev one_item : AsyncIdQueue ℕ
one_item = (push_open opened_one "1" 5).0

reach_item : Reach one_item
unfolding queue
reach_item = next (next start (opened "1")) (pushed_to "1" 5 one_item [] refl)

Reach-IsWellFormed_example : IsWellFormed one_item
Reach-IsWellFormed_example = Reach-IsWellFormed reach_item

abbrev waiting : AsyncIdQueue ℕ
waiting = (pull_open opened_one "1" 3).0
