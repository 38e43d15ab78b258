-- ===== src/Shared/Replicate.antt =====
-- packages/shared/src/iterator.ts: `replicateAsyncIterator`. The source's `next()` settles when an
-- action says so, a consumer's `next` is named by the promise that it returns, and the cleanup of a
-- replica is called by the iterator class of the library. What the program does is a list of events.
pub mod Broadcast
pub mod Pushes
pub mod Returns
mod Tests
use orpc.Prelude.{
  ℕ, suc, zero, String, Bool, true, false, Option, none, some, List, [], ◌∷◌, ◌++◌, map, not, ◌&&◌,
  ◌||◌, ◌==◌, length, if◌then◌else◌,
}
use orpc.Shared.Queue
use orpc.Shared.Queue.{AsyncIdQueue, Settlement, resolved, Pulled, item, pending}

-- what the source's `next()` settles with: `{ done: false }`, `{ done: true }`, or an error
pub data Item (T : Type 0) : Type 0 where
  yielded : T → Item T
  returned : T → Item T
  failed : ℕ → Item T

-- the loop of `start`
pub data Loop : Type 0 where
  idle reading over : Loop

pub record Replicator (T : Type 0) : Type 0 where
  pub queue : AsyncIdQueue (Item T)
  pub ids : List String
  pub loop : Loop
  pub is_source_finished : Bool

pub data Action (T : Type 0) : Type 0 where
  -- `next` of a replica, with its promise
  next_call : String → ℕ → Action T
  -- `source.next()` settles, if the loop waits for it
  source_settles : Item T → Action T
  -- the cleanup of a replica: whether its kind is "cancelled", and its error
  cleanup : String → Bool → Option ℕ → Action T

pub data Event (T : Type 0) : Type 0 where
  -- a promise of a replica settles
  settled : String → Settlement (Item T) → Event T
  -- `next` of a replica throws, since its queue is closed
  thrown : String → ℕ → Event T
  -- `source.return()` is called
  source_return : Event T

-- the item ends the loop of `start`
abbrev pub ends : {T : Type 0} → Item T → Bool
ends (yielded x) = false
ends (returned x) = true
ends (failed e) = true

-- `Array.from({ length: count }, (_, i) => i.toString())`, from an index on
abbrev pub ids_from : (ℕ → String) → ℕ → ℕ → List String
ids_from to_string i zero = []
ids_from to_string i (suc count) = to_string i ∷ ids_from to_string (suc i) count

-- `start()`, which runs once
abbrev pub started : Loop → Loop
started idle = reading
started reading = reading
started over = over

module _ {T : Type 0} where
  unfoldable pub open_each : List String → AsyncIdQueue (Item T) → AsyncIdQueue (Item T)
  open_each [] q = q
  open_each (id ∷ ids) q = open_each ids (Queue.open_queue q id)

  unfoldable pub replicate : (ℕ → String) → ℕ → Replicator T
  unfolding open_each
  replicate to_string count = record {
    queue = open_each (ids_from to_string 0 count) Queue.empty;
    ids = ids_from to_string 0 count;
    loop = idle;
    is_source_finished = false;
  }

  abbrev pub after_push :
      AsyncIdQueue (Item T)
      → String
      → Option (AsyncIdQueue (Item T) × List (Settlement (Item T)))
      → AsyncIdQueue (Item T) × List (Event T)
  after_push q id none = (q, [])
  after_push q id (some (q', settlements)) = (q', map (settled id) settlements)

  unfoldable pub push_if_open :
      AsyncIdQueue (Item T) → String → Item T → AsyncIdQueue (Item T) × List (Event T)
  push_if_open q id x = if Queue.is_open q id then after_push q id (Queue.push q id x) else (q, [])

  -- `ids.forEach(...)`
  unfoldable pub push_each :
      AsyncIdQueue (Item T) → List String → Item T → AsyncIdQueue (Item T) × List (Event T)
  unfolding push_if_open
  push_each q [] x = (q, [])
  push_each q (id ∷ ids) x =
      let (q', events) = push_if_open q id x in
      let later = push_each q' ids x in (later.0, events ++ later.1)

  -- One turn of the loop: the item goes to every replica whose queue is open.
  unfoldable pub read : Replicator T → Item T → Replicator T × List (Event T)
  unfolding push_each
  read s x =
      let pushed = push_each s.queue s.ids x in
      (
        record s {
          queue = pushed.0;
          loop = if ends x then over else reading;
          is_source_finished = ends x || s.is_source_finished;
        },
        pushed.1,
      )

  abbrev pub after_pull :
      Replicator T
      → String
      → ℕ
      → Option (AsyncIdQueue (Item T) × Pulled (Item T))
      → Replicator T × List (Event T)
  after_pull s id p none = (s, thrown id p ∷ [])
  after_pull s id p (some (q, item x)) = (record s { queue = q }, settled id (resolved p x) ∷ [])
  after_pull s id p (some (q, pending)) = (record s { queue = q }, [])

  -- `next` of a replica
  unfoldable pub next : Replicator T → String → ℕ → Replicator T × List (Event T)
  next s id p = after_pull (record s { loop = started s.loop }) id p (Queue.pull s.queue id p)

  -- the cleanup of a replica, behind the close of its queue
  unfoldable pub return_source : Replicator T → Bool → Replicator T × List (Event T)
  return_source s cancelled =
      if cancelled && (length s.queue.open_ids == 0) && not s.is_source_finished
      then (record s { is_source_finished = true }, source_return ∷ [])
      else (s, [])

  unfoldable pub clean_up : Replicator T → String → Bool → Option ℕ → Replicator T × List (Event T)
  unfolding return_source
  clean_up s id cancelled error =
      let (q, rejections) = Queue.close s.queue (some id) error in
      let (s', events) = return_source (record s { queue = q }) cancelled in
      (s', map (settled id) rejections ++ events)

  unfoldable pub step : Replicator T → Action T → Replicator T × List (Event T)
  unfolding read next clean_up
  step s (next_call id p) = next s id p
  step s (source_settles x) = elim s.loop [ reading ↦ read s x | _ ↦ (s, []) ]
  step s (cleanup id cancelled error) = clean_up s id cancelled error

  unfoldable pub run : Replicator T → List (Action T) → List (Event T)
  unfolding step
  run s [] = []
  run s (a ∷ actions) = let (s', events) = step s a in events ++ run s' actions
