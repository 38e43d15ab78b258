-- ===== src/Publisher/Memory.antt =====
-- packages/publisher/src/adapters/memory.ts: `MemoryPublisher`. Each reading of the clock is an
-- argument, in milliseconds. A listener is a number; what it is called with is an output.
pub mod Buckets
pub mod Reachable
pub mod Cleanup
pub mod Resume
use orpc.Prelude.{
  ℕ, zero, suc, ◌+◌, ◌*◌, String, Bool, true, false, Option, none, some, List, [], ◌∷◌, ◌++◌, map,
  ltb, leb, not, ◌||◌, ◌==◌, length, drop, if◌then◌else◌, or_else, any,
}
use orpc.Prelude.JsMap
use orpc.Prelude.JsMap.{JsMap, get}
use orpc.Publisher.SequentialId.{Sign, positive, compare_sequential_ids}
use orpc.Publisher.Bisect.{find_index}

abbrev pub EventId : Type 0
EventId = List ℕ

-- `unwrapEvent`, `withEventMeta` and `getEventMeta` of the event library, and the ids that
-- `SequentialIdGenerator` generates one after the other
pub record Events (P : Type 0) : Type 0 where
  pub with_id : P → EventId → P
  pub id_of : P → Option EventId
  pub generate : ℕ → EventId

pub record StoredEvent (P : Type 0) : Type 0 where
  pub expires_at : ℕ
  pub payload : P

pub record Options : Type 0 where
  pub resume_enabled : Bool
  pub resume_seconds : ℕ

pub record MemoryPublisher (P : Type 0) : Type 0 where
  pub listeners : JsMap (List ℕ)
  pub generated : ℕ
  pub events : JsMap (List (StoredEvent P))
  pub last_cleanup_time : ℕ

-- the function that `subscribeListener` returns, wrapped by `once`
pub record Unsubscribe : Type 0 where
  pub event : String
  pub listener : ℕ
  pub called : Bool

abbrev pub retention : Options → ℕ
retention o = o.resume_seconds * 1000

abbrev pub bucket_of : {A : Type 0} → JsMap (List A) → String → List A
bucket_of m event = or_else (get m event) []

abbrev pub is_positive : Sign → Bool
is_positive positive = true
is_positive _ = false

abbrev pub remove_last : List ℕ → List ℕ
remove_last [] = []
remove_last (k ∷ []) = []
remove_last (k ∷ l ∷ ks) = k ∷ remove_last (l ∷ ks)

unfoldable pub remove_first : ℕ → List ℕ → List ℕ
remove_first l [] = []
remove_first l (k ∷ ks) = if k == l then ks else k ∷ remove_first l ks

-- `listeners.splice(listeners.indexOf(listener), 1)`: index -1 is the last element
unfoldable pub splice_index_of : ℕ → List ℕ → List ℕ
unfolding remove_first
splice_index_of l ks = if any (λ k. k == l) ks then remove_first l ks else remove_last ks

abbrev pub put_listeners : JsMap (List ℕ) → String → List ℕ → JsMap (List ℕ)
put_listeners m event [] = JsMap.delete m event
put_listeners m event (l ∷ ls) = JsMap.set m event (l ∷ ls)

module _ {P : Type 0} where
  abbrev pub start : MemoryPublisher P
  start = record { listeners = []; generated = 0; events = []; last_cleanup_time = 0 }

  -- `findFirstUnexpiredIndex`: the test goes to the left where the event has not expired
  abbrev pub is_unexpired : ℕ → StoredEvent P → Bool
  is_unexpired now e = not (leb e.expires_at now)

  -- `bucket.splice(0, findFirstUnexpiredIndex(bucket, now))`
  unfoldable pub unexpired : ℕ → List (StoredEvent P) → List (StoredEvent P)
  unexpired now bucket = drop (find_index (is_unexpired now) bucket) bucket

  -- the loop over `eventsMap`
  unfoldable pub clean_buckets : ℕ → JsMap (List (StoredEvent P)) → JsMap (List (StoredEvent P))
  clean_buckets now [] = []
  clean_buckets now ((key, bucket) ∷ m) =
      let rest = clean_buckets now m in
      elim (unexpired now bucket) [ [] ↦ rest | e ∷ es ↦ (key, e ∷ es) ∷ rest ]

  unfoldable pub cleanup : Options → ℕ → MemoryPublisher P → MemoryPublisher P
  cleanup o now s =
      if not o.resume_enabled || ltb now (s.last_cleanup_time + retention o)
      then s
      else record s { last_cleanup_time = now; events = clean_buckets now s.events }

  -- `listeners?.forEach(listener => listener(payload))`
  abbrev pub notify : MemoryPublisher P → String → P → List (ℕ × P)
  notify s event payload = map (λ l. (l, payload)) (bucket_of s.listeners event)

  module _ (ev : Events P) where
    -- an event with the next id, behind the others of its bucket
    unfoldable pub store : Options → ℕ → String → P → MemoryPublisher P → MemoryPublisher P × P
    store o now event payload s =
        let stamped = ev.with_id payload (ev.generate s.generated) in
        let e : StoredEvent P = record { expires_at = now + retention o; payload = stamped } in
        (
          record s {
            events = JsMap.set s.events event (bucket_of s.events event ++ e ∷ []);
            generated = suc s.generated;
          },
          stamped,
        )

    -- `publish`; the clock is read in `cleanup` and for the expiry
    unfoldable pub publish :
        Options → ℕ → ℕ → String → P → MemoryPublisher P → MemoryPublisher P × List (ℕ × P)
    publish o now now' event payload s =
        let s1 = cleanup o now s in
        if o.resume_enabled
        then (let (s2, stamped) = store o now' event payload s1 in (s2, notify s2 event stamped))
        else (s1, notify s1 event payload)

    -- `id !== undefined && compareSequentialIds(id, lastEventId) > 0`
    abbrev pub is_after : EventId → StoredEvent P → Bool
    is_after last e = elim (ev.id_of e.payload) [
      | none ↦ false
      | some id ↦ is_positive (compare_sequential_ids id last)
    ]

    -- the loop from `findResumeStartIndex(bucket, lastEventId)`
    unfoldable pub missed : EventId → List (StoredEvent P) → List P
    missed last bucket = map (λ e. e.payload) (drop (find_index (is_after last) bucket) bucket)

    -- What a new subscriber is called with at once.
    abbrev pub replayed : Options → Option EventId → List (StoredEvent P) → List P
    replayed o none bucket = []
    replayed o (some last) bucket = if o.resume_enabled then missed last bucket else []

    unfoldable pub subscribe_listener :
        Options
        → ℕ
        → String
        → ℕ
        → Option EventId
        → MemoryPublisher P
        → MemoryPublisher P × List P × Unsubscribe
    subscribe_listener o now event listener last s =
        let s1 = cleanup o now s in
        (
          record s1 {
            listeners =
                JsMap.set s1.listeners event (bucket_of s1.listeners event ++ listener ∷ []);
          },
          replayed o last (bucket_of s1.events event),
          record { event = event; listener = listener; called = false },
        )

  -- a call of the returned function; a second call does nothing
  unfoldable pub unsubscribe : Unsubscribe → MemoryPublisher P → MemoryPublisher P × Unsubscribe
  unfolding splice_index_of
  unsubscribe u s = if u.called then (s, u) else (
    record s {
      listeners =
          put_listeners s.listeners u.event
            (splice_index_of u.listener (bucket_of s.listeners u.event));
    },
    record u { called = true },
  )
