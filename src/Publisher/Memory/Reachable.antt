-- ===== src/Publisher/Memory/Reachable.antt =====
-- The publishers that calls lead to, while the clock does not go back.
use orpc.Prelude.{
  ℕ, suc, ◌+◌, ◌≤◌, String, Option, some, List, ◌≡◌, arith, str_eq, Bool-cases, inl, inr, not, ltb,
  ◌||◌,
}
use orpc.Prelude.JsMap.{JsMap, get, IsDistinct, set-IsDistinct}
use orpc.Publisher.Bisect.{find_index}
use orpc.Publisher.Memory.{
  EventId, Events, Options, MemoryPublisher, Unsubscribe, start, bucket_of, unexpired, is_unexpired,
  cleanup, store, publish, subscribe_listener, unsubscribe, retention,
}
use orpc.Publisher.Memory.Buckets.{
  bucket_of-clean_buckets, clean_buckets-IsDistinct, IsRegular, IsRegular-weaken, IsRegular-drop,
  IsRegular-append, bucket_of-set,
}

module _ {P : Type 0} (ev : Events P) (o : Options) where
  -- One call of the publisher, with the time before and the time after it.
  pub data Step (s : MemoryPublisher P) (t : ℕ) : MemoryPublisher P → ℕ → Type 0 where
    published :
        (now now' : ℕ) (event : String) (payload : P)
        → t ≤ now
        → now ≤ now'
        → Step s t (publish ev o now now' event payload s).0 now'
    subscribed :
        (now : ℕ) (event : String) (listener : ℕ) (last : Option EventId)
        → t ≤ now
        → Step s t (subscribe_listener ev o now event listener last s).0 now
    unsubscribed : (u : Unsubscribe) → Step s t (unsubscribe u s).0 t

  pub data Reach : MemoryPublisher P → ℕ → Type 0 where
    begin : Reach start 0
    next : {s s' : MemoryPublisher P} {t t' : ℕ} → Reach s t → Step s t s' t' → Reach s' t'

  -- No event has two buckets, and every bucket holds events with the ids generated so far, in turn,
  -- which expire in turn, none later than a retention period from now.
  pub record IsSound (s : MemoryPublisher P) (t : ℕ) : Type 0 where
    pub distinct : IsDistinct s.events
    pub regular :
        (j : String) → IsRegular ev 0 s.generated 0 (t + retention o) (bucket_of s.events j)

  module _ (lawful : (p : P) (id : EventId) → ev.id_of (ev.with_id p id) ≡ some id) where
    later-IsSound : (s : MemoryPublisher P) (t t' : ℕ) → t ≤ t' → IsSound s t → IsSound s t'
    later-IsSound s t t' h v = record {
      distinct = v.distinct;
      regular = λ j.
          IsRegular-weaken ev 0 s.generated 0 (t' + retention o) (bucket_of s.events j)
            (omega arith) (omega arith) (omega arith) (omega arith) (v.regular j);
    }

    pub cleanup-IsSound :
        (s : MemoryPublisher P) (t now : ℕ) → IsSound s t → IsSound (cleanup o now s) t
    unfolding cleanup
    cleanup-IsSound s t now v =
        elim (Bool-cases (not o.resume_enabled || ltb now (s.last_cleanup_time + retention o))) [
          | inl e ↦ rw e v
          | inr e ↦ rw e (record {
            distinct = clean_buckets-IsDistinct now s.events v.distinct;
            regular = λ j. rw (bucket_of-clean_buckets now s.events j v.distinct) (
                unfold unexpired in
                IsRegular-drop ev 0 s.generated 0 (t + retention o)
                  (find_index (is_unexpired now) (bucket_of s.events j)) (bucket_of s.events j)
                  (v.regular j));
          })
        ]

    store-IsSound :
        (s : MemoryPublisher P) (t now : ℕ) (event : String) (payload : P)
        → t ≤ now
        → IsSound s t
        → IsSound (store ev o now event payload s).0 now
    unfolding store
    store-IsSound s t now event payload h v = record {
      distinct = set-IsDistinct s.events event _ v.distinct;
      regular = λ j. rw bucket_of-set (elim (Bool-cases (str_eq event j)) [
        | inl e ↦ rw e (
            IsRegular-append ev 0 s.generated 0 (t + retention o) (bucket_of s.events event)
              (record {
                expires_at = now + retention o;
                payload = ev.with_id payload (ev.generate s.generated);
              })
              (v.regular event) (omega arith) (omega arith) (omega arith)
              (lawful payload (ev.generate s.generated)))
        | inr e ↦ rw e (
            IsRegular-weaken ev 0 (suc s.generated) 0 (now + retention o) (bucket_of s.events j)
              (omega arith) (omega arith) (omega arith) (omega arith) (v.regular j))
      ]);
    }

    publish-IsSound :
        (s : MemoryPublisher P) (t now now' : ℕ) (event : String) (payload : P)
        → t ≤ now
        → now ≤ now'
        → IsSound s t
        → IsSound (publish ev o now now' event payload s).0 now'
    unfolding publish
    publish-IsSound s t now now' event payload h k v =
        let v1 = cleanup-IsSound s t now v in
        elim (Bool-cases o.resume_enabled) [
          | inl e ↦ simp e (store-IsSound (cleanup o now s) t now' event payload (omega arith) v1)
          | inr e ↦ simp e (later-IsSound (cleanup o now s) t now' (omega arith) v1)
        ]

    relisten-IsSound :
        (s : MemoryPublisher P) (t : ℕ) (m : JsMap (List ℕ))
        → IsSound s t
        → IsSound (record s { listeners = m }) t
    relisten-IsSound s t m v = record { distinct = v.distinct; regular = v.regular }

    Step-IsSound :
        {s s' : MemoryPublisher P} {t t' : ℕ} → Step s t s' t' → IsSound s t → IsSound s' t'
    Step-IsSound {s} {t = t} (published now now' event payload h k) v =
        publish-IsSound s t now now' event payload h k v
    Step-IsSound {s} {t = t} (subscribed now event listener last h) v =
        unfold subscribe_listener in
        relisten-IsSound (cleanup o now s) now _
          (later-IsSound (cleanup o now s) t now h (cleanup-IsSound s t now v))
    Step-IsSound {s} {t = t} (unsubscribed u) v = elim (Bool-cases u.called) [
      | inl e ↦ unfold unsubscribe in simp e v
      | inr e ↦ unfold unsubscribe in simp e (relisten-IsSound s t _ v)
    ]

    -- Whatever calls have been made while the clock did not go back: no event has two buckets, and
    -- each bucket holds events with ids in the order of their generation, none of them from a number
    -- not used yet, and with expiries that do not fall.
    pub Reach-IsSound : {s : MemoryPublisher P} {t : ℕ} → Reach s t → IsSound s t
    Reach-IsSound begin = record { distinct = tt; regular = λ j. unfold get in tt }
    Reach-IsSound (next r st) = Step-IsSound st (Reach-IsSound r)
