-- ===== src/Publisher/Tests.antt =====
-- The memory publisher and the iterator of packages/publisher on concrete calls.
use orpc.Prelude.{
  ℕ, true, false, Option, none, some, List, [], ◌∷◌, ◌++◌, ◌≡◌, ◌⊎◌, inl, inr, refl, arith, map,
  zip, IsIn,
}
use orpc.Prelude.JsMap
use orpc.Prelude.JsMap.{get}
use orpc.Publisher.SequentialId.{compare_sequential_ids, compare_units}
use orpc.Publisher.Bisect.{find_index, bisect}
use orpc.Publisher.Memory.{
  EventId, Events, StoredEvent, Options, MemoryPublisher, start, bucket_of, publish,
  subscribe_listener, unsubscribe, cleanup, clean_buckets, unexpired, store, missed,
  splice_index_of, remove_first,
}
use orpc.Publisher.Memory.Reachable.{published, Reach, begin, next, IsSound, Reach-IsSound}
use orpc.Publisher.Memory.Resume.{IsIncreasing, IsLawful, resume_exact}
use orpc.Publisher.Memory.Cleanup.{filter}
use orpc.Publisher.Iterator.{
  TerminalState, cancelled, value, throws, new_iterator, Call, receive_call, pull_call,
  terminate_call, abort_call, call, run, settlements, unsubscriptions, receive, terminate,
  abort_signal, pull, push_bounded,
}
use orpc.Publisher.Iterator.Pulls.{asked, promises, pulls_answered}
use orpc.Publisher.Iterator.Buffer.{unsubscribes_once}
use orpc.Publisher.Iterator.Order.{events, pulls_in_order}

publisher : Unit {0}
unfolding compare_sequential_ids compare_units bisect find_index publish subscribe_listener
    unsubscribe cleanup clean_buckets unexpired store missed splice_index_of remove_first get
    JsMap.set JsMap.delete filter call receive terminate abort_signal pull push_bounded
publisher = tt

-- an event is a text number with an id, and ids are single code units
abbrev Payload : Type 0
Payload = ℕ × Option EventId

abbrev plain : Events Payload
plain = record { with_id = λ p id. (p.0, some id); id_of = λ p. p.1; generate = λ n. n ∷ [] }

plain-IsLawful : IsLawful plain
plain-IsLawful p id = refl

plain-IsIncreasing : IsIncreasing plain
unfolding compare_sequential_ids compare_units
plain-IsIncreasing m n h = ground arith

abbrev options : Options
options = record { resume_enabled = true; resume_seconds = 1 }

abbrev after_one : MemoryPublisher Payload
after_one = (publish plain options 1000 1000 "e" (40, none) start).0

abbrev after_two : MemoryPublisher Payload
after_two = (publish plain options 1500 1500 "e" (41, none) after_one).0

abbrev stored : ℕ → ℕ → ℕ → StoredEvent Payload
stored expires_at n id = record { expires_at = expires_at; payload = (n, some (id ∷ [])) }

publisher_tests :
    (bucket_of after_two.events "e" ≡ stored 2000 40 0 ∷ stored 2500 41 1 ∷ [])
    × ((subscribe_listener plain options 1600 "e" 7 (some (0 ∷ [])) after_two).1
        ≡ (41, some (1 ∷ [])) ∷ [])
    × (bucket_of (cleanup options 2000 after_two).events "e" ≡ stored 2500 41 1 ∷ [])
unfolding publisher
publisher_tests = (refl, refl, refl)

two_reached : Reach plain options after_two 1500
two_reached =
    next (next begin (published 1000 1000 "e" (40, none) (omega arith) (omega arith)))
      (published 1500 1500 "e" (41, none) (omega arith) (omega arith))

abbrev two : EventId
two = 2 ∷ []

abbrev three : EventId
three = 3 ∷ []

abbrev longer : EventId
longer = 1 ∷ 1 ∷ []

abbrev few : List ℕ
few = 5 ∷ 6 ∷ 7 ∷ []

abbrev low : List ℕ
low = 1 ∷ 2 ∷ []

Reach-IsSound_example : IsSound plain options after_two 1500
Reach-IsSound_example = Reach-IsSound plain options plain-IsLawful two_reached

kept_bucket :
    bucket_of (cleanup options 1600 after_two).events "e"
    ≡ [] ++ stored 2000 40 0 ∷ stored 2500 41 1 ∷ []
unfolding publisher
kept_bucket = refl

resume_exact_example :
    (subscribe_listener plain options 1600 "e" 7 (some (0 ∷ [])) after_two).1
    ≡ map (λ d. d.payload) (stored 2500 41 1 ∷ [])
resume_exact_example =
    resume_exact plain options after_two 1500 1600 "e" 7 (0 ∷ []) [] (stored 2000 40 0)
      (stored 2500 41 1 ∷ []) plain-IsIncreasing plain-IsLawful two_reached refl kept_bucket refl

abbrev calls : List (Call ℕ)
calls =
    pull_call 1
    ∷ receive_call 40
    ∷ receive_call 41
    ∷ pull_call 2
    ∷ pull_call 3
    ∷ abort_call 9
    ∷ pull_call 4
    ∷ terminate_call cancelled
    ∷ []

iterator_tests :
    (settlements none calls (new_iterator true)
      ≡ (1, value 40) ∷ (2, value 41) ∷ (3, throws 9) ∷ (4, throws 9) ∷ [])
    × (unsubscriptions none calls (new_iterator true) ≡ 1)
    × (unsubscriptions none calls (new_iterator false) ≡ 0)
    × ((run (some 2) (map receive_call few) (new_iterator true)).buffered_events ≡ 6 ∷ 7 ∷ [])
unfolding publisher
iterator_tests = (refl, refl, refl, refl)

pulls_answered_example :
    IsIn 3 (promises (settlements none calls (new_iterator true)))
    ⊎ (IsIn 3 (run none calls (new_iterator true)).pull_resolvers
        × ((run none calls (new_iterator true)).terminal_state ≡ none))
pulls_answered_example = pulls_answered none 3 calls (new_iterator true) (inr (inr (inl refl)))

unsubscribes_once_example :
    (((run none calls (new_iterator true)).terminal_state ≡ none)
      × (unsubscriptions none calls (new_iterator true) ≡ 0))
    ⊎ ((t : TerminalState) × ((run none calls (new_iterator true)).terminal_state ≡ some t)
        × (unsubscriptions none calls (new_iterator true) ≡ 1))
unsubscribes_once_example = unsubscribes_once none calls (new_iterator true) refl

abbrev live_calls : List (Call ℕ)
live_calls = pull_call 1 ∷ receive_call 40 ∷ receive_call 41 ∷ pull_call 2 ∷ []

pulls_in_order_example :
    settlements none live_calls (new_iterator true)
    ≡ map (λ (p, x). (p, value x)) (zip (asked live_calls) (events live_calls))
pulls_in_order_example = pulls_in_order true live_calls (tt, (tt, (tt, (tt, tt))))
