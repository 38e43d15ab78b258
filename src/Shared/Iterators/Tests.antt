-- ===== src/Shared/Iterators/Tests.antt =====
-- `wrapAsyncIterator` and `consumeAsyncIterator` of packages/shared/src/iterator.ts on concrete sources.
use orpc.Prelude.{false, none, some, List, [], ◌∷◌, ◌≡◌, refl, length, if◌then◌else◌}
use orpc.Shared.Iterators.{
  Outcome, ok, throws, IteratorResult, yields, returns, WrapOptions, reads, cancels, reports,
  finishes, next, catch_next, clean_up, cancel, failed, ConsumeOptions, event, success, error,
  finished, Consumed, finally, catch_consume, succeed, consume_items, consume_async_iterator,
}
use orpc.Shared.Iterators.Wrapping.{life, has_ended, EndsOnce, life-EndsOnce}
use orpc.Shared.Iterators.Consuming.{
  FinishesOnce, consume_async_iterator-FinishesOnce, errors_are_dropped,
}

iterating : Unit {0}
unfolding life next catch_next clean_up cancel finally catch_consume succeed consume_items
    consume_async_iterator
iterating = tt

abbrev wrapped : WrapOptions
wrapped = record {
  map_result = some (λ r. elim r [ yields v ↦ throws 8 | returns v ↦ ok (returns v) ]);
  map_error = some (λ e. ok 9);
  on_error = some (λ e. ok tt);
  on_finish = some (throws 5);
}

abbrev source : List (Outcome IteratorResult)
source = ok (yields 1) ∷ ok (yields 2) ∷ []

abbrev consumer : ConsumeOptions
consumer = record {
  on_event = λ v. ok tt;
  on_success = some (λ v. throws 6);
  on_error = some (λ e. ok tt);
  on_finish = some (λ state. ok tt);
}

abbrev silent : ConsumeOptions
silent = record consumer { on_error = none; on_finish = none }

abbrev items : List (Outcome IteratorResult)
items = ok (yields 1) ∷ ok (returns 2) ∷ []

abbrev consumed : Consumed
consumed = record {
  callbacks = event 1 ∷ success 2 ∷ error 6 ∷ finished (failed 6) ∷ [];
  unhandled = none;
}

abbrev dropped : Consumed
dropped = record { callbacks = event 1 ∷ success 2 ∷ []; unhandled = none }

-- An error of `mapResult` does not end the source, which is then cancelled; `onSuccess` may fail.
iterator_tests :
    (life wrapped false source (throws 4)
      ≡ reads ∷ reports 8 ∷ reads ∷ reports 8 ∷ cancels ∷ reports 4 ∷ finishes ∷ [])
    × (consume_async_iterator consumer none items ≡ some consumed)
    × (consume_async_iterator silent none items ≡ some dropped)
unfolding iterating
iterator_tests = (refl, refl, refl)

life-EndsOnce_example :
    EndsOnce
      (length source)
      (if has_ended false source then 0 else 1)
      (life wrapped false source (throws 4))
life-EndsOnce_example = life-EndsOnce wrapped (throws 5) (throws 4) false source refl

consume_async_iterator-FinishesOnce_example : FinishesOnce consumed
consume_async_iterator-FinishesOnce_example =
    consume_async_iterator-FinishesOnce consumer (λ state. ok tt) (λ e. ok tt) none items consumed
      refl refl (unfold iterating in refl)

errors_are_dropped_example : dropped.unhandled ≡ none
errors_are_dropped_example =
    errors_are_dropped silent none items dropped refl refl (unfold iterating in refl)
