-- ===== src/Shared/Iterators.antt =====
-- packages/shared/src/iterator.ts: `wrapAsyncIterator` and `consumeAsyncIterator`. What the wrapped
-- iterator and the callbacks do are arguments; what the program does is a list of actions. A value
-- and an error are numbers.
pub mod Wrapping
pub mod Consuming
mod Tests
use orpc.Prelude.{ℕ, Bool, true, false, Option, none, some, List, [], ◌∷◌, ◌++◌, if◌then◌else◌}

-- what a call gives: a value, or a throw
pub data Outcome (A : Type 0) : Type 0 where
  ok : A → Outcome A
  throws : ℕ → Outcome A

-- `IteratorResult`
pub data IteratorResult : Type 0 where
  yields : ℕ → IteratorResult
  returns : ℕ → IteratorResult

abbrev pub is_done : IteratorResult → Bool
is_done (yields v) = false
is_done (returns v) = true

-- `runWith` only runs its argument in a context. An option that is not given is `none`.
pub record WrapOptions : Type 0 where
  pub map_result : Option (IteratorResult → Outcome IteratorResult)
  pub map_error : Option (ℕ → Outcome ℕ)
  pub on_error : Option (ℕ → Outcome (Unit {0}))
  pub on_finish : Option (Outcome (Unit {0}))

pub data Call : Type 0 where
  -- `iterator.next()`, `iterator.return()`, `onError`, `onFinish`
  reads : Call
  cancels : Call
  reports : ℕ → Call
  finishes : Call

-- `await onError?.(error)`: what it calls, and how it ends
abbrev pub report : Option (ℕ → Outcome (Unit {0})) → ℕ → List Call × Outcome (Unit {0})
report none e = ([], ok tt)
report (some f) e = (reports e ∷ [], f e)

abbrev pub mapped_error : Option (ℕ → Outcome ℕ) → ℕ → ℕ
mapped_error none e = e
mapped_error (some f) e = elim (f e) [ ok e' ↦ e' | throws e' ↦ e' ]

-- the `catch` of `next`
unfoldable pub catch_next : WrapOptions → ℕ → List Call × Outcome IteratorResult
catch_next o e =
    let (calls, r) = report o.on_error e in
    (calls, elim r [ ok _ ↦ throws (mapped_error o.map_error e) | throws f ↦ throws f ])

abbrev pub map_result : WrapOptions → IteratorResult → Outcome IteratorResult
map_result o r = elim o.map_result [ none ↦ ok r | some f ↦ f r ]

-- One `next`, given what `iterator.next()` does: the new `isDone`, the calls, and the outcome.
unfoldable pub next :
    WrapOptions → Outcome IteratorResult → Bool × List Call × Outcome IteratorResult
unfolding catch_next
next o (throws e) = let (calls, r) = catch_next o e in (true, reads ∷ calls, r)
next o (ok r) = elim (map_result o r) [
  | ok r' ↦ (is_done r, reads ∷ [], ok r')
  | throws e ↦ let (calls, r') = catch_next o e in (is_done r, reads ∷ calls, r')
]

-- `finally { await onFinish?.() }`, behind a body that has ended with an outcome
abbrev pub finish :
    Option (Outcome (Unit {0})) → Outcome (Unit {0}) → List Call × Outcome (Unit {0})
finish none r = ([], r)
finish (some (ok _)) r = (finishes ∷ [], r)
finish (some (throws e)) r = (finishes ∷ [], throws e)

-- `if (!isDone) { ... }` of the cleanup, given what `iterator.return()` does
unfoldable pub cancel : WrapOptions → Bool → Outcome (Unit {0}) → List Call × Outcome (Unit {0})
cancel o true r = ([], ok tt)
cancel o false (ok _) = (cancels ∷ [], ok tt)
cancel o false (throws e) =
    let (calls, r) = report o.on_error e in
    (cancels ∷ calls, elim r [ ok _ ↦ throws e | throws f ↦ throws f ])

-- the cleanup of the wrapped iterator
unfoldable pub clean_up : WrapOptions → Bool → Outcome (Unit {0}) → List Call × Outcome (Unit {0})
unfolding cancel
clean_up o done r =
    let (calls, ended) = cancel o done r in
    let (last, outcome) = finish o.on_finish ended in (calls ++ last, outcome)

-- the callbacks of `consumeAsyncIterator`, each with how it ends
pub data FinishState : Type 0 where
  failed : ℕ → FinishState
  succeeded : ℕ → FinishState

pub record ConsumeOptions : Type 0 where
  pub on_event : ℕ → Outcome (Unit {0})
  pub on_success : Option (ℕ → Outcome (Unit {0}))
  pub on_error : Option (ℕ → Outcome (Unit {0}))
  pub on_finish : Option (FinishState → Outcome (Unit {0}))

pub data Callback : Type 0 where
  event : ℕ → Callback
  success : ℕ → Callback
  error : ℕ → Callback
  finished : FinishState → Callback

-- What was called, and the error that no one catches; `none` is a source that has not settled yet.
pub record Consumed : Type 0 where
  pub callbacks : List Callback
  pub unhandled : Option ℕ

abbrev pub raised : Outcome (Unit {0}) → Option ℕ
raised (ok _) = none
raised (throws e) = some e

abbrev pub later_error : Outcome (Unit {0}) → Option ℕ → Option ℕ
later_error (ok _) before = before
later_error (throws e) before = some e

-- `finally { options.onFinish?.(onFinishState) }`, with the error that is thrown before it
unfoldable pub finally : ConsumeOptions → FinishState → Option ℕ → Consumed
finally o state before = elim o.on_finish [
  | none ↦ record { callbacks = []; unhandled = before }
  | some f ↦ record { callbacks = finished state ∷ []; unhandled = later_error (f state) before }
]

abbrev pub behind : List Callback → Consumed → Consumed
behind calls c = record c { callbacks = calls ++ c.callbacks }

unfoldable pub catch_consume : ConsumeOptions → ℕ → Consumed
unfolding finally
catch_consume o e = elim o.on_error [
  | none ↦ finally o (failed e) none
  | some f ↦ behind (error e ∷ []) (finally o (failed e) (raised (f e)))
]

-- the end of the source: `options.onSuccess?.(realValue)`
unfoldable pub succeed : ConsumeOptions → ℕ → Consumed
unfolding catch_consume finally
succeed o v = elim o.on_success [
  | none ↦ finally o (succeeded v) none
  | some f ↦ elim (f v) [
    | ok _ ↦ behind (success v ∷ []) (finally o (succeeded v) none)
    | throws e ↦ behind (success v ∷ []) (catch_consume o e)
  ]
]

abbrev pub behind_event : ℕ → Option Consumed → Option Consumed
behind_event v none = none
behind_event v (some c) = some (behind (event v ∷ []) c)

-- The loop, over what each `next()` settles with.
unfoldable pub consume_items : ConsumeOptions → List (Outcome IteratorResult) → Option Consumed
unfolding catch_consume succeed
consume_items o [] = none
consume_items o (throws e ∷ items) = some (catch_consume o e)
consume_items o (ok (returns v) ∷ items) = some (succeed o v)
consume_items o (ok (yields v) ∷ items) =
    let later = consume_items o items in
    elim (o.on_event v) [
      | ok _ ↦ behind_event v later
      | throws e ↦ behind_event v (some (catch_consume o e))
    ]

-- `consumeAsyncIterator`, given whether the promise of the iterator rejects
unfoldable pub consume_async_iterator :
    ConsumeOptions → Option ℕ → List (Outcome IteratorResult) → Option Consumed
unfolding consume_items catch_consume
consume_async_iterator o (some e) items = some (catch_consume o e)
consume_async_iterator o none items = consume_items o items
