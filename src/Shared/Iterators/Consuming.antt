-- ===== src/Shared/Iterators/Consuming.antt =====
-- Which callbacks a consumed iterator calls, and what becomes of its errors.
use orpc.Prelude.{
  ℕ, suc, Option, none, some, List, [], ◌∷◌, ◌++◌, ◌≡◌, inl, inr, refl, ap, subst, Option-cases,
}
use orpc.Shared.Iterators.{
  Outcome, ok, throws, IteratorResult, yields, returns, FinishState, failed, succeeded,
  ConsumeOptions, Callback, event, success, error, finished, Consumed, raised, finally, behind,
  catch_consume, succeed, behind_event, consume_items, consume_async_iterator,
}

-- the errors that `onError` is given, and how often `onFinish` is called
abbrev pub errors : List Callback → List ℕ
errors [] = []
errors (event v ∷ l) = errors l
errors (success v ∷ l) = errors l
errors (error e ∷ l) = e ∷ errors l
errors (finished st ∷ l) = errors l

abbrev pub count_finished : List Callback → ℕ
count_finished [] = 0
count_finished (event v ∷ l) = count_finished l
count_finished (success v ∷ l) = count_finished l
count_finished (error e ∷ l) = count_finished l
count_finished (finished st ∷ l) = suc (count_finished l)

abbrev pub error_of : FinishState → List ℕ
error_of (failed e) = e ∷ []
error_of (succeeded v) = []

-- The callbacks are some others and then one call of `onFinish`, with the one error that `onError` was
-- given, or with a value if it was not called.
abbrev pub FinishesOnce : Consumed → Type 0
FinishesOnce c =
    (before : List Callback) × (state : FinishState) × (c.callbacks ≡ before ++ finished state ∷ [])
    × (count_finished before ≡ 0)
    × (errors before ≡ error_of state)

module _ (o : ConsumeOptions) (f : FinishState → Outcome (Unit {0})) (g : ℕ → Outcome (Unit {0}))
    (finish : o.on_finish ≡ some f) (report : o.on_error ≡ some g) where
  finally-callbacks :
      (state : FinishState) (e : Option ℕ) → (finally o state e).callbacks ≡ finished state ∷ []
  unfolding finally
  finally-callbacks state e = rw (finish, finally) refl

  catch_consume-FinishesOnce : (e : ℕ) → FinishesOnce (catch_consume o e)
  unfolding catch_consume
  catch_consume-FinishesOnce e =
      rw (report, catch_consume)
        (
          error e ∷ [],
          failed e,
          ap (λ (l : List Callback). error e ∷ l) (finally-callbacks (failed e) (raised (g e))),
          refl,
          refl,
        )

  event-FinishesOnce :
      (v : ℕ) (c : Consumed) → FinishesOnce c → FinishesOnce (behind (event v ∷ []) c)
  event-FinishesOnce v c (before, state, e, n, m) =
      (event v ∷ before, state, ap (λ (l : List Callback). event v ∷ l) e, n, m)

  success-FinishesOnce :
      (v : ℕ) (c : Consumed) → FinishesOnce c → FinishesOnce (behind (success v ∷ []) c)
  success-FinishesOnce v c (before, state, e, n, m) =
      (success v ∷ before, state, ap (λ (l : List Callback). success v ∷ l) e, n, m)

  succeed-FinishesOnce : (v : ℕ) → FinishesOnce (succeed o v)
  unfolding succeed
  succeed-FinishesOnce v = elim (Option-cases o.on_success) [
    | inl e ↦ rw (e, succeed) ([], succeeded v, finally-callbacks (succeeded v) none, refl, refl)
    | inr (h, e) ↦ rw (e, succeed) (called (h v))
  ]
    where
      called :
          (r : Outcome (Unit {0}))
          → FinishesOnce (elim r [
            | ok _ ↦ behind (success v ∷ []) (finally o (succeeded v) none)
            | throws e ↦ behind (success v ∷ []) (catch_consume o e)
          ])
      called (ok _) =
          success-FinishesOnce v (finally o (succeeded v) none)
            ([], succeeded v, finally-callbacks (succeeded v) none, refl, refl)
      called (throws e) = success-FinishesOnce v (catch_consume o e) (catch_consume-FinishesOnce e)

  -- a source that has settled finishes once
  abbrev Finishes : Option Consumed → Type 0
  Finishes none = Unit {0}
  Finishes (some c) = FinishesOnce c

  behind_event-Finishes : (v : ℕ) (r : Option Consumed) → Finishes r → Finishes (behind_event v r)
  behind_event-Finishes v none h = tt
  behind_event-Finishes v (some c) h = event-FinishesOnce v c h

  consume_items-Finishes :
      (items : List (Outcome IteratorResult)) → Finishes (consume_items o items)
  unfolding consume_items
  consume_items-Finishes [] = tt
  consume_items-Finishes (throws e ∷ items) = catch_consume-FinishesOnce e
  consume_items-Finishes (ok (returns v) ∷ items) = succeed-FinishesOnce v
  consume_items-Finishes (ok (yields v) ∷ items) =
      elim (o.on_event v)
        as (λ r. Finishes (elim r [
          | ok _ ↦ behind_event v (consume_items o items)
          | throws e ↦ behind_event v (some (catch_consume o e))
        ])) [
          | ok _ ↦ behind_event-Finishes v (consume_items o items) (consume_items-Finishes items)
          | throws e ↦ event-FinishesOnce v (catch_consume o e) (catch_consume-FinishesOnce e)
        ]

  Finishes-some : (r : Option Consumed) (c : Consumed) → Finishes r → r ≡ some c → FinishesOnce c
  Finishes-some none c h e = absurd (cc)
  Finishes-some (some d) c h e = let same : d ≡ c = cc in subst FinishesOnce same h

-- With `onError` and `onFinish` given: once the iterator has ended, failed or been failed by a
-- callback, `onFinish` has been called once, behind all other callbacks, with the one error that
-- `onError` was given, or with a value if `onError` was not called.
pub consume_async_iterator-FinishesOnce :
    (o : ConsumeOptions) (f : FinishState → Outcome (Unit {0})) (g : ℕ → Outcome (Unit {0}))
    (rejection : Option ℕ) (items : List (Outcome IteratorResult)) (c : Consumed)
    → o.on_finish ≡ some f
    → o.on_error ≡ some g
    → consume_async_iterator o rejection items ≡ some c
    → FinishesOnce c
unfolding consume_async_iterator
consume_async_iterator-FinishesOnce o f g none items c finish report h =
    Finishes-some o f g finish report (consume_items o items) c
      (consume_items-Finishes o f g finish report items) h
consume_async_iterator-FinishesOnce o f g (some e) items c finish report h =
    Finishes-some o f g finish report (some (catch_consume o e)) c
      (catch_consume-FinishesOnce o f g finish report e) h

module _ (o : ConsumeOptions) (finish : o.on_finish ≡ none) (report : o.on_error ≡ none) where
  catch_consume-unhandled : (e : ℕ) → (catch_consume o e).unhandled ≡ none
  unfolding catch_consume finally
  catch_consume-unhandled e = rw (report, finish, catch_consume, finally) refl

  finally-unhandled : (state : FinishState) → (finally o state none).unhandled ≡ none
  unfolding finally
  finally-unhandled state = rw (finish, finally) refl

  succeed-unhandled : (v : ℕ) → (succeed o v).unhandled ≡ none
  unfolding succeed
  succeed-unhandled v = elim (Option-cases o.on_success) [
    | inl e ↦ rw (e, succeed) (finally-unhandled (succeeded v))
    | inr (h, e) ↦ rw (e, succeed) (called (h v))
  ]
    where
      called :
          (r : Outcome (Unit {0}))
          → (elim r as (λ _. Consumed) [
            | ok _ ↦ behind (success v ∷ []) (finally o (succeeded v) none)
            | throws e ↦ behind (success v ∷ []) (catch_consume o e)
          ]).unhandled
            ≡ none
      called (ok _) = finally-unhandled (succeeded v)
      called (throws e) = catch_consume-unhandled e

  abbrev IsDropped : Option Consumed → Type 0
  IsDropped none = Unit {0}
  IsDropped (some c) = c.unhandled ≡ none

  behind_event-IsDropped :
      (v : ℕ) (r : Option Consumed) → IsDropped r → IsDropped (behind_event v r)
  behind_event-IsDropped v none h = tt
  behind_event-IsDropped v (some c) h = h

  consume_items-IsDropped :
      (items : List (Outcome IteratorResult)) → IsDropped (consume_items o items)
  unfolding consume_items
  consume_items-IsDropped [] = tt
  consume_items-IsDropped (throws e ∷ items) = catch_consume-unhandled e
  consume_items-IsDropped (ok (returns v) ∷ items) = succeed-unhandled v
  consume_items-IsDropped (ok (yields v) ∷ items) =
      elim (o.on_event v)
        as (λ r. IsDropped (elim r [
          | ok _ ↦ behind_event v (consume_items o items)
          | throws e ↦ behind_event v (some (catch_consume o e))
        ])) [
          | ok _ ↦ behind_event-IsDropped v (consume_items o items) (consume_items-IsDropped items)
          | throws e ↦ catch_consume-unhandled e
        ]

  IsDropped-some :
      (r : Option Consumed) (c : Consumed) → IsDropped r → r ≡ some c → c.unhandled ≡ none
  IsDropped-some none c h e = absurd (cc)
  IsDropped-some (some d) c h e =
      let same : d ≡ c = cc in subst (λ (x : Consumed). x.unhandled ≡ none) same h

-- Without `onError` and `onFinish` no error is thrown on: whether the iterator fails, its promise
-- rejects or a callback throws, the error is dropped.
pub errors_are_dropped :
    (o : ConsumeOptions) (rejection : Option ℕ) (items : List (Outcome IteratorResult))
    (c : Consumed)
    → o.on_finish ≡ none
    → o.on_error ≡ none
    → consume_async_iterator o rejection items ≡ some c
    → c.unhandled ≡ none
unfolding consume_async_iterator
errors_are_dropped o none items c finish report h =
    IsDropped-some o finish report (consume_items o items) c
      (consume_items-IsDropped o finish report items) h
errors_are_dropped o (some e) items c finish report h =
    IsDropped-some o finish report (some (catch_consume o e)) c
      (catch_consume-unhandled o finish report e) h
