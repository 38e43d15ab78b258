-- ===== src/Shared/Interceptor/Observers.antt =====
-- Interceptors that call back change neither the call nor its outcome, if their callbacks only return.
use orpc.Prelude.{ℕ, Option, none, some, List, [], ◌∷◌, ◌++◌, map, ◌≡◌, refl, sym, ap, ◌∙◌}
use mathlib.Core.List.{append_assoc, append-nil}
use orpc.Shared.Iterators.{Outcome, ok, throws}
use orpc.Shared.Interceptor.{
  Run, Interceptor, FinishState, succeeded, failed, state_of, given, on_start, on_success, on_error,
  on_finish, next_from, intercept,
}
use orpc.Shared.Interceptor.Composition.{intercept-next_from}

-- a callback that returns, by the events that it leaves
abbrev pub calls : {E B : Type 0} → (B → List E) → B → Run E Unit
calls f b = record { events = f b; outcome = ok tt }

pub data Observer (O E A : Type 0) : Type 0 where
  start : (O → List E) → Observer O E A
  success : (A → O → List E) → Observer O E A
  error : (ℕ → O → List E) → Observer O E A
  finish : (FinishState A → O → List E) → Observer O E A

abbrev of : {E A : Type 0} → List E → Outcome A → Run E A
of l r = record { events = l; outcome = r }

-- what a run becomes with events around it
abbrev pub around : {E A : Type 0} → List E → Run E A → List E → Run E A
around k r l = record { events = k ++ r.events ++ l; outcome = r.outcome }

around-around :
    {E A : Type 0} (k m l n : List E) (r : Run E A)
    → around k (around m r l) n ≡ around (k ++ m) r (l ++ n)
around-around k m l n r = ap (λ x. of x r.outcome) (simp append_assoc)

module _ {O E A : Type 0} where
  abbrev pub observe : Observer O E A → Interceptor O E A
  observe (start f) = on_start (calls f)
  observe (success f) = on_success (λ a. calls (f a))
  observe (error f) = on_error (λ e. calls (f e))
  observe (finish f) = on_finish (λ s. calls (f s))

  -- the events that come before the call and behind it
  abbrev pub before : Observer O E A → O → List E
  before (start f) o = f o
  before _ o = []

  abbrev pub behind : Observer O E A → O → Outcome A → List E
  behind (success f) o (ok a) = f a o
  behind (error f) o (throws e) = f e o
  behind (finish f) o r = f (state_of r) o
  behind _ o r = []

  abbrev pub all_before : List (Observer O E A) → O → List E
  all_before [] o = []
  all_before (b ∷ observers) o = before b o ++ all_before observers o

  abbrev pub all_behind : List (Observer O E A) → O → Outcome A → List E
  all_behind [] o r = []
  all_behind (b ∷ observers) o r = all_behind observers o r ++ behind b o r

  -- an observer around a call that leaves these events
  observed_run :
      (b : Observer O E A) (o : O) (l : List E) (r : Outcome A)
      → observe b o (λ new. of l r) ≡ around (before b o) (of l r) (behind b o r)
  observed_run (start f) o l r = ap (λ (m : List E). of m r) (sym (append-nil (f o ++ l)))
  observed_run (success f) o l (ok a) = ap (λ (m : List E). of (l ++ m) (ok a)) (append-nil (f a o))
  observed_run (success f) o l (throws e) = refl
  observed_run (error f) o l (ok a) = refl
  observed_run (error f) o l (throws e) =
      ap (λ (m : List E). of (l ++ m) (throws e)) (append-nil (f e o))
  observed_run (finish f) o l (ok a) =
      ap (λ (m : List E). of (l ++ m) (ok a)) (append-nil (f (succeeded a) o))
  observed_run (finish f) o l (throws e) =
      ap (λ (m : List E). of (l ++ m) (throws e)) (append-nil (f (failed e) o))

  observed :
      (b : Observer O E A) (o : O) (next : Option O → Run E A)
      → observe b o next ≡ around (before b o) (next none) (behind b o (next none).outcome)
  observed (start f) o next = observed_run (start f) o (next none).events (next none).outcome
  observed (success f) o next = observed_run (success f) o (next none).events (next none).outcome
  observed (error f) o next = observed_run (error f) o (next none).events (next none).outcome
  observed (finish f) o next = observed_run (finish f) o (next none).events (next none).outcome

  observed_from :
      (main : O → Run E A) (observers : List (Observer O E A)) (o : O)
      → next_from main (map observe observers) o
        ≡ around (all_before observers o) (main o) (all_behind observers o (main o).outcome)
  unfolding next_from
  observed_from main [] o =
      ap (λ (m : List E). of m (main o).outcome) (sym (append-nil (main o).events))
  observed_from main (b ∷ observers) o =
      observed b o (λ new. next_from main (map observe observers) (given o new))
      ∙ ap (λ (r : Run E A). around (before b o) r (behind b o r.outcome))
          (observed_from main observers o)
      ∙ around-around (before b o) (all_before observers o)
          (all_behind observers o (main o).outcome) (behind b o (main o).outcome) (main o)

  -- If interceptors only call back, by functions that return: a call has the outcome of the main call on
  -- the same options, with the events of the callbacks on its start before it, the outermost first, and
  -- behind it those of the callbacks on its success, error and finish that its outcome calls for, the
  -- innermost first.
  pub intercept-observers :
      (observers : List (Observer O E A)) (o : O) (main : O → Run E A)
      → intercept (some (map observe observers)) o main
        ≡ around (all_before observers o) (main o) (all_behind observers o (main o).outcome)
  intercept-observers observers o main =
      intercept-next_from (map observe observers) o main ∙ observed_from main observers o
