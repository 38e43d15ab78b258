-- ===== src/Shared/Interceptor.antt =====
-- packages/shared/src/interceptor.ts: `intercept`, and the interceptors that call back. A call returns
-- a value or throws, and leaves the events of what was called; an error is a number. The rest of a
-- callback's arguments is left out.
pub mod Composition
pub mod Observers
mod Tests
use orpc.Prelude.{ℕ, zero, suc, ◌+◌, Option, none, some, List, [], ◌∷◌, ◌++◌}
use orpc.Shared.Iterators.{Outcome, ok, throws}

-- the events of a run, and how it ends
pub record Run (E A : Type 0) : Type 0 where
  pub events : List E
  pub outcome : Outcome A

abbrev pub returned : {E A : Type 0} → A → Run E A
returned a = record { events = []; outcome = ok a }

abbrev pub thrown : {E A : Type 0} → ℕ → Run E A
thrown e = record { events = []; outcome = throws e }

abbrev pub after : {E A : Type 0} → List E → Run E A → Run E A
after l r = record { events = l ++ r.events; outcome = r.outcome }

-- what follows an outcome
abbrev pub proceed : {E A B : Type 0} → Outcome A → (A → Run E B) → Run E B
proceed (ok a) f = f a
proceed (throws e) f = thrown e

-- `await`
abbrev pub continue : {E A B : Type 0} → Run E A → (A → Run E B) → Run E B
continue r f = after r.events (proceed r.outcome f)

-- what `onFinish` is given
pub data FinishState (A : Type 0) : Type 0 where
  failed : ℕ → FinishState A
  succeeded : A → FinishState A

abbrev pub state_of : {A : Type 0} → Outcome A → FinishState A
state_of (ok a) = succeeded a
state_of (throws e) = failed e

-- `next` is given other options, or none
abbrev pub Interceptor : Type 0 → Type 0 → Type 0 → Type 0
Interceptor O E A = O → (Option O → Run E A) → Run E A

abbrev pub on_start : {O E A : Type 0} → (O → Run E Unit) → Interceptor O E A
on_start callback o next = continue (callback o) (λ u. next none)

abbrev pub on_success : {O E A : Type 0} → (A → O → Run E Unit) → Interceptor O E A
on_success callback o next = continue (next none) (λ a. continue (callback a o) (λ u. returned a))

-- the `catch`
abbrev pub catch_error : {E A : Type 0} → (ℕ → Run E Unit) → Outcome A → Run E A
catch_error callback (ok a) = returned a
catch_error callback (throws e) = continue (callback e) (λ u. thrown e)

abbrev pub on_error : {O E A : Type 0} → (ℕ → O → Run E Unit) → Interceptor O E A
on_error callback o next =
    let r = next none in after r.events (catch_error (λ e. callback e o) r.outcome)

-- an outcome again
abbrev pub give : {E A : Type 0} → Outcome A → Run E A
give (ok a) = returned a
give (throws e) = thrown e

-- what `finally` throws comes in place of the outcome
abbrev pub on_finish : {O E A : Type 0} → (FinishState A → O → Run E Unit) → Interceptor O E A
on_finish callback o next =
    let r = next none in
    after r.events (continue (callback (state_of r.outcome) o) (λ u. give r.outcome))

-- `newOptions = options`
abbrev pub given : {O : Type 0} → O → Option O → O
given o none = o
given o (some new) = new

module _ {O E A : Type 0} where
  module _ (main : O → Run E A) where
    -- `next(options, index)`, on the interceptors from the index on
    unfoldable pub next_from : List (Interceptor O E A) → O → Run E A
    next_from [] o = main o
    next_from (i ∷ interceptors) o = i o (λ new. next_from interceptors (given o new))

  unfoldable pub intercept : Option (List (Interceptor O E A)) → O → (O → Run E A) → Run E A
  unfolding next_from
  intercept none o main = main o
  intercept (some []) o main = main o
  intercept (some (i ∷ interceptors)) o main = next_from main (i ∷ interceptors) o
