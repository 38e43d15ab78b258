-- ===== src/Shared/Interceptor/Tests.antt =====
-- Calls with interceptors that call back.
use orpc.Prelude.{ℕ, suc, ◌+◌, some, List, [], ◌∷◌, map, ◌≡◌, refl, ltb, if◌then◌else◌}
use orpc.Shared.Iterators.{ok, throws}
use orpc.Shared.Interceptor.{Run, Interceptor, intercept}
use orpc.Shared.Interceptor.Observers.{
  Observer, start, success, error, finish, observe, around, all_before, all_behind,
  intercept-observers,
}

abbrev observers : List (Observer ℕ ℕ ℕ)
observers =
    finish (λ s o. 1 ∷ [])
    ∷ start (λ o. 2 ∷ o ∷ [])
    ∷ success (λ a o. 3 ∷ a ∷ [])
    ∷ error (λ e o. 4 ∷ e ∷ [])
    ∷ []

-- a call that doubles small numbers and refuses the others
abbrev double : ℕ → Run ℕ ℕ
double n = record { events = 0 ∷ []; outcome = if ltb 6 n then throws 9 else ok (n + n) }

-- an interceptor that hands other options on
abbrev increment : Interceptor ℕ ℕ ℕ
increment o next = next (some (suc o))

double_tests :
    (intercept (some (map observe observers)) 5 double
      ≡ record { events = 2 ∷ 5 ∷ 0 ∷ 3 ∷ 10 ∷ 1 ∷ []; outcome = ok 10 })
    × (intercept (some (increment ∷ map observe observers)) 6 double
        ≡ record { events = 2 ∷ 7 ∷ 0 ∷ 4 ∷ 9 ∷ 1 ∷ []; outcome = throws 9 })
unfolding intercept
double_tests = (refl, refl)

intercept-observers_example :
    intercept (some (map observe observers)) 7 double
    ≡ around (all_before observers 7) (double 7) (all_behind observers 7 (throws 9))
intercept-observers_example = intercept-observers observers 7 double
