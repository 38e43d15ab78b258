-- ===== src/Shared/Interceptor/Composition.antt =====
-- Chains of interceptors put behind each other.
use orpc.Prelude.{some, List, [], ◌∷◌, ◌++◌, ◌≡◌, refl, ap, sym, ◌∙◌}
use orpc.Shared.Interceptor.{Run, Interceptor, given, next_from, intercept}

module _ {O E A : Type 0} where
  next_from-append :
      (main : O → Run E A) (is js : List (Interceptor O E A)) (o : O)
      → next_from main (is ++ js) o ≡ next_from (next_from main js) is o
  unfolding next_from
  next_from-append main [] js o = refl
  next_from-append main (i ∷ is) js o =
      ap (i o) (λ k new. next_from-append main is js (given o new) k)

  pub intercept-next_from :
      (is : List (Interceptor O E A)) (o : O) (main : O → Run E A)
      → intercept (some is) o main ≡ next_from main is o
  unfolding intercept next_from
  intercept-next_from [] o main = refl
  intercept-next_from (i ∷ is) o main = refl

  -- Interceptors in a row are the first ones around a call that has the others around it, with whatever
  -- options they hand on.
  pub intercept-append :
      (is js : List (Interceptor O E A)) (o : O) (main : O → Run E A)
      → intercept (some (is ++ js)) o main ≡ intercept (some is) o (λ p. intercept (some js) p main)
  intercept-append is js o main =
      intercept-next_from (is ++ js) o main
      ∙ next_from-append main is js o
      ∙ ap (λ (f : O → Run E A). next_from f is o) (λ k p. sym (intercept-next_from js p main) k)
      ∙ sym (intercept-next_from is o (λ p. intercept (some js) p main))
