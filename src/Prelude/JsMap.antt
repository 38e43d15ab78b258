-- ===== src/Prelude/JsMap.antt =====
-- The language's `Map` with string keys, as its entries in insertion order: `set` on a key that is
-- there writes in place, and on a new key appends. A `Set` is a map to `Unit`.
use Prim.Native.String.{String}
use mathlib.Core.Path.{◌≡◌, refl}
use mathlib.Core.Bool.{Bool, true, false}
use mathlib.Core.Option.{Option, none, some}
use mathlib.Core.List.{List, [], ◌∷◌}
use native.Mathlib.Omega.{arith}
use text.Mathlib.Text.{◌==◌}
use text.Mathlib.TextEquality.{eq_iff}
use mathlib.Core.Logic.{inl, inr}
use orpc.Prelude.Tests.{if◌then◌else◌, Bool-cases}

abbrev pub JsMap {ℓ} : Type ℓ → Type ℓ
JsMap V = List (String × V)

module _ {ℓ} {V : Type ℓ} where
  unfoldable pub get : JsMap V → String → Option V
  get [] k = none
  get ((j, v) ∷ m) k = if j == k then some v else get m k

  unfoldable pub set : JsMap V → String → V → JsMap V
  set [] k v = (k, v) ∷ []
  set ((j, w) ∷ m) k v = if j == k then (j, v) ∷ m else (j, w) ∷ set m k v

  unfoldable pub delete : JsMap V → String → JsMap V
  delete [] k = []
  delete ((j, v) ∷ m) k = let later = delete m k in if j == k then later else (j, v) ∷ later

  pub get-set :
      (m : JsMap V) (k : String) (v : V) (j : String)
      → get (set m k v) j ≡ (if k == j then some v else get m j)
  unfolding get set
  get-set [] k v j = refl
  get-set ((i, w) ∷ m) k v j = ground (arith, get-set m k v j, eq_iff i k, eq_iff i j, eq_iff k j)

  pub get-delete :
      (m : JsMap V) (k j : String) → get (delete m k) j ≡ (if k == j then none else get m j)
  unfolding get delete
  get-delete [] k j = ground arith
  get-delete ((i, w) ∷ m) k j = ground (arith, get-delete m k j, eq_iff i k, eq_iff i j, eq_iff k j)

pub get-empty {ℓ} : {V : Type ℓ} (k : String) → get {V = V} [] k ≡ none
unfolding get
get-empty k = refl

-- `has`
abbrev pub is_some {ℓ} : {V : Type ℓ} → Option V → Bool
is_some none = false
is_some (some v) = true

pub ruleset map_laws = (get-empty, get-set, get-delete)

module _ {ℓ} {V : Type ℓ} where
  -- no key stands twice
  abbrev pub IsDistinct : JsMap V → Type ℓ
  IsDistinct [] = Unit
  IsDistinct ((k, v) ∷ m) = (get m k ≡ none) × IsDistinct m

  pub set-IsDistinct : (m : JsMap V) (k : String) (v : V) → IsDistinct m → IsDistinct (set m k v)
  unfolding set
  set-IsDistinct [] k v h = (get-empty k, tt)
  set-IsDistinct ((j, w) ∷ m) k v h = elim (Bool-cases (j == k)) [
    | inl e ↦ rw e h
    | inr e ↦
        rw e (ground (arith, get-set m k v j, eq_iff k j, eq_iff j k), set-IsDistinct m k v h.1)
  ]
