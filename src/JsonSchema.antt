-- ===== src/JsonSchema.antt =====
-- packages/json-schema/src/composition-utils.ts and ref-utils.ts: the combination of schemas, and
-- packages/shared/src/compare.ts. A text is the list of its characters' codes, a number is known by a
-- number. Objects have no keys but their own, so no name is one of `Object.prototype`.
pub mod Pointer
pub mod Naming
pub mod Refs
pub mod Mapping
pub mod Merging
pub mod Combining
pub mod Resolving
pub mod Paths
pub mod Branches
pub mod Entries
pub mod Properties
mod Tests
use Prim.Native.Char.{code}
use Prim.Native.String as String
use orpc.Prelude.{
  ◌↔◌, subst, ℕ, zero, suc, ◌+◌, String, Bool, true, false, Option, none, some, List, [], ◌∷◌, ◌++◌,
  ◌≡◌, inl, inr, refl, ap, arith, ◌==◌, ◌&&◌, if◌then◌else◌, Bool-cases, not,
}

abbrev pub Text : Type 0
Text = List ℕ

abbrev pub codes : String → Text
codes String.[] = []
codes (String.◌∷◌ c s) = code c ∷ codes s

unfoldable pub text_eq : Text → Text → Bool
text_eq [] [] = true
text_eq [] (d ∷ t) = false
text_eq (c ∷ s) [] = false
text_eq (c ∷ s) (d ∷ t) = c == d && text_eq s t

pub text_eq_refl : (s : Text) → text_eq s s ≡ true
unfolding text_eq
text_eq_refl [] = refl
text_eq_refl (c ∷ s) = ground (arith, text_eq_refl s)

pub text_eq_path : (s t : Text) → text_eq s t ≡ true → s ≡ t
unfolding text_eq
text_eq_path [] [] h = refl
text_eq_path [] (d ∷ t) h = ground arith
text_eq_path (c ∷ s) [] h = ground arith
text_eq_path (c ∷ s) (d ∷ t) h = ground (arith, text_eq_path s t)

pub text_eq_iff : (s t : Text) → (text_eq s t ≡ true) ↔ (s ≡ t)
text_eq_iff s t =
    (text_eq_path s t, λ p. subst (λ (u : Text). text_eq s u ≡ true) p (text_eq_refl s))

mutual
  pub data Json : Type 0 where
    null : Json
    boolean : Bool → Json
    number : ℕ → Json
    string : Text → Json
    array : Items → Json
    object : Fields → Json

  pub data Items : Type 0 where
    nil : Items
    cons : Json → Items → Items

  pub data Fields : Type 0 where
    end : Fields
    field : Text → Json → Fields → Fields

abbrev pub size : Fields → ℕ
size end = 0
size (field k v fs) = suc (size fs)

abbrev pub count_items : Items → ℕ
count_items nil = 0
count_items (cons x xs) = suc (count_items xs)

unfoldable pub get_own : Fields → Text → Option Json
get_own end k = none
get_own (field j v fs) k = let later = get_own fs k in if text_eq j k then some v else later

unfoldable pub set_own : Fields → Text → Json → Fields
set_own end k v = field k v end
set_own (field j w fs) k v =
    let later = set_own fs k v in if text_eq j k then field j v fs else field j w later

-- `isDeepEqual`, on values without `undefined` and cycles
unfoldable mutual
  pub is_deep_equal : Json → Json → Bool
  is_deep_equal null null = true
  is_deep_equal (boolean a) (boolean b) = if a then b else not b
  is_deep_equal (number a) (number b) = a == b
  is_deep_equal (string a) (string b) = text_eq a b
  is_deep_equal (array a) (array b) = same_items a b
  is_deep_equal (object a) (object b) = size a == size b && same_fields a b
  is_deep_equal _ _ = false

  pub same_items : Items → Items → Bool
  same_items nil nil = true
  same_items (cons a xs) (cons b ys) = is_deep_equal a b && same_items xs ys
  same_items _ _ = false

  pub same_fields : Fields → Fields → Bool
  same_fields end ys = true
  same_fields (field k a xs) ys = elim (get_own ys k) [
    | none ↦ false
    | some b ↦ is_deep_equal a b && same_fields xs ys
  ]
