-- ===== src/JsonSchema/Naming.antt =====
-- The search of a free name for a definition, `${name}${counter}`, in `combineJsonSchemasWithComposition`
-- and `combineJsonObjectSchemaEntries` of packages/json-schema/src/composition-utils.ts.
use orpc.Prelude.{
  ℕ, zero, suc, ◌+◌, ◌-◌, ◌*◌, ◌/◌, ◌%◌, ◌≤◌, ◌<◌, Bool, true, false, Option, none, some, [], ◌∷◌,
  ◌++◌, ◌≡◌, inl, inr, refl, sym, ap, ◌∙◌, arith, ltb, if◌then◌else◌, Bool-cases, All, All-append,
}
use orpc.Prelude.JsMap.{is_some}
use orpc.JsonSchema.{
  Text, codes, text_eq, text_eq_path, text_eq_iff, Json, Fields, end, field, size, get_own,
}

unfoldable pub decimal_digits : ℕ → ℕ → Text
decimal_digits zero n = []
decimal_digits (suc fuel) n =
    let front = decimal_digits fuel (n / 10) in
    if ltb n 10 then (48 + n) ∷ [] else front ++ (48 + n % 10) ∷ []

-- `${n}`
abbrev pub decimal : ℕ → Text
decimal n = decimal_digits (suc n) n

abbrev pub numbered : Text → ℕ → Text
numbered name counter = name ++ decimal counter

-- `while (newName in mergedDefs)`
unfoldable pub fresh_name : ℕ → Fields → Text → ℕ → Text
fresh_name zero defs name counter = numbered name counter
fresh_name (suc fuel) defs name counter =
    let later = fresh_name fuel defs name (suc counter) in
    if is_some (get_own defs (numbered name counter)) then later else numbered name counter

abbrev value_from : ℕ → Text → ℕ
value_from a [] = a
value_from a (d ∷ ds) = value_from (a * 10 + (d - 48)) ds

value_from-snoc :
    (a : ℕ) (ds : Text) (d : ℕ) → value_from a (ds ++ d ∷ []) ≡ value_from a ds * 10 + (d - 48)
value_from-snoc a [] d = refl
value_from-snoc a (e ∷ ds) d = value_from-snoc (a * 10 + (e - 48)) ds d

value_from-decimal_digits : (fuel n : ℕ) → n < fuel → value_from 0 (decimal_digits fuel n) ≡ n
unfolding decimal_digits
value_from-decimal_digits zero n h = absurd (omega arith)
value_from-decimal_digits (suc fuel) n h = elim (Bool-cases (ltb n 10)) [
  | inl e ↦ rw (e, decimal_digits) (omega arith)
  | inr e ↦
      rw (e, decimal_digits)
        (value_from-snoc 0 (decimal_digits fuel (n / 10)) (48 + n % 10)
          ∙ omega (arith, value_from-decimal_digits fuel (n / 10) (ground arith)))
]

numbered_eq : (name s t : Text) → text_eq (name ++ s) (name ++ t) ≡ text_eq s t
unfolding text_eq
numbered_eq [] s t = refl
numbered_eq (c ∷ name) s t = ground (arith, numbered_eq name s t)

numbered_injective :
    (name : Text) (a b : ℕ) → text_eq (numbered name a) (numbered name b) ≡ true → a ≡ b
numbered_injective name a b h =
    sym (value_from-decimal_digits (suc a) a (omega arith))
    ∙ ap (value_from 0)
        (text_eq_path (decimal a) (decimal b) (sym (numbered_eq name (decimal a) (decimal b)) ∙ h))
    ∙ value_from-decimal_digits (suc b) b (omega arith)

is_some-none : (o : Option Json) → is_some o ≡ false → o ≡ none
is_some-none none h = refl
is_some-none (some v) h = ground arith

-- the definitions without a name
abbrev without : Fields → Text → Fields
without end k = end
without (field j v fs) k =
    let later = without fs k in if text_eq j k then later else field j v later

get_own-without :
    (fs : Fields) (k j : Text)
    → get_own (without fs k) j ≡ (if text_eq k j then none else get_own fs j)
unfolding get_own
get_own-without end k j = ground arith
get_own-without (field i v fs) k j =
    ground (arith, get_own-without fs k j, text_eq_iff i k, text_eq_iff k j, text_eq_iff i j)

size-without : (fs : Fields) (k : Text) → size (without fs k) ≤ size fs
size-without end k = omega arith
size-without (field i v fs) k = ground (arith, size-without fs k)

size-without_own :
    (fs : Fields) (k : Text) → is_some (get_own fs k) ≡ true → size (without fs k) < size fs
unfolding get_own
size-without_own end k h = ground arith
size-without_own (field i v fs) k h = ground (arith, size-without fs k, size-without_own fs k)

-- The search depends on the names from its counter on.
fresh_name_cong :
    (fuel : ℕ) (fs gs : Fields) (name : Text) (c : ℕ)
    → ((k : ℕ) → c ≤ k → get_own fs (numbered name k) ≡ get_own gs (numbered name k))
    → fresh_name fuel fs name c ≡ fresh_name fuel gs name c
unfolding fresh_name
fresh_name_cong zero fs gs name c h = refl
fresh_name_cong (suc fuel) fs gs name c h =
    rw (h c (omega arith), fresh_name_cong fuel fs gs name (suc c) (λ k m. h k (omega arith))) refl

fresh_name-numbered :
    (fuel : ℕ) (fs : Fields) (name : Text) (c : ℕ)
    → (k : ℕ) × (c ≤ k) × (fresh_name fuel fs name c ≡ numbered name k)
unfolding fresh_name
fresh_name-numbered zero fs name c = (c, omega arith, refl)
fresh_name-numbered (suc fuel) fs name c =
    elim (Bool-cases (is_some (get_own fs (numbered name c)))) [
      | inl e ↦
          rw (e, fresh_name)
            (let (k, m, q) = fresh_name-numbered fuel fs name (suc c) in (k, omega arith, q))
      | inr e ↦ rw (e, fresh_name) (c, omega arith, refl)
    ]

-- A name with a later number is as free without the name as with it.
later_names :
    (fs : Fields) (name : Text) (c k : ℕ)
    → suc c ≤ k
    → get_own fs (numbered name k) ≡ get_own (without fs (numbered name c)) (numbered name k)
later_names fs name c k m = elim (Bool-cases (text_eq (numbered name c) (numbered name k))) [
  | inl e ↦ absurd (omega (arith, numbered_injective name c k e))
  | inr e ↦ sym (
      get_own-without fs (numbered name c) (numbered name k)
      ∙ ap (λ (b : Bool). if b then none else get_own fs (numbered name k)) e)
]

-- With one try more than there are definitions, the search ends at a name that is free.
pub fresh_name_free :
    (fuel : ℕ) (fs : Fields) (name : Text) (c : ℕ)
    → size fs < fuel
    → get_own fs (fresh_name fuel fs name c) ≡ none
unfolding fresh_name
fresh_name_free zero fs name c h = absurd (omega arith)
fresh_name_free (suc fuel) fs name c h =
    elim (Bool-cases (is_some (get_own fs (numbered name c)))) [
      | inl e ↦
          rw (e, fresh_name)
            (let gs = without fs (numbered name c) in
              let (k, m, q) = fresh_name-numbered fuel fs name (suc c) in
              ap (get_own fs) q
              ∙ later_names fs name c k m
              ∙ sym (ap (get_own gs) q)
              ∙ ap (get_own gs) (fresh_name_cong fuel fs gs name (suc c) (later_names fs name c))
              ∙ fresh_name_free fuel gs name (suc c)
                  (omega (arith, size-without_own fs (numbered name c) e)))
      | inr e ↦ rw (e, fresh_name) (is_some-none (get_own fs (numbered name c)) e)
    ]

decimal_digits-All : (fuel n : ℕ) → All (λ (d : ℕ). d < 58) (decimal_digits fuel n)
unfolding decimal_digits
decimal_digits-All zero n = tt
decimal_digits-All (suc fuel) n = elim (Bool-cases (ltb n 10)) [
  | inl e ↦ rw (e, decimal_digits) (ground arith, tt)
  | inr e ↦
      rw (e, decimal_digits)
        (All-append (λ (d : ℕ). d < 58) (decimal_digits fuel (n / 10)) ((48 + n % 10) ∷ [])
          (decimal_digits-All fuel (n / 10)) (ground arith, tt))
]

no_digits : (c : ℕ) (s t : Text) → 58 ≤ c → All (λ (d : ℕ). d < 58) s → text_eq s (c ∷ t) ≡ false
unfolding text_eq
no_digits c [] t h a = refl
no_digits c (d ∷ s) t h a = ground (arith, a.0)

pub decimal_neq_length : (n : ℕ) → text_eq (decimal n) (codes "length") ≡ false
decimal_neq_length n =
    no_digits b'l' (decimal n) (codes "ength") (omega arith) (decimal_digits-All (suc n) n)

pub decimal_neq : (a b : ℕ) → a < b → text_eq (decimal a) (decimal b) ≡ false
decimal_neq a b h = elim (Bool-cases (text_eq (decimal a) (decimal b))) [
  | inl e ↦ absurd (omega (arith, numbered_injective [] a b e))
  | inr e ↦ e
]
