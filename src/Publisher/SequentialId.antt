-- ===== src/Publisher/SequentialId.antt =====
-- packages/shared/src/id.ts: `compareSequentialIds`, on the code units of an id.
use orpc.Prelude.{ℕ, List, [], ◌∷◌, length, ◌≡◌, refl, arith, ltb, if◌then◌else◌}

-- the sign of the number that a comparison returns
pub data Sign : Type 0 where
  negative same positive : Sign

abbrev pub opposite : Sign → Sign
opposite negative = positive
opposite same = same
opposite positive = negative

-- `a < b ? -1 : a > b ? 1 : 0` of two texts
unfoldable pub compare_units : List ℕ → List ℕ → Sign
compare_units [] [] = same
compare_units [] (y ∷ ys) = negative
compare_units (x ∷ xs) [] = positive
compare_units (x ∷ xs) (y ∷ ys) =
    if ltb x y then negative else if ltb y x then positive else compare_units xs ys

unfoldable pub compare_sequential_ids : List ℕ → List ℕ → Sign
compare_sequential_ids a b =
    if ltb (length a) (length b)
    then negative
    else if ltb (length b) (length a)
    then positive
    else compare_units a b

compare_units_swap : (a b : List ℕ) → compare_units b a ≡ opposite (compare_units a b)
unfolding compare_units
compare_units_swap [] [] = refl
compare_units_swap [] (y ∷ ys) = refl
compare_units_swap (x ∷ xs) [] = refl
compare_units_swap (x ∷ xs) (y ∷ ys) = ground (arith, compare_units_swap xs ys)

compare_units-eq : (a b : List ℕ) → compare_units a b ≡ same → a ≡ b
unfolding compare_units
compare_units-eq [] [] h = refl
compare_units-eq [] (y ∷ ys) h = cc
compare_units-eq (x ∷ xs) [] h = cc
compare_units-eq (x ∷ xs) (y ∷ ys) h = ground (arith, compare_units-eq xs ys)

compare_units_refl : (a : List ℕ) → compare_units a a ≡ same
unfolding compare_units
compare_units_refl [] = refl
compare_units_refl (x ∷ xs) = ground (arith, compare_units_refl xs)

compare_units_trans :
    (a b c : List ℕ)
    → compare_units a b ≡ negative
    → compare_units b c ≡ negative
    → compare_units a c ≡ negative
unfolding compare_units
compare_units_trans [] [] c h k = cc
compare_units_trans [] (y ∷ ys) [] h k = cc
compare_units_trans [] (y ∷ ys) (z ∷ zs) h k = refl
compare_units_trans (x ∷ xs) [] c h k = cc
compare_units_trans (x ∷ xs) (y ∷ ys) [] h k = cc
compare_units_trans (x ∷ xs) (y ∷ ys) (z ∷ zs) h k = ground (arith, compare_units_trans xs ys zs)

abbrev pub Before : List ℕ → List ℕ → Type 0
Before a b = compare_sequential_ids a b ≡ negative

-- The comparison of sequential ids is a strict total order: swapping the ids swaps the sign, the
-- sign is zero for equal ids alone, and the order is transitive.
pub sequential_order :
    (a b c : List ℕ)
    → (compare_sequential_ids b a ≡ opposite (compare_sequential_ids a b))
      × ((compare_sequential_ids a b ≡ same) → a ≡ b)
      × (compare_sequential_ids a a ≡ same)
      × (Before a b → Before b c → Before a c)
unfolding compare_sequential_ids
sequential_order a b c = (
  ground (arith, compare_units_swap a b),
  λ h. ground (arith, compare_units-eq a b),
  ground (arith, compare_units_refl a),
  λ h k. ground (arith, compare_units_trans a b c),
)
