-- ===== src/Publisher/Bisect.antt =====
-- The binary search that `findResumeStartIndex` and `findFirstUnexpiredIndex` both write out, over a
-- test of the element in the middle.
use orpc.Prelude.{
  ℕ, zero, suc, ◌+◌, ◌/◌, ◌≤◌, ◌<◌, Bool, true, false, ◌≡◌, refl, arith, ltb, if◌then◌else◌,
  Bool-cases, inl, inr, ltb→lt, List, none, some, [], ◌∷◌, ◌++◌, length, get_elem?, drop, All,
  length-append,
}

-- `while (lo < hi)`: the half behind a failed test is searched on
unfoldable pub bisect : (ℕ → Bool) → ℕ → ℕ → ℕ → ℕ
bisect test zero lo hi = lo
bisect test (suc fuel) lo hi =
    let mid = (lo + hi) / 2 in
    let left = bisect test fuel lo mid in
    let right = bisect test fuel (mid + 1) hi in
    if ltb lo hi then (if test mid then left else right) else lo

-- once the test holds it goes on holding
abbrev pub IsMonotone : (ℕ → Bool) → ℕ → Type 0
IsMonotone test hi = (i j : ℕ) → i ≤ j → j < hi → test i ≡ true → test j ≡ true

-- `r` parts the range into indices that fail the test and indices that pass it
pub record Parts (test : ℕ → Bool) (lo hi r : ℕ) : Type 0 where
  pub low : lo ≤ r
  pub high : r ≤ hi
  pub fails : (i : ℕ) → lo ≤ i → i < r → test i ≡ false
  pub holds : (i : ℕ) → r ≤ i → i < hi → test i ≡ true

holds_from :
    (test : ℕ → Bool) (mid hi i : ℕ) {r : ℕ}
    → IsMonotone test hi
    → test mid ≡ true
    → ((j : ℕ) → r ≤ j → j < mid → test j ≡ true)
    → r ≤ i
    → i < hi
    → test i ≡ true
holds_from test mid hi i m t below a b = elim (Bool-cases (ltb i mid)) [
  | inl e ↦ below i a (ltb→lt i mid e)
  | inr e ↦ m mid i (ground arith) b t
]

fails_until :
    (test : ℕ → Bool) (mid hi i : ℕ) {r : ℕ}
    → IsMonotone test hi
    → mid < hi
    → test mid ≡ false
    → ((j : ℕ) → mid + 1 ≤ j → j < r → test j ≡ false)
    → (lo : ℕ) → lo ≤ i
    → i < r
    → test i ≡ false
fails_until test mid hi i m w t above lo a b = elim (Bool-cases (ltb mid i)) [
  | inl e ↦ above i (ground arith) b
  | inr e ↦ elim (Bool-cases (test i)) [ inl u ↦ cc (m i mid (ground arith) w u) | inr u ↦ u ]
]

pub bisect-Parts :
    (test : ℕ → Bool) (fuel lo hi : ℕ)
    → IsMonotone test hi
    → lo ≤ hi
    → hi ≤ lo + fuel
    → Parts test lo hi (bisect test fuel lo hi)
unfolding bisect
bisect-Parts test zero lo hi m h k = record {
  low = omega arith;
  high = omega arith;
  fails = λ i a b. absurd (omega arith);
  holds = λ i a b. absurd (omega arith);
}
bisect-Parts test (suc fuel) lo hi m h k = elim (Bool-cases (ltb lo hi)) [
  | inr e ↦ rw e (record {
    low = omega arith;
    high = omega arith;
    fails = λ i a b. absurd (omega arith);
    holds = λ i a b. absurd (ground arith);
  })
  | inl e ↦
      let mid = (lo + hi) / 2 in
      let inside : lo < hi = ltb→lt lo hi e in
      elim (Bool-cases (test mid)) [
        | inl t ↦
            let ih =
              bisect-Parts test fuel lo mid (λ i j a b. m i j a (omega arith)) (omega arith)
                (omega arith) in
            rw (e, t)
              (record {
                low = ih.low;
                high = omega (arith, ih.high);
                fails = ih.fails;
                holds = λ i a b. holds_from test mid hi i m t ih.holds a b;
              })
        | inr t ↦
            let ih = bisect-Parts test fuel (mid + 1) hi m (omega arith) (omega arith) in
            rw (e, t)
              (record {
                low = omega (arith, ih.low);
                high = ih.high;
                fails = λ i a b. fails_until test mid hi i m (omega arith) t ih.fails lo a b;
                holds = ih.holds;
              })
      ]
]

parted-IsMonotone :
    (test : ℕ → Bool) (hi k : ℕ)
    → ((i : ℕ) → i < k → test i ≡ false)
    → ((i : ℕ) → k ≤ i → i < hi → test i ≡ true)
    → IsMonotone test hi
parted-IsMonotone test hi k low high i j v w t = elim (Bool-cases (ltb i k)) [
  | inl e ↦ cc (low i (ltb→lt i k e))
  | inr e ↦ high j (ground arith) w
]

only_part :
    (test : ℕ → Bool) (hi k : ℕ) {r : ℕ}
    → Parts test 0 hi r
    → k ≤ hi
    → ((i : ℕ) → i < k → test i ≡ false)
    → ((i : ℕ) → k ≤ i → i < hi → test i ≡ true)
    → r ≡ k
only_part test hi k {r} parts w low high = elim (Bool-cases (ltb r k)) [
  | inl e ↦ cc (low r (ltb→lt r k e), parts.holds r (omega arith) (omega (arith, ltb→lt r k e)))
  | inr e ↦ elim (Bool-cases (ltb k r)) [
    | inl f ↦ cc (
      high k (omega arith) (omega (arith, ltb→lt k r f, parts.high)),
      parts.fails k (omega arith) (ltb→lt k r f),
    )
    | inr f ↦ ground arith
  ]
]

-- A range that is parted at `k` is searched to `k`.
bisect-eq :
    (test : ℕ → Bool) (hi k : ℕ)
    → k ≤ hi
    → ((i : ℕ) → i < k → test i ≡ false)
    → ((i : ℕ) → k ≤ i → i < hi → test i ≡ true)
    → bisect test hi 0 hi ≡ k
bisect-eq test hi k w low high =
    let parts =
      bisect-Parts test hi 0 hi (parted-IsMonotone test hi k low high) (omega arith)
        (omega arith) in
    only_part test hi k parts w low high

module _ {A : Type 0} (p : A → Bool) where
  -- the test of the element at an index
  abbrev pub at_index : List A → ℕ → Bool
  at_index xs i = elim (get_elem? xs i) [ none ↦ false | some x ↦ p x ]

  -- `findResumeStartIndex` and `findFirstUnexpiredIndex`: the search over a whole bucket
  unfoldable pub find_index : List A → ℕ
  unfolding bisect
  find_index xs = bisect (at_index xs) (length xs) 0 (length xs)

  at_index-append_left :
      (xs ys : List A) (i : ℕ)
      → All (λ x. p x ≡ false) xs
      → i < length xs
      → at_index (xs ++ ys) i ≡ false
  at_index-append_left [] ys i h w = absurd (omega arith)
  at_index-append_left (x ∷ xs) ys zero h w = h.0
  at_index-append_left (x ∷ xs) ys (suc i) h w = at_index-append_left xs ys i h.1 (omega arith)

  at_index-All :
      (ys : List A) (i : ℕ) → All (λ x. p x ≡ true) ys → i < length ys → at_index ys i ≡ true
  at_index-All [] i h w = absurd (omega arith)
  at_index-All (y ∷ ys) zero h w = h.0
  at_index-All (y ∷ ys) (suc i) h w = at_index-All ys i h.1 (omega arith)

  at_index-append_right :
      (xs ys : List A) (i : ℕ)
      → All (λ x. p x ≡ true) ys
      → length xs ≤ i
      → i < length (xs ++ ys)
      → at_index (xs ++ ys) i ≡ true
  at_index-append_right [] ys i h v w = at_index-All ys i h w
  at_index-append_right (x ∷ xs) ys zero h v w = absurd (omega arith)
  at_index-append_right (x ∷ xs) ys (suc i) h v w =
      at_index-append_right xs ys i h (omega arith) (omega arith)

  drop-length : (xs ys : List A) → drop (length xs) (xs ++ ys) ≡ ys
  drop-length [] ys = refl
  drop-length (x ∷ xs) ys = drop-length xs ys

  -- In a bucket whose first part fails the test and whose second part passes it, the search leads to
  -- the second part.
  pub drop-find_index :
      (xs ys : List A)
      → All (λ x. p x ≡ false) xs
      → All (λ x. p x ≡ true) ys
      → drop (find_index (xs ++ ys)) (xs ++ ys) ≡ ys
  unfolding find_index
  drop-find_index xs ys low high =
      rw
        (bisect-eq (at_index (xs ++ ys)) (length (xs ++ ys)) (length xs)
          (omega (arith, length-append xs ys)) (λ i w. at_index-append_left xs ys i low w)
          (λ i v w. at_index-append_right xs ys i high v w))
        (drop-length xs ys)
