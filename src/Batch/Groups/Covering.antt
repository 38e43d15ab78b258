-- ===== src/Batch/Groups/Covering.antt =====
-- Every request of a group goes out once, alone or in a batch that the options allow.
use orpc.Prelude.{
  ℕ, zero, suc, ◌+◌, ◌≤◌, ◌<◌, false, Option, some, List, [], ◌∷◌, ◌++◌, ◌≡◌, ◌⊎◌, inl, inr, refl,
  sym, ap, ◌∙◌, arith, true, ◌&&◌, all, ltb, length, drop, Bool-cases, All, All-append,
}
use mathlib.Core.List.{append_assoc, append-nil}
use orpc.Batch.Groups.{
  Method, is_get, Request, Given, gives, throws, BatchOptions, Part, alone, batch, rejected, lost,
  is_rejected, is_too_long, half, take, split_in_half, both, send, execute_batch,
}

take-drop : {A : Type 0} (n : ℕ) (xs : List A) → take n xs ++ drop n xs ≡ xs
take-drop zero xs = refl
take-drop (suc n) [] = refl
take-drop (suc n) (x ∷ xs) = ap (λ l. x ∷ l) (take-drop n xs)

length-take : {A : Type 0} (n : ℕ) (xs : List A) → n ≤ length xs → length (take n xs) ≡ n
length-take zero xs h = refl
length-take (suc n) [] h = absurd (omega arith)
length-take (suc n) (x ∷ xs) h = omega (arith, length-take n xs)

length-drop :
    {A : Type 0} (n : ℕ) (xs : List A) → n ≤ length xs → length (drop n xs) + n ≡ length xs
length-drop zero xs h = omega arith
length-drop (suc n) [] h = absurd (omega arith)
length-drop (suc n) (x ∷ xs) h = omega (arith, length-drop n xs)

-- both halves of a group are shorter than it
halves_shorter :
    {A : Type 0} (x y : A) (xs : List A)
    → (length (split_in_half (x ∷ y ∷ xs)).0 < length (x ∷ y ∷ xs))
      × (length (split_in_half (x ∷ y ∷ xs)).1 < length (x ∷ y ∷ xs))
halves_shorter x y xs =
    let group = x ∷ y ∷ xs in
    (omega (arith, length-take (half group) group), omega (arith, length-drop (half group) group))

abbrev pub requests_of : Part → List Request
requests_of (alone r) = r ∷ []
requests_of (batch m items) = items
requests_of (rejected items) = items
requests_of (lost items) = items

abbrev pub all_requests : List Part → List Request
all_requests [] = []
all_requests (p ∷ parts) = requests_of p ++ all_requests parts

pub all_requests-append :
    (ps qs : List Part) → all_requests (ps ++ qs) ≡ all_requests ps ++ all_requests qs
all_requests-append [] qs = refl
all_requests-append (p ∷ ps) qs =
    ap (λ l. requests_of p ++ l) (all_requests-append ps qs)
    ∙ sym (append_assoc (requests_of p) (all_requests ps) (all_requests qs))

module _ (o : BatchOptions) (m : Method) where
  -- A batch is of the method asked for and within the limits; what is lost is lost to an option.
  abbrev pub IsAllowed : Part → Type 0
  IsAllowed (alone r) = Unit {0}
  IsAllowed (batch m' items) =
      (m' ≡ m)
      × (2 ≤ length items)
      × (n : ℕ) × (o.max_size items ≡ gives n)
      × (length items ≤ n)
      × ((is_get m && is_too_long o items) ≡ false)
      × (is_rejected o m items ≡ false)
  IsAllowed (rejected items) = is_rejected o m items ≡ true
  IsAllowed (lost items) =
      (o.max_size items ≡ throws) ⊎ ((o.is_prepared items && all (o.is_mapped items) items) ≡ false)

  -- The call returns, and its parts make up the requests in order.
  abbrev pub Covers : List Request → Option (List Part) → Type 0
  Covers items r =
      (parts : List Part) × (r ≡ some parts) × (all_requests parts ≡ items) × All IsAllowed parts

  both-Covers :
      (xs ys zs : List Request) (p q : Option (List Part))
      → xs ++ ys ≡ zs
      → Covers xs p
      → Covers ys q
      → Covers zs (both p q)
  both-Covers xs ys zs p q h (ps, e, c, a) (qs, e', c', a') = (
    ps ++ qs,
    rw (e, e') refl,
    rw (all_requests-append ps qs, c, c') h,
    All-append IsAllowed ps qs a a',
  )

  send-Covers :
      (items : List Request) (n : ℕ) (split : Option (List Part))
      → 2 ≤ length items
      → o.max_size items ≡ gives n
      → Covers items split
      → Covers items (send o m items split)
  unfolding send
  send-Covers items n split two e c = elim (Bool-cases (ltb n (length items))) [
    | inl big ↦ rw (e, big, send) c
    | inr fits ↦ elim (Bool-cases (o.is_prepared items && all (o.is_mapped items) items)) [
      | inr p ↦ rw (e, fits, p, send) (lost items ∷ [], refl, append-nil items, (inr p, tt))
      | inl p ↦ elim (Bool-cases (is_get m && is_too_long o items)) [
        | inl long ↦ rw (e, fits, p, long, send) c
        | inr short ↦ elim (Bool-cases (is_rejected o m items)) [
          | inl r ↦
              rw (e, fits, p, short, r, send) (rejected items ∷ [], refl, append-nil items, (r, tt))
          | inr ok ↦
              rw (e, fits, p, short, ok, send)
                (
                  batch m items ∷ [],
                  refl,
                  append-nil items,
                  ((refl, two, n, e, ground arith, short, ok), tt),
                )
        ]
      ]
    ]
  ]

  given-Covers :
      (group : List Request) (split : Option (List Part)) (g : Given)
      → 2 ≤ length group
      → Covers group split
      → o.max_size group ≡ g
      → Covers group (elim g [ throws ↦ some (lost group ∷ []) | gives n ↦ send o m group split ])
  given-Covers group split throws two c e = (lost group ∷ [], refl, append-nil group, (inl e, tt))
  given-Covers group split (gives n) two c e = send-Covers group n split two e c

  pub execute_batch-Covers :
      (fuel : ℕ) (items : List Request)
      → length items < fuel
      → Covers items (execute_batch o fuel m items)
  unfolding execute_batch
  execute_batch-Covers zero items h = absurd (omega arith)
  execute_batch-Covers (suc fuel) [] h = ([], refl, refl, tt)
  execute_batch-Covers (suc fuel) (r ∷ []) h = (alone r ∷ [], refl, refl, (tt, tt))
  execute_batch-Covers (suc fuel) (r ∷ s ∷ items) h =
      let group = r ∷ s ∷ items in
      let shorter = halves_shorter r s items in
      let split =
        both (execute_batch o fuel m (split_in_half group).0)
          (execute_batch o fuel m (split_in_half group).1) in
      given-Covers group split (o.max_size group) (omega arith)
        (both-Covers (split_in_half group).0 (split_in_half group).1 group
          (execute_batch o fuel m (split_in_half group).0)
          (execute_batch o fuel m (split_in_half group).1) (take-drop (half group) group)
          (execute_batch-Covers fuel (split_in_half group).0 (omega (arith, shorter)))
          (execute_batch-Covers fuel (split_in_half group).1 (omega (arith, shorter))))
        refl
