-- ===== src/Batch/Groups/Carrying.antt =====
-- All pending requests go out, each in a batch that carries its method.
use orpc.Prelude.{
  ℕ, ◌+◌, ◌≤◌, ◌<◌, Bool, true, false, Option, some, List, [], ◌∷◌, ◌++◌, ◌≡◌, ◌⊎◌, inl, inr, refl,
  sym, ap, subst, arith, ◌&&◌, ◌||◌, not, all, ◌==◌, length, length-append, if◌then◌else◌,
  Bool-cases, All, All-append,
}
use orpc.Batch.Groups.{
  Method, get, query, unsafe, is_get, is_query, Request, Queue, gives, throws, BatchOptions, Part,
  alone, batch, rejected, lost, has_thrown, is_rejected, is_too_long, both, execute_batch, only,
  is_unsafe, process_pending_batches,
}
use orpc.Batch.Groups.Covering.{
  requests_of, all_requests, all_requests-append, IsAllowed, execute_batch-Covers,
}

-- the methods that a batch of a method carries
abbrev pub fits : Method → Method → Bool
fits get = is_get
fits query = is_query
fits (unsafe post) = is_unsafe

abbrev pub IsCarriedBy : Method → Request → Type 0
IsCarriedBy m r = fits m r.method ≡ true

only-IsCarriedBy : (m : Method) (items : List Request) → All (IsCarriedBy m) (only (fits m) items)
only-IsCarriedBy m [] = tt
only-IsCarriedBy m (r ∷ items) = elim (Bool-cases (fits m r.method)) [
  | inl e ↦ rw e (e, only-IsCarriedBy m items)
  | inr e ↦ rw e (only-IsCarriedBy m items)
]

-- how often the call with a promise occurs
abbrev pub calls_of : ℕ → List Request → ℕ
calls_of p [] = 0
calls_of p (r ∷ items) = (if r.promise == p then 1 else 0) + calls_of p items

abbrev pub queued : Queue → List Request
queued [] = []
queued ((g, items) ∷ queue) = items ++ queued queue

calls_of-append :
    (p : ℕ) (xs ys : List Request) → calls_of p (xs ++ ys) ≡ calls_of p xs + calls_of p ys
calls_of-append p [] ys = omega arith
calls_of-append p (r ∷ xs) ys = omega (arith, calls_of-append p xs ys)

calls_of-only :
    (p : ℕ) (items : List Request)
    → calls_of p (only is_get items)
        + calls_of p (only is_query items)
        + calls_of p (only is_unsafe items)
      ≡ calls_of p items
calls_of-only p [] = omega arith
calls_of-only p (r ∷ items) = ground (arith, calls_of-only p items)

length-only : (q : Method → Bool) (items : List Request) → length (only q items) ≤ length items
length-only q [] = omega arith
length-only q (r ∷ items) = ground (arith, length-only q items)

-- A part is alone, kept from being sent by an option that throws, or a batch within the limits, of at
-- least two requests whose methods its own method carries.
abbrev pub IsSound : BatchOptions → Part → Type 0
IsSound o (alone r) = Unit {0}
IsSound o (rejected items) =
    (All (IsCarriedBy get) items × (has_thrown (o.max_url_length items) ≡ true))
    ⊎ (o.is_addressed items ≡ false)
IsSound o (lost items) =
    (o.max_size items ≡ throws) ⊎ ((o.is_prepared items && all (o.is_mapped items) items) ≡ false)
IsSound o (batch m items) =
    All (IsCarriedBy m) items
    × (2 ≤ length items)
    × (n : ℕ) × (o.max_size items ≡ gives n)
    × (length items ≤ n)
    × ((is_get m && is_too_long o items) ≡ false)
    × (is_rejected o m items ≡ false)

All-split : (P : Request → Type 0) (xs ys : List Request) → All P (xs ++ ys) → All P xs × All P ys
All-split P [] ys h = (tt, h)
All-split P (x ∷ xs) ys h = let (a, b) = All-split P xs ys h.1 in ((h.0, a), b)

rejected-IsSound :
    (o : BatchOptions) (m : Method) (items : List Request)
    → All (IsCarriedBy m) items
    → is_rejected o m items ≡ true
    → IsSound o (rejected items)
rejected-IsSound o m items h r = elim (Bool-cases (o.is_addressed items)) [
  | inr unknown ↦ inr unknown
  | inl known ↦
      thrown m h
        (subst (λ b. (is_get m && has_thrown (o.max_url_length items) || not b) ≡ true) known r)
]
  where
    thrown :
        (m : Method)
        → All (IsCarriedBy m) items
        → (is_get m && has_thrown (o.max_url_length items) || false) ≡ true
        → IsSound o (rejected items)
    thrown get h r = inl (h, ground arith)
    thrown query h r = absurd (ground arith)
    thrown (unsafe n) h r = absurd (ground arith)

part-IsSound :
    (o : BatchOptions) (m : Method) (p : Part)
    → All (IsCarriedBy m) (requests_of p)
    → IsAllowed o m p
    → IsSound o p
part-IsSound o m (alone r) h a = tt
part-IsSound o m (lost items) h a = a
part-IsSound o m (rejected items) h r = rejected-IsSound o m items h r
part-IsSound o m (batch m' items) h (same, two, n, e, l, t, a) = (
  subst (λ (x : Method). All (IsCarriedBy x) items) (sym same) h,
  two,
  n,
  e,
  l,
  subst (λ (x : Method). (is_get x && is_too_long o items) ≡ false) (sym same) t,
  subst (λ (x : Method). is_rejected o x items ≡ false) (sym same) a,
)

parts-IsSound :
    (o : BatchOptions) (m : Method) (parts : List Part)
    → All (IsCarriedBy m) (all_requests parts)
    → All (IsAllowed o m) parts
    → All (IsSound o) parts
parts-IsSound o m [] h a = tt
parts-IsSound o m (p ∷ parts) h a =
    let (mine, others) = All-split (IsCarriedBy m) (requests_of p) (all_requests parts) h in
    (part-IsSound o m p mine a.0, parts-IsSound o m parts others a.1)

module _ (o : BatchOptions) where
  -- The call returns, its parts are sound, and each promise is in them as often as it is given.
  abbrev pub Carries : (ℕ → ℕ) → Option (List Part) → Type 0
  Carries calls r =
      (parts : List Part) × (r ≡ some parts)
      × ((p : ℕ) → calls_of p (all_requests parts) ≡ calls p)
      × All (IsSound o) parts

  both-Carries :
      (f g h : ℕ → ℕ) (p q : Option (List Part))
      → ((n : ℕ) → f n + g n ≡ h n)
      → Carries f p
      → Carries g q
      → Carries h (both p q)
  both-Carries f g h p q sum (ps, e, c, s) (qs, e', c', s') = (
    ps ++ qs,
    rw (e, e') refl,
    λ n. omega (
      arith,
      ap (calls_of n) (all_requests-append ps qs),
      calls_of-append n (all_requests ps) (all_requests qs),
      c n,
      c' n,
      sum n,
    ),
    All-append (IsSound o) ps qs s s',
  )

  execute_batch-Carries :
      (fuel : ℕ) (m : Method) (items : List Request)
      → length items < fuel
      → Carries
          (λ p. calls_of p (only (fits m) items))
          (execute_batch o fuel m (only (fits m) items))
  execute_batch-Carries fuel m items h =
      let (parts, e, c, a) =
        execute_batch-Covers o m fuel (only (fits m) items)
          (omega (arith, length-only (fits m) items)) in
      (
        parts,
        e,
        λ p. ap (calls_of p) c,
        parts-IsSound o m parts (subst (All (IsCarriedBy m)) (sym c) (only-IsCarriedBy m items)) a,
      )

  -- With fuel above the number of requests, the pending requests of all groups go out, each once: alone,
  -- or in a batch of at least two requests that is within the limits and of a method that carries
  -- theirs; only those of a group whose options throw are kept back. If it is the limit of a URL, the
  -- context or the path that throws, every caller gets the error, else they are lost.
  pub process_pending_batches-Carries :
      (fuel post : ℕ) (queue : Queue)
      → length (queued queue) < fuel
      → Carries (λ p. calls_of p (queued queue)) (process_pending_batches o fuel post queue)
  unfolding process_pending_batches
  process_pending_batches-Carries fuel post [] h = ([], refl, λ p. refl, tt)
  process_pending_batches-Carries fuel post ((g, items) ∷ queue) h =
      let short : length items < fuel = omega (arith, length-append items (queued queue)) in
      let rest_short : length (queued queue) < fuel =
        omega (arith, length-append items (queued queue)) in
      let later = process_pending_batches-Carries fuel post queue rest_short in
      both-Carries (λ p. calls_of p (only is_get items))
        (λ p.
          calls_of p (only is_query items)
          + (calls_of p (only is_unsafe items) + calls_of p (queued queue)))
        (λ p. calls_of p (items ++ queued queue)) _ _
        (λ p. omega (arith, calls_of-only p items, calls_of-append p items (queued queue)))
        (execute_batch-Carries fuel get items short)
        (both-Carries (λ p. calls_of p (only is_query items))
          (λ p. calls_of p (only is_unsafe items) + calls_of p (queued queue)) _ _ _ (λ p. refl)
          (execute_batch-Carries fuel query items short)
          (both-Carries (λ p. calls_of p (only is_unsafe items)) (λ p. calls_of p (queued queue)) _
            _ _ (λ p. refl) (execute_batch-Carries fuel (unsafe post) items short) later))
