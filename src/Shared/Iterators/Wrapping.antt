-- ===== src/Shared/Iterators/Wrapping.antt =====
-- The life of a wrapped iterator.
use orpc.Prelude.{
  ℕ, suc, ◌+◌, Bool, true, false, Option, none, some, List, [], ◌∷◌, ◌++◌, ◌≡◌, refl, ap, sym, ◌∙◌,
  arith, length, if◌then◌else◌,
}
use mathlib.Core.List.{append_assoc}
use orpc.Shared.Iterators.{
  Outcome, ok, throws, IteratorResult, is_done, WrapOptions, Call, reads, cancels, reports,
  finishes, report, catch_next, map_result, next, finish, cancel, clean_up,
}

-- The consumer reads as often as the source is given, and then cleans up.
unfoldable pub life :
    WrapOptions → Bool → List (Outcome IteratorResult) → Outcome (Unit {0}) → List Call
life o done [] r = (clean_up o done r).0
life o done (x ∷ xs) r = (next o x).1 ++ life o (next o x).0 xs r

abbrev pub count_reads : List Call → ℕ
count_reads [] = 0
count_reads (reads ∷ calls) = suc (count_reads calls)
count_reads (cancels ∷ calls) = count_reads calls
count_reads (reports e ∷ calls) = count_reads calls
count_reads (finishes ∷ calls) = count_reads calls

abbrev pub count_cancels : List Call → ℕ
count_cancels [] = 0
count_cancels (reads ∷ calls) = count_cancels calls
count_cancels (cancels ∷ calls) = suc (count_cancels calls)
count_cancels (reports e ∷ calls) = count_cancels calls
count_cancels (finishes ∷ calls) = count_cancels calls

abbrev pub count_finishes : List Call → ℕ
count_finishes [] = 0
count_finishes (reads ∷ calls) = count_finishes calls
count_finishes (cancels ∷ calls) = count_finishes calls
count_finishes (reports e ∷ calls) = count_finishes calls
count_finishes (finishes ∷ calls) = suc (count_finishes calls)

-- Whether the last read of the source returned or threw; at first nothing has ended.
abbrev pub has_ended : Bool → List (Outcome IteratorResult) → Bool
has_ended done [] = done
has_ended done (throws e ∷ xs) = has_ended true xs
has_ended done (ok r ∷ xs) = has_ended (is_done r) xs

-- The calls are some others and then the one of `onFinish`; the others read the source `n` times and
-- cancel it `k` times.
abbrev pub EndsOnce : ℕ → ℕ → List Call → Type 0
EndsOnce n k calls =
    (before : List Call) × (calls ≡ before ++ finishes ∷ [])
    × (count_finishes before ≡ 0)
    × (count_reads before ≡ n)
    × (count_cancels before ≡ k)

reported :
    (o : Option (ℕ → Outcome (Unit {0}))) (e : ℕ)
    → (count_finishes (report o e).0 ≡ 0)
      × (count_reads (report o e).0 ≡ 0)
      × (count_cancels (report o e).0 ≡ 0)
reported none e = (refl, refl, refl)
reported (some f) e = (refl, refl, refl)

-- One `next` reads the source once, and neither cancels it nor finishes.
next-calls :
    (o : WrapOptions) (x : Outcome IteratorResult)
    → ((next o x).0 ≡ has_ended false (x ∷ []))
      × (calls : List Call) × ((next o x).1 ≡ reads ∷ calls)
      × (count_finishes calls ≡ 0)
      × (count_reads calls ≡ 0)
      × (count_cancels calls ≡ 0)
unfolding next catch_next
next-calls o (throws e) =
    let r = reported o.on_error e in (refl, (report o.on_error e).0, refl, r.0, r.1, r.2)
next-calls o (ok r) = mapped (map_result o r) refl
  where
    mapped :
        (m : Outcome IteratorResult)
        → map_result o r ≡ m
        → ((next o (ok r)).0 ≡ is_done r)
          × (calls : List Call) × ((next o (ok r)).1 ≡ reads ∷ calls)
          × (count_finishes calls ≡ 0)
          × (count_reads calls ≡ 0)
          × (count_cancels calls ≡ 0)
    mapped (ok r') e = (rw (e, next) refl, [], rw (e, next) refl, refl, refl, refl)
    mapped (throws f) e =
        let c = reported o.on_error f in
        (rw (e, next) refl, (report o.on_error f).0, rw (e, next) refl, c.0, c.1, c.2)

reads-append : (k l : List Call) → count_reads (k ++ l) ≡ count_reads k + count_reads l
reads-append [] l = omega arith
reads-append (reads ∷ k) l = omega (arith, reads-append k l)
reads-append (cancels ∷ k) l = reads-append k l
reads-append (reports e ∷ k) l = reads-append k l
reads-append (finishes ∷ k) l = reads-append k l

cancels-append : (k l : List Call) → count_cancels (k ++ l) ≡ count_cancels k + count_cancels l
cancels-append [] l = omega arith
cancels-append (reads ∷ k) l = cancels-append k l
cancels-append (cancels ∷ k) l = omega (arith, cancels-append k l)
cancels-append (reports e ∷ k) l = cancels-append k l
cancels-append (finishes ∷ k) l = cancels-append k l

finishes-append : (k l : List Call) → count_finishes (k ++ l) ≡ count_finishes k + count_finishes l
finishes-append [] l = omega arith
finishes-append (reads ∷ k) l = finishes-append k l
finishes-append (cancels ∷ k) l = finishes-append k l
finishes-append (reports e ∷ k) l = finishes-append k l
finishes-append (finishes ∷ k) l = omega (arith, finishes-append k l)

cancel-calls :
    (o : WrapOptions) (done : Bool) (r : Outcome (Unit {0}))
    → (count_finishes (cancel o done r).0 ≡ 0)
      × (count_reads (cancel o done r).0 ≡ 0)
      × (count_cancels (cancel o done r).0 ≡ (if done then 0 else 1))
unfolding cancel
cancel-calls o true r = (refl, refl, refl)
cancel-calls o false (ok _) = (refl, refl, refl)
cancel-calls o false (throws e) = let c = reported o.on_error e in (c.0, c.1, omega (arith, c.2))

finish-calls : (f r : Outcome (Unit {0})) → (finish (some f) r).0 ≡ finishes ∷ []
finish-calls (ok _) r = refl
finish-calls (throws e) r = refl

has_ended-cons :
    (o : WrapOptions) (done : Bool) (x : Outcome IteratorResult)
    (xs : List (Outcome IteratorResult))
    → has_ended done (x ∷ xs) ≡ has_ended (next o x).0 xs
has_ended-cons o done (throws e) xs =
    ap (λ (b : Bool). has_ended b xs) (sym (next-calls o (throws e)).0)
has_ended-cons o done (ok r) xs = ap (λ (b : Bool). has_ended b xs) (sym (next-calls o (ok r)).0)

-- A consumer that reads any number of times and then leaves, so that the library's class cleans up once:
-- however the source, the callbacks and the cleanup end, throws included, the wrapped iterator reads the
-- source once for each `next`; it cancels the source at its cleanup once, unless the last read of it
-- returned or threw, and so also if it was never read; and it calls `onFinish` once, last of all.
pub life-EndsOnce :
    (o : WrapOptions) (f r : Outcome (Unit {0})) (done : Bool) (xs : List (Outcome IteratorResult))
    → o.on_finish ≡ some f
    → EndsOnce (length xs) (if has_ended done xs then 0 else 1) (life o done xs r)
unfolding life clean_up
life-EndsOnce o f r done [] h =
    let c = cancel-calls o done r in
    (
      (cancel o done r).0,
      rw (h, clean_up)
          (ap (λ (l : List Call). (cancel o done r).0 ++ l) (finish-calls f (cancel o done r).1)),
      c.0,
      c.1,
      c.2,
    )
life-EndsOnce o f r done (x ∷ xs) h =
    let (state, calls, e, nf, nr, nc) = next-calls o x in
    let (before, e', f', r', c') = life-EndsOnce o f r (next o x).0 xs h in
    (
      (next o x).1 ++ before,
      ap (λ (l : List Call). (next o x).1 ++ l) e'
          ∙ sym (append_assoc (next o x).1 before (finishes ∷ [])),
      rw e (omega (arith, finishes-append calls before, nf, f')),
      rw e (omega (arith, reads-append calls before, nr, r')),
      rw (e, has_ended-cons o done x xs) (omega (arith, cancels-append calls before, nc, c')),
    )
