-- ===== src/Publisher/Memory/Resume.antt =====
-- What a subscriber that names the last event it has seen is called with.
use orpc.Prelude.{
  ℕ, suc, ◌+◌, ◌≤◌, ◌<◌, String, true, false, none, some, List, [], ◌∷◌, ◌++◌, ◌≡◌, refl, arith,
  map, All, All-append, ap, sym, ◌∙◌, subst,
}
use orpc.Publisher.SequentialId.{Before, compare_sequential_ids, sequential_order}
use orpc.Publisher.Bisect.{drop-find_index}
use orpc.Publisher.Memory.{
  EventId, Events, StoredEvent, Options, MemoryPublisher, bucket_of, cleanup, subscribe_listener,
  is_after, missed, is_positive, retention,
}
use orpc.Publisher.Memory.Buckets.{IsRegular}
use orpc.Publisher.Memory.Reachable.{Reach, Reach-IsSound, cleanup-IsSound}

-- each generated id comes after those generated before it
abbrev pub IsIncreasing : {P : Type 0} → Events P → Type 0
IsIncreasing ev = (m n : ℕ) → m < n → Before (ev.generate m) (ev.generate n)

abbrev pub IsLawful : {P : Type 0} → Events P → Type 0
IsLawful {P = P} ev = (p : P) (id : EventId) → ev.id_of (ev.with_id p id) ≡ some id

some_injective : {A : Type 0} {a b : A} → some a ≡ some b → a ≡ b
some_injective {A} {a} h = ap (λ o. elim o [ none ↦ a | some x ↦ x ]) h

append_cons : {A : Type 0} (xs : List A) (y : A) (ys : List A) → xs ++ y ∷ ys ≡ (xs ++ y ∷ []) ++ ys
append_cons [] y ys = refl
append_cons (x ∷ xs) y ys = ap (λ l. x ∷ l) (append_cons xs y ys)

is_after-some :
    {P : Type 0} (ev : Events P) (last id : EventId) (e : StoredEvent P)
    → ev.id_of e.payload ≡ some id
    → is_after ev last e ≡ is_positive (compare_sequential_ids id last)
is_after-some ev last id e h =
    ap (λ o. elim o [ none ↦ false | some i ↦ is_positive (compare_sequential_ids i last) ]) h

module _ {P : Type 0} (ev : Events P) (increasing : IsIncreasing ev) where
  is_after-later :
      (last : EventId) (n m : ℕ) (e : StoredEvent P)
      → last ≡ ev.generate n
      → n < m
      → ev.id_of e.payload ≡ some (ev.generate m)
      → is_after ev last e ≡ true
  is_after-later last n m e l w h =
      rw
        (
          is_after-some ev last (ev.generate m) e h,
          l,
          (sequential_order (ev.generate n) (ev.generate m) []).0,
          increasing n m w,
        )
        refl

  is_after-earlier :
      (last : EventId) (n m : ℕ) (e : StoredEvent P)
      → last ≡ ev.generate n
      → m < n
      → ev.id_of e.payload ≡ some (ev.generate m)
      → is_after ev last e ≡ false
  is_after-earlier last n m e l w h =
      rw (is_after-some ev last (ev.generate m) e h, l, increasing m n w) refl

  is_after-itself :
      (last : EventId) (e : StoredEvent P)
      → ev.id_of e.payload ≡ some last
      → is_after ev last e ≡ false
  is_after-itself last e h =
      rw (is_after-some ev last last e h, (sequential_order last last []).2) refl

  later_part :
      (last : EventId) (n lo hi first late : ℕ) (es : List (StoredEvent P))
      → last ≡ ev.generate n
      → n < lo
      → IsRegular ev lo hi first late es
      → All (λ e. is_after ev last e ≡ true) es
  later_part last n lo hi first late [] l w h = tt
  later_part last n lo hi first late (e ∷ es) l w (m, a, b, i, c, d, r) = (
    is_after-later last n m e l (omega arith) i,
    later_part last n (suc m) hi e.expires_at late es l (omega arith) r,
  )

  number_of :
      (last : EventId) (lo hi first late : ℕ) (pre : List (StoredEvent P)) (e : StoredEvent P)
      (post : List (StoredEvent P))
      → ev.id_of e.payload ≡ some last
      → IsRegular ev lo hi first late (pre ++ e ∷ post)
      → (n : ℕ) × (lo ≤ n)
        × (last ≡ ev.generate n)
        × All (λ d. is_after ev last d ≡ false) pre
        × All (λ d. is_after ev last d ≡ true) post
  number_of last lo hi first late [] e post h (m, a, b, i, c, d, r) =
      let l : last ≡ ev.generate m = some_injective (sym h ∙ i) in
      (m, a, l, tt, later_part last m (suc m) hi e.expires_at late post l (omega arith) r)
  number_of last lo hi first late (p ∷ pre) e post h (m, a, b, i, c, d, r) =
      let (n, a', l, before, after) = number_of last (suc m) hi p.expires_at late pre e post h r in
      (n, omega arith, l, (is_after-earlier last n m p l (omega arith) i, before), after)

  missed-regular :
      (last : EventId) (hi late : ℕ) (pre : List (StoredEvent P)) (e : StoredEvent P)
      (post : List (StoredEvent P))
      → ev.id_of e.payload ≡ some last
      → IsRegular ev 0 hi 0 late (pre ++ e ∷ post)
      → missed ev last (pre ++ e ∷ post) ≡ map (λ d. d.payload) post
  unfolding missed
  missed-regular last hi late pre e post h r =
      let (n, a, l, before, after) = number_of last 0 hi 0 late pre e post h r in
      rw (append_cons pre e post) (
        ap (λ ds. map (λ d. d.payload) ds)
          (drop-find_index (is_after ev last) (pre ++ e ∷ []) post
            (All-append (λ d. is_after ev last d ≡ false) pre (e ∷ []) before
              (is_after-itself last e h, tt))
            after))

-- A subscriber that names an event which its bucket still holds after the clean-up is called at once
-- with exactly the events that were stored behind it, in the order of their publication: none is
-- missed, none repeated. Resuming is enabled, ids are generated in increasing order, and the
-- publisher is one that calls lead to.
pub resume_exact :
    {P : Type 0} (ev : Events P) (o : Options) (s : MemoryPublisher P) (t now : ℕ) (event : String)
    (listener : ℕ) (last : EventId) (pre : List (StoredEvent P)) (e : StoredEvent P)
    (post : List (StoredEvent P))
    → IsIncreasing ev
    → IsLawful ev
    → Reach ev o s t
    → o.resume_enabled ≡ true
    → bucket_of (cleanup o now s).events event ≡ pre ++ e ∷ post
    → ev.id_of e.payload ≡ some last
    → (subscribe_listener ev o now event listener (some last) s).1 ≡ map (λ d. d.payload) post
unfolding subscribe_listener
resume_exact {P} ev o s t now event listener last pre e post increasing lawful r on b h =
    let v = cleanup-IsSound ev o lawful s t now (Reach-IsSound ev o lawful r) in
    let g =
      subst (λ es. IsRegular ev 0 (cleanup o now s).generated 0 (t + retention o) es) b
        (v.regular event) in
    simp (on, b)
      (missed-regular ev increasing last (cleanup o now s).generated (t + retention o) pre e post h
        g)
