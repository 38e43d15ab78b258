-- ===== src/Publisher/Iterator/Order.antt =====
-- The order in which the iterator hands out events, and which of them a full buffer drops.
use orpc.Prelude.{
  ℕ, Bool, zero, suc, ◌+◌, ◌-◌, ◌≤◌, false, none, some, List, [], ◌∷◌, ◌++◌, map, length, ltb, drop,
  ◌≡◌, ◌⊎◌, inl, inr, refl, Bool-cases, arith, sym, ap, length-append, zip, ◌∙◌, subst, All,
}
use mathlib.Core.List.{append_assoc, append-nil}
use orpc.Publisher.Iterator.{
  Outcome, value, EventIterator, receive, pull, Call, receive_call, pull_call, terminate_call,
  abort_call, call, run, settlements, push_bounded, new_iterator,
}
use orpc.Publisher.Iterator.Pulls.{asked}

-- the newest events of a list
abbrev pub newest : {A : Type 0} → ℕ → List A → List A
newest m xs = drop (length xs - m) xs

drop-eq : {A : Type 0} (j k : ℕ) (xs : List A) → j ≡ k → drop j xs ≡ drop k xs
drop-eq j k xs h = ap (λ n. drop n xs) h

drop-drop :
    {A : Type 0} (j k : ℕ) (l xs : List A)
    → k ≤ length l
    → drop j (drop k l ++ xs) ≡ drop (k + j) (l ++ xs)
drop-drop j zero l xs h = drop-eq j (0 + j) (l ++ xs) (omega arith)
drop-drop j (suc k) [] xs h = absurd (omega arith)
drop-drop j (suc k) (x ∷ l) xs h =
    drop-drop j k l xs (omega arith)
    ∙ drop-eq (suc (k + j)) (suc k + j) (x ∷ (l ++ xs)) (omega arith)

length-drop : {A : Type 0} (k : ℕ) (l : List A) → length (drop k l) ≡ length l - k
length-drop zero l = omega arith
length-drop (suc k) [] = omega arith
length-drop (suc k) (x ∷ l) = omega (arith, length-drop k l)

module _ {T : Type 0} where
  push_bounded-eq-newest :
      (m : ℕ) (b : List T) (x : T)
      → length b ≤ m
      → push_bounded (some m) b x ≡ newest m (b ++ x ∷ [])
  unfolding push_bounded
  push_bounded-eq-newest m b x h =
      let ys = b ++ x ∷ [] in
      let size : length ys ≡ length b + 1 = length-append b (x ∷ []) in
      elim (Bool-cases (ltb m (length ys))) [
        | inl e ↦ rw e (drop-eq 1 (length ys - m) ys (ground (arith, size)))
        | inr e ↦ rw e (drop-eq 0 (length ys - m) ys (ground (arith, size)))
      ]

  newest-newest : (m : ℕ) (l xs : List T) → newest m (newest m l ++ xs) ≡ newest m (l ++ xs)
  newest-newest m l xs =
      let k = length l - m in
      drop-drop (length (drop k l ++ xs) - m) k l xs (omega arith)
      ∙ drop-eq (k + (length (drop k l ++ xs) - m)) (length (l ++ xs) - m) (l ++ xs)
          (omega (arith, length-append (drop k l) xs, length-append l xs, length-drop k l))

  receive-buffers :
      (m : ℕ) (x : T) (s : EventIterator T)
      → s.aborted ≡ false
      → s.pull_resolvers ≡ []
      → (receive (some m) x s).state
        ≡ record s { buffered_events = push_bounded (some m) s.buffered_events x }
  unfolding receive
  receive-buffers m x s a p = simp (a, p) refl

  push_bounded-le :
      (m : ℕ) (b : List T) (x : T) → length b ≤ m → length (push_bounded (some m) b x) ≤ m
  push_bounded-le m b x h =
      rw (push_bounded-eq-newest m b x h)
        (omega (arith, length-drop (length (b ++ x ∷ []) - m) (b ++ x ∷ [])))

  -- An iterator with no pull waiting that is not aborted, and whose buffer is within its bound: after
  -- any run of events the buffer holds the newest events, as many as the bound, in their order.
  pub receives_newest :
      (m : ℕ) (xs : List T) (s : EventIterator T)
      → s.aborted ≡ false
      → s.pull_resolvers ≡ []
      → length s.buffered_events ≤ m
      → (run (some m) (map receive_call xs) s).buffered_events ≡ newest m (s.buffered_events ++ xs)
  unfolding call receive
  receives_newest m [] s a p h =
      ap (λ l. l)
        (sym (
          rw (append-nil s.buffered_events)
            (drop-eq (length s.buffered_events - m) 0 s.buffered_events (omega arith))))
  receives_newest m (x ∷ xs) s a p h =
      let b = push_bounded (some m) s.buffered_events x in
      let e = push_bounded-eq-newest m s.buffered_events x h in
      subst
        (λ s'.
          (run (some m) (map receive_call xs) s').buffered_events
          ≡ newest m (s.buffered_events ++ x ∷ xs))
        (sym (receive-buffers m x s a p))
        (receives_newest m xs (record s { buffered_events = b }) a p
            (push_bounded-le m s.buffered_events x h)
          ∙ ap (λ l. newest m (l ++ xs)) e
          ∙ newest-newest m (s.buffered_events ++ x ∷ []) xs
          ∙ ap (λ l. newest m l) (append_assoc s.buffered_events (x ∷ []) xs))

  -- the events received
  abbrev pub events : List (Call T) → List T
  events [] = []
  events (receive_call x ∷ cs) = x ∷ events cs
  events (_ ∷ cs) = events cs

  -- neither ended nor aborted meanwhile
  abbrev pub IsLive : Call T → Type 0
  IsLive (receive_call x) = Unit
  IsLive (pull_call p) = Unit
  IsLive (terminate_call t) = ⊥
  IsLive (abort_call r) = ⊥

  abbrev delivered : List ℕ → List T → List (ℕ × Outcome T)
  delivered ps xs = map (λ (p, x). (p, value x)) (zip ps xs)

  delivered-cons :
      (p : ℕ) (x : T) (ps : List ℕ) (xs : List T)
      → delivered (p ∷ ps) (x ∷ xs) ≡ (p, value x) ∷ delivered ps xs
  delivered-cons p x ps xs = refl

  delivered-nil : (ps : List ℕ) → delivered ps [] ≡ []
  delivered-nil [] = refl
  delivered-nil (p ∷ ps) = refl

  -- neither ended nor aborted
  abbrev live : Bool → List T → List ℕ → EventIterator T
  live is_subscribed b ps = record {
    buffered_events = b;
    pull_resolvers = ps;
    terminal_state = none;
    aborted = false;
    is_subscribed = is_subscribed;
  }

  abbrev PairsUp : Bool → List (Call T) → List T → List ℕ → Type 0
  PairsUp i cs b ps =
      settlements none cs (live i b ps) ≡ delivered (ps ++ asked cs) (b ++ events cs)

  pairs_up :
      (i : Bool) (cs : List (Call T)) (b : List T) (ps : List ℕ)
      → All IsLive cs
      → (b ≡ []) ⊎ (ps ≡ [])
      → PairsUp i cs b ps
  unfolding call receive pull push_bounded
  pairs_up i [] b ps l (inl e) = rw e (sym (delivered-nil (ps ++ [])))
  pairs_up i [] b ps l (inr e) = rw e refl
  pairs_up i (receive_call x ∷ cs) b [] l r =
      pairs_up i cs (b ++ x ∷ []) [] l.1 (inr refl)
      ∙ ap (λ xs. delivered (asked cs) xs) (append_assoc b (x ∷ []) (events cs))
  pairs_up i (receive_call x ∷ cs) b (p ∷ ps) l r =
      let e : b ≡ [] = ground arith in
      rw e (ap (λ ds. (p, value x) ∷ ds) (pairs_up i cs [] ps l.1 (inl refl)))
  pairs_up i (pull_call p ∷ cs) [] ps l r =
      pairs_up i cs [] (ps ++ p ∷ []) l.1 (inl refl)
      ∙ ap (λ qs. delivered qs (events cs)) (append_assoc ps (p ∷ []) (asked cs))
  pairs_up i (pull_call p ∷ cs) (x ∷ b) ps l r =
      let e : ps ≡ [] = ground arith in
      rw e (ap (λ ds. (p, value x) ∷ ds) (pairs_up i cs b [] l.1 (inr refl)))
  pairs_up i (terminate_call t ∷ cs) b ps l r = absurd l.0
  pairs_up i (abort_call t ∷ cs) b ps l r = absurd l.0

  -- A new iterator with no bound on its buffer, in any run of events and pulls that neither ends nor
  -- aborts it: the n-th pull receives the n-th event, in this order, and nothing else is settled.
  pub pulls_in_order :
      (i : Bool) (cs : List (Call T))
      → All IsLive cs
      → settlements none cs (new_iterator i)
        ≡ map (λ (p, x). (p, value x)) (zip (asked cs) (events cs))
  pulls_in_order i cs l = pairs_up i cs [] [] l (inl refl)
