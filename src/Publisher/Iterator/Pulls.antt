-- ===== src/Publisher/Iterator/Pulls.antt =====
-- Every pull of the iterator is settled, and the iterator ends once.
use orpc.Prelude.{
  ℕ, true, Option, none, List, [], ◌∷◌, ◌++◌, map, ◌≡◌, ◌⊎◌, inl, inr, refl, IsIn, Option-cases,
  Bool-cases, arith, sym, ap, List-cases, subst,
}
use orpc.Publisher.Iterator.{
  TerminalState, error, cancelled, Outcome, EventIterator, Effect, receive, terminate, abort_signal,
  pull, Call, receive_call, pull_call, terminate_call, abort_call, call, run, settlements,
  pull_buffered, ending,
}

IsIn-left : {A : Type 0} (x : A) (xs ys : List A) → IsIn x xs → IsIn x (xs ++ ys)
IsIn-left x [] ys h = absurd h
IsIn-left x (y ∷ xs) ys (inl e) = inl e
IsIn-left x (y ∷ xs) ys (inr h) = inr (IsIn-left x xs ys h)

IsIn-right : {A : Type 0} (x : A) (xs ys : List A) → IsIn x ys → IsIn x (xs ++ ys)
IsIn-right x [] ys h = h
IsIn-right x (y ∷ xs) ys h = inr (IsIn-right x xs ys h)

abbrev pub promises : {T : Type 0} → List (ℕ × Outcome T) → List ℕ
promises [] = []
promises ((p, o) ∷ l) = p ∷ promises l

promises-map :
    (T : Type 0) (t : TerminalState) (ps : List ℕ)
    → promises {T = T} (map (λ p. (p, ending t)) ps) ≡ ps
promises-map T t [] = refl
promises-map T t (p ∷ ps) = ap (λ qs. p ∷ qs) (promises-map T t ps)

module _ {T : Type 0} where
  -- the promises that are asked for
  abbrev pub asked : List (Call T) → List ℕ
  asked [] = []
  asked (pull_call p ∷ cs) = p ∷ asked cs
  asked (_ ∷ cs) = asked cs

  promises-append : (k l : List (ℕ × Outcome T)) → promises (k ++ l) ≡ promises k ++ promises l
  promises-append [] l = refl
  promises-append ((p, o) ∷ k) l = ap (λ ps. p ∷ ps) (promises-append k l)

  abbrev IsWaiting : ℕ → EventIterator T → Type 0
  IsWaiting p s = IsIn p s.pull_resolvers × (s.terminal_state ≡ none)

  abbrev IsMet : ℕ → Effect T → Type 0
  IsMet p e = IsIn p (promises e.settled) ⊎ IsWaiting p e.state

  receive-IsMet :
      (bound : Option ℕ) (p : ℕ) (x : T) (s : EventIterator T)
      → IsWaiting p s
      → IsMet p (receive bound x s)
  unfolding receive
  receive-IsMet bound p x s h = ground arith

  terminate-IsMet :
      (p : ℕ) (t : TerminalState) (s : EventIterator T) → IsWaiting p s → IsMet p (terminate t s)
  unfolding terminate
  terminate-IsMet p t s (i, e) =
      simp (e, terminate) (inl (rw (promises-map T t s.pull_resolvers) i))

  pull-IsMet : (p q : ℕ) (s : EventIterator T) → IsWaiting p s → IsMet p (pull q s)
  unfolding pull
  pull-IsMet p q s (i, e) = elim (List-cases s.buffered_events) [
    | inl b ↦ simp (e, b, pull, pull_buffered) (inr (IsIn-left p s.pull_resolvers (q ∷ []) i, refl))
    | inr (x, xs, b) ↦ simp (e, b, pull, pull_buffered) (inr (i, refl))
  ]

  asked-IsMet : (p : ℕ) (s : EventIterator T) → IsMet p (pull p s)
  unfolding pull
  asked-IsMet p s = elim (List-cases s.buffered_events) [
    | inl b ↦ elim (Option-cases s.terminal_state) [
      | inl e ↦
          simp (e, b, pull, pull_buffered)
            (inr (IsIn-right p s.pull_resolvers (p ∷ []) (inl refl), refl))
      | inr (cancelled, e) ↦ simp (e, pull) (inl (inl refl))
      | inr (error r, e) ↦ simp (e, b, pull, pull_buffered) (inl (inl refl))
    ]
    | inr (x, xs, b) ↦ elim (Option-cases s.terminal_state) [
      | inl e ↦ simp (e, b, pull, pull_buffered) (inl (inl refl))
      | inr (cancelled, e) ↦ simp (e, pull) (inl (inl refl))
      | inr (error r, e) ↦ simp (e, b, pull, pull_buffered) (inl (inl refl))
    ]
  ]

  abort-IsMet :
      (p reason : ℕ) (s : EventIterator T) → IsWaiting p s → IsMet p (abort_signal reason s)
  unfolding abort_signal
  abort-IsMet p reason s h = elim (Bool-cases s.aborted) [
    | inl e ↦ simp e (inr h)
    | inr e ↦ simp e (terminate-IsMet p (error reason) (record s { aborted = true }) h)
  ]

module _ {T : Type 0} (bound : Option ℕ) where
  call-IsMet : (p : ℕ) (c : Call T) (s : EventIterator T) → IsWaiting p s → IsMet p (call bound c s)
  unfolding call
  call-IsMet p (receive_call x) s h = receive-IsMet bound p x s h
  call-IsMet p (pull_call q) s h = pull-IsMet p q s h
  call-IsMet p (terminate_call t) s h = terminate-IsMet p t s h
  call-IsMet p (abort_call r) s h = abort-IsMet p r s h

  abbrev IsAnswered : ℕ → List (Call T) → EventIterator T → Type 0
  IsAnswered p cs s = IsIn p (promises (settlements bound cs s)) ⊎ IsWaiting p (run bound cs s)

  met-IsAnswered :
      (p : ℕ) (c : Call T) (cs : List (Call T)) (s : EventIterator T)
      → ((s' : EventIterator T) → IsWaiting p s' → IsAnswered p cs s')
      → IsMet p (call bound c s)
      → IsAnswered p (c ∷ cs) s
  met-IsAnswered p c cs s later m =
      rw (promises-append (call bound c s).settled (settlements bound cs (call bound c s).state))
        (elim m [
          | inl i ↦ inl (IsIn-left p _ _ i)
          | inr w ↦ elim (later (call bound c s).state w) [
            | inl i ↦ inl (IsIn-right p _ _ i)
            | inr v ↦ inr v
          ]
        ])

  waiting-IsAnswered :
      (p : ℕ) (cs : List (Call T)) (s : EventIterator T) → IsWaiting p s → IsAnswered p cs s
  waiting-IsAnswered p [] s h = inr h
  waiting-IsAnswered p (c ∷ cs) s h =
      met-IsAnswered p c cs s (waiting-IsAnswered p cs) (call-IsMet p c s h)

  later-IsAnswered :
      (p : ℕ) (c : Call T) (cs : List (Call T)) (s : EventIterator T)
      → IsAnswered p cs (call bound c s).state
      → IsAnswered p (c ∷ cs) s
  later-IsAnswered p c cs s h =
      rw (promises-append (call bound c s).settled (settlements bound cs (call bound c s).state))
        (elim h [ inl i ↦ inl (IsIn-right p _ _ i) | inr v ↦ inr v ])

  asked-IsAnswered :
      (p : ℕ) (cs : List (Call T)) (s : EventIterator T) → IsIn p (asked cs) → IsAnswered p cs s
  asked-IsAnswered p [] s h = absurd h
  asked-IsAnswered p (receive_call x ∷ cs) s h =
      later-IsAnswered p (receive_call x) cs s
        (asked-IsAnswered p cs (call bound (receive_call x) s).state h)
  asked-IsAnswered p (terminate_call t ∷ cs) s h =
      later-IsAnswered p (terminate_call t) cs s
        (asked-IsAnswered p cs (call bound (terminate_call t) s).state h)
  asked-IsAnswered p (abort_call r ∷ cs) s h =
      later-IsAnswered p (abort_call r) cs s
        (asked-IsAnswered p cs (call bound (abort_call r) s).state h)
  asked-IsAnswered p (pull_call q ∷ cs) s (inr h) =
      later-IsAnswered p (pull_call q) cs s
        (asked-IsAnswered p cs (call bound (pull_call q) s).state h)
  asked-IsAnswered p (pull_call q ∷ cs) s (inl e) =
      met-IsAnswered p (pull_call q) cs s (waiting-IsAnswered p cs)
        (subst (λ r. IsMet p (call bound (pull_call r) s)) (sym e) (unfold call in asked-IsMet p s))

  -- Whatever calls are made of an iterator, in whatever order, every promise that a pull of them
  -- returned is settled, unless the iterator has no terminal state yet; then it may be waiting.
  pub pulls_answered :
      (p : ℕ) (cs : List (Call T)) (s : EventIterator T)
      → IsIn p (asked cs)
      → IsIn p (promises (settlements bound cs s))
        ⊎ (IsIn p (run bound cs s).pull_resolvers × ((run bound cs s).terminal_state ≡ none))
  pulls_answered p cs s h = asked-IsAnswered p cs s h
