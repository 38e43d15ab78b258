-- ===== src/Publisher/Iterator/Buffer.antt =====
-- The iterator's buffer is bounded, keeps the newest events, and is emptied in order; and the
-- iterator ends once.
use orpc.Prelude.{
  ℕ, Bool, subst, if◌then◌else◌, ◌-◌, ◌≤◌, true, false, Option, none, some, List, [], ◌∷◌, ◌++◌,
  length, drop, ◌≡◌, ◌⊎◌, inl, inr, refl, Bool-cases, arith, length-append,
}
use orpc.Prelude.JsMap.{is_some}
use orpc.Publisher.Iterator.{
  TerminalState, error, EventIterator, receive, terminate, abort_signal, pull, Call, receive_call,
  pull_call, terminate_call, abort_call, call, run, unsubscriptions, new_iterator, push_bounded,
}

-- within the bound
abbrev pub IsWithin : Option ℕ → ℕ → Type 0
IsWithin none n = Unit
IsWithin (some bound) n = n ≤ bound

-- The buffer is within its bound, events and pulls do not both wait, and an aborted iterator has ended.
pub record IsWellFormed {T : Type 0} (bound : Option ℕ) (s : EventIterator T) : Type 0 where
  pub within : IsWithin bound (length s.buffered_events)
  pub one_sided : (s.buffered_events ≡ []) ⊎ (s.pull_resolvers ≡ [])
  pub ended : (s.aborted ≡ false) ⊎ (is_some s.terminal_state ≡ true)

length-drop-one : {A : Type 0} (xs : List A) → length (drop 1 xs) ≡ length xs - 1
length-drop-one [] = refl
length-drop-one (x ∷ xs) = omega arith

module _ {T : Type 0} (bound : Option ℕ) where
  push_bounded-IsWithin :
      (xs : List T) (x : T)
      → IsWithin bound (length xs)
      → IsWithin bound (length (push_bounded bound xs x))
  unfolding push_bounded
  push_bounded-IsWithin xs x h =
      ground (arith, length-append xs (x ∷ []), length-drop-one (xs ++ x ∷ []))

  receive-IsWellFormed :
      (x : T) (s : EventIterator T)
      → IsWellFormed bound s
      → IsWellFormed bound (receive bound x s).state
  unfolding receive
  receive-IsWellFormed x s v = record {
    within = ground (arith, v.within, push_bounded-IsWithin s.buffered_events x v.within);
    one_sided = ground (arith, v.one_sided);
    ended = ground (arith, v.ended);
  }

  terminate-IsWellFormed :
      (t : TerminalState) (s : EventIterator T)
      → IsWellFormed bound s
      → IsWellFormed bound (terminate t s).state
  unfolding terminate
  terminate-IsWellFormed t s v = record {
    within = ground (arith, v.within);
    one_sided = ground (arith, v.one_sided);
    ended = ground (arith, v.ended);
  }

  pull-IsWellFormed :
      (p : ℕ) (s : EventIterator T) → IsWellFormed bound s → IsWellFormed bound (pull p s).state
  unfolding pull
  pull-IsWellFormed p s v = record {
    within = ground (arith, v.within);
    one_sided = ground (arith, v.one_sided);
    ended = ground (arith, v.ended);
  }

  abort-IsWellFormed :
      (r : ℕ) (s : EventIterator T)
      → IsWellFormed bound s
      → IsWellFormed bound (abort_signal r s).state
  unfolding abort_signal terminate
  abort-IsWellFormed r s v = record {
    within = ground (arith, v.within);
    one_sided = ground (arith, v.one_sided);
    ended = ground (arith, v.ended);
  }

  call-IsWellFormed :
      (c : Call T) (s : EventIterator T)
      → IsWellFormed bound s
      → IsWellFormed bound (call bound c s).state
  unfolding call
  call-IsWellFormed (receive_call x) s v = receive-IsWellFormed x s v
  call-IsWellFormed (pull_call p) s v = pull-IsWellFormed p s v
  call-IsWellFormed (terminate_call t) s v = terminate-IsWellFormed t s v
  call-IsWellFormed (abort_call r) s v = abort-IsWellFormed r s v

  run-from-IsWellFormed :
      (cs : List (Call T)) (s : EventIterator T)
      → IsWellFormed bound s
      → IsWellFormed bound (run bound cs s)
  run-from-IsWellFormed [] s v = v
  run-from-IsWellFormed (c ∷ cs) s v =
      run-from-IsWellFormed cs (call bound c s).state (call-IsWellFormed c s v)

  -- Whatever calls are made of a new iterator: its buffer is within the bound, events and pulls never
  -- wait at the same time, and after an abort it has ended.
  pub run-IsWellFormed :
      (i : Bool) (cs : List (Call T)) → IsWellFormed bound (run bound cs (new_iterator i))
  run-IsWellFormed i cs =
      run-from-IsWellFormed cs (new_iterator i)
        (record { within = ground arith; one_sided = inl refl; ended = inl refl })

  -- Once set, the terminal state stays, and `unsubscribe` is not called again.
  terminal-keeps :
      (t : TerminalState) (c : Call T) (s : EventIterator T)
      → s.terminal_state ≡ some t
      → ((call bound c s).state.terminal_state ≡ some t) × ((call bound c s).unsubscribes ≡ false)
  unfolding call receive terminate abort_signal pull
  terminal-keeps t c s h = ground arith

  call-keeps :
      (c : Call T) (s : EventIterator T) → (call bound c s).state.is_subscribed ≡ s.is_subscribed
  unfolding call receive terminate abort_signal pull
  call-keeps (receive_call x) s = ground arith
  call-keeps (pull_call p) s = ground arith
  call-keeps (terminate_call t) s = ground arith
  call-keeps (abort_call r) s = ground arith

  terminal_first :
      (c : Call T) (s : EventIterator T)
      → s.terminal_state ≡ none
      → (((call bound c s).state.terminal_state ≡ none) × ((call bound c s).unsubscribes ≡ false))
        ⊎ ((t : TerminalState) × ((call bound c s).state.terminal_state ≡ some t)
            × ((call bound c s).unsubscribes ≡ s.is_subscribed))
  unfolding call receive terminate abort_signal pull
  terminal_first (receive_call x) s h = inl (ground arith, ground arith)
  terminal_first (pull_call p) s h = inl (ground arith, ground arith)
  terminal_first (terminate_call t) s h = inr (t, ground arith, ground arith)
  terminal_first (abort_call r) s h = elim (Bool-cases s.aborted) [
    | inl e ↦ inl (ground arith, ground arith)
    | inr e ↦ inr (error r, ground arith, ground arith)
  ]

  unsubscriptions-ended :
      (t : TerminalState) (cs : List (Call T)) (s : EventIterator T)
      → s.terminal_state ≡ some t
      → (unsubscriptions bound cs s ≡ 0) × ((run bound cs s).terminal_state ≡ some t)
  unsubscriptions-ended t [] s h = (refl, h)
  unsubscriptions-ended t (c ∷ cs) s h =
      let (k, u) = terminal-keeps t c s h in
      let ih = unsubscriptions-ended t cs (call bound c s).state k in
      (ground (arith, u, ih.0), ih.1)

  -- Whatever calls are made of an iterator that has not ended: either it has not ended then, and
  -- `unsubscribe` has not been called, or it has ended and `unsubscribe` is called exactly once, if the
  -- subscription succeeds, and else never.
  pub unsubscribes_once :
      (cs : List (Call T)) (s : EventIterator T)
      → s.terminal_state ≡ none
      → (((run bound cs s).terminal_state ≡ none) × (unsubscriptions bound cs s ≡ 0))
        ⊎ ((t : TerminalState) × ((run bound cs s).terminal_state ≡ some t)
            × (unsubscriptions bound cs s ≡ (if s.is_subscribed then 1 else 0)))
  unsubscribes_once [] s h = inl (h, refl)
  unsubscribes_once (c ∷ cs) s h = elim (terminal_first c s h) [
    | inl (k, u) ↦ simp u (
        subst
          (λ b.
            (((run bound (c ∷ cs) s).terminal_state ≡ none)
              × (unsubscriptions bound cs (call bound c s).state ≡ 0))
            ⊎ ((t : TerminalState) × ((run bound (c ∷ cs) s).terminal_state ≡ some t)
                × (unsubscriptions bound cs (call bound c s).state ≡ (if b then 1 else 0))))
          (call-keeps c s) (unsubscribes_once cs (call bound c s).state k))
    | inr (t, k, u) ↦
        let (z, e) = unsubscriptions-ended t cs (call bound c s).state k in
        inr (t, e, ground (arith, u, z))
  ]
