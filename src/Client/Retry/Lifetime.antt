-- ===== src/Client/Retry/Lifetime.antt =====
-- How often a reconnecting iterator connects again.
use orpc.Prelude.{
  ℕ, zero, suc, ◌+◌, ◌≤◌, ◌<◌, Option, some, List, [], ◌∷◌, ◌++◌, ◌≡◌, ◌⊎◌, inl, inr, refl, arith,
  Bool-cases, length,
}
use orpc.Client.Retry.{Answer, resolves, rejects, Action, Called}
use orpc.Client.Retry.Rounds.{IsFair, count, is_call, count-append}
use orpc.Client.Retry.Reconnecting.{
  Read, gives, fails, Connections, Reconnector, Settled, returns, throws, throws_type_error, Pulled,
  remember, called_next, settle, put_before, closing_error, reconnected, pull, pull_all,
}
use orpc.Client.Retry.Attempts.{call_next-CountsCalls}

abbrev pub IsEveryFair : Connections → Type 0
IsEveryFair w = (n : ℕ) → IsFair (w.environment n)

module _ (w : Connections) (fair : IsEveryFair w) (max_attempts rounds : ℕ)
    (enough : max_attempts + 2 ≤ rounds) where
  -- The loop has returned, and took an attempt for each call of `next` of the link.
  abbrev pub Pulls : ℕ → Option Pulled → Type 0
  Pulls attempt r =
      (p : Pulled) × (r ≡ some p)
      × (count is_call p.actions + attempt ≡ p.after.attempt)
      × (p.after.attempt ≤ suc max_attempts)

  put_before-Pulls :
      (attempt k : ℕ) (actions : List Action) (r : Option Pulled)
      → count is_call actions + attempt ≡ k
      → Pulls k r
      → Pulls attempt (put_before actions r)
  put_before-Pulls attempt k actions r h (p, e, l, m) = (
    record p { actions = actions ++ p.actions },
    rw e refl,
    omega (arith, count-append is_call actions p.actions),
    m,
  )

  settled-Pulls :
      (attempt : ℕ) (actions : List Action) (s : Reconnector) (r : Settled)
      → count is_call actions + attempt ≡ s.attempt
      → s.attempt ≤ suc max_attempts
      → Pulls attempt (settle actions s r)
  settled-Pulls attempt actions s r h m =
      (record { actions = actions; after = s; settled = r }, refl, h, m)

  reconnected-Pulls :
      (attempt e : ℕ) (c : Called) (s : Reconnector) (later : Option Pulled)
      → s.attempt ≡ c.attempt
      → count is_call c.actions + attempt ≡ c.attempt
      → c.attempt ≤ suc max_attempts
      → ((attempt < c.attempt) → Pulls c.attempt later)
      → (attempt < c.attempt) ⊎ ((f : ℕ) × (c.ended ≡ rejects f))
      → Pulls attempt (reconnected w c e s later)
  unfolding reconnected
  reconnected-Pulls attempt e c s later same h m ih (inr (f, r)) =
      rw (r, reconnected) (settled-Pulls attempt c.actions s (throws f) (omega arith) (omega arith))
  reconnected-Pulls attempt e c s later same h m ih (inl lt) = answered c.ended refl
    where
      answered : (a : Answer) → c.ended ≡ a → Pulls attempt (reconnected w c e s later)
      answered (rejects f) r =
          rw (r, reconnected)
            (settled-Pulls attempt c.actions s (throws f) (omega arith) (omega arith))
      answered (resolves x) r =
          rw (r, reconnected)
            (elim (Bool-cases (w.is_iterator x)) [
              | inr u ↦
                  rw u (
                    settled-Pulls attempt c.actions s throws_type_error (omega arith) (omega arith))
              | inl u ↦ elim (Bool-cases (w.is_iterator_aborted s.calls_done)) [
                | inl v ↦
                    rw (u, v)
                      (settled-Pulls attempt c.actions s
                        (closing_error (w.return_error s.calls_done) e) (omega arith) (omega arith))
                | inr v ↦ rw (u, v) (put_before-Pulls attempt c.attempt c.actions later h (ih lt))
              ]
            ])

  pull-Pulls :
      (fuel : ℕ) (s : Reconnector)
      → s.attempt ≤ suc max_attempts
      → suc max_attempts < fuel + s.attempt
      → Pulls s.attempt (pull w max_attempts rounds fuel s)
  unfolding pull remember
  pull-Pulls zero s m l = absurd (omega arith)
  pull-Pulls (suc fuel) s m l = read (w.reads s.reads_done) (pull-Pulls fuel) refl
    where
      read :
          (r : Read)
          → ((s' : Reconnector)
              → s'.attempt ≤ suc max_attempts
              → suc max_attempts < fuel + s'.attempt
              → Pulls s'.attempt (pull w max_attempts rounds fuel s'))
          → w.reads s.reads_done ≡ r
          → Pulls s.attempt (pull w max_attempts rounds (suc fuel) s)
      read (gives v meta) later e =
          rw (e, pull) (settled-Pulls s.attempt [] (remember meta s) (returns v) (omega arith) m)
      read (fails f meta) later e =
          let s' = remember meta s in
          let (c, returned, counted, allowed, progress) =
            call_next-CountsCalls (w.environment s.calls_done) max_attempts s'.last_event_id
              (fair s.calls_done) rounds 0 s.attempt f (omega arith) (omega arith) m in
          rw (e, pull)
            (rw returned (
              reconnected-Pulls s.attempt f c (called_next c s')
                (pull w max_attempts rounds fuel (called_next c s')) refl counted allowed
                (λ lt. later (called_next c s') allowed (omega arith)) progress))

-- If a pause that throws means that the signal is aborted: every `next` of the iterator returns, and
-- over its whole life, whatever fails in it, all of them together call the link at most as often as
-- attempts are left, since no success gives an attempt back.
pub pull_all_returns :
    (w : Connections) (max_attempts rounds fuel n : ℕ) (s : Reconnector)
    → IsEveryFair w
    → max_attempts + 2 ≤ rounds
    → max_attempts + 2 ≤ fuel + s.attempt
    → s.attempt ≤ suc max_attempts
    → (actions : List Action) × (results : List Settled) × (pull_all w max_attempts rounds fuel n s
        ≡ some (actions, results))
      × (length results ≡ n)
      × (count is_call actions + s.attempt ≤ suc max_attempts)
unfolding pull_all
pull_all_returns w max_attempts rounds fuel zero s fair enough l m =
    ([], [], refl, refl, omega arith)
pull_all_returns w max_attempts rounds fuel (suc n) s fair enough l m =
    let (p, e, counted, allowed) =
      pull-Pulls w fair max_attempts rounds enough fuel s m (omega arith) in
    let (actions, results, e', k, c) =
      pull_all_returns w max_attempts rounds fuel n p.after fair enough (omega arith) allowed in
    (
      p.actions ++ actions,
      p.settled ∷ results,
      rw (e, e', pull_all) refl,
      omega (arith, k),
      omega (arith, count-append is_call p.actions actions),
    )
