-- ===== src/Client/Retry/Attempts.antt =====
-- The retry loop counts an attempt for each of its calls, and returns.
use orpc.Prelude.{
  ℕ, zero, suc, ◌+◌, ◌≤◌, ◌<◌, Bool, true, false, Option, some, List, [], ◌∷◌, ◌++◌, ◌≡◌, sym, ◌∙◌,
  ◌⊎◌, inl, inr, refl, arith, ltb, Bool-cases, ◌==◌,
}
use orpc.Client.Retry.{
  Answer, resolves, rejects, Pause, slept, interrupted, Verdict, retry_again, give_up,
  verdict_throws, Callback, no_callback, callback_returns, callback_throws, Preparation, prepared,
  preparation_throws, Environment, Action, calls, retries, reports, Called, before, finally, stop,
  call_next, intercept, try_next, caught,
}
use orpc.Client.Retry.Rounds.{IsFair, count, is_call, count-append, slept-no_interrupt}

-- What holds of all that may follow, and of every throw of the callback, holds behind `finally`.
finally-cases :
    (P : Option Called → Type 0) (callback : Callback) (success : Bool) (attempt : ℕ)
    (actions : List Action) (next : List Action → Option Called)
    → ((l : List Action) → count is_call l ≡ count is_call actions → P (next l))
    → ((f : ℕ) (l : List Action)
        → count is_call l ≡ count is_call actions
        → P (stop attempt (rejects f) l))
    → P (finally callback success attempt actions next)
finally-cases P no_callback success attempt actions next h k = h actions refl
finally-cases P callback_returns success attempt actions next h k =
    h (actions ++ reports success ∷ [])
      (omega (arith, count-append is_call actions (reports success ∷ [])))
finally-cases P (callback_throws f) success attempt actions next h k =
    k f (actions ++ reports success ∷ [])
      (omega (arith, count-append is_call actions (reports success ∷ [])))

module _ (env : Environment) (max_attempts : ℕ) (id : Option ℕ) where
  -- The loop has returned: every call took an attempt, no more than are allowed, and at least one if
  -- it resolved.
  abbrev pub CountsCalls : ℕ → Option Called → Type 0
  CountsCalls attempt r =
      (c : Called) × (r ≡ some c)
      × (count is_call c.actions + attempt ≡ c.attempt)
      × (c.attempt ≤ suc max_attempts)
      × ((attempt < c.attempt) ⊎ ((f : ℕ) × (c.ended ≡ rejects f)))

  -- The same, with one call at least.
  abbrev Tries : ℕ → Option Called → Type 0
  Tries attempt r =
      (c : Called) × (r ≡ some c)
      × (count is_call c.actions + attempt ≡ c.attempt)
      × (c.attempt ≤ suc max_attempts)
      × (attempt < c.attempt)

  Tries-CountsCalls : (attempt : ℕ) (r : Option Called) → Tries attempt r → CountsCalls attempt r
  Tries-CountsCalls attempt r (c, e, l, m, d) = (c, e, l, m, inl d)

  stop-Tries :
      (attempt : ℕ) (a : Answer) (actions : List Action)
      → suc attempt ≤ suc max_attempts
      → count is_call actions ≡ 1
      → Tries attempt (stop (suc attempt) a actions)
  stop-Tries attempt a actions m h = (
    record { actions = actions; attempt = suc attempt; ended = a },
    refl,
    omega arith,
    m,
    omega arith,
  )

  stop-CountsCalls :
      (attempt f : ℕ) (actions : List Action)
      → attempt ≤ suc max_attempts
      → count is_call actions ≡ 0
      → CountsCalls attempt (stop attempt (rejects f) actions)
  stop-CountsCalls attempt f actions m h = (
    record { actions = actions; attempt = attempt; ended = rejects f },
    refl,
    omega arith,
    m,
    inr (f, refl),
  )

  caught-Tries :
      (aborted : Bool) (attempt f : ℕ) (actions : List Action) (later : Option Called)
      → suc attempt ≤ suc max_attempts
      → count is_call actions ≡ 1
      → CountsCalls (suc attempt) later
      → Tries attempt (caught aborted (suc attempt) f actions later)
  caught-Tries true attempt f actions later m h r = stop-Tries attempt (rejects f) actions m h
  caught-Tries false attempt f actions later m h (c, e, l, k, d) = (
    before actions c,
    rw e refl,
    omega (arith, count-append is_call actions c.actions),
    k,
    omega arith,
  )

  try_next-Tries :
      (round attempt : ℕ) (callback : Callback) (start : List Action) (later : ℕ → Option Called)
      → suc attempt ≤ suc max_attempts
      → count is_call start ≡ 0
      → ((f : ℕ) → CountsCalls (suc attempt) (later f))
      → Tries attempt (try_next env id round (suc attempt) callback start later)
  unfolding try_next
  try_next-Tries round attempt callback start later m h r =
      answered (env.answer round id) refl
        (omega (arith, count-append is_call start (calls id ∷ [])))
    where
      answered :
          (a : Answer)
          → env.answer round id ≡ a
          → count is_call (start ++ calls id ∷ []) ≡ 1
          → Tries attempt (try_next env id round (suc attempt) callback start later)
      answered (resolves x) e one =
          rw (e, try_next)
            (finally-cases (Tries attempt) callback true (suc attempt) (start ++ calls id ∷ [])
              (stop (suc attempt) (resolves x))
              (λ l k. stop-Tries attempt (resolves x) l m (k ∙ one))
              (λ f l k. stop-Tries attempt (rejects f) l m (k ∙ one)))
      answered (rejects f) e one =
          rw (e, try_next)
            (finally-cases (Tries attempt) callback false (suc attempt) (start ++ calls id ∷ [])
              (λ l. caught (env.aborted round) (suc attempt) f l (later f))
              (λ l k. caught-Tries (env.aborted round) attempt f l (later f) m (k ∙ one) (r f))
              (λ g l k. stop-Tries attempt (rejects g) l m (k ∙ one)))

  -- The rounds that are left, once there is an error.
  pub call_next-CountsCalls :
      (fair : IsFair env) (fuel round attempt e : ℕ)
      → max_attempts + 2 ≤ fuel + attempt
      → 1 ≤ fuel
      → attempt ≤ suc max_attempts
      → CountsCalls attempt (call_next env max_attempts id fuel round attempt (some e))
  unfolding call_next
  call_next-CountsCalls fair zero round attempt e k o m = absurd (omega arith)
  call_next-CountsCalls fair (suc fuel) round attempt e k o m =
      elim (Bool-cases (ltb max_attempts attempt)) [
        | inl u ↦ rw (u, call_next) (stop-CountsCalls attempt e [] m refl)
        | inr u ↦
            judged u
              (λ f.
                call_next-CountsCalls fair fuel (suc round) (suc attempt) f (omega arith)
                  (ground arith) (ground arith))
              (env.should_retry attempt e) refl
      ]
    where
      paused :
          (u : ltb max_attempts attempt ≡ false)
          (later : (f : ℕ)
            → CountsCalls
                (suc attempt)
                (call_next env max_attempts id fuel (suc round) (suc attempt) (some f)))
          (v : env.should_retry attempt e ≡ retry_again) (callback : Callback)
          (w : env.on_retry attempt ≡ prepared callback) (p : Pause)
          → env.pause round ≡ p
          → CountsCalls attempt (call_next env max_attempts id (suc fuel) round attempt (some e))
      paused u later v callback w slept q =
          rw (u, v, w, q, call_next)
            (Tries-CountsCalls attempt _ (
              try_next-Tries round attempt callback (retries attempt e ∷ []) _ (ground arith) refl
                later))
      paused u later v callback w (interrupted f) q = elim (fair round) [
        | inl s ↦ absurd (slept-no_interrupt f (sym s ∙ q))
        | inr s ↦
            rw (u, v, w, q, s, call_next)
              (finally-cases (CountsCalls attempt) callback false attempt (retries attempt e ∷ []) _
                (λ l c. stop-CountsCalls attempt f l m c)
                (λ g l c. stop-CountsCalls attempt g l m c))
      ]

      judged :
          (u : ltb max_attempts attempt ≡ false)
          (later : (f : ℕ)
            → CountsCalls
                (suc attempt)
                (call_next env max_attempts id fuel (suc round) (suc attempt) (some f)))
          (v : Verdict)
          → env.should_retry attempt e ≡ v
          → CountsCalls attempt (call_next env max_attempts id (suc fuel) round attempt (some e))
      judged u later give_up v = rw (u, v, call_next) (stop-CountsCalls attempt e [] m refl)
      judged u later (verdict_throws f) v =
          rw (u, v, call_next) (stop-CountsCalls attempt f [] m refl)
      judged u later retry_again v = prepare (env.on_retry attempt) refl
        where
          prepare :
              (p : Preparation)
              → env.on_retry attempt ≡ p
              → CountsCalls attempt
                  (call_next env max_attempts id (suc fuel) round attempt (some e))
          prepare (preparation_throws f) w =
              rw (u, v, w, call_next) (stop-CountsCalls attempt f (retries attempt e ∷ []) m refl)
          prepare (prepared callback) w = paused u later v callback w (env.pause round) refl

-- If a pause that throws means that the signal is aborted: the interceptor returns within
-- `max_attempts + 2` rounds, whatever the caller's functions throw. It has called `next` as often as it
-- counts attempts, which is once at least, and at most once more for each attempt allowed.
pub intercept_returns :
    (env : Environment) (max_attempts : ℕ) (id : Option ℕ) (fuel : ℕ)
    → IsFair env
    → max_attempts + 2 ≤ fuel
    → (c : Called) × (intercept env max_attempts id fuel ≡ some c)
      × (count is_call c.actions ≡ c.attempt)
      × (1 ≤ count is_call c.actions)
      × (count is_call c.actions ≤ 1 + max_attempts)
unfolding intercept call_next
intercept_returns env max_attempts id zero fair h = absurd (omega arith)
intercept_returns env max_attempts id (suc fuel) fair h = elim (Bool-cases (max_attempts == 0)) [
  | inl e ↦ rw e (
    record { actions = calls id ∷ []; attempt = 1; ended = env.answer 0 id },
    refl,
    refl,
    omega arith,
    omega arith,
  )
  | inr e ↦
      let (c, r, l, m, d) =
        try_next-Tries env max_attempts id 0 0 no_callback []
          (λ f. call_next env max_attempts id fuel 1 1 (some f)) (omega arith) refl
          (λ f.
            call_next-CountsCalls env max_attempts id fair fuel 1 1 f (omega arith) (omega arith)
              (omega arith)) in
      rw e (c, r, omega arith, omega arith, omega arith)
]
