-- ===== src/Client/Retry/Rounds.antt =====
-- The calls of a loop, and a loop that does not return.
use orpc.Prelude.{
  ℕ, zero, suc, ◌+◌, ◌≤◌, Bool, true, false, Option, none, some, List, [], ◌∷◌, ◌++◌, ◌≡◌, ◌≢◌, ◌⊎◌,
  inl, inr, refl, arith, ltb, if◌then◌else◌,
}
use orpc.Client.Retry.{
  Pause, slept, interrupted, retry_again, no_callback, callback_returns, prepared, Environment,
  Action, calls, call_next,
}

-- The pause of a round ends, or it is interrupted by an abort of the signal.
abbrev pub IsFair : Environment → Type 0
IsFair env = (round : ℕ) → (env.pause round ≡ slept) ⊎ (env.aborted round ≡ true)

-- a number that counts the actions of one kind
abbrev pub count : (Action → Bool) → List Action → ℕ
count p [] = 0
count p (a ∷ l) = (if p a then 1 else 0) + count p l

abbrev pub is_call : Action → Bool
is_call (calls id) = true
is_call _ = false

pub count-append :
    (p : Action → Bool) (k l : List Action) → count p (k ++ l) ≡ count p k + count p l
count-append p [] l = omega arith
count-append p (a ∷ k) l = omega (arith, count-append p k l)

pub Pause-cases : (p : Pause) → (p ≡ slept) ⊎ ((f : ℕ) × (p ≡ interrupted f))
Pause-cases slept = inl refl
Pause-cases (interrupted f) = inr (f, refl)

pub slept-no_interrupt : (f : ℕ) → slept ≢ interrupted f
slept-no_interrupt f h = cc

-- A pause that always throws while the signal is not aborted, with a caller who always wants to
-- retry and whose callbacks return: no attempt is counted, and no fuel is enough.
pub throwing_pause_never_returns :
    (env : Environment) (max_attempts : ℕ) (id : Option ℕ) (fuel round attempt e f : ℕ)
    → ((r : ℕ) → env.pause r ≡ interrupted f)
    → ((r : ℕ) → env.aborted r ≡ false)
    → ((a g : ℕ) → env.should_retry a g ≡ retry_again)
    → ((a : ℕ)
        → (env.on_retry a ≡ prepared no_callback) ⊎ (env.on_retry a ≡ prepared callback_returns))
    → attempt ≤ max_attempts
    → call_next env max_attempts id fuel round attempt (some e) ≡ none
unfolding call_next
throwing_pause_never_returns env max_attempts id zero round attempt e f p a s q h = refl
throwing_pause_never_returns env max_attempts id (suc fuel) round attempt e f p a s q h =
    let ih =
      throwing_pause_never_returns env max_attempts id fuel (suc round) attempt f f p a s q h in
    let u : ltb max_attempts attempt ≡ false = ground arith in
    elim (q attempt) [
      | inl v ↦ rw (u, s attempt e, v, p round, a round, call_next, ih) refl
      | inr v ↦ rw (u, s attempt e, v, p round, a round, call_next, ih) refl
    ]
