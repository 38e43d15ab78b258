-- ===== src/Client/Retry.antt =====
-- packages/client/src/plugins/retry.ts: the interceptor of `RetryLinkPlugin`. An error, a result and an
-- event id are numbers. What the caller and the transport do in a round of the loop is a function of
-- the round; what the plugin does is a list of actions. `none` means that the fuel ran out.
pub mod Rounds
pub mod Reconnecting
pub mod Attempts
pub mod Lifetime
mod Tests
use orpc.Prelude.{
  ℕ, zero, suc, ◌+◌, Bool, true, false, Option, none, some, List, [], ◌∷◌, ◌++◌, ltb, not, ◌||◌,
  if◌then◌else◌, or_else, ◌==◌,
}
use mathlib.Core.Option

pub data Answer : Type 0 where
  resolves : ℕ → Answer
  rejects : ℕ → Answer

-- what `retryDelay` and the sleep do: they end, or one of them throws
pub data Pause : Type 0 where
  slept : Pause
  interrupted : ℕ → Pause

-- what `shouldRetry` gives, or throws
pub data Verdict : Type 0 where
  retry_again give_up : Verdict
  verdict_throws : ℕ → Verdict

-- the callback of a round: none, or one that returns or throws
pub data Callback : Type 0 where
  no_callback callback_returns : Callback
  callback_throws : ℕ → Callback

-- what `onRetry` gives, or throws; it gives no callback if it is not given
pub data Preparation : Type 0 where
  prepared : Callback → Preparation
  preparation_throws : ℕ → Preparation

pub record Environment : Type 0 where
  -- `next`, in a round, from an event id
  pub answer : ℕ → Option ℕ → Answer
  -- for an attempt, behind an error
  pub should_retry : ℕ → ℕ → Verdict
  pub pause : ℕ → Pause
  -- `signal.aborted`, when an error is caught in a round
  pub aborted : ℕ → Bool
  -- for an attempt
  pub on_retry : ℕ → Preparation

pub data Action : Type 0 where
  -- `next` is called, from an event id
  calls : Option ℕ → Action
  -- `onRetry` is called for an attempt, with the error
  retries : ℕ → ℕ → Action
  -- the callback is called
  reports : Bool → Action

pub record Called : Type 0 where
  pub actions : List Action
  pub attempt : ℕ
  pub ended : Answer

abbrev pub before : List Action → Called → Called
before actions c = record c { actions = actions ++ c.actions }

abbrev pub stop : ℕ → Answer → List Action → Option Called
stop attempt answer actions = some (record { actions = actions; attempt = attempt; ended = answer })

-- `catch` and `finally`: the error is thrown if the signal is aborted, else the next round begins
abbrev pub caught : Bool → ℕ → ℕ → List Action → Option Called → Option Called
caught true attempt f actions later = stop attempt (rejects f) actions
caught false attempt f actions later = Option.map (before actions) later

-- `finally { callback?.(isSuccess) }`: what the callback throws comes in place of what was to follow
abbrev pub finally :
    Callback → Bool → ℕ → List Action → (List Action → Option Called) → Option Called
finally no_callback success attempt actions next = next actions
finally callback_returns success attempt actions next = next (actions ++ reports success ∷ [])
finally (callback_throws f) success attempt actions next =
    stop attempt (rejects f) (actions ++ reports success ∷ [])

module _ (env : Environment) (last_event_id : Option ℕ) where
  -- `return await next(updatedCallOptions)`, behind the actions of the round so far
  unfoldable pub try_next : ℕ → ℕ → Callback → List Action → (ℕ → Option Called) → Option Called
  try_next round attempt callback start later = elim (env.answer round last_event_id) [
    | resolves r ↦
        finally callback true attempt (start ++ calls last_event_id ∷ [])
          (stop attempt (resolves r))
    | rejects f ↦
        finally callback false attempt (start ++ calls last_event_id ∷ [])
          (λ actions. caught (env.aborted round) attempt f actions (later f))
  ]

module _ (env : Environment) (max_attempts : ℕ) (last_event_id : Option ℕ) where
  -- the loop of `callNext`, in a round, with the error of the round before it
  unfoldable pub call_next : ℕ → ℕ → ℕ → Option ℕ → Option Called
  unfolding try_next
  call_next zero round attempt e = none
  call_next (suc fuel) round attempt none =
      try_next env last_event_id round attempt no_callback []
        (λ f. call_next fuel (suc round) attempt (some f))
  call_next (suc fuel) round attempt (some e) =
      let start = retries attempt e ∷ [] in
      elim (ltb max_attempts attempt) [
        | true ↦ stop attempt (rejects e) []
        | false ↦ elim (env.should_retry attempt e) [
          | give_up ↦ stop attempt (rejects e) []
          | verdict_throws f ↦ stop attempt (rejects f) []
          | retry_again ↦ elim (env.on_retry attempt) [
            | preparation_throws f ↦ stop attempt (rejects f) start
            | prepared callback ↦ elim (env.pause round) [
              | slept ↦
                  try_next env last_event_id round (suc attempt) callback start
                    (λ f. call_next fuel (suc round) (suc attempt) (some f))
              | interrupted f ↦ finally callback false attempt start (λ actions.
                  caught (env.aborted round) attempt f actions
                    (call_next fuel (suc round) attempt (some f)))
            ]
          ]
        ]
      ]

-- the interceptor, for a call whose output is no iterator
unfoldable pub intercept : Environment → ℕ → Option ℕ → ℕ → Option Called
unfolding call_next
intercept env max_attempts last_event_id fuel =
    if max_attempts == 0
    then stop 1 (env.answer 0 last_event_id) (calls last_event_id ∷ [])
    else call_next env max_attempts last_event_id fuel 0 1 none
