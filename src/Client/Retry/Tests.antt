-- ===== src/Client/Retry/Tests.antt =====
-- The retry loop of packages/client/src/plugins/retry.ts in a concrete environment.
use orpc.Prelude.{
  List, suc, length, ◌==◌, ◌+◌, ◌≤◌, true, false, none, some, [], ◌∷◌, ◌≡◌, inl, inr, refl, arith,
  ltb, if◌then◌else◌,
}
use orpc.Client.Retry.{
  resolves, rejects, slept, interrupted, Environment, Action, calls, retries, reports, Called,
  call_next, intercept, try_next, retry_again, prepared, callback_returns, callback_throws,
}
use orpc.Client.Retry.Reconnecting.{
  EventMeta, gives, fails, Connections, Reconnector, returns, throws, Settled, pull, pull_all,
  remember, reconnected,
}
use orpc.Client.Retry.Lifetime.{pull_all_returns}
use orpc.Client.Retry.Attempts.{intercept_returns}
use orpc.Client.Retry.Rounds.{count, is_call, throwing_pause_never_returns}

retrying : Unit {0}
unfolding call_next intercept try_next pull pull_all remember reconnected
retrying = tt

-- the third call answers
abbrev env : Environment
env = record {
  answer = λ round id. if ltb round 2 then rejects round else resolves 7;
  should_retry = λ attempt e. retry_again;
  pause = λ round. slept;
  aborted = λ round. false;
  on_retry = λ attempt. prepared callback_returns;
}

abbrev throwing : Environment
throwing = record env { pause = λ round. interrupted 9 }

retry_tests :
    (intercept env 3 none 5
      ≡ some (record {
        actions =
            calls none
            ∷ retries 1 0
            ∷ calls none
            ∷ reports false
            ∷ retries 2 1
            ∷ calls none
            ∷ reports true
            ∷ [];
        attempt = 3;
        ended = resolves 7;
      }))
    -- a callback that throws ends the call, whatever attempts are left
    × (intercept (record env { on_retry = λ a. prepared (callback_throws 6) }) 3 none 5
        ≡ some (record {
          actions = calls none ∷ retries 1 0 ∷ calls none ∷ reports false ∷ [];
          attempt = 2;
          ended = rejects 6;
        }))
    × (intercept env 1 none 3
        ≡ some (record {
          actions = calls none ∷ retries 1 0 ∷ calls none ∷ reports false ∷ [];
          attempt = 2;
          ended = rejects 1;
        }))
unfolding retrying
retry_tests = (refl, refl, refl)

intercept_returns_example :
    (c : Called) × (intercept env 3 none 5 ≡ some c)
    × (count is_call c.actions ≡ c.attempt)
    × (1 ≤ count is_call c.actions)
    × (count is_call c.actions ≤ 1 + 3)
intercept_returns_example = intercept_returns env 3 none 5 (λ round. inl refl) (omega arith)

throwing_pause_never_returns_example : call_next throwing 3 none 100 0 1 (some 4) ≡ none
throwing_pause_never_returns_example =
    throwing_pause_never_returns throwing 3 none 100 0 1 4 9 (λ r. refl) (λ r. refl) (λ a g. refl)
      (λ a. inr refl) (omega arith)

abbrev no_meta : EventMeta
no_meta = record { id = none; retry = none }

-- Every second read fails; the first failure names an event. Each connection is made by its third call.
abbrev connections : Connections
connections = record {
  reads = λ n.
      if n == 0
      then gives 40 no_meta
      else if n == 1
      then fails 8 (record { id = some 5; retry = none })
      else if n == 2
      then gives 41 no_meta
      else fails 9 no_meta;
  environment = λ n. env;
  is_iterator = λ r. true;
  is_iterator_aborted = λ n. false;
  return_error = λ n. none;
}

abbrev reconnector : Reconnector
reconnector = record {
  last_event_id = none;
  last_event_retry = none;
  attempt = 1;
  reads_done = 0;
  calls_done = 0;
}

-- The attempts that the first failure took are not given back, so the second one has only one left.
reconnecting_tests :
    pull_all connections 4 6 6 3 reconnector
    ≡ some (
      retries 1 8
          ∷ calls (some 5)
          ∷ reports false
          ∷ retries 2 0
          ∷ calls (some 5)
          ∷ reports false
          ∷ retries 3 1
          ∷ calls (some 5)
          ∷ reports true
          ∷ retries 4 9
          ∷ calls (some 5)
          ∷ reports false
          ∷ [],
      returns 40 ∷ returns 41 ∷ throws 0 ∷ [],
    )
unfolding retrying
reconnecting_tests = refl

pull_all_returns_example :
    (actions : List Action) × (results : List Settled) × (pull_all connections 4 6 6 3 reconnector
      ≡ some (actions, results))
    × (length results ≡ 3)
    × (count is_call actions + 1 ≤ suc 4)
pull_all_returns_example =
    pull_all_returns connections 4 6 6 3 reconnector (λ n round. inl refl) (omega arith)
      (omega arith) (omega arith)
