-- ===== src/Ratelimit/Memory/Tests.antt =====
-- The rate limiter of packages/ratelimit/src/adapters/memory.ts on concrete calls.
use orpc.Prelude.{ℕ, ◌+◌, ◌≤◌, String, true, false, none, some, List, [], ◌∷◌, ◌≡◌, refl, arith}
use orpc.Prelude.JsMap.{get, set}
use orpc.Ratelimit.Memory.{
  Options, MemoryRateLimiter, RateLimitResult, Rounds, rotate_if_needed, charge, check_limit,
  block_until_ready, limit, resolve_weight, used,
}
use orpc.Ratelimit.Memory.Window.{Check, accepted, accepted-le-max_requests}
use orpc.Ratelimit.Memory.Blocking.{IsSettled, limit_blocking_ends}

limiter : Unit {0}
unfolding rotate_if_needed charge check_limit block_until_ready limit resolve_weight get set
limiter = tt

abbrev options : Options
options = record { max_requests = 3; window = 100; blocking = some 150 }

abbrev fresh : MemoryRateLimiter
fresh = record { current = []; current_epoch_start = 1000 }

abbrev check : ℕ → String → ℕ → Check
check now key weight = record { now = now; key = key; weight = weight }

abbrev checks : List Check
checks = check 1010 "a" 2 ∷ check 1020 "b" 3 ∷ check 1030 "a" 2 ∷ check 1040 "a" 1 ∷ []

-- each sleep ends on time, and no other call is made
abbrev rounds : Rounds
rounds = record { first = 1000; wake = λ i t. t; meanwhile = λ i s. s }

abbrev full : MemoryRateLimiter
full = record { current = ("a", 3) ∷ []; current_epoch_start = 1000 }

limiter_tests :
    (accepted options "a" fresh checks ≡ 3)
    × ((check_limit options 1100 "a" 3 full).1.success ≡ true)
    × ((check_limit options 1099 "a" 1 full).1.success ≡ false)
    × (limit options rounds 1000 5 "a" (some 0) full ≡ none)
unfolding limiter
limiter_tests = (refl, refl, refl, refl)

accepted-le-max_requests_example : used fresh "a" + accepted options "a" fresh checks ≤ 3
accepted-le-max_requests_example =
    accepted-le-max_requests options "a" checks fresh
      (omega arith, (omega arith, (omega arith, (omega arith, tt)))) (unfold limiter in omega arith)

limit_blocking_ends_example :
    (a : MemoryRateLimiter × RateLimitResult) × (limit options rounds 1000 151 "a" (some 2) full
      ≡ some a)
    × IsSettled (1000 + 150) a.1
limit_blocking_ends_example =
    limit_blocking_ends options 150 rounds 1000 2 151 "a" full (omega arith) refl
      (λ i t. omega arith) (omega arith) (omega arith) (omega arith)
