-- ===== src/Ratelimit/Memory.antt =====
-- packages/ratelimit/src/adapters/memory.ts: `MemoryRateLimiter`. Each reading of the clock is an
-- argument, in milliseconds; a throw is `none`. Limits, weights and times are whole numbers.
pub mod Window
pub mod Blocking
mod Tests
use orpc.Prelude.{
  ℕ, zero, suc, ◌+◌, ◌-◌, String, Bool, true, false, Option, none, some, List, [], ◌∷◌, ltb, leb,
  if◌then◌else◌, or_else, ◌&&◌, ◌||◌, ◌==◌,
}
use orpc.Prelude.JsMap
use orpc.Prelude.JsMap.{JsMap, get}

pub record Options : Type 0 where
  pub max_requests : ℕ
  pub window : ℕ
  -- `blockingUntilReady`, when it is enabled: its timeout
  pub blocking : Option ℕ

pub record MemoryRateLimiter : Type 0 where
  pub current : JsMap ℕ
  pub current_epoch_start : ℕ

pub record RateLimitResult : Type 0 where
  pub success : Bool
  pub limit : ℕ
  pub remaining : ℕ
  pub reset : ℕ

unfoldable pub rotate_if_needed : Options → ℕ → MemoryRateLimiter → MemoryRateLimiter
rotate_if_needed o now s =
    if ltb now (s.current_epoch_start + o.window)
    then s
    else record { current = []; current_epoch_start = now }

-- what a key has used; a key with no entry has used nothing
abbrev pub used : MemoryRateLimiter → String → ℕ
used s key = or_else (get s.current key) 0

-- The entry is made if it is missing, and grows if the request passes.
unfoldable pub charge :
    Options → String → ℕ → MemoryRateLimiter → MemoryRateLimiter × RateLimitResult
charge o key weight s =
    let before = used s key in
    let success = leb (before + weight) o.max_requests in
    let after = if success then before + weight else before in
    (
      record s { current = JsMap.set s.current key after },
      record {
        success = success;
        limit = o.max_requests;
        remaining = o.max_requests - after;
        reset = s.current_epoch_start + o.window;
      },
    )

unfoldable pub check_limit :
    Options → ℕ → String → ℕ → MemoryRateLimiter → MemoryRateLimiter × RateLimitResult
check_limit o now key weight s = charge o key weight (rotate_if_needed o now s)

-- What happens while `blockUntilReady` runs: the clock when the first round checks, the clock when
-- round `i` wakes from a sleep that was to last until a time, and what other calls make of the
-- limiter during that sleep.
pub record Rounds : Type 0 where
  pub first : ℕ
  pub wake : ℕ → ℕ → ℕ
  pub meanwhile : ℕ → MemoryRateLimiter → MemoryRateLimiter

-- The loop of `blockUntilReady` in round `i`, when the clock shows `now`; `none` means that the fuel
-- ran out.
unfoldable pub block_until_ready :
    Options
    → Rounds
    → ℕ
    → String
    → ℕ
    → ℕ
    → ℕ
    → ℕ
    → MemoryRateLimiter
    → Option (MemoryRateLimiter × RateLimitResult)
block_until_ready o r deadline key weight zero i now s = none
block_until_ready o r deadline key weight (suc fuel) i now s =
    let answer = check_limit o now key weight s in
    let later =
      block_until_ready o r deadline key weight fuel (suc i) (r.wake i answer.1.reset)
        (r.meanwhile i answer.0) in
    if answer.1.success || ltb deadline answer.1.reset then some answer else later

-- `options?.weight ?? 1`, which must be above 0
unfoldable pub resolve_weight : Option ℕ → Option ℕ
resolve_weight weight = let w = or_else weight 1 in if w == 0 then none else some w

abbrev pub limit_from :
    Options
    → Rounds
    → ℕ
    → ℕ
    → String
    → MemoryRateLimiter
    → Option ℕ
    → Option (MemoryRateLimiter × RateLimitResult)
limit_from o r start fuel key s none = none
limit_from o r start fuel key s (some weight) = elim o.blocking [
  | none ↦ some (check_limit o start key weight s)
  | some timeout ↦ block_until_ready o r (start + timeout) key weight fuel 0 r.first s
]

-- `limit`, called when the clock shows `start`
unfoldable pub limit :
    Options
    → Rounds
    → ℕ
    → ℕ
    → String
    → Option ℕ
    → MemoryRateLimiter
    → Option (MemoryRateLimiter × RateLimitResult)
limit o r start fuel key weight s = limit_from o r start fuel key s (resolve_weight weight)
