-- ===== src/Ratelimit/Memory/Blocking.antt =====
-- `blockUntilReady` ends, whatever other calls do while it sleeps.
use orpc.Prelude.{
  ℕ, zero, suc, ◌+◌, ◌≤◌, ◌<◌, String, true, some, ◌≡◌, ◌⊎◌, inl, inr, ltb, ◌||◌, arith, Bool-cases,
}
use orpc.Ratelimit.Memory.{
  Options, MemoryRateLimiter, RateLimitResult, Rounds, rotate_if_needed, charge, check_limit,
  block_until_ready, limit, resolve_weight,
}

-- A sleep ends no earlier than asked.
abbrev pub IsOnTime : Rounds → Type 0
IsOnTime r = (i t : ℕ) → t ≤ r.wake i t

-- A request that passes, or one that could only pass behind the deadline.
abbrev pub IsSettled : ℕ → RateLimitResult → Type 0
IsSettled deadline a = (a.success ≡ true) ⊎ (deadline < a.reset)

module _ (o : Options) (nonempty : 0 < o.window) where
  -- the window's end lies ahead
  now-lt-reset :
      (now : ℕ) (key : String) (weight : ℕ) (s : MemoryRateLimiter)
      → now < (check_limit o now key weight s).1.reset
  unfolding check_limit rotate_if_needed charge
  now-lt-reset now key weight s = ground arith

  blocking_ends :
      (r : Rounds) (deadline : ℕ) (key : String) (weight f i now : ℕ) (s : MemoryRateLimiter)
      → IsOnTime r
      → deadline ≤ now + f
      → (a : MemoryRateLimiter × RateLimitResult) × (block_until_ready o r deadline key weight
            (suc f)
            i
            now
            s
          ≡ some a)
        × IsSettled deadline a.1
  unfolding block_until_ready
  blocking_ends r deadline key weight zero i now s on_time h =
      let a = check_limit o now key weight s in
      (
        a,
        ground (arith, now-lt-reset now key weight s),
        ground (arith, now-lt-reset now key weight s),
      )
  blocking_ends r deadline key weight (suc f) i now s on_time h =
      let a = check_limit o now key weight s in
      elim (Bool-cases (a.1.success || ltb deadline a.1.reset)) [
        | inl e ↦ (a, rw e, ground arith)
        | inr e ↦ rw e (
            blocking_ends r deadline key weight f (suc i) (r.wake i a.1.reset) (r.meanwhile i a.0)
              on_time (omega (arith, now-lt-reset now key weight s, on_time i a.1.reset)))
      ]

limit-eq-block_until_ready :
    (o : Options) (timeout : ℕ) (r : Rounds) (start weight fuel : ℕ) (key : String)
    (s : MemoryRateLimiter)
    → o.blocking ≡ some timeout
    → 0 < weight
    → limit o r start fuel key (some weight) s
      ≡ block_until_ready o r (start + timeout) key weight fuel 0 r.first s
unfolding limit resolve_weight
limit-eq-block_until_ready o timeout r start weight fuel key s b p = ground arith

-- `limit` in blocking mode, for a weight that is no error: if sleeps last as long as asked and the
-- window is not empty, the call returns within `timeout + 1` rounds, whatever other calls do in the
-- meantime, and either the request has passed or the window ends behind the deadline.
pub limit_blocking_ends :
    (o : Options) (timeout : ℕ) (r : Rounds) (start weight fuel : ℕ) (key : String)
    (s : MemoryRateLimiter)
    → 0 < o.window
    → o.blocking ≡ some timeout
    → IsOnTime r
    → start ≤ r.first
    → 0 < weight
    → timeout < fuel
    → (a : MemoryRateLimiter × RateLimitResult) × (limit o r start fuel key (some weight) s
        ≡ some a)
      × IsSettled (start + timeout) a.1
limit_blocking_ends o timeout r start weight zero key s w b t f p h = absurd (omega arith)
limit_blocking_ends o timeout r start weight (suc fuel) key s w b t f p h =
    rw (limit-eq-block_until_ready o timeout r start weight (suc fuel) key s b p)
      (blocking_ends o w r (start + timeout) key weight fuel 0 r.first s t (omega arith))
