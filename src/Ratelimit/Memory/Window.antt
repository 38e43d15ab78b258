-- ===== src/Ratelimit/Memory/Window.antt =====
-- Counting within one window.
use orpc.Prelude.{
  ℕ, ◌+◌, ◌-◌, ◌≤◌, ◌<◌, String, Bool, true, false, List, [], ◌∷◌, ◌≡◌, ◌⊎◌, refl, leb,
  if◌then◌else◌, ◌&&◌, arith, str_eq, eq_iff, eq_refl, sym, subst, inl, inr, leb→le, Bool-cases,
}
use orpc.Prelude.JsMap.{get-set}
use orpc.Ratelimit.Memory.{Options, MemoryRateLimiter, rotate_if_needed, used, charge, check_limit}

-- Each key's use in the limiter after the window has been brought up to date.
abbrev pub used_at : Options → ℕ → MemoryRateLimiter → String → ℕ
used_at o now s key = used (rotate_if_needed o now s) key

charge_lem :
    (o : Options) (key : String) (weight : ℕ) (s : MemoryRateLimiter) (j : String)
    → let (s', r) = charge o key weight s in
      ((r.success ≡ true)
        × (used s key + weight ≤ o.max_requests)
        × (used s' j ≡ (if str_eq key j then used s key + weight else used s j))
        × (r.remaining + used s' key ≡ o.max_requests))
      ⊎ ((r.success ≡ false)
          × (o.max_requests < used s key + weight)
          × (used s' j ≡ used s j)
          × (r.remaining ≡ o.max_requests - used s key))
unfolding charge
charge_lem o key weight s j = elim (Bool-cases (leb (used s key + weight) o.max_requests)) [
  | inl e ↦ rw e (
      inl (
        refl,
        leb→le _ _ e,
        ground (arith, get-set s.current key (used s key + weight) j),
        ground (arith, get-set s.current key (used s key + weight) key, eq_refl key, leb→le _ _ e),
      ))
  | inr e ↦ rw e (
      inr (
        refl,
        ground arith,
        ground (arith, get-set s.current key (used s key) j, eq_iff key j),
        refl,
      ))
]

-- The whole contract of one check: it passes exactly when the weight still fits into the window's
-- limit, which is then charged to the key alone; what remains is told, and the window's end.
pub check_limit_lem :
    (o : Options) (now : ℕ) (key : String) (weight : ℕ) (s : MemoryRateLimiter) (j : String)
    → let (s', r) = check_limit o now key weight s in
      ((r.success ≡ true)
        × (used_at o now s key + weight ≤ o.max_requests)
        × (used s' j ≡ (if str_eq key j then used_at o now s key + weight else used_at o now s j))
        × (r.remaining + used s' key ≡ o.max_requests))
      ⊎ ((r.success ≡ false)
          × (o.max_requests < used_at o now s key + weight)
          × (used s' j ≡ used_at o now s j)
          × (r.remaining ≡ o.max_requests - used_at o now s key))
unfolding check_limit
check_limit_lem o now key weight s j = charge_lem o key weight (rotate_if_needed o now s) j

-- a call that does not block: the clock, the key and the weight
pub record Check : Type 0 where
  pub now : ℕ
  pub key : String
  pub weight : ℕ

module _ (o : Options) where
  abbrev pub after : MemoryRateLimiter → Check → MemoryRateLimiter
  after s c = (check_limit o c.now c.key c.weight s).0

  abbrev pub passes : MemoryRateLimiter → Check → Bool
  passes s c = (check_limit o c.now c.key c.weight s).1.success

  -- the weight of a key's calls that pass, over a run of calls
  abbrev pub accepted : String → MemoryRateLimiter → List Check → ℕ
  accepted k s [] = 0
  accepted k s (c ∷ cs) =
      (if str_eq c.key k && passes s c then c.weight else 0) + accepted k (after s c) cs

  -- the clock stays within the window that began at `start`
  abbrev pub InWindow : ℕ → List Check → Type 0
  InWindow start [] = Unit
  InWindow start (c ∷ cs) = (c.now < start + o.window) × InWindow start cs

  epoch-after :
      (s : MemoryRateLimiter) (c : Check)
      → c.now < s.current_epoch_start + o.window
      → (after s c).current_epoch_start ≡ s.current_epoch_start
  unfolding check_limit rotate_if_needed charge
  epoch-after s c h = ground arith

  used_at-InWindow :
      (s : MemoryRateLimiter) (now : ℕ) (k : String)
      → now < s.current_epoch_start + o.window
      → used_at o now s k ≡ used s k
  unfolding rotate_if_needed
  used_at-InWindow s now k h = ground arith

  -- Within one window a key's calls that pass, with what the key had used before, never weigh more
  -- than the limit, in whatever order the calls of all keys come.
  pub accepted-le-max_requests :
      (k : String) (cs : List Check) (s : MemoryRateLimiter)
      → InWindow s.current_epoch_start cs
      → used s k ≤ o.max_requests
      → used s k + accepted k s cs ≤ o.max_requests
  accepted-le-max_requests k [] s w h = omega arith
  accepted-le-max_requests k (c ∷ cs) s w h =
      let ih =
        accepted-le-max_requests k cs (after s c)
          (subst (λ e. InWindow e cs) (sym (epoch-after s c w.0)) w.1) in
      elim (check_limit_lem o c.now c.key c.weight s k) [
        | inl p ↦ ground (
          arith,
          used_at-InWindow s c.now c.key w.0,
          used_at-InWindow s c.now k w.0,
          eq_iff c.key k,
          ih,
        )
        | inr p ↦ ground (
          arith,
          used_at-InWindow s c.now c.key w.0,
          used_at-InWindow s c.now k w.0,
          eq_iff c.key k,
          ih,
        )
      ]
