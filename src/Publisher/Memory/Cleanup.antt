-- ===== src/Publisher/Memory/Cleanup.antt =====
-- What the clean-up leaves of a bucket, and what a subscription leaves behind.
use orpc.Prelude.{
  ℕ, suc, ◌+◌, ◌<◌, String, Bool, true, false, List, [], ◌∷◌, ◌++◌, ◌≡◌, refl, arith, if◌then◌else◌,
  All, ap, sym, drop, ◌∙◌, leb, ◌&&◌, Bool-cases, inl, inr, subst,
}
use orpc.Publisher.Bisect.{find_index, drop-find_index}
use orpc.Publisher.Memory.{
  Events, StoredEvent, Options, MemoryPublisher, bucket_of, cleanup, unexpired, is_unexpired,
  retention,
}
use orpc.Publisher.Memory.Buckets.{IsRegular, bucket_of-clean_buckets}
use orpc.Publisher.Memory.Reachable.{Reach, Reach-IsSound}
use orpc.Publisher.Memory.Resume.{IsLawful}

unfoldable pub filter : {A : Type 0} → (A → Bool) → List A → List A
filter p [] = []
filter p (x ∷ xs) = let kept = filter p xs in if p x then x ∷ kept else kept

module _ {P : Type 0} (ev : Events P) (now : ℕ) where
  -- expired events first
  record Parted (es : List (StoredEvent P)) : Type 0 where
    pub expired : List (StoredEvent P)
    pub fresh : List (StoredEvent P)
    pub joined : es ≡ expired ++ fresh
    pub low : All (λ e. is_unexpired now e ≡ false) expired
    pub high : All (λ e. is_unexpired now e ≡ true) fresh
    pub kept : filter (is_unexpired now) es ≡ fresh

  all_fresh :
      (lo hi first late : ℕ) (es : List (StoredEvent P))
      → now < first
      → IsRegular ev lo hi first late es
      → All (λ e. is_unexpired now e ≡ true) es × (filter (is_unexpired now) es ≡ es)
  unfolding filter
  all_fresh lo hi first late [] w h = (tt, refl)
  all_fresh lo hi first late (e ∷ es) w (n, l, u, i, f, t, r) =
      let rec = all_fresh (suc n) hi e.expires_at late es (omega arith) r in
      ((ground arith, rec.0), ground (arith, rec.1))

  parted :
      (lo hi first late : ℕ) (es : List (StoredEvent P))
      → IsRegular ev lo hi first late es
      → Parted es
  unfolding filter
  parted lo hi first late [] h = record {
    expired = [];
    fresh = [];
    joined = refl;
    low = tt;
    high = tt;
    kept = refl;
  }
  parted lo hi first late (e ∷ es) (n, l, u, i, f, t, r) =
      let rest = parted (suc n) hi e.expires_at late es r in
      elim (Bool-cases (leb e.expires_at now)) [
        | inl x ↦ record {
          expired = e ∷ rest.expired;
          fresh = rest.fresh;
          joined = ap (λ l. e ∷ l) rest.joined;
          low = (simp x refl, rest.low);
          high = rest.high;
          kept = ground (arith, rest.kept);
        }
        | inr x ↦
            let all = all_fresh (suc n) hi e.expires_at late es (ground arith) r in
            record {
              expired = [];
              fresh = e ∷ es;
              joined = refl;
              low = tt;
              high = (simp x refl, all.0);
              kept = ground (arith, all.1);
            }
      ]

  unexpired-eq-filter :
      (lo hi first late : ℕ) (es : List (StoredEvent P))
      → IsRegular ev lo hi first late es
      → unexpired now es ≡ filter (is_unexpired now) es
  unfolding unexpired
  unexpired-eq-filter lo hi first late es h =
      let p = parted lo hi first late es h in
      subst (λ l. drop (find_index (is_unexpired now) l) l ≡ p.fresh) (sym p.joined)
        (drop-find_index (is_unexpired now) p.expired p.fresh p.low p.high)
      ∙ sym p.kept

-- A clean-up that is due leaves of every bucket exactly the events that have not expired, in their
-- order; one that is not due, or with resuming disabled, leaves every bucket as it is. The publisher
-- is one that calls lead to.
pub cleanup_exact :
    {P : Type 0} (ev : Events P) (o : Options) (s : MemoryPublisher P) (t now : ℕ) (event : String)
    → IsLawful ev
    → Reach ev o s t
    → bucket_of (cleanup o now s).events event ≡ (
        if o.resume_enabled && leb (s.last_cleanup_time + retention o) now
        then filter (is_unexpired now) (bucket_of s.events event)
        else bucket_of s.events event)
unfolding cleanup
cleanup_exact ev o s t now event lawful r =
    let v = Reach-IsSound ev o lawful r in
    ground (
      arith,
      bucket_of-clean_buckets now s.events event v.distinct,
      unexpired-eq-filter ev now 0 s.generated 0 (t + retention o) (bucket_of s.events event)
          (v.regular event),
    )
