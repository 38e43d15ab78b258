-- ===== src/Server/Guards/Csrf.antt =====
-- Which requests the CSRF protection turns away.
use orpc.Prelude.{
  false, Option, none, some, String, ◌≡◌, ◌≢◌, ◌⊎◌, inl, inr, refl, arith, eq_iff, Bool-cases, ◌↔◌,
}
use orpc.Server.Guards.{CsrfRequest, is_embedded, is_allowed_site, is_allowed, csrf_interceptor}

-- a `GET` that says that it comes from another site, and is a top-level navigation or does not say
-- what it is
abbrev pub IsSuspect : CsrfRequest → Type 0
IsSuspect r =
    (site : String) × (r.method ≡ "GET")
    × (r.sec_fetch_site ≡ some site)
    × (site ≢ "same-origin")
    × (site ≢ "same-site")
    × ((r.sec_fetch_mode ≡ none)
        ⊎ (r.sec_fetch_dest ≡ none)
        ⊎ ((r.sec_fetch_mode ≡ some "navigate") × (r.sec_fetch_dest ≡ some "document")))

IsSuspect-blocked : (r : CsrfRequest) → IsSuspect r → is_allowed r ≡ false
unfolding is_allowed
IsSuspect-blocked r (site, g, s, a, b, m) =
    ground (arith, eq_iff r.method "GET", eq_iff site "same-origin", eq_iff site "same-site")

unsafe_mode :
    (mode dest : Option String)
    → is_embedded mode dest ≡ false
    → (mode ≡ none) ⊎ (dest ≡ none) ⊎ ((mode ≡ some "navigate") × (dest ≡ some "document"))
unsafe_mode none dest h = inl refl
unsafe_mode (some m) none h = inr (inl refl)
unsafe_mode (some m) (some d) h =
    inr (inr (ground (arith, eq_iff m "navigate", eq_iff d "document")))

blocked_site :
    (site mode dest : Option String)
    → is_allowed_site site mode dest ≡ false
    → (t : String) × (site ≡ some t)
      × (t ≢ "same-origin")
      × (t ≢ "same-site")
      × (is_embedded mode dest ≡ false)
blocked_site none mode dest h = absurd (ground arith)
blocked_site (some t) mode dest h = (
  t,
  refl,
  ground (arith, eq_iff t "same-origin"),
  ground (arith, eq_iff t "same-site"),
  ground arith,
)

blocked-IsSuspect : (r : CsrfRequest) → is_allowed r ≡ false → IsSuspect r
unfolding is_allowed
blocked-IsSuspect r h =
    let inner : is_allowed_site r.sec_fetch_site r.sec_fetch_mode r.sec_fetch_dest ≡ false =
      ground arith in
    let (t, s, a, b, m) = blocked_site r.sec_fetch_site r.sec_fetch_mode r.sec_fetch_dest inner in
    (
      t,
      ground (arith, eq_iff r.method "GET"),
      s,
      a,
      b,
      unsafe_mode r.sec_fetch_mode r.sec_fetch_dest m,
    )

-- The interceptor answers with status 403 exactly if the request is a `GET` that names another site
-- and either is a top-level navigation or leaves out its mode or its destination.
pub csrf_interceptor_iff :
    (r : CsrfRequest) → (csrf_interceptor r none (λ s. some s) ≡ some 403) ↔ IsSuspect r
unfolding csrf_interceptor
csrf_interceptor_iff r = elim (Bool-cases (is_allowed r)) [
  | inl e ↦ (λ h. absurd (ground arith), λ i. absurd (ground (arith, IsSuspect-blocked r i)))
  | inr e ↦ (λ h. blocked-IsSuspect r e, λ i. rw e refl)
]
