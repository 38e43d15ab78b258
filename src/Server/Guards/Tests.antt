-- ===== src/Server/Guards/Tests.antt =====
-- The guards of packages/server/src/plugins on concrete requests.
use orpc.Prelude.{true, false, none, some, [], ◌∷◌, ◌≡◌, ◌⊎◌, ◌↔◌, refl}
use orpc.Server.Guards.{
  CsrfRequest, csrf_interceptor, is_allowed, resolve_body, limited_stream, over_limit, stream,
  other, refused, as_is, limited,
}
use orpc.Server.Guards.Limits.{Resolves, resolve_body_lem}
use orpc.Server.Guards.Csrf.{IsSuspect, csrf_interceptor_iff}

abbrev link : CsrfRequest
link = record {
  method = "GET";
  sec_fetch_site = some "cross-site";
  sec_fetch_mode = some "navigate";
  sec_fetch_dest = some "document";
}

guard_tests :
    (csrf_interceptor link none (λ s. some s) ≡ some 403)
    × (csrf_interceptor (record link { sec_fetch_dest = some "iframe" }) none (λ s. some s) ≡ none)
    × (csrf_interceptor (record link { method = "POST" }) none (λ s. some s) ≡ none)
    × (resolve_body 10 none (stream (4 ∷ 5 ∷ 2 ∷ []))
        ≡ limited (record { chunks = 4 ∷ 5 ∷ []; too_large = true }))
    × (resolve_body 10 (some 11) (stream (4 ∷ [])) ≡ refused)
    × (resolve_body 10 (some 9) (other 3) ≡ as_is 3)
unfolding csrf_interceptor is_allowed resolve_body limited_stream
guard_tests = (refl, refl, refl, refl, refl, refl)

csrf_interceptor_iff_example :
    (csrf_interceptor link none (λ s. some s) ≡ some 403) ↔ IsSuspect link
csrf_interceptor_iff_example = csrf_interceptor_iff link

resolve_body_example :
    ((over_limit 10 none ≡ true) × (resolve_body 10 none (stream (4 ∷ 5 ∷ 2 ∷ [])) ≡ refused))
    ⊎ ((over_limit 10 none ≡ false)
        × Resolves 10 (stream (4 ∷ 5 ∷ 2 ∷ [])) (resolve_body 10 none (stream (4 ∷ 5 ∷ 2 ∷ []))))
resolve_body_example = resolve_body_lem 10 none (stream (4 ∷ 5 ∷ 2 ∷ []))
