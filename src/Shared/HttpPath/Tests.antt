-- ===== src/Shared/HttpPath/Tests.antt =====
-- URLs matched by packages/shared/src/http.ts.
use orpc.Prelude.{true, false, [], ◌∷◌, ◌≡◌, refl}
use orpc.Shared.HttpPath.{
  Text, matches_http_path_prefix, matches_http_path, merge_http_path, starts_with, ends_with_slash,
  drop_last,
}

-- "/a"
abbrev short : Text
short = 47 ∷ 97 ∷ []

-- "/a/?"
abbrev query : Text
query = 47 ∷ 97 ∷ 47 ∷ 63 ∷ []

-- "/ab"
abbrev longer : Text
longer = 47 ∷ 97 ∷ 98 ∷ []

http_tests :
    (matches_http_path_prefix query short ≡ true)
    × (matches_http_path_prefix longer short ≡ false)
    × (matches_http_path query short ≡ true)
    × (merge_http_path (47 ∷ []) short ≡ short)
unfolding matches_http_path_prefix matches_http_path merge_http_path starts_with ends_with_slash
    drop_last
http_tests = (refl, refl, refl, refl)
