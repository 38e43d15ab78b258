-- ===== src/Shared/HttpPath.antt =====
-- packages/shared/src/http.ts: how a URL is matched against a prefix and a path. A text is the list of
-- its code units.
pub mod Matching
mod Tests
use orpc.Prelude.{
  ℕ, zero, suc, ◌-◌, Bool, true, false, Option, none, some, List, [], ◌∷◌, ◌++◌, ◌&&◌, ◌||◌, ◌==◌,
  if◌then◌else◌, length, get_elem?, drop,
}

abbrev pub Text : Type 0
Text = List ℕ

unfoldable pub starts_with : Text → Text → Bool
starts_with url [] = true
starts_with [] (c ∷ p) = false
starts_with (d ∷ url) (c ∷ p) = (d == c) && starts_with url p

-- `text[text.length - 1] === '/'`
unfoldable pub ends_with_slash : Text → Bool
ends_with_slash [] = false
ends_with_slash (c ∷ []) = c == 47
ends_with_slash (c ∷ d ∷ p) = ends_with_slash (d ∷ p)

-- `text.slice(0, -1)`
unfoldable pub drop_last : Text → Text
drop_last [] = []
drop_last (c ∷ []) = []
drop_last (c ∷ d ∷ p) = c ∷ drop_last (d ∷ p)

abbrev pub is_slash : Option ℕ → Bool
is_slash none = false
is_slash (some c) = c == 47

-- `?`, `#` or the end
abbrev pub is_end : Option ℕ → Bool
is_end none = true
is_end (some c) = c == 63 || c == 35

unfoldable pub merge_http_path : Text → Text → Text
merge_http_path a b = (if ends_with_slash a then drop_last a else a) ++ b

unfoldable pub matches_http_path_prefix : Text → Text → Bool
unfolding starts_with ends_with_slash
matches_http_path_prefix url prefix =
    let char_after_prefix = get_elem? url (length prefix) in
    if starts_with url prefix
    then is_slash char_after_prefix || is_end char_after_prefix || ends_with_slash prefix
    else false

unfoldable pub matches_http_path : Text → Text → Bool
unfolding starts_with ends_with_slash drop_last
matches_http_path url path =
    let p = if ends_with_slash path then drop_last path else path in
    let char_after_prefix = get_elem? url (length p) in
    if starts_with url p
    then is_end
        (if is_slash char_after_prefix then get_elem? url (suc (length p)) else char_after_prefix)
    else false
