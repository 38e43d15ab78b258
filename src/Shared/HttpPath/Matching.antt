-- ===== src/Shared/HttpPath/Matching.antt =====
-- What a URL that matches looks like.
use orpc.Prelude.{
  ℕ, suc, ◌+◌, true, [], ◌∷◌, ◌++◌, ◌||◌, if◌then◌else◌, length, get_elem?, ◌≡◌, ◌↔◌, ◌⊎◌, inl, inr,
  refl, arith, Bool-cases, ap, ◌∙◌, sym,
}
use orpc.Shared.HttpPath.{
  Text, starts_with, ends_with_slash, drop_last, is_slash, is_end, matches_http_path_prefix,
  matches_http_path,
}

starts_with-append : (p r : Text) → starts_with (p ++ r) p ≡ true
unfolding starts_with
starts_with-append [] r = refl
starts_with-append (c ∷ p) r = ground (arith, starts_with-append p r)

starts_with-rest : (url p : Text) → starts_with url p ≡ true → (r : Text) × (url ≡ p ++ r)
unfolding starts_with
starts_with-rest url [] h = (url, refl)
starts_with-rest [] (c ∷ p) h = absurd (ground arith)
starts_with-rest (d ∷ url) (c ∷ p) h =
    let (r, e) = starts_with-rest url p (ground arith) in
    let same : d ≡ c = ground arith in (r, ap (λ x. x ∷ url) same ∙ ap (λ u. c ∷ u) e)

get_elem?-eq : (t : Text) (i j : ℕ) → i ≡ j → get_elem? t i ≡ get_elem? t j
get_elem?-eq t i j h = ap (get_elem? t) h

get_elem?-append : (p r : Text) (i : ℕ) → get_elem? (p ++ r) (i + length p) ≡ get_elem? r i
get_elem?-append [] r i = get_elem?-eq r (i + 0) i (omega arith)
get_elem?-append (c ∷ p) r i =
    get_elem?-eq (c ∷ p ++ r) (i + suc (length p)) (suc (i + length p)) (omega arith)
    ∙ get_elem?-append p r i

-- The rest of a URL behind a prefix: at its end, or at a slash, a question mark or a hash.
abbrev pub IsBoundary : Text → Type 0
IsBoundary [] = Unit
IsBoundary (c ∷ r) = (c ≡ 47) ⊎ (c ≡ 63) ⊎ (c ≡ 35)

-- nothing but an optional slash, and a query or a hash
abbrev pub IsDone : Text → Type 0
IsDone [] = Unit
IsDone (c ∷ []) = (c ≡ 47) ⊎ (c ≡ 63) ⊎ (c ≡ 35)
IsDone (c ∷ d ∷ r) = ((c ≡ 47) × ((d ≡ 63) ⊎ (d ≡ 35))) ⊎ (c ≡ 63) ⊎ (c ≡ 35)

prefix-append :
    (p r : Text)
    → matches_http_path_prefix (p ++ r) p
      ≡ (is_slash (get_elem? r 0) || is_end (get_elem? r 0) || ends_with_slash p)
unfolding matches_http_path_prefix
prefix-append p r =
    rw
      (
        starts_with-append p r,
        get_elem?-eq (p ++ r) (length p) (0 + length p) (omega arith) ∙ get_elem?-append p r 0,
      )
      refl

boundary : (r : Text) → (is_slash (get_elem? r 0) || is_end (get_elem? r 0)) ≡ true → IsBoundary r
boundary [] h = tt
boundary (c ∷ r) h = ground arith

boundary_test :
    (r : Text) → IsBoundary r → (is_slash (get_elem? r 0) || is_end (get_elem? r 0)) ≡ true
boundary_test [] h = refl
boundary_test (c ∷ r) h = ground arith

-- what `matches_http_path_prefix` accepts
abbrev pub ExtendsPrefix : Text → Text → Type 0
ExtendsPrefix url prefix =
    (r : Text) × (url ≡ prefix ++ r) × (IsBoundary r ⊎ (ends_with_slash prefix ≡ true))

prefix_split :
    (url prefix : Text) → matches_http_path_prefix url prefix ≡ true → starts_with url prefix ≡ true
unfolding matches_http_path_prefix
prefix_split url prefix h = ground arith

ExtendsPrefix-forth :
    (url prefix : Text) → matches_http_path_prefix url prefix ≡ true → ExtendsPrefix url prefix
ExtendsPrefix-forth url prefix h =
    let (r, e) = starts_with-rest url prefix (prefix_split url prefix h) in
    let t =
      sym (prefix-append prefix r) ∙ ap (λ u. matches_http_path_prefix u prefix) (sym e) ∙ h in
    elim (Bool-cases (ends_with_slash prefix)) [
      | inl x ↦ (r, e, inr x)
      | inr x ↦ (r, e, inl (boundary r (ground arith)))
    ]

ExtendsPrefix-back :
    (url prefix : Text) → ExtendsPrefix url prefix → matches_http_path_prefix url prefix ≡ true
ExtendsPrefix-back url prefix (r, e, inl b) =
    rw (e, prefix-append prefix r) (ground (arith, boundary_test r b))
ExtendsPrefix-back url prefix (r, e, inr b) = rw (e, prefix-append prefix r) (ground arith)

-- A URL matches a prefix exactly if it is the prefix with something behind it that is empty or begins
-- with a slash, a question mark or a hash, or that is anything if the prefix ends with a slash.
pub matches_http_path_prefix_iff :
    (url prefix : Text) → (matches_http_path_prefix url prefix ≡ true) ↔ ExtendsPrefix url prefix
matches_http_path_prefix_iff url prefix =
    (ExtendsPrefix-forth url prefix, ExtendsPrefix-back url prefix)

-- the path without a slash at its end
abbrev pub bare : Text → Text
bare path = if ends_with_slash path then drop_last path else path

path-append :
    (path r : Text)
    → matches_http_path (bare path ++ r) path
      ≡ is_end (if is_slash (get_elem? r 0) then get_elem? r 1 else get_elem? r 0)
unfolding matches_http_path
path-append path r =
    let p = bare path in
    rw
      (
        starts_with-append p r,
        get_elem?-eq (p ++ r) (length p) (0 + length p) (omega arith) ∙ get_elem?-append p r 0,
        get_elem?-eq (p ++ r) (suc (length p)) (1 + length p) (omega arith)
            ∙ get_elem?-append p r 1,
      )
      refl

done :
    (r : Text)
    → is_end (if is_slash (get_elem? r 0) then get_elem? r 1 else get_elem? r 0) ≡ true
    → IsDone r
done [] h = tt
done (c ∷ []) h = ground arith
done (c ∷ d ∷ r) h = ground arith

done_test :
    (r : Text)
    → IsDone r
    → is_end (if is_slash (get_elem? r 0) then get_elem? r 1 else get_elem? r 0) ≡ true
done_test [] h = refl
done_test (c ∷ []) h = ground arith
done_test (c ∷ d ∷ r) h = ground arith

path_split :
    (url path : Text) → matches_http_path url path ≡ true → starts_with url (bare path) ≡ true
unfolding matches_http_path
path_split url path h = ground arith

abbrev pub IsPath : Text → Text → Type 0
IsPath url path = (r : Text) × (url ≡ bare path ++ r) × IsDone r

IsPath-forth : (url path : Text) → matches_http_path url path ≡ true → IsPath url path
IsPath-forth url path h =
    let (r, e) = starts_with-rest url (bare path) (path_split url path h) in
    (r, e, done r (sym (path-append path r) ∙ ap (λ u. matches_http_path u path) (sym e) ∙ h))

IsPath-back : (url path : Text) → IsPath url path → matches_http_path url path ≡ true
IsPath-back url path (r, e, d) =
    ap (λ u. matches_http_path u path) e ∙ path-append path r ∙ done_test r d

-- A URL matches a path exactly if it is the path without the slash at its end, then at most a slash,
-- and then the end, a query or a hash.
pub matches_http_path_iff :
    (url path : Text) → (matches_http_path url path ≡ true) ↔ IsPath url path
matches_http_path_iff url path = (IsPath-forth url path, IsPath-back url path)
