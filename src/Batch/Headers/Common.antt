-- ===== src/Batch/Headers/Common.antt =====
-- The headers that all the requests of a batch have.
use orpc.Prelude.{
  String, true, Option, none, some, List, [], ◌∷◌, ◌≡◌, inl, inr, refl, subst, arith, all, str_eq,
  eq_iff, Bool-cases, All,
}
use orpc.Prelude.JsMap
use orpc.Prelude.JsMap.{JsMap, get, get-set, get-empty, IsDistinct, set-IsDistinct}
use orpc.Batch.Headers.{
  HeaderValue, text, several, Headers, same, value_at, add_common, common_from, batch_headers,
}

pub same-eq : (v w : Option HeaderValue) → same v w ≡ true → v ≡ w
same-eq none none h = refl
same-eq none (some w) h = absurd (cc)
same-eq (some v) none h = absurd (cc)
same-eq (some (text s)) (some (text t)) h = ground (arith, eq_iff s t)
same-eq (some (text s)) (some (several b)) h = absurd (cc)
same-eq (some (several a)) (some (text t)) h = absurd (cc)
same-eq (some (several a)) (some (several b)) h = ground arith

all-same :
    (k : String) (v : Option HeaderValue) (list : List Headers)
    → all (λ (h : Headers). same (value_at h k) v) list ≡ true
    → All (λ (h : Headers). value_at h k ≡ v) list
all-same k v [] h = tt
all-same k v (x ∷ list) h =
    let both : (same (value_at x k) v ≡ true)
        × (all (λ (y : Headers). same (value_at y k) v) list ≡ true) =
      ground arith in
    (same-eq (value_at x k) v both.0, all-same k v list both.1)

-- Every entry is one of all the headers.
abbrev IsCommon : List Headers → Headers → Type 0
IsCommon list c =
    (k : String) (v : Option HeaderValue)
    → get c k ≡ some v
    → All (λ (h : Headers). value_at h k ≡ v) list

set-IsCommon :
    (list : List Headers) (c : Headers) (j : String) (w : Option HeaderValue)
    → All (λ (h : Headers). value_at h j ≡ w) list
    → IsCommon list c
    → IsCommon list (JsMap.set c j w)
set-IsCommon list c j w all_same h k v e = elim (Bool-cases (str_eq j k)) [
  | inl same_key ↦
      let key : j ≡ k = (eq_iff j k).0 same_key in
      let value : w ≡ v = ground (arith, get-set c j w k) in
      subst (λ (x : String). All (λ (h : Headers). value_at h x ≡ v) list) key
        (subst (λ (y : Option HeaderValue). All (λ (h : Headers). value_at h j ≡ y) list) value
          all_same)
  | inr other ↦ h k v (ground (arith, get-set c j w k))
]

add_common-IsCommon :
    (list : List Headers) (entries c : Headers)
    → IsCommon list c
    → IsCommon list (add_common list entries c)
unfolding add_common
add_common-IsCommon list [] c h = h
add_common-IsCommon list ((k, v) ∷ entries) c h =
    elim (Bool-cases (all (λ (x : Headers). same (value_at x k) v) list)) [
      | inl e ↦
          rw (e, add_common)
            (add_common-IsCommon list entries (JsMap.set c k v)
              (set-IsCommon list c k v (all-same k v list e) h))
      | inr e ↦ rw (e, add_common) (add_common-IsCommon list entries c h)
    ]

common_from-IsCommon :
    (list hs : List Headers) (c : Headers) → IsCommon list c → IsCommon list (common_from list hs c)
unfolding common_from
common_from-IsCommon list [] c h = h
common_from-IsCommon list (x ∷ hs) c h =
    common_from-IsCommon list hs (add_common list x c) (add_common-IsCommon list x c h)

pub batch_headers-IsCommon : (list : List Headers) → IsCommon list (batch_headers list)
unfolding batch_headers
batch_headers-IsCommon list =
    common_from-IsCommon list list []
      (λ k v e. absurd (ground (arith, get-empty {V = Option HeaderValue} k)))

add_common-IsDistinct :
    (list : List Headers) (entries c : Headers)
    → IsDistinct c
    → IsDistinct (add_common list entries c)
unfolding add_common
add_common-IsDistinct list [] c h = h
add_common-IsDistinct list ((k, v) ∷ entries) c h =
    elim (Bool-cases (all (λ (x : Headers). same (value_at x k) v) list)) [
      | inl e ↦
          rw (e, add_common)
            (add_common-IsDistinct list entries (JsMap.set c k v) (set-IsDistinct c k v h))
      | inr e ↦ rw (e, add_common) (add_common-IsDistinct list entries c h)
    ]

common_from-IsDistinct :
    (list hs : List Headers) (c : Headers) → IsDistinct c → IsDistinct (common_from list hs c)
unfolding common_from
common_from-IsDistinct list [] c h = h
common_from-IsDistinct list (x ∷ hs) c h =
    common_from-IsDistinct list hs (add_common list x c) (add_common-IsDistinct list x c h)

pub batch_headers-IsDistinct : (list : List Headers) → IsDistinct (batch_headers list)
unfolding batch_headers
batch_headers-IsDistinct list = common_from-IsDistinct list list [] tt
