-- ===== src/Batch/Headers/Restored.antt =====
-- The headers that the server's handler sees are those that the client's call had.
use orpc.Prelude.{
  String, Option, none, some, List, [], ◌∷◌, ◌≡◌, ◌≢◌, ◌⊎◌, inl, inr, refl, sym, ap, subst, ◌∙◌,
  arith, str_eq, eq_iff, if◌then◌else◌, Bool-cases, Option-cases, All, IsIn,
}
use orpc.Prelude.JsMap
use orpc.Prelude.JsMap.{JsMap, get, get-set, get-empty, IsDistinct, set-IsDistinct}
use orpc.Batch.Headers.{
  HeaderValue, text, Headers, same, flat, value_at, batch_headers, without_common, spread_onto,
  sent_headers, map_subrequest,
}
use orpc.Batch.Headers.Common.{same-eq, batch_headers-IsCommon, batch_headers-IsDistinct}

value_at-set :
    (h : Headers) (j : String) (w : Option HeaderValue) (k : String)
    → value_at (JsMap.set h j w) k ≡ (if str_eq j k then w else value_at h k)
unfolding value_at
value_at-set h j w k = ground (arith, get-set h j w k)

get-cons :
    (j : String) (v : Option HeaderValue) (h : Headers) (k : String)
    → get ((j, v) ∷ h) k ≡ (if str_eq j k then some v else get h k)
unfolding get
get-cons j v h k = refl

-- A subrequest keeps a header, or leaves it out since the batch has it.
without_common-cases :
    (batch sub : Headers) (k : String)
    → IsDistinct batch
    → (value_at (without_common batch sub) k ≡ value_at sub k)
      ⊎ ((value_at (without_common batch sub) k ≡ none) × (get batch k ≡ some (value_at sub k)))
unfolding without_common
without_common-cases [] sub k d = inl refl
without_common-cases ((j, v) ∷ batch) sub k d = elim (Bool-cases (same (value_at sub j) v)) [
  | inl e ↦
      rw (e, without_common)
        (ground (
          arith,
          without_common-cases batch (JsMap.set sub j none) k d.1,
          value_at-set sub j none k,
          same-eq (value_at sub j) v,
          get-cons j v batch k,
          eq_iff j k,
        ))
  | inr e ↦
      rw (e, without_common)
        (ground (arith, without_common-cases batch sub k d.1, get-cons j v batch k, eq_iff j k))
]

-- an object is spread, whose keys are distinct
get-spread_onto :
    (h others : Headers) (k : String)
    → IsDistinct others
    → get (spread_onto h others) k ≡ (elim (get others k) as (λ _. Option (Option HeaderValue)) [
      | some v ↦ some v
      | none ↦ get h k
    ])
unfolding spread_onto get
get-spread_onto h [] k d = refl
get-spread_onto h ((j, v) ∷ others) k d =
    ground (arith, get-spread_onto (JsMap.set h j v) others k d.1, get-set h j v k, eq_iff j k)

-- what arrives of a header that is sent: an undefined one is left out
abbrev pub defined_header : Option HeaderValue → Option (Option HeaderValue)
defined_header none = none
defined_header (some v) = some (some v)

All-at : (P : Headers → Type 0) (list : List Headers) (h : Headers) → IsIn h list → All P list → P h
All-at P [] h i a = elim i [ ]
All-at P (x ∷ list) h (inl e) a = subst P e a.0
All-at P (x ∷ list) h (inr i) a = All-at P list h i a.1

value_at-map_subrequest :
    (sub batch : Headers) (k : String)
    → k ≢ "orpc-batch"
    → IsDistinct sub
    → IsDistinct batch
    → value_at (map_subrequest sub batch) k
      ≡ flat (elim (get batch k) as (λ _. Option (Option HeaderValue)) [
        | some v ↦ some v
        | none ↦ get sub k
      ])
unfolding map_subrequest value_at
value_at-map_subrequest sub batch k other d e = ground (
  arith,
  get-set (spread_onto (spread_onto [] sub) batch) "orpc-batch" none k,
  eq_iff "orpc-batch" k,
  get-spread_onto (spread_onto [] sub) batch k e,
  get-spread_onto [] sub k d,
  get-empty {V = Option HeaderValue} k,
)

value_at-sent_headers :
    (batch : Headers) (mode k : String)
    → k ≢ "orpc-batch"
    → IsDistinct batch
    → value_at (sent_headers batch mode) k ≡ value_at batch k
unfolding sent_headers value_at
value_at-sent_headers batch mode k other d = ground (
  arith,
  get-set (spread_onto [] batch) "orpc-batch" (some (text mode)) k,
  eq_iff "orpc-batch" k,
  get-spread_onto [] batch k d,
  get-empty {V = Option HeaderValue} k,
)

value_at-get :
    (h : Headers) (k : String) (v : Option HeaderValue) → get h k ≡ some v → value_at h k ≡ v
unfolding value_at
value_at-get h k v e = rw e refl

get-value_at :
    (h : Headers) (k : String) (v : HeaderValue) → value_at h k ≡ some v → get h k ≡ some (some v)
unfolding value_at
get-value_at h k v e = ground arith

-- a header that the batch does not have is that of the subrequest
left_alone :
    (h received arrived : Headers) (k : String) (o : Option HeaderValue)
    → value_at (map_subrequest received arrived) k
      ≡ flat (elim (get arrived k) as (λ _. Option (Option HeaderValue)) [
        | some v ↦ some v
        | none ↦ get received k
      ])
    → get arrived k ≡ defined_header o
    → o ≡ none
    → value_at received k ≡ value_at h k
    → value_at (map_subrequest received arrived) k ≡ value_at h k
unfolding value_at
left_alone h received arrived k o seen batch absent sub = ground (arith, seen, sub)

-- With the defaults of both sides, for a header besides `orpc-batch` that the transport neither adds
-- nor changes: the handler of a subrequest sees the value that the client's request had, whether it
-- was sent with the subrequest, or once for the batch since all the requests have it.
pub headers_restored :
    (list : List Headers) (h received arrived : Headers) (mode k : String)
    → IsIn h list
    → k ≢ "orpc-batch"
    → IsDistinct received
    → IsDistinct arrived
    → value_at received k ≡ value_at (without_common (batch_headers list) h) k
    → get arrived k ≡ defined_header (value_at (sent_headers (batch_headers list) mode) k)
    → value_at (map_subrequest received arrived) k ≡ value_at h k
headers_restored list h received arrived mode k i other d e sub batch =
    let common = batch_headers list in
    let distinct = batch_headers-IsDistinct list in
    let seen = value_at-map_subrequest received arrived k other d e in
    let sent = value_at-sent_headers common mode k other distinct in
    elim (Option-cases (value_at common k)) [
      | inl absent ↦ elim (without_common-cases common h k distinct) [
        | inl kept ↦
            left_alone h received arrived k (value_at common k) seen
              (batch ∙ ap defined_header sent) absent (sub ∙ kept)
        | inr (gone, there) ↦
            left_alone h received arrived k (value_at common k) seen
              (batch ∙ ap defined_header sent) absent
              (sub ∙ gone ∙ sym absent ∙ value_at-get common k (value_at h k) there)
      ]
      | inr (v, there) ↦
          let mine : value_at h k ≡ some v =
            All-at (λ (x : Headers). value_at x k ≡ some v) list h i
              (batch_headers-IsCommon list k (some v) (get-value_at common k v there)) in
          ground (arith, seen, batch, sent)
    ]
