-- ===== src/Server/Cors.antt =====
-- packages/server/src/plugins/cors.ts: the two interceptors of `CORSHandlerPlugin`. A text is the list of
-- its code units; header names are in lower case. Letters beyond ASCII do not occur in the texts that
-- are compared, so that `toLowerCase` is lower case of ASCII letters.
pub mod Vary
mod Tests
use orpc.Prelude.{
  ℕ, zero, suc, ◌+◌, Bool, true, false, Option, none, some, List, [], ◌∷◌, ◌++◌, ◌&&◌, ◌||◌, ◌==◌,
  not, leb, if◌then◌else◌, any, length, String, or_else,
}
use orpc.Prelude.JsMap
use orpc.Prelude.JsMap.{JsMap, get}

abbrev pub Text : Type 0
Text = List ℕ

unfoldable pub text_eq : Text → Text → Bool
text_eq [] [] = true
text_eq (c ∷ s) (d ∷ t) = (c == d) && text_eq s t
text_eq _ _ = false

-- a header value of the server library: `flattenStandardHeader`, and a value that is one text or a
-- list of texts
pub record HeaderLibrary (H : Type 0) : Type 0 where
  pub flatten : H → Option Text
  pub text : Text → H
  pub texts : List Text → H
  pub is_empty_list : H → Bool

-- `options`, with `value` and `toArray` applied to the origins
pub record CorsOptions : Type 0 where
  pub origin : Option Text → List Text
  pub timing_origin : Option Text → List Text
  pub allow_methods : List Text
  pub allow_headers : Option (List Text)
  pub max_age : Option Text
  pub credentials : Bool
  pub expose_headers : List Text

pub record Response (H : Type 0) : Type 0 where
  pub status : ℕ
  pub headers : JsMap H
  pub body : Option ℕ

abbrev pub is_space : ℕ → Bool
is_space c = (c == 32) || (c == 9) || (c == 10) || (c == 13)

abbrev pub trim_start : Text → Text
trim_start [] = []
trim_start (c ∷ t) = if is_space c then trim_start t else c ∷ t

unfoldable pub reverse_onto : Text → Text → Text
reverse_onto done [] = done
reverse_onto done (c ∷ t) = reverse_onto (c ∷ done) t

abbrev pub trim : Text → Text
trim t = reverse_onto [] (trim_start (reverse_onto [] (trim_start t)))

abbrev pub lower : Text → Text
lower [] = []
lower (c ∷ t) = (if leb 65 c && leb c 90 then c + 32 else c) ∷ lower t

-- `split(',')`, with the part read so far
unfoldable pub split_commas : Text → Text → List Text
split_commas part [] = part ∷ []
split_commas part (c ∷ t) =
    let same = split_commas (part ++ c ∷ []) t in
    let new = split_commas [] t in if c == 44 then part ∷ new else same

-- "origin", "Origin", "*" and "true"
abbrev pub lower_origin : Text
lower_origin = 111 ∷ 114 ∷ 105 ∷ 103 ∷ 105 ∷ 110 ∷ []

abbrev pub upper_origin : Text
upper_origin = 79 ∷ 114 ∷ 105 ∷ 103 ∷ 105 ∷ 110 ∷ []

abbrev pub star : Text
star = 42 ∷ []

abbrev pub true_text : Text
true_text = 116 ∷ 114 ∷ 117 ∷ 101 ∷ []

abbrev pub is_origin : Text → Bool
is_origin part = text_eq (lower (trim part)) lower_origin

unfoldable pub varies_by_origin : Text → Bool
unfolding split_commas reverse_onto text_eq
varies_by_origin vary = any is_origin (split_commas [] vary)

abbrev pub includes : List Text → Text → Bool
includes ts t = any (λ s. text_eq s t) ts

module _ {H : Type 0} (lib : HeaderLibrary H) where
  abbrev pub header : JsMap H → String → Option Text
  header headers name = elim (get headers name) [ none ↦ none | some h ↦ lib.flatten h ]

  abbrev pub put : String → Text → JsMap H → JsMap H
  put name t headers = JsMap.set headers name (lib.text t)

  -- the new value of `Vary`; an empty one counts as absent
  unfoldable pub vary_value : Option Text → Option Text
  unfolding varies_by_origin
  vary_value none = some upper_origin
  vary_value (some []) = some upper_origin
  vary_value (some (c ∷ t)) =
      if varies_by_origin (c ∷ t) then none else some ((c ∷ t) ++ 44 ∷ 32 ∷ upper_origin)

  abbrev pub put_vary : Option Text → JsMap H → JsMap H
  put_vary none headers = headers
  put_vary (some t) headers = put "vary" t headers

  -- a header that allows an origin: any, or the one that asks if it is in the list
  abbrev pub allowed : List Text → Option Text → Option Text
  allowed origins origin =
      if includes origins star
      then some star
      else elim origin [ none ↦ none | some o ↦ if includes origins o then some o else none ]

  abbrev pub put_allowed : String → Option Text → JsMap H → JsMap H
  put_allowed name none headers = headers
  put_allowed name (some t) headers = put name t headers

  abbrev pub put_credentials : Bool → JsMap H → JsMap H
  put_credentials false headers = headers
  put_credentials true headers = put "access-control-allow-credentials" true_text headers

  abbrev pub put_exposed : List Text → JsMap H → JsMap H
  put_exposed [] headers = headers
  put_exposed (t ∷ ts) headers =
      put_allowed "access-control-expose-headers" (lib.flatten (lib.texts (t ∷ ts))) headers

  unfoldable pub cors_headers : CorsOptions → JsMap H → JsMap H → JsMap H
  unfolding vary_value
  cors_headers o request headers =
      let origin = header request "origin" in
      let origins = o.origin origin in
      let h1 = put_allowed "access-control-allow-origin" (allowed origins origin) headers in
      let h2 = if includes origins star then h1 else put_vary (vary_value (header h1 "vary")) h1 in
      let h3 = put_allowed "timing-allow-origin" (allowed (o.timing_origin origin) origin) h2 in
      put_exposed o.expose_headers (put_credentials o.credentials h3)

  -- `corsHeadersInterceptor`, on what `next` returns; `none` is no match
  unfoldable pub cors_headers_interceptor :
      CorsOptions → JsMap H → Option (Response H) → Option (Response H)
  unfolding cors_headers
  cors_headers_interceptor o request none = none
  cors_headers_interceptor o request (some r) =
      some (record r { headers = cors_headers o request r.headers })

  abbrev pub put_flat : String → H → JsMap H → JsMap H
  put_flat name h headers = put_allowed name (lib.flatten h) headers

  abbrev pub preflight_headers : CorsOptions → JsMap H → JsMap H
  preflight_headers o request =
      let h1 = put_allowed "access-control-max-age" o.max_age [] in
      let h2 : JsMap H = elim o.allow_methods [
        | [] ↦ h1
        | t ∷ ts ↦ put_flat "access-control-allow-methods" (lib.texts (t ∷ ts)) h1
      ] in
      elim o.allow_headers [
        | some [] ↦ h2
        | some (t ∷ ts) ↦ put_flat "access-control-allow-headers" (lib.texts (t ∷ ts)) h2
        | none ↦ elim (get request "access-control-request-headers") [
          | none ↦ h2
          | some h ↦
              if lib.is_empty_list h then h2 else put_flat "access-control-allow-headers" h h2
        ]
      ]

  -- `preflightInterceptor`: the request's method is OPTIONS, or the call goes on
  unfoldable pub preflight_interceptor :
      CorsOptions → Bool → JsMap H → Option (Response H) → Option (Response H)
  preflight_interceptor o is_options request next =
      if is_options
      then some (record { status = 204; headers = preflight_headers o request; body = none })
      else next
