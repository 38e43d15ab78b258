-- ===== src/Server/Cors/Vary.antt =====
-- A response that depends on the origin says so.
use orpc.Prelude.{
  Bool, true, false, Option, none, some, List, [], ◌∷◌, ◌++◌, if◌then◌else◌, any, String, ◌≡◌, inl,
  inr, refl, arith, Bool-cases, ap, sym, ◌∙◌, subst, str_eq,
}
use orpc.Prelude.JsMap.{JsMap, get-set}
use orpc.Server.Cors.{
  Text, HeaderLibrary, CorsOptions, split_commas, is_origin, varies_by_origin, includes, star,
  header, put, vary_value, put_vary, allowed, put_allowed, cors_headers, put_credentials,
  put_exposed, true_text, upper_origin, reverse_onto, text_eq,
}

any-split :
    (p : Text → Bool) (part v w : Text)
    → any p (split_commas [] w) ≡ true
    → any p (split_commas part (v ++ 44 ∷ w)) ≡ true
unfolding split_commas
any-split p part [] w h = ground arith
any-split p part (c ∷ v) w h =
    ground (arith, any-split p (part ++ c ∷ []) v w h, any-split p [] v w h)

varies-append : (v : Text) → varies_by_origin (v ++ 44 ∷ 32 ∷ upper_origin) ≡ true
unfolding varies_by_origin
varies-append v =
    any-split is_origin [] v (32 ∷ upper_origin) (unfold split_commas reverse_onto text_eq in refl)

module _ {H : Type 0} (lib : HeaderLibrary H)
    (lawful : (t : Text) → lib.flatten (lib.text t) ≡ some t) where
  -- the header is there and names the origin
  abbrev pub VariesByOrigin : JsMap H → Type 0
  VariesByOrigin headers =
      (v : Text) × (header lib headers "vary" ≡ some v) × (varies_by_origin v ≡ true)

  header-put :
      (name : String) (t : Text) (headers : JsMap H) (j : String)
      → header lib (put lib name t headers) j
        ≡ (if str_eq name j then some t else header lib headers j)
  header-put name t headers j = ground (arith, get-set headers name (lib.text t) j, lawful t)

  put-VariesByOrigin :
      (name : String) (t : Text) (headers : JsMap H)
      → str_eq name "vary" ≡ false
      → VariesByOrigin headers
      → VariesByOrigin (put lib name t headers)
  put-VariesByOrigin name t headers n (v, e, h) = (
    v,
    header-put name t headers "vary"
        ∙ ap (λ b. if b then some t else header lib headers "vary") n
        ∙ e,
    h,
  )

  put_allowed-VariesByOrigin :
      (name : String) (o : Option Text) (headers : JsMap H)
      → str_eq name "vary" ≡ false
      → VariesByOrigin headers
      → VariesByOrigin (put_allowed lib name o headers)
  put_allowed-VariesByOrigin name none headers n h = h
  put_allowed-VariesByOrigin name (some t) headers n h = put-VariesByOrigin name t headers n h

  header-vary :
      (t : Text) (headers : JsMap H) → header lib (put lib "vary" t headers) "vary" ≡ some t
  header-vary t headers = header-put "vary" t headers "vary"

  put_vary-VariesByOrigin :
      (before : Option Text) (headers : JsMap H)
      → header lib headers "vary" ≡ before
      → VariesByOrigin (put_vary lib (vary_value lib before) headers)
  unfolding vary_value
  put_vary-VariesByOrigin none headers e = (
    upper_origin,
    header-vary upper_origin headers,
    unfold varies_by_origin split_commas reverse_onto text_eq in refl,
  )
  put_vary-VariesByOrigin (some []) headers e = (
    upper_origin,
    header-vary upper_origin headers,
    unfold varies_by_origin split_commas reverse_onto text_eq in refl,
  )
  put_vary-VariesByOrigin (some (c ∷ t)) headers e = elim (Bool-cases (varies_by_origin (c ∷ t))) [
    | inl v ↦ rw v (c ∷ t, e, v)
    | inr v ↦ rw v (
      (c ∷ t) ++ 44 ∷ 32 ∷ upper_origin,
      header-vary ((c ∷ t) ++ 44 ∷ 32 ∷ upper_origin) headers,
      varies-append (c ∷ t),
    )
  ]

  put_credentials-VariesByOrigin :
      (b : Bool) (headers : JsMap H)
      → VariesByOrigin headers
      → VariesByOrigin (put_credentials lib b headers)
  put_credentials-VariesByOrigin false headers h = h
  put_credentials-VariesByOrigin true headers h =
      put-VariesByOrigin "access-control-allow-credentials" true_text headers refl h

  put_exposed-VariesByOrigin :
      (ts : List Text) (headers : JsMap H)
      → VariesByOrigin headers
      → VariesByOrigin (put_exposed lib ts headers)
  put_exposed-VariesByOrigin [] headers h = h
  put_exposed-VariesByOrigin (t ∷ ts) headers h =
      put_allowed-VariesByOrigin "access-control-expose-headers" (lib.flatten (lib.texts (t ∷ ts)))
        headers refl h

  -- Unless every origin is allowed, the response says that it varies by origin, whatever `Vary` was
  -- before, so that a cache does not give it to another origin. The server library flattens a text
  -- to itself.
  pub cors_headers-VariesByOrigin :
      (o : CorsOptions) (request headers : JsMap H)
      → includes (o.origin (header lib request "origin")) star ≡ false
      → VariesByOrigin (cors_headers lib o request headers)
  unfolding cors_headers
  cors_headers-VariesByOrigin o request headers h =
      let origin = header lib request "origin" in
      let h1 =
        put_allowed lib "access-control-allow-origin" (allowed lib (o.origin origin) origin)
          headers in
      let h2 = put_vary lib (vary_value lib (header lib h1 "vary")) h1 in
      let v2 = put_vary-VariesByOrigin (header lib h1 "vary") h1 refl in
      let v2' : VariesByOrigin (if includes (o.origin origin) star then h1 else h2) =
        subst (λ b. VariesByOrigin (if b then h1 else h2)) (sym h) v2 in
      let v3 =
        put_allowed-VariesByOrigin "timing-allow-origin"
          (allowed lib (o.timing_origin origin) origin)
          (if includes (o.origin origin) star then h1 else h2) refl v2' in
      put_exposed-VariesByOrigin o.expose_headers _
        (put_credentials-VariesByOrigin o.credentials _ v3)
