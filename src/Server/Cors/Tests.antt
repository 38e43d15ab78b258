-- ===== src/Server/Cors/Tests.antt =====
-- The CORS headers of packages/server/src/plugins/cors.ts on a concrete response.
use orpc.Prelude.{true, false, none, some, [], ◌∷◌, ◌++◌, ◌≡◌, refl}
use orpc.Prelude.JsMap
use orpc.Prelude.JsMap.{JsMap, get}
use orpc.Server.Cors.{
  Text, HeaderLibrary, CorsOptions, cors_headers, cors_headers_interceptor, preflight_interceptor,
  varies_by_origin, split_commas, reverse_onto, text_eq, vary_value, upper_origin,
}
use orpc.Server.Cors.Vary.{VariesByOrigin, cors_headers-VariesByOrigin}

cors : Unit {0}
unfolding cors_headers cors_headers_interceptor preflight_interceptor varies_by_origin split_commas
    reverse_onto text_eq vary_value get JsMap.set
cors = tt

-- every header is one text
abbrev lib : HeaderLibrary Text
lib = record {
  flatten = λ h. some h;
  text = λ t. t;
  texts = λ ts. elim ts [ [] ↦ [] | t ∷ us ↦ t ];
  is_empty_list = λ h. false;
}

-- "a"
abbrev site : Text
site = 97 ∷ []

abbrev options : CorsOptions
options = record {
  origin = λ o. site ∷ [];
  timing_origin = λ o. [];
  allow_methods = site ∷ [];
  allow_headers = none;
  max_age = none;
  credentials = false;
  expose_headers = [];
}

abbrev request : JsMap Text
request = ("origin", site) ∷ []

abbrev headers : JsMap Text
headers = ("vary", site) ∷ []

cors_tests :
    (cors_headers lib options request headers
      ≡ ("vary", site ++ 44 ∷ 32 ∷ upper_origin) ∷ ("access-control-allow-origin", site) ∷ [])
    × (cors_headers_interceptor lib options request none ≡ none)
    × (preflight_interceptor lib options true request none
        ≡ some (record {
          status = 204;
          headers = ("access-control-allow-methods", site) ∷ [];
          body = none;
        }))
unfolding cors
cors_tests = (refl, refl, refl)

cors_headers-VariesByOrigin_example :
    VariesByOrigin lib (λ t. refl) (cors_headers lib options request headers)
cors_headers-VariesByOrigin_example =
    cors_headers-VariesByOrigin lib (λ t. refl) options request headers (unfold text_eq in refl)
