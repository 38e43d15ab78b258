-- ===== src/Batch/Headers/Tests.antt =====
-- The headers of a batch of two concrete requests.
use orpc.Prelude.{none, some, [], ◌∷◌, ◌≡◌, inl, inr, refl, eq_iff, arith}
use orpc.Prelude.JsMap.{get, set}
use orpc.Batch.Headers.{
  text, Headers, value_at, add_common, common_from, batch_headers, without_common, spread_onto,
  sent_headers, map_subrequest,
}
use orpc.Batch.Headers.Restored.{headers_restored}

headers : Unit {0}
unfolding value_at add_common common_from batch_headers without_common spread_onto sent_headers
    map_subrequest get set
headers = tt

abbrev first : Headers
first = ("accept", some (text "json")) ∷ ("x-id", some (text "1")) ∷ []

abbrev second : Headers
second = ("x-id", some (text "2")) ∷ ("accept", some (text "json")) ∷ []

-- as they are sent, and as the transport delivers them, with a header of its own
abbrev received : Headers
received = ("x-id", some (text "2")) ∷ []

abbrev arrived : Headers
arrived =
    ("accept", some (text "json"))
    ∷ ("orpc-batch", some (text "streaming"))
    ∷ ("cookie", some (text "a"))
    ∷ []

header_tests :
    (batch_headers (first ∷ second ∷ []) ≡ ("accept", some (text "json")) ∷ [])
    × (without_common (("accept", some (text "json")) ∷ []) second
        ≡ ("x-id", some (text "2")) ∷ ("accept", none) ∷ [])
    × (map_subrequest received arrived
        ≡ ("x-id", some (text "2"))
          ∷ ("accept", some (text "json"))
          ∷ ("orpc-batch", none)
          ∷ ("cookie", some (text "a"))
          ∷ [])
unfolding headers
header_tests = (refl, refl, refl)

headers_restored_example :
    value_at (map_subrequest received arrived) "accept" ≡ value_at second "accept"
headers_restored_example =
    headers_restored (first ∷ second ∷ []) second received arrived "streaming" "accept"
      (inr (inl refl)) (ground (arith, eq_iff "accept" "orpc-batch")) (unfold headers in refl, tt)
      (unfold headers in refl, (unfold headers in refl, (unfold headers in refl, tt)))
      (unfold headers in refl) (unfold headers in refl)
