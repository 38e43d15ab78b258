-- ===== src/Batch/Headers.antt =====
-- The headers of a batch: the defaults of `headers` and `mapSubrequest` in
-- packages/client/src/plugins/batch.ts, and of `mapSubrequest` in packages/server/src/plugins/batch.ts.
-- An array is compared by reference, so it is named by one.
pub mod Common
pub mod Restored
mod Tests
use orpc.Prelude.{
  ℕ, String, Bool, true, false, Option, none, some, List, [], ◌∷◌, ◌++◌, all, ◌==◌, str_eq,
  if◌then◌else◌,
}
use orpc.Prelude.JsMap
use orpc.Prelude.JsMap.{JsMap}

pub data HeaderValue : Type 0 where
  text : String → HeaderValue
  several : ℕ → HeaderValue

-- a key may be there with the value `undefined`
abbrev pub Headers : Type 0
Headers = JsMap (Option HeaderValue)

-- `===`
abbrev pub same_value : HeaderValue → HeaderValue → Bool
same_value (text s) (text t) = str_eq s t
same_value (several a) (several b) = a == b
same_value _ _ = false

abbrev pub same : Option HeaderValue → Option HeaderValue → Bool
same none none = true
same (some v) (some w) = same_value v w
same _ _ = false

abbrev pub flat : Option (Option HeaderValue) → Option HeaderValue
flat none = none
flat (some v) = v

-- `headers[key]`
unfoldable pub value_at : Headers → String → Option HeaderValue
value_at h k = flat (JsMap.get h k)

-- `for (const [key, value] of Object.entries(headers))`
unfoldable pub add_common : List Headers → Headers → Headers → Headers
add_common list [] common = common
add_common list ((k, v) ∷ entries) common =
    add_common list entries
      (if all (λ (h : Headers). same (value_at h k) v) list then JsMap.set common k v else common)

-- `for (const headers of headersList)`
unfoldable pub common_from : List Headers → List Headers → Headers → Headers
unfolding add_common
common_from list [] common = common
common_from list (h ∷ hs) common = common_from list hs (add_common list h common)

unfoldable pub batch_headers : List Headers → Headers
unfolding common_from
batch_headers list = common_from list list []

-- the loop of `mapSubrequest`, over the entries of the headers of the batch
unfoldable pub without_common : Headers → Headers → Headers
without_common [] sub = sub
without_common ((k, v) ∷ batch) sub =
    without_common batch (if same (value_at sub k) v then JsMap.set sub k none else sub)

-- `{ ...headers, ...others }`
unfoldable pub spread_onto : Headers → Headers → Headers
spread_onto h [] = h
spread_onto h ((k, v) ∷ others) = spread_onto (JsMap.set h k v) others

-- the headers of the batch request
unfoldable pub sent_headers : Headers → String → Headers
unfolding spread_onto
sent_headers batch mode = JsMap.set (spread_onto [] batch) "orpc-batch" (some (text mode))

-- `mapSubrequest` of the server
unfoldable pub map_subrequest : Headers → Headers → Headers
unfolding spread_onto
map_subrequest sub batch = JsMap.set (spread_onto (spread_onto [] sub) batch) "orpc-batch" none
