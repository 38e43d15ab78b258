-- ===== src/Client/RpcJson/Encoding.antt =====
-- What a serialization is, without the walk: the JSON value, the paths of what has to be restored,
-- with the innermost first, and the paths of the blobs. And what is kept of a value: properties that
-- are left out, and the functions named `toJSON`, are no part of it.
use orpc.Prelude.{ℕ, suc, max, Bool, List, [], ◌∷◌, ◌++◌, ◌&&◌, ◌||◌, if◌then◌else◌}
use orpc.Client.RpcJson.{
  Segment, index, Value, null, undefined, nan, str, bigint, url, blob, date, regexp, set, map, arr,
  obj, Items, nil, cons, Fields, end, field, Meta, is_undefined, is_to_json,
}
use orpc.Client.RpcJson.Serializer.{regexp_text, date_json}

-- a segment in front of every path of a list
abbrev pub under_metas : Segment → List Meta → List Meta
under_metas s [] = []
under_metas s ((type, path) ∷ l) = (type, s ∷ path) ∷ under_metas s l

abbrev pub under_blobs : Segment → List (List Segment × ℕ) → List (List Segment × ℕ)
under_blobs s [] = []
under_blobs s ((path, b) ∷ l) = (s ∷ path, b) ∷ under_blobs s l

unfoldable mutual
  pub json : Value → Value
  json undefined = null
  json nan = null
  json (bigint n) = str n
  json (date d) = date_json d
  json (url u) = str u
  json (regexp p f) = str (regexp_text p f)
  json (set xs) = arr (json_items xs)
  json (map xs) = arr (json_items xs)
  json (arr xs) = arr (json_items xs)
  json (obj fs) = obj (json_fields fs)
  json v = v

  pub json_items : Items → Items
  json_items nil = nil
  json_items (cons x xs) = cons (json x) (json_items xs)

  pub json_fields : Fields → Fields
  json_fields end = end
  json_fields (field k v fs) = field k (json v) (json_fields fs)

unfoldable mutual
  pub metas : Value → List Meta
  metas undefined = ("undefined", []) ∷ []
  metas nan = ("nan", []) ∷ []
  metas (bigint n) = ("bigint", []) ∷ []
  metas (date d) = ("date", []) ∷ []
  metas (url u) = ("url", []) ∷ []
  metas (regexp p f) = ("regexp", []) ∷ []
  metas (set xs) = metas_items 0 xs ++ ("set", []) ∷ []
  metas (map xs) = metas_items 0 xs ++ ("map", []) ∷ []
  metas (arr xs) = metas_items 0 xs
  metas (obj fs) = metas_fields fs
  metas v = []

  pub metas_items : ℕ → Items → List Meta
  metas_items i nil = []
  metas_items i (cons x xs) = under_metas (index i) (metas x) ++ metas_items (suc i) xs

  pub metas_fields : Fields → List Meta
  metas_fields end = []
  metas_fields (field k v fs) = under_metas k (metas v) ++ metas_fields fs

unfoldable mutual
  pub blobs : Value → List (List Segment × ℕ)
  blobs (blob b) = ([], b) ∷ []
  blobs (set xs) = blobs_items 0 xs
  blobs (map xs) = blobs_items 0 xs
  blobs (arr xs) = blobs_items 0 xs
  blobs (obj fs) = blobs_fields fs
  blobs v = []

  pub blobs_items : ℕ → Items → List (List Segment × ℕ)
  blobs_items i nil = []
  blobs_items i (cons x xs) = under_blobs (index i) (blobs x) ++ blobs_items (suc i) xs

  pub blobs_fields : Fields → List (List Segment × ℕ)
  blobs_fields end = []
  blobs_fields (field k v fs) = under_blobs k (blobs v) ++ blobs_fields fs

unfoldable mutual
  pub kept : Bool → Value → Value
  kept omit (set xs) = set (kept_items omit xs)
  kept omit (map xs) = map (kept_items omit xs)
  kept omit (arr xs) = arr (kept_items omit xs)
  kept omit (obj fs) = obj (kept_fields omit fs)
  kept omit v = v

  pub kept_items : Bool → Items → Items
  kept_items omit nil = nil
  kept_items omit (cons x xs) = cons (kept omit x) (kept_items omit xs)

  pub kept_fields : Bool → Fields → Fields
  kept_fields omit end = end
  kept_fields omit (field k v fs) =
      let later = kept_fields omit fs in
      let same = field k (kept omit v) later in
      if is_to_json k v || (is_undefined v && omit) then later else same

-- How deep the walk goes: a set or a map is walked again as an array.
unfoldable mutual
  pub height : Value → ℕ
  height (set xs) = suc (suc (height_items xs))
  height (map xs) = suc (suc (height_items xs))
  height (arr xs) = suc (height_items xs)
  height (obj fs) = suc (height_fields fs)
  height v = 1

  pub height_items : Items → ℕ
  height_items nil = 0
  height_items (cons x xs) = max (height x) (height_items xs)

  pub height_fields : Fields → ℕ
  height_fields end = 0
  height_fields (field k v fs) = max (height v) (height_fields fs)
