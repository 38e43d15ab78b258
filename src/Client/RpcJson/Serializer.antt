-- ===== src/Client/RpcJson/Serializer.antt =====
-- `RPCJsonSerializer.serialize`. The walk takes fuel, since a custom handler may return any value to
-- be walked again; `none` means that the fuel ran out. The stack `segments` is the path argument,
-- and what is pushed to `meta`, `maps` and `blobs` is returned in the order of the pushes.
use orpc.Prelude.{
  ℕ, zero, suc, String, Bool, Option, none, some, List, [], ◌∷◌, ◌++◌, ◌&&◌, ◌||◌, if◌then◌else◌,
}
use Prim.Native.String
use mathlib.Core.Option
use orpc.Client.RpcJson.{
  Segment, index, Value, null, undefined, nan, str, bigint, url, boolean, num, blob, date, regexp,
  set, map, arr, obj, Items, nil, cons, Fields, end, field, Meta, is_undefined, is_to_json,
}

-- `RPCJsonSerializerHandler`; a `deserialize` that throws is `none`
pub record Handler : Type 0 where
  pub condition : Value → Bool
  pub serialize : Value → Value
  pub deserialize : Value → Option Value
  pub is_terminal : Bool

-- the fields that the constructor computes and `serialize` reads
pub record Config : Type 0 where
  pub inline_built_in_handlers : Bool
  pub handler_entries : List (String × Handler)
  pub omit_undefined_properties : Bool

-- What one look at a value decides: a final value, with a meta entry or none; a handler whose
-- result is walked again; or nothing.
pub data Look : Type 0 where
  final : Option String → Value → Look
  again : String → Value → Look
  pass : Look

-- `data.toString()` of a regular expression
abbrev pub regexp_text : String → String → String
regexp_text pattern flags = String.◌++◌ "/" (String.◌++◌ pattern (String.◌++◌ "/" flags))

-- `Number.isNaN(data.getTime()) ? null : data.toISOString()`
abbrev pub date_json : Option String → Value
date_json none = null
date_json (some iso) = str iso

-- the `switch (typeof data)` that inlines the built-in handlers
unfoldable pub inline_look : Value → Look
inline_look (str s) = final none (str s)
inline_look (boolean b) = final none (boolean b)
inline_look (num n) = final none (num n)
inline_look nan = final (some "nan") null
inline_look undefined = final (some "undefined") null
inline_look (bigint n) = final (some "bigint") (str n)
inline_look null = final none null
inline_look (date d) = final (some "date") (date_json d)
inline_look (url u) = final (some "url") (str u)
inline_look (regexp p f) = final (some "regexp") (str (regexp_text p f))
inline_look (set xs) = again "set" (arr xs)
inline_look (map xs) = again "map" (arr xs)
inline_look _ = pass

-- the loop over `handlerEntries`
unfoldable pub handler_look : List (String × Handler) → Value → Look
handler_look [] v = pass
handler_look ((type, h) ∷ entries) v =
    if h.condition v
    then (if h.is_terminal then final (some type) (h.serialize v) else again type (h.serialize v))
    else handler_look entries v

abbrev pub or_look : Look → Look → Look
or_look pass l = l
or_look l _ = l

unfoldable pub look : Config → Value → Look
unfolding inline_look handler_look
look c v =
    or_look (if c.inline_built_in_handlers then inline_look v else pass)
      (handler_look c.handler_entries v)

-- the value returned, with what was pushed to `meta` and to `maps` and `blobs`
pub record Written (A : Type 0) : Type 0 where
  pub json : A
  pub metas : List Meta
  pub blobs : List (List Segment × ℕ)

abbrev pub blobs_at : Value → List Segment → List (List Segment × ℕ)
blobs_at (blob b) path = (path, b) ∷ []
blobs_at _ path = []

abbrev pub metas_at : Option String → List Segment → List Meta
metas_at none path = []
metas_at (some type) path = (type, path) ∷ []

abbrev pub write_final : Option String → Value → List Segment → Written Value
write_final type json path = record {
  json = json;
  metas = metas_at type path;
  blobs = blobs_at json path;
}

-- `meta.push([type, ...segments])` behind the entries of the inner walk
abbrev pub close_meta : String → List Segment → Written Value → Written Value
close_meta type path w = record w { metas = w.metas ++ (type, path) ∷ [] }

abbrev pub add_item : Written Value → Written Items → Written Items
add_item w ws = record {
  json = cons w.json ws.json;
  metas = w.metas ++ ws.metas;
  blobs = w.blobs ++ ws.blobs;
}

abbrev pub add_field : Segment → Written Value → Written Fields → Written Fields
add_field k w ws = record {
  json = field k w.json ws.json;
  metas = w.metas ++ ws.metas;
  blobs = w.blobs ++ ws.blobs;
}

abbrev pub as_value : {A : Type 0} → (A → Value) → Written A → Written Value
as_value f w = record { json = f w.json; metas = w.metas; blobs = w.blobs }

abbrev pub Walk : Type 0
Walk = Value → List Segment → Option (Written Value)

infixl 5 ◌>>=◌
abbrev pub ◌>>=◌ : {A B : Type 0} → Option A → (A → Option B) → Option B
none >>= f = none
some a >>= f = f a

-- the loop over an array, from index `i`
unfoldable pub walk_items : Walk → ℕ → Items → List Segment → Option (Written Items)
walk_items walk i nil path = some (record { json = nil; metas = []; blobs = [] })
walk_items walk i (cons x xs) path = do
  w ← walk x (path ++ index i ∷ [])
  ws ← walk_items walk (suc i) xs path
  some (add_item w ws)

-- the loop over a plain object's keys
unfoldable pub walk_fields : Walk → Bool → Fields → List Segment → Option (Written Fields)
walk_fields walk omit end path = some (record { json = end; metas = []; blobs = [] })
walk_fields walk omit (field k v fs) path =
    let later = walk_fields walk omit fs path in
    if is_to_json k v || (is_undefined v && omit)
    then later
    else do w ← walk v (path ++ k ∷ []); ws ← later; some (add_field k w ws)

-- what follows the handlers: blobs, arrays, plain objects, and all else as it is
unfoldable pub walk_structure : Walk → Bool → Walk
walk_structure walk omit (arr xs) path = Option.map (as_value arr) (walk_items walk 0 xs path)
walk_structure walk omit (obj fs) path = Option.map (as_value obj) (walk_fields walk omit fs path)
walk_structure walk omit v path = some (write_final none v path)

unfoldable pub serialize_value : Config → ℕ → Walk
unfolding walk_structure
serialize_value c zero v path = none
serialize_value c (suc fuel) v path =
    let walk = serialize_value c fuel in
    elim (look c v) [
      | final type json ↦ some (write_final type json path)
      | again type w ↦ Option.map (close_meta type path) (walk w path)
      | pass ↦ walk_structure walk c.omit_undefined_properties v path
    ]

-- `RPCJsonSerialization`; an empty `meta` or `maps` is left out by the source, and read as empty
pub record Serialization : Type 0 where
  pub json : Value
  pub meta : List Meta
  pub maps : List (List Segment)
  pub blobs : List ℕ

abbrev pub firsts : {A B : Type 0} → List (A × B) → List A
firsts [] = []
firsts ((a, b) ∷ l) = a ∷ firsts l

abbrev pub seconds : {A B : Type 0} → List (A × B) → List B
seconds [] = []
seconds ((a, b) ∷ l) = b ∷ seconds l

unfoldable pub serialize : Config → ℕ → Value → Option Serialization
serialize c fuel v =
    Option.map
      (λ w. record {
        json = w.json;
        meta = w.metas;
        maps = firsts w.blobs;
        blobs = seconds w.blobs;
      })
      (serialize_value c fuel v [])
