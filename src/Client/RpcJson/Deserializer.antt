-- ===== src/Client/RpcJson/Deserializer.antt =====
-- `RPCJsonSerializer.deserialize`. A throw is `none`. Own properties that are no elements of an
-- array and no keys of a plain object (`length`, `lastIndex`) count as absent, and a path into a text
-- throws, as the assignment at its end does.
use orpc.Prelude.{ℕ, zero, suc, String, Option, none, some, List, [], ◌∷◌, if◌then◌else◌}
use mathlib.Core.Option
use orpc.Client.RpcJson.{
  Segment, index, seg_eq, Value, undefined, blob, arr, obj, Items, nil, cons, Fields, end, field,
  Meta,
}
use orpc.Prelude.JsMap.{JsMap, get}
use orpc.Client.RpcJson.Serializer.{Handler, Serialization, ◌>>=◌}

abbrev pub Update : Type 0
Update = Value → Option Value

unfoldable pub update_item : ℕ → Update → Items → Option Items
update_item i f nil = none
update_item zero f (cons x xs) = Option.map (λ y. cons y xs) (f x)
update_item (suc i) f (cons x xs) = Option.map (cons x) (update_item i f xs)

unfoldable pub update_field : Segment → Update → Fields → Option Fields
update_field k f end = none
update_field k f (field j v fs) =
    let later = update_field k f fs in
    if seg_eq j k then Option.map (λ w. field j w fs) (f v) else Option.map (field j v) later

-- one step of a path, which `Object.hasOwn` must allow, and the assignment at its end
unfoldable pub in_slot : Segment → Update → Update
unfolding update_item update_field
in_slot (index i) f (arr xs) = Option.map arr (update_item i f xs)
in_slot k f (obj fs) = Option.map obj (update_field k f fs)
in_slot _ f v = none

unfoldable pub at_path : List Segment → Update → Update
unfolding in_slot
at_path [] f v = f v
at_path (s ∷ path) f v = in_slot s (at_path path f) v

-- updates at paths, in order, until one throws
unfoldable pub apply : List (List Segment × Update) → Update
unfolding at_path
apply [] v = some v
apply ((path, f) ∷ updates) v = do w ← at_path path f v; apply updates w

abbrev pub meta_updates : (String → Update) → List Meta → List (List Segment × Update)
meta_updates handlers [] = []
meta_updates handlers ((type, path) ∷ metas) = (path, handlers type) ∷ meta_updates handlers metas

abbrev pub assign : Value → Update
assign v _ = some v

-- `serialized.blobs[i]`, which is `undefined` behind the end
abbrev pub blob_updates : List (List Segment) → List ℕ → List (List Segment × Update)
blob_updates [] bs = []
blob_updates (path ∷ maps) [] = (path, assign undefined) ∷ blob_updates maps []
blob_updates (path ∷ maps) (b ∷ bs) = (path, assign (blob b)) ∷ blob_updates maps bs

-- the blobs are put in only if there is one
abbrev pub blob_phase : List (List Segment) → List ℕ → List (List Segment × Update)
blob_phase maps [] = []
blob_phase maps (b ∷ bs) = blob_updates maps (b ∷ bs)

-- `this.handlers[type]!.deserialize`
abbrev pub enabled : Option (Option Handler) → Update
enabled none v = none
enabled (some none) v = none
enabled (some (some h)) v = h.deserialize v

unfoldable pub restore : JsMap (Option Handler) → String → Update
restore handlers type = enabled (get handlers type)

unfoldable pub deserialize : JsMap (Option Handler) → Serialization → Option Value
deserialize handlers s = do
  json ← apply (blob_phase s.maps s.blobs) s.json
  apply (meta_updates (restore handlers) s.meta) json
