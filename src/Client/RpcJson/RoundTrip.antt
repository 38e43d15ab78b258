-- ===== src/Client/RpcJson/RoundTrip.antt =====
-- What was serialized and sent deserializes to what is kept of the value.
use orpc.Prelude.{ℕ, ◌≤◌, some, List, [], ◌∷◌, ◌≡◌, refl}
use orpc.Client.RpcJson.{
  Segment, Value, set, map, arr, obj, Items, nil, cons, Fields, end, field, Meta,
}
use orpc.Client.RpcJson.Serializer.{◌>>=◌, firsts, seconds}
use orpc.Client.RpcJson.Handlers.{Natives, built_in, some_each}
use orpc.Client.RpcJson.Encoding.{json, metas, blobs}
use orpc.Client.RpcJson.Serializer.{Config, Serialization, serialize}
use orpc.Client.RpcJson.Handlers.{RpcJsonSerializer}
use orpc.Client.RpcJson.Deserializer.{deserialize}
use orpc.Client.RpcJson.Encoding.{kept, height}
use orpc.Client.RpcJson.Restoring.{Sendable, SendableItems, SendableFields, restores}
use orpc.Client.RpcJson.Blobs.{
  on_wire, puts_back, blob_phase-eq-puts, HasDistinctKeys, HasDistinctKeysItems,
  HasDistinctKeysFields,
}
use orpc.Client.RpcJson.Refinement.{IsBuiltIn, serialize_value-Works, behind_metas, behind_blobs}

behind_metas-nil : (l : List Meta) → behind_metas [] l ≡ l
behind_metas-nil [] = refl
behind_metas-nil ((type, path) ∷ l) = rw (behind_metas-nil l)

behind_blobs-nil : (l : List (List Segment × ℕ)) → behind_blobs [] l ≡ l
behind_blobs-nil [] = refl
behind_blobs-nil ((path, b) ∷ l) = rw (behind_blobs-nil l)

-- the serialization of a value
abbrev pub serialization : Value → Serialization
serialization v = record {
  json = json v;
  meta = metas v;
  maps = firsts (blobs v);
  blobs = seconds (blobs v);
}

-- A configuration with the built-in handlers, inlined or in the table, ends on every value if the
-- fuel is at least the depth of the value, and gives the serialization of what is kept of it.
pub serialize-eq-serialization :
    (c : Config) (fuel : ℕ) (v : Value)
    → IsBuiltIn c
    → height v ≤ fuel
    → serialize c fuel v ≡ some (serialization (kept c.omit_undefined_properties v))
unfolding serialize
serialize-eq-serialization c fuel v built_in h =
    rw (serialize_value-Works c built_in fuel v [] h, behind_metas-nil, behind_blobs-nil)

abbrev pub sent : Serialization → Serialization
sent s = record s { json = on_wire s.json }

mutual
  unfolding Sendable HasDistinctKeys

  Sendable-HasDistinctKeys :
      (natives : Natives) (v : Value) → Sendable natives v → HasDistinctKeys v
  Sendable-HasDistinctKeys natives (set xs) h = items-HasDistinctKeys natives xs h.0
  Sendable-HasDistinctKeys natives (map xs) h = items-HasDistinctKeys natives xs h.0
  Sendable-HasDistinctKeys natives (arr xs) h = items-HasDistinctKeys natives xs h
  Sendable-HasDistinctKeys natives (obj fs) h = fields-HasDistinctKeys natives fs h
  Sendable-HasDistinctKeys natives v h = tt

  items-HasDistinctKeys :
      (natives : Natives) (xs : Items) → SendableItems natives xs → HasDistinctKeysItems xs
  items-HasDistinctKeys natives nil h = tt
  items-HasDistinctKeys natives (cons x xs) h =
      (Sendable-HasDistinctKeys natives x h.0, items-HasDistinctKeys natives xs h.1)

  fields-HasDistinctKeys :
      (natives : Natives) (fs : Fields) → SendableFields natives fs → HasDistinctKeysFields fs
  fields-HasDistinctKeys natives end h = tt
  fields-HasDistinctKeys natives (field k v fs) h =
      (h.0, Sendable-HasDistinctKeys natives v h.1, fields-HasDistinctKeys natives fs h.2)

deserialize-serialization :
    (natives : Natives) (v : Value)
    → Sendable natives v
    → deserialize (some_each (built_in natives)) (sent (serialization v)) ≡ some v
unfolding deserialize
deserialize-serialization natives v h =
    rw (blob_phase-eq-puts (blobs v), puts_back v (Sendable-HasDistinctKeys natives v h))
      (restores natives v h)

-- A serializer with the built-in handlers, inlined or in the table: whatever is kept of a value that
-- JSON and the handlers can carry is what the receiver gets, blobs and all.
pub round_trip :
    (natives : Natives) (r : RpcJsonSerializer) (fuel : ℕ) (v : Value)
    → IsBuiltIn r.config
    → r.handlers ≡ some_each (built_in natives)
    → height v ≤ fuel
    → Sendable natives (kept r.config.omit_undefined_properties v)
    → (serialize r.config fuel v >>= λ s. deserialize r.handlers (sent s))
      ≡ some (kept r.config.omit_undefined_properties v)
round_trip natives r fuel v built_in same h ok =
    rw (serialize-eq-serialization r.config fuel v built_in h, same)
      (deserialize-serialization natives (kept r.config.omit_undefined_properties v) ok)
