-- ===== src/Client/RpcJson/Blobs.antt =====
-- A blob travels beside the JSON value, where the text of the value has an empty object for it, and
-- is put back by its path.
use orpc.Prelude.{ℕ, suc, none, some, List, [], ◌∷◌, ◌++◌, ◌≡◌, refl}
use orpc.Client.RpcJson.{
  Segment, index, Value, blob, date, set, map, arr, obj, Items, nil, cons, Fields, end, field,
  ◌+++◌, append_fields, size,
}
use orpc.Client.RpcJson.Serializer.{firsts, seconds}
use orpc.Client.RpcJson.Deserializer.{apply, assign, blob_updates, blob_phase}
use orpc.Client.RpcJson.Encoding.{
  json, json_items, json_fields, blobs, blobs_items, blobs_fields, under_blobs,
}
use orpc.Client.RpcJson.Slots.{
  Updates, under_updates, apply-append, apply-under_item, IsFresh, apply-under_field,
}
use orpc.Client.RpcJson.Slots.{
  IsApart, IsApart-end, IsApart-append, append_fields-one, +++_one, size-one,
}

-- The JSON value behind `JSON.stringify` and `JSON.parse`: a blob reads as an empty object.
unfoldable mutual
  pub on_wire : Value → Value
  on_wire (blob b) = obj end
  on_wire (arr xs) = arr (on_wire_items xs)
  on_wire (obj fs) = obj (on_wire_fields fs)
  on_wire v = v

  pub on_wire_items : Items → Items
  on_wire_items nil = nil
  on_wire_items (cons x xs) = cons (on_wire x) (on_wire_items xs)

  pub on_wire_fields : Fields → Fields
  on_wire_fields end = end
  on_wire_fields (field k v fs) = field k (on_wire v) (on_wire_fields fs)

abbrev pub puts : List (List Segment × ℕ) → Updates
puts [] = []
puts ((path, b) ∷ l) = (path, assign (blob b)) ∷ puts l

puts-append : (l m : List (List Segment × ℕ)) → puts (l ++ m) ≡ puts l ++ puts m
puts-append [] m = refl
puts-append ((path, b) ∷ l) m = rw (puts-append l m)

puts-under :
    (s : Segment) (l : List (List Segment × ℕ)) → puts (under_blobs s l) ≡ under_updates s (puts l)
puts-under s [] = refl
puts-under s ((path, b) ∷ l) = rw (puts-under s l)

blob_updates-eq-puts : (l : List (List Segment × ℕ)) → blob_updates (firsts l) (seconds l) ≡ puts l
blob_updates-eq-puts [] = refl
blob_updates-eq-puts ((path, b) ∷ l) = rw (blob_updates-eq-puts l)

-- the parallel arrays `maps` and `blobs` are read together
pub blob_phase-eq-puts : (l : List (List Segment × ℕ)) → blob_phase (firsts l) (seconds l) ≡ puts l
blob_phase-eq-puts [] = refl
blob_phase-eq-puts ((path, b) ∷ l) = rw (blob_updates-eq-puts l)

puts_items_rest :
    (done : Items) (x : Value) (xs : Items)
    → apply
        (puts (blobs_items (size (done +++ cons x nil)) xs))
        (arr ((done +++ cons x nil) +++ on_wire_items (json_items xs)))
      ≡ some (arr ((done +++ cons x nil) +++ json_items xs))
    → apply
        (puts (blobs_items (suc (size done)) xs))
        (arr (done +++ cons x (on_wire_items (json_items xs))))
      ≡ some (arr (done +++ cons x (json_items xs)))
puts_items_rest done x xs h = rw (size-one, +++_one, +++_one) at h

puts_fields_rest :
    (done : Fields) (k : Segment) (v : Value) (fs : Fields)
    → apply
        (puts (blobs_fields fs))
        (obj (append_fields (append_fields done (field k v end)) (on_wire_fields (json_fields fs))))
      ≡ some (obj (append_fields (append_fields done (field k v end)) (json_fields fs)))
    → apply
        (puts (blobs_fields fs))
        (obj (append_fields done (field k v (on_wire_fields (json_fields fs)))))
      ≡ some (obj (append_fields done (field k v (json_fields fs))))
puts_fields_rest done k v fs h = rw (append_fields-one, append_fields-one) at h

-- every object in the value has distinct keys
unfoldable mutual
  pub HasDistinctKeys : Value → Type 0
  HasDistinctKeys (set xs) = HasDistinctKeysItems xs
  HasDistinctKeys (map xs) = HasDistinctKeysItems xs
  HasDistinctKeys (arr xs) = HasDistinctKeysItems xs
  HasDistinctKeys (obj fs) = HasDistinctKeysFields fs
  HasDistinctKeys v = Unit

  pub HasDistinctKeysItems : Items → Type 0
  HasDistinctKeysItems nil = Unit
  HasDistinctKeysItems (cons x xs) = HasDistinctKeys x × HasDistinctKeysItems xs

  pub HasDistinctKeysFields : Fields → Type 0
  HasDistinctKeysFields end = Unit
  HasDistinctKeysFields (field k v fs) = IsFresh k fs × HasDistinctKeys v × HasDistinctKeysFields fs

mutual
  unfolding HasDistinctKeys blobs json apply on_wire

  pub puts_back :
      (v : Value) → HasDistinctKeys v → apply (puts (blobs v)) (on_wire (json v)) ≡ some (json v)
  puts_back (arr xs) h = puts_back_items nil xs h
  puts_back (set xs) h = puts_back_items nil xs h
  puts_back (map xs) h = puts_back_items nil xs h
  puts_back (obj fs) h = puts_back_fields end fs (IsApart-end fs) h
  puts_back (date none) h = refl
  puts_back (date (some iso)) h = refl
  puts_back v h = refl

  puts_back_items :
      (done xs : Items)
      → HasDistinctKeysItems xs
      → apply (puts (blobs_items (size done) xs)) (arr (done +++ on_wire_items (json_items xs)))
        ≡ some (arr (done +++ json_items xs))
  puts_back_items done nil h = refl
  puts_back_items done (cons x xs) h =
      rw
        (
          puts-append (under_blobs (index (size done)) (blobs x))
              (blobs_items (suc (size done)) xs),
          apply-append,
          puts-under,
          apply-under_item,
          puts_back x h.0,
        )
        (puts_items_rest done (json x) xs (puts_back_items (done +++ cons (json x) nil) xs h.1))

  puts_back_fields :
      (done fs : Fields)
      → IsApart done fs
      → HasDistinctKeysFields fs
      → apply (puts (blobs_fields fs)) (obj (append_fields done (on_wire_fields (json_fields fs))))
        ≡ some (obj (append_fields done (json_fields fs)))
  puts_back_fields done end a h = refl
  puts_back_fields done (field k v fs) a h =
      rw
        (
          puts-append (under_blobs k (blobs v)) (blobs_fields fs),
          apply-append,
          puts-under,
          apply-under_field (puts (blobs v)) k done (on_wire (json v))
              (on_wire_fields (json_fields fs)) a.0,
          puts_back v h.1,
        )
        (puts_fields_rest done k (json v) fs (
          puts_back_fields (append_fields done (field k (json v) end)) fs
            (IsApart-append k (json v) done fs h.0 a.1) h.2))
