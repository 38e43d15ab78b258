-- ===== src/Openapi/BracketPath/Tests.antt =====
-- Paths of packages/openapi/src/bracket-notation.ts on concrete segments.
use orpc.Prelude.{List, true, [], ◌∷◌, ◌≡◌, refl}
use orpc.Openapi.BracketPath.{Text, stringify_path, stringify_rest, parse_path, parse_loop}
use orpc.Openapi.BracketPath.Parsing.{parse-stringify}
use orpc.Openapi.BracketPath.Entries.{
  Entry, leaf, arr, obj, nil, cons, Fields, end, field, serialize, internal_serialize, leaves,
  decimal,
}
use orpc.Openapi.BracketPath.Tree.{
  Properties, precedes, value, array, object, no_slots, slot, no_properties, property, text_eq,
  number, internal_is_valid_array_index, get_slot, set_slot, get_property, set_property,
  internal_array_to_object, internal_push_style_array_to_object, coerce, assign, insert,
  deserialize_onto, deserialize,
}
use orpc.Openapi.BracketPath.Flat.{find, other_paths, deserialize-flat}
use orpc.Openapi.BracketPath.Order.{IsOrdered, other_keys}
use orpc.Openapi.BracketPath.ParseBack.{HasUnbrokenKeys, parsed_entries, parse-serialize}

-- "user"
abbrev user : Text
user = 117 ∷ 115 ∷ 101 ∷ 114 ∷ []

-- "a]["
abbrev broken : Text
broken = 97 ∷ 93 ∷ 91 ∷ []

-- "a]"
abbrev closing : Text
closing = 97 ∷ 93 ∷ []

paths : Unit {0}
unfolding stringify_path stringify_rest parse_path parse_loop
paths = tt

-- "user[a]][]" parses back; a segment "a][" splits in two; a text that is no path is one segment
path_tests :
    (parse_path (stringify_path (user ∷ closing ∷ [] ∷ [])) ≡ user ∷ closing ∷ [] ∷ [])
    × (parse_path (stringify_path (user ∷ broken ∷ [])) ≡ user ∷ (97 ∷ []) ∷ [] ∷ [])
    × (parse_path (97 ∷ 91 ∷ 98 ∷ []) ≡ (97 ∷ 91 ∷ 98 ∷ []) ∷ [])
unfolding paths
path_tests = (refl, refl, refl)

parse-stringify_example :
    parse_path (stringify_path (user ∷ closing ∷ [] ∷ [])) ≡ user ∷ closing ∷ [] ∷ []
parse-stringify_example = parse-stringify user (closing ∷ [] ∷ []) refl (refl, (refl, tt))

-- { user: [5, 6], "a]": 7 }
abbrev fields : Fields
fields = field user (arr (cons (leaf 5) (cons (leaf 6) nil))) (field closing (leaf 7) end)

-- "user[0]", "user[1]" and "a]"
entry_tests :
    serialize (obj fields)
    ≡ (117 ∷ 115 ∷ 101 ∷ 114 ∷ 91 ∷ 48 ∷ 93 ∷ [], 5)
      ∷ (117 ∷ 115 ∷ 101 ∷ 114 ∷ 91 ∷ 49 ∷ 93 ∷ [], 6)
      ∷ (closing, 7)
      ∷ []
unfolding serialize internal_serialize decimal
entry_tests = refl

parse-serialize_example :
    (parsed_entries (serialize (arr (cons (leaf 5) nil))) ≡ leaves (arr (cons (leaf 5) nil)))
    × (parsed_entries (serialize (obj fields)) ≡ leaves (obj fields))
parse-serialize_example =
    parse-serialize (cons (leaf 5) nil) fields (unfold HasUnbrokenKeys in (tt, tt))
      (unfold HasUnbrokenKeys in (refl, (tt, (tt, tt)), (refl, tt, tt))) (refl, (refl, tt))

trees : Unit {0}
unfolding precedes text_eq number internal_is_valid_array_index get_slot set_slot get_property
    set_property internal_array_to_object internal_push_style_array_to_object coerce assign insert
    deserialize_onto deserialize parse_path parse_loop decimal
trees = tt

-- "a[]", "a[0]", "a[b]" and "a[0][b]"
abbrev push_path : Text
push_path = 97 ∷ 91 ∷ 93 ∷ []

abbrev zero_path : Text
zero_path = 97 ∷ 91 ∷ 48 ∷ 93 ∷ []

abbrev key_path : Text
key_path = 97 ∷ 91 ∷ 98 ∷ 93 ∷ []

abbrev deep_path : Text
deep_path = 97 ∷ 91 ∷ 48 ∷ 93 ∷ 91 ∷ 98 ∷ 93 ∷ []

-- two pushes; an index, then a key; and a push that a deeper path writes over
tree_tests :
    (deserialize 999 ((push_path, 1) ∷ (push_path, 2) ∷ [])
      ≡ object (
          property
            (97 ∷ [])
            (array true (slot 0 (value 1) (slot 1 (value 2) no_slots)))
            no_properties))
    × (deserialize 999 ((zero_path, 1) ∷ (key_path, 2) ∷ [])
        ≡ object (
            property
              (97 ∷ [])
              (object (property (48 ∷ []) (value 1) (property (98 ∷ []) (value 2) no_properties)))
              no_properties))
    × (deserialize 999 ((push_path, 1) ∷ (deep_path, 2) ∷ [])
        ≡ object (
            property
              (97 ∷ [])
              (array true (slot 0 (object (property (98 ∷ []) (value 2) no_properties)) no_slots))
              no_properties))
unfolding trees
tree_tests = (refl, refl, refl)

-- "2", "user", "1" and "": the indices come first
abbrev mixed : List Entry
mixed = (50 ∷ [], 1) ∷ (user, 2) ∷ (49 ∷ [], 3) ∷ ([], 4) ∷ []

order_test :
    deserialize 999 mixed
    ≡ object (
        property (49 ∷ []) (value 3) (
          property
            (50 ∷ [])
            (value 1)
            (property user (value 2) (property [] (value 4) no_properties))))
unfolding trees
order_test = refl

deserialize-flat_example :
    (ps : Properties) × (deserialize 999 mixed ≡ object ps)
    × ((k : Text) → get_property ps k ≡ find mixed k)
    × IsOrdered ps
    × (other_keys ps ≡ other_paths mixed)
deserialize-flat_example = deserialize-flat 999 mixed (
    unfold text_eq in
    (
      refl,
      (refl, (refl, (refl, tt))),
      (refl, (refl, (refl, tt)), (refl, (refl, tt), (refl, tt, tt))),
    ))
