-- ===== src/JsonSchema/Tests.antt =====
-- Schemas with definitions of the same names.
use orpc.Prelude.{Bool, true, false, some, List, [], ◌∷◌, ◌++◌, ◌≡◌, refl, arith}
use orpc.JsonSchema.{
  Text, codes, text_eq, Json, string, array, object, nil, cons, Fields, end, field, get_own,
  set_own, is_deep_equal,
}
use orpc.JsonSchema.Pointer.{encode_json_pointer_segment, decode_json_pointer_segment}
use orpc.JsonSchema.Naming.{decimal, decimal_digits, fresh_name}
use orpc.JsonSchema.Refs.{item_at, walk_of, map_json_schema_refs, get}
use orpc.JsonSchema.Merging.{
  merge_defs, map_ref, behind_prefix, is_among, split_at_slash, new_name_of,
}
use orpc.JsonSchema.Resolving.{IsSame}
use orpc.JsonSchema.Combining.{any_of, rest_of, combine_json_schemas_with_composition}
use orpc.JsonSchema.Entries.{Entry, combine_json_object_schema_entries}
use orpc.JsonSchema.Properties.{entry_ref_map, property_refs_resolve}
use orpc.JsonSchema.Branches.{def_ref, ref_map, branch_refs_resolve}

abbrev at : Text → Json → Fields
at key v = field key v end

abbrev ref_to : Text → Json
ref_to name = object (at (codes "$ref") (string (codes "#/$defs/" ++ name)))

abbrev typed : Text → Json
typed type = object (at (codes "type") (string type))

-- a definition that refers to itself
abbrev node : Text → Json
node type =
    object (field (codes "type") (string type) (field (codes "items") (ref_to (codes "Node")) end))

abbrev branch : Json → Fields
branch def =
    field (codes "$ref") (string (codes "#/$defs/Node/items"))
      (field (codes "$defs") (object (at (codes "Node") def)) end)

encoded : encode_json_pointer_segment (codes "a/b~1") ≡ codes "a~1b~01"
unfolding encode_json_pointer_segment
encoded = refl

abbrev first : List Json
first = object (branch (typed (codes "list"))) ∷ []

abbrev second : Fields
second = branch (node (codes "array"))

abbrev lists : List Json
lists = first ++ object second ∷ []

-- The second `Node` is renamed, and the reference of its branch; the one inside it is not, and now
-- means the first.
second_renamed :
    combine_json_schemas_with_composition any_of lists
    ≡ object (
        field
          (codes "anyOf")
          (array (
            cons
              (object (at (codes "$ref") (string (codes "#/$defs/Node/items"))))
              (cons (object (at (codes "$ref") (string (codes "#/$defs/Node2/items")))) nil)))
          (field
            (codes "$defs")
            (object (
              field
                (codes "Node")
                (typed (codes "list"))
                (field (codes "Node2") (node (codes "array")) end)))
            end))
unfolding combine_json_schemas_with_composition encode_json_pointer_segment
    decode_json_pointer_segment map_json_schema_refs merge_defs rest_of get_own text_eq walk_of
    set_own map_ref is_deep_equal behind_prefix fresh_name is_among decimal_digits split_at_slash
    new_name_of
second_renamed = refl

branch_refs_resolve_example :
    (get (combine_json_schemas_with_composition any_of lists) (codes "anyOf" ∷ decimal 1 ∷ [])
      ≡ some (map_json_schema_refs (ref_map any_of first second) true (object (rest_of second))))
    × (new : Text) × (d : Json) × (ref_map any_of first second
          (def_ref (codes "Node") (codes "/items"))
        ≡ def_ref new (codes "/items"))
    × (get (combine_json_schemas_with_composition any_of lists) (codes "$defs" ∷ new ∷ []) ≡ some d)
    × IsSame d (node (codes "array"))
unfolding get_own text_eq
branch_refs_resolve_example =
    branch_refs_resolve any_of first second [] (codes "Node") (codes "/items")
      (node (codes "array")) (omega arith) (refl, tt) refl refl

abbrev entry : Text → Fields → Bool → Entry
entry name schema is_optional = record {
  name = name;
  schema = object schema;
  is_optional = is_optional;
}

abbrev entries : List Entry
entries =
    entry (codes "a") (branch (typed (codes "list"))) true
    ∷ entry (codes "b") second false
    ∷ entry (codes "c") second false
    ∷ []

abbrev before_b : List Entry
before_b = entry (codes "a") (branch (typed (codes "list"))) true ∷ []

-- A definition is compared with the one of its own name alone, so an equal third one is renamed again.
required_and_defs :
    (get (combine_json_object_schema_entries entries) (codes "required" ∷ codes "1" ∷ [])
      ≡ some (string (codes "c")))
    × (get (combine_json_object_schema_entries entries) (codes "$defs" ∷ codes "Node3" ∷ [])
        ≡ some (node (codes "array")))
unfolding combine_json_object_schema_entries get item_at encode_json_pointer_segment
    decode_json_pointer_segment map_json_schema_refs merge_defs rest_of get_own text_eq walk_of
    set_own map_ref is_deep_equal behind_prefix fresh_name is_among decimal_digits split_at_slash
    new_name_of
required_and_defs = (refl, refl)

property_refs_resolve_example :
    (get (combine_json_object_schema_entries entries) (codes "properties" ∷ codes "b" ∷ [])
      ≡ some (
          map_json_schema_refs
            (entry_ref_map before_b (codes "b") second)
            true
            (object (rest_of second))))
    × (new : Text) × (d : Json) × (entry_ref_map before_b
          (codes "b")
          second
          (def_ref (codes "Node") (codes "/items"))
        ≡ def_ref new (codes "/items"))
    × (get (combine_json_object_schema_entries entries) (codes "$defs" ∷ new ∷ []) ≡ some d)
    × IsSame d (node (codes "array"))
unfolding get_own text_eq
property_refs_resolve_example =
    property_refs_resolve before_b (codes "b") second false (entry (codes "c") second false ∷ [])
      (codes "Node") (codes "/items") (node (codes "array")) (refl, tt) (refl, tt) refl refl
