-- ===== src/JsonSchema/Entries.antt =====
-- `combineJsonObjectSchemaEntries` of packages/json-schema/src/composition-utils.ts.
use orpc.Prelude.{Bool, List, [], ◌∷◌, ◌++◌, if◌then◌else◌}
use orpc.JsonSchema.{
  Text, codes, Json, string, array, object, Items, nil, cons, Fields, end, field, set_own,
}
use orpc.JsonSchema.Pointer.{encode_json_pointer_segment}
use orpc.JsonSchema.Merging.{start, merge_defs}
use orpc.JsonSchema.Combining.{defs_of, branch_of, with_defs}

pub record Entry : Type 0 where
  pub name : Text
  pub schema : Json
  pub is_optional : Bool

-- what the loop has made so far
pub record Combined : Type 0 where
  pub properties : Fields
  pub required : List Text
  pub merged_defs : Fields

abbrev pub none_combined : Combined
none_combined = record { properties = end; required = []; merged_defs = end }

-- `#/properties/${name}`
abbrev pub property_prefix : Text → Text
property_prefix name = codes "#/properties/" ++ encode_json_pointer_segment name

abbrev pub require : List Text → Entry → List Text
require required e = if e.is_optional then required else required ++ e.name ∷ []

-- one turn of the loop over the entries
unfoldable pub put_property : Combined → List Text → Text → Json → Combined
put_property c required name (object schema) =
    let s = merge_defs (start c.merged_defs) (defs_of schema) in
    record {
      properties = set_own c.properties name (branch_of (property_prefix name) schema s);
      required = required;
      merged_defs = s.merged_defs;
    }
put_property c required name schema = record c {
  properties = set_own c.properties name schema;
  required = required;
}

unfoldable pub combine_entries : Combined → List Entry → Combined
unfolding put_property
combine_entries c [] = c
combine_entries c (e ∷ entries) =
    combine_entries (put_property c (require c.required e) e.name e.schema) entries

abbrev pub texts : List Text → Items
texts [] = nil
texts (s ∷ ss) = cons (string s) (texts ss)

-- `if (required.length > 0) schema.required = required`
abbrev pub with_required : List Text → Fields → Fields
with_required [] fs = fs
with_required (s ∷ ss) fs = field (codes "required") (array (texts (s ∷ ss))) fs

abbrev pub object_schema : Combined → Json
object_schema c = object (
    field (codes "type") (string (codes "object")) (
      field (codes "properties") (object c.properties)
        (with_required c.required (with_defs c.merged_defs))))

unfoldable pub combine_json_object_schema_entries : List Entry → Json
unfolding combine_entries
combine_json_object_schema_entries entries = object_schema (combine_entries none_combined entries)
