-- ===== src/JsonSchema/Refs.antt =====
-- `mapJsonSchemaRefs` of packages/json-schema/src/ref-utils.ts, with the keywords of constants.ts, and
-- `get` of packages/shared/src/object.ts. Schemas are trees, and the path that the mapping is given
-- besides is left out: no caller that is modelled reads it.
use orpc.Prelude.{
  ℕ, suc, String, Bool, true, false, Option, none, some, List, [], ◌∷◌, ◌||◌, not, if◌then◌else◌,
}
use orpc.JsonSchema.{
  Text, codes, text_eq, Json, number, string, array, object, Items, nil, cons, Fields, end, field,
  get_own, count_items,
}
use orpc.JsonSchema.Naming.{decimal}

abbrev pub is_one_of : Text → List String → Bool
is_one_of key [] = false
is_one_of key (word ∷ words) = text_eq key (codes word) || is_one_of key words

abbrev pub is_record_keyword : Text → Bool
is_record_keyword key =
    is_one_of key
      ("properties" ∷ "patternProperties" ∷ "dependentSchemas" ∷ "dependencies" ∷ "$defs" ∷ [])

abbrev pub is_logic_keyword : Text → Bool
is_logic_keyword key = is_one_of key (
    "$dynamicRef" ∷ "$ref" ∷ "additionalItems" ∷ "additionalProperties" ∷ "allOf" ∷ "anyOf"
    ∷ "const" ∷ "contains" ∷ "contentEncoding" ∷ "contentMediaType" ∷ "contentSchema"
    ∷ "dependencies" ∷ "dependentRequired" ∷ "dependentSchemas" ∷ "else" ∷ "enum"
    ∷ "exclusiveMaximum" ∷ "exclusiveMinimum" ∷ "format" ∷ "if" ∷ "items" ∷ "maxContains"
    ∷ "maximum" ∷ "maxItems" ∷ "maxLength" ∷ "maxProperties" ∷ "minContains" ∷ "minimum"
    ∷ "minItems" ∷ "minLength" ∷ "minProperties" ∷ "multipleOf" ∷ "not" ∷ "oneOf" ∷ "pattern"
    ∷ "patternProperties" ∷ "prefixItems" ∷ "properties" ∷ "propertyNames" ∷ "required" ∷ "then"
    ∷ "type" ∷ "unevaluatedItems" ∷ "unevaluatedProperties" ∷ "uniqueItems" ∷ [])

abbrev pub is_ref_keyword : Text → Bool
is_ref_keyword key = text_eq key (codes "$ref")

-- what is done with the value of a key: `$ref` itself is looked at first
pub data Walk : Type 0 where
  ref : Text → Walk
  -- whether the value is a schema, not a record of schemas
  into : Bool → Walk
  keep : Walk

abbrev pub walk_keyword : Bool → Text → Walk
walk_keyword schema_level key =
    if not schema_level
    then into true
    else if is_logic_keyword key || is_record_keyword key
    then into (not (is_record_keyword key))
    else keep

unfoldable pub walk_of : Bool → Text → Json → Walk
walk_of schema_level key (string s) =
    if is_ref_keyword key then ref s else walk_keyword schema_level key
walk_of schema_level key _ = walk_keyword schema_level key

module _ (f : Text → Text) where
  unfoldable mutual
    pub map_json_schema_refs : Bool → Json → Json
    map_json_schema_refs level (array xs) = array (map_items level xs)
    map_json_schema_refs level (object fs) = object (map_fields level fs)
    map_json_schema_refs level v = v

    pub map_items : Bool → Items → Items
    map_items level nil = nil
    map_items level (cons x xs) = cons (map_json_schema_refs level x) (map_items level xs)

    pub map_fields : Bool → Fields → Fields
    map_fields level end = end
    map_fields level (field k v fs) = elim (walk_of level k v) [
      | ref s ↦ field k (string (f s)) (map_fields level fs)
      | into inner ↦ field k (map_json_schema_refs inner v) (map_fields level fs)
      | keep ↦ field k v (map_fields level fs)
    ]

-- the own keys of an array are its indices and `length`
unfoldable pub item_at : Items → ℕ → Text → Option Json
item_at nil i key = none
item_at (cons x xs) i key =
    let later = item_at xs (suc i) key in if text_eq (decimal i) key then some x else later

abbrev pub get_key : Json → Text → Option Json
get_key (object fs) key = get_own fs key
get_key (array xs) key =
    if text_eq key (codes "length") then some (number (count_items xs)) else item_at xs 0 key
get_key _ key = none

unfoldable pub get : Json → List Text → Option Json
get v [] = some v
get v (key ∷ path) = elim (get_key v key) [ none ↦ none | some w ↦ get w path ]
