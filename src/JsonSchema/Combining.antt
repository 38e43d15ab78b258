-- ===== src/JsonSchema/Combining.antt =====
-- `combineJsonSchemasWithComposition` of packages/json-schema/src/composition-utils.ts, as a whole.
use orpc.Prelude.{ℕ, suc, true, Option, some, List, [], ◌∷◌, ◌++◌, if◌then◌else◌}
use orpc.JsonSchema.{
  Text, codes, text_eq, Json, boolean, array, object, Items, nil, cons, Fields, end, field, get_own,
}
use orpc.JsonSchema.Naming.{decimal}
use orpc.JsonSchema.Refs.{map_json_schema_refs}
use orpc.JsonSchema.Merging.{Merge, start, merge_defs, map_ref}

pub data Keyword : Type 0 where
  all_of any_of one_of : Keyword

abbrev pub keyword_text : Keyword → Text
keyword_text all_of = codes "allOf"
keyword_text any_of = codes "anyOf"
keyword_text one_of = codes "oneOf"

-- `const { $defs, ...rest } = schema`
abbrev pub entries_of : Option Json → Fields
entries_of (some (object defs)) = defs
entries_of _ = end

abbrev pub defs_of : Fields → Fields
defs_of schema = entries_of (get_own schema (codes "$defs"))

unfoldable pub rest_of : Fields → Fields
rest_of end = end
rest_of (field k v fs) =
    let later = rest_of fs in if text_eq k (codes "$defs") then later else field k v later

-- `#/${keyword}/${i}`
abbrev pub branch_prefix : Keyword → ℕ → Text
branch_prefix keyword i = codes "#/" ++ keyword_text keyword ++ b'/' ∷ decimal i

abbrev pub branch_of : Text → Fields → Merge → Json
branch_of prefix schema s =
    map_json_schema_refs (map_ref prefix (object (rest_of schema)) s) true (object (rest_of schema))

-- the loop over the schemas, from an index and the definitions merged before it
unfoldable pub combine_from : Keyword → ℕ → Fields → List Json → Fields × Items
combine_from keyword i merged [] = (merged, nil)
combine_from keyword i merged (object schema ∷ schemas) =
    let s = merge_defs (start merged) (defs_of schema) in
    let (all_merged, branches) = combine_from keyword (suc i) s.merged_defs schemas in
    (all_merged, cons (branch_of (branch_prefix keyword i) schema s) branches)
combine_from keyword i merged (schema ∷ schemas) =
    let (all_merged, branches) = combine_from keyword (suc i) merged schemas in
    (all_merged, cons schema branches)

-- `if (Object.keys(mergedDefs).length > 0) result.$defs = mergedDefs`
abbrev pub with_defs : Fields → Fields
with_defs end = end
with_defs merged = field (codes "$defs") (object merged) end

unfoldable pub combine_json_schemas_with_composition : Keyword → List Json → Json
unfolding combine_from
combine_json_schemas_with_composition keyword [] = boolean true
combine_json_schemas_with_composition keyword (schema ∷ []) = schema
combine_json_schemas_with_composition keyword (schema ∷ other ∷ schemas) =
    let (merged, branches) = combine_from keyword 0 end (schema ∷ other ∷ schemas) in
    object (field (keyword_text keyword) (array branches) (with_defs merged))
