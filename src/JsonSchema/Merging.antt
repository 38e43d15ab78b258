-- ===== src/JsonSchema/Merging.antt =====
-- `combineJsonSchemasWithComposition` and `combineJsonObjectSchemaEntries` of
-- packages/json-schema/src/composition-utils.ts: the `$defs` of the branches are merged under new names,
-- and the references of a branch are mapped. Both functions do this in the same way.
use orpc.Prelude.{
  ℕ, suc, Bool, false, Option, none, some, List, [], ◌∷◌, ◌++◌, ◌==◌, ◌||◌, not, if◌then◌else◌, map,
}
use orpc.Prelude.JsMap.{is_some}
use orpc.JsonSchema.{
  Text, codes, text_eq, Json, Fields, end, field, size, get_own, set_own, is_deep_equal,
}
use orpc.JsonSchema.Pointer.{encode_json_pointer_segment, decode_json_pointer_segment}
use orpc.JsonSchema.Naming.{fresh_name}
use orpc.JsonSchema.Refs.{get}

-- the merged definitions, and what is kept of a branch
pub record Merge : Type 0 where
  pub merged_defs : Fields
  pub rename_map : List (Text × Text)
  pub promoted_names : List Text

abbrev pub start : Fields → Merge
start merged = record { merged_defs = merged; rename_map = []; promoted_names = [] }

unfoldable pub new_name_of : List (Text × Text) → Text → Option Text
new_name_of [] name = none
new_name_of ((old, new) ∷ renames) name =
    let later = new_name_of renames name in if text_eq old name then some new else later

unfoldable pub is_among : List Text → Text → Bool
is_among [] name = false
is_among (n ∷ names) name = text_eq n name || is_among names name

abbrev pub promote : Merge → Text → Merge
promote s name = record s { promoted_names = name ∷ s.promoted_names }

abbrev pub define : Merge → Text → Json → Merge
define s name def = record s { merged_defs = set_own s.merged_defs name def }

-- one name above the definitions is enough to find a free one
abbrev pub free_name : Fields → Text → Text
free_name merged name = fresh_name (suc (size merged)) merged name 2

abbrev pub rename : Merge → Text → Text → Merge
rename s name new = record s { rename_map = (name, new) ∷ s.rename_map }

-- one turn of the loop over the entries of `$defs`
unfoldable pub merge_def : Merge → Text → Json → Merge
merge_def s name def = elim (get_own s.merged_defs name) [
  | none ↦ define (promote s name) name def
  | some d ↦
      if is_deep_equal d def
      then promote s name
      else rename (define (promote s name) (free_name s.merged_defs name) def) name
          (free_name s.merged_defs name)
]

unfoldable pub merge_defs : Merge → Fields → Merge
unfolding merge_def
merge_defs s end = s
merge_defs s (field name def defs) = merge_defs (merge_def s name def) defs

-- `ref.startsWith(prefix)`, and what is behind the prefix
unfoldable pub behind_prefix : Text → Text → Option Text
behind_prefix [] s = some s
behind_prefix (c ∷ p) [] = none
behind_prefix (c ∷ p) (d ∷ s) = let later = behind_prefix p s in if c == d then later else none

-- the text up to the first slash, and the text from it on
unfoldable pub split_at_slash : Text → Text × Text
split_at_slash [] = ([], [])
split_at_slash (c ∷ s) =
    let (segment, rest) = split_at_slash s in if c == b'/' then ([], c ∷ s) else (c ∷ segment, rest)

-- `s.split('/')`
abbrev pub put_first : ℕ → List Text → List Text
put_first c [] = (c ∷ []) ∷ []
put_first c (s ∷ ss) = (c ∷ s) ∷ ss

unfoldable pub split_slashes : Text → List Text
split_slashes [] = [] ∷ []
split_slashes (c ∷ s) =
    let later = split_slashes s in if c == b'/' then [] ∷ later else put_first c later

abbrev pub defs_prefix : Text
defs_prefix = codes "#/$defs/"

-- a reference to a definition
abbrev pub map_def_ref : Merge → Text → Text → Text → Text
map_def_ref s ref segment rest =
    if not (is_among s.promoted_names (decode_json_pointer_segment segment))
    then ref
    else elim (new_name_of s.rename_map (decode_json_pointer_segment segment)) [
      | none ↦ ref
      | some new ↦ defs_prefix ++ encode_json_pointer_segment new ++ rest
    ]

-- a reference into the branch itself
abbrev pub map_own_ref : Text → Json → Text → Text
map_own_ref prefix body ref = elim (behind_prefix (codes "#/") ref) [
  | none ↦ ref
  | some pointer ↦
      if is_some (get body (map decode_json_pointer_segment (split_slashes pointer)))
      then prefix ++ b'/' ∷ pointer
      else ref
]

-- The mapping of references, where the branch comes to stand at `prefix`.
unfoldable pub map_ref : Text → Json → Merge → Text → Text
map_ref prefix body s ref =
    if text_eq ref (codes "#") then prefix else elim (behind_prefix defs_prefix ref) [
      | some after ↦ map_def_ref s ref (split_at_slash after).0 (split_at_slash after).1
      | none ↦ map_own_ref prefix body ref
    ]
