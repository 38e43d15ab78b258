-- ===== src/JsonSchema/Properties.antt =====
-- The properties of a combined object schema, and their references to definitions.
use orpc.Prelude.{Bool, true, false, some, List, [], ◌∷◌, ◌++◌, ◌≡◌, refl, ap, ◌∙◌, arith}
use orpc.JsonSchema.{
  Text, codes, text_eq, text_eq_refl, Json, null, boolean, number, string, array, object, Fields,
  end, field, get_own,
}
use orpc.JsonSchema.Refs.{map_json_schema_refs, get_key, get}
use orpc.JsonSchema.Merging.{Merge, start, merge_defs, new_name_of, map_ref}
use orpc.JsonSchema.Resolving.{
  Extends, IsDistinct, IsSame, name_in, get_own-set_own, merge_defs-Extends, merge_defs-IsFound,
}
use orpc.JsonSchema.Combining.{defs_of, rest_of, branch_of}
use orpc.JsonSchema.Paths.{get_at_key}
use orpc.JsonSchema.Branches.{IsTail, def_ref, map_ref-def_ref}
use orpc.JsonSchema.Entries.{
  Entry, Combined, none_combined, property_prefix, require, put_property, combine_entries,
  object_schema, combine_json_object_schema_entries,
}

-- no entry has the name
abbrev pub IsUnnamed : Text → List Entry → Type 0
IsUnnamed name [] = Unit
IsUnnamed name (e ∷ entries) = (text_eq e.name name ≡ false) × IsUnnamed name entries

combine_entries-append :
    (c : Combined) (front back : List Entry)
    → combine_entries c (front ++ back) ≡ combine_entries (combine_entries c front) back
unfolding combine_entries
combine_entries-append c [] back = refl
combine_entries-append c (e ∷ front) back =
    combine_entries-append (put_property c (require c.required e) e.name e.schema) front back

put_property-Extends :
    (c : Combined) (required : List Text) (name : Text) (schema : Json)
    → Extends c.merged_defs (put_property c required name schema).merged_defs
unfolding put_property
put_property-Extends c required name (object schema) k d h =
    merge_defs-Extends (start c.merged_defs) (defs_of schema) k d h
put_property-Extends c required name null k d h = h
put_property-Extends c required name (boolean b) k d h = h
put_property-Extends c required name (number n) k d h = h
put_property-Extends c required name (string s) k d h = h
put_property-Extends c required name (array xs) k d h = h

combine_entries-Extends :
    (c : Combined) (entries : List Entry)
    → Extends c.merged_defs (combine_entries c entries).merged_defs
unfolding combine_entries
combine_entries-Extends c [] k d h = h
combine_entries-Extends c (e ∷ entries) k d h =
    combine_entries-Extends (put_property c (require c.required e) e.name e.schema) entries k d
      (put_property-Extends c (require c.required e) e.name e.schema k d h)

put_property-other :
    (c : Combined) (required : List Text) (name other : Text) (schema : Json)
    → text_eq name other ≡ false
    → get_own (put_property c required name schema).properties other ≡ get_own c.properties other
unfolding put_property
put_property-other c required name other (object schema) h =
    get_own-set_own c.properties name
      (branch_of (property_prefix name) schema (merge_defs (start c.merged_defs) (defs_of schema)))
      other
    ∙ rw h refl
put_property-other c required name other null h =
    get_own-set_own c.properties name null other ∙ rw h refl
put_property-other c required name other (boolean b) h =
    get_own-set_own c.properties name (boolean b) other ∙ rw h refl
put_property-other c required name other (number n) h =
    get_own-set_own c.properties name (number n) other ∙ rw h refl
put_property-other c required name other (string s) h =
    get_own-set_own c.properties name (string s) other ∙ rw h refl
put_property-other c required name other (array xs) h =
    get_own-set_own c.properties name (array xs) other ∙ rw h refl

property_kept :
    (c : Combined) (entries : List Entry) (name : Text)
    → IsUnnamed name entries
    → get_own (combine_entries c entries).properties name ≡ get_own c.properties name
unfolding combine_entries
property_kept c [] name h = refl
property_kept c (e ∷ entries) name (h, k) =
    property_kept (put_property c (require c.required e) e.name e.schema) entries name k
    ∙ put_property-other c (require c.required e) e.name name e.schema h

-- the property of an object schema
put_property-own :
    (c : Combined) (required : List Text) (name : Text) (schema : Fields)
    → get_own (put_property c required name (object schema)).properties name
      ≡ some (
          branch_of
            (property_prefix name)
            schema
            (merge_defs (start c.merged_defs) (defs_of schema)))
unfolding put_property
put_property-own c required name schema =
    get_own-set_own c.properties name
      (branch_of (property_prefix name) schema (merge_defs (start c.merged_defs) (defs_of schema)))
      name
    ∙ rw (text_eq_refl name) refl

get_property :
    (c : Combined) (name : Text) (v : Json)
    → get_own c.properties name ≡ some v
    → get (object_schema c) (codes "properties" ∷ name ∷ []) ≡ some v
unfolding get get_own text_eq
get_property c name v h =
    get_at_key (object_schema c) (object c.properties) (codes "properties") (name ∷ []) refl
    ∙ get_at_key (object c.properties) v name [] h

object_defs :
    (c : Combined) (required : List Text) (merged : Fields) (name : Text) (d : Json)
    → c.required ≡ required
    → c.merged_defs ≡ merged
    → get_own merged name ≡ some d
    → get_key (object_schema c) (codes "$defs") ≡ some (object merged)
unfolding get_own text_eq
object_defs c required end name d e f h = ground arith
object_defs c [] (field k v fs) name d e f h = rw (e, f) refl
object_defs c (r ∷ required) (field k v fs) name d e f h = rw (e, f) refl

get_merged_def :
    (c : Combined) (name : Text) (d : Json)
    → get_own c.merged_defs name ≡ some d
    → get (object_schema c) (codes "$defs" ∷ name ∷ []) ≡ some d
unfolding get
get_merged_def c name d h =
    get_at_key (object_schema c) (object c.merged_defs) (codes "$defs") (name ∷ [])
      (object_defs c c.required c.merged_defs name d refl refl h)
    ∙ get_at_key (object c.merged_defs) d name [] h

-- the merging at an entry behind the entries before it
abbrev pub merge_entry : List Entry → Fields → Merge
merge_entry front schema =
    merge_defs (start (combine_entries none_combined front).merged_defs) (defs_of schema)

abbrev pub entry_ref_map : List Entry → Text → Fields → Text → Text
entry_ref_map front name schema =
    map_ref (property_prefix name) (object (rest_of schema)) (merge_entry front schema)

-- If no later entry has the name of an entry: the combined schema has the entry's object schema as the
-- property of that name, without `$defs` and with its references mapped; and a reference of it to one
-- of its definitions, or into one, is mapped to the name by which the combined schema has that
-- definition, or one that is deeply equal.
pub property_refs_resolve :
    (front : List Entry) (name : Text) (schema : Fields) (is_optional : Bool) (back : List Entry)
    (def_name tail : Text) (def : Json)
    → IsUnnamed name back
    → IsDistinct (defs_of schema)
    → get_own (defs_of schema) def_name ≡ some def
    → IsTail tail
    → let entry : Entry = record {
      name = name;
      schema = object schema;
      is_optional = is_optional;
    } in
      let result = combine_json_object_schema_entries (front ++ entry ∷ back) in
      let f = entry_ref_map front name schema in
      (get result (codes "properties" ∷ name ∷ [])
        ≡ some (map_json_schema_refs f true (object (rest_of schema))))
      × (new : Text) × (d : Json) × (f (def_ref def_name tail) ≡ def_ref new tail)
      × (get result (codes "$defs" ∷ new ∷ []) ≡ some d)
      × IsSame d def
unfolding combine_json_object_schema_entries combine_entries new_name_of put_property
property_refs_resolve front name schema is_optional back def_name tail def u v h t =
    let entry : Entry = record { name = name; schema = object schema; is_optional = is_optional } in
    let before = combine_entries none_combined front in
    let required = require before.required entry in
    let at_entry = put_property before required name (object schema) in
    let last = combine_entries at_entry back in
    let s = merge_entry front schema in
    let whole = ap object_schema (combine_entries-append none_combined front (entry ∷ back)) in
    let found =
      merge_defs-IsFound (start before.merged_defs) (defs_of schema) def_name def v refl h in
    let (d, e, same) = found.found in
    (
      ap (λ (j : Json). get j (codes "properties" ∷ name ∷ [])) whole
          ∙ get_property last name (branch_of (property_prefix name) schema s)
              (property_kept at_entry back name u ∙ put_property-own before required name schema),
      name_in s def_name,
      d,
      map_ref-def_ref (property_prefix name) (object (rest_of schema)) s def_name tail
          found.promoted t,
      ap (λ (j : Json). get j (codes "$defs" ∷ name_in s def_name ∷ [])) whole
          ∙ get_merged_def last (name_in s def_name) d
              (combine_entries-Extends at_entry back (name_in s def_name) d e),
      same,
    )
