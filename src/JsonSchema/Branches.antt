-- ===== src/JsonSchema/Branches.antt =====
-- The references of a branch to its definitions, behind the combination of schemas.
use orpc.Prelude.{
  ℕ, suc, ◌+◌, ◌≤◌, ◌<◌, true, Option, none, some, List, [], ◌∷◌, ◌++◌, ◌≡◌, refl, ap, ◌∙◌, arith,
  ◌==◌, length,
}
use orpc.JsonSchema.{
  Text, codes, text_eq, text_eq_refl, Json, null, boolean, number, string, array, object, Items,
  cons, Fields, end, get_own,
}
use orpc.JsonSchema.Pointer.{
  encode_json_pointer_segment, IsSegment, encode-IsSegment, decode-encode,
}
use orpc.JsonSchema.Naming.{decimal, decimal_neq}
use orpc.JsonSchema.Refs.{map_json_schema_refs, item_at, get}
use orpc.JsonSchema.Merging.{
  Merge, start, merge_defs, new_name_of, is_among, behind_prefix, split_at_slash, defs_prefix,
  map_def_ref, map_ref,
}
use orpc.JsonSchema.Resolving.{
  Extends, IsDistinct, IsSame, name_in, or_old, merge_defs-Extends, merge_defs-IsFound,
}
use orpc.JsonSchema.Paths.{combine-eq-combined, get_branch, get_def}
use orpc.JsonSchema.Combining.{
  Keyword, keyword_text, defs_of, rest_of, branch_prefix, branch_of, combine_from,
  combine_json_schemas_with_composition,
}

-- what may stand behind the name of a definition
abbrev pub IsTail : Text → Type 0
IsTail [] = Unit
IsTail (c ∷ s) = (c == b'/') ≡ true

-- a reference to a definition, or into it
abbrev pub def_ref : Text → Text → Text
def_ref name tail = defs_prefix ++ encode_json_pointer_segment name ++ tail

split_at_slash_segment :
    (s tail : Text) → IsSegment s → IsTail tail → split_at_slash (s ++ tail) ≡ (s, tail)
unfolding split_at_slash
split_at_slash_segment [] [] v h = refl
split_at_slash_segment [] (c ∷ tail) v h = rw h refl
split_at_slash_segment (c ∷ s) tail (v, w) h = rw (v, split_at_slash_segment s tail w h) refl

map_def_ref_lem :
    (s : Merge) (name tail : Text) (o : Option Text)
    → new_name_of s.rename_map name ≡ o
    → is_among s.promoted_names name ≡ true
    → map_def_ref s (def_ref name tail) (encode_json_pointer_segment name) tail
      ≡ def_ref (or_old name o) tail
map_def_ref_lem s name tail none e p = rw (decode-encode name, p, e) refl
map_def_ref_lem s name tail (some new) e p = rw (decode-encode name, p, e) refl

pub map_ref-def_ref :
    (prefix : Text) (body : Json) (s : Merge) (name tail : Text)
    → is_among s.promoted_names name ≡ true
    → IsTail tail
    → map_ref prefix body s (def_ref name tail) ≡ def_ref (name_in s name) tail
unfolding map_ref text_eq behind_prefix
map_ref-def_ref prefix body s name tail p h =
    ap (λ (q : Text × Text). map_def_ref s (def_ref name tail) q.0 q.1)
      (split_at_slash_segment (encode_json_pointer_segment name) tail (encode-IsSegment name) h)
    ∙ map_def_ref_lem s name tail (new_name_of s.rename_map name) refl p

pub combine_from-Extends :
    (keyword : Keyword) (i : ℕ) (m : Fields) (schemas : List Json)
    → Extends m (combine_from keyword i m schemas).0
unfolding combine_from
combine_from-Extends keyword i m [] k d h = h
combine_from-Extends keyword i m (object schema ∷ schemas) k d h =
    combine_from-Extends keyword (suc i) (merge_defs (start m) (defs_of schema)).merged_defs schemas
      k d (merge_defs-Extends (start m) (defs_of schema) k d h)
combine_from-Extends keyword i m (null ∷ schemas) k d h =
    combine_from-Extends keyword (suc i) m schemas k d h
combine_from-Extends keyword i m (boolean b ∷ schemas) k d h =
    combine_from-Extends keyword (suc i) m schemas k d h
combine_from-Extends keyword i m (number n ∷ schemas) k d h =
    combine_from-Extends keyword (suc i) m schemas k d h
combine_from-Extends keyword i m (string s ∷ schemas) k d h =
    combine_from-Extends keyword (suc i) m schemas k d h
combine_from-Extends keyword i m (array xs ∷ schemas) k d h =
    combine_from-Extends keyword (suc i) m schemas k d h

-- the merging at a branch behind the branches before it
abbrev pub merge_at : Keyword → ℕ → Fields → List Json → Fields → Merge
merge_at keyword i m front schema =
    merge_defs (start (combine_from keyword i m front).0) (defs_of schema)

later_item :
    {v : Json} (x : Json) (xs : Items) (i n : ℕ)
    → i < n
    → item_at xs (suc i) (decimal n) ≡ some v
    → item_at (cons x xs) i (decimal n) ≡ some v
unfolding item_at
later_item x xs i n lt h = rw (decimal_neq i n lt) h

first_item : (x : Json) (xs : Items) (i n : ℕ) → n ≡ i → item_at (cons x xs) i (decimal n) ≡ some x
unfolding item_at
first_item x xs i n e = rw (e, text_eq_refl (decimal i)) refl

module _ (keyword : Keyword) (schema : Fields) (back : List Json) where
  branch_at :
      (i : ℕ) (m : Fields) (front : List Json) (n : ℕ)
      → n ≡ length front + i
      → item_at (combine_from keyword i m (front ++ object schema ∷ back)).1 i (decimal n)
        ≡ some (branch_of (branch_prefix keyword n) schema (merge_at keyword i m front schema))
  unfolding combine_from
  branch_at i m [] n h =
      first_item (branch_of (branch_prefix keyword i) schema (merge_at keyword i m [] schema))
        (combine_from keyword (suc i) (merge_at keyword i m [] schema).merged_defs back).1 i n
        (omega (arith, h))
      ∙ ap
          (λ (k : ℕ).
            some (branch_of (branch_prefix keyword k) schema (merge_at keyword i m [] schema)))
          (omega (arith, h))
  branch_at i m (object s ∷ front) n h =
      later_item _ _ i n (omega arith)
        (branch_at (suc i) (merge_defs (start m) (defs_of s)).merged_defs front n (omega arith))
  branch_at i m (null ∷ front) n h =
      later_item _ _ i n (omega arith) (branch_at (suc i) m front n (omega arith))
  branch_at i m (boolean b ∷ front) n h =
      later_item _ _ i n (omega arith) (branch_at (suc i) m front n (omega arith))
  branch_at i m (number k ∷ front) n h =
      later_item _ _ i n (omega arith) (branch_at (suc i) m front n (omega arith))
  branch_at i m (string t ∷ front) n h =
      later_item _ _ i n (omega arith) (branch_at (suc i) m front n (omega arith))
  branch_at i m (array xs ∷ front) n h =
      later_item _ _ i n (omega arith) (branch_at (suc i) m front n (omega arith))

  defs_kept :
      (i : ℕ) (m : Fields) (front : List Json)
      → Extends
          (merge_at keyword i m front schema).merged_defs
          (combine_from keyword i m (front ++ object schema ∷ back)).0
  unfolding combine_from
  defs_kept i m [] k d h =
      combine_from-Extends keyword (suc i) (merge_at keyword i m [] schema).merged_defs back k d h
  defs_kept i m (object s ∷ front) k d h =
      defs_kept (suc i) (merge_defs (start m) (defs_of s)).merged_defs front k d h
  defs_kept i m (null ∷ front) k d h = defs_kept (suc i) m front k d h
  defs_kept i m (boolean b ∷ front) k d h = defs_kept (suc i) m front k d h
  defs_kept i m (number n ∷ front) k d h = defs_kept (suc i) m front k d h
  defs_kept i m (string t ∷ front) k d h = defs_kept (suc i) m front k d h
  defs_kept i m (array xs ∷ front) k d h = defs_kept (suc i) m front k d h

-- how the references of a branch are mapped, behind the branches before it
abbrev pub ref_map : Keyword → List Json → Fields → Text → Text
ref_map keyword front schema =
    map_ref (branch_prefix keyword (length front)) (object (rest_of schema))
      (merge_at keyword 0 end front schema)

-- If schemas are combined, two at least: the result has each object schema as the branch of its index,
-- without `$defs` and with its references mapped; and a reference of it to one of its definitions, or
-- into one, is mapped to the name by which the result has that definition, or one that is deeply equal.
pub branch_refs_resolve :
    (keyword : Keyword) (front : List Json) (schema : Fields) (back : List Json) (name tail : Text)
    (def : Json)
    → 2 ≤ length (front ++ object schema ∷ back)
    → IsDistinct (defs_of schema)
    → get_own (defs_of schema) name ≡ some def
    → IsTail tail
    → let result = combine_json_schemas_with_composition keyword (front ++ object schema ∷ back) in
      let f = ref_map keyword front schema in
      (get result (keyword_text keyword ∷ decimal (length front) ∷ [])
        ≡ some (map_json_schema_refs f true (object (rest_of schema))))
      × (new : Text) × (d : Json) × (f (def_ref name tail) ≡ def_ref new tail)
      × (get result (codes "$defs" ∷ new ∷ []) ≡ some d)
      × IsSame d def
unfolding new_name_of
branch_refs_resolve keyword front schema back name tail def two v h t =
    let schemas = front ++ object schema ∷ back in
    let loop = combine_from keyword 0 end schemas in
    let s = merge_at keyword 0 end front schema in
    let whole = combine-eq-combined keyword schemas two in
    let before = start (combine_from keyword 0 end front).0 in
    let found = merge_defs-IsFound before (defs_of schema) name def v refl h in
    let (d, e, same) = found.found in
    (
      ap (λ (j : Json). get j (keyword_text keyword ∷ decimal (length front) ∷ [])) whole
          ∙ get_branch keyword loop.0 loop.1 (length front)
              (branch_of (branch_prefix keyword (length front)) schema s)
              (branch_at keyword schema back 0 end front (length front) (omega arith)),
      name_in s name,
      d,
      map_ref-def_ref (branch_prefix keyword (length front)) (object (rest_of schema)) s name tail
          found.promoted t,
      ap (λ (j : Json). get j (codes "$defs" ∷ name_in s name ∷ [])) whole
          ∙ get_def keyword loop.0 loop.1 (name_in s name) d
              (defs_kept keyword schema back 0 end front (name_in s name) d e),
      same,
    )
