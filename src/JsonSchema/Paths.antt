-- ===== src/JsonSchema/Paths.antt =====
-- What stands where in the result of `combineJsonSchemasWithComposition`.
use orpc.Prelude.{ℕ, ◌≤◌, some, List, [], ◌∷◌, ◌≡◌, refl, ◌∙◌, arith, length}
use orpc.JsonSchema.{Text, codes, text_eq, Json, array, object, Items, Fields, end, field, get_own}
use orpc.JsonSchema.Naming.{decimal, decimal_neq_length}
use orpc.JsonSchema.Refs.{item_at, get_key, get}
use orpc.JsonSchema.Combining.{
  Keyword, all_of, any_of, one_of, keyword_text, combine_from, with_defs,
  combine_json_schemas_with_composition,
}

-- the result of the combination, from what the loop makes
abbrev pub combined : Keyword → Fields → Items → Json
combined keyword merged branches =
    object (field (keyword_text keyword) (array branches) (with_defs merged))

pub combine-eq-combined :
    (keyword : Keyword) (schemas : List Json)
    → 2 ≤ length schemas
    → combine_json_schemas_with_composition keyword schemas
      ≡ combined keyword
          (combine_from keyword 0 end schemas).0
          (combine_from keyword 0 end schemas).1
unfolding combine_json_schemas_with_composition
combine-eq-combined keyword [] h = absurd (omega arith)
combine-eq-combined keyword (s ∷ []) h = absurd (omega arith)
combine-eq-combined keyword (s ∷ t ∷ schemas) h = refl

array_key :
    (xs : Items) (n : ℕ) (v : Json)
    → item_at xs 0 (decimal n) ≡ some v
    → get_key (array xs) (decimal n) ≡ some v
array_key xs n v h = rw (decimal_neq_length n) h

pub get_at_key :
    (v w : Json) (key : Text) (path : List Text)
    → get_key v key ≡ some w
    → get v (key ∷ path) ≡ get w path
unfolding get
get_at_key v w key path h = rw (get, h) refl

keyword_branches :
    (keyword : Keyword) (merged : Fields) (branches : Items)
    → get_key (combined keyword merged branches) (keyword_text keyword) ≡ some (array branches)
unfolding get_own text_eq
keyword_branches all_of merged branches = refl
keyword_branches any_of merged branches = refl
keyword_branches one_of merged branches = refl

pub get_branch :
    (keyword : Keyword) (merged : Fields) (branches : Items) (n : ℕ) (v : Json)
    → item_at branches 0 (decimal n) ≡ some v
    → get (combined keyword merged branches) (keyword_text keyword ∷ decimal n ∷ []) ≡ some v
unfolding get
get_branch keyword merged branches n v h =
    get_at_key (combined keyword merged branches) (array branches) (keyword_text keyword)
      (decimal n ∷ []) (keyword_branches keyword merged branches)
    ∙ get_at_key (array branches) v (decimal n) [] (array_key branches n v h)

keyword_defs :
    (keyword : Keyword) (merged : Fields) (branches : Items) (name : Text) (d : Json)
    → get_own merged name ≡ some d
    → get_key (combined keyword merged branches) (codes "$defs") ≡ some (object merged)
unfolding get_own text_eq
keyword_defs keyword end branches name d h = ground arith
keyword_defs all_of (field k v fs) branches name d h = refl
keyword_defs any_of (field k v fs) branches name d h = refl
keyword_defs one_of (field k v fs) branches name d h = refl

pub get_def :
    (keyword : Keyword) (merged : Fields) (branches : Items) (name : Text) (d : Json)
    → get_own merged name ≡ some d
    → get (combined keyword merged branches) (codes "$defs" ∷ name ∷ []) ≡ some d
unfolding get
get_def keyword merged branches name d h =
    get_at_key (combined keyword merged branches) (object merged) (codes "$defs") (name ∷ [])
      (keyword_defs keyword merged branches name d h)
    ∙ get_at_key (object merged) d name [] h
