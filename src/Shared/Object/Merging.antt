-- ===== src/Shared/Object/Merging.antt =====
-- What a merged object holds at each key.
use orpc.Prelude.{String, Option, none, some, str_eq, if◌then◌else◌, ◌≡◌, refl, arith, eq_iff}
use orpc.Shared.Object.{
  Value, leaf, plain, Fields, end, field, get_field, set_field, spread, merge_key, merge_keys,
  merge_two_levels,
}

pub get_field-set_field :
    (fs : Fields) (k : String) (v : Value) (j : String)
    → get_field (set_field fs k v) j ≡ (if str_eq k j then some v else get_field fs j)
unfolding get_field set_field
get_field-set_field end k v j = refl
get_field-set_field (field i w fs) k v j =
    ground (arith, get_field-set_field fs k v j, eq_iff i k, eq_iff i j, eq_iff k j)

-- no key stands twice
abbrev pub IsDistinct : Fields → Type 0
IsDistinct end = Unit
IsDistinct (field k v fs) = (get_field fs k ≡ none) × IsDistinct fs

-- the second value if it is there, else the first
abbrev pub prefer : Option Value → Option Value → Option Value
prefer none a = a
prefer (some b) a = some b

pub get_field-spread :
    (first second : Fields) (j : String)
    → IsDistinct second
    → get_field (spread first second) j ≡ prefer (get_field second j) (get_field first j)
unfolding spread get_field
get_field-spread first end j h = refl
get_field-spread first (field k v second) j h = ground (
  arith,
  get_field-spread (set_field first k v) second j h.1,
  get_field-set_field first k v j,
  eq_iff k j,
  h.0,
)

-- two plain objects are spread, else the second value is taken
abbrev pub merged : Option Value → Option Value → Option Value
merged (some (plain a)) (some (plain b)) = some (plain (spread a b))
merged a b = prefer b a

-- two plain objects are spread, else `r` stays
abbrev overlaid : Option Value → Option Value → Option Value → Option Value
overlaid (some (plain a)) (some (plain b)) r = some (plain (spread a b))
overlaid a b r = r

get_field-merge_key :
    (first : Fields) (k : String) (v : Value) (result : Fields) (j : String)
    → get_field (merge_key first k v result) j ≡ (
        if str_eq k j
        then overlaid (get_field first k) (some v) (get_field result j)
        else get_field result j)
unfolding merge_key
get_field-merge_key first k (leaf n) result j = ground arith
get_field-merge_key first k (plain b) result j =
    elim (get_field first k)
      as (λ o.
        get_field
          (elim o [ some (plain fs) ↦ set_field result k (plain (spread fs b)) | _ ↦ result ]) j
        ≡ (if str_eq k j
            then overlaid o (some (plain b)) (get_field result j)
            else get_field result j)) [
              | none ↦ ground arith
              | some (leaf n) ↦ ground arith
              | some (plain a) ↦ get_field-set_field result k (plain (spread a b)) j
            ]

get_field-merge_keys :
    (first second result : Fields) (j : String)
    → IsDistinct second
    → get_field (merge_keys first second result) j
      ≡ overlaid (get_field first j) (get_field second j) (get_field result j)
unfolding merge_keys get_field
get_field-merge_keys first end result j h = ground arith
get_field-merge_keys first (field k v second) result j h = ground (
  arith,
  get_field-merge_keys first second (merge_key first k v result) j h.1,
  get_field-merge_key first k v result j,
  eq_iff k j,
  h.0,
)

-- The merge of two plain objects, the second without a key twice: a key that only one of them has
-- keeps its value; of a key that both have, two plain objects are spread over one another, and else
-- the second value is taken.
pub get_field-merge_two_levels :
    (first second : Fields) (j : String)
    → IsDistinct second
    → (fs : Fields) × (merge_two_levels (plain first) (plain second) ≡ plain fs)
      × (get_field fs j ≡ merged (get_field first j) (get_field second j))
unfolding merge_two_levels
get_field-merge_two_levels first second j h = (
  merge_keys first second (spread first second),
  refl,
  ground (
    arith,
    get_field-merge_keys first second (spread first second) j h,
    get_field-spread first second j h,
  ),
)
