-- ===== src/Shared/Object.antt =====
-- packages/shared/src/object.ts: `mergeTwoLevels`, on plain objects and other values.
pub mod Merging
mod Tests
use orpc.Prelude.{ℕ, String, Bool, true, false, Option, none, some, str_eq, if◌then◌else◌}

mutual
  -- a plain object, or any other value
  pub data Value : Type 0 where
    leaf : ℕ → Value
    plain : Fields → Value

  pub data Fields : Type 0 where
    end : Fields
    field : String → Value → Fields → Fields

abbrev pub is_plain_object : Value → Bool
is_plain_object (leaf n) = false
is_plain_object (plain fs) = true

unfoldable pub get_field : Fields → String → Option Value
get_field end k = none
get_field (field j v fs) k = if str_eq j k then some v else get_field fs k

unfoldable pub set_field : Fields → String → Value → Fields
set_field end k v = field k v end
set_field (field j w fs) k v =
    let later = set_field fs k v in if str_eq j k then field j v fs else field j w later

-- `{ ...first, ...second }`
unfoldable pub spread : Fields → Fields → Fields
unfolding set_field
spread first end = first
spread first (field k v second) = spread (set_field first k v) second

-- one round of the loop over the keys of the second object
unfoldable pub merge_key : Fields → String → Value → Fields → Fields
unfolding spread get_field
merge_key first k (leaf n) result = result
merge_key first k (plain second) result = elim (get_field first k) [
  | some (plain fs) ↦ set_field result k (plain (spread fs second))
  | _ ↦ result
]

unfoldable pub merge_keys : Fields → Fields → Fields → Fields
unfolding merge_key
merge_keys first end result = result
merge_keys first (field k v second) result = merge_keys first second (merge_key first k v result)

unfoldable pub merge_two_levels : Value → Value → Value
unfolding merge_keys
merge_two_levels (leaf n) v = v
merge_two_levels (plain first) (leaf n) = leaf n
merge_two_levels (plain first) (plain second) =
    plain (merge_keys first second (spread first second))
