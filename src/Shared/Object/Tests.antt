-- ===== src/Shared/Object/Tests.antt =====
-- `mergeTwoLevels` of packages/shared/src/object.ts on concrete objects.
use orpc.Prelude.{◌≡◌, refl}
use orpc.Shared.Object.{
  leaf, plain, Fields, end, field, get_field, set_field, spread, merge_key, merge_keys,
  merge_two_levels,
}
use orpc.Shared.Object.Merging.{merged, get_field-merge_two_levels}

abbrev first : Fields
first = field "a" (plain (field "x" (leaf 1) end)) (field "b" (leaf 2) end)

abbrev second : Fields
second = field "a" (plain (field "y" (leaf 3) end)) (field "b" (leaf 4) end)

merge_tests :
    merge_two_levels (plain first) (plain second)
    ≡ plain
        (field "a" (plain (field "x" (leaf 1) (field "y" (leaf 3) end))) (field "b" (leaf 4) end))
unfolding merge_two_levels merge_keys merge_key spread set_field get_field
merge_tests = refl

merge_two_levels_example :
    (fs : Fields) × (merge_two_levels (plain first) (plain second) ≡ plain fs)
    × (get_field fs "a" ≡ merged (get_field first "a") (get_field second "a"))
merge_two_levels_example =
    get_field-merge_two_levels first second "a" (unfold get_field in (refl, (refl, tt)))
