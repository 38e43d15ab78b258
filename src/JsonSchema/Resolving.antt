-- ===== src/JsonSchema/Resolving.antt =====
-- The definitions of a branch are found under their new names.
use orpc.Prelude.{
  suc, true, false, Option, none, some, ◌≡◌, ◌⊎◌, inl, inr, refl, subst, ap, ◌∙◌, arith,
  if◌then◌else◌, Bool-cases,
}
use orpc.JsonSchema.{
  Text, text_eq, text_eq_iff, text_eq_refl, Json, Fields, end, field, size, get_own, set_own,
  is_deep_equal,
}
use orpc.JsonSchema.Naming.{fresh_name_free}
use orpc.JsonSchema.Merging.{
  Merge, new_name_of, is_among, promote, define, free_name, rename, merge_def, merge_defs,
}

pub get_own-set_own :
    (fs : Fields) (k : Text) (v : Json) (j : Text)
    → get_own (set_own fs k v) j ≡ (if text_eq k j then some v else get_own fs j)
unfolding get_own set_own
get_own-set_own end k v j = refl
get_own-set_own (field i w fs) k v j =
    ground (arith, get_own-set_own fs k v j, text_eq_iff i k, text_eq_iff i j, text_eq_iff k j)

get_own-set_own_self : (m : Fields) (k : Text) (v : Json) → get_own (set_own m k v) k ≡ some v
get_own-set_own_self m k v = get_own-set_own m k v k ∙ rw (text_eq_refl k) refl

-- every definition of the one is in the other
abbrev pub Extends : Fields → Fields → Type 0
Extends m n = (k : Text) (d : Json) → get_own m k ≡ some d → get_own n k ≡ some d

pub set_own-Extends :
    (m : Fields) (k : Text) (v : Json) → get_own m k ≡ none → Extends m (set_own m k v)
set_own-Extends m k v free j d h = ground (arith, get_own-set_own m k v j, text_eq_iff k j)

-- an object has a key once
abbrev pub IsDistinct : Fields → Type 0
IsDistinct end = Unit
IsDistinct (field k v fs) = (get_own fs k ≡ none) × IsDistinct fs

abbrev pub or_old : Text → Option Text → Text
or_old name none = name
or_old name (some new) = new

-- the name of a branch's definition among the merged ones
abbrev pub name_in : Merge → Text → Text
name_in s name = or_old name (new_name_of s.rename_map name)

abbrev pub IsSame : Json → Json → Type 0
IsSame d def = (d ≡ def) ⊎ (is_deep_equal d def ≡ true)

-- the branch has promoted the name, and the merged definitions have its definition
pub record IsFound (s : Merge) (name : Text) (def : Json) : Type 0 where
  pub promoted : is_among s.promoted_names name ≡ true
  pub found : (d : Json) × (get_own s.merged_defs (name_in s name) ≡ some d) × IsSame d def

free_name_free : (m : Fields) (name : Text) → get_own m (free_name m name) ≡ none
free_name_free m name = fresh_name_free (suc (size m)) m name 2 (omega arith)

abbrev renamed : Merge → Text → Json → Merge
renamed s name def =
    rename (define (promote s name) (free_name s.merged_defs name) def) name
      (free_name s.merged_defs name)

-- a definition is new, as one that is there, or renamed
merge_def-cases :
    (P : Merge → Type 0) (s : Merge) (name : Text) (def : Json)
    → (get_own s.merged_defs name ≡ none → P (define (promote s name) name def))
    → ((d : Json)
        → get_own s.merged_defs name ≡ some d
        → is_deep_equal d def ≡ true
        → P (promote s name))
    → P (renamed s name def)
    → P (merge_def s name def)
unfolding merge_def
merge_def-cases P s name def a b c = go (get_own s.merged_defs name) refl
  where
    go : (o : Option Json) → get_own s.merged_defs name ≡ o → P (merge_def s name def)
    go none e = rw (e, merge_def) (a e)
    go (some d) e = elim (Bool-cases (is_deep_equal d def)) [
      | inl f ↦ rw (e, merge_def, f) (b d e f)
      | inr f ↦ rw (e, merge_def, f) c
    ]

merge_def-Extends :
    (s : Merge) (name : Text) (def : Json)
    → Extends s.merged_defs (merge_def s name def).merged_defs
merge_def-Extends s name def =
    merge_def-cases (λ t. Extends s.merged_defs t.merged_defs) s name def
      (set_own-Extends s.merged_defs name def) (λ d e f k v h. h)
      (set_own-Extends s.merged_defs (free_name s.merged_defs name) def
        (free_name_free s.merged_defs name))

pub merge_defs-Extends :
    (s : Merge) (defs : Fields) → Extends s.merged_defs (merge_defs s defs).merged_defs
unfolding merge_defs
merge_defs-Extends s end k d h = h
merge_defs-Extends s (field name def defs) k d h =
    merge_defs-Extends (merge_def s name def) defs k d (merge_def-Extends s name def k d h)

-- another name is renamed no more and promoted no less
record IsKept (name : Text) (s t : Merge) : Type 0 where
  new_name : new_name_of t.rename_map name ≡ new_name_of s.rename_map name
  promoted : is_among s.promoted_names name ≡ true → is_among t.promoted_names name ≡ true

merge_def-IsKept :
    (s : Merge) (name other : Text) (def : Json)
    → text_eq name other ≡ false
    → IsKept other s (merge_def s name def)
unfolding new_name_of is_among
merge_def-IsKept s name other def h =
    merge_def-cases (IsKept other s) s name def
      (λ e. record { new_name = refl; promoted = λ p. ground arith })
      (λ d e f. record { new_name = refl; promoted = λ p. ground arith })
      (record { new_name = rw h refl; promoted = λ p. ground arith })

merge_defs-IsKept :
    (s : Merge) (defs : Fields) (other : Text)
    → get_own defs other ≡ none
    → IsKept other s (merge_defs s defs)
unfolding merge_defs get_own
merge_defs-IsKept s end other h = record { new_name = refl; promoted = λ p. p }
merge_defs-IsKept s (field name def defs) other h =
    let kept = merge_def-IsKept s name other def (ground arith) in
    let later = merge_defs-IsKept (merge_def s name def) defs other (ground arith) in
    record {
      new_name = later.new_name ∙ kept.new_name;
      promoted = λ p. later.promoted (kept.promoted p);
    }

merge_def-IsFound :
    (s : Merge) (name : Text) (def : Json)
    → new_name_of s.rename_map name ≡ none
    → IsFound (merge_def s name def) name def
unfolding new_name_of is_among
merge_def-IsFound s name def h =
    merge_def-cases (λ t. IsFound t name def) s name def
      (λ e. record {
        promoted = ground (arith, text_eq_refl name);
        found = (
          def,
          ap (λ (o : Option Text). get_own (set_own s.merged_defs name def) (or_old name o)) h
              ∙ get_own-set_own_self s.merged_defs name def,
          inl refl,
        );
      })
      (λ d e f. record {
        promoted = ground (arith, text_eq_refl name);
        found = (d, ap (λ (o : Option Text). get_own s.merged_defs (or_old name o)) h ∙ e, inr f);
      })
      (record {
        promoted = ground (arith, text_eq_refl name);
        found = (
          def,
          rw (text_eq_refl name)
              (get_own-set_own_self s.merged_defs (free_name s.merged_defs name) def),
          inl refl,
        );
      })

-- What is found stays found, behind the definitions of other names.
merge_defs-IsFound_kept :
    (s : Merge) (defs : Fields) (name : Text) (def : Json)
    → get_own defs name ≡ none
    → IsFound s name def
    → IsFound (merge_defs s defs) name def
merge_defs-IsFound_kept s defs name def h v =
    let kept = merge_defs-IsKept s defs name h in
    let (d, e, same) = v.found in
    record {
      promoted = kept.promoted v.promoted;
      found = (
        d,
        ap (λ (o : Option Text). get_own (merge_defs s defs).merged_defs (or_old name o))
              kept.new_name
            ∙ merge_defs-Extends s defs (name_in s name) d e,
        same,
      );
    }

-- Each definition of a branch is found behind the merging of the branch.
pub merge_defs-IsFound :
    (s : Merge) (defs : Fields) (name : Text) (def : Json)
    → IsDistinct defs
    → new_name_of s.rename_map name ≡ none
    → get_own defs name ≡ some def
    → IsFound (merge_defs s defs) name def
unfolding merge_defs get_own
merge_defs-IsFound s end name def v h g = ground arith
merge_defs-IsFound s (field k w defs) name def v h g = elim (Bool-cases (text_eq k name)) [
  | inl e ↦
      (let p = (text_eq_iff k name).0 e in
        let q : w ≡ def = ground arith in
        merge_defs-IsFound_kept (merge_def s k w) defs name def
          (subst (λ (u : Text). get_own defs u ≡ none) p v.0)
          (subst (λ (u : Text). IsFound (merge_def s k w) u def) p
            (subst (IsFound (merge_def s k w) k) q
              (merge_def-IsFound s k w (ap (new_name_of s.rename_map) p ∙ h)))))
  | inr e ↦
      merge_defs-IsFound (merge_def s k w) defs name def v.1
        ((merge_def-IsKept s k name w e).new_name ∙ h) (ground arith)
]
