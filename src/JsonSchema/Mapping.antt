-- ===== src/JsonSchema/Mapping.antt =====
-- What a mapping of references does to the references of a schema.
use orpc.Prelude.{
  Bool, true, false, List, [], ◌∷◌, ◌++◌, map, ◌≡◌, ◌≢◌, Bool-cases, inl, inr, not, ◌||◌,
  if◌then◌else◌, refl, sym, ap, ◌∙◌, arith,
}
use mathlib.Core.List.{map-append}
use orpc.JsonSchema.{
  Text, Json, null, boolean, number, string, array, object, Items, nil, cons, Fields, end, field,
}
use orpc.JsonSchema.Refs.{
  Walk, ref, into, keep, walk_of, walk_keyword, is_ref_keyword, is_logic_keyword, is_record_keyword,
  map_json_schema_refs, map_items, map_fields,
}

-- The references of a schema that is a tree, by their places, in order: those of a part that two places
-- share are there twice.
mutual
  pub refs_of : Bool → Json → List Text
  refs_of level (array xs) = refs_of_items level xs
  refs_of level (object fs) = refs_of_fields level fs
  refs_of level v = []

  pub refs_of_items : Bool → Items → List Text
  refs_of_items level nil = []
  refs_of_items level (cons x xs) = refs_of level x ++ refs_of_items level xs

  pub refs_of_fields : Bool → Fields → List Text
  refs_of_fields level end = []
  refs_of_fields level (field k v fs) = elim (walk_of level k v) [
    | ref s ↦ s ∷ refs_of_fields level fs
    | into inner ↦ refs_of inner v ++ refs_of_fields level fs
    | keep ↦ refs_of_fields level fs
  ]

never_ref :
    (a b c : Bool) (s : Text) → (if a then into true else if b then into c else keep) ≢ ref s
never_ref true b c s h = ground arith
never_ref false true c s h = ground arith
never_ref false false c s h = ground arith

walk_keyword_not_ref : (level : Bool) (k : Text) (s : Text) → walk_keyword level k ≢ ref s
walk_keyword_not_ref level k s h =
    never_ref (not level) (is_logic_keyword k || is_record_keyword k) (not (is_record_keyword k)) s
      h

module _ (f : Text → Text) where
  walk_of-ref :
      (level : Bool) (k : Text) (v : Json) (s : Text)
      → walk_of level k v ≡ ref s
      → walk_of level k (string (f s)) ≡ ref (f s)
  unfolding walk_of
  walk_of-ref level k (array xs) s h = absurd (walk_keyword_not_ref level k s h)
  walk_of-ref level k (object fs) s h = absurd (walk_keyword_not_ref level k s h)
  walk_of-ref level k null s h = absurd (walk_keyword_not_ref level k s h)
  walk_of-ref level k (boolean b) s h = absurd (walk_keyword_not_ref level k s h)
  walk_of-ref level k (number n) s h = absurd (walk_keyword_not_ref level k s h)
  walk_of-ref level k (string t) s h = elim (Bool-cases (is_ref_keyword k)) [
    | inl e ↦ rw e refl
    | inr e ↦ absurd (
        walk_keyword_not_ref level k s
          (sym (ap (λ (b : Bool). if b then ref t else walk_keyword level k) e) ∙ h))
  ]

  walk_of-into :
      (level inner : Bool) (k : Text) (v : Json)
      → walk_of level k v ≡ into inner
      → walk_of level k (map_json_schema_refs f inner v) ≡ into inner
  unfolding map_json_schema_refs walk_of
  walk_of-into level inner k (array xs) h = h
  walk_of-into level inner k (object fs) h = h
  walk_of-into level inner k null h = h
  walk_of-into level inner k (boolean b) h = h
  walk_of-into level inner k (number n) h = h
  walk_of-into level inner k (string s) h = h

  field_walk :
      (level : Bool) (k : Text) (v : Json) (fs : Fields) (w : Walk)
      → walk_of level k v ≡ w
      → ((inner : Bool) → refs_of inner (map_json_schema_refs f inner v) ≡ map f (refs_of inner v))
      → refs_of_fields level (map_fields f level fs) ≡ map f (refs_of_fields level fs)
      → refs_of_fields level (map_fields f level (field k v fs))
        ≡ map f (refs_of_fields level (field k v fs))
  unfolding map_json_schema_refs refs_of
  field_walk level k v fs (ref s) e h t =
      rw (e, refs_of_fields, map_fields, walk_of-ref level k v s e) (ap (◌∷◌ (f s)) t)
  field_walk level k v fs (into inner) e h t =
      rw (e, refs_of_fields, map_fields, walk_of-into level inner k v e)
        (sym (
          map-append f (refs_of inner v) (refs_of_fields level fs)
          ∙ ap (λ (l : List Text). l ++ map f (refs_of_fields level fs)) (sym (h inner))
          ∙ ap (λ (l : List Text). refs_of inner (map_json_schema_refs f inner v) ++ l) (sym t)))
  field_walk level k v fs keep e h t = rw (e, refs_of_fields, map_fields, e) t

  mutual
    unfolding map_json_schema_refs refs_of

    refs_mapped :
        (level : Bool) (v : Json)
        → refs_of level (map_json_schema_refs f level v) ≡ map f (refs_of level v)
    refs_mapped level (array xs) = items_mapped level xs
    refs_mapped level (object fs) = fields_mapped level fs
    refs_mapped level null = refl
    refs_mapped level (boolean b) = refl
    refs_mapped level (number n) = refl
    refs_mapped level (string s) = refl

    items_mapped :
        (level : Bool) (xs : Items)
        → refs_of_items level (map_items f level xs) ≡ map f (refs_of_items level xs)
    items_mapped level nil = refl
    items_mapped level (cons x xs) =
        rw (refs_mapped level x, items_mapped level xs)
          (sym (map-append f (refs_of level x) (refs_of_items level xs)))

    fields_mapped :
        (level : Bool) (fs : Fields)
        → refs_of_fields level (map_fields f level fs) ≡ map f (refs_of_fields level fs)
    fields_mapped level end = refl
    fields_mapped level (field k v fs) =
        field_walk level k v fs (walk_of level k v) refl (λ inner. refs_mapped inner v)
          (fields_mapped level fs)
