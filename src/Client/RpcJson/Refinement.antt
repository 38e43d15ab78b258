-- ===== src/Client/RpcJson/Refinement.antt =====
-- The walk of `serializeValue` computes the serialization, whether the built-in handlers are inlined
-- or found in the table, and fuel above the depth of the value is enough.
use orpc.Prelude.{
  ℕ, zero, suc, ◌≤◌, String, Bool, true, false, Option, none, some, List, [], ◌∷◌, ◌++◌, ◌&&◌, ◌||◌,
  ◌≡◌, refl, ap, ◌∙◌, ◌⊎◌, inl, inr, arith, Bool-cases,
}
use mathlib.Core.List.{append-nil, append_assoc}
use orpc.Client.RpcJson.{
  Segment, index, Value, null, str, boolean, num, date, set, map, arr, obj, Items, nil, cons,
  Fields, end, field, Meta, is_undefined, is_to_json,
}
use orpc.Client.RpcJson.Serializer.{
  date_json, Config, Look, final, again, pass, inline_look, handler_look, or_look, look, Written,
  serialize_value, walk_items, walk_fields, walk_structure, add_item, add_field, write_final,
}
use orpc.Prelude.JsMap
use orpc.Prelude.JsMap.{get}
use orpc.Client.RpcJson.Handlers.{Natives, built_in, some_each, construct}
use orpc.Client.RpcJson.Encoding.{
  json, json_items, json_fields, metas, metas_items, metas_fields, blobs, blobs_items, blobs_fields,
  kept, kept_items, kept_fields, height, height_items, height_fields, under_metas, under_blobs,
}

-- a path in front of every path of a list
abbrev pub behind_metas : List Segment → List Meta → List Meta
behind_metas path [] = []
behind_metas path ((type, p) ∷ l) = (type, path ++ p) ∷ behind_metas path l

abbrev pub behind_blobs : List Segment → List (List Segment × ℕ) → List (List Segment × ℕ)
behind_blobs path [] = []
behind_blobs path ((p, b) ∷ l) = (path ++ p, b) ∷ behind_blobs path l

behind_metas-under :
    (path : List Segment) (s : Segment) (l : List Meta)
    → behind_metas path (under_metas s l) ≡ behind_metas (path ++ s ∷ []) l
behind_metas-under path s [] = refl
behind_metas-under path s ((type, p) ∷ l) =
    rw (behind_metas-under path s l, append_assoc path (s ∷ []) p)

behind_blobs-under :
    (path : List Segment) (s : Segment) (l : List (List Segment × ℕ))
    → behind_blobs path (under_blobs s l) ≡ behind_blobs (path ++ s ∷ []) l
behind_blobs-under path s [] = refl
behind_blobs-under path s ((p, b) ∷ l) =
    rw (behind_blobs-under path s l, append_assoc path (s ∷ []) p)

behind_metas-append :
    (path : List Segment) (l m : List Meta)
    → behind_metas path (l ++ m) ≡ behind_metas path l ++ behind_metas path m
behind_metas-append path [] m = refl
behind_metas-append path ((type, p) ∷ l) m = rw (behind_metas-append path l m)

behind_blobs-append :
    (path : List Segment) (l m : List (List Segment × ℕ))
    → behind_blobs path (l ++ m) ≡ behind_blobs path l ++ behind_blobs path m
behind_blobs-append path [] m = refl
behind_blobs-append path ((p, b) ∷ l) m = rw (behind_blobs-append path l m)

-- the serialization of a value that stands at a path
abbrev pub written : List Segment → Value → Written Value
written path v = record {
  json = json v;
  metas = behind_metas path (metas v);
  blobs = behind_blobs path (blobs v);
}

abbrev pub written_items : List Segment → ℕ → Items → Written Items
written_items path i xs = record {
  json = json_items xs;
  metas = behind_metas path (metas_items i xs);
  blobs = behind_blobs path (blobs_items i xs);
}

abbrev pub written_fields : List Segment → Fields → Written Fields
written_fields path fs = record {
  json = json_fields fs;
  metas = behind_metas path (metas_fields fs);
  blobs = behind_blobs path (blobs_fields fs);
}

add_item-written :
    (path : List Segment) (i : ℕ) (x : Value) (xs : Items)
    → add_item (written (path ++ index i ∷ []) x) (written_items path (suc i) xs)
      ≡ written_items path i (cons x xs)
unfolding json metas blobs
add_item-written path i x xs =
    simp (behind_metas-append, behind_metas-under, behind_blobs-append, behind_blobs-under)

add_field-written :
    (path : List Segment) (k : Segment) (v : Value) (fs : Fields)
    → add_field k (written (path ++ k ∷ []) v) (written_fields path fs)
      ≡ written_fields path (field k v fs)
unfolding json metas blobs
add_field-written path k v fs =
    simp (behind_metas-append, behind_metas-under, behind_blobs-append, behind_blobs-under)

-- the walk goes into the value, if no handler is found
abbrev pub is_walked : Value → Bool
is_walked (arr xs) = true
is_walked (obj fs) = true
is_walked v = false

-- Two looks at a value come to the same: they are equal, or the value is none that the walk goes into,
-- and the first look leaves it alone where the second returns it as it is.
abbrev pub SameLook : Value → Look → Look → Type 0
SameLook v l m = (l ≡ m) ⊎ ((is_walked v ≡ false) × (l ≡ pass) × (m ≡ final none v))

-- A configuration that looks at every value as the inlined handlers do.
abbrev pub IsBuiltIn : Config → Type 0
IsBuiltIn c = (v : Value) → SameLook v (look c v) (inline_look v)

same_pass : (v : Value) (l m : Look) → SameLook v l m → m ≡ pass → l ≡ pass
same_pass v l m (inl e) p = e ∙ p
same_pass v l m (inr e) p = e.1

same_again :
    (v : Value) (l m : Look) (type : String) (w : Value)
    → SameLook v l m
    → m ≡ again type w
    → l ≡ again type w
same_again v l m type w (inl e) p = e ∙ p
same_again v l m type w (inr e) p = cc

height_pos : (v : Value) → ¬ (height v ≤ 0)
unfolding height
height_pos (arr xs) h = omega arith
height_pos _ h = omega arith

dates_work :
    (d : Option String) (path : List Segment)
    → some (write_final (some "date") (date_json d) path) ≡ some (written path (date d))
unfolding json metas blobs
dates_work none path = rw append-nil
dates_work (some iso) path = rw append-nil

module _ (c : Config) (built_in : IsBuiltIn c) where
  abbrev pub omit : Bool
  omit = c.omit_undefined_properties

  -- the walk is right on every value that the fuel is enough for
  abbrev pub Works : ℕ → Type 0
  Works fuel =
      (v : Value) (path : List Segment)
      → height v ≤ fuel
      → serialize_value c fuel v path ≡ some (written path (kept omit v))

  items_work :
      (fuel : ℕ)
      → Works fuel
      → (xs : Items) (i : ℕ) (path : List Segment) → height_items xs ≤ fuel
      → walk_items (serialize_value c fuel) i xs path
        ≡ some (written_items path i (kept_items omit xs))
  unfolding walk_items kept height
  items_work fuel works nil i path h = unfold json metas blobs in refl
  items_work fuel works (cons x xs) i path h =
      rw
        (
          works x (path ++ index i ∷ []) (omega arith),
          items_work fuel works xs (suc i) path (omega arith),
        )
        (ap some (add_item-written path i (kept omit x) (kept_items omit xs)))

  fields_work :
      (fuel : ℕ)
      → Works fuel
      → (fs : Fields) (path : List Segment) → height_fields fs ≤ fuel
      → walk_fields (serialize_value c fuel) omit fs path
        ≡ some (written_fields path (kept_fields omit fs))
  unfolding walk_fields kept height
  fields_work fuel works end path h = unfold json metas blobs in refl
  fields_work fuel works (field k v fs) path h =
      let ih = fields_work fuel works fs path (omega arith) in
      elim (Bool-cases (is_to_json k v || (is_undefined v && omit))) [
        | inl e ↦ rw (e, ih)
        | inr e ↦
            rw (e, works v (path ++ k ∷ []) (omega arith), ih)
              (ap some (add_field-written path k (kept omit v) (kept_fields omit fs)))
      ]

  pub serialize_value-Works : (fuel : ℕ) → Works fuel
  unfolding serialize_value inline_look json metas blobs kept height
  serialize_value-Works zero v path h = absurd (height_pos v h)
  serialize_value-Works (suc fuel) (arr xs) path h = rw (
    same_pass (arr xs) _ _ (built_in (arr xs)) refl,
    serialize_value,
    items_work fuel (serialize_value-Works fuel) xs 0 path (omega arith),
  )
  serialize_value-Works (suc fuel) (obj fs) path h = rw (
    same_pass (obj fs) _ _ (built_in (obj fs)) refl,
    serialize_value,
    fields_work fuel (serialize_value-Works fuel) fs path (omega arith),
  )
  serialize_value-Works (suc fuel) (set xs) path h =
      rw
        (
          same_again (set xs) _ _ "set" (arr xs) (built_in (set xs)) refl,
          serialize_value,
          serialize_value-Works fuel (arr xs) path (omega arith),
        )
        (simp (behind_metas-append, append-nil))
  serialize_value-Works (suc fuel) (map xs) path h =
      rw
        (
          same_again (map xs) _ _ "map" (arr xs) (built_in (map xs)) refl,
          serialize_value,
          serialize_value-Works fuel (arr xs) path (omega arith),
        )
        (simp (behind_metas-append, append-nil))
  serialize_value-Works (suc fuel) (date d) path h = elim (built_in (date d)) [
    | inl e ↦ rw (e, serialize_value) (dates_work d path)
    | inr e ↦ absurd (ground arith)
  ]
  serialize_value-Works (suc fuel) v path h = elim (built_in v) [
    | inl e ↦ rw (e, serialize_value) (unfold walk_structure in ground (arith, append-nil path))
    | inr e ↦ rw (e.1, serialize_value) (unfold walk_structure in ground (arith, append-nil path))
  ]

-- The switch that inlines the built-in handlers decides every value as the table of the built-in
-- handlers does: which type is named, what it becomes, and whether the walk goes on.
pub table-SameLook :
    (natives : Natives) (v : Value) → SameLook v (handler_look (built_in natives) v) (inline_look v)
unfolding inline_look handler_look
table-SameLook natives null = inr (refl, refl, refl)
table-SameLook natives (str s) = inr (refl, refl, refl)
table-SameLook natives (boolean b) = inr (refl, refl, refl)
table-SameLook natives (num n) = inr (refl, refl, refl)
table-SameLook natives v = inl refl

-- With no custom handlers the built-in ones are inlined.
pub construct-IsBuiltIn :
    (natives : Natives) (omit : Bool) → IsBuiltIn (construct natives none omit).config
unfolding construct look
construct-IsBuiltIn natives omitted v = inl (plain v)
  where
    plain : (v : Value) → or_look (inline_look v) pass ≡ inline_look v
    plain v = elim (inline_look v) as (λ l. or_look l pass ≡ l) [
      | final t j ↦ refl
      | again t j ↦ refl
      | pass ↦ refl
    ]

-- With the built-in handlers given anew as custom ones, the table is searched.
pub construct-IsBuiltIn_anew :
    (natives : Natives) (omit : Bool)
    → IsBuiltIn (construct natives (some (some_each (built_in natives))) omit).config
unfolding construct look
construct-IsBuiltIn_anew natives omitted v = unfold get JsMap.set in table-SameLook natives v
