-- ===== src/Openapi/BracketPath/ParseBack.antt =====
-- The paths of serialized entries parse back to the segments of the leaves.
use orpc.Prelude.{
  ℕ, zero, suc, ◌+◌, ◌/◌, ◌%◌, ◌≤◌, true, List, [], ◌∷◌, ◌++◌, ltb, ◌≡◌, refl, arith, ap, ◌∙◌, All,
  All-append, Bool-cases, inl, inr,
}
use orpc.Openapi.BracketPath.{Text, parse_path}
use orpc.Openapi.BracketPath.Parsing.{is_plain, is_unbroken, parse-stringify}
use orpc.Openapi.BracketPath.Entries.{
  Data, leaf, arr, obj, Items, nil, cons, Fields, end, field, digits, decimal, Entry, serialize,
  under, leaves, leaves_items, leaves_fields, printed_root, root_items-eq, root_fields-eq,
  printed_root-append, internal_serialize,
}

-- code units of digits
abbrev IsDigits : Text → Type 0
IsDigits t = All (λ c. c ≤ 57) t

digits-IsDigits : (fuel n : ℕ) → IsDigits (digits fuel n)
digits-IsDigits zero n = tt
digits-IsDigits (suc fuel) n = elim (Bool-cases (ltb n 10)) [
  | inl e ↦ rw e (ground arith, tt)
  | inr e ↦ rw e (
      All-append (λ c. c ≤ 57) (digits fuel (n / 10)) ((48 + n % 10) ∷ [])
        (digits-IsDigits fuel (n / 10)) (omega arith, tt))
]

plain_digits : (t : Text) → IsDigits t → is_plain t ≡ true
plain_digits [] h = refl
plain_digits (c ∷ t) h = ground (arith, h.0, plain_digits t h.1)

unbroken_digits : (t : Text) → IsDigits t → is_unbroken t ≡ true
unbroken_digits [] h = refl
unbroken_digits (c ∷ []) h = refl
unbroken_digits (c ∷ d ∷ t) h = ground (arith, h.0, unbroken_digits (d ∷ t) h.1)

-- a path whose segments have no closing bracket right in front of an opening one
abbrev IsUnbroken : List Text × ℕ → Type 0
IsUnbroken e = All (λ s. is_unbroken s ≡ true) e.0

unfoldable mutual
  -- no key has a closing bracket right in front of an opening one
  pub HasUnbrokenKeys : Data → Type 0
  HasUnbrokenKeys (leaf v) = Unit
  HasUnbrokenKeys (arr xs) = ItemsUnbroken xs
  HasUnbrokenKeys (obj fs) = FieldsUnbroken fs

  pub ItemsUnbroken : Items → Type 0
  ItemsUnbroken nil = Unit
  ItemsUnbroken (cons x xs) = HasUnbrokenKeys x × ItemsUnbroken xs

  pub FieldsUnbroken : Fields → Type 0
  FieldsUnbroken end = Unit
  FieldsUnbroken (field k v fs) = (is_unbroken k ≡ true) × HasUnbrokenKeys v × FieldsUnbroken fs

under-IsUnbroken :
    (s : Text) (l : List (List Text × ℕ))
    → is_unbroken s ≡ true
    → All IsUnbroken l
    → All IsUnbroken (under s l)
under-IsUnbroken s [] h k = tt
under-IsUnbroken s ((path, v) ∷ l) h (p, k) = ((h, p), under-IsUnbroken s l h k)

decimal-unbroken : (i : ℕ) → is_unbroken (decimal i) ≡ true
unfolding decimal
decimal-unbroken i = unbroken_digits (digits (suc i) i) (digits-IsDigits (suc i) i)

decimal-plain : (i : ℕ) → is_plain (decimal i) ≡ true
unfolding decimal
decimal-plain i = plain_digits (digits (suc i) i) (digits-IsDigits (suc i) i)

mutual
  unfolding leaves HasUnbrokenKeys

  leaves-IsUnbroken : (d : Data) → HasUnbrokenKeys d → All IsUnbroken (leaves d)
  leaves-IsUnbroken (leaf v) h = (tt, tt)
  leaves-IsUnbroken (arr xs) h = leaves_items-IsUnbroken 0 xs h
  leaves-IsUnbroken (obj fs) h = leaves_fields-IsUnbroken fs h

  leaves_items-IsUnbroken :
      (i : ℕ) (xs : Items) → ItemsUnbroken xs → All IsUnbroken (leaves_items i xs)
  leaves_items-IsUnbroken i nil h = tt
  leaves_items-IsUnbroken i (cons x xs) h =
      All-append IsUnbroken (under (decimal i) (leaves x)) (leaves_items (suc i) xs)
        (under-IsUnbroken (decimal i) (leaves x) (decimal-unbroken i) (leaves-IsUnbroken x h.0))
        (leaves_items-IsUnbroken (suc i) xs h.1)

  leaves_fields-IsUnbroken : (fs : Fields) → FieldsUnbroken fs → All IsUnbroken (leaves_fields fs)
  leaves_fields-IsUnbroken end h = tt
  leaves_fields-IsUnbroken (field k v fs) h =
      All-append IsUnbroken (under k (leaves v)) (leaves_fields fs)
        (under-IsUnbroken k (leaves v) h.0 (leaves-IsUnbroken v h.1))
        (leaves_fields-IsUnbroken fs h.2)

-- every path parsed
abbrev pub parsed_entries : List Entry → List (List Text × ℕ)
parsed_entries [] = []
parsed_entries ((t, v) ∷ l) = (parse_path t, v) ∷ parsed_entries l

parsed-under :
    (s : Text) (l : List (List Text × ℕ))
    → is_plain s ≡ true
    → All IsUnbroken l
    → parsed_entries (printed_root (under s l)) ≡ under s l
parsed-under s [] h k = refl
parsed-under s ((path, v) ∷ l) h (p, k) =
    ap (λ t. (t, v) ∷ parsed_entries (printed_root (under s l))) (parse-stringify s path h p)
    ∙ ap (λ e. (s ∷ path, v) ∷ e) (parsed-under s l h k)

parsed-append : (k l : List Entry) → parsed_entries (k ++ l) ≡ parsed_entries k ++ parsed_entries l
parsed-append [] l = refl
parsed-append ((t, v) ∷ k) l = ap (λ e. (parse_path t, v) ∷ e) (parsed-append k l)

-- keys of the root have no opening bracket
abbrev pub HasPlainKeys : Fields → Type 0
HasPlainKeys end = Unit
HasPlainKeys (field k v fs) = (is_plain k ≡ true) × HasPlainKeys fs

parsed_items :
    (i : ℕ) (xs : Items)
    → ItemsUnbroken xs
    → parsed_entries (printed_root (leaves_items i xs)) ≡ leaves_items i xs
unfolding leaves HasUnbrokenKeys
parsed_items i nil h = refl
parsed_items i (cons x xs) h =
    rw
      (
        printed_root-append,
        parsed-append,
        parsed-under (decimal i) (leaves x) (decimal-plain i) (leaves-IsUnbroken x h.0),
        parsed_items (suc i) xs h.1,
      )
      refl

parsed_fields :
    (fs : Fields)
    → FieldsUnbroken fs
    → HasPlainKeys fs
    → parsed_entries (printed_root (leaves_fields fs)) ≡ leaves_fields fs
unfolding leaves HasUnbrokenKeys
parsed_fields end h k = refl
parsed_fields (field key v fs) h k =
    rw
      (
        printed_root-append,
        parsed-append,
        parsed-under key (leaves v) k.0 (leaves-IsUnbroken v h.1),
        parsed_fields fs h.2 k.1,
      )
      refl

-- An array or a plain object whose keys do not confuse brackets: the entries that it serializes to,
-- with their paths parsed, are its leaves with the segments that lead to them, in order.
pub parse-serialize :
    (xs : Items) (fs : Fields)
    → ItemsUnbroken xs
    → FieldsUnbroken fs
    → HasPlainKeys fs
    → (parsed_entries (serialize (arr xs)) ≡ leaves (arr xs))
      × (parsed_entries (serialize (obj fs)) ≡ leaves (obj fs))
unfolding serialize internal_serialize leaves
parse-serialize xs fs h k l = (
  ap parsed_entries (root_items-eq 0 xs) ∙ parsed_items 0 xs h,
  ap parsed_entries (root_fields-eq fs) ∙ parsed_fields fs k l,
)
