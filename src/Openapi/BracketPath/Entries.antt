-- ===== src/Openapi/BracketPath/Entries.antt =====
-- packages/openapi/src/bracket-notation.ts, `serialize`: the leaves of a tree, each with its path.
use orpc.Prelude.{
  ℕ, zero, suc, ◌+◌, ◌/◌, ◌%◌, Bool, true, false, List, [], ◌∷◌, ◌++◌, if◌then◌else◌, ltb, ◌≡◌,
  refl, ap,
}
use orpc.Openapi.BracketPath.{Text, bracketed, stringify_rest, stringify_path}

mutual
  -- an array, a plain object, or any other value
  pub data Data : Type 0 where
    leaf : ℕ → Data
    arr : Items → Data
    obj : Fields → Data

  pub data Items : Type 0 where
    nil : Items
    cons : Data → Items → Items

  pub data Fields : Type 0 where
    end : Fields
    field : Text → Data → Fields → Fields

-- `i.toString()`, with fuel for the digits
abbrev pub digits : ℕ → ℕ → Text
digits zero n = []
digits (suc fuel) n =
    let higher = digits fuel (n / 10) in
    if ltb n 10 then (48 + n) ∷ [] else higher ++ (48 + n % 10) ∷ []

unfoldable pub decimal : ℕ → Text
decimal n = digits (suc n) n

abbrev pub Entry : Type 0
Entry = Text × ℕ

abbrev pub child_path : Bool → Text → Text → Text
child_path is_root path s = if is_root then s else path ++ bracketed s

unfoldable mutual
  pub internal_serialize : Data → Text → Bool → List Entry
  internal_serialize (leaf v) path is_root = (path, v) ∷ []
  internal_serialize (arr xs) path is_root = serialize_items 0 xs path is_root
  internal_serialize (obj fs) path is_root = serialize_fields fs path is_root

  pub serialize_items : ℕ → Items → Text → Bool → List Entry
  serialize_items i nil path is_root = []
  serialize_items i (cons x xs) path is_root =
      internal_serialize x (child_path is_root path (decimal i)) false
      ++ serialize_items (suc i) xs path is_root

  pub serialize_fields : Fields → Text → Bool → List Entry
  serialize_fields end path is_root = []
  serialize_fields (field k v fs) path is_root =
      internal_serialize v (child_path is_root path k) false ++ serialize_fields fs path is_root

unfoldable pub serialize : Data → List Entry
unfolding internal_serialize
serialize d = internal_serialize d [] true

-- a segment in front of every path
abbrev pub under : Text → List (List Text × ℕ) → List (List Text × ℕ)
under s [] = []
under s ((path, v) ∷ l) = (s ∷ path, v) ∷ under s l

-- the leaves of a tree, with the segments that lead to them
unfoldable mutual
  pub leaves : Data → List (List Text × ℕ)
  leaves (leaf v) = ([], v) ∷ []
  leaves (arr xs) = leaves_items 0 xs
  leaves (obj fs) = leaves_fields fs

  pub leaves_items : ℕ → Items → List (List Text × ℕ)
  leaves_items i nil = []
  leaves_items i (cons x xs) = under (decimal i) (leaves x) ++ leaves_items (suc i) xs

  pub leaves_fields : Fields → List (List Text × ℕ)
  leaves_fields end = []
  leaves_fields (field k v fs) = under k (leaves v) ++ leaves_fields fs

-- entries behind a path that has been printed
abbrev printed : Text → List (List Text × ℕ) → List Entry
printed t [] = []
printed t ((path, v) ∷ l) = (stringify_rest t path, v) ∷ printed t l

abbrev pub printed_root : List (List Text × ℕ) → List Entry
printed_root [] = []
printed_root ((path, v) ∷ l) = (stringify_path path, v) ∷ printed_root l

printed-append :
    (t : Text) (k l : List (List Text × ℕ)) → printed t (k ++ l) ≡ printed t k ++ printed t l
printed-append t [] l = refl
printed-append t ((path, v) ∷ k) l = ap (λ e. (stringify_rest t path, v) ∷ e) (printed-append t k l)

printed-under :
    (t s : Text) (l : List (List Text × ℕ)) → printed t (under s l) ≡ printed (t ++ bracketed s) l
unfolding stringify_rest
printed-under t s [] = refl
printed-under t s ((path, v) ∷ l) =
    ap (λ e. (stringify_rest (t ++ bracketed s) path, v) ∷ e) (printed-under t s l)

pub printed_root-append :
    (k l : List (List Text × ℕ)) → printed_root (k ++ l) ≡ printed_root k ++ printed_root l
printed_root-append [] l = refl
printed_root-append ((path, v) ∷ k) l =
    ap (λ e. (stringify_path path, v) ∷ e) (printed_root-append k l)

printed_root-under : (s : Text) (l : List (List Text × ℕ)) → printed_root (under s l) ≡ printed s l
unfolding stringify_path
printed_root-under s [] = refl
printed_root-under s ((path, v) ∷ l) =
    ap (λ e. (stringify_rest s path, v) ∷ e) (printed_root-under s l)

mutual
  unfolding internal_serialize leaves stringify_rest

  inner-eq : (d : Data) (t : Text) → internal_serialize d t false ≡ printed t (leaves d)
  inner-eq (leaf v) t = refl
  inner-eq (arr xs) t = inner_items-eq 0 xs t
  inner-eq (obj fs) t = inner_fields-eq fs t

  inner_items-eq :
      (i : ℕ) (xs : Items) (t : Text) → serialize_items i xs t false ≡ printed t (leaves_items i xs)
  inner_items-eq i nil t = refl
  inner_items-eq i (cons x xs) t =
      rw
        (
          printed-append,
          printed-under,
          inner-eq x (t ++ bracketed (decimal i)),
          inner_items-eq (suc i) xs t,
        )
        refl

  inner_fields-eq :
      (fs : Fields) (t : Text) → serialize_fields fs t false ≡ printed t (leaves_fields fs)
  inner_fields-eq end t = refl
  inner_fields-eq (field k v fs) t =
      rw (printed-append, printed-under, inner-eq v (t ++ bracketed k), inner_fields-eq fs t) refl

pub root_items-eq :
    (i : ℕ) (xs : Items) → serialize_items i xs [] true ≡ printed_root (leaves_items i xs)
unfolding internal_serialize leaves
root_items-eq i nil = refl
root_items-eq i (cons x xs) =
    rw (printed_root-append, printed_root-under, inner-eq x (decimal i), root_items-eq (suc i) xs)
      refl

pub root_fields-eq : (fs : Fields) → serialize_fields fs [] true ≡ printed_root (leaves_fields fs)
unfolding internal_serialize leaves
root_fields-eq end = refl
root_fields-eq (field k v fs) =
    rw (printed_root-append, printed_root-under, inner-eq v k, root_fields-eq fs) refl
