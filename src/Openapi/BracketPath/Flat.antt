-- ===== src/Openapi/BracketPath/Flat.antt =====
-- Entries with plain paths.
use orpc.Prelude.{
  ℕ, true, false, Option, none, some, List, [], ◌∷◌, ◌++◌, ◌≡◌, refl, ap, sym, ◌∙◌, if◌then◌else◌,
  All, Bool-cases, inl, inr,
}
use mathlib.Core.List.{append_assoc, append-nil}
use orpc.Openapi.BracketPath.{Text, parse_path, stringify_path}
use orpc.Openapi.BracketPath.Parsing.{is_plain, parse-stringify}
use orpc.Openapi.BracketPath.Entries.{Entry}
use orpc.Openapi.BracketPath.Tree.{
  Node, value, object, Properties, no_properties, text_eq, get_property, set_property, coerce,
  assign, insert, insert_path, deserialize_onto, deserialize,
}
use orpc.Openapi.BracketPath.Order.{
  text_eq_iff, get_property-set_property, IsOrdered, set_property-IsOrdered, other_key, other_keys,
  other_keys-set_property,
}

-- the value of the entry with the path
abbrev pub find : List Entry → Text → Option Node
find [] k = none
find ((j, v) ∷ l) k = if text_eq j k then some (value v) else find l k

-- the paths that are no array indices, in order
abbrev pub other_paths : List Entry → List Text
other_paths [] = []
other_paths ((k, v) ∷ l) = other_key k ++ other_paths l

-- no path is there twice or has an opening bracket
abbrev pub IsFlat : List Entry → Type 0
IsFlat [] = Unit
IsFlat ((k, v) ∷ l) = (is_plain k ≡ true) × All (λ (e : Entry). text_eq k e.0 ≡ false) l × IsFlat l

abbrev IsFresh : Properties → List Entry → Type 0
IsFresh ps l = All (λ (e : Entry). get_property ps e.0 ≡ none) l

abbrev set_each : Properties → List Entry → Properties
set_each ps [] = ps
set_each ps ((k, v) ∷ l) = set_each (set_property ps k (value v)) l

parse-plain : (k : Text) → is_plain k ≡ true → parse_path k ≡ k ∷ []
parse-plain k h = unfold stringify_path in parse-stringify k [] h tt

insert-fresh :
    (m : ℕ) (ps : Properties) (k : Text) (v : ℕ)
    → get_property ps k ≡ none
    → insert m k [] v (some (object ps)) ≡ object (set_property ps k (value v))
unfolding insert coerce assign
insert-fresh m ps k v h = rw h refl

IsFresh-set :
    (ps : Properties) (k : Text) (m : Node) (l : List Entry)
    → IsFresh ps l
    → All (λ (e : Entry). text_eq k e.0 ≡ false) l
    → IsFresh (set_property ps k m) l
IsFresh-set ps k m [] f d = tt
IsFresh-set ps k m ((j, v) ∷ l) (f, fs) (d, ds) =
    (get_property-set_property ps k m j ∙ rw d f, IsFresh-set ps k m l fs ds)

deserialize_onto-flat :
    (m : ℕ) (ps : Properties) (l : List Entry)
    → IsFlat l
    → IsFresh ps l
    → deserialize_onto m (object ps) l ≡ object (set_each ps l)
unfolding deserialize_onto
deserialize_onto-flat m ps [] h f = refl
deserialize_onto-flat m ps ((k, v) ∷ l) (p, d, h) (f, fs) =
    ap (λ path. deserialize_onto m (insert_path m path v (object ps)) l) (parse-plain k p)
    ∙ ap (λ root. deserialize_onto m root l) (insert-fresh m ps k v f)
    ∙ deserialize_onto-flat m (set_property ps k (value v)) l h (IsFresh-set ps k (value v) l fs d)

-- what the properties tell of a key, else the entries
abbrev or_find : Option Node → List Entry → Text → Option Node
or_find none l k = find l k
or_find (some n) l k = some n

or_find_nil : (o : Option Node) (k : Text) → o ≡ or_find o [] k
or_find_nil none k = refl
or_find_nil (some n) k = refl

or_find_other :
    (o : Option Node) (j k : Text) (v : ℕ) (l : List Entry)
    → text_eq j k ≡ false
    → or_find o l k ≡ or_find o ((j, v) ∷ l) k
or_find_other none j k v l e = rw e refl
or_find_other (some n) j k v l e = refl

or_find_set :
    (ps : Properties) (j k : Text) (v : ℕ) (l : List Entry)
    → get_property ps j ≡ none
    → or_find (if text_eq j k then some (value v) else get_property ps k) l k
      ≡ or_find (get_property ps k) ((j, v) ∷ l) k
or_find_set ps j k v l f = elim (Bool-cases (text_eq j k)) [
  | inl e ↦
      let none_there = ap (get_property ps) (sym ((text_eq_iff j k).0 e)) ∙ f in
      rw (none_there, e) refl
  | inr e ↦ rw e (or_find_other (get_property ps k) j k v l e)
]

get_property-set_each :
    (ps : Properties) (l : List Entry) (k : Text)
    → IsFlat l
    → IsFresh ps l
    → get_property (set_each ps l) k ≡ or_find (get_property ps k) l k
get_property-set_each ps [] k h f = or_find_nil (get_property ps k) k
get_property-set_each ps ((j, v) ∷ l) k (p, d, h) (f, fs) =
    get_property-set_each (set_property ps j (value v)) l k h (IsFresh-set ps j (value v) l fs d)
    ∙ ap (λ (o : Option Node). or_find o l k) (get_property-set_property ps j (value v) k)
    ∙ or_find_set ps j k v l f

set_each-IsOrdered : (ps : Properties) (l : List Entry) → IsOrdered ps → IsOrdered (set_each ps l)
set_each-IsOrdered ps [] v = v
set_each-IsOrdered ps ((k, n) ∷ l) v =
    set_each-IsOrdered (set_property ps k (value n)) l (set_property-IsOrdered ps k (value n) v)

other_keys-set_each :
    (ps : Properties) (l : List Entry)
    → IsFlat l
    → IsFresh ps l
    → other_keys (set_each ps l) ≡ other_keys ps ++ other_paths l
other_keys-set_each ps [] h f = sym (append-nil (other_keys ps))
other_keys-set_each ps ((k, v) ∷ l) (p, d, h) (f, fs) =
    other_keys-set_each (set_property ps k (value v)) l h (IsFresh-set ps k (value v) l fs d)
    ∙ ap (λ (ks : List Text). ks ++ other_paths l) (other_keys-set_property ps k (value v) f)
    ∙ append_assoc (other_keys ps) (other_key k) (other_paths l)

no_property-IsFresh : (l : List Entry) → IsFresh no_properties l
unfolding get_property
no_property-IsFresh [] = tt
no_property-IsFresh (e ∷ l) = (refl, no_property-IsFresh l)

-- Entries whose paths are distinct and without an opening bracket deserialize to an object that has
-- under each path the value of its entry, and no other key. The keys that are array indices come first,
-- in ascending order, and then the others, the empty one included, in the order of the entries.
pub deserialize-flat :
    (m : ℕ) (l : List Entry)
    → IsFlat l
    → (ps : Properties) × (deserialize m l ≡ object ps)
      × ((k : Text) → get_property ps k ≡ find l k)
      × IsOrdered ps
      × (other_keys ps ≡ other_paths l)
unfolding deserialize get_property
deserialize-flat m l h =
    let fresh = no_property-IsFresh l in
    (
      set_each no_properties l,
      deserialize_onto-flat m no_properties l h fresh,
      (λ k. get_property-set_each no_properties l k h fresh),
      set_each-IsOrdered no_properties l tt,
      other_keys-set_each no_properties l h fresh,
    )
