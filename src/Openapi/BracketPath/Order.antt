-- ===== src/Openapi/BracketPath/Order.antt =====
-- The properties of an object: what a write to a key does to the lookup, and to the order of the keys.
use orpc.Prelude.{
  ℕ, Bool, true, false, none, some, List, [], ◌∷◌, ◌++◌, ◌≡◌, ◌≢◌, ◌↔◌, refl, arith, ap, sym, subst,
  ◌∙◌, Bool-cases, inl, inr, ◌&&◌, ◌||◌, not, ltb, if◌then◌else◌,
}
use mathlib.Core.List.{append_assoc, append-nil}
use orpc.Openapi.BracketPath.{Text}
use orpc.Openapi.BracketPath.Tree.{
  Node, Properties, no_properties, property, text_eq, number, is_index, precedes, get_property,
  set_property,
}

text_eq_refl : (s : Text) → text_eq s s ≡ true
unfolding text_eq
text_eq_refl [] = refl
text_eq_refl (c ∷ s) = ground (arith, text_eq_refl s)

text_eq_path : (s t : Text) → text_eq s t ≡ true → s ≡ t
unfolding text_eq
text_eq_path [] [] h = refl
text_eq_path [] (d ∷ t) h = ground arith
text_eq_path (c ∷ s) [] h = ground arith
text_eq_path (c ∷ s) (d ∷ t) h = ground (arith, text_eq_path s t)

pub text_eq_iff : (s t : Text) → (text_eq s t ≡ true) ↔ (s ≡ t)
text_eq_iff s t =
    (text_eq_path s t, λ p. subst (λ (u : Text). text_eq s u ≡ true) p (text_eq_refl s))

pub get_property-set_property :
    (ps : Properties) (k : Text) (m : Node) (j : Text)
    → get_property (set_property ps k m) j ≡ (if text_eq k j then some m else get_property ps j)
unfolding get_property set_property
get_property-set_property no_properties k m j = refl
get_property-set_property (property i n ps) k m j = elim (Bool-cases (text_eq i k)) [
  | inl e ↦ rw e (ground (arith, text_eq_iff i k, text_eq_iff i j, text_eq_iff k j))
  | inr e ↦ elim (Bool-cases (precedes k i)) [
    | inl f ↦ rw (e, f) refl
    | inr f ↦
        rw (e, f)
          (ground (
            arith,
            get_property-set_property ps k m j,
            text_eq_iff i k,
            text_eq_iff i j,
            text_eq_iff k j,
          ))
  ]
]

-- the first of two goes before the second, for an index and its number
abbrev goes_before : Bool → ℕ → Bool → ℕ → Bool
goes_before a x b y = a && (not b || ltb x y)

goes_before-asym : (a b : Bool) (x y : ℕ) → goes_before a x b y ≡ true → goes_before b y a x ≡ false
goes_before-asym a b x y h = ground arith

goes_before_trans :
    (a b c : Bool) (x y z : ℕ)
    → goes_before b y c z ≡ true
    → goes_before a x c z ≡ false
    → goes_before a x b y ≡ false
goes_before_trans a b c x y z h k = ground arith

-- no key goes before the one
abbrev pub NoneBefore : Text → Properties → Type 0
NoneBefore k no_properties = Unit
NoneBefore k (property j n ps) = (precedes j k ≡ false) × NoneBefore k ps

-- No key goes before an earlier one: the indices come first, in ascending order.
abbrev pub IsOrdered : Properties → Type 0
IsOrdered no_properties = Unit
IsOrdered (property k n ps) = NoneBefore k ps × IsOrdered ps

NoneBefore-trans :
    (k j : Text) (ps : Properties) → precedes k j ≡ true → NoneBefore j ps → NoneBefore k ps
unfolding precedes
NoneBefore-trans k j no_properties h v = tt
NoneBefore-trans k j (property i n ps) h (u, v) = (
  goes_before_trans (is_index i) (is_index k) (is_index j) (number 0 i) (number 0 k) (number 0 j) h
      u,
  NoneBefore-trans k j ps h v,
)

NoneBefore-set :
    (i : Text) (ps : Properties) (k : Text) (m : Node)
    → precedes k i ≡ false
    → NoneBefore i ps
    → NoneBefore i (set_property ps k m)
unfolding set_property
NoneBefore-set i no_properties k m h v = (h, tt)
NoneBefore-set i (property j n ps) k m h (u, v) = elim (Bool-cases (text_eq j k)) [
  | inl e ↦ rw e (u, v)
  | inr e ↦ elim (Bool-cases (precedes k j)) [
    | inl f ↦ rw (e, f) (h, (u, v))
    | inr f ↦ rw (e, f) (u, NoneBefore-set i ps k m h v)
  ]
]

precedes_asym : (k j : Text) → precedes k j ≡ true → precedes j k ≡ false
unfolding precedes
precedes_asym k j f = goes_before-asym (is_index k) (is_index j) (number 0 k) (number 0 j) f

pub set_property-IsOrdered :
    (ps : Properties) (k : Text) (m : Node) → IsOrdered ps → IsOrdered (set_property ps k m)
unfolding set_property
set_property-IsOrdered no_properties k m v = (tt, tt)
set_property-IsOrdered (property j n ps) k m (u, v) = elim (Bool-cases (text_eq j k)) [
  | inl e ↦ rw e (u, v)
  | inr e ↦ elim (Bool-cases (precedes k j)) [
    | inl f ↦ rw (e, f) ((precedes_asym k j f, NoneBefore-trans k j ps f u), (u, v))
    | inr f ↦ rw (e, f) (NoneBefore-set j ps k m f u, set_property-IsOrdered ps k m v)
  ]
]

-- the keys that are no indices
abbrev pub other_key : Text → List Text
other_key k = if is_index k then [] else k ∷ []

abbrev pub other_keys : Properties → List Text
other_keys no_properties = []
other_keys (property k n ps) = other_key k ++ other_keys ps

first_false : (a b : Bool) → a ≡ false → (a && b) ≢ true
first_false a b e h = ground arith

precedes-other : (k j : Text) → precedes k j ≡ true → other_key k ≡ []
unfolding precedes
precedes-other k j h = elim (Bool-cases (is_index k)) [
  | inl e ↦ rw e refl
  | inr e ↦
      absurd (first_false (is_index k) (not (is_index j) || ltb (number 0 k) (number 0 j)) e h)
]

pub other_keys-set_property :
    (ps : Properties) (k : Text) (m : Node)
    → get_property ps k ≡ none
    → other_keys (set_property ps k m) ≡ other_keys ps ++ other_key k
unfolding set_property get_property
other_keys-set_property no_properties k m h = append-nil (other_key k)
other_keys-set_property (property j n ps) k m h = elim (Bool-cases (text_eq j k)) [
  | inl e ↦ absurd (ground arith)
  | inr e ↦ elim (Bool-cases (precedes k j)) [
    | inl f ↦
        rw (e, f)
          (ap (λ (l : List Text). l ++ (other_key j ++ other_keys ps)) (precedes-other k j f)
            ∙ sym (append-nil (other_key j ++ other_keys ps))
            ∙ ap (λ (l : List Text). (other_key j ++ other_keys ps) ++ l)
                (sym (precedes-other k j f)))
    | inr f ↦
        rw (e, f)
          (ap (λ (l : List Text). other_key j ++ l) (other_keys-set_property ps k m (ground arith))
            ∙ sym (append_assoc (other_key j) (other_keys ps) (other_key k)))
  ]
]
