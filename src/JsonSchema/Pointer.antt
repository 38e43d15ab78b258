-- ===== src/JsonSchema/Pointer.antt =====
-- packages/json-schema/src/ref-utils.ts: the segments of JSON pointers. A text is the list of its
-- characters' codes.
use orpc.Prelude.{
  ℕ, true, false, [], ◌∷◌, ◌++◌, ◌≡◌, inl, inr, refl, sym, ap, ◌∙◌, arith, ◌==◌, ◌&&◌,
  if◌then◌else◌, Bool-cases, All, All-append, subst,
}
use orpc.JsonSchema.{Text}

-- `s.replaceAll(c, t)`, for a character
unfoldable pub replace_char : ℕ → Text → Text → Text
replace_char c t [] = []
replace_char c t (x ∷ s) = (if x == c then t else x ∷ []) ++ replace_char c t s

-- `s.replaceAll(pq, t)`, for two characters and one
unfoldable pub replace_pair : ℕ → ℕ → ℕ → Text → Text
replace_pair p q t [] = []
replace_pair p q t (x ∷ []) = x ∷ []
replace_pair p q t (x ∷ y ∷ s) = elim (x == p && y == q) [
  | true ↦ t ∷ replace_pair p q t s
  | false ↦ x ∷ replace_pair p q t (y ∷ s)
]

unfoldable pub encode_json_pointer_segment : Text → Text
unfolding replace_char
encode_json_pointer_segment s =
    replace_char b'/' (b'~' ∷ b'1' ∷ []) (replace_char b'~' (b'~' ∷ b'0' ∷ []) s)

unfoldable pub decode_json_pointer_segment : Text → Text
unfolding replace_pair
decode_json_pointer_segment s = replace_pair b'~' b'0' b'~' (replace_pair b'~' b'1' b'/' s)

-- what a character is encoded as
abbrev piece : ℕ → Text
piece c = if c == b'~' then b'~' ∷ b'0' ∷ [] else if c == b'/' then b'~' ∷ b'1' ∷ [] else c ∷ []

abbrev pieces : Text → Text
pieces [] = []
pieces (c ∷ s) = piece c ++ pieces s

encode-eq-pieces : (s : Text) → encode_json_pointer_segment s ≡ pieces s
unfolding encode_json_pointer_segment
encode-eq-pieces [] = refl
encode-eq-pieces (c ∷ s) = ground (arith, encode-eq-pieces s)

replace_pair_skip :
    (p q t x : ℕ) (s : Text)
    → (x == p) ≡ false
    → replace_pair p q t (x ∷ s) ≡ x ∷ replace_pair p q t s
unfolding replace_pair
replace_pair_skip p q t x [] h = refl
replace_pair_skip p q t x (y ∷ s) h = rw (h, replace_pair) refl

abbrev tildes : Text → Text
tildes s = replace_char b'~' (b'~' ∷ b'0' ∷ []) s

decode_slashes : (s : Text) → replace_pair b'~' b'1' b'/' (pieces s) ≡ tildes s
unfolding replace_char replace_pair
decode_slashes [] = refl
decode_slashes (c ∷ s) = elim (Bool-cases (c == b'~')) [
  | inl e ↦ rw e (
      ap (◌∷◌ b'~') (replace_pair_skip b'~' b'1' b'/' b'0' (pieces s) refl)
      ∙ ap (λ (t : Text). b'~' ∷ b'0' ∷ t) (decode_slashes s))
  | inr e ↦ elim (Bool-cases (c == b'/')) [
    | inl f ↦ rw (e, f) (ground (arith, decode_slashes s))
    | inr f ↦
        rw (e, f) (replace_pair_skip b'~' b'1' b'/' c (pieces s) e ∙ ap (◌∷◌ c) (decode_slashes s))
  ]
]

decode_tildes : (s : Text) → replace_pair b'~' b'0' b'~' (tildes s) ≡ s
unfolding replace_char replace_pair
decode_tildes [] = refl
decode_tildes (c ∷ s) = elim (Bool-cases (c == b'~')) [
  | inl e ↦ rw e (ground (arith, decode_tildes s))
  | inr e ↦ rw e (replace_pair_skip b'~' b'0' b'~' c (tildes s) e ∙ ap (◌∷◌ c) (decode_tildes s))
]

-- no character of the text is a slash
abbrev pub IsSegment : Text → Type 0
IsSegment s = All (λ (c : ℕ). (c == b'/') ≡ false) s

piece-IsSegment : (c : ℕ) → IsSegment (piece c)
piece-IsSegment c = elim (Bool-cases (c == b'~')) [
  | inl e ↦ rw e (refl, (refl, tt))
  | inr e ↦ elim (Bool-cases (c == b'/')) [
    | inl f ↦ rw (e, f) (refl, (refl, tt))
    | inr f ↦ rw (e, f) (f, tt)
  ]
]

pieces-IsSegment : (s : Text) → IsSegment (pieces s)
pieces-IsSegment [] = tt
pieces-IsSegment (c ∷ s) =
    All-append (λ (d : ℕ). (d == b'/') ≡ false) (piece c) (pieces s) (piece-IsSegment c)
      (pieces-IsSegment s)

pub encode-IsSegment : (s : Text) → IsSegment (encode_json_pointer_segment s)
encode-IsSegment s = subst IsSegment (sym (encode-eq-pieces s)) (pieces-IsSegment s)

-- A segment of a JSON pointer is encoded so that decoding gives it back.
pub decode-encode : (s : Text) → decode_json_pointer_segment (encode_json_pointer_segment s) ≡ s
unfolding decode_json_pointer_segment
decode-encode s =
    ap (λ (t : Text). replace_pair b'~' b'0' b'~' (replace_pair b'~' b'1' b'/' t))
      (encode-eq-pieces s)
    ∙ ap (replace_pair b'~' b'0' b'~') (decode_slashes s)
    ∙ decode_tildes s
