-- ===== src/Batch/Frames/Chunks.antt =====
-- The stream decoder does not see how its bytes are cut into chunks.
use orpc.Prelude.{
  ℕ, zero, suc, ◌≤◌, ◌<◌, false, Option, none, some, List, [], ◌∷◌, ◌++◌, ◌≡◌, ◌⊎◌, inl, inr, refl,
  sym, ap, ◌∙◌, arith, ltb, ◌==◌, drop, length, length-append, Bool-cases, Option-cases,
}
use mathlib.Core.List.{append_assoc, append-nil}
use orpc.Batch.Frames.{
  MessageCodec, take, get_uint32, keep_alive, whole, partial, frame, Decoded, behind, stop, drain,
  drain_all, decode_from, decode_length_prefixed_stream,
}

pub take-append : (n : ℕ) (xs ys : List ℕ) → n ≤ length xs → take n (xs ++ ys) ≡ take n xs
take-append zero xs ys h = refl
take-append (suc n) [] ys h = absurd (omega arith)
take-append (suc n) (x ∷ xs) ys h = ap (λ (l : List ℕ). x ∷ l) (take-append n xs ys (omega arith))

pub drop-append : (n : ℕ) (xs ys : List ℕ) → n ≤ length xs → drop n (xs ++ ys) ≡ drop n xs ++ ys
drop-append zero xs ys h = refl
drop-append (suc n) [] ys h = absurd (omega arith)
drop-append (suc n) (x ∷ xs) ys h = drop-append n xs ys (omega arith)

pub length-drop : (n : ℕ) (xs : List ℕ) → length (drop n xs) ≤ length xs
length-drop zero xs = omega arith
length-drop (suc n) [] = omega arith
length-drop (suc n) (x ∷ xs) = omega (arith, length-drop n xs)

-- What stands first in a buffer, with what follows from it.
abbrev pub FrameCases : List ℕ → List ℕ → Type 0
FrameCases xs ys =
    (frame xs ≡ partial)
    ⊎ (((rest : List ℕ) × (frame xs ≡ keep_alive rest)
          × (length rest < length xs)
          × (frame (xs ++ ys) ≡ keep_alive (rest ++ ys)))
        ⊎ ((bytes : List ℕ) × (rest : List ℕ) × (frame xs ≡ whole bytes rest)
            × (length rest < length xs)
            × (frame (xs ++ ys) ≡ whole bytes (rest ++ ys))))

frame-cases : (xs ys : List ℕ) → FrameCases xs ys
unfolding frame
frame-cases [] ys = inl refl
frame-cases (a ∷ []) ys = inl refl
frame-cases (a ∷ b ∷ []) ys = inl refl
frame-cases (a ∷ b ∷ c ∷ []) ys = inl refl
frame-cases (a ∷ b ∷ c ∷ d ∷ rest) ys = elim (Bool-cases (get_uint32 a b c d == 0)) [
  | inl e ↦ inr (inl (rest, rw e refl, omega arith, rw e refl))
  | inr e ↦ elim (Bool-cases (ltb (length rest) (get_uint32 a b c d))) [
    | inl f ↦ inl (rw (e, f) refl)
    | inr f ↦
        let n = get_uint32 a b c d in
        let fits : n ≤ length rest = ground arith in
        let g : ltb (length (rest ++ ys)) n ≡ false = ground (arith, length-append rest ys) in
        inr (
          inr (
            take (get_uint32 a b c d) rest,
            drop (get_uint32 a b c d) rest,
            rw (e, f) refl,
            omega (arith, length-drop (get_uint32 a b c d) rest),
            rw (e, g, take-append n rest ys fits, drop-append n rest ys fits) refl,
          ))
  ]
]

module _ {M : Type 0} (codec : MessageCodec M) where
  -- Fuel for each byte is enough.
  drain-fuel :
      (f g : ℕ) (xs : List ℕ) → length xs ≤ f → length xs ≤ g → drain codec f xs ≡ drain codec g xs
  unfolding drain
  drain-fuel zero zero xs h k = refl
  drain-fuel zero (suc g) [] h k = refl
  drain-fuel zero (suc g) (x ∷ xs) h k = absurd (omega arith)
  drain-fuel (suc f) zero [] h k = refl
  drain-fuel (suc f) zero (x ∷ xs) h k = absurd (omega arith)
  drain-fuel (suc f) (suc g) xs h k = elim (frame-cases xs []) [
    | inl e ↦ rw (e, drain) refl
    | inr (inl (rest, e, l, e')) ↦ rw (e, drain) (drain-fuel f g rest (omega arith) (omega arith))
    | inr (inr (bytes, rest, e, l, e')) ↦ elim (Option-cases (codec.decode bytes)) [
      | inl d ↦ rw (e, d, drain) refl
      | inr (m, d) ↦
          rw (e, d, drain) (ap (behind (m ∷ [])) (drain-fuel f g rest (omega arith) (omega arith)))
    ]
  ]

  -- The decoder goes on with what is left and the bytes that come next.
  abbrev pub joined : List M → Option (List ℕ) → List ℕ → Decoded M
  joined ms none ys = record { messages = ms; left = none }
  joined ms (some left) ys = behind ms (drain_all codec (left ++ ys))

  abbrev pub join : Decoded M → List ℕ → Decoded M
  join d ys = joined d.messages d.left ys

  joined-cons :
      (m : M) (ms : List M) (left : Option (List ℕ)) (ys : List ℕ)
      → joined (m ∷ ms) left ys ≡ behind (m ∷ []) (joined ms left ys)
  joined-cons m ms none ys = refl
  joined-cons m ms (some left) ys = refl

  drain_all-unfold : (xs : List ℕ) → drain_all codec xs ≡ drain codec (suc (length xs)) xs
  unfolding drain_all
  drain_all-unfold xs = drain-fuel (length xs) (suc (length xs)) xs (omega arith) (omega arith)

  pub drain_all-keep_alive :
      (xs rest : List ℕ)
      → frame xs ≡ keep_alive rest
      → length rest < length xs
      → drain_all codec xs ≡ drain_all codec rest
  unfolding drain_all drain
  drain_all-keep_alive xs rest e l =
      drain_all-unfold xs
      ∙ rw (e, drain) (drain-fuel (length xs) (length rest) rest (omega arith) (omega arith))

  pub drain_all-whole :
      (xs bytes rest : List ℕ) (m : M)
      → frame xs ≡ whole bytes rest
      → length rest < length xs
      → codec.decode bytes ≡ some m
      → drain_all codec xs ≡ behind (m ∷ []) (drain_all codec rest)
  unfolding drain_all drain
  drain_all-whole xs bytes rest m e l d =
      drain_all-unfold xs
      ∙ rw (e, d, drain)
          (ap (behind (m ∷ []))
            (drain-fuel (length xs) (length rest) rest (omega arith) (omega arith)))

  drain_all-invalid :
      (xs bytes rest : List ℕ)
      → frame xs ≡ whole bytes rest
      → codec.decode bytes ≡ none
      → drain_all codec xs ≡ stop none
  unfolding drain
  drain_all-invalid xs bytes rest e d = drain_all-unfold xs ∙ rw (e, d, drain) refl

  drain-append :
      (f : ℕ) (xs ys : List ℕ)
      → length xs ≤ f
      → drain_all codec (xs ++ ys) ≡ join (drain codec f xs) ys
  unfolding drain
  drain-append zero [] ys h = refl
  drain-append zero (x ∷ xs) ys h = absurd (omega arith)
  drain-append (suc f) xs ys h = elim (frame-cases xs ys) [
    | inl e ↦ rw (e, drain) refl
    | inr (inl (rest, e, l, e')) ↦
        drain_all-keep_alive (xs ++ ys) (rest ++ ys) e'
          (omega (arith, length-append rest ys, length-append xs ys))
        ∙ rw (e, drain) (drain-append f rest ys (omega arith))
    | inr (inr (bytes, rest, e, l, e')) ↦ elim (Option-cases (codec.decode bytes)) [
      | inl d ↦ drain_all-invalid (xs ++ ys) bytes (rest ++ ys) e' d ∙ rw (e, d, drain) refl
      | inr (m, d) ↦
          drain_all-whole (xs ++ ys) bytes (rest ++ ys) m e'
            (omega (arith, length-append rest ys, length-append xs ys)) d
          ∙ rw (e, d, drain)
              (ap (behind (m ∷ [])) (drain-append f rest ys (omega arith))
                ∙ sym (joined-cons m (drain codec f rest).messages (drain codec f rest).left ys))
    ]
  ]

  abbrev pub concat : List (List ℕ) → List ℕ
  concat [] = []
  concat (xs ∷ xss) = xs ++ concat xss

  resume :
      (chunks : List (List ℕ))
      → ((buffer : List ℕ)
          → decode_from codec buffer chunks ≡ drain_all codec (buffer ++ concat chunks))
      → (ms : List M) (left : Option (List ℕ))
      → (elim left as (λ _. Decoded M) [
        | none ↦ record { messages = ms; left = left }
        | some l ↦ behind ms (decode_from codec l chunks)
      ])
        ≡ joined ms left (concat chunks)
  resume chunks ih ms none = refl
  resume chunks ih ms (some l) = ap (behind ms) (ih l)

  decode_from-eq-drain_all :
      (buffer : List ℕ) (chunks : List (List ℕ))
      → decode_from codec buffer chunks ≡ drain_all codec (buffer ++ concat chunks)
  unfolding decode_from drain_all
  decode_from-eq-drain_all buffer [] = rw (append-nil buffer) refl
  decode_from-eq-drain_all buffer (chunk ∷ chunks) =
      let d = drain_all codec (buffer ++ chunk) in
      resume chunks (λ b. decode_from-eq-drain_all b chunks) d.messages d.left
      ∙ sym
          (drain-append (length (buffer ++ chunk)) (buffer ++ chunk) (concat chunks) (omega arith))
      ∙ ap (drain_all codec) (append_assoc buffer chunk (concat chunks))

  -- However the bytes of a stream are cut into chunks, the client decodes them as if they had come at
  -- once: the same messages in the same order, and the same error or the same bytes left at the end.
  pub decode_length_prefixed_stream-eq-drain_all :
      (chunks : List (List ℕ))
      → decode_length_prefixed_stream codec chunks ≡ drain_all codec (concat chunks)
  unfolding decode_length_prefixed_stream
  decode_length_prefixed_stream-eq-drain_all chunks = decode_from-eq-drain_all [] chunks
