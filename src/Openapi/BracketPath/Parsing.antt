-- ===== src/Openapi/BracketPath/Parsing.antt =====
-- Paths that print and parse back.
use orpc.Prelude.{
  ℕ, Bool, true, false, List, [], ◌∷◌, ◌++◌, ◌&&◌, ◌≡◌, refl, arith, not, All, sym, ap, ◌∙◌, subst,
}
use mathlib.Core.List.{append_assoc, append-nil}
use orpc.Openapi.BracketPath.{
  Text, is_open, is_close, bracketed, stringify_rest, stringify_path, Parser, parse_loop, consume,
  parse_path,
}

-- no opening bracket
abbrev pub is_plain : Text → Bool
is_plain [] = true
is_plain (c ∷ cs) = not (is_open c) && is_plain cs

-- no closing bracket with an opening one right behind it
abbrev pub is_unbroken : Text → Bool
is_unbroken [] = true
is_unbroken (c ∷ []) = true
is_unbroken (c ∷ d ∷ cs) = not (is_close c && is_open d) && is_unbroken (d ∷ cs)

abbrev brackets : List Text → Text
brackets [] = []
brackets (s ∷ ss) = 91 ∷ s ++ 93 ∷ brackets ss

stringify_rest-eq : (r : Text) (ss : List Text) → stringify_rest r ss ≡ r ++ brackets ss
unfolding stringify_rest
stringify_rest-eq r [] = sym (append-nil r)
stringify_rest-eq r (s ∷ ss) =
    stringify_rest-eq (r ++ bracketed s) ss
    ∙ append_assoc r (bracketed s) (brackets ss)
    ∙ ap (λ x. r ++ 91 ∷ x) (append_assoc s (93 ∷ []) (brackets ss))

-- the state inside brackets, behind some segments
abbrev inside : Text → List Text → Text → Parser
inside t ts cur = record { segments = t ∷ ts; in_brackets = true; current_segment = cur }

abbrev outside : Text → List Text → Parser
outside t ts = record { segments = t ∷ ts; in_brackets = false; current_segment = [] }

-- the end, or an opening bracket
abbrev at_end : Text → Bool
at_end [] = true
at_end (c ∷ cs) = is_open c

parse_loop-consume :
    (c : ℕ) (cs : Text) (p : Parser)
    → (p.in_brackets && is_close c && at_end cs) ≡ false
    → parse_loop (c ∷ cs) p ≡ parse_loop cs (consume c p)
unfolding parse_loop
parse_loop-consume c [] p h = ground arith
parse_loop-consume c (d ∷ cs) p h = rw (h, parse_loop) refl

unbroken-at_end :
    (c : ℕ) (s r : Text) → is_unbroken (c ∷ s) ≡ true → (is_close c && at_end (s ++ 93 ∷ r)) ≡ false
unbroken-at_end c [] r h = ground arith
unbroken-at_end c (d ∷ s) r h = ground arith

unbroken-tail : (c : ℕ) (s : Text) → is_unbroken (c ∷ s) ≡ true → is_unbroken s ≡ true
unbroken-tail c [] h = refl
unbroken-tail c (d ∷ s) h = ground arith

parse_loop-between :
    (t : Text) (ts : List Text) (cur cs : Text)
    → parse_loop (93 ∷ 91 ∷ cs) (inside t ts cur) ≡ parse_loop cs (inside t (ts ++ cur ∷ []) [])
unfolding parse_loop
parse_loop-between t ts cur cs = refl

parse_inside :
    (t : Text) (ts : List Text) (cur s : Text) (ss : List Text)
    → is_unbroken s ≡ true
    → All (λ x. is_unbroken x ≡ true) ss
    → parse_loop (s ++ 93 ∷ brackets ss) (inside t ts cur) ≡ outside t (ts ++ (cur ++ s) ∷ ss)
parse_inside t ts cur [] [] h k =
    unfold parse_loop in ap (λ x. outside t (ts ++ x ∷ [])) (sym (append-nil cur))
parse_inside t ts cur [] (s ∷ ss) h k =
    parse_loop-between t ts cur (s ++ 93 ∷ brackets ss)
    ∙ parse_inside t (ts ++ cur ∷ []) [] s ss k.0 k.1
    ∙ ap (λ x. outside t x) (append_assoc ts (cur ∷ []) (s ∷ ss))
    ∙ ap (λ x. outside t (ts ++ x ∷ s ∷ ss)) (sym (append-nil cur))
parse_inside t ts cur (c ∷ s) ss h k =
    parse_loop-consume c (s ++ 93 ∷ brackets ss) (inside t ts cur)
      (unbroken-at_end c s (brackets ss) h)
    ∙ parse_inside t ts (cur ++ c ∷ []) s ss (unbroken-tail c s h) k
    ∙ ap (λ x. outside t (ts ++ x ∷ ss)) (append_assoc cur (c ∷ []) s)

abbrev begun : Text → Parser
begun cur = record { segments = []; in_brackets = false; current_segment = cur }

plain_consumed :
    (c : ℕ) (cur : Text) → is_open c ≡ false → consume c (begun cur) ≡ begun (cur ++ c ∷ [])
plain_consumed c cur h = rw h refl

parse_plain :
    (cur s r : Text)
    → is_plain s ≡ true
    → parse_loop (s ++ r) (begun cur) ≡ parse_loop r (begun (cur ++ s))
parse_plain cur [] r h = ap (λ x. parse_loop r (begun x)) (sym (append-nil cur))
parse_plain cur (c ∷ s) r h =
    parse_loop-consume c (s ++ r) (begun cur) refl
    ∙ ap (λ x. parse_loop (s ++ r) x) (plain_consumed c cur (ground arith))
    ∙ parse_plain (cur ++ c ∷ []) s r (ground arith)
    ∙ ap (λ x. parse_loop r (begun x)) (append_assoc cur (c ∷ []) s)

parse_loop-first : (t cs : Text) → parse_loop (91 ∷ cs) (begun t) ≡ parse_loop cs (inside t [] [])
parse_loop-first t cs = parse_loop-consume 91 cs (begun t) refl

one_parsed : (path : Text) → parse_loop path (begun []) ≡ begun path → parse_path path ≡ path ∷ []
unfolding parse_path
one_parsed path h = rw h refl

many_parsed :
    (t : Text) (ts : List Text) (path : Text)
    → parse_loop path (begun []) ≡ outside t ts
    → parse_path path ≡ t ∷ ts
unfolding parse_path
many_parsed t ts path h = rw h refl

-- A path of at least one segment prints to a text that parses to the same segments, if the first one
-- has no opening bracket and no other has a closing bracket with an opening one right behind it.
pub parse-stringify :
    (s : Text) (ss : List Text)
    → is_plain s ≡ true
    → All (λ x. is_unbroken x ≡ true) ss
    → parse_path (stringify_path (s ∷ ss)) ≡ s ∷ ss
unfolding parse_path stringify_path
parse-stringify s [] h k =
    one_parsed s
      (subst (λ x. parse_loop x (begun []) ≡ begun s) (append-nil s) (parse_plain [] s [] h))
parse-stringify s (x ∷ ss) h k =
    rw
      (
        stringify_rest-eq (s ++ bracketed x) ss,
        append_assoc s (bracketed x) (brackets ss),
        append_assoc x (93 ∷ []) (brackets ss),
      )
      (many_parsed s (x ∷ ss) (s ++ 91 ∷ (x ++ 93 ∷ brackets ss)) (
        parse_plain [] s (91 ∷ (x ++ 93 ∷ brackets ss)) h
        ∙ parse_loop-first s (x ++ 93 ∷ brackets ss)
        ∙ parse_inside s [] [] x ss k.0 k.1))
