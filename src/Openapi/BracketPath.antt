-- ===== src/Openapi/BracketPath.antt =====
-- packages/openapi/src/bracket-notation.ts: `stringifyPath`, `parsePath` and `serialize`. A text is
-- the list of its code units; an index segment is given as the text that it prints to.
pub mod Parsing
pub mod Entries
pub mod ParseBack
pub mod Tree
pub mod Order
pub mod Flat
mod Tests
use orpc.Prelude.{ℕ, Bool, true, false, List, [], ◌∷◌, ◌++◌, ◌&&◌, ◌||◌, ◌==◌, if◌then◌else◌}

abbrev pub Text : Type 0
Text = List ℕ

abbrev pub is_open : ℕ → Bool
is_open c = c == 91

abbrev pub is_close : ℕ → Bool
is_close c = c == 93

abbrev pub bracketed : Text → Text
bracketed s = 91 ∷ s ++ 93 ∷ []

unfoldable pub stringify_rest : Text → List Text → Text
stringify_rest result [] = result
stringify_rest result (s ∷ ss) = stringify_rest (result ++ bracketed s) ss

unfoldable pub stringify_path : List Text → Text
unfolding stringify_rest
stringify_path [] = []
stringify_path (s ∷ ss) = stringify_rest s ss

-- the loop variables of `parsePath`
pub record Parser : Type 0 where
  pub segments : List Text
  pub in_brackets : Bool
  pub current_segment : Text

abbrev pub no_segments : Parser → Bool
no_segments p = elim p.segments [ [] ↦ true | s ∷ ss ↦ false ]

-- `segments.push(currentSegment)` and `currentSegment = ''`, with `inBrackets` as given
abbrev pub close_segment : Bool → Parser → Parser
close_segment inside p = record {
  segments = p.segments ++ p.current_segment ∷ [];
  in_brackets = inside;
  current_segment = [];
}

-- a character that ends no segment
abbrev pub consume : ℕ → Parser → Parser
consume c p =
    if no_segments p && is_open c
    then close_segment true p
    else record p { current_segment = p.current_segment ++ c ∷ [] }

unfoldable pub parse_loop : Text → Parser → Parser
parse_loop [] p = p
parse_loop (c ∷ []) p = if p.in_brackets && is_close c then close_segment false p else consume c p
parse_loop (c ∷ d ∷ cs) p = elim (p.in_brackets && is_close c && is_open d) [
  | true ↦ parse_loop cs (close_segment p.in_brackets p)
  | false ↦ parse_loop (d ∷ cs) (consume c p)
]

abbrev pub parsed : Text → Parser → List Text
parsed path p = if p.in_brackets || no_segments p then path ∷ [] else p.segments

unfoldable pub parse_path : Text → List Text
unfolding parse_loop
parse_path path =
    parsed path
      (parse_loop path (record { segments = []; in_brackets = false; current_segment = [] }))
