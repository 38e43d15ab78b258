-- ===== src/Client/RpcJson/RegexpText.antt =====
-- REGEX_STRING_PATTERN on the text of a regular expression.
use Prim.Native.Char.{Char}
use Prim.Native.String
use text.Mathlib.TextLemmas.{nil-append, cons-append}
use orpc.Prelude.{String, true, none, some, ◌≡◌, refl, arith}
use orpc.Client.RpcJson.Serializer.{regexp_text}
use orpc.Client.RpcJson.Handlers.{match_regexp, split_pattern, all_lower}

-- The greedy pattern gives back the source and the flags that were printed.
split_pattern_lower : (f : String) → all_lower f ≡ true → split_pattern f ≡ none
unfolding split_pattern
split_pattern_lower String.[] h = refl
split_pattern_lower (String.◌∷◌ c s) h = ground (arith, split_pattern_lower s)

split_pattern-cons :
    (c : Char) (s : String) {p f : String}
    → split_pattern s ≡ some (p, f)
    → split_pattern (String.◌∷◌ c s) ≡ some (String.◌∷◌ c p, f)
unfolding split_pattern
split_pattern-cons c s h = rw (h, split_pattern)

split_pattern_lem :
    (p f : String)
    → all_lower f ≡ true
    → split_pattern (String.◌++◌ p (String.◌++◌ "/" f)) ≡ some (p, f)
split_pattern_lem String.[] f h =
    rw (nil-append, cons-append, nil-append)
      (unfold split_pattern in rw (split_pattern_lower f h, h))
split_pattern_lem (String.◌∷◌ c p) f h =
    rw (cons-append c p (String.◌++◌ "/" f)) (split_pattern-cons c _ (split_pattern_lem p f h))

pub match_regexp_lem :
    (p f : String) → all_lower f ≡ true → match_regexp (regexp_text p f) ≡ some (p, f)
unfolding match_regexp
match_regexp_lem p f h = rw (cons-append, nil-append) (split_pattern_lem p f h)
