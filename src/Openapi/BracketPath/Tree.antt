-- ===== src/Openapi/BracketPath/Tree.antt =====
-- packages/openapi/src/bracket-notation.ts, `deserialize`. An array is held by its slots, since writing
-- to an index may leave holes, and by its membership in `arrayPushStyles`.
use orpc.Prelude.{
  ℕ, suc, ◌+◌, ◌*◌, ◌-◌, max, Bool, true, false, Option, none, some, List, [], ◌∷◌, ◌&&◌, ◌||◌,
  ◌==◌, not, leb, ltb, if◌then◌else◌,
}
use orpc.Openapi.BracketPath.{Text, parse_path}
use orpc.Openapi.BracketPath.Entries.{Entry, decimal}

mutual
  pub data Node : Type 0 where
    value : ℕ → Node
    array : Bool → Slots → Node
    object : Properties → Node

  pub data Slots : Type 0 where
    no_slots : Slots
    slot : ℕ → Node → Slots → Slots

  pub data Properties : Type 0 where
    no_properties : Properties
    property : Text → Node → Properties → Properties

unfoldable pub text_eq : Text → Text → Bool
text_eq [] [] = true
text_eq (c ∷ s) (d ∷ t) = (c == d) && text_eq s t
text_eq _ _ = false

abbrev is_digit : ℕ → Bool
is_digit c = leb 48 c && leb c 57

abbrev all_digits : Text → Bool
all_digits [] = true
all_digits (c ∷ t) = is_digit c && all_digits t

-- INTEGER_PATTERN
abbrev is_integer : Text → Bool
is_integer [] = false
is_integer (c ∷ []) = is_digit c
is_integer (c ∷ d ∷ t) = leb 49 c && leb c 57 && all_digits (d ∷ t)

-- `Number(text)` of digits
unfoldable pub number : ℕ → Text → ℕ
number n [] = n
number n (c ∷ t) = number (n * 10 + (c - 48)) t

unfoldable pub internal_is_valid_array_index : ℕ → Text → Bool
unfolding number
internal_is_valid_array_index max_index t = is_integer t && leb (number 0 t) max_index

abbrev array_length : Slots → ℕ
array_length no_slots = 0
array_length (slot i n slots) = max (suc i) (array_length slots)

unfoldable pub get_slot : Slots → ℕ → Option Node
get_slot no_slots j = none
get_slot (slot i n slots) j = if i == j then some n else get_slot slots j

unfoldable pub set_slot : Slots → ℕ → Node → Slots
set_slot no_slots j m = slot j m no_slots
set_slot (slot i n slots) j m =
    let later = set_slot slots j m in if i == j then slot i m slots else slot i n later

unfoldable pub get_property : Properties → Text → Option Node
unfolding text_eq
get_property no_properties k = none
get_property (property j n ps) k = if text_eq j k then some n else get_property ps k

-- a key that is an array index of the language
abbrev pub is_index : Text → Bool
is_index t = is_integer t && ltb (number 0 t) 4294967295

-- Objects list the array indices first, in ascending order, and then the other keys as they came.
unfoldable pub precedes : Text → Text → Bool
unfolding number
precedes k j = is_index k && (not (is_index j) || ltb (number 0 k) (number 0 j))

-- `obj[k] = m`
unfoldable pub set_property : Properties → Text → Node → Properties
unfolding text_eq precedes
set_property no_properties k m = property k m no_properties
set_property (property j n ps) k m =
    let later = set_property ps k m in
    if text_eq j k
    then property j m ps
    else if precedes k j
    then property k m (property j n ps)
    else property j n later

abbrev push_slot : Slots → Node → Slots
push_slot slots n = set_slot slots (array_length slots) n

unfoldable pub internal_array_to_object : Slots → Properties
unfolding set_property
internal_array_to_object no_slots = no_properties
internal_array_to_object (slot i n slots) =
    set_property (internal_array_to_object slots) (decimal i) n

unfoldable pub internal_push_style_array_to_object : Slots → Properties
internal_push_style_array_to_object (slot i n no_slots) =
    property [] (if i == 0 then n else array false (slot i n no_slots)) no_properties
internal_push_style_array_to_object slots = property [] (array false slots) no_properties

abbrev array_to_object : Bool → Slots → Node
array_to_object true slots = object (internal_push_style_array_to_object slots)
array_to_object false slots = object (internal_array_to_object slots)

-- what is no array and no plain object becomes an empty array
abbrev container : Option Node → Node
container (some (array push slots)) = array push slots
container (some (object ps)) = object ps
container _ = array false no_slots

abbrev is_empty_text : Text → Bool
is_empty_text [] = true
is_empty_text (c ∷ t) = false

-- An array that the segment does not fit becomes an object.
unfoldable pub coerce : ℕ → Text → Bool → Node → Node
unfolding internal_is_valid_array_index internal_array_to_object internal_push_style_array_to_object
coerce max_index s is_last (array push slots) =
    let fits = internal_is_valid_array_index max_index s in
    let same = array push slots in
    if not is_last
    then (if fits then same else array_to_object push slots)
    else if is_empty_text s
    then (if ltb 0 (array_length slots) && not push then array_to_object false slots else same)
    else (if push || not fits then array_to_object push slots else same)
coerce max_index s is_last n = n

abbrev get_child : Node → Text → Option Node
get_child (value v) s = none
get_child (array push slots) s = get_slot slots (number 0 s)
get_child (object ps) s = get_property ps s

abbrev set_child : Node → Text → Node → Node
set_child (value v) s n = value v
set_child (array push slots) s n = array push (set_slot slots (number 0 s) n)
set_child (object ps) s n = object (set_property ps s n)

-- the value that a slot holds once `value` is written to it
abbrev written : Option Node → ℕ → Node
written none v = value v
written (some (array push slots)) v = array push (push_slot slots (value v))
written (some n) v = array false (slot 0 n (slot 1 (value v) no_slots))

-- the assignment at the end of a path
unfoldable pub assign : Node → Text → ℕ → Node
unfolding get_property set_property get_slot set_slot
assign (array push slots) [] v = array true (push_slot slots (value v))
assign n s v = set_child n s (written (get_child n s) v)

-- the loop over the segments, from the slot that the first one is looked up in
unfoldable pub insert : ℕ → Text → List Text → ℕ → Option Node → Node
unfolding coerce assign
insert max_index s [] v at = assign (coerce max_index s true (container at)) s v
insert max_index s (t ∷ ts) v at =
    let c = coerce max_index s false (container at) in
    set_child c s (insert max_index t ts v (get_child c s))

abbrev pub insert_path : ℕ → List Text → ℕ → Node → Node
insert_path max_index [] v root = root
insert_path max_index (s ∷ ss) v root = insert max_index s ss v (some root)

unfoldable pub deserialize_onto : ℕ → Node → List Entry → Node
unfolding insert
deserialize_onto max_index root [] = root
deserialize_onto max_index root ((path, v) ∷ entries) =
    deserialize_onto max_index (insert_path max_index (parse_path path) v root) entries

unfoldable pub deserialize : ℕ → List Entry → Node
unfolding deserialize_onto
deserialize max_index entries = deserialize_onto max_index (object no_properties) entries
