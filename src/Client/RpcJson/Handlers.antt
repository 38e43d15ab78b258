-- ===== src/Client/RpcJson/Handlers.antt =====
-- The built-in handlers of the serializer, and what its constructor makes of the custom ones. The
-- conversions of the language are parameters; a throw is `none`. The table is in the order of its keys,
-- none of which is an array index.
use Prim.Native.Char.{Char, code}
use orpc.Prelude.{
  ℕ, zero, suc, String, Bool, true, false, Option, none, some, List, [], ◌∷◌, ◌++◌, ◌&&◌, ◌||◌, not,
  str_eq, ◌==◌, leb, if◌then◌else◌, or_else,
}
use mathlib.Core.Option
use orpc.Client.RpcJson.{
  Segment, index, seg_eq, Value, null, undefined, nan, function, str, bigint, url, boolean, num,
  blob, other, date, regexp, set, map, arr, obj, Items, nil, cons, Fields, end, field, is_undefined,
}
use orpc.Prelude.JsMap
use orpc.Prelude.JsMap.{JsMap, get}
use orpc.Client.RpcJson.Serializer.{Handler, Config, date_json, regexp_text, ◌>>=◌}

-- `BigInt(x)`, `new URL(x)`: `none` is a throw; `new Date(x)`: `none` is an invalid date; whether
-- `new RegExp(pattern, flags)` accepts its arguments
pub record Natives : Type 0 where
  pub bigint_of : Value → Option String
  pub url_of : Value → Option String
  pub date_of : Value → Option String
  pub regexp_ok : String → String → Bool

abbrev pub is_lower : Char → Bool
is_lower c = leb 97 (code c) && leb (code c) 122

abbrev pub all_lower : String → Bool
all_lower String.[] = true
all_lower (String.◌∷◌ c s) = is_lower c && all_lower s

-- Behind the leading slash of REGEX_STRING_PATTERN: the greedy pattern ends at the last slash with
-- nothing but lower case letters behind it.
unfoldable pub split_pattern : String → Option (String × String)
split_pattern String.[] = none
split_pattern (String.◌∷◌ c s) = elim (split_pattern s) [
  | some (pattern, flags) ↦ some (String.◌∷◌ c pattern, flags)
  | none ↦ if (code c == b'/') && all_lower s then some ("", s) else none
]

unfoldable pub match_regexp : String → Option (String × String)
unfolding split_pattern
match_regexp String.[] = none
match_regexp (String.◌∷◌ c s) = if code c == b'/' then split_pattern s else none

-- SameValueZero: primitives by value, objects by identity, and no two objects here are one
abbrev pub same_value : Value → Value → Bool
same_value null null = true
same_value undefined undefined = true
same_value nan nan = true
same_value (str a) (str b) = str_eq a b
same_value (bigint a) (bigint b) = str_eq a b
same_value (num a) (num b) = a == b
same_value (boolean true) (boolean true) = true
same_value (boolean false) (boolean false) = true
same_value _ _ = false

abbrev pub has : Value → Items → Bool
has v nil = false
has v (cons x xs) = same_value x v || has v xs

-- `new Set(xs)`: behind the elements `seen`, what is new is kept
unfoldable pub dedupe : Items → Items → Items
dedupe seen nil = nil
dedupe seen (cons x xs) =
    let old = dedupe seen xs in
    let new = cons x (dedupe (cons x seen) xs) in if has x seen then old else new

abbrev pub chars : String → Items
chars String.[] = nil
chars (String.◌∷◌ c s) = cons (str (String.◌∷◌ c "")) (chars s)

-- what the language iterates over; `none` is a throw
abbrev pub iterate : Value → Option Items
iterate null = some nil
iterate undefined = some nil
iterate (str s) = some (chars s)
iterate (arr xs) = some xs
iterate (set xs) = some xs
iterate (map xs) = some xs
iterate _ = none

abbrev pub nth : Items → ℕ → Value
nth nil i = undefined
nth (cons x xs) zero = x
nth (cons x xs) (suc i) = nth xs i

abbrev pub field_at : Fields → Segment → Value
field_at end k = undefined
field_at (field j v fs) k = if seg_eq j k then v else field_at fs k

abbrev pub pair : Value → Value → Value
pair k v = arr (cons k (cons v nil))

-- the key and value that `new Map` takes from an element, which must be an object
abbrev pub entry_of : Value → Option (Value × Value)
entry_of (arr xs) = some (nth xs 0, nth xs 1)
entry_of (obj fs) = some (field_at fs (index 0), field_at fs (index 1))
entry_of (date d) = some (undefined, undefined)
entry_of (url u) = some (undefined, undefined)
entry_of (regexp p f) = some (undefined, undefined)
entry_of (set xs) = some (undefined, undefined)
entry_of (map xs) = some (undefined, undefined)
entry_of (blob b) = some (undefined, undefined)
entry_of (other n) = some (undefined, undefined)
entry_of function = some (undefined, undefined)
entry_of _ = none

-- `map.set(k, v)` on the pairs of a map
unfoldable pub set_entry : Value → Value → Items → Items
set_entry k v nil = cons (pair k v) nil
set_entry k v (cons e es) =
    if same_value (nth (elim e [ arr xs ↦ xs | _ ↦ nil ]) 0) k
    then cons (pair k v) es
    else cons e (set_entry k v es)

unfoldable pub set_entries : Items → Items → Option Items
unfolding set_entry
set_entries done nil = some done
set_entries done (cons e es) = do kv ← entry_of e; set_entries (set_entry kv.0 kv.1 done) es

abbrev pub nullish : Value → Bool
nullish null = true
nullish undefined = true
nullish _ = false

abbrev pub is_nan : Value → Bool
is_nan nan = true
is_nan _ = false

abbrev pub is_bigint : Value → Bool
is_bigint (bigint n) = true
is_bigint _ = false

abbrev pub is_date : Value → Bool
is_date (date d) = true
is_date _ = false

abbrev pub is_url : Value → Bool
is_url (url u) = true
is_url _ = false

abbrev pub is_regexp : Value → Bool
is_regexp (regexp p f) = true
is_regexp _ = false

abbrev pub is_set : Value → Bool
is_set (set xs) = true
is_set _ = false

abbrev pub is_map : Value → Bool
is_map (map xs) = true
is_map _ = false

-- what the serializers of the terminal handlers return, on the values that they are called with
abbrev pub print : Value → Value
print (bigint n) = str n
print (date d) = date_json d
print (url u) = str u
print (regexp p f) = str (regexp_text p f)
print v = null

-- `Array.from(data)`, `Array.from(data.entries())`
abbrev pub spread : Value → Value
spread (set xs) = arr xs
spread (map xs) = arr xs
spread v = v

abbrev pub terminal : (Value → Bool) → (Value → Value) → (Value → Option Value) → Handler
terminal condition serialize deserialize = record {
  condition = condition;
  serialize = serialize;
  deserialize = deserialize;
  is_terminal = true;
}

abbrev pub walked : (Value → Bool) → (Value → Option Value) → Handler
walked condition deserialize = record {
  condition = condition;
  serialize = spread;
  deserialize = deserialize;
  is_terminal = false;
}

-- `new Set(x)` and `new Map(x)`
unfoldable pub new_set : Value → Option Value
new_set v = Option.map (λ xs. set (dedupe nil xs)) (iterate v)

unfoldable pub new_map : Value → Option Value
new_map v = do xs ← iterate v; es ← set_entries nil xs; some (map es)

module _ (natives : Natives) where
  -- `serialized.match(REGEX_STRING_PATTERN)!` and `new RegExp(pattern!, flags)`
  unfoldable pub regexp_of : Value → Option Value
  regexp_of (str s) = elim (match_regexp s) [
    | none ↦ none
    | some (pattern, flags) ↦
        if natives.regexp_ok pattern flags then some (regexp pattern flags) else none
  ]
  regexp_of _ = none

  -- DEFAULT_RPC_JSON_SERIALIZER_HANDLERS
  abbrev pub built_in : List (String × Handler)
  built_in =
      ("undefined", terminal is_undefined (λ v. null) (λ v. some undefined))
      ∷ ("bigint", terminal is_bigint print (λ v. Option.map bigint (natives.bigint_of v)))
      ∷ (
        "date",
        terminal is_date print (λ v. some (date (if nullish v then none else natives.date_of v))),
      )
      ∷ ("nan", terminal is_nan (λ v. null) (λ v. some nan))
      ∷ ("url", terminal is_url print (λ v. Option.map url (natives.url_of v)))
      ∷ ("regexp", terminal is_regexp print regexp_of)
      ∷ ("set", walked is_set new_set)
      ∷ ("map", walked is_map new_map)
      ∷ []

abbrev pub some_each : List (String × Handler) → JsMap (Option Handler)
some_each [] = []
some_each ((key, h) ∷ l) = (key, some h) ∷ some_each l

-- the handlers of a table that are not disabled
unfoldable pub defined : JsMap (Option Handler) → List (String × Handler)
defined [] = []
defined ((key, none) ∷ l) = defined l
defined ((key, some h) ∷ l) = (key, h) ∷ defined l

-- the loop variables of the constructor
pub record Setup : Type 0 where
  pub handlers : JsMap (Option Handler)
  pub inline_built_in_handlers : Bool
  pub handler_entries : List (String × Handler)

-- `handlerEntries.push([key, handler])`, unless the handler is `undefined`
abbrev pub push_entry : String → Option Handler → List (String × Handler) → List (String × Handler)
push_entry key none entries = entries
push_entry key (some h) entries = entries ++ (key, h) ∷ []

-- the names that every object inherits
abbrev pub is_inherited : String → Bool
is_inherited key =
    str_eq key "constructor"
    || str_eq key "hasOwnProperty"
    || str_eq key "isPrototypeOf"
    || str_eq key "propertyIsEnumerable"
    || str_eq key "toLocaleString"
    || str_eq key "toString"
    || str_eq key "valueOf"
    || str_eq key "__proto__"
    || str_eq key "__defineGetter__"
    || str_eq key "__defineSetter__"
    || str_eq key "__lookupGetter__"
    || str_eq key "__lookupSetter__"

-- `key in DEFAULT_RPC_JSON_SERIALIZER_HANDLERS`
abbrev pub is_default : JsMap (Option Handler) → String → Bool
is_default defaults key = JsMap.is_some (get defaults key) || is_inherited key

-- one round of the loop over the custom handlers
unfoldable pub add_custom : JsMap (Option Handler) → Setup → String → Option Handler → Setup
add_custom defaults s key handler =
    let inlined = s.inline_built_in_handlers && not (is_default defaults key) in
    record {
      handlers = JsMap.set s.handlers key handler;
      inline_built_in_handlers = inlined;
      handler_entries =
          if inlined then push_entry key handler s.handler_entries else s.handler_entries;
    }

unfoldable pub add_customs : JsMap (Option Handler) → Setup → JsMap (Option Handler) → Setup
unfolding add_custom
add_customs defaults s [] = s
add_customs defaults s ((key, handler) ∷ custom) =
    add_customs defaults (add_custom defaults s key handler) custom

-- `RPCJsonSerializer`: what `serialize` reads, and the table that `deserialize` reads
pub record RpcJsonSerializer : Type 0 where
  pub config : Config
  pub handlers : JsMap (Option Handler)

-- the constructor; `omit` is `options.omitUndefinedProperties !== false`
unfoldable pub construct : Natives → Option (JsMap (Option Handler)) → Bool → RpcJsonSerializer
unfolding add_customs defined
construct natives none omit = record {
  config = record {
    inline_built_in_handlers = true;
    handler_entries = [];
    omit_undefined_properties = omit;
  };
  handlers = some_each (built_in natives);
}
construct natives (some custom) omit =
    let defaults = some_each (built_in natives) in
    let start : Setup = record {
      handlers = defaults;
      inline_built_in_handlers = true;
      handler_entries = [];
    } in
    let s = add_customs defaults start custom in
    record {
      config = record {
        inline_built_in_handlers = s.inline_built_in_handlers;
        handler_entries =
            if s.inline_built_in_handlers then s.handler_entries else defined s.handlers;
        omit_undefined_properties = omit;
      };
      handlers = s.handlers;
    }

-- `RPCJsonSerializerOptions`; a handler that is `undefined` disables its key
pub record RpcJsonSerializerOptions : Type 0 where
  pub handlers : Option (JsMap (Option Handler))
  pub omit_undefined_properties : Option Bool

-- `new RPCJsonSerializer(options)`; properties are omitted unless the option is `false`
abbrev pub new_serializer : Natives → RpcJsonSerializerOptions → RpcJsonSerializer
new_serializer natives o = construct natives o.handlers (or_else o.omit_undefined_properties true)
