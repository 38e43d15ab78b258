-- ===== src/Client/RpcJson/Tests.antt =====
-- The serializer of packages/client/src/rpc-json-serializer.ts on concrete values.
use orpc.Prelude.{Option, ◌⊎◌, ◌≤◌, true, false, none, some, [], ◌∷◌, ◌≡◌, refl, arith}
use orpc.Prelude.JsMap
use orpc.Prelude.JsMap.{JsMap, get}
use orpc.Client.RpcJson.{
  index, name, Value, null, undefined, nan, str, bigint, blob, date, regexp, set, arr, obj, nil,
  cons, end, field,
}
use orpc.Client.RpcJson.Serializer.{
  Handler, final, look, or_look, inline_look, handler_look, serialize_value, serialize, ◌>>=◌,
  walk_items, walk_fields, walk_structure,
}
use orpc.Client.RpcJson.Handlers.{
  Natives, RpcJsonSerializer, construct, new_serializer, built_in, some_each, match_regexp,
  split_pattern, dedupe, set_entries, new_set, new_map, regexp_of, terminal, is_nan, add_customs,
  defined,
}
use orpc.Client.RpcJson.Deserializer.{deserialize, at_path, in_slot, apply, restore}
use orpc.Client.RpcJson.Encoding.{kept, height, json, metas, blobs}
use orpc.Client.RpcJson.Restoring.{Sendable}
use orpc.Client.RpcJson.Refinement.{SameLook, table-SameLook, construct-IsBuiltIn}
use orpc.Client.RpcJson.RoundTrip.{serialization, serialize-eq-serialization, sent, round_trip}
use orpc.Client.RpcJson.Custom.{set_all, gives_default, look-construct}

serializer : Unit {0}
unfolding serialize serialize_value look inline_look handler_look walk_items walk_fields
    walk_structure construct deserialize at_path in_slot apply restore kept height match_regexp
    split_pattern dedupe set_entries new_set new_map regexp_of get JsMap.set Sendable json metas
    blobs add_customs defined
serializer = tt

-- conversions that accept the texts of the example
abbrev natives : Natives
natives = record {
  bigint_of = λ v. elim v [ str s ↦ some s | _ ↦ none ];
  url_of = λ v. elim v [ str s ↦ some s | _ ↦ none ];
  date_of = λ v. elim v [ str s ↦ some s | _ ↦ none ];
  regexp_ok = λ p f. true;
}

-- { a: [1n, NaN, undefined], b: new Set([Blob]), c: undefined, d: /x/g }
abbrev value : Value
value = obj (
    field (name "a") (arr (cons (bigint "1") (cons nan (cons undefined nil)))) (
      field (name "b") (set (cons (blob 5) nil))
        (field (name "c") undefined (field (name "d") (regexp "x" "g") end))))

abbrev plain : RpcJsonSerializer
plain = new_serializer natives (record { handlers = none; omit_undefined_properties = none })

serialize_tests :
    serialize plain.config 9 value
    ≡ some (record {
      json = obj (
          field
            (name "a")
            (arr (cons (str "1") (cons null (cons null nil))))
            (field (name "b") (arr (cons (blob 5) nil)) (field (name "d") (str "/x/g") end)));
      meta =
          ("bigint", name "a" ∷ index 0 ∷ [])
          ∷ ("nan", name "a" ∷ index 1 ∷ [])
          ∷ ("undefined", name "a" ∷ index 2 ∷ [])
          ∷ ("set", name "b" ∷ [])
          ∷ ("regexp", name "d" ∷ [])
          ∷ [];
      maps = (name "b" ∷ index 0 ∷ []) ∷ [];
      blobs = 5 ∷ [];
    })
unfolding serializer
serialize_tests = refl

value-height : height value ≤ 9
unfolding serializer
value-height = omega arith

serialize_example :
    serialize plain.config 9 value
    ≡ some (serialization (kept plain.config.omit_undefined_properties value))
serialize_example =
    serialize-eq-serialization plain.config 9 value (construct-IsBuiltIn natives true) value-height

value-Sendable : Sendable natives (kept plain.config.omit_undefined_properties value)
unfolding serializer
value-Sendable = (
  (refl, (refl, tt)),
  (refl, (tt, (tt, tt))),
  ((refl, tt), ((tt, tt), refl), (tt, (refl, refl), tt)),
)

same_table : plain.handlers ≡ some_each (built_in natives)
unfolding construct
same_table = refl

round_trip_example :
    (serialize plain.config 9 value >>= λ s. deserialize plain.handlers (sent s))
    ≡ some (kept plain.config.omit_undefined_properties value)
round_trip_example =
    round_trip natives plain 9 value (construct-IsBuiltIn natives true) same_table value-height
      value-Sendable

table-SameLook_example :
    SameLook (date none) (handler_look (built_in natives) (date none)) (inline_look (date none))
table-SameLook_example = table-SameLook natives (date none)

abbrev trimmed : Handler
trimmed = terminal (λ v. elim v [ str s ↦ true | _ ↦ false ]) (λ v. str "") (λ v. some v)

abbrev nan_anew : Handler
nan_anew = terminal is_nan (λ v. null) (λ v. some nan)

abbrev trimming : JsMap (Option Handler)
trimming = ("custom", some trimmed) ∷ []

-- the handler of a text is used only beside one for a built-in key
custom_tests :
    (look (construct natives (some trimming) true).config (str " a") ≡ final none (str " a"))
    × (look (construct natives (some (("nan", some nan_anew) ∷ trimming)) true).config (str " a")
        ≡ final (some "custom") (str ""))
    × (look (construct natives (some (("toString", none) ∷ trimming)) true).config (str " a")
        ≡ final (some "custom") (str ""))
unfolding serializer
custom_tests = (refl, refl, refl)

look-construct_example :
    ((gives_default (some_each (built_in natives)) trimming ≡ false)
      × (look (construct natives (some trimming) true).config (str " a")
          ≡ or_look (inline_look (str " a")) (handler_look (defined trimming) (str " a"))))
    ⊎ ((gives_default (some_each (built_in natives)) trimming ≡ true)
        × (look (construct natives (some trimming) true).config (str " a")
            ≡ handler_look (defined (set_all (some_each (built_in natives)) trimming)) (str " a")))
look-construct_example = look-construct natives trimming true (str " a")
