-- ===== src/Client/RpcJson/Custom.antt =====
-- Custom handlers beside the built-in ones: what the constructor makes of them.
use orpc.Prelude.{
  String, Bool, true, false, Option, none, some, List, [], ◌∷◌, ◌++◌, ◌≡◌, ◌⊎◌, inl, inr, refl, sym,
  ap, ◌∙◌, arith, ◌&&◌, ◌||◌, not, if◌then◌else◌, Bool-cases,
}
use mathlib.Core.List.{append_assoc, append-nil}
use orpc.Prelude.JsMap
use orpc.Prelude.JsMap.{JsMap}
use orpc.Client.RpcJson.{Value}
use orpc.Client.RpcJson.Serializer.{Handler, look, or_look, inline_look, handler_look}
use orpc.Client.RpcJson.Handlers.{
  Natives, built_in, some_each, construct, defined, Setup, is_default, push_entry, add_custom,
  add_customs,
}

-- the table with all custom handlers written to it
abbrev pub set_all : JsMap (Option Handler) → JsMap (Option Handler) → JsMap (Option Handler)
set_all table [] = table
set_all table ((key, handler) ∷ custom) = set_all (JsMap.set table key handler) custom

-- whether a custom handler is given for a built-in key
abbrev pub gives_default : JsMap (Option Handler) → JsMap (Option Handler) → Bool
gives_default defaults [] = false
gives_default defaults ((key, handler) ∷ custom) =
    is_default defaults key || gives_default defaults custom

push_entry-defined :
    (key : String) (handler : Option Handler) (entries : List (String × Handler))
    (custom : JsMap (Option Handler))
    → push_entry key handler entries ++ defined custom
      ≡ entries ++ defined ((key, handler) ∷ custom)
unfolding defined
push_entry-defined key none entries custom = refl
push_entry-defined key (some h) entries custom =
    append_assoc entries ((key, h) ∷ []) (defined custom)

both_ways : (a b g : Bool) → ((a && not b) && not g) ≡ (a && not (b || g))
both_ways a b g = ground arith

module _ (defaults : JsMap (Option Handler)) where
  -- The loop writes every handler to the table, and keeps them all, in order, in the entries, as long
  -- as no built-in key comes.
  abbrev IsSetUp : Setup → JsMap (Option Handler) → Setup → Type 0
  IsSetUp s custom t =
      (t.handlers ≡ set_all s.handlers custom)
      × (t.inline_built_in_handlers
          ≡ (s.inline_built_in_handlers && not (gives_default defaults custom)))
      × ((t.inline_built_in_handlers ≡ false)
          ⊎ (t.handler_entries ≡ s.handler_entries ++ defined custom))

  add_customs-IsSetUp :
      (s : Setup) (custom : JsMap (Option Handler))
      → IsSetUp s custom (add_customs defaults s custom)
  unfolding add_customs
  add_customs-IsSetUp s [] =
      (refl, ground arith, inr (unfold defined in sym (append-nil s.handler_entries)))
  add_customs-IsSetUp s ((key, handler) ∷ custom) =
      let (h, i, e) = add_customs-IsSetUp (add_custom defaults s key handler) custom in
      let keeps = s.inline_built_in_handlers && not (is_default defaults key) in
      elim (Bool-cases keeps) [
        | inl t ↦ (
          h,
          i
              ∙ both_ways s.inline_built_in_handlers (is_default defaults key)
                  (gives_default defaults custom),
          elim e [
            | inl f ↦ inl f
            | inr f ↦ inr (
                f
                ∙ ap
                    (λ (c : Bool).
                      (if c then push_entry key handler s.handler_entries else s.handler_entries)
                      ++ defined custom)
                    t
                ∙ push_entry-defined key handler s.handler_entries custom)
          ],
        )
        | inr t ↦ (
          h,
          i
              ∙ both_ways s.inline_built_in_handlers (is_default defaults key)
                  (gives_default defaults custom),
          inl (i ∙ ap (λ (c : Bool). c && not (gives_default defaults custom)) t),
        )
      ]

-- A serializer that is given custom handlers: if none of their keys is a built-in one, the built-in
-- handlers are inlined and come first, and then the custom ones in order; so a text, which the inlined
-- ones return as it is, is passed over by every custom handler. If one of the keys is a built-in one,
-- the whole table with all custom handlers written to it is searched instead, for a text as for any
-- other value. A handler that is `undefined` is left out. No key is an array index, which the language
-- would list before the others.
pub look-construct :
    (natives : Natives) (custom : JsMap (Option Handler)) (omit : Bool) (v : Value)
    → let defaults = some_each (built_in natives) in
      let config = (construct natives (some custom) omit).config in
      ((gives_default defaults custom ≡ false)
        × (look config v ≡ or_look (inline_look v) (handler_look (defined custom) v)))
      ⊎ ((gives_default defaults custom ≡ true)
          × (look config v ≡ handler_look (defined (set_all defaults custom)) v))
unfolding construct look
look-construct natives custom omit v =
    let defaults = some_each (built_in natives) in
    let start : Setup = record {
      handlers = defaults;
      inline_built_in_handlers = true;
      handler_entries = [];
    } in
    let t = add_customs defaults start custom in
    let (h, i, e) = add_customs-IsSetUp defaults start custom in
    elim (Bool-cases (gives_default defaults custom)) [
      | inl g ↦
          let inlined : t.inline_built_in_handlers ≡ false = i ∙ ap not g in
          inr (g, rw (inlined, h) refl)
      | inr g ↦
          let inlined : t.inline_built_in_handlers ≡ true = i ∙ ap not g in
          elim e [ inl f ↦ absurd (cc) | inr f ↦ inl (g, rw (inlined, f) refl) ]
    ]
