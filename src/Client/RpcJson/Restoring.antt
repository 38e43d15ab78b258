-- ===== src/Client/RpcJson/Restoring.antt =====
-- The meta entries of a serialization restore the value.
use orpc.Prelude.{suc, String, true, none, some, [], ◌∷◌, ◌≡◌, refl, ap}
use orpc.Prelude.JsMap.{get}
use orpc.Client.RpcJson.{
  Segment, index, Value, null, undefined, nan, function, str, bigint, url, other, date, regexp, set,
  map, arr, obj, Items, nil, cons, Fields, end, field, ◌+++◌, append_fields, size,
}
use orpc.Client.RpcJson.Serializer.{regexp_text}
use orpc.Client.RpcJson.Handlers.{
  Natives, match_regexp, all_lower, regexp_of, dedupe, set_entries, new_set, new_map, built_in,
  some_each,
}
use orpc.Client.RpcJson.Deserializer.{Update, apply, meta_updates, restore}
use orpc.Client.RpcJson.Encoding.{
  json, json_items, json_fields, metas, metas_items, metas_fields, under_metas,
}
use orpc.Client.RpcJson.Slots.{
  apply-append, meta_updates-append, meta_updates-under, apply-under_item, IsFresh,
  apply-under_field,
}
use orpc.Client.RpcJson.Slots.{
  IsApart, IsApart-end, IsApart-append, append_fields-one, +++_one, size-one,
}
use orpc.Client.RpcJson.RegexpText.{match_regexp_lem}

module _ (natives : Natives) where
  -- Values that JSON and the built-in handlers can carry: each text is the one that its value
  -- prints to, keys are distinct, and there is no function and no instance of an unknown class.
  unfoldable mutual
    pub Sendable : Value → Type 0
    Sendable (bigint n) = natives.bigint_of (str n) ≡ some n
    Sendable (date (some iso)) = natives.date_of (str iso) ≡ some iso
    Sendable (url u) = natives.url_of (str u) ≡ some u
    Sendable (regexp p f) = (all_lower f ≡ true) × (natives.regexp_ok p f ≡ true)
    Sendable (set xs) = SendableItems xs × (dedupe nil xs ≡ xs)
    Sendable (map xs) = SendableItems xs × (set_entries nil xs ≡ some xs)
    Sendable (arr xs) = SendableItems xs
    Sendable (obj fs) = SendableFields fs
    Sendable function = ⊥
    Sendable (other n) = ⊥
    Sendable v = Unit

    pub SendableItems : Items → Type 0
    SendableItems nil = Unit
    SendableItems (cons x xs) = Sendable x × SendableItems xs

    pub SendableFields : Fields → Type 0
    SendableFields end = Unit
    SendableFields (field k v fs) = IsFresh k fs × Sendable v × SendableFields fs

module _ (natives : Natives) where
  abbrev handlers : String → Update
  handlers = restore (some_each (built_in natives))

  -- the first updates put every element right that stands behind `done`
  abbrev Restores : Value → Type 0
  Restores v = apply (meta_updates handlers (metas v)) (json v) ≡ some v

  restore_set : (xs : Items) → dedupe nil xs ≡ xs → handlers "set" (arr xs) ≡ some (set xs)
  unfolding restore get new_set
  restore_set xs h = ap (λ ys. some (set ys)) h

  restore_map :
      (xs : Items) → set_entries nil xs ≡ some xs → handlers "map" (arr xs) ≡ some (map xs)
  unfolding restore get new_map
  restore_map xs h = rw h

  regexp_of_lem :
      (s : String) {p f : String}
      → match_regexp s ≡ some (p, f)
      → natives.regexp_ok p f ≡ true
      → regexp_of natives (str s) ≡ some (regexp p f)
  unfolding regexp_of
  regexp_of_lem s e ok = rw (e, regexp_of) (rw ok)

  restore_regexp :
      (p f : String)
      → all_lower f ≡ true
      → natives.regexp_ok p f ≡ true
      → handlers "regexp" (str (regexp_text p f)) ≡ some (regexp p f)
  unfolding restore get
  restore_regexp p f lower ok = regexp_of_lem (regexp_text p f) (match_regexp_lem p f lower) ok

  restore_constants :
      (handlers "undefined" null ≡ some undefined)
      × (handlers "nan" null ≡ some nan)
      × (handlers "date" null ≡ some (date none))
  unfolding restore get
  restore_constants = (refl, refl, refl)

  restore_bigint :
      (n : String)
      → natives.bigint_of (str n) ≡ some n
      → handlers "bigint" (str n) ≡ some (bigint n)
  unfolding restore get
  restore_bigint n h = rw h

  restore_date :
      (iso : String)
      → natives.date_of (str iso) ≡ some iso
      → handlers "date" (str iso) ≡ some (date (some iso))
  unfolding restore get
  restore_date iso h = rw h

  restore_url :
      (u : String) → natives.url_of (str u) ≡ some u → handlers "url" (str u) ≡ some (url u)
  unfolding restore get
  restore_url u h = rw h

  -- the elements behind one more restored element
  restores_items_rest :
      (done : Items) (x : Value) (xs : Items)
      → apply
          (meta_updates handlers (metas_items (size (done +++ cons x nil)) xs))
          (arr ((done +++ cons x nil) +++ json_items xs))
        ≡ some (arr ((done +++ cons x nil) +++ xs))
      → apply
          (meta_updates handlers (metas_items (suc (size done)) xs))
          (arr (done +++ cons x (json_items xs)))
        ≡ some (arr (done +++ cons x xs))
  restores_items_rest done x xs h = rw (size-one, +++_one, +++_one) at h

  restores_fields_rest :
      (done : Fields) (k : Segment) (v : Value) (fs : Fields)
      → apply
          (meta_updates handlers (metas_fields fs))
          (obj (append_fields (append_fields done (field k v end)) (json_fields fs)))
        ≡ some (obj (append_fields (append_fields done (field k v end)) fs))
      → apply
          (meta_updates handlers (metas_fields fs))
          (obj (append_fields done (field k v (json_fields fs))))
        ≡ some (obj (append_fields done (field k v fs)))
  restores_fields_rest done k v fs h = rw (append_fields-one, append_fields-one) at h

  mutual
    unfolding Sendable metas json apply

    pub restores : (v : Value) → Sendable natives v → Restores v
    restores (arr xs) h = restores_items nil xs h
    restores (obj fs) h = restores_fields end fs (IsApart-end fs) h
    restores (set xs) h = rw (
      meta_updates-append handlers (metas_items 0 xs) (("set", []) ∷ []),
      apply-append,
      restores_items nil xs h.0,
      restore_set xs h.1,
    )
    restores (map xs) h = rw (
      meta_updates-append handlers (metas_items 0 xs) (("map", []) ∷ []),
      apply-append,
      restores_items nil xs h.0,
      restore_map xs h.1,
    )
    restores (regexp p f) h = rw (restore_regexp p f h.0 h.1)
    restores (bigint n) h = rw (restore_bigint n h)
    restores (date none) h = rw restore_constants.2
    restores (date (some iso)) h = rw (restore_date iso h)
    restores (url u) h = rw (restore_url u h)
    restores undefined h = rw restore_constants.0
    restores nan h = rw restore_constants.1
    restores v h = refl

    restores_items :
        (done xs : Items)
        → SendableItems natives xs
        → apply (meta_updates handlers (metas_items (size done) xs)) (arr (done +++ json_items xs))
          ≡ some (arr (done +++ xs))
    restores_items done nil h = refl
    restores_items done (cons x xs) h =
        rw
          (
            meta_updates-append handlers (under_metas (index (size done)) (metas x))
                (metas_items (suc (size done)) xs),
            apply-append,
            meta_updates-under,
            apply-under_item,
            restores x h.0,
          )
          (restores_items_rest done x xs (restores_items (done +++ cons x nil) xs h.1))

    restores_fields :
        (done fs : Fields)
        → IsApart done fs
        → SendableFields natives fs
        → apply
            (meta_updates handlers (metas_fields fs))
            (obj (append_fields done (json_fields fs)))
          ≡ some (obj (append_fields done fs))
    restores_fields done end a h = refl
    restores_fields done (field k v fs) a h =
        rw
          (
            meta_updates-append handlers (under_metas k (metas v)) (metas_fields fs),
            apply-append,
            meta_updates-under,
            apply-under_field (meta_updates handlers (metas v)) k done (json v) (json_fields fs)
                a.0,
            restores v h.1,
          )
          (restores_fields_rest done k v fs (
            restores_fields (append_fields done (field k v end)) fs
              (IsApart-append k v done fs h.0 a.1) h.2))
