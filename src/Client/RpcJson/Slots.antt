-- ===== src/Client/RpcJson/Slots.antt =====
-- Updates at paths below one slot act on the value in that slot.
use orpc.Prelude.{
  suc, String, true, false, none, some, List, [], ◌∷◌, ◌++◌, ◌≡◌, refl, ap, arith, eq_iff, eq_refl,
}
use mathlib.Core.Option
use orpc.Client.RpcJson.{
  Segment, index, name, seg_eq, Value, arr, obj, Items, nil, cons, Fields, end, field, Meta, ◌+++◌,
  append_fields, size,
}
use orpc.Client.RpcJson.Serializer.{◌>>=◌}
use orpc.Client.RpcJson.Encoding.{under_metas}
use orpc.Client.RpcJson.Deserializer.{
  Update, update_item, update_field, in_slot, at_path, apply, meta_updates,
}

abbrev pub Updates : Type 0
Updates = List (List Segment × Update)

abbrev pub under_updates : Segment → Updates → Updates
under_updates s [] = []
under_updates s ((path, f) ∷ us) = (s ∷ path, f) ∷ under_updates s us

pub apply-append : (us vs : Updates) (v : Value) → apply (us ++ vs) v ≡ (apply us v >>= apply vs)
unfolding apply
apply-append [] vs v = refl
apply-append ((path, f) ∷ us) vs v =
    elim (at_path path f v) as (λ o. (o >>= apply (us ++ vs)) ≡ (o >>= apply us >>= apply vs)) [
      | none ↦ refl
      | some w ↦ apply-append us vs w
    ]

pub meta_updates-append :
    (handlers : String → Update) (l m : List Meta)
    → meta_updates handlers (l ++ m) ≡ meta_updates handlers l ++ meta_updates handlers m
meta_updates-append handlers [] m = refl
meta_updates-append handlers ((type, path) ∷ l) m = rw (meta_updates-append handlers l m)

pub meta_updates-under :
    (handlers : String → Update) (s : Segment) (l : List Meta)
    → meta_updates handlers (under_metas s l) ≡ under_updates s (meta_updates handlers l)
meta_updates-under handlers s [] = refl
meta_updates-under handlers s ((type, path) ∷ l) = rw (meta_updates-under handlers s l)

update_item_lem :
    (f : Update) (done : Items) (y : Value) (ys : Items)
    → update_item (size done) f (done +++ cons y ys) ≡ Option.map (λ z. done +++ cons z ys) (f y)
unfolding update_item
update_item_lem f nil y ys = refl
update_item_lem f (cons x done) y ys =
    rw (update_item_lem f done y ys)
      (elim (f y)
        as (λ o.
          Option.map (cons x) (Option.map (λ z. done +++ cons z ys) o)
          ≡ Option.map (λ z. cons x (done +++ cons z ys)) o) [ none ↦ refl | some z ↦ refl ])

pub apply-under_item :
    (us : Updates) (done : Items) (y : Value) (ys : Items)
    → apply (under_updates (index (size done)) us) (arr (done +++ cons y ys))
      ≡ Option.map (λ z. arr (done +++ cons z ys)) (apply us y)
unfolding apply in_slot
apply-under_item [] done y ys = refl
apply-under_item ((path, f) ∷ us) done y ys =
    rw (update_item_lem (at_path path f) done y ys)
      (elim (at_path path f y)
        as (λ o.
          (Option.map arr (Option.map (λ z. done +++ cons z ys) o)
            >>= apply (under_updates (index (size done)) us))
          ≡ Option.map (λ z. arr (done +++ cons z ys)) (o >>= apply us)) [
            | none ↦ refl
            | some z ↦ apply-under_item us done z ys
          ])

-- no field of the object has the key
abbrev pub IsFresh : Segment → Fields → Type 0
IsFresh k end = Unit
IsFresh k (field j v fs) = (seg_eq j k ≡ false) × IsFresh k fs

pub seg_eq_refl : (k : Segment) → seg_eq k k ≡ true
seg_eq_refl (index i) = ground arith
seg_eq_refl (name s) = eq_refl s

update_field_lem :
    (k : Segment) (f : Update) (done : Fields) (v : Value) (fs : Fields)
    → IsFresh k done
    → update_field k f (append_fields done (field k v fs))
      ≡ Option.map (λ w. append_fields done (field k w fs)) (f v)
unfolding update_field
update_field_lem k f end v fs h = rw (seg_eq_refl k)
update_field_lem k f (field j u done) v fs h =
    rw (h.0, update_field_lem k f done v fs h.1)
      (elim (f v)
        as (λ o.
          Option.map (field j u) (Option.map (λ w. append_fields done (field k w fs)) o)
          ≡ Option.map (λ w. field j u (append_fields done (field k w fs))) o) [
            | none ↦ refl
            | some z ↦ refl
          ])

in_slot-obj :
    (k : Segment) (f : Update) (fs : Fields)
    → in_slot k f (obj fs) ≡ Option.map obj (update_field k f fs)
unfolding in_slot
in_slot-obj (index i) f fs = refl
in_slot-obj (name n) f fs = refl

pub apply-under_field :
    (us : Updates) (k : Segment) (done : Fields) (v : Value) (fs : Fields)
    → IsFresh k done
    → apply (under_updates k us) (obj (append_fields done (field k v fs)))
      ≡ Option.map (λ w. obj (append_fields done (field k w fs))) (apply us v)
unfolding apply
apply-under_field [] k done v fs h = refl
apply-under_field ((path, f) ∷ us) k done v fs h =
    rw (in_slot-obj, update_field_lem k (at_path path f) done v fs h)
      (elim (at_path path f v)
        as (λ o.
          (Option.map obj (Option.map (λ w. append_fields done (field k w fs)) o)
            >>= apply (under_updates k us))
          ≡ Option.map (λ w. obj (append_fields done (field k w fs))) (o >>= apply us)) [
            | none ↦ refl
            | some z ↦ apply-under_field us k done z fs h
          ])

-- the keys of `fs` are not among those of `done`
abbrev pub IsApart : Fields → Fields → Type 0
IsApart done end = Unit
IsApart done (field k v fs) = IsFresh k done × IsApart done fs

pub IsApart-end : (fs : Fields) → IsApart end fs
IsApart-end end = tt
IsApart-end (field k v fs) = (tt, IsApart-end fs)

seg_eq_comm : (j k : Segment) → seg_eq j k ≡ false → seg_eq k j ≡ false
seg_eq_comm (index i) (index j) h = ground arith
seg_eq_comm (name s) (name t) h = ground (arith, eq_iff s t, eq_iff t s)
seg_eq_comm (index i) (name t) h = refl
seg_eq_comm (name s) (index i) h = refl

IsFresh-append :
    (j k : Segment) (v : Value) (done : Fields)
    → IsFresh j done
    → seg_eq k j ≡ false
    → IsFresh j (append_fields done (field k v end))
IsFresh-append j k v end h e = (e, tt)
IsFresh-append j k v (field i u done) h e = (h.0, IsFresh-append j k v done h.1 e)

pub IsApart-append :
    (k : Segment) (v : Value) (done fs : Fields)
    → IsFresh k fs
    → IsApart done fs
    → IsApart (append_fields done (field k v end)) fs
IsApart-append k v done end h a = tt
IsApart-append k v done (field j u fs) h a =
    (IsFresh-append j k v done a.0 (seg_eq_comm j k h.0), IsApart-append k v done fs h.1 a.1)

pub append_fields-one :
    (done : Fields) (k : Segment) (v : Value) (fs : Fields)
    → append_fields (append_fields done (field k v end)) fs ≡ append_fields done (field k v fs)
append_fields-one end k v fs = refl
append_fields-one (field j u done) k v fs = ap (field j u) (append_fields-one done k v fs)

pub append_fields-end : (fs : Fields) → append_fields fs end ≡ fs
append_fields-end end = refl
append_fields-end (field j u done) = ap (field j u) (append_fields-end done)

pub +++_one :
    (done : Items) (x : Value) (xs : Items) → (done +++ cons x nil) +++ xs ≡ done +++ cons x xs
+++_one nil x xs = refl
+++_one (cons y done) x xs = ap (cons y) (+++_one done x xs)

pub +++_nil : (xs : Items) → xs +++ nil ≡ xs
+++_nil nil = refl
+++_nil (cons x xs) = ap (cons x) (+++_nil xs)

pub size-one : (done : Items) (x : Value) → size (done +++ cons x nil) ≡ suc (size done)
size-one nil x = refl
size-one (cons y done) x = ap suc (size-one done x)
