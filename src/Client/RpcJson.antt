-- ===== src/Client/RpcJson.antt =====
-- packages/client/src/rpc-json-serializer.ts: the values that the serializer walks. A `bigint`,
-- `Date` or `URL` is held as the text that it prints to (an invalid date has none), a regular
-- expression as its source and flags, a `Map` as the array of pairs that its `entries` give, a blob
-- by an identity. `num` is a finite number.
pub mod Serializer
pub mod Handlers
pub mod Deserializer
pub mod Encoding
pub mod Refinement
pub mod Slots
pub mod Custom
pub mod RegexpText
pub mod Restoring
pub mod Blobs
pub mod RoundTrip
mod Tests
use orpc.Prelude.{
  ℕ, zero, suc, String, Bool, true, false, Option, none, some, List, [], ◌∷◌, ◌&&◌, str_eq, ◌==◌,
}

-- A property key: a canonical array index, which the program writes as a number or as its text, or
-- any other name.
pub data Segment : Type 0 where
  index : ℕ → Segment
  name : String → Segment

abbrev pub seg_eq : Segment → Segment → Bool
seg_eq (index i) (index j) = i == j
seg_eq (name k) (name l) = str_eq k l
seg_eq _ _ = false

mutual
  pub data Value : Type 0 where
    null undefined nan function : Value
    str bigint url : String → Value
    boolean : Bool → Value
    num blob other : ℕ → Value
    date : Option String → Value
    regexp : String → String → Value
    set map arr : Items → Value
    obj : Fields → Value

  pub data Items : Type 0 where
    nil : Items
    cons : Value → Items → Items

  pub data Fields : Type 0 where
    end : Fields
    field : Segment → Value → Fields → Fields

infixr 67 ◌+++◌
abbrev pub ◌+++◌ : Items → Items → Items
nil +++ ys = ys
cons x xs +++ ys = cons x (xs +++ ys)

abbrev pub append_fields : Fields → Fields → Fields
append_fields end gs = gs
append_fields (field k v fs) gs = field k v (append_fields fs gs)

abbrev pub size : Items → ℕ
size nil = 0
size (cons x xs) = suc (size xs)

-- how to restore the value at a path: the name of a handler, and the path
abbrev pub Meta : Type 0
Meta = String × List Segment

abbrev pub is_undefined : Value → Bool
is_undefined undefined = true
is_undefined _ = false

-- `k === 'toJSON' && typeof v === 'function'`
abbrev pub is_to_json : Segment → Value → Bool
is_to_json (name k) function = str_eq k "toJSON"
is_to_json _ _ = false
