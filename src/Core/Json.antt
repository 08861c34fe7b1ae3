-- ===== src/Core/Json.antt =====
-- serde_json's `Value` as the crates use it. Arrays and objects have list types of their own, with
-- functions to and from `List`. A float is its 64 bits.
use shaperail.Prelude.{
  ℕ, String, List, [], ◌∷◌, Option, none, some, Bool, true, false, ◌≡◌, refl, ap, lookup, and_then,
}

-- `neg_int n` is -(n + 1).
pub data Number : Type 0 where
  pos_int : ℕ → Number
  neg_int : ℕ → Number
  float : ℕ → Number

mutual
  pub data Json : Type 0 where
    null : Json
    bool : Bool → Json
    num : Number → Json
    str : String → Json
    arr : Items → Json
    obj : Members → Json

  pub data Items : Type 0 where
    nil : Items
    cons : Json → Items → Items

  pub data Members : Type 0 where
    end : Members
    member : String → Json → Members → Members

-- `serde_json::Map<String, Value>`.
abbrev pub Map : Type 0
Map = List (String × Json)

abbrev pub elements : Items → List Json
elements nil = []
elements (cons v vs) = v ∷ elements vs

abbrev pub items : List Json → Items
items [] = nil
items (v ∷ vs) = cons v (items vs)

abbrev pub members : Members → Map
members end = []
members (member k v ms) = (k, v) ∷ members ms

abbrev pub object : Map → Members
object [] = end
object ((k, v) ∷ m) = member k v (object m)

pub members-object : (m : Map) → members (object m) ≡ m
members-object [] = refl
members-object ((k, v) ∷ m) = ap (◌∷◌ (k, v)) (members-object m)

-- `Value::is_null`, `as_str`, `as_array`, `as_object` and `get` with a text.
abbrev pub is_null : Json → Bool
is_null null = true
is_null _ = false

abbrev pub as_str : Json → Option String
as_str (str s) = some s
as_str _ = none

abbrev pub as_array : Json → Option (List Json)
as_array (arr vs) = some (elements vs)
as_array _ = none

abbrev pub as_object : Json → Option Map
as_object (obj ms) = some (members ms)
as_object _ = none

abbrev pub field : Json → String → Option Json
field v k = and_then (as_object v) (lookup k)

-- `Value::as_u64`: the non-negative integers.
abbrev pub as_u64 : Json → Option ℕ
as_u64 (num (pos_int n)) = some n
as_u64 _ = none

abbrev pub as_number : Json → Option Number
as_number (num n) = some n
as_number _ = none

-- What the standard library and the `uuid` crate do with a number or a text. A UUID is its
-- canonical text.
pub record Platform : Type 0 where
  pub to_f64 : Number → ℕ
  pub f64_lt : ℕ → ℕ → Bool
  pub show_f64 : ℕ → String
  pub parse_uuid : String → Option String
