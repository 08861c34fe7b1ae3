-- ===== src/Core/Schema.antt =====
-- shaperail-core/src/field_type.rs and schema.rs: the types and constraints of schema fields.
use shaperail.Prelude.{ℕ, String, List, Option, Bool, not, eqb, ◌≡◌, ◌↔◌, arith, true}
use shaperail.Core.Json.{Json}

pub data FieldType : Type 0 where
  uuid string integer number boolean timestamp date enum json array file : FieldType

abbrev tag : FieldType → ℕ
tag uuid = 0
tag string = 1
tag integer = 2
tag number = 3
tag boolean = 4
tag timestamp = 5
tag date = 6
tag enum = 7
tag json = 8
tag array = 9
tag file = 10

-- The derived `PartialEq`.
abbrev pub is_type : FieldType → FieldType → Bool
is_type a b = eqb (tag a) (tag b)

pub is_type_iff : (a b : FieldType) → (is_type a b ≡ true) ↔ (a ≡ b)
is_type_iff a b = ground arith

pub record ItemsSpec : Type 0 where
  pub field_type : FieldType
  pub min : Option Json
  pub max : Option Json
  pub format : Option String
  pub values : Option (List String)
  pub reference : Option String

pub record FieldSchema : Type 0 where
  pub field_type : FieldType
  pub primary : Bool
  pub generated : Bool
  pub required : Bool
  pub unique : Bool
  pub nullable : Bool
  pub reference : Option String
  pub min : Option Json
  pub max : Option Json
  pub format : Option String
  pub values : Option (List String)
  pub default : Option Json
  pub sensitive : Bool
  pub search : Bool
  pub items : Option ItemsSpec
  pub transient : Bool

abbrev pub is_persisted : FieldSchema → Bool
is_persisted f = not f.transient
