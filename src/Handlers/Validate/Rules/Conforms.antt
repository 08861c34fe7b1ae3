-- ===== src/Handlers/Validate/Rules/Conforms.antt =====
-- What the rules of a field ask of a value, stated without the validator, and the lemma for each rule.
use Prim.Native.String.{len}
use shaperail.Prelude.{
  ℕ, ◌≤◌, String, List, [], ◌++◌, Option, none, some, true, false, In, contains→In, In→contains,
  All, and_then, contains_char, starts_with, ◌≡◌, ◌↔◌, ◌⊎◌, refl, arith,
}
use shaperail.Core.Json.{Json, arr, elements, as_str, Platform}
use shaperail.Core.Schema.{uuid, string, integer, number, enum, array, ItemsSpec, FieldSchema}
use shaperail.Handlers.Validate.Rules.{
  length_bound, as_f64, enum_errors, too_short, too_long, length_errors, email_errors, url_errors,
  too_small, too_large, range_errors, uuid_errors,
}

-- The text is one of the allowed values.
abbrev pub Among : Option (List String) → Option String → Type 0
Among none s = Unit {0}
Among (some allowed) none = Unit {0}
Among (some allowed) (some s) = In s allowed

abbrev pub AtLeast : Option ℕ → ℕ → Type 0
AtLeast none n = Unit {0}
AtLeast (some min) n = min ≤ n

abbrev pub AtMost : Option ℕ → ℕ → Type 0
AtMost none n = Unit {0}
AtMost (some max) n = n ≤ max

-- The text has a length in bytes within the bounds that are whole numbers.
abbrev pub LengthWithin : (min max : Option Json) → Option String → Type 0
LengthWithin min max none = Unit {0}
LengthWithin min max (some s) =
    AtLeast (length_bound min) (len s) × AtMost (length_bound max) (len s)

abbrev pub IsEmail : Option String → Type 0
IsEmail none = Unit {0}
IsEmail (some s) = (contains_char b'@' s ≡ true) × (contains_char b'.' s ≡ true)

abbrev pub IsUrl : Option String → Type 0
IsUrl none = Unit {0}
IsUrl (some s) = (starts_with s "http://" ≡ true) ⊎ (starts_with s "https://" ≡ true)

-- No test finds the number out of the range.
abbrev pub NotLess : Platform → ℕ → Option ℕ → Type 0
NotLess p n none = Unit {0}
NotLess p n (some min) = p.f64_lt n min ≡ false

abbrev pub NotGreater : Platform → ℕ → Option ℕ → Type 0
NotGreater p n none = Unit {0}
NotGreater p n (some max) = p.f64_lt max n ≡ false

abbrev pub RangeWithin : Platform → (min max : Option Json) → Option ℕ → Type 0
RangeWithin p min max none = Unit {0}
RangeWithin p min max (some n) =
    NotLess p n (and_then min (as_f64 p)) × NotGreater p n (and_then max (as_f64 p))

abbrev pub IsUuid : Platform → Option String → Type 0
IsUuid p none = Unit {0}
IsUuid p (some s) = (u : String) × (p.parse_uuid s ≡ some u)

abbrev pub ItemConforms : Platform → ItemsSpec → Json → Type 0
ItemConforms p spec v =
    ((spec.field_type ≡ string) ⊎ (spec.field_type ≡ enum)
      → LengthWithin spec.min spec.max (as_str v))
    × ((spec.field_type ≡ integer) ⊎ (spec.field_type ≡ number)
        → RangeWithin p spec.min spec.max (as_f64 p v))
    × (spec.field_type ≡ enum → Among spec.values (as_str v))
    × (spec.field_type ≡ uuid → IsUuid p (as_str v))
    × (spec.format ≡ some "email" → IsEmail (as_str v))
    × (spec.format ≡ some "url" → IsUrl (as_str v))

abbrev pub ItemsConform : Platform → Option ItemsSpec → Json → Type 0
ItemsConform p none v = Unit {0}
ItemsConform p (some spec) (arr vs) = All (ItemConforms p spec) (elements vs)
ItemsConform p (some spec) v = ⊥

-- A value under the rules of a field, which the field's type selects. None tests the JSON type of a text or
-- a number.
abbrev pub FieldConforms : Platform → FieldSchema → Json → Type 0
FieldConforms p f v =
    (f.field_type ≡ enum → Among f.values (as_str v))
    × ((f.field_type ≡ string) ⊎ (f.field_type ≡ enum) → LengthWithin f.min f.max (as_str v))
    × ((f.field_type ≡ integer) ⊎ (f.field_type ≡ number) → RangeWithin p f.min f.max (as_f64 p v))
    × (f.format ≡ some "email" → IsEmail (as_str v))
    × (f.format ≡ some "url" → IsUrl (as_str v))
    × (f.field_type ≡ uuid → IsUuid p (as_str v))
    × (f.field_type ≡ array → ItemsConform p f.items v)

pub enum_errors-Among :
    (path : String) (values : Option (List String)) (s : Option String)
    → (enum_errors path values s ≡ []) ↔ Among values s
unfolding enum_errors
enum_errors-Among path none s = ground arith
enum_errors-Among path (some allowed) none = ground arith
enum_errors-Among path (some allowed) (some s) =
    ground (arith, contains→In allowed s, In→contains allowed s)

pub length_errors-LengthWithin :
    (path : String) (min max : Option Json) (s : Option String)
    → (length_errors path min max s ≡ []) ↔ LengthWithin min max s
unfolding length_errors too_short too_long
length_errors-LengthWithin path min max none = ground arith
length_errors-LengthWithin path min max (some s) = bounds (length_bound min) (length_bound max)
  where
    bounds :
        (low high : Option ℕ)
        → (too_short path low s ++ too_long path high s ≡ [])
          ↔ (AtLeast low (len s) × AtMost high (len s))
    bounds none none = ground arith
    bounds none (some m) = ground arith
    bounds (some k) none = ground arith
    bounds (some k) (some m) = ground arith

pub email_errors-IsEmail :
    (path : String) (s : Option String) → (email_errors path s ≡ []) ↔ IsEmail s
unfolding email_errors
email_errors-IsEmail path none = ground arith
email_errors-IsEmail path (some s) = ground arith

pub url_errors-IsUrl : (path : String) (s : Option String) → (url_errors path s ≡ []) ↔ IsUrl s
unfolding url_errors
url_errors-IsUrl path none = ground arith
url_errors-IsUrl path (some s) = ground arith

module _ (p : Platform) where
  pub range_errors-RangeWithin :
      (path : String) (min max : Option Json) (n : Option ℕ)
      → (range_errors p path min max n ≡ []) ↔ RangeWithin p min max n
  unfolding range_errors too_small too_large
  range_errors-RangeWithin path min max none = ground arith
  range_errors-RangeWithin path min max (some n) =
      bounds (and_then min (as_f64 p)) (and_then max (as_f64 p))
    where
      bounds :
          (low high : Option ℕ)
          → (too_small p path low n ++ too_large p path high n ≡ [])
            ↔ (NotLess p n low × NotGreater p n high)
      bounds none none = ground arith
      bounds none (some m) = ground arith
      bounds (some k) none = ground arith
      bounds (some k) (some m) = ground arith

  pub uuid_errors-IsUuid :
      (path : String) (s : Option String) → (uuid_errors p path s ≡ []) ↔ IsUuid p s
  unfolding uuid_errors
  uuid_errors-IsUuid path none = ground arith
  uuid_errors-IsUuid path (some s) = parsed (p.parse_uuid s) refl
    where
      parsed :
          (o : Option String)
          → p.parse_uuid s ≡ o
          → (uuid_errors p path (some s) ≡ []) ↔ ((u : String) × (p.parse_uuid s ≡ some u))
      parsed none e = (λ h. absurd (ground arith), λ (u, h). absurd (ground arith))
      parsed (some u) e = (λ h. (u, e), λ h. ground arith)
