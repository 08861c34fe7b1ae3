-- ===== src/Handlers/Validate/Rules.antt =====
-- `check_field_rules` and `check_item_rules` of handlers/validate.rs. They share the rules, which the
-- source writes out twice, under the path of the field or of the element.
pub mod Conforms
pub mod Fields
use Prim.Native.String.{len}
use shaperail.Prelude.{
  ℕ, ◌+◌, String, List, [], ◌∷◌, ◌++◌, Option, none, some, Bool, not, ◌&&◌, ◌||◌, contains,
  and_then, map_option, is_none, format, join, decimal, contains_char, starts_with, ltb,
  if◌then◌else◌, ◌==◌, is_some_and,
}
use shaperail.Core.Json.{Json, arr, elements, as_str, as_u64, as_number, Platform}
use shaperail.Core.Error.{FieldError}
use shaperail.Core.Schema.{
  uuid, string, integer, number, enum, array, is_type, ItemsSpec, FieldSchema,
}

abbrev pub error_at : (path message code : String) → FieldError
error_at path message code = record { field = path; message = message; code = code }

-- `min.as_u64()` and `max.as_u64()`.
abbrev pub length_bound : Option Json → Option ℕ
length_bound bound = and_then bound as_u64

pub enum_errors : String → Option (List String) → Option String → List FieldError
enum_errors path none s = []
enum_errors path (some allowed) none = []
enum_errors path (some allowed) (some s) =
    if not (contains allowed s)
    then error_at path (format (path ∷ " must be one of: " ∷ join ", " allowed ∷ [])) "invalid_enum"
      ∷ []
    else []

too_short : String → Option ℕ → String → List FieldError
too_short path none s = []
too_short path (some min) s =
    if ltb (len s) min
    then error_at path (format (path ∷ " must be at least " ∷ decimal min ∷ " characters" ∷ []))
        "too_short"
      ∷ []
    else []

too_long : String → Option ℕ → String → List FieldError
too_long path none s = []
too_long path (some max) s =
    if ltb max (len s)
    then error_at path (format (path ∷ " must be at most " ∷ decimal max ∷ " characters" ∷ []))
        "too_long"
      ∷ []
    else []

pub length_errors : String → (min max : Option Json) → Option String → List FieldError
length_errors path min max none = []
length_errors path min max (some s) =
    too_short path (length_bound min) s ++ too_long path (length_bound max) s

pub email_errors : String → Option String → List FieldError
email_errors path none = []
email_errors path (some s) =
    if not (contains_char b'@' s) || not (contains_char b'.' s)
    then error_at path (format (path ∷ " must be a valid email address" ∷ [])) "invalid_format" ∷ []
    else []

pub url_errors : String → Option String → List FieldError
url_errors path none = []
url_errors path (some s) =
    if not (starts_with s "http://") && not (starts_with s "https://")
    then error_at path (format (path ∷ " must be a valid URL" ∷ [])) "invalid_format" ∷ []
    else []

abbrev pub format_is : Option String → String → Bool
format_is o s = is_some_and o (λ f. f == s)

module _ (p : Platform) where
  abbrev pub as_f64 : Json → Option ℕ
  as_f64 v = map_option p.to_f64 (as_number v)

  too_small : String → Option ℕ → ℕ → List FieldError
  too_small path none n = []
  too_small path (some min) n =
      if p.f64_lt n min
      then error_at path (format (path ∷ " must be at least " ∷ p.show_f64 min ∷ [])) "too_small"
        ∷ []
      else []

  too_large : String → Option ℕ → ℕ → List FieldError
  too_large path none n = []
  too_large path (some max) n =
      if p.f64_lt max n
      then error_at path (format (path ∷ " must be at most " ∷ p.show_f64 max ∷ [])) "too_large"
        ∷ []
      else []

  pub range_errors : String → (min max : Option Json) → Option ℕ → List FieldError
  range_errors path min max none = []
  range_errors path min max (some n) =
      too_small path (and_then min as_f64) n ++ too_large path (and_then max as_f64) n

  pub uuid_errors : String → Option String → List FieldError
  uuid_errors path none = []
  uuid_errors path (some s) =
      if is_none (p.parse_uuid s)
      then error_at path (format (path ∷ " must be a valid UUID" ∷ [])) "invalid_uuid" ∷ []
      else []

  pub check_item_rules : String → ℕ → ItemsSpec → Json → List FieldError
  check_item_rules name idx spec v =
      let path = format (name ∷ "[" ∷ decimal idx ∷ "]" ∷ []) in
      (if is_type spec.field_type string || is_type spec.field_type enum
        then length_errors path spec.min spec.max (as_str v)
        else [])
      ++ ((if is_type spec.field_type integer || is_type spec.field_type number
            then range_errors path spec.min spec.max (as_f64 v)
            else [])
          ++ ((if is_type spec.field_type enum then enum_errors path spec.values (as_str v) else [])
              ++ ((if is_type spec.field_type uuid then uuid_errors path (as_str v) else [])
                  ++ ((if format_is spec.format "email" then email_errors path (as_str v) else [])
                      ++ (if format_is spec.format "url"
                          then url_errors path (as_str v)
                          else [])))))

  -- The loop over the elements, from index `idx`.
  pub item_errors : String → ℕ → ItemsSpec → List Json → List FieldError
  item_errors name idx spec [] = []
  item_errors name idx spec (v ∷ vs) =
      check_item_rules name idx spec v ++ item_errors name (idx + 1) spec vs

  pub array_errors : String → Option ItemsSpec → Json → List FieldError
  array_errors name none v = []
  array_errors name (some spec) (arr vs) = item_errors name 0 spec (elements vs)
  array_errors name (some spec) v =
      error_at name (format (name ∷ " must be an array" ∷ [])) "invalid_type" ∷ []

  unfoldable pub check_field_rules : String → FieldSchema → Json → List FieldError
  unfolding too_short too_long too_small too_large enum_errors length_errors email_errors url_errors
      range_errors uuid_errors item_errors array_errors
  check_field_rules name f v =
      (if is_type f.field_type enum then enum_errors name f.values (as_str v) else [])
      ++ ((if is_type f.field_type string || is_type f.field_type enum
            then length_errors name f.min f.max (as_str v)
            else [])
          ++ ((if is_type f.field_type integer || is_type f.field_type number
                then range_errors name f.min f.max (as_f64 v)
                else [])
              ++ ((if format_is f.format "email" then email_errors name (as_str v) else [])
                  ++ ((if format_is f.format "url" then url_errors name (as_str v) else [])
                      ++ ((if is_type f.field_type uuid then uuid_errors name (as_str v) else [])
                          ++ (if is_type f.field_type array
                              then array_errors name f.items v
                              else []))))))
