-- ===== src/Storage.antt =====
-- shaperail-runtime/src/storage/backend.rs and upload.rs: uploads with their limits of size and type, over a
-- backend that is a parameter, as are Unicode's lower case and alphanumeric characters.
pub mod Patterns
pub mod Uploads
mod Examples
use Prim.Native.String as Str
use Prim.Native.Char.{code}
use shaperail.Prelude.{
  byte_char, ℕ, ◌-◌, ◌*◌, ◌%◌, ◌^◌, String, List, [], ◌∷◌, Option, none, some, Bool, ◌||◌, ◌==◌,
  ltb, eqb, any, is_empty, is_some_and, and_then, map_option, contains, format, decimal, join, map,
  length, trim, digits_value, strip_suffix, starts_with, if◌then◌else◌,
}
use shaperail.Prelude.Int.{in_range}
use shaperail.Core.Error.{ShaperailError, not_found, invalid, internal}

pub record FileMetadata : Type 0 where
  pub path : String
  pub filename : String
  pub mime_type : String
  pub size : ℕ

pub data StorageError : Type 0 where
  missing : String → StorageError
  file_too_large : (max_bytes actual_bytes : ℕ) → StorageError
  invalid_mime_type : (mime_type : String) (allowed : List String) → StorageError
  backend : String → StorageError

pub data Stored (A : Type 0) : Type 0 where
  stored : A → Stored A
  failed : StorageError → Stored A

-- `{:?}` of a list of texts without characters that it escapes.
abbrev debug_list : List String → String
debug_list xs = format ("[" ∷ join ", " (map (λ x. format ("\"" ∷ x ∷ "\"" ∷ [])) xs) ∷ "]" ∷ [])

-- `From<StorageError> for ShaperailError`.
unfoldable pub to_error : StorageError → ShaperailError
to_error (missing path) = not_found
to_error (file_too_large max actual) =
    invalid "file"
      (format (
        "File too large: "
        ∷ decimal actual
        ∷ " bytes exceeds limit of "
        ∷ decimal max
        ∷ " bytes"
        ∷ []))
      "file_too_large"
to_error (invalid_mime_type mime_type allowed) =
    invalid "file"
      (format ("Invalid MIME type '" ∷ mime_type ∷ "', allowed: " ∷ debug_list allowed ∷ []))
      "invalid_mime_type"
to_error (backend message) = internal message

-- `str::parse::<u64>` of digits, with a sign + before them or none.
abbrev parse_u64 : String → Option ℕ
parse_u64 Str.[] = none
parse_u64 (Str.◌∷◌ c s) =
    and_then (if eqb (code c) b'+' then digits_value s else digits_value (Str.◌∷◌ c s))
      (in_range (2 ^ 64 - 1))

module _ (to_lowercase : String → String) where
  abbrev scaled : String → ℕ → Option ℕ
  scaled num multiplier = map_option (λ n. n * multiplier % 2 ^ 64) (parse_u64 (trim num))

  abbrev by_suffix : String → List (String × ℕ) → Option ℕ
  by_suffix s [] = scaled s 1
  by_suffix s ((suffix, multiplier) ∷ units) = elim (strip_suffix suffix s) [
    | none ↦ by_suffix s units
    | some num ↦ scaled num multiplier
  ]

  abbrev size_units : List (String × ℕ)
  size_units = ("gb", 1073741824) ∷ ("mb", 1048576) ∷ ("kb", 1024) ∷ ("b", 1) ∷ []

  abbrev size_of : String → Option ℕ → Stored ℕ
  size_of text none = failed (backend (format ("Invalid size format: '" ∷ text ∷ "'" ∷ [])))
  size_of text (some n) = stored n

  -- The product wraps around, as in a release build.
  unfoldable pub parse_max_size : String → Stored ℕ
  parse_max_size text = size_of text (by_suffix (to_lowercase (trim text)) size_units)

  abbrev mime_table : List (List String × String)
  mime_table =
      ("jpg" ∷ "jpeg" ∷ [], "image/jpeg")
      ∷ ("png" ∷ [], "image/png")
      ∷ ("gif" ∷ [], "image/gif")
      ∷ ("webp" ∷ [], "image/webp")
      ∷ ("svg" ∷ [], "image/svg+xml")
      ∷ ("pdf" ∷ [], "application/pdf")
      ∷ ("json" ∷ [], "application/json")
      ∷ ("csv" ∷ [], "text/csv")
      ∷ ("txt" ∷ [], "text/plain")
      ∷ ("zip" ∷ [], "application/zip")
      ∷ ("mp4" ∷ [], "video/mp4")
      ∷ ("mp3" ∷ [], "audio/mpeg")
      ∷ []

  abbrev find_mime : String → List (List String × String) → String
  find_mime ext [] = ""
  find_mime ext ((names, mime) ∷ table) = if contains names ext then mime else find_mime ext table

  unfoldable pub extension_to_mime : String → String
  extension_to_mime ext = find_mime (to_lowercase ext) mime_table

  unfoldable pub matches_pattern : String → String → Bool
  matches_pattern mime_type pattern =
      pattern == mime_type
      || is_some_and (strip_suffix "/*" pattern) (λ prefix. starts_with mime_type prefix)
      || extension_to_mime pattern == mime_type

  unfoldable pub validate_mime_type : String → List String → Stored (Unit {0})
  validate_mime_type mime_type allowed =
      if is_empty allowed || any (matches_pattern mime_type) allowed
      then stored tt
      else failed (invalid_mime_type mime_type allowed)

  module _ (is_alphanumeric : ℕ → Bool) where
    abbrev pub is_kept : ℕ → Bool
    is_kept c = is_alphanumeric c || eqb c b'.' || eqb c b'-' || eqb c b'_'

    unfoldable pub sanitize_filename : String → String
    sanitize_filename Str.[] = ""
    sanitize_filename (Str.◌∷◌ c s) =
        Str.◌∷◌ (if is_kept (code c) then c else byte_char b'_') (sanitize_filename s)

    -- The backend's `upload`, over its state.
    module _ {S : Type 0} (upload : String → List ℕ → String → S → Stored FileMetadata × S) where
      abbrev pub renamed : String → Stored FileMetadata × S → Stored FileMetadata × S
      renamed filename (failed e, s) = (failed e, s)
      renamed filename (stored m, s) = (stored (record m { filename = filename }), s)

      abbrev pub is_too_large : Option ℕ → List ℕ → Bool
      is_too_large max_size content = is_some_and max_size (λ max. ltb max (length content))

      abbrev pub upload_path : (prefix file_id filename : String) → String
      upload_path prefix file_id filename =
          format (prefix ∷ "/" ∷ file_id ∷ "-" ∷ sanitize_filename filename ∷ [])

      abbrev pub put :
          Stored (Unit {0}) → String → String → List ℕ → String → S → Stored FileMetadata × S
      put (failed e) path filename content mime_type s = (failed e, s)
      put (stored _) path filename content mime_type s =
          renamed filename (upload path content mime_type s)

      abbrev pub allowed_type : Option (List String) → String → Stored (Unit {0})
      allowed_type none mime_type = stored tt
      allowed_type (some types) mime_type = validate_mime_type mime_type types

      abbrev pub sized : Option ℕ → List ℕ → Stored (Unit {0}) → Stored (Unit {0})
      sized none content next = next
      sized (some max) content next =
          if ltb max (length content) then failed (file_too_large max (length content)) else next

      unfoldable pub process_upload :
          (file_id filename : String)
          → List ℕ
          → String
          → Option ℕ
          → Option (List String)
          → String
          → S
          → Stored FileMetadata × S
      process_upload file_id filename content mime_type max_size allowed_types prefix s =
          put (sized max_size content (allowed_type allowed_types mime_type))
            (upload_path prefix file_id filename) filename content mime_type s
