-- ===== src/Storage/Uploads.antt =====
-- What is uploaded, and where.
use Prim.Native.String as Str
use Prim.Native.Char.{code}
use shaperail.Prelude.{
  ◌↔◌, In, All, format, eqb, ℕ, ◌<◌, String, List, [], ◌∷◌, Option, none, some, Bool, true, false,
  any, ltb, length, ◌≢◌, byte_char, contains_char, Bool-cases, inl, inr, ◌⊎◌, ◌≡◌, refl, subst,
  arith,
}
use shaperail.Storage.Patterns.{Admits, any-Admits, none-Admits}
use shaperail.Storage.{
  is_kept, FileMetadata, file_too_large, invalid_mime_type, Stored, stored, failed, matches_pattern,
  validate_mime_type, sanitize_filename, renamed, allowed_type, sized, process_upload,
}

module _ (to_lowercase : String → String) (is_alphanumeric : ℕ → Bool) where
  kept_no_slash :
      is_alphanumeric b'/' ≡ false
      → (n : ℕ) → is_kept to_lowercase is_alphanumeric n ≡ true
      → eqb n b'/' ≡ false
  kept_no_slash slash n h = elim (Bool-cases (eqb n b'/')) [
    | inl e ↦
        let same : n ≡ b'/' = ground (arith, e) in
        absurd
          (ground (arith, slash, subst (λ k. is_kept to_lowercase is_alphanumeric k ≡ true) same h))
    | inr e ↦ e
  ]

  -- A sanitized name has no slash, so that it adds no directory to a path.
  sanitize_filename_one_part :
      is_alphanumeric b'/' ≡ false
      → (name : String)
      → contains_char b'/' (sanitize_filename to_lowercase is_alphanumeric name) ≡ false
  unfolding sanitize_filename contains_char byte_char
  sanitize_filename_one_part slash Str.[] = refl
  sanitize_filename_one_part slash (Str.◌∷◌ c s) =
      elim (Bool-cases (is_kept to_lowercase is_alphanumeric (code c))) [
        | inl e ↦ rw (e, kept_no_slash slash (code c) e) (sanitize_filename_one_part slash s)
        | inr e ↦ rw e (sanitize_filename_one_part slash s)
      ]

  -- A sanitized name: each character that is neither alphanumeric nor `.`, `-` or `_` is an underscore.
  abbrev pub IsSafe : ℕ → Type 0
  IsSafe c = (is_alphanumeric c ≡ true) ⊎ ((c ≡ b'.') ⊎ ((c ≡ b'-') ⊎ (c ≡ b'_')))

  abbrev pub IsSanitized : String → String → Type 0
  IsSanitized Str.[] name = name ≡ ""
  IsSanitized (Str.◌∷◌ c s) Str.[] = ⊥
  IsSanitized (Str.◌∷◌ c s) (Str.◌∷◌ d t) =
      ((IsSafe (code c) × (d ≡ c)) ⊎ ((IsSafe (code c) → ⊥) × (d ≡ byte_char b'_')))
      × IsSanitized s t

  is_kept-IsSafe : (c : ℕ) → (is_kept to_lowercase is_alphanumeric c ≡ true) ↔ IsSafe c
  is_kept-IsSafe c = ground arith

  sanitize_filename-IsSanitized :
      (name : String) → IsSanitized name (sanitize_filename to_lowercase is_alphanumeric name)
  unfolding sanitize_filename
  sanitize_filename-IsSanitized Str.[] = refl
  sanitize_filename-IsSanitized (Str.◌∷◌ c s) =
      let rest = sanitize_filename-IsSanitized s in
      let (to, back) = is_kept-IsSafe (code c) in
      elim (Bool-cases (is_kept to_lowercase is_alphanumeric (code c))) [
        | inl e ↦ (inl (to e, rw e refl), rest)
        | inr e ↦ (inr ((λ h. ground (arith, e, back h)), rw e refl), rest)
      ]

  module _ {S : Type 0} (upload : String → List ℕ → String → S → Stored FileMetadata × S) where
    abbrev pub Fits : Option ℕ → List ℕ → Type 0
    Fits none content = Unit
    Fits (some max) content = ltb max (length content) ≡ false

    -- Why a type is refused, or taken.
    abbrev pub RefusesType : Option (List String) → String → List String → Type 0
    RefusesType allowed_types mime_type types =
        (allowed_types ≡ some types)
        × (types ≢ [])
        × All (λ t. Admits to_lowercase mime_type t → ⊥) types

    abbrev pub HasAllowedType : Option (List String) → String → Type 0
    HasAllowedType allowed_types mime_type =
        (allowed_types ≡ none)
        ⊎ ((types : List String) × (allowed_types ≡ some types)
            × ((types ≡ []) ⊎ ((t : String) × In t types × Admits to_lowercase mime_type t)))

    -- The backend's answer, with the name that was sent.
    abbrev pub Renames : String → Stored FileMetadata × S → Stored FileMetadata × S → Type 0
    Renames filename (failed e, s) r = r ≡ (failed e, s)
    Renames filename (stored m, s) r = r ≡ (stored (record m { filename = filename }), s)

    -- The answer to an upload and the backend after it.
    abbrev pub Uploads :
        String
        → String
        → List ℕ
        → String
        → Option ℕ
        → Option (List String)
        → String
        → S
        → Stored FileMetadata × S
        → Type 0
    Uploads file_id filename content mime_type max_size allowed_types prefix s r =
        ((max : ℕ) × (max_size ≡ some max)
          × (max < length content)
          × (r ≡ (failed (file_too_large max (length content)), s)))
        ⊎ (Fits max_size content
            × (((types : List String) × RefusesType allowed_types mime_type types
                  × (r ≡ (failed (invalid_mime_type mime_type types), s)))
                ⊎ (HasAllowedType allowed_types mime_type
                    × ((name : String) × IsSanitized filename name
                        × Renames filename
                            (upload (format (prefix ∷ "/" ∷ file_id ∷ "-" ∷ name ∷ [])) content
                              mime_type s)
                            r))))

    -- A file above the limit is refused with its size, and one of a type that no pattern admits is refused
    -- with the patterns, both without a use of the backend. Every other one is uploaded once, under the
    -- prefix, its new id and its name, in which an underscore stands for each character that is neither
    -- alphanumeric nor `.`, `-` or `_`; the answer is the backend's, with the name it was sent with.
    pub process_upload-Uploads :
        (file_id filename : String) (content : List ℕ) (mime_type : String) (max_size : Option ℕ)
        (allowed_types : Option (List String)) (prefix : String) (s : S)
        → Uploads file_id filename content mime_type max_size allowed_types prefix s (
            process_upload to_lowercase is_alphanumeric upload file_id filename content mime_type
              max_size allowed_types prefix s)
    unfolding process_upload validate_mime_type
    process_upload-Uploads file_id filename content mime_type max_size allowed_types prefix s =
        by_size max_size
      where
        TypeAnswer : Option (List String) → Type 0
        TypeAnswer types =
            ((ts : List String) × RefusesType types mime_type ts
              × (allowed_type to_lowercase is_alphanumeric upload types mime_type
                  ≡ failed (invalid_mime_type mime_type ts)))
            ⊎ (HasAllowedType types mime_type
                × (allowed_type to_lowercase is_alphanumeric upload types mime_type ≡ stored tt))

        by_type : (types : Option (List String)) → TypeAnswer types
        by_type none = inr (inl refl, refl)
        by_type (some []) = inr (inr ([], refl, inl refl), refl)
        by_type (some (t ∷ ts)) =
            elim (Bool-cases (any (matches_pattern to_lowercase mime_type) (t ∷ ts))) [
              | inl e ↦ inr (
                inr (t ∷ ts, refl, inr (any-Admits to_lowercase mime_type (t ∷ ts) e)),
                rw e refl,
              )
              | inr e ↦ inl (
                t ∷ ts,
                (refl, (λ q. cc), none-Admits to_lowercase mime_type (t ∷ ts) e),
                rw e refl,
              )
            ]

        uploaded :
            (u : Stored FileMetadata × S)
            → Renames filename u (renamed to_lowercase is_alphanumeric upload filename u)
        uploaded (failed e, s') = refl
        uploaded (stored m, s') = refl

        fitting :
            (max : Option ℕ)
            → Fits max content
            → sized to_lowercase is_alphanumeric upload max content
                (allowed_type to_lowercase is_alphanumeric upload allowed_types mime_type)
              ≡ allowed_type to_lowercase is_alphanumeric upload allowed_types mime_type
            → Uploads file_id filename content mime_type max allowed_types prefix s (
                process_upload to_lowercase is_alphanumeric upload file_id filename content
                  mime_type max allowed_types prefix s)
        fitting max fits e = elim (by_type allowed_types) [
          | inl (ts, why, q) ↦ inr (fits, inl (ts, why, rw (e, q) refl))
          | inr (has, q) ↦ inr (
            fits,
            inr (
              has,
              (
                sanitize_filename to_lowercase is_alphanumeric filename,
                sanitize_filename-IsSanitized filename,
                rw (e, q) (uploaded (upload _ content mime_type s)),
              ),
            ),
          )
        ]

        by_size :
            (max : Option ℕ)
            → Uploads file_id filename content mime_type max allowed_types prefix s (
                process_upload to_lowercase is_alphanumeric upload file_id filename content
                  mime_type max allowed_types prefix s)
        by_size none = fitting none tt refl
        by_size (some max) = elim (Bool-cases (ltb max (length content))) [
          | inl e ↦ inl (max, refl, ground (arith, e), rw e refl)
          | inr e ↦ fitting (some max) e (rw e refl)
        ]
