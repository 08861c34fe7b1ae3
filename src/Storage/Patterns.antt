-- ===== src/Storage/Patterns.antt =====
-- Which types a pattern of an upload's limits admits.
use shaperail.Prelude.{
  ◌++◌, map, contains, if◌then◌else◌, ◌↔◌, ◌==◌, ◌||◌, is_some_and, unwrap_or, lookup, strip_suffix,
  starts_with, In, All, eq_iff, String, List, [], ◌∷◌, Option, none, some, true, false, any,
  Bool-cases, inl, inr, ◌⊎◌, ◌≡◌, refl, arith,
}
use shaperail.Storage.{find_mime, mime_table, extension_to_mime, matches_pattern}

module _ (to_lowercase : String → String) where
  -- The types of the file name extensions that a pattern may name.
  abbrev extensions : List (String × String)
  extensions =
      ("jpg", "image/jpeg")
      ∷ ("jpeg", "image/jpeg")
      ∷ ("png", "image/png")
      ∷ ("gif", "image/gif")
      ∷ ("webp", "image/webp")
      ∷ ("svg", "image/svg+xml")
      ∷ ("pdf", "application/pdf")
      ∷ ("json", "application/json")
      ∷ ("csv", "text/csv")
      ∷ ("txt", "text/plain")
      ∷ ("zip", "application/zip")
      ∷ ("mp4", "video/mp4")
      ∷ ("mp3", "audio/mpeg")
      ∷ []

  -- A pattern admits its own type, with `/*` at its end the types that start with what is before it,
  -- and as an extension the type of the extension; an unknown extension has the empty type.
  abbrev pub Admits : (mime_type pattern : String) → Type 0
  Admits mime_type pattern =
      (pattern ≡ mime_type)
      ⊎ (((stem : String) × (strip_suffix "/*" pattern ≡ some stem)
            × (starts_with mime_type stem ≡ true))
          ⊎ (unwrap_or (lookup (to_lowercase pattern) extensions) "" ≡ mime_type))

  abbrev flat : List (List String × String) → List (String × String)
  flat [] = []
  flat ((names, mime) ∷ table) = map (λ n. (n, mime)) names ++ flat table

  lookup-names :
      (ext mime : String) (names : List String) (rest : List (String × String))
      → unwrap_or (lookup ext (map (λ n. (n, mime)) names ++ rest)) ""
        ≡ (if contains names ext then mime else unwrap_or (lookup ext rest) "")
  lookup-names ext mime [] rest = refl
  lookup-names ext mime (n ∷ names) rest =
      ground (arith, lookup-names ext mime names rest, eq_iff n ext, eq_iff ext n)

  find_mime-flat :
      (ext : String) (table : List (List String × String))
      → find_mime to_lowercase ext table ≡ unwrap_or (lookup ext (flat table)) ""
  find_mime-flat ext [] = refl
  find_mime-flat ext ((names, mime) ∷ table) =
      rw (lookup-names ext mime names (flat table), find_mime-flat ext table) refl

  extension_to_mime_lem :
      (ext : String)
      → extension_to_mime to_lowercase ext ≡ unwrap_or (lookup (to_lowercase ext) extensions) ""
  unfolding extension_to_mime
  extension_to_mime_lem ext = find_mime-flat (to_lowercase ext) (mime_table to_lowercase)

  matches_pattern-Admits :
      (mime_type pattern : String)
      → (matches_pattern to_lowercase mime_type pattern ≡ true) ↔ Admits mime_type pattern
  unfolding matches_pattern
  matches_pattern-Admits mime_type pattern =
      rw (extension_to_mime_lem pattern) (by_suffix (strip_suffix "/*" pattern) refl)
    where
      ext : String
      ext = unwrap_or (lookup (to_lowercase pattern) extensions) ""

      by_suffix :
          (o : Option String)
          → strip_suffix "/*" pattern ≡ o
          → ((pattern == mime_type
                || is_some_and o (λ stem. starts_with mime_type stem)
                || ext == mime_type)
              ≡ true)
            ↔ Admits mime_type pattern
      by_suffix none e = ground (arith, e, eq_iff pattern mime_type, eq_iff ext mime_type)
      by_suffix (some stem) e = ground (arith, e, eq_iff pattern mime_type, eq_iff ext mime_type)

  pub any-Admits :
      (mime_type : String) (types : List String)
      → any (matches_pattern to_lowercase mime_type) types ≡ true
      → (t : String) × In t types × Admits mime_type t
  any-Admits mime_type [] h = cc
  any-Admits mime_type (t ∷ ts) h = elim (Bool-cases (matches_pattern to_lowercase mime_type t)) [
    | inl e ↦ (t, inl refl, (matches_pattern-Admits mime_type t).0 e)
    | inr e ↦ let (t', i, a) = any-Admits mime_type ts (ground (arith, h, e)) in (t', inr i, a)
  ]

  pub none-Admits :
      (mime_type : String) (types : List String)
      → any (matches_pattern to_lowercase mime_type) types ≡ false
      → All (λ t. Admits mime_type t → ⊥) types
  none-Admits mime_type [] h = tt
  none-Admits mime_type (t ∷ ts) h = (
    λ a. ground (arith, h, (matches_pattern-Admits mime_type t).1 a),
    none-Admits mime_type ts (ground (arith, h)),
  )
