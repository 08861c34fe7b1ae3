-- ===== src/Storage/Examples.antt =====
-- An upload of a picture to a backend that keeps the paths.
use shaperail.Prelude.{
  ℕ, String, List, [], ◌∷◌, some, Bool, length, byte_char, ◌≡◌, refl, ltb, ◌&&◌,
}
use shaperail.Storage.{FileMetadata, Stored, stored, process_upload, sanitize_filename}
use shaperail.Storage.Uploads.{Uploads, process_upload-Uploads}

-- Letters alone are alphanumeric here.
abbrev letter : ℕ → Bool
letter c = ltb 96 c && ltb c 123

abbrev upload : String → List ℕ → String → List String → Stored FileMetadata × List String
upload path content mime_type paths = (
  stored (record { path = path; filename = path; mime_type = mime_type; size = length content }),
  path ∷ paths,
)

process_upload-Uploads_example :
    Uploads
      (λ s. s)
      letter
      upload
      "u1"
      "../cat.png"
      (1 ∷ 2 ∷ [])
      "image/png"
      (some 5)
      (some ("png" ∷ []))
      "pics"
      []
      (process_upload
        (λ s. s)
        letter
        upload
        "u1"
        "../cat.png"
        (1 ∷ 2 ∷ [])
        "image/png"
        (some 5)
        (some ("png" ∷ []))
        "pics"
        [])
process_upload-Uploads_example =
    process_upload-Uploads (λ s. s) letter upload "u1" "../cat.png" (1 ∷ 2 ∷ []) "image/png"
      (some 5) (some ("png" ∷ [])) "pics" []

no_directory : sanitize_filename (λ s. s) letter "../cat.png" ≡ ".._cat.png"
unfolding sanitize_filename byte_char
no_directory = refl
