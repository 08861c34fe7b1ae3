-- ===== src/Validator/SoundEndpoints.antt =====
-- What an accepted endpoint is like.
use shaperail.Prelude.{
  String, List, [], Option, none, some, true, false, not, ◌&&◌, contains, contains_key, lookup,
  is_some, is_none, is_some_and, Option-cases, inl, inr, ◌≡◌, refl, arith,
}
use shaperail.Core.Schema.{file, is_type, is_type_iff, FieldSchema}
use shaperail.Core.Endpoint.{EndpointSpec, UploadSpec}
use shaperail.Validator.{each_of, when_some}
use shaperail.Validator.Endpoints.{
  endpoint_errors, missing_error, file_errors, upload_errors, companions_errors, controller_errors,
  empty_error, handler_conventions, validate_handler_only_on_custom,
}
use shaperail.Validator.Sound.{split, report-nil, each_of-nil, AllOf}

abbrev pub Schema : Type 0
Schema = List (String × FieldSchema)

abbrev pub IsField : Schema → String → Type 0
IsField schema name = contains_key name schema ≡ true

-- An upload goes to a file field that is an input of the endpoint.
abbrev pub IsSoundUpload : Schema → EndpointSpec → Option UploadSpec → Type 0
IsSoundUpload schema ep none = Unit
IsSoundUpload schema ep (some upload) =
    ((field : FieldSchema) × (lookup upload.field schema ≡ some field) × (field.field_type ≡ file))
    × (is_some_and ep.input (λ fields. contains fields upload.field) ≡ true)

abbrev pub IsSoundEndpoint : Schema → String × EndpointSpec → Type 0
IsSoundEndpoint schema (action, ep) =
    (is_some ep.method ≡ true)
    × (is_some ep.path ≡ true)
    × (is_some ep.handler ≡ true → contains handler_conventions action ≡ false)
    × AllOf (IsField schema) ep.input
    × AllOf (IsField schema) ep.filters
    × AllOf (IsField schema) ep.search
    × AllOf (IsField schema) ep.sort
    × (ep.soft_delete ≡ true → IsField schema "deleted_at")
    × IsSoundUpload schema ep ep.upload

module _ (res : String) (schema : Schema) (action : String) where
  known :
      (what name : String) → missing_error res schema action what name ≡ [] → IsField schema name
  known what name e = ground (arith, report-nil (not (contains_key name schema)) _ e)

  all_known :
      (what : String) (o : Option (List String))
      → each_of (missing_error res schema action what) o ≡ []
      → AllOf (IsField schema) o
  all_known what o e =
      each_of-nil (missing_error res schema action what) (IsField schema) o (known what) e

  no_handler :
      (ep : EndpointSpec)
      → validate_handler_only_on_custom res schema action ep ≡ []
      → is_some ep.handler ≡ true
      → contains handler_conventions action ≡ false
  unfolding validate_handler_only_on_custom
  no_handler ep e h = elim (Option-cases ep.handler) [
    | inl n ↦ let bad = rw n at h in cc
    | inr (handler, s) ↦ report-nil (contains handler_conventions action) _ (rw s at e)
  ]

  file_errors_lem :
      (name : String) (found : Option FieldSchema)
      → file_errors res schema action name found ≡ []
      → (field : FieldSchema) × (found ≡ some field) × (field.field_type ≡ file)
  file_errors_lem name none e = cc
  file_errors_lem name (some field) e =
      let is_file = report-nil (not (is_type field.field_type file)) _ e in
      (field, refl, ground (arith, is_type_iff field.field_type file))

  upload_errors-IsSoundUpload :
      (ep : EndpointSpec) (o : Option UploadSpec)
      → when_some (upload_errors res schema action ep) o ≡ []
      → IsSoundUpload schema ep o
  unfolding upload_errors
  upload_errors-IsSoundUpload ep none e = tt
  upload_errors-IsSoundUpload ep (some upload) e =
      let (a, e1) = split _ _ e in
      let (b, e2) = split _ _ e1 in
      let (c, e3) = split _ _ e2 in
      let (d, _) = split _ (companions_errors res schema action upload.field) e3 in
      let method = report-nil _ _ a in
      let storage = report-nil _ _ c in
      let named = report-nil _ _ d in
      (file_errors_lem upload.field (lookup upload.field schema) b, ground arith)

  pub endpoint_errors-IsSoundEndpoint :
      (ep : EndpointSpec)
      → endpoint_errors res schema action ep ≡ []
      → IsSoundEndpoint schema (action, ep)
  unfolding endpoint_errors
  endpoint_errors-IsSoundEndpoint ep e =
      let (a, e1) = split _ _ e in
      let (b, e2) = split _ _ e1 in
      let (c, e3) = split _ _ e2 in
      let (_, e4) = split (when_some (controller_errors res schema action) ep.controller) _ e3 in
      let (_, e5) = split (each_of (empty_error res schema action "event") ep.events) _ e4 in
      let (_, e6) = split (each_of (empty_error res schema action "job") ep.jobs) _ e5 in
      let (i, e7) = split _ _ e6 in
      let (f, e8) = split _ _ e7 in
      let (s, e9) = split _ _ e8 in
      let (o, e10) = split _ _ e9 in
      let (soft, u) = split _ _ e10 in
      let no_method = report-nil (is_none ep.method) _ a in
      let no_path = report-nil (is_none ep.path) _ b in
      let deleted = report-nil (ep.soft_delete && not (contains_key "deleted_at" schema)) _ soft in
      (
        ground arith,
        ground arith,
        no_handler ep c,
        all_known "input" ep.input i,
        all_known "filter" ep.filters f,
        all_known "search" ep.search s,
        all_known "sort" ep.sort o,
        λ h. ground arith,
        upload_errors-IsSoundUpload ep ep.upload u,
      )
