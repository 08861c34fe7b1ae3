-- ===== src/Validator/Endpoints.antt =====
-- shaperail-codegen/src/validator.rs: the checks of one endpoint.
use shaperail.Prelude.{
  ends_with, String, List, [], ◌∷◌, ◌++◌, Option, none, some, Bool, true, false, not, ◌&&◌, ◌==◌,
  if◌then◌else◌, contains, contains_key, lookup, format, is_empty, is_none, is_some_and,
  strip_prefix,
}
use shaperail.Core.Schema.{
  FieldType, uuid, string, integer, number, boolean, timestamp, date, enum, json, array, file,
  is_type, FieldSchema,
}
use shaperail.Core.Endpoint.{
  HttpMethod, get, post, patch, put, delete, EndpointSpec, ControllerSpec, UploadSpec, HookList,
  names, after_names,
}
use shaperail.Validator.{report, each, each_of, when_some}

abbrev pub type_text : FieldType → String
type_text uuid = "uuid"
type_text string = "string"
type_text integer = "integer"
type_text number = "number"
type_text boolean = "boolean"
type_text timestamp = "timestamp"
type_text date = "date"
type_text enum = "enum"
type_text json = "json"
type_text array = "array"
type_text file = "file"

abbrev pub crud_actions : List String
crud_actions = "list" ∷ "get" ∷ "create" ∷ "update" ∷ "delete" ∷ "bulk_create" ∷ "bulk_delete" ∷ []

-- `HANDLER_CONVENTIONS` of shaperail-codegen/src/rust.rs.
abbrev pub handler_conventions : List String
handler_conventions = "list" ∷ "get" ∷ "create" ∷ "update" ∷ "delete" ∷ []

abbrev wrong_method : Option HttpMethod → Bool
wrong_method none = false
wrong_method (some get) = true
wrong_method (some delete) = true
wrong_method (some post) = false
wrong_method (some patch) = false
wrong_method (some put) = false

module _ (res : String) (schema : List (String × FieldSchema)) (action : String) where
  abbrev pub of_endpoint : List String → List String
  of_endpoint rest = "resource '" ∷ res ∷ "': endpoint '" ∷ action ∷ "'" ∷ rest

  unfoldable pub validate_handler_only_on_custom : EndpointSpec → List String
  validate_handler_only_on_custom ep =
      when_some
        (λ handler. report (contains handler_conventions action) (
          of_endpoint (
            " declares `handler: " ∷ handler
            ∷ "`, but `handler:` is only valid on custom (non-convention) endpoints. The convention actions list / get / create / update / delete are dispatched by the runtime CRUD path; a `handler:` declaration on them would be silently dropped at codegen time.\n\nTo attach a custom handler at the same HTTP method+path, rename the endpoint key to a non-convention action (e.g. `post_"
            ∷ res ∷ "`) and set `method:` and `path:` explicitly:\n\nendpoints:\n  post_" ∷ res
            ∷ ":\n    method: POST\n    path: /" ∷ res ∷ "\n    handler: " ∷ handler
            ∷ "\n\nTo customize standard CRUD behavior without replacing the runtime path, use `controller: { before: ... }` for setup logic and `controller: { after: ... }` for response shaping."
            ∷ [])))
        ep.handler

  unfoldable pub validate_controller_only_on_crud : ControllerSpec → List String
  validate_controller_only_on_crud controller =
      report (not (contains crud_actions action) && not (is_empty (after_names controller))) (
        of_endpoint (
          " declares `controller: { after: ... }`, but `after:` controllers are only valid on conventional CRUD endpoints (list / get / create / update / delete / bulk_create / bulk_delete).\n\nCustom endpoints generate their own response via `handler:`, so the runtime has no place to merge `ctx.response_extras` or pass through after-hook mutations. Use a `before:` controller for shared setup (auth augmentation, tenant scoping, request validation), and put response-shaping logic inside the handler itself."
          ∷ []))

  abbrev wasm_errors : String → String → List String
  wasm_errors phase wasm_path =
      if wasm_path == ""
      then format (of_endpoint (" controller." ∷ phase ∷ " has 'wasm:' prefix but no path" ∷ []))
        ∷ []
      else report (not (ends_with ".wasm" wasm_path)) (
          of_endpoint (
            " controller." ∷ phase ∷ " WASM path must end with '.wasm', got '" ∷ wasm_path ∷ "'"
            ∷ []))

  unfoldable pub validate_controller_name : String → String → List String
  unfolding ends_with
  validate_controller_name phase name = when_some (wasm_errors phase) (strip_prefix "wasm:" name)

  abbrev name_errors : String → String → List String
  name_errors phase name =
      if name == ""
      then format (of_endpoint (" has an empty controller." ∷ phase ∷ " name" ∷ [])) ∷ []
      else validate_controller_name phase name

  abbrev hook_errors : String → HookList → List String
  hook_errors phase hooks =
      report (is_empty (names hooks)) (
        "[SR063] resource '" ∷ res ∷ "': endpoint '" ∷ action ∷ "' has an empty controller." ∷ phase
        ∷ " list" ∷ [])
      ++ each (name_errors phase) (names hooks)

  unfoldable pub controller_errors : ControllerSpec → List String
  unfolding validate_controller_only_on_crud validate_controller_name
  controller_errors controller =
      validate_controller_only_on_crud controller
      ++ (when_some (hook_errors "before") controller.before
          ++ when_some (hook_errors "after") controller.after)

  abbrev pub empty_error : String → String → List String
  empty_error what name = report (name == "") (of_endpoint (" has an empty " ∷ what ∷ " name" ∷ []))

  -- A name that is no field of the schema.
  abbrev pub missing_error : String → String → List String
  missing_error what name =
      report (not (contains_key name schema))
        (of_endpoint (" " ∷ what ∷ " field '" ∷ name ∷ "' not found in schema" ∷ []))

  abbrev pub file_errors : String → Option FieldSchema → List String
  file_errors name none =
      format (of_endpoint (" upload field '" ∷ name ∷ "' not found in schema" ∷ [])) ∷ []
  file_errors name (some field) =
      report (not (is_type field.field_type file))
        (of_endpoint (" upload field '" ∷ name ∷ "' must be type file" ∷ []))

  abbrev companion_errors : String → String → FieldType → List String
  companion_errors name suffix expected =
      let companion : String = format (name ∷ "_" ∷ suffix ∷ []) in
      when_some
        (λ field. report (not (is_type field.field_type expected)) (
          "resource '"
          ∷ res
          ∷ "': companion upload field '"
          ∷ companion
          ∷ "' must be type "
          ∷ type_text expected
          ∷ []))
        (lookup companion schema)

  abbrev pub companions_errors : String → List String
  companions_errors name =
      companion_errors name "filename" string
      ++ (companion_errors name "mime_type" string ++ companion_errors name "size" integer)

  unfoldable pub upload_errors : EndpointSpec → UploadSpec → List String
  upload_errors ep upload =
      report (wrong_method ep.method)
        (of_endpoint (" uses upload but method must be POST, PATCH, or PUT" ∷ []))
      ++ (file_errors upload.field (lookup upload.field schema)
          ++ (report (not (contains ("local" ∷ "s3" ∷ "gcs" ∷ "azure" ∷ []) upload.storage))
                (of_endpoint (" upload storage '" ∷ upload.storage ∷ "' is invalid" ∷ []))
              ++ (report (not (is_some_and ep.input (λ fields. contains fields upload.field)))
                    (of_endpoint (" upload field '" ∷ upload.field ∷ "' must appear in input" ∷ []))
                  ++ companions_errors upload.field)))

  unfoldable pub endpoint_errors : EndpointSpec → List String
  unfolding validate_handler_only_on_custom controller_errors upload_errors
  endpoint_errors ep =
      report (is_none ep.method) (
        of_endpoint (
          " has no method. Use a known action name (list, get, create, update, delete) or set method explicitly"
          ∷ []))
      ++ (report (is_none ep.path) (
            of_endpoint (
              " has no path. Use a known action name (list, get, create, update, delete) or set path explicitly"
              ∷ []))
          ++ (validate_handler_only_on_custom ep
              ++ (when_some controller_errors ep.controller
                  ++ (each_of (empty_error "event") ep.events
                      ++ (each_of (empty_error "job") ep.jobs
                          ++ (each_of (missing_error "input") ep.input
                              ++ (each_of (missing_error "filter") ep.filters
                                  ++ (each_of (missing_error "search") ep.search
                                      ++ (each_of (missing_error "sort") ep.sort
                                          ++ (report
                                                (ep.soft_delete
                                                  && not (contains_key "deleted_at" schema))
                                                (of_endpoint (
                                                  " has soft_delete but schema has no 'deleted_at' field"
                                                  ∷ []))
                                              ++ when_some (upload_errors ep) ep.upload))))))))))
