-- ===== src/Handlers/Response.antt =====
-- shaperail-runtime/src/handlers/response.rs: response envelopes, and the selection of fields.
use shaperail.Prelude.{
  ℕ, String, List, [], ◌∷◌, Option, none, some, contains, keep, is_empty, length, if◌then◌else◌,
}
use shaperail.Core.Json.{Json, Map, obj, arr, num, pos_int, items, object, as_object}
use shaperail.Handlers.State.{Response, Body, no_body, json_body}

abbrev respond : ℕ → Body → Response
respond code body = record { status = code; headers = []; body = body }

abbrev envelope : Json → Json
envelope v = obj (object (("data", v) ∷ []))

abbrev pub single : Json → Response
single v = respond 200 (json_body (envelope v))

abbrev pub created : Json → Response
created v = respond 201 (json_body (envelope v))

abbrev pub bulk : List Json → Response
bulk vs = respond 200 (
    json_body (
      obj (
        object (
          ("data", arr (items vs))
          ∷ ("meta", obj (object (("total", num (pos_int (length vs))) ∷ [])))
          ∷ []))))

abbrev pub no_content : Response
no_content = respond 204 no_body

abbrev selected : List String → Json → Option Map → Json
selected fields v none = v
selected fields v (some m) = obj (object (keep (λ e. contains fields e.0) m))

unfoldable pub select_fields : Json → List String → Json
select_fields v fields = if is_empty fields then v else selected fields v (as_object v)
