-- ===== src/Sagas.antt =====
-- shaperail-core/src/saga.rs, and of shaperail-runtime/src/sagas/executor.rs the parts that touch no
-- state: the rows, the requests, and how a step's texts become a request.
pub mod Executor
pub mod Check
pub mod Progress
pub mod Undo
pub mod Ending
pub mod Fuel
pub mod Valid
mod Examples
use shaperail.Prelude.{
  ℕ, zero, suc, ◌+◌, String, List, [], ◌∷◌, Option, none, some, Bool, true, false, ◌&&◌,
  if◌then◌else◌, and_then, unwrap_or, get_elem?, is_some, lookup, format, ltb, leb, split_once,
  strip_prefix,
}
use shaperail.Core.Json.{Json, null, as_str, field}
use shaperail.Core.Error.{Result, ok, err, ◌>>=◌, ShaperailError, internal}
use Prim.Native.String as Str

-- shaperail-core/src/saga.rs.
pub record SagaStep : Type 0 where
  pub name : String
  pub service : String
  pub action : String
  pub compensate : String
  pub input : Option Json
  pub timeout_secs : ℕ

pub record SagaDefinition : Type 0 where
  pub saga : String
  pub version : ℕ
  pub steps : List SagaStep

pub data SagaExecutionStatus : Type 0 where
  running completed compensating compensated failed : SagaExecutionStatus

abbrev pub status_text : SagaExecutionStatus → String
status_text running = "running"
status_text completed = "completed"
status_text compensating = "compensating"
status_text compensated = "compensated"
status_text failed = "failed"

-- A row of `saga_executions`. Its `step_results` is a JSON array that the program only appends to.
pub record SagaExecution : Type 0 where
  pub id : String
  pub saga_name : String
  pub status : String
  pub current_step : ℕ
  pub step_results : List Json
  pub input : Option Json
  pub error : Option String

-- What reqwest sends: a compensation has no body.
pub record Request : Type 0 where
  pub method : String
  pub url : String
  pub body : Option Json
  pub timeout_secs : ℕ

-- A response, with its body where that is JSON, or why there is none.
pub data Reply : Type 0 where
  response : (status : ℕ) (body : Option Json) → Reply
  request_error : String → Reply

-- reqwest and sqlx: the methods that parse, how a status is printed, sqlx's message where a row is
-- missing, and the services' reply to a request after those that were sent before.
pub record Platform : Type 0 where
  pub parse_method : String → Option String
  pub show_status : ℕ → String
  pub row_not_found : String
  pub reply : List Request → Request → Reply

-- `StatusCode::is_success`.
abbrev pub is_success : ℕ → Bool
is_success status = leb 200 status && ltb status 300

-- `str::replace(":id", id)`, after `skip` characters of a match that is already replaced.
replace_from : String → ℕ → String → String
replace_from id skip Str.[] = ""
replace_from id (suc skip) (Str.◌∷◌ c s) = replace_from id skip s
replace_from id zero (Str.◌∷◌ c s) =
    let found = Str.◌++◌ id (replace_from id 2 s) in
    let other = Str.◌∷◌ c (replace_from id 0 s) in
    if is_some (strip_prefix ":id" (Str.◌∷◌ c s)) then found else other

unfoldable pub replace_id : String → String → String
unfolding replace_from
replace_id id path = replace_from id 0 path

module _ (platform : Platform) (service_urls : List (String × String)) where
  abbrev with_method : String → String → Option String → Result (String × String)
  with_method name path none = err (internal (format ("Unknown HTTP method: " ∷ name ∷ [])))
  with_method name path (some method) = ok (method, path)

  abbrev with_parts : String → Option (String × String) → Result (String × String)
  with_parts action none = err (
      internal
        (format ("Invalid saga action format: '" ∷ action ∷ "' — expected 'METHOD /path'" ∷ [])))
  with_parts action (some (method, path)) = with_method method path (platform.parse_method method)

  unfoldable pub parse_action : String → Result (String × String)
  parse_action action = with_parts action (split_once b' ' action)

  abbrev registered : String → Option String → Result String
  registered service none =
      err (internal (format ("Service '" ∷ service ∷ "' not in service registry" ∷ [])))
  registered service (some url) = ok url

  -- The request of a step: its service's base URL, its action, and the input of the execution.
  unfoldable pub step_request : Option Json → SagaStep → Result Request
  step_request input step = do
    base_url ← registered step.service (lookup step.service service_urls)
    (method, path) ← parse_action step.action
    ok (record {
      method = method;
      url = format (base_url ∷ path ∷ []);
      body = some (unwrap_or input null);
      timeout_secs = step.timeout_secs;
    })

  -- The text that stands for `:id`: the `id` of the step's result, where that is a text.
  abbrev pub result_id : Option Json → String
  result_id result = unwrap_or (and_then (and_then result (λ r. field r "id")) as_str) ""

  abbrev undo_with : SagaStep → Option Json → String → Result (String × String) → Option Request
  undo_with step result base_url (err e) = none
  undo_with step result base_url (ok (method, path)) = some (record {
    method = method;
    url = format (base_url ∷ replace_id (result_id result) path ∷ []);
    body = none;
    timeout_secs = step.timeout_secs;
  })

  -- The request that compensates a step, unless the executor skips it.
  unfoldable pub undo_request : SagaStep → Option Json → Option Request
  undo_request step result =
      and_then (lookup step.service service_urls)
        (λ base_url. undo_with step result base_url (parse_action step.compensate))
