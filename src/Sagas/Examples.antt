-- ===== src/Sagas/Examples.antt =====
-- An order whose payment is refused.
use shaperail.Prelude.{
  String, List, [], ◌∷◌, none, some, contains, ◌==◌, if◌then◌else◌, ◌≡◌, ◌≢◌, refl, arith,
  split_once, strip_prefix, map_option,
}
use shaperail.Core.Json.{null, str, obj, member, end}
use shaperail.Sagas.{
  SagaDefinition, Request, Reply, response, request_error, Platform, parse_action, step_request,
  undo_request, replace_id,
}
use shaperail.Sagas.Executor.{World, exhausted, advance, run_saga, verdict}
use shaperail.Sagas.Check.{verbs, validate_saga}
use shaperail.Sagas.Ending.{Ends, run_saga-Ends}
use shaperail.Sagas.Fuel.{advance-ends}
use shaperail.Sagas.Valid.{KnowsVerbs, Settles, validate_saga-Settles}

abbrev answer : List Request → Request → Reply
answer sent request =
    if request.url == "http://pay/charges"
    then request_error "timed out"
    else response 201 (some (obj (member "id" (str "r1") end)))

abbrev platform : Platform
platform = record {
  parse_method = λ method. if contains verbs method then some method else none;
  show_status = λ status. "status";
  row_not_found = "no row";
  reply = answer;
}

abbrev urls : List (String × String)
urls = ("inventory", "http://inv") ∷ ("payments", "http://pay") ∷ []

abbrev order : SagaDefinition
order = record {
  saga = "create_order";
  version = 1;
  steps =
      record {
        name = "reserve";
        service = "inventory";
        action = "POST /reservations";
        compensate = "DELETE /reservations/:id";
        input = none;
        timeout_secs = 5;
      }
      ∷ record {
        name = "charge";
        service = "payments";
        action = "POST /charges";
        compensate = "POST /charges/:id/refund";
        input = none;
        timeout_secs = 10;
      }
      ∷ [];
}

abbrev idle : World
idle = record { row = none; sent = []; faults = []; spawned = 0 }

abbrev requested_urls : List Request → List String
requested_urls [] = []
requested_urls (r ∷ rs) = r.url ∷ requested_urls rs

order_urls :
    requested_urls (run_saga platform urls "id" order null idle).sent
    ≡ "http://inv/reservations" ∷ "http://pay/charges" ∷ "http://inv/reservations/r1" ∷ []
unfolding run_saga step_request undo_request parse_action verdict replace_id split_once strip_prefix
order_urls = refl

abbrev nowhere : List (String × String)
nowhere = ("inventory", "http://inv") ∷ []

-- A step whose service is not registered leaves the execution running, with nothing undone.
unregistered_stays :
    map_option (λ row. row.status) (run_saga platform nowhere "id" order null idle).row
    ≡ some "running"
unfolding run_saga step_request undo_request parse_action verdict replace_id split_once strip_prefix
unregistered_stays = refl

run_saga-Ends_example :
    Ends platform urls "id" order null (run_saga platform urls "id" order null idle)
run_saga-Ends_example = run_saga-Ends platform urls "id" order null

advance-ends_example : (advance platform urls 3 order idle).0 ≢ exhausted
advance-ends_example = advance-ends platform urls order 3 idle (omega arith) (omega arith)

platform-KnowsVerbs : KnowsVerbs platform urls
platform-KnowsVerbs method known = rw known refl

validate_saga-Settles_example :
    Settles platform urls platform-KnowsVerbs "id" order null
      (run_saga platform urls "id" order null idle)
unfolding validate_saga split_once
validate_saga-Settles_example =
    validate_saga-Settles platform urls platform-KnowsVerbs "id" order null refl (refl, (refl, tt))
