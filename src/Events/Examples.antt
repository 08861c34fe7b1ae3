-- ===== src/Events/Examples.antt =====
-- A new user, of whom a web hook and a job are told.
use shaperail.Prelude.{
  String, List, [], ◌∷◌, true, false, map, ◌≡◌, refl, ends_with, strip_prefix, strip_suffix,
}
use shaperail.Core.Json.{Json, null}
use shaperail.Jobs.{Entry, JobPriority, World, normal}
use shaperail.Events.{EventSubscriber, job_target, webhook, event_matches, emit}
use shaperail.Events.Emitted.{Delivers, emit-Delivers}
use shaperail.Events.Ordered.{Order, AreOrdersFor, payload_of}

abbrev nothing : JobPriority → List Entry
nothing p = []

abbrev start : World
start = record {
  queues = nothing;
  dead = [];
  meta = [];
  sleeping = [];
  executed = [];
  clock = "now";
  faults = [];
}

abbrev fresh : World → String
fresh w = "id"

abbrev subscribers : List EventSubscriber
subscribers =
    record { event = "users.*"; targets = webhook "http://a" ∷ job_target "mail" ∷ [] }
    ∷ record { event = "*.deleted"; targets = job_target "clean" ∷ [] }
    ∷ []

-- Exact names, both kinds of wildcard, and the full one.
patterns :
    map
      (λ pattern. event_matches pattern "users.created")
      ("users.created" ∷ "*.created" ∷ "users.*" ∷ "*" ∷ "users.create" ∷ "*.deleted" ∷ "user" ∷ [])
    ≡ true ∷ true ∷ true ∷ true ∷ false ∷ false ∷ false ∷ []
unfolding event_matches strip_prefix strip_suffix ends_with
patterns = refl

abbrev payload : Json
payload = payload_of "users.created" "users" "created" null "now" "id"

emit-Delivers_example :
    (orders : List Order) × AreOrdersFor payload "users.created" subscribers orders
    × Delivers
        ((normal, "shaperail:event_log", payload) ∷ orders)
        "id"
        (emit fresh subscribers "users.created" "users" "created" null start)
        start
emit-Delivers_example = emit-Delivers fresh subscribers "users.created" "users" "created" null start
