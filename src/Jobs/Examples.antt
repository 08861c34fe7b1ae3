-- ===== src/Jobs/Examples.antt =====
-- A mail job that always fails, among others.
use shaperail.Prelude.{◌+◌, String, List, [], ◌∷◌, ◌≡◌, refl, arith}
use shaperail.Core.Json.{null}
use shaperail.Jobs.{
  Entry, job, JobPriority, critical, high, normal, low, JobEnvelope, Execution, failed_with, World,
}
use shaperail.Jobs.Count.{copies}
use shaperail.Jobs.Events.{Event, enqueued, polled, woken, run, enqueues, run-copies}
use shaperail.Jobs.Order.{in_order, Polls, poll_once-Polls}
use shaperail.Jobs.Retry.{rounds, IsDeadAfter, rounds-IsDeadAfter}

abbrev registry : List String
registry = "mail" ∷ []

abbrev refuse : List (JobEnvelope × Execution) → JobEnvelope → Execution
refuse before envelope = failed_with "no server"

abbrev mail : JobEnvelope
mail = record {
  id = "m";
  name = "mail";
  payload = null;
  priority = normal;
  max_retries = 2;
  timeout_secs = 300;
  attempt = 0;
}

abbrev only : JobPriority → List Entry
only critical = []
only high = []
only normal = job mail ∷ []
only low = []

abbrev start : World
start = record {
  queues = only;
  dead = [];
  meta = [];
  sleeping = [];
  executed = [];
  clock = "now";
  faults = [];
}

abbrev events : List Event
events = polled ∷ enqueued "n" "mail" null high 1 300 ∷ polled ∷ woken 0 ∷ polled ∷ []

run-copies_example :
    copies "n" (run registry refuse events start)
    ≡ copies "n" start + enqueues registry refuse "n" events
run-copies_example = run-copies registry refuse "n" events start refl

poll_once-Polls_example : Polls registry refuse (in_order only) start
poll_once-Polls_example = poll_once-Polls registry refuse start

rounds-IsDeadAfter_example :
    IsDeadAfter registry refuse 2 mail start (run registry refuse (rounds 2) start)
rounds-IsDeadAfter_example =
    rounds-IsDeadAfter registry refuse 1 mail start refl refl refl refl (λ before e bad. cc)
      (omega arith)
