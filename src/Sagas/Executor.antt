-- ===== src/Sagas/Executor.antt =====
-- shaperail-runtime/src/sagas/executor.rs: `start`, `advance` and `compensate` over the database row of one
-- execution and the requests that are sent.
use shaperail.Prelude.{
  ℕ, zero, suc, ◌+◌, String, List, [], ◌∷◌, ◌++◌, Option, none, some, if◌then◌else◌, unwrap_or,
  map_option, get_elem?, format, length,
}
use shaperail.Core.Json.{Json, null}
use shaperail.Core.Error.{Result, ok, err, ShaperailError, internal, not_found}
use shaperail.Sagas.{
  SagaStep, SagaDefinition, SagaExecutionStatus, running, completed, compensating, compensated,
  status_text, SagaExecution, Request, Reply, response, request_error, Platform, is_success,
  step_request, undo_request,
}

-- The row of the execution, the requests sent so far, what the next database statements meet (a
-- list that has ended means no more failures), and the compensations that were spawned.
pub record World : Type 0 where
  pub row : Option SagaExecution
  pub sent : List Request
  pub faults : List (Option String)
  pub spawned : ℕ

pub data Outcome (A : Type 0) : Type 0 where
  returned : A → Outcome A
  raised : ShaperailError → Outcome A
  panicked : Outcome A
  exhausted : Outcome A

abbrev pub M : Type 0 → Type 0
M A = World → Outcome A × World

abbrev bind : {A B : Type 0} → Outcome A × World → (A → M B) → Outcome B × World
bind (returned a, w) next = next a w
bind (raised e, w) next = (raised e, w)
bind (panicked, w) next = (panicked, w)
bind (exhausted, w) next = (exhausted, w)

infixl 5 ◌>>=◌ ◌>>◌
abbrev pub ◌>>=◌ : {A B : Type 0} → M A → (A → M B) → M B
◌>>=◌ m next w = bind (m w) next

abbrev pub ◌>>◌ : {A B : Type 0} → M A → M B → M B
m >> next = m >>= λ _. next

abbrev pub pure : {A : Type 0} → A → M A
pure a w = (returned a, w)

abbrev pub lift : {A : Type 0} → Result A → M A
lift (ok a) w = (returned a, w)
lift (err e) w = (raised e, w)

-- One database statement may fail.
abbrev pub next_fault : List (Option String) → M (Unit {0})
next_fault [] w = (returned tt, w)
next_fault (none ∷ faults) w = (returned tt, record w { faults = faults })
next_fault (some e ∷ faults) w = (raised (internal e), record w { faults = faults })

abbrev pub statement : M (Unit {0})
statement w = next_fault w.faults w

abbrev update_row : (SagaExecution → SagaExecution) → M (Unit {0})
update_row change = do statement; λ w. (returned tt, record w { row = map_option change w.row })

abbrev pub update_status : SagaExecutionStatus → Option String → M (Unit {0})
update_status status message =
    update_row (λ exec. record exec { status = status_text status; error = message })

abbrev advanced : Json → SagaExecution → SagaExecution
advanced result exec = record exec {
  current_step = exec.current_step + 1;
  step_results = exec.step_results ++ result ∷ [];
}

abbrev spawn_compensate : M (Unit {0})
spawn_compensate w = (returned tt, record w { spawned = w.spawned + 1 })

-- What a reply means for a step: its result, or why the step failed.
pub data Verdict : Type 0 where
  accepted : Json → Verdict
  refused : String → Verdict

module _ (platform : Platform) (service_urls : List (String × String)) where
  abbrev found : Option SagaExecution → M SagaExecution
  found none w = (raised (internal platform.row_not_found), w)
  found (some exec) w = (returned exec, w)

  abbrev pub fetch_execution : M SagaExecution
  fetch_execution = do statement; λ w. found w.row w

  abbrev pub send : Request → M Reply
  send request w =
      (returned (platform.reply w.sent request), record w { sent = w.sent ++ request ∷ [] })

  abbrev give_up : String → M (Option SagaExecutionStatus)
  give_up error_msg = do
    update_status compensating (some error_msg)
    spawn_compensate
    pure (some compensating)

  unfoldable pub verdict : SagaStep → Reply → Verdict
  verdict step (response status body) =
      if is_success status
      then accepted (unwrap_or body null)
      else refused
          (format ("Step '" ∷ step.name ∷ "' failed with HTTP " ∷ platform.show_status status ∷ []))
  verdict step (request_error e) =
      refused (format ("Step '" ∷ step.name ∷ "' request error: " ∷ e ∷ []))

  abbrev pub settle : Verdict → M (Option SagaExecutionStatus)
  settle (accepted result) = do update_row (advanced result); pure none
  settle (refused error_msg) = give_up error_msg

  -- The rest of a round of `advance`, at the step of that index or past the last one.
  abbrev pub attempt : SagaExecution → Option SagaStep → M (Option SagaExecutionStatus)
  attempt exec none = do update_status completed none; pure (some completed)
  attempt exec (some step) = do
    request ← lift (step_request platform service_urls exec.input step)
    reply ← send request
    settle (verdict step reply)

  -- A round of the loop of `advance`: `none` is the next round.
  unfoldable pub advance_round : SagaDefinition → M (Option SagaExecutionStatus)
  advance_round saga = do
    exec ← fetch_execution
    attempt exec (get_elem? saga.steps exec.current_step)

  unfoldable pub advance : ℕ → SagaDefinition → M SagaExecutionStatus
  unfolding advance_round
  advance zero saga w = (exhausted, w)
  advance (suc fuel) saga w =
      bind (advance_round saga w)
        (λ next u. elim next [ none ↦ advance fuel saga u | some status ↦ (returned status, u) ])

  abbrev pub send_undo : Option Request → M (Unit {0})
  send_undo none = pure tt
  send_undo (some request) = do _ ← send request; pure tt

  abbrev undo_step : List Json → ℕ → Option SagaStep → M (Unit {0})
  undo_step results i none = λ w. (panicked, w)
  undo_step results i (some step) =
      send_undo (undo_request platform service_urls step (get_elem? results i))

  -- `for i in (0..completed_steps).rev()`.
  unfoldable pub undo_steps : List SagaStep → List Json → ℕ → M (Unit {0})
  undo_steps steps results zero = pure tt
  undo_steps steps results (suc i) = do
    undo_step results i (get_elem? steps i)
    undo_steps steps results i

  unfoldable pub compensate : SagaDefinition → M (Unit {0})
  unfolding undo_steps
  compensate saga = do
    exec ← fetch_execution
    undo_steps saga.steps exec.step_results exec.current_step
    update_status compensated none

  -- `get_status`: a missing row is `NotFound`.
  abbrev shown : Option SagaExecution → M SagaExecution
  shown none w = (raised not_found, w)
  shown (some exec) w = (returned exec, w)

  unfoldable pub get_status : M SagaExecution
  get_status = do statement; λ w. shown w.row w

  abbrev pub started : String → SagaDefinition → Json → SagaExecution
  started id saga input = record {
    id = id;
    saga_name = saga.saga;
    status = status_text running;
    current_step = 0;
    step_results = [];
    input = some input;
    error = none;
  }

  -- `start` without the task that it spawns. The database makes the id.
  unfoldable pub start : String → SagaDefinition → Json → M String
  start id saga input = do
    statement
    λ w. (returned id, record w { row = some (started id saga input) })

  -- A spawned task: its error is only logged.
  abbrev pub detached : {A : Type 0} → Outcome A × World → World
  detached (outcome, w) = w

  abbrev pub run_spawned : SagaDefinition → World → World
  run_spawned saga w = elim w.spawned [ zero ↦ w | suc n ↦ detached (compensate saga w) ]

  abbrev after_start : SagaDefinition → Outcome String × World → World
  after_start saga (returned id, w) =
      run_spawned saga (detached (advance (suc (length saga.steps)) saga w))
  after_start saga (other, w) = w

  -- `start`, then the task that it spawns, then the task that this one spawns.
  unfoldable pub run_saga : String → SagaDefinition → Json → World → World
  unfolding start advance compensate
  run_saga id saga input w = after_start saga (start id saga input w)
