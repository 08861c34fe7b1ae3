-- ===== src/Sagas/Fuel.antt =====
-- The loop of `advance` ends, whatever the database and the services answer.
use shaperail.Prelude.{
  ℕ, zero, suc, ◌+◌, ◌<◌, String, List, [], ◌∷◌, ◌++◌, Option, none, some, get_elem?, length, ◌≡◌,
  ◌≢◌, refl, arith,
}
use shaperail.Core.Error.{Result, ok, err}
use shaperail.Sagas.{
  SagaStep, SagaDefinition, SagaExecutionStatus, SagaExecution, Platform, step_request, Request,
}
use shaperail.Sagas.Executor.{
  World, Outcome, returned, raised, panicked, exhausted, settle, attempt, verdict, Verdict,
  accepted, refused, advance_round, advance, send, lift, ◌>>=◌,
}

abbrev pub position : Option SagaExecution → ℕ
position none = 0
position (some exec) = exec.current_step

-- A round that is not the last one was at a step, and moves on by one.
abbrev MovesOn : (at steps : ℕ) → Outcome (Option SagaExecutionStatus) × World → Type 0
MovesOn at steps (returned none, w) = (position w.row ≡ at + 1) × (at < steps)
MovesOn at steps (returned (some status), w) = Unit
MovesOn at steps (raised e, w) = Unit
MovesOn at steps (panicked, w) = Unit
MovesOn at steps (exhausted, w) = ⊥

get_elem?-some-lt :
    {A : Type 0} (xs : List A) (i : ℕ) {x : A} → get_elem? xs i ≡ some x → i < length xs
get_elem?-some-lt [] i e = cc
get_elem?-some-lt (y ∷ xs) zero e = omega arith
get_elem?-some-lt (y ∷ xs) (suc i) e = omega (arith, get_elem?-some-lt xs i e)

module _ (platform : Platform) (service_urls : List (String × String)) (saga : SagaDefinition) where
  abbrev world : Option SagaExecution → List (Option String) → List Request → ℕ → World
  world row faults sent spawned = record {
    row = row;
    sent = sent;
    faults = faults;
    spawned = spawned;
  }

  settle-MovesOn :
      (exec : SagaExecution) (v : Verdict) (faults : List (Option String)) (sent : List Request)
      (spawned : ℕ)
      → exec.current_step < length saga.steps
      → MovesOn exec.current_step
          (length saga.steps)
          (settle platform service_urls v (world (some exec) faults sent spawned))
  settle-MovesOn exec (accepted result) [] sent spawned low = (refl, low)
  settle-MovesOn exec (accepted result) (none ∷ faults) sent spawned low = (refl, low)
  settle-MovesOn exec (accepted result) (some e ∷ faults) sent spawned low = tt
  settle-MovesOn exec (refused message) [] sent spawned low = tt
  settle-MovesOn exec (refused message) (none ∷ faults) sent spawned low = tt
  settle-MovesOn exec (refused message) (some e ∷ faults) sent spawned low = tt

  request-MovesOn :
      (exec : SagaExecution) (step : SagaStep) (r : Result Request) (faults : List (Option String))
      (sent : List Request) (spawned : ℕ)
      → exec.current_step < length saga.steps
      → MovesOn exec.current_step (length saga.steps) (
          (lift r >>= λ request. send platform service_urls request >>= λ reply.
          settle platform service_urls (verdict platform service_urls step reply))
            (world (some exec) faults sent spawned))
  request-MovesOn exec step (err e) faults sent spawned low = tt
  request-MovesOn exec step (ok request) faults sent spawned low =
      settle-MovesOn exec _ faults (sent ++ request ∷ []) spawned low

  attempt-MovesOn :
      (exec : SagaExecution) (found : Option SagaStep) (faults : List (Option String))
      (sent : List Request) (spawned : ℕ)
      → get_elem? saga.steps exec.current_step ≡ found
      → MovesOn exec.current_step
          (length saga.steps)
          (attempt platform service_urls exec found (world (some exec) faults sent spawned))
  attempt-MovesOn exec none [] sent spawned e = tt
  attempt-MovesOn exec none (none ∷ faults) sent spawned e = tt
  attempt-MovesOn exec none (some bad ∷ faults) sent spawned e = tt
  attempt-MovesOn exec (some step) faults sent spawned e =
      request-MovesOn exec step (step_request platform service_urls exec.input step) faults sent
        spawned (get_elem?-some-lt saga.steps exec.current_step e)

  advance_round-MovesOn :
      (row : Option SagaExecution) (faults : List (Option String)) (sent : List Request)
      (spawned : ℕ)
      → MovesOn
          (position row)
          (length saga.steps)
          (advance_round platform service_urls saga (world row faults sent spawned))
  unfolding advance_round
  advance_round-MovesOn none [] sent spawned = tt
  advance_round-MovesOn none (none ∷ faults) sent spawned = tt
  advance_round-MovesOn none (some bad ∷ faults) sent spawned = tt
  advance_round-MovesOn (some exec) [] sent spawned =
      attempt-MovesOn exec (get_elem? saga.steps exec.current_step) [] sent spawned refl
  advance_round-MovesOn (some exec) (none ∷ faults) sent spawned =
      attempt-MovesOn exec (get_elem? saga.steps exec.current_step) faults sent spawned refl
  advance_round-MovesOn (some exec) (some bad ∷ faults) sent spawned = tt

  ends_after :
      (fuel : ℕ) (o : Outcome (Option SagaExecutionStatus) × World) (w : World)
      → advance_round platform service_urls saga w ≡ o
      → length saga.steps < position w.row + suc fuel
      → MovesOn (position w.row) (length saga.steps) o
      → ((u : World)
          → length saga.steps < position u.row + fuel
          → 0 < fuel
          → (advance platform service_urls fuel saga u).0 ≢ exhausted)
      → (advance platform service_urls (suc fuel) saga w).0 ≢ exhausted
  unfolding advance
  ends_after fuel (returned none, u) w e low (moved, at) h bad =
      h u (omega arith) (omega arith) (rw e at bad)
  ends_after fuel (returned (some status), u) w e low m h bad = let b = rw e at bad in cc
  ends_after fuel (raised x, u) w e low m h bad = let b = rw e at bad in cc
  ends_after fuel (panicked, u) w e low m h bad = let b = rw e at bad in cc
  ends_after fuel (exhausted, u) w e low m h bad = absurd m

  -- With more rounds than steps are left, at least one, the loop ends before its fuel does: whatever
  -- the services reply, whichever database statements fail, and also where the row is missing.
  pub advance-ends :
      (fuel : ℕ) (w : World)
      → length saga.steps < position w.row + fuel
      → 0 < fuel
      → (advance platform service_urls fuel saga w).0 ≢ exhausted
  advance-ends zero w low pos = absurd (omega arith)
  advance-ends (suc fuel) w low pos =
      ends_after fuel (advance_round platform service_urls saga w) w refl low
        (advance_round-MovesOn w.row w.faults w.sent w.spawned) (advance-ends fuel)
