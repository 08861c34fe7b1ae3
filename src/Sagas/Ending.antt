-- ===== src/Sagas/Ending.antt =====
-- Every saga whose database statements succeed ends in one of three ways.
use shaperail.Prelude.{
  ℕ, zero, suc, ◌+◌, ◌<◌, String, List, [], ◌∷◌, ◌++◌, Option, none, some, get_elem?, length, ◌≡◌,
  ◌⊎◌, inl, inr, refl, ap, arith, ◌∙◌, sym,
}
use shaperail.Core.Json.{Json}
use shaperail.Core.Error.{Result, ok, err, ShaperailError}
use shaperail.Sagas.{
  SagaStep, SagaDefinition, SagaExecutionStatus, completed, compensating, compensated, status_text,
  Request, Platform, step_request,
}
use shaperail.Sagas.Executor.{
  World, returned, raised, verdict, Verdict, accepted, refused, advance_round, advance, compensate,
  run_spawned, detached, run_saga,
}
use shaperail.Sagas.Progress.{
  Progress, nothing_done, extend, IsReached, here, next, row_at, world_at, get_elem?-append,
  get_elem?-length, append_cons, append_nil, length_snoc,
}
use shaperail.Sagas.Undo.{undo_steps_lem}

Result-cases :
    {A : Type 0} (r : Result A) → ((a : A) × (r ≡ ok a)) ⊎ ((e : ShaperailError) × (r ≡ err e))
Result-cases (ok a) = inl (a, refl)
Result-cases (err e) = inr (e, refl)

Verdict-cases : (v : Verdict) → ((a : Json) × (v ≡ accepted a)) ⊎ ((e : String) × (v ≡ refused e))
Verdict-cases (accepted a) = inl (a, refl)
Verdict-cases (refused e) = inr (e, refl)

one_more : (n : ℕ) → n + 1 ≡ suc n
one_more n = omega arith

module _ (platform : Platform) (service_urls : List (String × String)) (id : String)
    (saga : SagaDefinition) (input : Json) where
  -- The row with another status and error, the requests sent, and the compensations spawned.
  abbrev pub world_with : Progress → SagaExecutionStatus → Option String → List Request → ℕ → World
  world_with p status message sent spawned = record {
    row = some (record (row_at id saga input p) { status = status_text status; error = message });
    sent = sent;
    faults = [];
    spawned = spawned;
  }

  -- The three endings: all steps accepted; a step refused, and the steps before it undone; or a
  -- step without a request, at which the execution stays.
  abbrev pub Ending : Progress → List SagaStep → World → Type 0
  Ending p rest w =
      ((rest ≡ []) × (w ≡ world_with p completed none p.log 0))
      ⊎ ((step : SagaStep) × (later : List SagaStep) × (request : Request) × (message : String)
          × (rest ≡ step ∷ later)
          × (step_request platform service_urls (some input) step ≡ ok request)
          × (verdict platform service_urls step (platform.reply p.log request) ≡ refused message)
          × (w ≡ world_with p compensated none ((p.log ++ request ∷ []) ++ p.undo) 1))
      ⊎ ((step : SagaStep) × (later : List SagaStep) × (e : ShaperailError) × (rest ≡ step ∷ later)
          × (step_request platform service_urls (some input) step ≡ err e)
          × (w ≡ world_at id saga input p))

  abbrev pub Ends : World → Type 0
  Ends w =
      (p : Progress) × IsReached platform service_urls input p
      × (rest : List SagaStep) × (saga.steps ≡ p.done ++ rest)
      × Ending p rest w

  -- A round of `advance`, by what stands at the current step.
  module _ (p : Progress) where
    round_past :
        get_elem? saga.steps (length p.done) ≡ none
        → advance_round platform service_urls saga (world_at id saga input p)
          ≡ (returned (some completed), world_with p completed none p.log 0)
    unfolding advance_round
    round_past e = rw e refl

    module _ (step : SagaStep) (at : get_elem? saga.steps (length p.done) ≡ some step) where
      round_stuck :
          (e : ShaperailError)
          → step_request platform service_urls (some input) step ≡ err e
          → advance_round platform service_urls saga (world_at id saga input p)
            ≡ (raised e, world_at id saga input p)
      unfolding advance_round
      round_stuck e bad = rw (at, bad) refl

      module _ (request : Request)
          (made : step_request platform service_urls (some input) step ≡ ok request) where
        round_refused :
            (message : String)
            → verdict platform service_urls step (platform.reply p.log request) ≡ refused message
            → advance_round platform service_urls saga (world_at id saga input p) ≡ (
              returned (some compensating),
              world_with p compensating (some message) (p.log ++ request ∷ []) 1,
            )
        unfolding advance_round
        round_refused message no_luck = rw (at, made, no_luck) refl

        round_accepted :
            (result : Json)
            → verdict platform service_urls step (platform.reply p.log request) ≡ accepted result
            → advance_round platform service_urls saga (world_at id saga input p) ≡ (
              returned none,
              world_at id saga input (extend platform service_urls p step request result),
            )
        unfolding advance_round
        round_accepted result luck =
            rw (at, made, luck, length_snoc p.done step)
              (ap
                (λ n. (
                  returned none,
                  record (world_at id saga input p) {
                    row = some (record (row_at id saga input p) {
                      current_step = n;
                      step_results = p.results ++ result ∷ [];
                    });
                    sent = p.log ++ request ∷ [];
                  },
                ))
                (one_more (length p.done)))

  -- `compensate` after a refused step.
  compensate_lem :
      (p : Progress)
      → IsReached platform service_urls input p
      → (rest : List SagaStep) → saga.steps ≡ p.done ++ rest
      → (message : String) (sent : List Request)
      → detached platform service_urls
          (compensate platform service_urls saga (world_with p compensating (some message) sent 1))
        ≡ world_with p compensated none (sent ++ p.undo) 1
  unfolding compensate
  compensate_lem p r rest e message sent =
      rw (e, sym (append_nil p.results), undo_steps_lem platform service_urls input r rest []) refl

  advance-Ends :
      (rest : List SagaStep) (p : Progress)
      → IsReached platform service_urls input p
      → saga.steps ≡ p.done ++ rest
      → (fuel : ℕ) → length rest < fuel
      → Ends (
          run_spawned platform service_urls saga (
            detached platform service_urls
              (advance platform service_urls fuel saga (world_at id saga input p))))
  unfolding advance
  advance-Ends rest p r e zero low = absurd (omega arith)
  advance-Ends [] p r e (suc fuel) low = (p, r, [], e, inl (refl, rw (round_past p past) refl))
    where
      past : get_elem? saga.steps (length p.done) ≡ none
      past = rw (e, append_nil p.done) (get_elem?-length p.done)
  advance-Ends (step ∷ rest) p r e (suc fuel) low =
      elim (Result-cases (step_request platform service_urls (some input) step)) [
        | inl (request, made) ↦
            elim (Verdict-cases
              (verdict platform service_urls step (platform.reply p.log request))) [
                | inl (result, luck) ↦ rw (round_accepted p step at request made result luck) (
                    advance-Ends rest (extend platform service_urls p step request result)
                      (next r step request result made luck)
                      (e ∙ sym (append_cons p.done rest step)) fuel (omega arith))
                | inr (message, no_luck) ↦ (
                  p,
                  r,
                  step ∷ rest,
                  e,
                  inr (
                      inl (
                        step,
                        rest,
                        request,
                        message,
                        refl,
                        made,
                        no_luck,
                        rw (round_refused p step at request made message no_luck)
                            (compensate_lem p r (step ∷ rest) e message (p.log ++ request ∷ [])),
                      )),
                )
              ]
        | inr (bad, why) ↦ (
          p,
          r,
          step ∷ rest,
          e,
          inr (inr (step, rest, bad, refl, why, rw (round_stuck p step at bad why) refl)),
        )
      ]
    where
      at : get_elem? saga.steps (length p.done) ≡ some step
      at = rw e (get_elem?-append p.done rest step)

  -- A saga that starts with no failing database statement ends, and in one of three ways. Either every
  -- step was sent once, in order, and accepted, and the execution is completed; or a step was refused
  -- after those before it were accepted, and what undoes them was sent, the last one first, and the
  -- execution is compensated, with no error text; or a step has no request, and the execution stays
  -- running after the steps before it, with nothing undone.
  pub run_saga-Ends : Ends (
      run_saga platform service_urls id saga input
        (record { row = none; sent = []; faults = []; spawned = 0 }))
  unfolding run_saga
  run_saga-Ends =
      advance-Ends saga.steps nothing_done here refl (suc (length saga.steps)) (omega arith)
