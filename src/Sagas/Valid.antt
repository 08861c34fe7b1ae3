-- ===== src/Sagas/Valid.antt =====
-- A saga that the parser accepts, over services that are all registered, completes or is undone.
use shaperail.Prelude.{
  format, unwrap_or, String, List, [], ◌∷◌, ◌++◌, Option, none, some, Bool, true, false, not,
  contains, lookup, is_some, length, split_once, All, All-zip, sym, ap, ◌∙◌, Option-cases, ◌≡◌, ◌⊎◌,
  inl, inr, refl, arith, subst,
}
use shaperail.Core.Json.{Json, null}
use shaperail.Core.Error.{ok}
use shaperail.Workspace.{first_error, fail_if}
use shaperail.Sagas.{
  replace_id, result_id, SagaStep, SagaDefinition, completed, compensated, Request, Platform,
  parse_action, step_request, undo_request,
}
use shaperail.Sagas.Executor.{World, verdict, refused, run_saga}
use shaperail.Sagas.Check.{verbs, is_valid_action, steps_error, validate_saga}
use shaperail.Sagas.Progress.{Progress, IsReached, here, next, append_nil, length_snoc}
use shaperail.Sagas.Ending.{world_with, run_saga-Ends}

abbrev IsWellFormed : SagaStep → Type 0
IsWellFormed step = (is_valid_action step.action ≡ true) × (is_valid_action step.compensate ≡ true)

first_error-none : (a b : Option String) → first_error a b ≡ none → (a ≡ none) × (b ≡ none)
first_error-none none b e = (refl, e)
first_error-none (some x) b e = cc

fail_if-none : (b : Bool) (m : String) → fail_if (not b) m ≡ none → b ≡ true
fail_if-none true m e = refl
fail_if-none false m e = cc

steps_error-IsWellFormed :
    (saga : String) (seen : List String) (steps : List SagaStep)
    → steps_error saga seen steps ≡ none
    → All IsWellFormed steps
unfolding steps_error
steps_error-IsWellFormed saga seen [] e = tt
steps_error-IsWellFormed saga seen (step ∷ steps) e =
    let (now, later) = first_error-none _ _ e in
    let (_, both) = first_error-none _ _ now in
    let (forward, back) = first_error-none _ _ both in
    (
      (fail_if-none _ _ forward, fail_if-none _ _ back),
      steps_error-IsWellFormed saga (step.name ∷ seen) steps later,
    )

validate_saga-IsWellFormed :
    (saga : SagaDefinition) → validate_saga saga ≡ none → All IsWellFormed saga.steps
unfolding validate_saga
validate_saga-IsWellFormed saga e =
    let (_, more) = first_error-none _ _ e in
    let (_, steps) = first_error-none _ _ more in
    steps_error-IsWellFormed saga.saga [] saga.steps steps

module _ {A : Type 0} (P : A → Type 0) where
  All-middle : (xs ys : List A) (y : A) → All P (xs ++ y ∷ ys) → P y
  All-middle [] ys y h = h.0
  All-middle (x ∷ xs) ys y h = All-middle xs ys y h.1

  All-prefix : (xs ys : List A) → All P (xs ++ ys) → All P xs
  All-prefix [] ys h = tt
  All-prefix (x ∷ xs) ys h = (h.0, All-prefix xs ys h.1)

module _ (platform : Platform) (service_urls : List (String × String)) where
  abbrev pub IsRegistered : SagaStep → Type 0
  IsRegistered step = is_some (lookup step.service service_urls) ≡ true

  -- reqwest knows the methods that the check of a saga lets pass.
  abbrev pub KnowsVerbs : Type 0
  KnowsVerbs =
      (method : String) → contains verbs method ≡ true → platform.parse_method method ≡ some method

  module _ (knows : KnowsVerbs) where
    parse_action-valid :
        (action : String)
        → is_valid_action action ≡ true
        → (r : String × String) × (parse_action platform service_urls action ≡ ok r)
    unfolding parse_action
    parse_action-valid action valid = elim (Option-cases (split_once b' ' action)) [
      | inl e ↦ let bad = rw e at valid in cc
      | inr ((method, path), e) ↦
          let both = rw e at valid in ((method, path), rw (e, knows method (ground arith)) refl)
    ]

    step_request-valid :
        (input : Option Json) (step : SagaStep)
        → IsRegistered step
        → is_valid_action step.action ≡ true
        → (r : Request) × (step_request platform service_urls input step ≡ ok r)
    unfolding step_request
    step_request-valid input step known valid =
        elim (Option-cases (lookup step.service service_urls)) [
          | inl e ↦ let bad = rw e at known in cc
          | inr (url, e) ↦
              let (parts, parsed) = parse_action-valid step.action valid in
              (
                record {
                  method = parts.0;
                  url = format (url ∷ parts.1 ∷ []);
                  body = some (unwrap_or input null);
                  timeout_secs = step.timeout_secs;
                },
                rw (e, parsed) refl,
              )
        ]

    undo_request-valid :
        (step : SagaStep) (result : Option Json)
        → IsRegistered step
        → is_valid_action step.compensate ≡ true
        → (r : Request) × (undo_request platform service_urls step result ≡ some r)
    unfolding undo_request
    undo_request-valid step result known valid =
        elim (Option-cases (lookup step.service service_urls)) [
          | inl e ↦ let bad = rw e at known in cc
          | inr (url, e) ↦
              let (parts, parsed) = parse_action-valid step.compensate valid in
              (
                record {
                  method = parts.0;
                  url =
                      format
                        (url ∷ replace_id (result_id platform service_urls result) parts.1 ∷ []);
                  body = none;
                  timeout_secs = step.timeout_secs;
                },
                rw (e, parsed) refl,
              )
        ]

    abbrev IsReady : SagaStep → Type 0
    IsReady step = IsWellFormed step × IsRegistered step

    -- One compensation for each accepted step.
    undo_complete :
        {input : Json} {p : Progress}
        → IsReached platform service_urls input p
        → All IsReady p.done
        → length p.undo ≡ length p.done
    undo_complete here ready = refl
    undo_complete (next {p} r step request result made luck) ready =
        let ((_, back), known) = All-middle IsReady p.done [] step ready in
        let (undo, e) = undo_request-valid step (some result) known back in
        rw (e, length_snoc p.done step)
          (omega (arith, undo_complete r (All-prefix IsReady p.done (step ∷ []) ready)))

    module _ (id : String) (saga : SagaDefinition) (input : Json) where
      -- All accepted; or one refused, and each step before it undone by a request of its own.
      abbrev pub Settles : World → Type 0
      Settles w =
          (p : Progress) × IsReached platform service_urls input p
          × (((p.done ≡ saga.steps)
                × (w ≡ world_with platform service_urls id saga input p completed none p.log 0))
              ⊎ ((step : SagaStep) × (later : List SagaStep) × (request : Request)
                  × (message : String) × (saga.steps ≡ p.done ++ step ∷ later)
                  × (step_request platform service_urls (some input) step ≡ ok request)
                  × (verdict platform service_urls step (platform.reply p.log request)
                      ≡ refused message)
                  × (length p.undo ≡ length p.done)
                  × (w
                      ≡ world_with platform service_urls id saga input p compensated none
                          ((p.log ++ request ∷ []) ++ p.undo) 1)))

      -- Where reqwest knows the five methods, a saga that passes `validate_saga`, over services that are
      -- all registered, ends in one of two ways if no database statement fails: completed, with all steps
      -- accepted; or compensated, after one step was refused, with one compensating request for each
      -- step that was accepted before it, the last one first.
      pub validate_saga-Settles :
          validate_saga saga ≡ none
          → All IsRegistered saga.steps
          → Settles (
              run_saga platform service_urls id saga input
                (record { row = none; sent = []; faults = []; spawned = 0 }))
      validate_saga-Settles valid known =
          let (p, r, rest, e, ending) = run_saga-Ends platform service_urls id saga input in
          elim ending [
            | inl (none_left, w) ↦
                (p, r, inl (sym (e ∙ ap (◌++◌ p.done) none_left ∙ append_nil p.done), w))
            | inr (inl (step, later, request, message, at, made, no_luck, w)) ↦ (
              p,
              r,
              inr (
                step,
                later,
                request,
                message,
                e ∙ ap (◌++◌ p.done) at,
                made,
                no_luck,
                undo_complete r (All-prefix IsReady p.done rest (subst (All IsReady) e ready)),
                w,
              ),
            )
            | inr (inr (step, later, bad, at, stuck, w)) ↦
                let ((forward, _), here_known) =
                  All-middle IsReady p.done later step
                    (subst (All IsReady) (e ∙ ap (◌++◌ p.done) at) ready) in
                let (request, made) = step_request-valid (some input) step here_known forward in cc
          ]
        where
          ready : All IsReady saga.steps
          ready =
              All-zip IsWellFormed IsRegistered saga.steps (validate_saga-IsWellFormed saga valid)
                known
