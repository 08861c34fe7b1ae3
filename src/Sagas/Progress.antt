-- ===== src/Sagas/Progress.antt =====
-- How far a saga has got: the steps whose requests were accepted.
use shaperail.Prelude.{
  suc, String, List, [], ◌∷◌, ◌++◌, Option, none, some, get_elem?, length, length-append, ◌≡◌, refl,
  ap, arith,
}
use shaperail.Core.Json.{Json}
use shaperail.Core.Error.{ok}
use shaperail.Sagas.{
  SagaStep, SagaDefinition, running, status_text, SagaExecution, Request, Platform, step_request,
  undo_request,
}
use shaperail.Sagas.Executor.{World, verdict, accepted}

-- The accepted steps with their results, the requests sent for them, and what would undo them, the
-- last step first.
pub record Progress : Type 0 where
  pub done : List SagaStep
  pub results : List Json
  pub log : List Request
  pub undo : List Request

abbrev pub nothing_done : Progress
nothing_done = record { done = []; results = []; log = []; undo = [] }

abbrev pub undo_first : Option Request → List Request → List Request
undo_first none rest = rest
undo_first (some request) rest = request ∷ rest

module _ (platform : Platform) (service_urls : List (String × String)) where
  abbrev pub extend : Progress → SagaStep → Request → Json → Progress
  extend p step request result = record {
    done = p.done ++ step ∷ [];
    results = p.results ++ result ∷ [];
    log = p.log ++ request ∷ [];
    undo = undo_first (undo_request platform service_urls step (some result)) p.undo;
  }

  -- The progress that the services' replies allow: each step's request is sent after those of the
  -- steps before it, and accepted.
  pub data IsReached (input : Json) : Progress → Type 0 where
    here : IsReached input nothing_done
    next :
        {p : Progress}
        → IsReached input p
        → (step : SagaStep) (request : Request) (result : Json)
        → step_request platform service_urls (some input) step ≡ ok request
        → verdict platform service_urls step (platform.reply p.log request) ≡ accepted result
        → IsReached input (extend p step request result)

  pub results-done :
      {input : Json} {p : Progress} → IsReached input p → length p.results ≡ length p.done
  results-done here = refl
  results-done (next {p} r step request result _ _) = omega (
    arith,
    results-done r,
    length-append {0} p.results (result ∷ []),
    length-append {0} p.done (step ∷ []),
  )

-- The row of an execution at that point, and the world with it.
abbrev pub row_at : String → SagaDefinition → Json → Progress → SagaExecution
row_at id saga input p = record {
  id = id;
  saga_name = saga.saga;
  status = status_text running;
  current_step = length p.done;
  step_results = p.results;
  input = some input;
  error = none;
}

abbrev pub world_at : String → SagaDefinition → Json → Progress → World
world_at id saga input p = record {
  row = some (row_at id saga input p);
  sent = p.log;
  faults = [];
  spawned = 0;
}

-- The element after a prefix, and the end of a list.
module _ {A : Type 0} where
  pub get_elem?-append : (xs ys : List A) (y : A) → get_elem? (xs ++ y ∷ ys) (length xs) ≡ some y
  get_elem?-append [] ys y = refl
  get_elem?-append (x ∷ xs) ys y = get_elem?-append xs ys y

  pub get_elem?-length : (xs : List A) → get_elem? xs (length xs) ≡ none
  get_elem?-length [] = refl
  get_elem?-length (x ∷ xs) = get_elem?-length xs

  pub append_cons : (xs ys : List A) (y : A) → (xs ++ y ∷ []) ++ ys ≡ xs ++ y ∷ ys
  append_cons [] ys y = refl
  append_cons (x ∷ xs) ys y = ap (◌∷◌ x) (append_cons xs ys y)

  pub append_nil : (xs : List A) → xs ++ [] ≡ xs
  append_nil [] = refl
  append_nil (x ∷ xs) = ap (◌∷◌ x) (append_nil xs)

  pub length_snoc : (xs : List A) (y : A) → length (xs ++ y ∷ []) ≡ suc (length xs)
  length_snoc [] y = refl
  length_snoc (x ∷ xs) y = ap suc (length_snoc xs y)

  pub append_assoc : (xs ys zs : List A) → (xs ++ ys) ++ zs ≡ xs ++ (ys ++ zs)
  append_assoc [] ys zs = refl
  append_assoc (x ∷ xs) ys zs = ap (◌∷◌ x) (append_assoc xs ys zs)
