-- ===== src/Sagas/Check.antt =====
-- shaperail-codegen/src/workspace_parser.rs: the checks of a saga's file.
use shaperail.Prelude.{
  String, List, [], ◌∷◌, Option, none, some, Bool, false, not, ◌&&◌, ◌==◌, contains, format,
  is_empty, split_once, starts_with,
}
use shaperail.Workspace.{first_error, fail_if}
use shaperail.Sagas.{SagaStep, SagaDefinition}

abbrev pub verbs : List String
verbs = "GET" ∷ "POST" ∷ "PUT" ∷ "PATCH" ∷ "DELETE" ∷ []

abbrev pub valid_parts : Option (String × String) → Bool
valid_parts none = false
valid_parts (some (method, path)) = contains verbs method && starts_with path "/"

abbrev pub is_valid_action : String → Bool
is_valid_action action = valid_parts (split_once b' ' action)

abbrev pub step_error : String → List String → SagaStep → Option String
step_error saga seen step =
    first_error
      (fail_if (contains seen step.name)
        (format ("saga '" ∷ saga ∷ "': duplicate step name '" ∷ step.name ∷ "'" ∷ [])))
      (first_error
        (fail_if (not (is_valid_action step.action)) (
          format (
            "saga '" ∷ saga ∷ "' step '" ∷ step.name
            ∷ "': action must be 'METHOD /path' (e.g. 'POST /v1/items'), got '" ∷ step.action ∷ "'"
            ∷ [])))
        (fail_if (not (is_valid_action step.compensate)) (
          format (
            "saga '" ∷ saga ∷ "' step '" ∷ step.name ∷ "': compensate must be 'METHOD /path', got '"
            ∷ step.compensate ∷ "'" ∷ []))))

unfoldable pub steps_error : String → List String → List SagaStep → Option String
steps_error saga seen [] = none
steps_error saga seen (step ∷ steps) =
    first_error (step_error saga seen step) (steps_error saga (step.name ∷ seen) steps)

-- The first error of a saga, as `validate_workspace` gives that of a workspace.
unfoldable pub validate_saga : SagaDefinition → Option String
unfolding steps_error
validate_saga s = first_error (fail_if (s.saga == "") "saga name cannot be empty") (
    first_error
      (fail_if (is_empty s.steps)
        (format ("saga '" ∷ s.saga ∷ "': must have at least one step" ∷ [])))
      (steps_error s.saga [] s.steps))
