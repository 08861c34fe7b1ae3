-- ===== src/Handlers/Validate/Phases.antt =====
-- What the two validation phases of a write accept.
use shaperail.Prelude.{
  String, List, [], ◌∷◌, Option, none, some, true, not, All, All-map, All-zip, In, contains,
  contains→In, In→contains, lookup, keys, ◌≡◌, ◌≢◌, ◌↔◌, ◌⊎◌, refl, inl, inr, arith,
  append-eq-nil_iff, Bool-cases, if◌then◌else◌,
}
use shaperail.Core.Json.{Json, Map, Platform}
use shaperail.Core.Error.{FieldError, ok, finalize, >>-eq-ok}
use shaperail.Core.Schema.{FieldSchema}
use shaperail.Core.Resource.{ResourceDefinition}
use shaperail.Handlers.Validate.Rules.Conforms.{FieldConforms}
use shaperail.Handlers.Validate.Rules.Fields.{check_field_rules-FieldConforms}
use shaperail.Handlers.Validate.{
  present, is_managed, rule_errors, shape_errors, validate_input_shape, is_missing, required_error,
  required_errors, validate_required_present, validate_input,
}

-- A field that the database or the server fills in.
abbrev pub IsManaged : FieldSchema → Type 0
IsManaged f = (f.generated ≡ true) ⊎ (f.primary ≡ true)

-- A value that is there satisfies the field's rules.
abbrev pub ValueConforms : Platform → FieldSchema → Option Json → Type 0
ValueConforms p f none = Unit {0}
ValueConforms p f (some v) = FieldConforms p f v

-- Each client-supplied field that the input holds satisfies its rules.
abbrev pub HasShape : Platform → Map → List (String × FieldSchema) → Type 0
HasShape p input schema =
    All (λ nf. ¬ IsManaged nf.1 → ValueConforms p nf.1 (present (lookup nf.0 input))) schema

-- Each required field with no default is there.
abbrev pub HasRequired : Map → List (String × FieldSchema) → Type 0
HasRequired input schema =
    All
      (λ nf.
        ¬ IsManaged nf.1
        → nf.1.required ≡ true
        → nf.1.default ≡ none
        → present (lookup nf.0 input) ≢ none)
      schema

finalize_iff : (es : List FieldError) → (finalize es ≡ ok tt) ↔ (es ≡ [])
finalize_iff [] = (λ _. refl, λ _. refl)
finalize_iff (e ∷ es) = (λ h. cc, λ h. cc)

module _ (p : Platform) where
  rule_errors-ValueConforms :
      (name : String) (f : FieldSchema) (v : Option Json)
      → (rule_errors p name f v ≡ []) ↔ ValueConforms p f v
  rule_errors-ValueConforms name f none = (λ _. tt, λ _. refl)
  rule_errors-ValueConforms name f (some v) = check_field_rules-FieldConforms p name f v

  unmanaged_iff :
      {Q : Type 0} (f : FieldSchema) (es : List FieldError)
      → ((es ≡ []) ↔ Q)
      → (((if is_managed f then [] else es) ≡ []) ↔ (¬ IsManaged f → Q))
  unmanaged_iff f es h = elim (Bool-cases (is_managed f)) [
    | inl b ↦ rw b (λ _ n. absurd (n (ground arith)), λ _. refl)
    | inr b ↦ rw b (λ e _. h.0 e, λ k. h.1 (k (λ m. ground arith)))
  ]

  shape_errors-HasShape :
      (input : Map) (schema : List (String × FieldSchema))
      → (shape_errors p input schema ≡ []) ↔ HasShape p input schema
  unfolding shape_errors
  shape_errors-HasShape input [] = (λ _. tt, λ _. refl)
  shape_errors-HasShape input ((name, f) ∷ schema) =
      append-eq-nil_iff (unmanaged_iff f _ (rule_errors-ValueConforms name f _))
        (shape_errors-HasShape input schema)

  -- Phase 1 accepts an input exactly when each field in it that clients may set satisfies its rules of
  -- values, length, bounds, format, UUID and items; absent and null fields pass.
  pub validate_input_shape-HasShape :
      (input : Map) (resource : ResourceDefinition)
      → (validate_input_shape p input resource ≡ ok tt) ↔ HasShape p input resource.schema
  unfolding validate_input_shape
  validate_input_shape-HasShape input resource =
      let f = finalize_iff (shape_errors p input resource.schema) in
      let s = shape_errors-HasShape input resource.schema in (λ e. s.0 (f.0 e), λ h. f.1 (s.1 h))

  -- What phase 2 asks of one field.
  abbrev pub FieldReady : Map → List String → String × FieldSchema → Type 0
  FieldReady input pre_controller_keys nf =
      ¬ IsManaged nf.1
      → (nf.1.required ≡ true → nf.1.default ≡ none → present (lookup nf.0 input) ≢ none)
        × (¬ In nf.0 pre_controller_keys → ValueConforms p nf.1 (present (lookup nf.0 input)))

  field_ready :
      (keys : List String) (name : String) (f : FieldSchema) (v : Option Json)
      → (((if is_missing f v
              then required_error name ∷ []
              else if not (contains keys name)
              then rule_errors p name f v
              else [])
            ≡ [])
          ↔ ((f.required ≡ true → f.default ≡ none → v ≢ none)
              × (¬ In name keys → ValueConforms p f v)))
  field_ready keys name f none = ground (arith, contains→In keys name, In→contains keys name)
  field_ready keys name f (some v) = ground (
    arith,
    contains→In keys name,
    In→contains keys name,
    rule_errors-ValueConforms name f (some v),
  )

  required_errors-All :
      (input : Map) (keys : List String) (schema : List (String × FieldSchema))
      → (required_errors p input keys schema ≡ []) ↔ All (FieldReady input keys) schema
  unfolding required_errors
  required_errors-All input keys [] = (λ _. tt, λ _. refl)
  required_errors-All input keys ((name, f) ∷ schema) =
      append-eq-nil_iff (unmanaged_iff f _ (field_ready keys name f (present (lookup name input))))
        (required_errors-All input keys schema)

  required_present_iff :
      (input : Map) (resource : ResourceDefinition) (keys : List String)
      → (validate_required_present p input resource keys ≡ ok tt)
        ↔ All (FieldReady input keys) resource.schema
  unfolding validate_required_present
  required_present_iff input resource keys =
      let f = finalize_iff (required_errors p input keys resource.schema) in
      let s = required_errors-All input keys resource.schema in (λ e. s.0 (f.0 e), λ h. f.1 (s.1 h))

  -- What phase 2 accepts is complete.
  pub required_present-HasRequired :
      (input : Map) (resource : ResourceDefinition) (keys : List String)
      → validate_required_present p input resource keys ≡ ok tt
      → HasRequired input resource.schema
  required_present-HasRequired input resource keys e =
      All-map _ _ resource.schema (λ nf h n. (h n).0)
        ((required_present_iff input resource keys).0 e)

  -- The two phases of a create request around its controller: what phase 1 accepts before it and
  -- phase 2 after it satisfies the rules and is complete, provided that the controller leaves the keys that the
  -- client sent as they were.
  pub two_phases :
      (sent written : Map) (resource : ResourceDefinition)
      → ((k : String) → In k (keys sent) → lookup k written ≡ lookup k sent)
      → validate_input_shape p sent resource ≡ ok tt
      → validate_required_present p written resource (keys sent) ≡ ok tt
      → HasShape p written resource.schema × HasRequired written resource.schema
  two_phases sent written resource same shape ready =
      let each =
        All-zip _ _ resource.schema ((validate_input_shape-HasShape sent resource).0 shape)
          ((required_present_iff written resource (keys sent)).0 ready) in
      (
        All-map _ _ resource.schema (λ nf h n. conforms nf (h.0 n) ((h.1 n).1)) each,
        All-map _ _ resource.schema (λ nf h n. (h.1 n).0) each,
      )
    where
      conforms :
          (nf : String × FieldSchema)
          → ValueConforms p nf.1 (present (lookup nf.0 sent))
          → (¬ In nf.0 (keys sent) → ValueConforms p nf.1 (present (lookup nf.0 written)))
          → ValueConforms p nf.1 (present (lookup nf.0 written))
      conforms nf h k = elim (Bool-cases (contains (keys sent) nf.0)) [
        | inl b ↦ let i = contains→In (keys sent) nf.0 b in rw (same nf.0 i) h
        | inr b ↦ k (λ i. ground (arith, In→contains (keys sent) nf.0 i))
      ]

  pub validate_input_iff :
      (input : Map) (resource : ResourceDefinition)
      → (validate_input p input resource ≡ ok tt)
        ↔ (HasShape p input resource.schema × HasRequired input resource.schema)
  unfolding validate_input
  validate_input_iff input resource = (accepted, complete)
    where
      accepted :
          validate_input p input resource ≡ ok tt
          → HasShape p input resource.schema × HasRequired input resource.schema
      accepted e =
          let (shape, ready) =
            >>-eq-ok (validate_input_shape p input resource)
              (validate_required_present p input resource (keys input)) e in
          two_phases input input resource (λ k _. refl) shape ready

      complete :
          HasShape p input resource.schema × HasRequired input resource.schema
          → validate_input p input resource ≡ ok tt
      complete (shape, required) = rw ((validate_input_shape-HasShape input resource).1 shape) (
          (required_present_iff input resource (keys input)).1 (
            All-map _ _ resource.schema (λ nf h n. (h.1 n, λ _. h.0 n))
              (All-zip _ _ resource.schema shape required)))
