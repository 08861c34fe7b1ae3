-- ===== src/Validator/Sound.antt =====
-- What an accepted field is like.
use shaperail.Prelude.{
  String, List, [], ◌∷◌, ◌++◌, Option, none, some, Bool, true, false, not, ◌&&◌, All, All-map,
  contains_char, is_some, is_none, ◌⊎◌, if◌then◌else◌, ◌≡◌, ◌≢◌, refl, arith,
}
use shaperail.Core.Schema.{uuid, string, enum, array, is_type, is_type_iff, ItemsSpec, FieldSchema}
use shaperail.Validator.{
  reference_errors, report, each, each_of, when_some, field_errors, items_errors, type_errors,
  transient_errors,
}

pub split : {A : Type 0} (xs ys : List A) → xs ++ ys ≡ [] → (xs ≡ []) × (ys ≡ [])
split [] ys e = (refl, e)
split (x ∷ xs) ys e = cc

pub report-nil : (b : Bool) (m : List String) → report b m ≡ [] → b ≡ false
unfolding report
report-nil true m e = cc
report-nil false m e = refl

pub each-nil :
    {A : Type 0} (check : A → List String) (xs : List A)
    → each check xs ≡ []
    → All (λ x. check x ≡ []) xs
each-nil check [] e = tt
each-nil check (x ∷ xs) e =
    let (first, more) = split (check x) (each check xs) e in (first, each-nil check xs more)

-- The elements of a list that may be absent.
abbrev pub AllOf {ℓ} : {A : Type 0} → (A → Type ℓ) → Option (List A) → Type ℓ
AllOf P none = Unit
AllOf P (some xs) = All P xs

pub each_of-nil :
    {A : Type 0} (check : A → List String) (P : A → Type 0) (o : Option (List A))
    → ((x : A) → check x ≡ [] → P x)
    → each_of check o ≡ []
    → AllOf P o
each_of-nil check P none f e = tt
each_of-nil check P (some xs) f e = All-map (λ x. check x ≡ []) P xs f (each-nil check xs e)

abbrev pub IsReference : Option String → Type 0
IsReference none = Unit
IsReference (some r) = contains_char b'.' r ≡ true

-- The elements of an array: no arrays, values where they are an enumeration, and a format or a
-- reference only where their type has one.
abbrev pub AreItems : Option ItemsSpec → Type 0
AreItems none = Unit
AreItems (some spec) =
    (spec.field_type ≢ array)
    × (spec.field_type ≡ enum → is_some spec.values ≡ true)
    × (is_some spec.format ≡ true → spec.field_type ≡ string)
    × (is_some spec.reference ≡ true → spec.field_type ≡ uuid)
    × IsReference spec.reference

abbrev pub IsInputOnly : FieldSchema → Type 0
IsInputOnly f =
    (f.primary ≡ false)
    × (f.generated ≡ false)
    × (is_some f.reference ≡ false)
    × (f.unique ≡ false)
    × (is_some f.default ≡ false)

abbrev pub IsSoundField : FieldSchema → Type 0
IsSoundField f =
    ((f.field_type ≡ enum → is_some f.values ≡ true)
      × (is_some f.values ≡ true → f.field_type ≡ enum)
      × (is_some f.reference ≡ true → f.field_type ≡ uuid)
      × IsReference f.reference
      × (f.field_type ≡ array → is_some f.items ≡ true))
    × AreItems f.items
    × (is_some f.format ≡ true → f.field_type ≡ string)
    × (f.primary ≡ true → (f.generated ≡ true) ⊎ (f.required ≡ true))
    × (f.transient ≡ true → IsInputOnly f)

module _ (res name : String) where
  reference_errors-IsReference :
      (what : String) (r : Option String)
      → when_some (reference_errors res name what) r ≡ []
      → IsReference r
  reference_errors-IsReference what none e = tt
  reference_errors-IsReference what (some r) e =
      ground (arith, report-nil (not (contains_char b'.' r)) _ e)

  items_errors-AreItems :
      (o : Option ItemsSpec) → when_some (items_errors res name) o ≡ [] → AreItems o
  unfolding items_errors
  items_errors-AreItems none e = tt
  items_errors-AreItems (some spec) e =
      let (a, e1) = split _ _ e in
      let (b, e2) = split _ _ e1 in
      let (c, e3) = split _ _ e2 in
      let (d, r) = split _ _ e3 in
      let no_array = report-nil (is_type spec.field_type array) _ a in
      let values = report-nil (is_type spec.field_type enum && is_none spec.values) _ b in
      let format = report-nil (is_some spec.format && not (is_type spec.field_type string)) _ c in
      let reference =
        report-nil (is_some spec.reference && not (is_type spec.field_type uuid)) _ d in
      (
        λ h. ground (arith, is_type_iff spec.field_type array),
        λ h. ground (arith, is_type_iff spec.field_type enum),
        λ h. ground (arith, is_type_iff spec.field_type string),
        λ h. ground (arith, is_type_iff spec.field_type uuid),
        reference_errors-IsReference " items.ref" spec.reference r,
      )

  transient_errors-IsInputOnly :
      (f : FieldSchema) → transient_errors res name f ≡ [] → IsInputOnly f
  unfolding transient_errors
  transient_errors-IsInputOnly f e =
      let (a, e1) = split _ _ e in
      let (b, e2) = split _ _ e1 in
      let (c, e3) = split _ _ e2 in
      let (d, g) = split _ _ e3 in
      (
        report-nil f.primary _ a,
        report-nil f.generated _ b,
        report-nil (is_some f.reference) _ c,
        report-nil f.unique _ d,
        report-nil (is_some f.default) _ g,
      )

  type_errors_lem :
      (f : FieldSchema)
      → type_errors res name f ≡ []
      → (f.field_type ≡ enum → is_some f.values ≡ true)
        × (is_some f.values ≡ true → f.field_type ≡ enum)
        × (is_some f.reference ≡ true → f.field_type ≡ uuid)
        × IsReference f.reference
        × (f.field_type ≡ array → is_some f.items ≡ true)
  unfolding type_errors
  type_errors_lem f e =
      let (a, e1) = split _ _ e in
      let (b, e2) = split _ _ e1 in
      let (c, e3) = split _ _ e2 in
      let (d, g) = split _ _ e3 in
      let values = report-nil (is_type f.field_type enum && is_none f.values) _ a in
      let no_values = report-nil (not (is_type f.field_type enum) && is_some f.values) _ b in
      let reference = report-nil (is_some f.reference && not (is_type f.field_type uuid)) _ c in
      let items = report-nil (is_type f.field_type array && is_none f.items) _ g in
      (
        λ h. ground (arith, is_type_iff f.field_type enum),
        λ h. ground (arith, is_type_iff f.field_type enum),
        λ h. ground (arith, is_type_iff f.field_type uuid),
        reference_errors-IsReference " ref" f.reference d,
        λ h. ground (arith, is_type_iff f.field_type array),
      )

  when_on : {A : Type 0} {b : Bool} {xs : List A} → (if b then xs else []) ≡ [] → b ≡ true → xs ≡ []
  when_on {b = true} e h = e
  when_on {b = false} e h = cc

  pub field_errors-IsSoundField : (f : FieldSchema) → field_errors res name f ≡ [] → IsSoundField f
  unfolding field_errors
  field_errors-IsSoundField f e =
      let (a, e1) = split _ _ e in
      let (b, e2) = split _ _ e1 in
      let (c, e3) = split _ _ e2 in
      let (d, g) = split _ _ e3 in
      let format = report-nil (is_some f.format && not (is_type f.field_type string)) _ c in
      let key = report-nil (f.primary && (not f.generated && not f.required)) _ d in
      (
        type_errors_lem f a,
        items_errors-AreItems f.items b,
        λ h. ground (arith, is_type_iff f.field_type string),
        λ h. ground arith,
        λ h. transient_errors-IsInputOnly f (when_on g h),
      )
