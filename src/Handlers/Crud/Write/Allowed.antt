-- ===== src/Handlers/Crud/Write/Allowed.antt =====
-- What `extract_input` takes of a request's body.
use shaperail.Prelude.{
  String, List, [], ◌∷◌, Option, none, some, some_injective, Bool, true, false, not, ◌&&◌, ◌==◌,
  ◌⊎◌, ◌↔◌, ◌≡◌, keys, lookup, In, contains, keep, unwrap_or, if◌then◌else◌, contains→In,
  In→contains, Bool-cases, Option-cases, eq_iff, eq_refl, refl, sym, ap, subst, ◌∙◌, inl, inr,
  arith,
}
use shaperail.Core.Json.{Json, Map, as_object}
use shaperail.Core.Error.{ok}
use shaperail.Core.Schema.{FieldSchema}
use shaperail.Core.Endpoint.{EndpointSpec}
use shaperail.Core.Resource.{ResourceDefinition}
use shaperail.Handlers.Crud.Base.{allowed_input, extract_input}
use shaperail.Handlers.Crud.Steps.{ok-injective}

-- A field that is neither generated nor the primary key.
abbrev pub IsOpen : String → List (String × FieldSchema) → Type 0
IsOpen key [] = ⊥
IsOpen key ((name, f) ∷ schema) =
    ((name ≡ key) × (f.generated ≡ false) × (f.primary ≡ false)) ⊎ IsOpen key schema

-- A key that a client may set: one that the endpoint declares as input, and where it declares none, a
-- field of the resource that is neither generated nor the primary key.
abbrev pub IsAllowed : ResourceDefinition → EndpointSpec → String → Type 0
IsAllowed resource endpoint key =
    ((names : List String) × (endpoint.input ≡ some names) × In key names)
    ⊎ ((endpoint.input ≡ none) × IsOpen key resource.schema)

-- What is taken of a body that is an object: the allowed keys with their values, and no other key.
abbrev pub Takes : ResourceDefinition → EndpointSpec → (body : Json) → Map → Type 0
Takes resource endpoint body extracted =
    (m : Map) × (as_object body ≡ some m)
    × ((key : String)
        → (IsAllowed resource endpoint key × (lookup key extracted ≡ lookup key m))
          ⊎ ((IsAllowed resource endpoint key → ⊥) × (lookup key extracted ≡ none)))

settable-IsOpen :
    (key : String) (schema : List (String × FieldSchema))
    → (contains (keys (keep (λ nf. not nf.1.generated && not nf.1.primary) schema)) key ≡ true)
      ↔ IsOpen key schema
settable-IsOpen key [] = ground arith
settable-IsOpen key ((name, f) ∷ schema) =
    ground (arith, settable-IsOpen key schema, eq_iff name key, eq_iff key name)

allowed_input-IsAllowed :
    (resource : ResourceDefinition) (endpoint : EndpointSpec) (key : String)
    → (contains (allowed_input resource endpoint) key ≡ true) ↔ IsAllowed resource endpoint key
allowed_input-IsAllowed resource endpoint key = by_input endpoint.input refl
  where
    settable : List String
    settable = keys (keep (λ nf. not nf.1.generated && not nf.1.primary) resource.schema)

    by_input :
        (o : Option (List String))
        → endpoint.input ≡ o
        → (contains (unwrap_or o settable) key ≡ true) ↔ IsAllowed resource endpoint key
    by_input none e = (
      λ h. inr (e, (settable-IsOpen key resource.schema).0 h),
      λ d. elim d [
        | inl (names, q, i) ↦ cc
        | inr (q, i) ↦ (settable-IsOpen key resource.schema).1 i
      ],
    )
    by_input (some names) e = (
      λ h. inl (names, e, contains→In names key h),
      λ d. elim d [
        | inl (listed, q, i) ↦ In→contains names key (subst (In key) (some_injective (sym q ∙ e)) i)
        | inr (q, i) ↦ cc
      ],
    )

lookup-keep :
    (p : String → Bool) (key : String) (m : Map)
    → lookup key (keep (λ e. p e.0) m) ≡ (if p key then lookup key m else none)
lookup-keep p key [] = ground arith
lookup-keep p key ((k, v) ∷ m) = elim (Bool-cases (k == key)) [
  | inl e ↦
      let rest = lookup-keep p key m in rw ((eq_iff k key).0 e) (ground (arith, eq_refl key, rest))
  | inr e ↦ ground (arith, lookup-keep p key m)
]

pub extract_input-Takes :
    (body : Json) (resource : ResourceDefinition) (endpoint : EndpointSpec) {extracted : Map}
    → extract_input body resource endpoint ≡ ok extracted
    → Takes resource endpoint body extracted
unfolding extract_input
extract_input-Takes body resource endpoint {extracted} e = elim (Option-cases (as_object body)) [
  | inl h ↦ ground (arith, h)
  | inr (m, h) ↦ (m, h, λ key. taken m key (ok-injective (sym e ∙ object_input m h)))
]
  where
    object_input :
        (m : Map)
        → as_object body ≡ some m
        → extract_input body resource endpoint
          ≡ ok (keep (λ x. contains (allowed_input resource endpoint) x.0) m)
    object_input m h = rw (h, extract_input) refl

    taken :
        (m : Map) (key : String)
        → extracted ≡ keep (λ x. contains (allowed_input resource endpoint) x.0) m
        → (IsAllowed resource endpoint key × (lookup key extracted ≡ lookup key m))
          ⊎ ((IsAllowed resource endpoint key → ⊥) × (lookup key extracted ≡ none))
    taken m key same =
        let kept =
          ap (lookup key) same ∙ lookup-keep (contains (allowed_input resource endpoint)) key m in
        let (to, back) = allowed_input-IsAllowed resource endpoint key in
        elim (Bool-cases (contains (allowed_input resource endpoint) key)) [
          | inl h ↦ inl (to h, kept ∙ rw h refl)
          | inr h ↦ inr ((λ d. ground (arith, h, back d)), kept ∙ rw h refl)
        ]
