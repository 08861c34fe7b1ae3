-- ===== src/Handlers/Params/Accepted.antt =====
-- Which filter parameters a list accepts, and what it makes of them.
use shaperail.Prelude.{
  ℕ, ◌≤◌, String, List, [], ◌∷◌, ◌++◌, Option, none, some, In, All, contains, contains→In,
  In→contains, and_then, unwrap_or, keys, lookup, leb, append-eq-nil_iff, Bool-cases, inl, inr, ◌≡◌,
  ◌↔◌, refl, ap, subst, sym, ◌∙◌, arith,
}
use shaperail.Prelude.Int.{ℤ, pos, negsuc, parse_i64, max_ℤ}
use shaperail.Core.Error.{FieldError, ok, finalize}
use shaperail.Core.Endpoint.{EndpointSpec, PaginationStyle, cursor, offset}
use shaperail.Db.Filter.{FilterParam, FilterSet, bracketed, filter_of, from_query_params}
use shaperail.Db.Pagination.{PageRequest, cursor_page, offset_page, clamped_limit}
use shaperail.Handlers.Params.{
  QueryMap, bracket_errors, key_errors, form_errors, validate_filter_param_form, parse_page,
  parse_list_params,
}

-- A key is no bare filter name, and in brackets only an allowed one.
abbrev pub IsAccepted : List String → String → Type 0
IsAccepted allowed key =
    (¬ In key allowed) × ((field : String) → bracketed key ≡ some field → In field allowed)

bracket_errors_iff :
    (allowed : List String) (o : Option String)
    → (bracket_errors allowed o ≡ []) ↔ ((field : String) → o ≡ some field → In field allowed)
unfolding bracket_errors
bracket_errors_iff allowed none = ((λ e field h. cc), (λ h. refl))
bracket_errors_iff allowed (some k) = elim (Bool-cases (contains allowed k)) [
  | inl b ↦
      rw b
        ((λ e field h. subst (λ x. In x allowed) (same h) (contains→In allowed k b)), (λ h. refl))
  | inr b ↦ rw b ((λ e. cc), (λ h. absurd (ground (arith, In→contains allowed k (h k refl)))))
]
  where
    same : {a b : String} → some a ≡ some b → a ≡ b
    same e = ground arith

key_errors_iff :
    (allowed : List String) (key : String) → (key_errors allowed key ≡ []) ↔ IsAccepted allowed key
unfolding key_errors
key_errors_iff allowed key = elim (Bool-cases (contains allowed key)) [
  | inl b ↦ rw b ((λ e. cc), (λ h. absurd (h.0 (contains→In allowed key b))))
  | inr b ↦
      let h = bracket_errors_iff allowed (bracketed key) in
      rw b ((λ e. ((λ i. ground (arith, In→contains allowed key i)), h.0 e)), (λ k. h.1 k.1))
]

form_errors_iff :
    (allowed ks : List String) → (form_errors allowed ks ≡ []) ↔ All (IsAccepted allowed) ks
unfolding form_errors
form_errors_iff allowed [] = ((λ e. tt), (λ h. refl))
form_errors_iff allowed (k ∷ ks) =
    append-eq-nil_iff (key_errors_iff allowed k) (form_errors_iff allowed ks)

accepted_iff : (es : List FieldError) → (finalize es ≡ ok tt) ↔ (es ≡ [])
accepted_iff [] = (λ _. refl, λ _. refl)
accepted_iff (e ∷ es) = (λ h. cc, λ h. cc)

-- A list request passes the check of its filter parameters exactly when none of its keys is the bare
-- name of a filter of the endpoint, and each key in brackets is one.
pub validate_filter_param_form-IsAccepted :
    (params : QueryMap) (endpoint : EndpointSpec)
    → (validate_filter_param_form params endpoint ≡ ok tt)
      ↔ All (IsAccepted (unwrap_or endpoint.filters [])) (keys params)
unfolding validate_filter_param_form
validate_filter_param_form-IsAccepted params endpoint =
    let f = accepted_iff (form_errors (unwrap_or endpoint.filters []) (keys params)) in
    let s = form_errors_iff (unwrap_or endpoint.filters []) (keys params) in
    (λ e. s.0 (f.0 e), λ h. f.1 (s.1 h))

In-append_left : (f : FilterParam) (xs ys : FilterSet) → In f xs → In f (xs ++ ys)
In-append_left f [] ys i = absurd i
In-append_left f (x ∷ xs) ys (inl e) = inl e
In-append_left f (x ∷ xs) ys (inr i) = inr (In-append_left f xs ys i)

In-append_right : (f : FilterParam) (xs ys : FilterSet) → In f ys → In f (xs ++ ys)
In-append_right f [] ys i = i
In-append_right f (x ∷ xs) ys i = inr (In-append_right f xs ys i)

used :
    (allowed : List String) (value : String) (o : Option String) (field : String)
    → o ≡ some field
    → In field allowed
    → In (record { field = field; value = value }) (filter_of allowed value o)
used allowed value o field e i = rw (e, In→contains allowed field i) (inl refl)

every_key :
    (allowed : List String) (params : QueryMap) (key value field : String)
    → All (IsAccepted allowed) (keys params)
    → In (key, value) params
    → bracketed key ≡ some field
    → In (record { field = field; value = value }) (from_query_params params allowed)
unfolding from_query_params
every_key allowed [] key value field h i e = absurd i
every_key allowed ((k, v) ∷ params) key value field (a, h) (inl same) e =
    let k_is = ap (λ x. x.0) same in
    let v_is = ap (λ x. x.1) same in
    In-append_left _ (filter_of allowed v (bracketed k)) (from_query_params params allowed) (
      subst (λ x. In (record { field = field; value = x }) (filter_of allowed v (bracketed k)))
        (sym v_is)
        (used allowed v (bracketed k) field (ap bracketed (sym k_is) ∙ e)
          (a.1 field (ap bracketed (sym k_is) ∙ e))))
every_key allowed ((k, v) ∷ params) key value field (a, h) (inr i) e =
    In-append_right _ (filter_of allowed v (bracketed k)) _
      (every_key allowed params key value field h i e)

-- Of a list request that passes the check no filter is dropped: each parameter that is a name in
-- brackets is, with its value, one of the filters of the list.
pub parse_list_params-filters :
    (params : QueryMap) (endpoint : EndpointSpec) (key value field : String)
    → validate_filter_param_form params endpoint ≡ ok tt
    → In (key, value) params
    → bracketed key ≡ some field
    → In (record { field = field; value = value }) (parse_list_params params endpoint).filters
unfolding parse_list_params
parse_list_params-filters params endpoint key value field h i e =
    every_key (unwrap_or endpoint.filters []) params key value field
      ((validate_filter_param_form-IsAccepted params endpoint).0 h) i e

abbrev pub IsLimit : ℤ → Type 0
IsLimit l = (n : ℕ) × (l ≡ pos n) × (1 ≤ n) × (n ≤ 100)

-- A page of 1 to 100 rows, that starts at no negative offset.
abbrev pub IsBounded : PageRequest → Type 0
IsBounded (cursor_page after limit) = IsLimit limit
IsBounded (offset_page skipped limit) = IsLimit limit × ((k : ℕ) × (skipped ≡ pos k))

clamped_limit-IsLimit : (l : Option ℤ) → IsLimit (clamped_limit l)
unfolding clamped_limit
clamped_limit-IsLimit none = (25, refl, omega arith, omega arith)
clamped_limit-IsLimit (some (negsuc n)) = (1, refl, omega arith, omega arith)
clamped_limit-IsLimit (some (pos n)) = elim (Bool-cases (leb 1 n)) [
  | inl b ↦ elim (Bool-cases (leb n 100)) [
    | inl c ↦ (n, rw (b, c) refl, ground arith, ground arith)
    | inr c ↦ (100, rw (b, c) refl, omega arith, omega arith)
  ]
  | inr b ↦ (1, rw b refl, omega arith, omega arith)
]

skipped_lem : (o : ℤ) → (k : ℕ) × (max_ℤ o (pos 0) ≡ pos k)
skipped_lem (negsuc n) = (0, refl)
skipped_lem (pos n) = elim (Bool-cases (leb n 0)) [
  | inl b ↦ (0, rw b refl)
  | inr b ↦ (n, rw b refl)
]

page-IsBounded : (params : QueryMap) (style : PaginationStyle) → IsBounded (parse_page params style)
unfolding parse_page
page-IsBounded params cursor = clamped_limit-IsLimit _
page-IsBounded params offset = (
  clamped_limit-IsLimit _,
  skipped_lem (unwrap_or (and_then (lookup "offset" params) parse_i64) (pos 0)),
)

-- Whatever `limit`, `offset` and `after` a client sends, the page that a list asks for has 1 to 100
-- rows and no negative offset.
pub parse_list_params-IsBounded :
    (params : QueryMap) (endpoint : EndpointSpec)
    → IsBounded (parse_list_params params endpoint).page
unfolding parse_list_params
parse_list_params-IsBounded params endpoint =
    page-IsBounded params (unwrap_or endpoint.pagination cursor)
