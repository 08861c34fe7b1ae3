-- ===== src/Handlers/Validate/Rules/Fields.antt =====
-- The rules of a field and of an element, taken together, decide conformance.
use shaperail.Prelude.{
  ℕ, ◌+◌, String, List, [], ◌∷◌, Option, none, some, true, ◌||◌, All, ◌≡◌, ◌↔◌, ◌⊎◌, refl, arith,
  append-eq-nil_iff, guarded-eq-nil_iff, flatten₆, flatten₇, eq_iff,
}
use shaperail.Core.Json.{Json, null, bool, num, str, arr, obj, elements, Platform}
use shaperail.Core.Schema.{FieldType, is_type, is_type_iff, ItemsSpec, FieldSchema}
use shaperail.Handlers.Validate.Rules.{
  format_is, check_item_rules, item_errors, array_errors, check_field_rules,
}
use shaperail.Handlers.Validate.Rules.Conforms.{
  ItemConforms, ItemsConform, FieldConforms, enum_errors-Among, length_errors-LengthWithin,
  email_errors-IsEmail, url_errors-IsUrl, range_errors-RangeWithin, uuid_errors-IsUuid,
}

one_of_iff : (t a b : FieldType) → ((is_type t a || is_type t b) ≡ true) ↔ ((t ≡ a) ⊎ (t ≡ b))
one_of_iff t a b = ground (arith, is_type_iff t a, is_type_iff t b)

format_is_iff : (o : Option String) (s : String) → (format_is o s ≡ true) ↔ (o ≡ some s)
format_is_iff none s = ground arith
format_is_iff (some f) s = ground (arith, eq_iff f s)

module _ (p : Platform) where
  check_item_rules-ItemConforms :
      (name : String) (idx : ℕ) (spec : ItemsSpec) (v : Json)
      → (check_item_rules p name idx spec v ≡ []) ↔ ItemConforms p spec v
  unfolding check_item_rules
  check_item_rules-ItemConforms name idx spec v = flatten₆ (
      append-eq-nil_iff (guarded-eq-nil_iff (one_of_iff _ _ _) (length_errors-LengthWithin _ _ _ _))
        (append-eq-nil_iff
          (guarded-eq-nil_iff (one_of_iff _ _ _) (range_errors-RangeWithin p _ _ _ _))
          (append-eq-nil_iff (guarded-eq-nil_iff (is_type_iff _ _) (enum_errors-Among _ _ _)) (
            append-eq-nil_iff (guarded-eq-nil_iff (is_type_iff _ _) (uuid_errors-IsUuid p _ _)) (
              append-eq-nil_iff (guarded-eq-nil_iff (format_is_iff _ _) (email_errors-IsEmail _ _))
                (guarded-eq-nil_iff (format_is_iff _ _) (url_errors-IsUrl _ _)))))))

  item_errors-All :
      (name : String) (idx : ℕ) (spec : ItemsSpec) (vs : List Json)
      → (item_errors p name idx spec vs ≡ []) ↔ All (ItemConforms p spec) vs
  unfolding item_errors
  item_errors-All name idx spec [] = (λ _. tt, λ _. refl)
  item_errors-All name idx spec (v ∷ vs) =
      append-eq-nil_iff (check_item_rules-ItemConforms name idx spec v)
        (item_errors-All name (idx + 1) spec vs)

  array_errors-ItemsConform :
      (name : String) (o : Option ItemsSpec) (v : Json)
      → (array_errors p name o v ≡ []) ↔ ItemsConform p o v
  unfolding array_errors
  array_errors-ItemsConform name none v = (λ _. tt, λ _. refl)
  array_errors-ItemsConform name (some spec) (arr vs) = item_errors-All name 0 spec (elements vs)
  array_errors-ItemsConform name (some spec) null = (λ e. cc, λ f. absurd f)
  array_errors-ItemsConform name (some spec) (bool b) = (λ e. cc, λ f. absurd f)
  array_errors-ItemsConform name (some spec) (num n) = (λ e. cc, λ f. absurd f)
  array_errors-ItemsConform name (some spec) (str s) = (λ e. cc, λ f. absurd f)
  array_errors-ItemsConform name (some spec) (obj ms) = (λ e. cc, λ f. absurd f)

  pub check_field_rules-FieldConforms :
      (name : String) (f : FieldSchema) (v : Json)
      → (check_field_rules p name f v ≡ []) ↔ FieldConforms p f v
  unfolding check_field_rules
  check_field_rules-FieldConforms name f v = flatten₇ (
      append-eq-nil_iff (guarded-eq-nil_iff (is_type_iff _ _) (enum_errors-Among _ _ _)) (
        append-eq-nil_iff
          (guarded-eq-nil_iff (one_of_iff _ _ _) (length_errors-LengthWithin _ _ _ _))
          (append-eq-nil_iff
            (guarded-eq-nil_iff (one_of_iff _ _ _) (range_errors-RangeWithin p _ _ _ _))
            (append-eq-nil_iff (guarded-eq-nil_iff (format_is_iff _ _) (email_errors-IsEmail _ _)) (
              append-eq-nil_iff (guarded-eq-nil_iff (format_is_iff _ _) (url_errors-IsUrl _ _)) (
                append-eq-nil_iff (guarded-eq-nil_iff (is_type_iff _ _) (uuid_errors-IsUuid p _ _))
                  (guarded-eq-nil_iff (is_type_iff _ _) (array_errors-ItemsConform name _ _))))))))
