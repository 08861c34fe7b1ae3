-- ===== src/Auth/Subject/Isolation.antt =====
-- The tenant checks of a subject against the tenants that it may see.
use shaperail.Prelude.{
  String, List, [], ◌∷◌, ◌++◌, Option, none, some, ◌≡◌, ◌≢◌, ◌↔◌, ◌⊎◌, refl, eq_iff, arith, inl,
  inr, Bool-cases,
}
use shaperail.Core.Error.{ok, err, unauthorized, forbidden}
use shaperail.Auth.Subject.{
  Subject, Piece, push, push_bind, is_super_admin, claimed, tenant_filter, assert_tenant_match,
  scope_to_tenant,
}

-- The subject may see the records of tenant `t`.
abbrev pub Sees : Subject → String → Type 0
Sees s t = (s.role ≡ "super_admin") ⊎ ((s.tenant_id ≡ some t) × (t ≢ ""))

claimed_iff :
    (o : Option String) (t : String) → (claimed o ≡ ok (some t)) ↔ ((o ≡ some t) × (t ≢ ""))
unfolding claimed
claimed_iff none t = ground arith
claimed_iff (some u) t = ground (arith, eq_iff u "", eq_iff t "")

claimed-ne-none : (o : Option String) → claimed o ≢ ok none
unfolding claimed
claimed-ne-none none = ground arith
claimed-ne-none (some u) = ground arith

-- `assert_tenant_match` accepts exactly the tenants that the subject sees. Of the other subjects, one
-- with no tenant claim or an empty one is unauthorized, and one of another tenant is forbidden.
pub assert_tenant_match-Sees :
    (s : Subject) (t : String)
    → ((assert_tenant_match s t ≡ ok tt) ↔ Sees s t)
      × ((s.role ≢ "super_admin")
          → (s.tenant_id ≡ none) ⊎ (s.tenant_id ≡ some "")
          → assert_tenant_match s t ≡ err unauthorized)
      × ((u : String)
          → (s.role ≢ "super_admin")
          → s.tenant_id ≡ some u
          → u ≢ ""
          → u ≢ t
          → assert_tenant_match s t ≡ err forbidden)
unfolding assert_tenant_match tenant_filter
assert_tenant_match-Sees s t = (
  (λ e. accepted s.tenant_id refl e, λ h. seen s.tenant_id refl h),
  λ r h. refused s.tenant_id refl r h,
  λ u r h n m. ground (arith, eq_iff s.role "super_admin", eq_iff u "", eq_iff u t),
)
  where
    accepted : (o : Option String) → s.tenant_id ≡ o → assert_tenant_match s t ≡ ok tt → Sees s t
    accepted none h e = ground (arith, eq_iff s.role "super_admin")
    accepted (some u) h e = ground (arith, eq_iff s.role "super_admin", eq_iff u "", eq_iff u t)

    seen : (o : Option String) → s.tenant_id ≡ o → Sees s t → assert_tenant_match s t ≡ ok tt
    seen none h e = ground (arith, eq_iff s.role "super_admin")
    seen (some u) h e = ground (arith, eq_iff s.role "super_admin", eq_iff u "", eq_iff u t)

    refused :
        (o : Option String)
        → s.tenant_id ≡ o
        → s.role ≢ "super_admin"
        → (s.tenant_id ≡ none) ⊎ (s.tenant_id ≡ some "")
        → assert_tenant_match s t ≡ err unauthorized
    refused none h r e = ground (arith, eq_iff s.role "super_admin")
    refused (some u) h r e = ground (arith, eq_iff s.role "super_admin", eq_iff u "")

-- `scope_to_tenant` either fails, or leaves the query as it is for a super admin, or appends exactly
-- the test of the column against the one non-empty tenant of the subject's claim.
pub scope_to_tenant_lem :
    (s : Subject) (builder : List Piece) (column : String) (q : List Piece)
    → scope_to_tenant s builder column ≡ ok q
    → ((s.role ≡ "super_admin") × (q ≡ builder))
      ⊎ ((t : String) × (s.tenant_id ≡ some t)
          × (t ≢ "")
          × (q ≡ builder ++ (push " AND " ∷ push column ∷ push " = " ∷ push_bind t ∷ [])))
unfolding scope_to_tenant tenant_filter
scope_to_tenant_lem s builder column q e = by_claim s.tenant_id refl
  where
    by_claim :
        (o : Option String)
        → s.tenant_id ≡ o
        → ((s.role ≡ "super_admin") × (q ≡ builder))
          ⊎ ((t : String) × (s.tenant_id ≡ some t)
              × (t ≢ "")
              × (q ≡ builder ++ (push " AND " ∷ push column ∷ push " = " ∷ push_bind t ∷ [])))
    by_claim none h = ground (arith, eq_iff s.role "super_admin")
    by_claim (some u) h = elim (Bool-cases (is_super_admin s)) [
      | inl b ↦ inl (ground (arith, eq_iff s.role "super_admin"), ground arith)
      | inr b ↦ inr (u, h, ground (arith, eq_iff u ""), ground (arith, eq_iff u ""))
    ]
