-- ===== src/Ws/Session/Admitted.antt =====
-- Who may open a WebSocket.
use shaperail.Prelude.{
  some_injective, ℕ, String, List, [], ◌∷◌, Option, none, some, true, any, and_then, In, eq_iff,
  Bool-cases, inl, inr, ◌⊎◌, ◌↔◌, ◌≡◌, ◌≢◌, refl, ap, sym, subst, arith,
}
use shaperail.Core.Endpoint.{AuthRule, public, owner, roles}
use shaperail.Auth.Extractor.{Claims}
use shaperail.Ws.Session.{
  unauthorized, ChannelDefinition, Refusal, Admission, admitted, refused, allowed_role, check_role,
  check_claims, check_token, check_rule, validate_ws_auth,
}

admitted_injective : {x y : Option Claims} → admitted x ≡ admitted y → x ≡ y
admitted_injective e = cc

abbrev status_of : Admission → ℕ
status_of (admitted c) = 0
status_of (refused f) = f.status

-- One of the roles is the user's, or is "owner".
abbrev pub HasRole : AuthRule → Claims → Type 0
HasRole (roles rs) claims = In claims.role rs ⊎ In "owner" rs
HasRole rule claims = Unit

abbrev pub IsOpen : Option AuthRule → Type 0
IsOpen rule = (rule ≡ none) ⊎ (rule ≡ some public)

any-allowed_role :
    (rs : List String) (claims : Claims)
    → (any (allowed_role claims.role) rs ≡ true) ↔ HasRole (roles rs) claims
any-allowed_role [] claims = ground arith
any-allowed_role (r ∷ rs) claims =
    ground (arith, any-allowed_role rs claims, eq_iff r claims.role, eq_iff r "owner")

-- A rule that is not public, a token that is read, and a role that the rule has.
abbrev pub Admits : Option AuthRule → Option Claims → Claims → Type 0
Admits rule read claims =
    (r : AuthRule) × (rule ≡ some r) × (r ≢ public) × (read ≡ some claims) × HasRole r claims

abbrev pub Decides : Option AuthRule → Option Claims → Admission → Type 0
Decides rule read a =
    ((a ≡ admitted none) ↔ IsOpen rule)
    × ((claims : Claims) → (a ≡ admitted (some claims)) ↔ Admits rule read claims)
    × ((f : Refusal)
        → a ≡ refused f
        → ((f.status ≡ 401) × (read ≡ none))
          ⊎ ((f.status ≡ 403) × ((claims : Claims) × (read ≡ some claims))))

not_open : (r : AuthRule) → r ≢ public → IsOpen (some r) → ⊥
not_open r h (inl e) = cc
not_open r h (inr e) = h (some_injective e)

admitted-Decides :
    (r : AuthRule) (claims : Claims)
    → r ≢ public
    → HasRole r claims
    → Decides (some r) (some claims) (admitted (some claims))
admitted-Decides r claims h role = (
  (λ e. cc, λ o. absurd (not_open r h o)),
  λ c. (
    λ eq. (
      r,
      refl,
      h,
      admitted_injective eq,
      subst (HasRole r) (some_injective (admitted_injective eq)) role,
    ),
    λ (x, same, other, read, has). ap admitted read,
  ),
  λ f eq. cc,
)

no_role :
    (rs : List String) (claims c : Claims) (x : AuthRule)
    → some (roles rs) ≡ some x
    → some claims ≡ some c
    → HasRole x c
    → any (allowed_role claims.role) rs ≡ true
no_role rs claims c x same read has = (any-allowed_role rs claims).1 (
    subst (HasRole (roles rs)) (sym (some_injective read))
      (subst (λ y. HasRole y c) (sym (some_injective same)) has))

check_role-Decides :
    (r : AuthRule) (claims : Claims)
    → r ≢ public
    → Decides (some r) (some claims) (check_role r claims)
check_role-Decides public claims h = absurd (h refl)
check_role-Decides owner claims h = admitted-Decides owner claims h tt
check_role-Decides (roles rs) claims h = elim (Bool-cases (any (allowed_role claims.role) rs)) [
  | inl q ↦ rw q (admitted-Decides (roles rs) claims h ((any-allowed_role rs claims).0 q))
  | inr q ↦ rw q (
    (λ e. cc, λ o. absurd (not_open (roles rs) h o)),
    λ c. (
      λ eq. cc,
      λ (x, same, other, read, has).
          absurd (ground (arith, q, no_role rs claims c x same read has)),
    ),
    λ f eq. inr (ap (λ a. status_of a) (sym eq), (claims, refl)),
  )
]

unauthorized-Decides :
    (r : AuthRule) (m : String) → r ≢ public → Decides (some r) none (unauthorized m)
unauthorized-Decides r m h = (
  (λ e. cc, λ o. absurd (not_open r h o)),
  λ c. (λ eq. cc, λ (x, same, other, read, role). cc),
  λ f eq. inl (ap status_of (sym eq), refl),
)

check_claims-Decides :
    (r : AuthRule) (read : Option Claims) → r ≢ public → Decides (some r) read (check_claims r read)
check_claims-Decides r none h = unauthorized-Decides r "Invalid or expired token" h
check_claims-Decides r (some claims) h = check_role-Decides r claims h

module _ (decode : String → Option Claims) where
  check_token-Decides :
      (r : AuthRule) (token : Option String)
      → r ≢ public
      → Decides (some r) (and_then token decode) (check_token decode r token)
  check_token-Decides r none h =
      unauthorized-Decides r "WebSocket connection requires authentication" h
  check_token-Decides r (some t) h = check_claims-Decides r (decode t) h

  check_rule-Decides :
      (rule : Option AuthRule) (token : Option String)
      → Decides rule (and_then token decode) (check_rule decode rule token)
  check_rule-Decides none token =
      ((λ e. inl refl, λ o. refl), λ c. (λ eq. cc, λ (r, same, other, read, role). cc), λ f eq. cc)
  check_rule-Decides (some public) token = (
    (λ e. inr refl, λ o. refl),
    λ c. (λ eq. cc, λ (r, same, other, read, role). absurd (other (sym (some_injective same)))),
    λ f eq. cc,
  )
  check_rule-Decides (some owner) token = check_token-Decides owner token (λ e. cc)
  check_rule-Decides (some (roles rs)) token = check_token-Decides (roles rs) token (λ e. cc)

  -- A channel without a rule, or with the public one, admits anyone without claims. Else it admits
  -- exactly a caller whose token is read, with the token's claims, where the rule is no list of roles, or
  -- the list has the caller's role or "owner"; and what it refuses, it refuses with 401 where no token is
  -- read, and with 403 where one is. The type of the token does not count.
  pub validate_ws_auth-Decides :
      (definition : ChannelDefinition) (token : Option String)
      → Decides definition.auth (and_then token decode) (validate_ws_auth decode definition token)
  unfolding validate_ws_auth
  validate_ws_auth-Decides definition token = check_rule-Decides definition.auth token
