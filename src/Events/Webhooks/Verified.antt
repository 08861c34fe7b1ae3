-- ===== src/Events/Webhooks/Verified.antt =====
-- Which webhooks are taken.
use Prim.Native.String as Str
use text.Mathlib.TextLemmas.{append-nil, cons-append, nil-append}
use shaperail.Prelude.{
  none_not_some, String, List, [], ◌∷◌, Option, none, some, Bool, true, false, strip_prefix,
  split_on, format, All, inl, inr, ◌⊎◌, ◌↔◌, ◌≡◌, refl, ap, sym, subst, ◌∙◌, arith, ℕ,
  some_injective,
}
use shaperail.Core.Json.{Json}
use shaperail.Core.Error.{Result, ok, err, unauthorized}
use shaperail.Events.Webhooks.{
  Libraries, Headers, first_after, judged, by_hex, by_sha256, try_stripe, try_sha256,
  signed_payload, verify_hmac_signature, verify_signature, build_delivery_request, sign,
  signature_header_of,
}
use shaperail.Events.Webhooks.Constant.{IsByte, constant_time_eq_iff}

no_text : {x : String} → Path (Option (Option String)) (some none) (some (some x)) → ⊥
no_text e = cc

strip_prefix-append : (p s : String) → strip_prefix p (Str.◌++◌ p s) ≡ some s
unfolding strip_prefix
strip_prefix-append Str.[] s = rw (nil-append s) refl
strip_prefix-append (Str.◌∷◌ c p) s =
    rw (cons-append c p s) (ground (arith, strip_prefix-append p s))

abbrev IsVerdict : Result (Unit {0}) → Type 0
IsVerdict r = (r ≡ ok tt) ⊎ (r ≡ err unauthorized)

judged-IsVerdict : (b : Bool) → IsVerdict (judged b)
judged-IsVerdict true = inl refl
judged-IsVerdict false = inr refl

module _ (lib : Libraries) (bytes : (s : String) → All IsByte (lib.as_bytes s)) where
  -- The digest and what it is of, as the first signature header that is there presents them.
  abbrev pub Presents : Headers → List ℕ → List String → List ℕ → String → Type 0
  Presents headers body [] signed hex =
      (text : String) × (headers "Stripe-Signature" ≡ some (some text))
      × (first_after "v1=" (split_on b',' text) ≡ some hex)
      × (signed ≡ signed_payload lib body text)
  Presents headers body (name ∷ names) signed hex =
      ((headers name ≡ none) × Presents headers body names signed hex)
      ⊎ ((text : String) × (headers name ≡ some (some text))
          × (strip_prefix "sha256=" text ≡ some hex)
          × (signed ≡ body))

  abbrev pub IsDigestOf : String → List ℕ → String → Type 0
  IsDigestOf secret signed hex =
      lib.as_bytes (lib.hmac signed (lib.as_bytes secret)) ≡ lib.as_bytes hex

  abbrev pub IsSignedBy : Headers → List ℕ → String → List String → Type 0
  IsSignedBy headers body secret names =
      (signed : List ℕ) × ((hex : String) × Presents headers body names signed hex
        × IsDigestOf secret signed hex)

  by_hex_iff :
      (signed : List ℕ) (secret : String) (o : Option String)
      → (by_hex lib signed secret o ≡ ok tt)
        ↔ ((hex : String) × (o ≡ some hex) × IsDigestOf secret signed hex)
  unfolding verify_hmac_signature
  by_hex_iff signed secret none = (λ e. cc, λ (hex, o, d). cc)
  by_hex_iff signed secret (some hex) =
      let same =
        constant_time_eq_iff (lib.as_bytes (lib.hmac signed (lib.as_bytes secret)))
          (lib.as_bytes hex) (bytes (lib.hmac signed (lib.as_bytes secret))) (bytes hex) in
      (
        λ e. (hex, refl, same.0 (judged_true _ e)),
        λ (other, o, d). ap judged (same.1 (d ∙ ap lib.as_bytes (sym (some_injective o)))),
      )
    where
      judged_true : (b : Bool) → judged b ≡ ok tt → b ≡ true
      judged_true true e = refl
      judged_true false e = cc

  try_stripe_iff :
      (headers : Headers) (body : List ℕ) (secret : String) (h : Option (Option String))
      → headers "Stripe-Signature" ≡ h
      → (try_stripe lib body secret h ≡ ok tt) ↔ IsSignedBy headers body secret []
  try_stripe_iff headers body secret none e =
      (λ q. cc, λ (signed, (hex, (text, found, v, s), d)). absurd (none_not_some (sym e ∙ found)))
  try_stripe_iff headers body secret (some none) e =
      (λ q. cc, λ (signed, (hex, (text, found, v, s), d)). absurd (no_text (sym e ∙ found)))
  try_stripe_iff headers body secret (some (some text)) e =
      let rule =
        by_hex_iff (signed_payload lib body text) secret (first_after "v1=" (split_on b',' text)) in
      (
        λ q.
            let (hex, v, d) = rule.0 q in
            (signed_payload lib body text, (hex, (text, e, v, refl), d)),
        λ (signed, (hex, (other, found, v, s), d)).
            subst
              (λ t.
                by_hex lib (signed_payload lib body t) secret (first_after "v1=" (split_on b',' t))
                ≡ ok tt)
              (some_injective (some_injective (sym found ∙ e)))
              ((by_hex_iff (signed_payload lib body other) secret
                  (first_after "v1=" (split_on b',' other))).1
                (hex, v, subst (λ z. IsDigestOf secret z hex) s d)),
      )

  by_sha256_iff :
      (body : List ℕ) (secret text : String)
      → (by_sha256 lib body secret (some text) ≡ ok tt)
        ↔ ((hex : String) × (strip_prefix "sha256=" text ≡ some hex) × IsDigestOf secret body hex)
  by_sha256_iff body secret text = by_hex_iff body secret (strip_prefix "sha256=" text)

  by_header :
      (headers : Headers) (body : List ℕ) (secret name : String) (names : List String)
      (h : Option (Option String))
      → headers name ≡ h
      → ((try_sha256 lib headers body secret names ≡ ok tt) ↔ IsSignedBy headers body secret names)
      → ((elim h [
        | none ↦ try_sha256 lib headers body secret names
        | some text ↦ by_sha256 lib body secret text
      ])
          ≡ ok tt)
        ↔ IsSignedBy headers body secret (name ∷ names)
  by_header headers body secret name names none e (to, from) = (
    λ q. let (signed, (hex, shown, d)) = to q in (signed, (hex, inl (e, shown), d)),
    λ (signed, (hex, shown, d)). elim shown [
      | inl (absent, later) ↦ from (signed, (hex, later, d))
      | inr (text, found, strip, same) ↦ absurd (none_not_some (sym e ∙ found))
    ],
  )
  by_header headers body secret name names (some none) e rest = (
    λ q. cc,
    λ (signed, (hex, shown, d)). elim shown [
      | inl (absent, later) ↦ absurd (none_not_some (sym absent ∙ e))
      | inr (text, found, strip, same) ↦ absurd (no_text (sym e ∙ found))
    ],
  )
  by_header headers body secret name names (some (some text)) e rest = (
    λ q.
        let (hex, strip, d) = (by_sha256_iff body secret text).0 q in
        (body, (hex, inr (text, e, strip, refl), d)),
    λ (signed, (hex, shown, d)). elim shown [
      | inl (absent, later) ↦ absurd (none_not_some (sym absent ∙ e))
      | inr (other, found, strip, same) ↦
          subst (λ t. by_sha256 lib body secret (some t) ≡ ok tt)
            (some_injective (some_injective (sym found ∙ e)))
            ((by_sha256_iff body secret other).1
              (hex, strip, subst (λ z. IsDigestOf secret z hex) same d))
    ],
  )

  try_sha256_iff :
      (headers : Headers) (body : List ℕ) (secret : String) (names : List String)
      → (try_sha256 lib headers body secret names ≡ ok tt) ↔ IsSignedBy headers body secret names
  try_sha256_iff headers body secret [] =
      try_stripe_iff headers body secret (headers "Stripe-Signature") refl
  try_sha256_iff headers body secret (name ∷ names) =
      by_header headers body secret name names (headers name) refl
        (try_sha256_iff headers body secret names)

  abbrev pub header_names : String → List String
  header_names first = first ∷ "X-Shaperail-Signature" ∷ "X-Hub-Signature-256" ∷ []

  -- A signature is accepted exactly where the first of the headers that is there, of the configured one and
  -- the two of other senders and then Stripe's, has a digest that is the secret's of the body, or for
  -- Stripe of the time stamp and the body.
  pub verify_signature-IsSignedBy_iff :
      (headers : Headers) (body : List ℕ) (secret first : String)
      → (verify_signature lib headers body secret first ≡ ok tt)
        ↔ IsSignedBy headers body secret (header_names first)
  unfolding verify_signature
  verify_signature-IsSignedBy_iff headers body secret first =
      try_sha256_iff headers body secret (header_names first)

  by_hex-IsVerdict :
      (signed : List ℕ) (secret : String) (o : Option String)
      → IsVerdict (by_hex lib signed secret o)
  by_hex-IsVerdict signed secret none = inr refl
  by_hex-IsVerdict signed secret (some hex) =
      judged-IsVerdict (verify_hmac_signature lib signed (lib.as_bytes secret) hex)

  pub verify_signature-IsVerdict :
      (headers : Headers) (body : List ℕ) (secret first : String)
      → IsVerdict (verify_signature lib headers body secret first)
  unfolding verify_signature
  verify_signature-IsVerdict headers body secret first = by_names (header_names first)
    where
      by_text : (h : Option String) → IsVerdict (by_sha256 lib body secret h)
      by_text none = inr refl
      by_text (some text) = by_hex-IsVerdict body secret (strip_prefix "sha256=" text)

      by_last : (h : Option (Option String)) → IsVerdict (try_stripe lib body secret h)
      by_last none = inr refl
      by_last (some none) = inr refl
      by_last (some (some text)) =
          by_hex-IsVerdict (signed_payload lib body text) secret
            (first_after "v1=" (split_on b',' text))

      by_next :
          (h : Option (Option String)) (names : List String)
          → IsVerdict (try_sha256 lib headers body secret names)
          → IsVerdict (elim h [
            | none ↦ try_sha256 lib headers body secret names
            | some text ↦ by_sha256 lib body secret text
          ])
      by_next none names rest = rest
      by_next (some h) names rest = by_text h

      by_names : (names : List String) → IsVerdict (try_sha256 lib headers body secret names)
      by_names [] = by_last (headers "Stripe-Signature")
      by_names (name ∷ names) = by_next (headers name) names (by_names names)

  -- A delivery that is signed with the secret passes at an endpoint that has the same secret and looks for
  -- the header it is sent with.
  pub build_delivery_request-verify_signature :
      (headers : Headers) (secret url : String) (timeout_secs : ℕ) (payload : Json)
      → headers "X-Shaperail-Signature"
        ≡ some (
            some (signature_header_of (build_delivery_request lib secret timeout_secs url payload)))
      → verify_signature lib headers
          (build_delivery_request lib secret timeout_secs url payload).body
          secret
          "X-Shaperail-Signature"
        ≡ ok tt
  unfolding build_delivery_request sign
  build_delivery_request-verify_signature headers secret url timeout_secs payload e =
      (verify_signature-IsSignedBy_iff headers (lib.to_vec payload) secret
          "X-Shaperail-Signature").1
        (
          lib.to_vec payload,
          (
            lib.hmac (lib.to_vec payload) (lib.as_bytes secret),
            (inr (_, e, stripped (lib.hmac (lib.to_vec payload) (lib.as_bytes secret)), refl)),
            refl,
          ),
        )
    where
      stripped : (s : String) → strip_prefix "sha256=" (format ("sha256=" ∷ s ∷ [])) ≡ some s
      stripped s = rw (append-nil s) (strip_prefix-append "sha256=" s)
