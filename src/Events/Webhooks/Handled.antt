-- ===== src/Events/Webhooks/Handled.antt =====
-- inbound.rs: what the endpoint does with a webhook.
use shaperail.Prelude.{
  String, List, [], ◌∷◌, true, any, ◌||◌, is_empty, format, eq_iff, All, In, ◌==◌, Bool-cases, inl,
  inr, ◌⊎◌, ◌↔◌, ◌≡◌, refl, sym, ◌∙◌, arith, ℕ,
}
use shaperail.Core.Json.{Json}
use shaperail.Core.Error.{Result, ok, err, unauthorized}
use shaperail.Jobs.{World}
use shaperail.Events.{EventSubscriber, emit}
use shaperail.Events.Webhooks.{
  Libraries, Headers, Parsed, parse_error, value, InboundWebhookState, verify_signature, parsed,
  event_type_of, is_accepted, acceptance, refusal, handle_inbound_webhook,
}
use shaperail.Events.Webhooks.Constant.{IsByte}
use shaperail.Events.Webhooks.Verified.{
  IsSignedBy, header_names, verify_signature-IsSignedBy_iff, verify_signature-IsVerdict,
}

ok_not_err : Path (Result (Unit {0})) (ok tt) (err unauthorized) → ⊥
ok_not_err e = cc

Parsed-cases : (p : Parsed) → ((e : String) × (p ≡ parse_error e)) ⊎ ((v : Json) × (p ≡ value v))
Parsed-cases (parse_error e) = inl (e, refl)
Parsed-cases (value v) = inr (v, refl)

is_accepted_iff :
    (state : InboundWebhookState) (event : String)
    → (is_accepted state event ≡ true)
      ↔ ((state.accepted_events ≡ []) ⊎ In event state.accepted_events)
is_accepted_iff state event = at state.accepted_events
  where
    any_iff : (es : List String) → (any (λ e. e == event) es ≡ true) ↔ In event es
    any_iff [] = ground arith
    any_iff (e ∷ es) = ground (arith, eq_iff e event, any_iff es)

    at :
        (es : List String)
        → (is_empty es || any (λ e. e == event) es ≡ true) ↔ ((es ≡ []) ⊎ In event es)
    at [] = (λ e. inl refl, λ h. refl)
    at (e ∷ es) = (
      λ h. inr ((any_iff (e ∷ es)).0 h),
      λ h. elim h [ inl q ↦ cc | inr i ↦ (any_iff (e ∷ es)).1 i ],
    )

module _ (lib : Libraries) (bytes : (s : String) → All IsByte (lib.as_bytes s)) where
  module _ (fresh : World → String) (subscribers : List EventSubscriber)
      (state : InboundWebhookState) where
    abbrev pub IsAccepted : String → Type 0
    IsAccepted event = (state.accepted_events ≡ []) ⊎ In event state.accepted_events

    -- What a webhook that verifies and parses does, by its type.
    abbrev pub Taken : Json → World → Result Json × World → Type 0
    Taken payload w r =
        ((IsAccepted (event_type_of payload) → ⊥) × (r ≡ (ok refusal, w)))
        ⊎ (IsAccepted (event_type_of payload)
            × (r ≡ (
              ok acceptance,
              (emit fresh subscribers (format ("inbound." ∷ event_type_of payload ∷ [])) "webhook"
                  (event_type_of payload) payload w).1,
            )))

    -- The answer and the state of the queue after a webhook.
    abbrev pub Handles : Headers → List ℕ → World → Result Json × World → Type 0
    Handles headers body w r =
        ((IsSignedBy lib bytes headers body state.secret
              (header_names lib bytes state.signature_header)
            → ⊥)
          × (r ≡ (err unauthorized, w)))
        ⊎ (IsSignedBy lib bytes headers body state.secret
              (header_names lib bytes state.signature_header)
            × (((e : String) × (lib.from_slice body ≡ parse_error e)
                  × (r ≡ (parsed (parse_error e), w)))
                ⊎ ((payload : Json) × (lib.from_slice body ≡ value payload) × Taken payload w r)))

    -- A webhook whose signature does not verify is refused, one whose body is no JSON is invalid, and one
    -- of a type that is not accepted is answered so, all without a change of the queue; and of every other
    -- one exactly the event "inbound." with its type is emitted, with its body.
    pub handle_inbound_webhook-Handles :
        (headers : Headers) (body : List ℕ) (w : World)
        → Handles headers body w (handle_inbound_webhook lib fresh subscribers state headers body w)
    unfolding handle_inbound_webhook
    handle_inbound_webhook-Handles headers body w =
        elim (verify_signature-IsVerdict lib bytes headers body state.secret
          state.signature_header) [
            | inr failed ↦ inl (
              λ signed. absurd (
                  ok_not_err (
                    sym (
                      (verify_signature-IsSignedBy_iff lib bytes headers body state.secret
                          state.signature_header).1
                        signed)
                    ∙ failed)),
              rw failed refl,
            )
            | inl passed ↦ inr (
              (verify_signature-IsSignedBy_iff lib bytes headers body state.secret
                    state.signature_header).0
                  passed,
              elim (Parsed-cases (lib.from_slice body)) [
                | inl (e, p) ↦ inl (e, p, rw (passed, p) refl)
                | inr (payload, p) ↦ inr (payload, p, taken payload p passed)
              ],
            )
          ]
      where
        taken :
            (payload : Json)
            → lib.from_slice body ≡ value payload
            → verify_signature lib headers body state.secret state.signature_header ≡ ok tt
            → Taken payload w (handle_inbound_webhook lib fresh subscribers state headers body w)
        taken payload p passed = elim (Bool-cases (is_accepted state (event_type_of payload))) [
          | inl q ↦
              inr ((is_accepted_iff state (event_type_of payload)).0 q, rw (passed, p, q) refl)
          | inr q ↦ inl (
            λ h. ground (arith, q, (is_accepted_iff state (event_type_of payload)).1 h),
            rw (passed, p, q) refl,
          )
        ]
