-- ===== src/Events/Webhooks.antt =====
-- shaperail-runtime/src/events/webhook.rs and inbound.rs: signed deliveries, and the endpoint that takes
-- them. HMAC-SHA256 in hexadecimal and the texts' bytes are parameters.
pub mod Constant
pub mod Verified
pub mod Handled
mod Examples
use shaperail.Prelude.{
  ℕ, zero, suc, ◌+◌, ◌*◌, ◌/◌, ◌%◌, String, List, [], ◌∷◌, Option, none, some, Bool, true, false,
  ◌==◌, eqb, any, ◌&&◌, ◌||◌, and_then, unwrap_or, format, split_on, strip_prefix, is_empty, length,
  if◌then◌else◌,
}
use shaperail.Core.Json.{Json, obj, object, bool, str, field, as_str}
use shaperail.Core.Error.{Result, ok, err, unauthorized, invalid}
use shaperail.Jobs.{World, M, ◌>>=◌}
use shaperail.Events.{EventSubscriber, emit}

-- `^` and `|` on so many bits.
unfoldable pub xor_bits : (bits : ℕ) → ℕ → ℕ → ℕ
xor_bits zero x y = 0
xor_bits (suc n) x y = (x % 2 + y % 2) % 2 + 2 * xor_bits n (x / 2) (y / 2)

unfoldable pub or_bits : (bits : ℕ) → ℕ → ℕ → ℕ
or_bits zero x y = 0
or_bits (suc n) x y = (x % 2 + y % 2 + 1) / 2 + 2 * or_bits n (x / 2) (y / 2)

-- The loop over the pairs, from a difference.
unfoldable pub difference : ℕ → List ℕ → List ℕ → ℕ
difference diff (x ∷ xs) (y ∷ ys) = difference (or_bits 8 diff (xor_bits 8 x y)) xs ys
difference diff xs ys = diff

unfoldable pub constant_time_eq : List ℕ → List ℕ → Bool
constant_time_eq a b = eqb (length a) (length b) && eqb (difference 0 a b) 0

-- What `from_slice` makes of a body.
pub data Parsed : Type 0 where
  parse_error : String → Parsed
  value : Json → Parsed

abbrev pub lift : {A : Type 0} → Result A → M A
lift r w = (r, w)

pub record Libraries : Type 0 where
  pub hmac : (body secret : List ℕ) → String
  pub as_bytes : String → List ℕ
  pub from_utf8_lossy : List ℕ → String
  pub to_vec : Json → List ℕ
  pub from_slice : List ℕ → Parsed

-- A header is absent, is no text, or is a text.
abbrev pub Headers : Type 0
Headers = String → Option (Option String)

pub record WebhookRequest : Type 0 where
  pub url : String
  pub body : List ℕ
  pub signature : String
  pub timeout_secs : ℕ

pub record InboundWebhookState : Type 0 where
  pub secret : String
  pub accepted_events : List String
  pub signature_header : String

abbrev pub signature_header_of : WebhookRequest → String
signature_header_of r = format ("sha256=" ∷ r.signature ∷ [])

abbrev first_after : String → List String → Option String
first_after prefix [] = none
first_after prefix (part ∷ parts) = elim (strip_prefix prefix part) [
  | none ↦ first_after prefix parts
  | some v ↦ some v
]

abbrev pub event_type_of : Json → String
event_type_of payload = unwrap_or (and_then (named (field payload "type")) as_str) "unknown"
  where
    named : Option Json → Option Json
    named (some v) = some v
    named none = elim (field payload "event") [ some v ↦ some v | none ↦ field payload "action" ]

abbrev pub judged : Bool → Result (Unit {0})
judged b = if b then ok tt else err unauthorized

abbrev pub parsed : Parsed → Result Json
parsed (parse_error e) = err (invalid "body" (format ("Invalid JSON: " ∷ e ∷ [])) "invalid_json")
parsed (value payload) = ok payload

abbrev pub is_accepted : InboundWebhookState → String → Bool
is_accepted state event_type =
    is_empty state.accepted_events || any (λ e. e == event_type) state.accepted_events

abbrev pub refusal : Json
refusal =
    obj (object (("accepted", bool false) ∷ ("reason", str "event type not in accepted list") ∷ []))

abbrev pub acceptance : Json
acceptance = obj (object (("accepted", bool true) ∷ []))

module _ (lib : Libraries) where
  unfoldable pub sign : String → List ℕ → String
  sign secret body = lib.hmac body (lib.as_bytes secret)

  unfoldable pub build_delivery_request :
      (secret : String) (timeout_secs : ℕ) → String → Json → WebhookRequest
  unfolding sign
  build_delivery_request secret timeout_secs url payload = record {
    url = url;
    body = lib.to_vec payload;
    signature = sign secret (lib.to_vec payload);
    timeout_secs = timeout_secs;
  }

  unfoldable pub verify_hmac_signature : List ℕ → List ℕ → String → Bool
  verify_hmac_signature body secret signature =
      constant_time_eq (lib.as_bytes (lib.hmac body secret)) (lib.as_bytes signature)

  abbrev pub by_hex : List ℕ → String → Option String → Result (Unit {0})
  by_hex body secret none = err unauthorized
  by_hex body secret (some hex) = judged (verify_hmac_signature body (lib.as_bytes secret) hex)

  -- `sha256=<hex>`.
  abbrev pub by_sha256 : List ℕ → String → Option String → Result (Unit {0})
  by_sha256 body secret none = err unauthorized
  by_sha256 body secret (some text) = by_hex body secret (strip_prefix "sha256=" text)

  -- `t=<timestamp>,v1=<sig>`.
  abbrev pub signed_payload : List ℕ → String → List ℕ
  signed_payload body text = lib.as_bytes (
      format (
        unwrap_or (first_after "t=" (split_on b',' text)) "" ∷ "." ∷ lib.from_utf8_lossy body ∷ []))

  abbrev pub by_stripe : List ℕ → String → Option String → Result (Unit {0})
  by_stripe body secret none = err unauthorized
  by_stripe body secret (some text) =
      by_hex (signed_payload body text) secret (first_after "v1=" (split_on b',' text))

  abbrev pub try_stripe : List ℕ → String → Option (Option String) → Result (Unit {0})
  try_stripe body secret none = err unauthorized
  try_stripe body secret (some h) = by_stripe body secret h

  -- The headers of the format `sha256=<hex>`, in order: the first that is there decides.
  abbrev pub try_sha256 : Headers → List ℕ → String → List String → Result (Unit {0})
  try_sha256 headers body secret [] = try_stripe body secret (headers "Stripe-Signature")
  try_sha256 headers body secret (name ∷ names) = elim (headers name) [
    | none ↦ try_sha256 headers body secret names
    | some h ↦ by_sha256 body secret h
  ]

  unfoldable pub verify_signature : Headers → List ℕ → String → String → Result (Unit {0})
  verify_signature headers body secret signature_header =
      try_sha256 headers body secret
        (signature_header ∷ "X-Shaperail-Signature" ∷ "X-Hub-Signature-256" ∷ [])

  module _ (fresh : World → String) (subscribers : List EventSubscriber) where
    -- `let _ = emit(..)`: an error of the queue is dropped.
    abbrev emitted : Json → Result String × World → Result Json × World
    emitted answer (r, w) = (ok answer, w)

    abbrev take_event : InboundWebhookState → Json → M Json
    take_event state payload w =
        if is_accepted state (event_type_of payload)
        then emitted acceptance (
            emit fresh subscribers (format ("inbound." ∷ event_type_of payload ∷ [])) "webhook"
              (event_type_of payload) payload w)
        else (ok refusal, w)

    unfoldable pub handle_inbound_webhook : InboundWebhookState → Headers → List ℕ → M Json
    handle_inbound_webhook state headers body = do
      _ ← lift (verify_signature headers body state.secret state.signature_header)
      payload ← lift (parsed (lib.from_slice body))
      take_event state payload
