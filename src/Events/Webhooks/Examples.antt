-- ===== src/Events/Webhooks/Examples.antt =====
-- A webhook that is sent, and one that is forged.
use Prim.Native.String as Str
use Prim.Native.Char.{code}
use shaperail.Prelude.{
  ℕ, ◌%◌, String, List, [], ◌∷◌, none, some, decimal, length, All, if◌then◌else◌, ◌==◌, ◌≡◌, refl,
  arith,
}
use shaperail.Core.Json.{Json, str, obj, object}
use shaperail.Core.Error.{ok}
use shaperail.Jobs.{World}
use shaperail.Events.Webhooks.{
  Libraries, Headers, value, InboundWebhookState, verify_signature, build_delivery_request, sign,
  handle_inbound_webhook,
}
use shaperail.Events.Webhooks.Constant.{IsByte}
use shaperail.Events.Webhooks.Verified.{build_delivery_request-verify_signature}
use shaperail.Events.Webhooks.Handled.{Handles, handle_inbound_webhook-Handles}

abbrev low_bytes : String → List ℕ
low_bytes Str.[] = []
low_bytes (Str.◌∷◌ c s) = code c % 256 ∷ low_bytes s

low_bytes-IsByte : (s : String) → All IsByte (low_bytes s)
low_bytes-IsByte Str.[] = tt
low_bytes-IsByte (Str.◌∷◌ c s) = (omega arith, low_bytes-IsByte s)

abbrev payload : Json
payload = obj (object (("type", str "paid") ∷ []))

-- The digest is the number of bytes; every body is the payload.
abbrev libraries : Libraries
libraries = record {
  hmac = λ body secret. decimal (length body);
  as_bytes = low_bytes;
  from_utf8_lossy = λ bs. "text";
  to_vec = λ v. 1 ∷ 2 ∷ 3 ∷ [];
  from_slice = λ bs. value payload;
}

abbrev delivered : Headers
delivered name = if name == "X-Shaperail-Signature" then some (some "sha256=3") else none

build_delivery_request-verify_signature_example :
    verify_signature libraries delivered
      (build_delivery_request libraries "key" 5 "https://b" payload).body
      "key"
      "X-Shaperail-Signature"
    ≡ ok tt
unfolding build_delivery_request sign decimal
build_delivery_request-verify_signature_example =
    build_delivery_request-verify_signature libraries low_bytes-IsByte delivered "key" "https://b" 5
      payload refl

abbrev endpoint : InboundWebhookState
endpoint = record {
  secret = "key";
  accepted_events = "paid" ∷ [];
  signature_header = "X-Signature";
}

abbrev idle_world : World
idle_world = record {
  queues = λ p. [];
  dead = [];
  meta = [];
  sleeping = [];
  executed = [];
  clock = "noon";
  faults = [];
}

handle_inbound_webhook-Handles_example :
    Handles libraries low_bytes-IsByte
      (λ w. "e1")
      []
      endpoint
      delivered
      (1 ∷ 2 ∷ 3 ∷ [])
      idle_world
      (handle_inbound_webhook libraries
        (λ w. "e1")
        []
        endpoint
        delivered
        (1 ∷ 2 ∷ 3 ∷ [])
        idle_world)
handle_inbound_webhook-Handles_example =
    handle_inbound_webhook-Handles libraries low_bytes-IsByte (λ w. "e1") [] endpoint delivered
      (1 ∷ 2 ∷ 3 ∷ []) idle_world
