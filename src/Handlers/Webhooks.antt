-- ===== src/Handlers/Webhooks.antt =====
-- internal/handler/webhook.go: how a webhook comes in. The headers are a function of their name, and
-- the publisher of Pub/Sub is a parameter; without one the webhook is processed at once. The body
-- is what the reader gives, which stops at a megabyte.
pub mod Signatures
use resilient_settlement_orc.Base.{
  ℕ, String, Bool, true, false, Option, none, some, if◌then◌else◌, str_eq, is_some,
}
use resilient_settlement_orc.Store.Action.{World, Result, ok, err}
use resilient_settlement_orc.Webhook.{Outside}
use resilient_settlement_orc.Webhook.Reception.{ingest_webhook}
use resilient_settlement_orc.Webhook.Json.{Fields, field_string, string_or_empty}
use resilient_settlement_orc.Handlers.{HttpResponse, error, json}

-- What `PublishWebhook` takes: PSP, event type, payload, signature; false is an error.
abbrev pub Publisher : Type 0
Publisher = String → String → String → String → World → Bool × World

-- `extractSignatureHeader`
unfoldable pub extract_signature_header : String → (String → String) → String
extract_signature_header psp header =
    if str_eq psp "stripe"
    then header "Stripe-Signature"
    else if str_eq psp "razorpay"
    then header "X-Razorpay-Signature"
    else header "X-Webhook-Signature"

abbrev pub answer : Result (Unit {0}) × World → HttpResponse String × World
answer (ok _, w) = (json 200 "received", w)
answer (err e, w) = (error 500 "WEBHOOK_PROCESSING_FAILED", w)

abbrev pub queued : Bool × World → HttpResponse String × World
queued (true, w) = (json 200 "queued", w)
queued (false, w) = (error 500 "WEBHOOK_PUBLISH_FAILED", w)

module _ (outside : Outside) where
  -- `extractJSONField`
  unfoldable pub extract_json_field : String → String → String
  extract_json_field body key = string_or_empty (field_string key (outside.parse body))

  -- `extractEventType`
  unfoldable pub extract_event_type : String → (String → String) → String → String
  extract_event_type psp header body =
      if str_eq psp "stripe"
      then extract_json_field body "type"
      else if str_eq psp "razorpay"
      then extract_json_field body "event"
      else if str_eq (header "X-Event-Type") ""
      then extract_json_field body "event_type"
      else header "X-Event-Type"

  abbrev deliver :
      Option Publisher → String → String → String → String → World → HttpResponse String × World
  deliver none psp event_type body signature w =
      answer (ingest_webhook outside psp event_type body signature w)
  deliver (some publish) psp event_type body signature w =
      queued (publish psp event_type body signature w)

  -- `HandleWebhook`; a body that cannot be read is `none`.
  abbrev pub handle_body :
      Option Publisher → String → (String → String) → String → World → HttpResponse String × World
  handle_body publisher psp header body w =
      if str_eq body ""
      then (error 400 "INVALID_REQUEST", w)
      else if str_eq (extract_event_type psp header body) ""
      then (error 400 "INVALID_REQUEST", w)
      else deliver publisher psp (extract_event_type psp header body) body
          (extract_signature_header psp header) w

  abbrev handle_read :
      Option Publisher
      → String
      → (String → String)
      → Option String
      → World
      → HttpResponse String × World
  handle_read publisher psp header none w = (error 400 "INVALID_REQUEST", w)
  handle_read publisher psp header (some body) w = handle_body publisher psp header body w

  unfoldable pub handle_webhook :
      Option Publisher
      → String
      → (String → String)
      → Option String
      → World
      → HttpResponse String × World
  handle_webhook publisher psp header body w =
      if str_eq psp ""
      then (error 400 "INVALID_REQUEST", w)
      else handle_read publisher psp header body w
