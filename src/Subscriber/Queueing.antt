-- ===== src/Subscriber/Queueing.antt =====
-- A webhook that takes the way of internal/pubsub, and one that internal/handler/webhook.go processes at
-- once.
use resilient_settlement_orc.Base.{
  String, ◌≡◌, refl, Option, none, some, inl, inr, ◌⊎◌, Bool-cases, str_eq,
}
use resilient_settlement_orc.Store.Action.{World, Result, ok, err}
use resilient_settlement_orc.Webhook.{Outside}
use resilient_settlement_orc.Webhook.Reception.{ingest_webhook}
use resilient_settlement_orc.Handlers.{HttpResponse, status}
use resilient_settlement_orc.Handlers.Webhooks
use resilient_settlement_orc.Handlers.Webhooks.{
  queued, extract_event_type, extract_signature_header, handle_webhook,
}
use resilient_settlement_orc.Subscriber.{
  WebhookMessage, Send, Answer, ack, nack, answer, publish_webhook, receive,
}

-- The subscriber leaves what the handler leaves, and acknowledges where the handler answers 200.
abbrev pub SameOutcome : Answer × World → HttpResponse String × World → Type 0
SameOutcome (ack, w) (r, v) = (w ≡ v) × (status r ≡ 200)
SameOutcome (nack, w) (r, v) = (w ≡ v) × (status r ≡ 500)

SameOutcome-answer : (x : Result (Unit {0}) × World) → SameOutcome (answer x) (Webhooks.answer x)
SameOutcome-answer (ok tt, w) = (refl, refl)
SameOutcome-answer (err e, w) = (refl, refl)

-- The message of a webhook that is queued.
abbrev pub message : Outside → String → String → (String → String) → WebhookMessage
message outside psp body header = record {
  psp = psp;
  event_type = extract_event_type outside psp header body;
  payload = body;
  signature = extract_signature_header psp header;
}

module _ (marshal : WebhookMessage → String) (unmarshal : String → Option WebhookMessage)
    (send : Send) (outside : Outside) (psp body : String) (header : String → String)
    (reads : unmarshal (marshal (message outside psp body header))
      ≡ some (message outside psp body header)) where
  received :
      (v : World)
      → receive unmarshal outside (marshal (message outside psp body header)) v
        ≡ answer (
            ingest_webhook outside psp
              (extract_event_type outside psp header body)
              body
              (extract_signature_header psp header)
              v)
  unfolding receive
  received v = rw reads refl

  -- The message of a webhook is read back once it is marshalled. Then the handler, with a publisher that puts its message
  -- into a queue, either answers at once as it does without a publisher, and sends nothing, or it sends
  -- one message. Whenever the subscriber is given that message, it leaves the tables and all else as
  -- the handler without a publisher would have at that time, and acknowledges the message exactly if
  -- that would have answered 200.
  pub handle_webhook-queued :
      (w v : World)
      → (let x =
            handle_webhook outside (some (publish_webhook marshal send)) psp header (some body) w in
          (x ≡ handle_webhook outside none psp header (some body) w)
          × (x.1 ≡ w)
          × (status x.0 ≡ 400))
        ⊎ ((text : String) × (handle_webhook outside
                (some (publish_webhook marshal send))
                psp
                header
                (some body)
                w
              ≡ queued (send text w))
            × SameOutcome
                (receive unmarshal outside text v)
                (handle_webhook outside none psp header (some body) v))
  unfolding handle_webhook publish_webhook
  handle_webhook-queued w v = elim (Bool-cases (str_eq psp "")) [
    | inl nameless ↦ inl (rw nameless (refl, refl, refl))
    | inr named ↦ elim (Bool-cases (str_eq body "")) [
      | inl empty ↦ inl (rw (named, empty) (refl, refl, refl))
      | inr full ↦ elim (Bool-cases (str_eq (extract_event_type outside psp header body) "")) [
        | inl untyped ↦ inl (rw (named, full, untyped) (refl, refl, refl))
        | inr typed ↦ inr (
          marshal (message outside psp body header),
          rw (named, full, typed) refl,
          rw (received v, named, full, typed)
              (SameOutcome-answer (ingest_webhook outside psp _ body _ v)),
        )
      ]
    ]
  ]
