-- ===== src/Subscriber.antt =====
-- internal/pubsub: the messages that carry webhooks, how they are published, how the subscriber
-- answers each, and how dead letters are looked at (pubsub.go, subscriber.go). `encoding/json` and the
-- client of Pub/Sub are parameters; what the Pub/Sub service does with an answer is left to it.
pub mod Redelivery
pub mod Queueing
use resilient_settlement_orc.Base.{ℕ, String, Bool, Option, none, some}
use resilient_settlement_orc.Store.Action.{World, Result, ok, err}
use resilient_settlement_orc.Webhook.{Outside}
use resilient_settlement_orc.Webhook.Reception.{ingest_webhook}
use resilient_settlement_orc.Handlers.Webhooks.{Publisher}

pub record WebhookMessage : Type 0 where
  pub psp : String
  pub event_type : String
  pub payload : String
  pub signature : String

-- What the client does with the data of a message: false is an error of `result.Get`.
abbrev pub Send : Type 0
Send = String → World → Bool × World

-- `PublishWebhook`; a message of four strings is always marshalled.
unfoldable pub publish_webhook : (WebhookMessage → String) → Send → Publisher
publish_webhook marshal send psp event_type payload signature = send (
    marshal
      (record { psp = psp; event_type = event_type; payload = payload; signature = signature }))

-- `RetryDLQMessage`
abbrev pub retry_dlq_message : Send → String → World → Bool × World
retry_dlq_message send message_data = send message_data

-- A message as the client gives it; the number of the attempt may be missing.
pub record Message : Type 0 where
  pub id : String
  pub message_data : String
  pub delivery_attempt : Option ℕ
  pub publish_time : String

-- `deliveryAttempt`
abbrev pub delivery_attempt : Message → ℕ
delivery_attempt m = or_zero m.delivery_attempt
  where
    or_zero : Option ℕ → ℕ
    or_zero none = 0
    or_zero (some n) = n

-- `DLQEntry`
pub record DlqEntry : Type 0 where
  pub message_id : String
  pub psp : String
  pub event_type : String
  pub payload : String
  pub delivery_count : ℕ
  pub publish_time : String
  pub raw_data : String

-- The entry for one message in `PullDLQEntries`.
abbrev entry_with : Message → Option WebhookMessage → DlqEntry
entry_with m none = record {
  message_id = m.id;
  psp = "";
  event_type = "";
  payload = m.message_data;
  delivery_count = delivery_attempt m;
  publish_time = m.publish_time;
  raw_data = m.message_data;
}
entry_with m (some webhook) = record {
  message_id = m.id;
  psp = webhook.psp;
  event_type = webhook.event_type;
  payload = webhook.payload;
  delivery_count = delivery_attempt m;
  publish_time = m.publish_time;
  raw_data = m.message_data;
}

abbrev pub dlq_entry : (String → Option WebhookMessage) → Message → DlqEntry
dlq_entry unmarshal m = entry_with m (unmarshal m.message_data)

-- `msg.Ack()` and `msg.Nack()`
pub data Answer : Type 0 where
  ack nack : Answer

abbrev pub answer : Result (Unit {0}) × World → Answer × World
answer (ok _, w) = (ack, w)
answer (err e, w) = (nack, w)

module _ (unmarshal : String → Option WebhookMessage) (outside : Outside) where
  abbrev pub process : Option WebhookMessage → World → Answer × World
  process none w = (ack, w)
  process (some m) w = answer (ingest_webhook outside m.psp m.event_type m.payload m.signature w)

  -- The callback of `StartWebhookSubscriber`
  unfoldable pub receive : String → World → Answer × World
  receive message w = process (unmarshal message) w
