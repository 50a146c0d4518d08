-- ===== src/Subscriber/Redelivery.antt =====
-- A message that internal/pubsub/subscriber.go is given twice.
use resilient_settlement_orc.Base.{
  ℕ, ◌+◌, String, false, true, ◌≡◌, refl, ap, ◌∙◌, Option, none, some,
}
use resilient_settlement_orc.Router
use resilient_settlement_orc.Store.Action.{World, Result, ok, err, PspAdapter}
use resilient_settlement_orc.Ledger.Balance.{DistinctIds}
use resilient_settlement_orc.Webhook.{Outside, is_fresh}
use resilient_settlement_orc.Webhook.Reception.{
  ingest_webhook, ingest_webhook_internal, is_accepted, ingest_once,
}
use resilient_settlement_orc.Webhook.Delivery.{ingest_once-again}
use resilient_settlement_orc.Subscriber.{WebhookMessage, Answer, ack, answer, receive}

-- The adapter of the message's PSP is registered and accepts the signature, and the message is fresh.
pub record IsAccepted (outside : Outside) (m : WebhookMessage) (a : PspAdapter) (w : World)
    : Type 0 where
  pub registered : Router.get_adapter m.psp w.router ≡ some a
  pub verified : a.verify_webhook_signature m.payload m.signature ≡ none
  pub fresh : is_fresh outside (w.env.clock w.tick) m.payload ≡ true

answer-tables : (x : Result (Unit {0}) × World) → (answer x).1.tables ≡ x.1.tables
answer-tables (ok _, w) = refl
answer-tables (err e, w) = refl

module _ (unmarshal : String → Option WebhookMessage) (outside : Outside) where
  ingest_webhook-accepted :
      (m : WebhookMessage) (a : PspAdapter) (w : World)
      → IsAccepted outside m a w
      → ingest_webhook outside m.psp m.event_type m.payload m.signature w
        ≡ ingest_once outside m.psp m.event_type m.payload w
  unfolding ingest_webhook ingest_webhook_internal
  ingest_webhook-accepted m a w h = rw (h.registered, h.verified, h.fresh) refl

  receive-once :
      (message : String) (m : WebhookMessage) (a : PspAdapter) (w : World)
      → unmarshal message ≡ some m
      → IsAccepted outside m a w
      → receive unmarshal outside message w
        ≡ answer (ingest_once outside m.psp m.event_type m.payload w)
  unfolding receive
  receive-once message m a w read h = rw (read, ingest_webhook-accepted m a w h) refl

  -- A message with a signature that is accepted, and texts that fit the columns of its event, is
  -- delivered twice, each time fresh. The database
  -- answers the first delivery, and the first statement of the second, which meets the tables that
  -- the first has left. Then the second is acknowledged and only reads, also where the first has
  -- failed and has asked for another try.
  pub receive-again :
      (message : String) (m : WebhookMessage) (a b : PspAdapter) (w v : World)
      → unmarshal message ≡ some m
      → IsAccepted outside m a w
      → IsAccepted outside m b v
      → DistinctIds w.tables.accounts
      → ((n : ℕ) → w.env.db_fails n ≡ false)
      → is_accepted outside m.psp m.event_type m.payload ≡ true
      → v.tables ≡ (receive unmarshal outside message w).1.tables
      → v.env.db_fails v.tick ≡ false
      → receive unmarshal outside message v ≡ (ack, record v { tick = v.tick + 1 })
  receive-again message m a b w v read h g d up fits same still =
      receive-once message m b v read g
      ∙ ap answer (
          ingest_once-again outside m.psp m.event_type m.payload w v d up fits
            (same
              ∙ ap (λ (x : Answer × World). x.1.tables) (receive-once message m a w read h)
              ∙ answer-tables (ingest_once outside m.psp m.event_type m.payload w))
            still)
