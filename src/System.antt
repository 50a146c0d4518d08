-- ===== src/System.antt =====
-- The services of internal/service together: requests that are served one after the other, or, where
-- a method holds no lock while a provider answers, in between.
pub mod Kept
use resilient_settlement_orc.Base.{String}
use resilient_settlement_orc.Base.Int.{ℤ}
use resilient_settlement_orc.Store.Action.{World}
use resilient_settlement_orc.PaymentService.{capture_payment, refund_payment, cancel_payment}
use resilient_settlement_orc.PaymentService.Creation.{CreatePaymentRequest, create_payment}
use resilient_settlement_orc.Ledger.{PostTransactionRequest, post_ledger_transaction}
use resilient_settlement_orc.Webhook.{Outside}
use resilient_settlement_orc.Webhook.Reception.{ingest_webhook, ingest_webhook_retry}
use resilient_settlement_orc.Reconciliation.{run_batch_reconciliation}
use resilient_settlement_orc.Reconciliation.Reads.{reconcile_single_payment}

-- A call of a service method that can write. A creation and a cancellation carry the requests that are
-- served while their provider answers.
mutual
  pub data Call : Type 0 where
    creation : CreatePaymentRequest → Calls → Call
    capture : String → Call
    refund : String → ℤ → Call
    cancellation : String → Calls → Call
    posting : PostTransactionRequest → Call
    delivery : String → String → String → String → Call
    redelivery : String → String → String → Call
    batch : String → ℤ → Call
    single : String → Call

  pub data Calls : Type 0 where
    none_left : Calls
    then : Call → Calls → Calls

module _ (outside : Outside) where
  unfoldable mutual
    pub serve : Call → World → World
    serve (creation req meanwhile) w = (create_payment (serve_all meanwhile) req w).1
    serve (capture id) w = (capture_payment id w).1
    serve (refund id amount) w = (refund_payment id amount w).1
    serve (cancellation id meanwhile) w = (cancel_payment (serve_all meanwhile) id w).1
    serve (posting req) w = (post_ledger_transaction req w).1
    serve (delivery psp event_type payload signature) w =
        (ingest_webhook outside psp event_type payload signature w).1
    serve (redelivery psp event_type payload) w =
        (ingest_webhook_retry outside psp event_type payload w).1
    serve (batch psp start) w = (run_batch_reconciliation psp start w).1
    serve (single id) w = (reconcile_single_payment id w).1

    pub serve_all : Calls → World → World
    serve_all none_left w = w
    serve_all (then r rs) w = serve_all rs (serve r w)
