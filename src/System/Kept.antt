-- ===== src/System/Kept.antt =====
-- What every run of the services keeps.
use resilient_settlement_orc.Base.{false, ◌⊎◌, String, ◌≡◌, inl, inr, some, Option-cases}
use resilient_settlement_orc.Router
use resilient_settlement_orc.Payment.Status.{is_terminal}
use resilient_settlement_orc.Payment.Lifecycle.{Reach, Reach-is_terminal}
use resilient_settlement_orc.Store.Rows.{Payment}
use resilient_settlement_orc.Store.Tables.{find_payment}
use resilient_settlement_orc.Store.Onward.{Onward-same}
use resilient_settlement_orc.Store.Action.{Result, ok, err, World}
use resilient_settlement_orc.Store.History.{IsConsistent, SameTerms, same-IsConsistent}
use resilient_settlement_orc.PaymentService.Kept.{
  create_payment-Sound, capture_payment-Sound, refund_payment-Sound, cancel_payment-Sound,
}
use resilient_settlement_orc.Ledger.{PostTransactionRequest, post_ledger_transaction}
use resilient_settlement_orc.Ledger.Balance.{net, DistinctIds}
use resilient_settlement_orc.Ledger.Books.{Posted, post_ledger_transaction-Posted}
use resilient_settlement_orc.Ledger.Sound.{Sound, HasEvent, Sound-refl, Sound-eq, Sound-trans}
use resilient_settlement_orc.Webhook.{Outside}
use resilient_settlement_orc.Webhook.Reception.{ingest_webhook, ingest_webhook_retry}
use resilient_settlement_orc.Webhook.Delivery.{ingest_webhook_internal-Sound}
use resilient_settlement_orc.Reconciliation.Kept.{
  run_batch_reconciliation-Sound, reconcile_single_payment-Sound,
}
use resilient_settlement_orc.System.{
  Call, Calls, creation, capture, refund, cancellation, posting, delivery, redelivery, batch,
  single, none_left, then, serve, serve_all,
}

Posted-Sound :
    (req : PostTransactionRequest) (w : World) (x : Result (Unit {0}) × World)
    → (DistinctIds w.tables.accounts → Posted req w x)
    → Sound w.tables x.1.tables
Posted-Sound req w (err e, v) p = record {
  trail = λ d k. (Sound-eq (p d)).trail d k;
  distinct = λ d. (Sound-eq (p d)).distinct d;
  sheet = λ d. (Sound-eq (p d)).sheet d;
  onward = λ d. (Sound-eq (p d)).onward d;
  seen = λ d key h. (Sound-eq (p d)).seen d key h;
}
Posted-Sound req w (ok tt, v) p = record {
  trail = λ d.
      let (two, clean, sheet, ids, same, trails, events) = p d in
      same-IsConsistent w.tables v.tables same trails;
  distinct = λ d. let (two, clean, sheet, ids, same, trails, events) = p d in ids;
  sheet = λ d. let (two, clean, sheet, ids, same, trails, events) = p d in sheet;
  onward = λ d.
      let (two, clean, sheet, ids, same, trails, events) = p d in
      Onward-same w.tables v.tables same;
  seen = λ d key h. let (two, clean, sheet, ids, same, trails, events) = p d in rw events h;
}

ingest_webhook_retry-Sound :
    (outside : Outside) (psp event_type payload : String) (w : World)
    → Sound w.tables (ingest_webhook_retry outside psp event_type payload w).1.tables
unfolding ingest_webhook_retry
ingest_webhook_retry-Sound outside psp event_type payload w =
    elim (Option-cases (Router.get_adapter psp w.router)) [
      | inl n ↦ rw n (Sound-refl w.tables)
      | inr (a, e) ↦ rw e (ingest_webhook_internal-Sound outside psp event_type payload "" _ w)
    ]

module _ (outside : Outside) where
  mutual
    unfolding serve serve_all ingest_webhook

    serve-Sound : (r : Call) (w : World) → Sound w.tables (serve outside r w).tables
    serve-Sound (creation req meanwhile) w =
        create_payment-Sound (serve_all outside meanwhile) req w (serve_all-Sound meanwhile)
    serve-Sound (capture id) w = capture_payment-Sound id w
    serve-Sound (refund id amount) w = refund_payment-Sound id amount w
    serve-Sound (cancellation id meanwhile) w =
        cancel_payment-Sound (serve_all outside meanwhile) id w (serve_all-Sound meanwhile)
    serve-Sound (posting req) w =
        Posted-Sound req w (post_ledger_transaction req w) (post_ledger_transaction-Posted req w)
    serve-Sound (delivery psp event_type payload signature) w =
        ingest_webhook_internal-Sound outside psp event_type payload signature _ w
    serve-Sound (redelivery psp event_type payload) w =
        ingest_webhook_retry-Sound outside psp event_type payload w
    serve-Sound (batch psp start) w = run_batch_reconciliation-Sound psp start w
    serve-Sound (single id) w = reconcile_single_payment-Sound id w

    serve_all-Sound : (rs : Calls) (w : World) → Sound w.tables (serve_all outside rs w).tables
    serve_all-Sound none_left w = Sound-refl w.tables
    serve_all-Sound (then r rs) w =
        Sound-trans (serve-Sound r w) (serve_all-Sound rs (serve outside r w))

-- Any requests are served one after the other, and others while the provider of a creation or a
-- cancellation answers: payments are created, captured, refunded and cancelled, ledger entries
-- posted, webhooks delivered and retried, days reconciled, each with any outcome. If at first no two
-- accounts share an identifier, and every payment has a legal trail of transitions that ends in its
-- status, both hold at the end, the balance sheet (assets and expenses less liabilities and
-- revenue) is the same modulo 2^64, and no webhook event that was received is lost.
pub serve_all-kept :
    (outside : Outside) (rs : Calls) (w : World)
    → DistinctIds w.tables.accounts
    → IsConsistent w.tables
    → let t = (serve_all outside rs w).tables in
      IsConsistent t
      × DistinctIds t.accounts
      × (net t.accounts ≡ net w.tables.accounts)
      × ((key : String) → HasEvent key w.tables → HasEvent key t)
serve_all-kept outside rs w d k =
    let s = serve_all-Sound outside rs w in (s.trail d k, s.distinct d, s.sheet d, s.seen d)

-- Any requests are served, as above, with any outcome, where no two accounts share an identifier. A
-- payment that is there at first is there at the end: its merchant, order, amount, currency and
-- provider are what they were, and its status has only gone on along the life cycle, so that one
-- that has failed, was cancelled or is refunded in full has kept its status.
pub serve_all-onward :
    (outside : Outside) (rs : Calls) (w : World) (id : String) (p : Payment)
    → DistinctIds w.tables.accounts
    → find_payment id w.tables ≡ some p
    → (q : Payment) × (find_payment id (serve_all outside rs w).tables ≡ some q)
      × SameTerms p q
      × Reach p.status q.status
      × ((is_terminal p.status ≡ false) ⊎ (q.status ≡ p.status))
serve_all-onward outside rs w id p d found =
    let (q, there, f) = (serve_all-Sound outside rs w).onward d id p found in
    (q, there, f.terms, f.path, Reach-is_terminal f.path)
