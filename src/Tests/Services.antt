-- ===== src/Tests/Services.antt =====
-- The theorems on the payment service, the ledger, the webhooks and the reconciliation at concrete
-- inputs.
use resilient_settlement_orc.Base.{
  false, ◌⊎◌, String, ◌≡◌, refl, some, [], ◌∷◌, length, All, ◌%◌, ◌+◌, arith,
}
use resilient_settlement_orc.Base.Int.{pos, ◌+ℤ◌, ◌-ℤ◌}
use resilient_settlement_orc.Base.Int64.{residue, add64, sub64, wrap64}
use resilient_settlement_orc.Payment.Status.{cancelled, is_terminal, captured, authorized, refunded}
use resilient_settlement_orc.Router
use resilient_settlement_orc.Store.Rows.{text, ReconciliationRecord, completed}
use resilient_settlement_orc.Store.Action.{ok, World, PspAdapter}
use resilient_settlement_orc.Store.History.{IsConsistent, SameTerms}
use resilient_settlement_orc.PaymentService.{
  record_change, refund_body, refund_write, capture_in_tx, refund_in_tx, update_payment_state,
}
use resilient_settlement_orc.PaymentService.Creation.{create_payment}
use resilient_settlement_orc.PaymentService.Capture.{
  Captured, capture_in_tx-Captured, capture_in_tx-succeeds,
}
use resilient_settlement_orc.PaymentService.Refund.{Refunded, refund_in_tx-Refunded}
use resilient_settlement_orc.PaymentService.Totals.{Left, refund_in_tx-exact}
use resilient_settlement_orc.PaymentService.State.{StateChanged, update_payment_state-StateChanged}
use resilient_settlement_orc.Ledger.{PostTransactionRequest, post_ledger_transaction}
use resilient_settlement_orc.Ledger.Balance.{net, DistinctIds}
use resilient_settlement_orc.Ledger.Books.{Posted, post_ledger_transaction-Posted}
use resilient_settlement_orc.Webhook.Reception.{ingest_once}
use resilient_settlement_orc.Webhook.Delivery.{ingest_once-again}
use resilient_settlement_orc.Reconciliation.{
  run_batch_reconciliation, run_with, compare_and_finish, compare_record, normalize_psp_status,
  insert_record, finalize, get_reconciliation_record, internal_records, compare_all,
}
use resilient_settlement_orc.Reconciliation.Counts.{
  run_batch_reconciliation-counts, run_batch_reconciliation-agreed,
}
use resilient_settlement_orc.Reconciliation.Loop.{Agrees, total_residue}
use resilient_settlement_orc.Ledger.Sound.{HasEvent}
use resilient_settlement_orc.System.{
  Calls, creation, capture, refund, cancellation, posting, delivery, redelivery, batch, none_left,
  then, serve_all,
}
use resilient_settlement_orc.System.Kept.{serve_all-kept, serve_all-onward}
use resilient_settlement_orc.Payment.Lifecycle.{Reach}
use resilient_settlement_orc.Store.Rows.{Payment}
use resilient_settlement_orc.Store.Tables.{update_payment, insert_transition, find_payment}
use resilient_settlement_orc.Tests.Shop.{
  webhook-is_accepted, shop, busy_shop, order, payment, outside, accounts, mock,
}

empty-IsConsistent : IsConsistent shop.tables
empty-IsConsistent = record { trails = λ id p h. absurd (ground arith); no_orphans = λ id h. refl }

distinct : DistinctIds accounts
distinct = (refl, (refl, (refl, (refl, tt))))

-- The world after a first payment, whose identifier is "id".
abbrev paid : World
paid = (create_payment (λ w. w) order shop).1

capture_in_tx-Captured_example : Captured "id" paid (capture_in_tx "id" paid)
capture_in_tx-Captured_example = capture_in_tx-Captured "id" paid

refund_in_tx-Refunded_example :
    Refunded "p1" (pos 200) busy_shop (refund_in_tx "p1" (pos 200) busy_shop)
refund_in_tx-Refunded_example = refund_in_tx-Refunded "p1" (pos 200) busy_shop

refund_done : (refund_in_tx "p1" (pos 700) busy_shop).0 ≡ ok (captured, refunded)
unfolding refund_in_tx refund_body refund_write record_change update_payment insert_transition add64
    sub64 wrap64 ◌+ℤ◌ ◌-ℤ◌ Router.get_adapter
refund_done = refl

refund_in_tx-exact_example :
    Left "p1" (pos 700) payment refunded (refund_in_tx "p1" (pos 700) busy_shop).1.tables
refund_in_tx-exact_example =
    refund_in_tx-exact "p1" (pos 700) busy_shop payment captured refunded refl
      (omega arith, omega arith, (omega arith, omega arith)) (omega arith) refund_done

update_payment_state-StateChanged_example :
    StateChanged "id" authorized cancelled ""
      (text "x")
      "api"
      paid
      (update_payment_state "id" authorized cancelled "" (text "x") "api" paid)
update_payment_state-StateChanged_example =
    update_payment_state-StateChanged "id" authorized cancelled "" (text "x") "api" paid

abbrev fees : PostTransactionRequest
fees = record {
  payment_id = "p1";
  transaction_type = "fee";
  entries =
      record {
        account_code = "PSP_SETTLEMENT";
        debit = pos 30;
        credit = pos 0;
        description = "fee";
        reference_id = "p1";
      }
      ∷ record {
        account_code = "PSP_FEES";
        debit = pos 0;
        credit = pos 30;
        description = "fee";
        reference_id = "p1";
      }
      ∷ [];
}

post_ledger_transaction-Posted_example : Posted fees shop (post_ledger_transaction fees shop)
post_ledger_transaction-Posted_example = post_ledger_transaction-Posted fees shop distinct

-- A day of the shop: a webhook comes while the provider answers a creation.
abbrev business : Calls
business = then (creation order (then (delivery "mock" "payment.captured" "{...}" "s") none_left)) (
    then (capture "id") (
      then (refund "id" (pos 400)) (
        then (posting fees) (
          then (cancellation "id" none_left) (
            then (redelivery "mock" "payment.captured" "{...}")
              (then (batch "mock" (pos 0)) none_left))))))

serve_all-kept_example :
    let t = (serve_all outside business shop).tables in
    IsConsistent t
    × DistinctIds t.accounts
    × (net t.accounts ≡ net accounts)
    × ((key : String) → HasEvent key shop.tables → HasEvent key t)
serve_all-kept_example = serve_all-kept outside business shop distinct empty-IsConsistent

abbrev notified : World
notified = record shop {
  tables = (ingest_once outside "mock" "payment.captured" "{...}" shop).1.tables;
}

ingest_once-again_example :
    ingest_once outside "mock" "payment.captured" "{...}" notified
    ≡ (ok tt, record notified { tick = 1 })
ingest_once-again_example =
    ingest_once-again outside "mock" "payment.captured" "{...}" shop notified distinct (λ n. refl)
      webhook-is_accepted refl refl

-- What the batch of the first day of 1970 returns.
abbrev first_day : ReconciliationRecord
first_day = record {
  id = "id";
  reconciliation_date = pos 0;
  psp = "mock";
  total_payments = 1;
  total_amount = pos 1000;
  internal_record_count = 1;
  matched_count = 1;
  discrepancy_count = 0;
  status = completed;
  created_at = pos 1_700_000_000_000_000_000;
  completed_at = some (pos 1_700_000_000_000_000_000);
}

first_day-returned : (run_batch_reconciliation "mock" (pos 0) busy_shop).0 ≡ ok first_day
unfolding run_batch_reconciliation run_with compare_and_finish internal_records compare_all
    compare_record normalize_psp_status insert_record finalize get_reconciliation_record
    Router.get_adapter add64 wrap64 ◌+ℤ◌
first_day-returned = refl

run_batch_reconciliation-counts_example :
    let rs = internal_records "mock" (pos 0) busy_shop.tables in
    (completed ≡ completed)
    × (1 ≡ length rs)
    × (1 + 0 ≡ length rs)
    × (residue (pos 1000) % 18446744073709551616 ≡ total_residue rs % 18446744073709551616)
run_batch_reconciliation-counts_example =
    run_batch_reconciliation-counts "mock" (pos 0) busy_shop first_day first_day-returned

run_batch_reconciliation-agreed_example :
    (a : PspAdapter) × (Router.get_adapter "mock" busy_shop.router ≡ some a)
    × All (Agrees a "mock") (internal_records "mock" (pos 0) busy_shop.tables)
run_batch_reconciliation-agreed_example =
    run_batch_reconciliation-agreed "mock" (pos 0) busy_shop first_day first_day-returned refl

-- The payment before its capture.
abbrev open_shop : World
open_shop = record shop {
  tables = record shop.tables {
    payments = record payment { status = authorized; total_refunded = pos 0 } ∷ [];
  };
}

registered : Router.get_adapter "mock" open_shop.router ≡ some mock
unfolding Router.get_adapter
registered = refl

capture_in_tx-succeeds_example : (capture_in_tx "p1" open_shop).0 ≡ ok tt
capture_in_tx-succeeds_example =
    capture_in_tx-succeeds "p1" open_shop
      (record payment { status = authorized; total_refunded = pos 0 }) "psp_1" mock refl refl refl
      registered (λ n. refl) (λ n. refl) refl

serve_all-onward_example :
    (q : Payment) × (find_payment "p1" (serve_all outside business busy_shop).tables ≡ some q)
    × SameTerms payment q
    × Reach captured q.status
    × ((is_terminal captured ≡ false) ⊎ (q.status ≡ captured))
serve_all-onward_example = serve_all-onward outside business busy_shop "p1" payment distinct refl
