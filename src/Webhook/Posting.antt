-- ===== src/Webhook/Posting.antt =====
-- The steps the handlers of webhook events share (internal/service/webhook.go): a change of status
-- with its row of the trail, and a pair of ledger entries.
use resilient_settlement_orc.Base.{◌+◌, ◌%◌, String, ◌≡◌, refl, none, some, arith}
use resilient_settlement_orc.Base.Int.{ℤ, pos}
use resilient_settlement_orc.Base.Int64.{residue-lt}
use resilient_settlement_orc.Payment.Status.{PaymentStatus, validate_transition}
use resilient_settlement_orc.Store.Rows.{Payment, Reason, posted, LedgerTransaction}
use resilient_settlement_orc.Store.Tables.{
  find_payment, apply_change, update_payment, insert_transition,
}
use resilient_settlement_orc.Store.Action.{database, ok, World, exec}
use resilient_settlement_orc.PaymentService.{record_change}
use resilient_settlement_orc.PaymentService.Capture.{change_row}
use resilient_settlement_orc.Ledger.{insert_ledger_transaction}
use resilient_settlement_orc.Ledger.Balance.{moved, DistinctIds}
use resilient_settlement_orc.Ledger.Moves.{Moves, Moves-none, continue-Moves, post_entry-Moves}
use resilient_settlement_orc.Ledger.Sound.{Sound, Sound-eq, Sound-trans, Sound-change, Sound-Moves}
use resilient_settlement_orc.Webhook.{post_entry_in_tx, post_pair}

record_change-tables :
    (id : String) (from to : PaymentStatus) (reason : Reason) (time : ℤ) (w : World)
    → (record_change id from to (λ q. q) reason "webhook" time w).0 ≡ ok tt
    → (record_change id from to (λ q. q) reason "webhook" time w).1.tables
      ≡ apply_change id
          (λ p. record p { status = to; updated_at = time })
          (change_row (w.env.uuid (w.tick + 1)) id from to reason "webhook" time)
          w.tables
unfolding record_change update_payment insert_transition
record_change-tables id from to reason time w h = ground arith

pub record_change-Sound :
    (id : String) (p : Payment) (to : PaymentStatus) (reason : Reason) (time : ℤ) (w : World)
    (a : Unit {0})
    → find_payment id w.tables ≡ some p
    → validate_transition p.status to ≡ none
    → (record_change id p.status to (λ q. q) reason "webhook" time w).0 ≡ ok a
    → Sound w.tables (record_change id p.status to (λ q. q) reason "webhook" time w).1.tables
record_change-Sound id p to reason time w tt found legal h =
    Sound-trans
      (Sound-change id p.status to _ _ w.tables p
        (record {
          keeps_id = λ q. refl;
          keeps_terms = λ q. (refl, refl, refl, refl, refl);
          sets = λ q e. refl;
          of_payment = refl;
          row_from = refl;
          row_to = refl;
          legal = legal;
        })
        found refl)
      (Sound-eq (record_change-tables id p.status to reason time w h))

opposite :
    (amount : ℤ) → (0 + (moved amount (pos 0) + moved (pos 0) amount)) % 18446744073709551616 ≡ 0
unfolding moved
opposite amount = omega (arith, residue-lt amount)

post_entry_in_tx-Moves :
    (tx_id code : String) (debit credit : ℤ) (ref_id desc : String) (time : ℤ) (w : World)
    → DistinctIds w.tables.accounts
    → (post_entry_in_tx tx_id code debit credit ref_id desc time w).0 ≡ ok tt
    → Moves w.tables
        (post_entry_in_tx tx_id code debit credit ref_id desc time w).1.tables
        (moved debit credit)
unfolding post_entry_in_tx
post_entry_in_tx-Moves tx_id code debit credit ref_id desc time w d h =
    post_entry-Moves database tx_id _ time w d h

header-Moves :
    (t : LedgerTransaction) (w : World)
    → DistinctIds w.tables.accounts
    → (exec (insert_ledger_transaction t) w).0 ≡ ok tt
    → Moves w.tables (exec (insert_ledger_transaction t) w).1.tables 0
unfolding insert_ledger_transaction
header-Moves t w d h =
    Moves-none w.tables (exec (insert_ledger_transaction t) w).1.tables (ground arith)
      (ground arith) (ground arith) (ground arith) d

post_pair-Moves :
    (id type dcode ccode : String) (amount : ℤ) (desc : String) (time : ℤ) (w : World)
    → DistinctIds w.tables.accounts
    → (post_pair id type dcode ccode amount desc time w).0 ≡ ok tt
    → Moves w.tables
        (post_pair id type dcode ccode amount desc time w).1.tables
        (0 + (moved amount (pos 0) + moved (pos 0) amount))
unfolding post_pair
post_pair-Moves id type dcode ccode amount desc time w d h =
    let tx_id = w.env.uuid w.tick in
    let row : LedgerTransaction = record {
      id = tx_id;
      payment_id = some id;
      transaction_type = type;
      status = posted;
      created_at = time;
      posted_at = time;
    } in
    let started : World = record w { tick = w.tick + 1 } in
    continue-Moves w.tables (exec (insert_ledger_transaction row) started) _ tt 0
      (moved amount (pos 0) + moved (pos 0) amount) (λ first. header-Moves row started d first)
      (λ v dv hv.
        continue-Moves v.tables (post_entry_in_tx tx_id dcode amount (pos 0) id desc time v) _ tt
          (moved amount (pos 0)) (moved (pos 0) amount)
          (λ first. post_entry_in_tx-Moves tx_id dcode amount (pos 0) id desc time v dv first)
          (λ u du hu. post_entry_in_tx-Moves tx_id ccode (pos 0) amount id desc time u du hu) hv)
      h

pub post_pair-Sound :
    (id type dcode ccode : String) (amount : ℤ) (desc : String) (time : ℤ) (w : World)
    (a : Unit {0})
    → (post_pair id type dcode ccode amount desc time w).0 ≡ ok a
    → Sound w.tables (post_pair id type dcode ccode amount desc time w).1.tables
post_pair-Sound id type dcode ccode amount desc time w tt h =
    Sound-Moves w.tables _ (0 + (moved amount (pos 0) + moved (pos 0) amount)) (opposite amount)
      (λ d. post_pair-Moves id type dcode ccode amount desc time w d h)
