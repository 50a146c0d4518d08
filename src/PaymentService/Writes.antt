-- ===== src/PaymentService/Writes.antt =====
-- What the writes of internal/service/payment.go to the database keep: the audit trail, the balance
-- sheet, and the events that have been received.
use resilient_settlement_orc.Base.{String, true, ◌≡◌, refl, sym, subst, none, arith}
use resilient_settlement_orc.Base.Int.{ℤ}
use resilient_settlement_orc.Base.Int64.{add64}
use resilient_settlement_orc.Payment.Status.{
  PaymentStatus, authorized, captured, validate_transition,
}
use resilient_settlement_orc.Store.Rows.{Payment, Reason}
use resilient_settlement_orc.Store.Tables.{Tables}
use resilient_settlement_orc.Store.History.{IsChange, SameTerms}
use resilient_settlement_orc.Ledger.Sound.{Sound, Sound-eq, Sound-change, Sound-create}
use resilient_settlement_orc.Store.Action.{Result, World, ok, err}
use resilient_settlement_orc.PaymentService.{is_refundable}
use resilient_settlement_orc.PaymentService.Creation.{CreatePaymentRequest}
use resilient_settlement_orc.PaymentService.Capture.{Captured, change_row}
use resilient_settlement_orc.PaymentService.Refund.{Refunded, refund_change, status_after}
use resilient_settlement_orc.PaymentService.State.{StateChanged, state_change, Inserted}

Sound-to : {s t u : Tables} → u ≡ t → Sound s t → Sound s u
Sound-to {s} e k = subst (λ x. Sound s x) (sym e) k

capture_IsChange :
    (id row : String) (reason : Reason) (trigger : String) (time : ℤ)
    → IsChange id authorized captured
        (λ q. record q { status = captured; updated_at = time })
        (change_row row id authorized captured reason trigger time)
unfolding validate_transition
capture_IsChange id row reason trigger time = record {
  keeps_id = λ p. refl;
  keeps_terms = λ p. (refl, refl, refl, refl, refl);
  sets = λ p e. refl;
  of_payment = refl;
  row_from = refl;
  row_to = refl;
  legal = refl;
}

pub capture_in_tx-Sound :
    (id : String) (w : World) (x : Result (Unit {0}) × World)
    → Captured id w x
    → Sound w.tables x.1.tables
capture_in_tx-Sound id w (err e, v) same = Sound-eq same
capture_in_tx-Sound id w (ok tt, v) (p, pid, a, time, row, found, auth, f, g, accepted, c, same) =
    Sound-to same (
      Sound-change id authorized captured _ _ w.tables p (capture_IsChange id row _ _ time) found
        auth)

refund_legal :
    (s : PaymentStatus) (amount total : ℤ)
    → is_refundable s ≡ true
    → validate_transition s (status_after amount total) ≡ none
unfolding validate_transition
refund_legal s amount total h = ground arith

pub refund_in_tx-Sound :
    (id : String) (amount : ℤ) (w : World) (x : Result (PaymentStatus × PaymentStatus) × World)
    → Refunded id amount w x
    → Sound w.tables x.1.tables
refund_in_tx-Sound id amount w (err e, v) same = Sound-eq same
refund_in_tx-Sound id amount w (ok c, v)
      (p, pid, a, time, row, found, able, f, enough, g, accepted, calls, same, from, to) =
    let total = add64 p.total_refunded amount in
    Sound-to same (
      Sound-change id p.status (status_after p.amount total) (refund_change p amount time) _
        w.tables p
        (record {
          keeps_id = λ q. refl;
          keeps_terms = λ q. (refl, refl, refl, refl, refl);
          sets = λ q e. refl;
          of_payment = refl;
          row_from = refl;
          row_to = refl;
          legal = refund_legal p.status p.amount total able;
        })
        found refl)

state_change-id :
    (from to : PaymentStatus) (pid : String) (time : ℤ) (p : Payment)
    → (state_change from to pid time p).id ≡ p.id
state_change-id from to pid time p = ground arith

state_change-terms :
    (from to : PaymentStatus) (pid : String) (time : ℤ) (p : Payment)
    → SameTerms p (state_change from to pid time p)
state_change-terms from to pid time p =
    (ground arith, ground arith, ground arith, ground arith, ground arith)

state_change-status :
    (from to : PaymentStatus) (pid : String) (time : ℤ) (p : Payment)
    → p.status ≡ from
    → (state_change from to pid time p).status ≡ to
state_change-status from to pid time p e = ground arith

pub state-Sound :
    (id : String) (from to : PaymentStatus) (pid : String) (reason : Reason) (trigger : String)
    (w : World) (x : Result (Unit {0}) × World)
    → StateChanged id from to pid reason trigger w x
    → Sound w.tables x.1.tables
state-Sound id from to pid reason trigger w (err e, v) same = Sound-eq same
state-Sound id from to pid reason trigger w (ok tt, v) (p, time, row, found, was, legal, same) =
    Sound-to same (
      Sound-change id from to (state_change from to pid time) _ w.tables p
        (record {
          keeps_id = state_change-id from to pid time;
          keeps_terms = state_change-terms from to pid time;
          sets = state_change-status from to pid time;
          of_payment = refl;
          row_from = refl;
          row_to = refl;
          legal = legal;
        })
        found was)

pub Inserted-Sound :
    (id : String) (req : CreatePaymentRequest) (psp : String) (time : ℤ) (w : World)
    (x : Result (Unit {0}) × World)
    → Inserted id req psp time w x
    → Sound w.tables x.1.tables
Inserted-Sound id req psp time w (err e, v) same = Sound-eq same
Inserted-Sound id req psp time w (ok tt, v) (row, fresh, same) =
    Sound-to same (Sound-create w.tables _ _ fresh refl refl refl refl)
