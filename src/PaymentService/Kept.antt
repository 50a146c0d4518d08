-- ===== src/PaymentService/Kept.antt =====
-- What the methods of internal/service/payment.go keep: the audit trail, the balance sheet, and the
-- events that have been received.
use resilient_settlement_orc.Base.{
  ◌+◌, String, Bool, true, false, not, ◌≡◌, refl, ◌∙◌, Option, none, some, arith, if◌then◌else◌,
}
use resilient_settlement_orc.Base.Int.{ℤ}
use resilient_settlement_orc.Payment.Status.{
  PaymentStatus, created, authorized, cancelled, failed, status_eq,
}
use resilient_settlement_orc.Router
use resilient_settlement_orc.Router.{RoutingDecision}
use resilient_settlement_orc.Store.Rows.{Reason, text, error_text}
use resilient_settlement_orc.Ledger.Sound.{Sound, Sound-refl, Sound-eq, Sound-trans, always-Sound}
use resilient_settlement_orc.Store.Action.{
  Error, World, or_raise, publish, publish-tables, PaymentEvent, transaction, PspAdapter,
  PspPaymentRequest, raise_if, not_authorized, unknown_psp, database, call_psp, cancel_call,
  psp_retries,
}
use resilient_settlement_orc.PaymentService.{
  get_payment, update_payment_state, capture_in_tx, capture_payment, refund_in_tx, refund_payment,
  cancel_payment,
}
use resilient_settlement_orc.PaymentService.Creation.{
  insert_body, CreatePaymentRequest, create_payment, select_psp, create_at_psp, record_outcome,
  succeeded,
}
use resilient_settlement_orc.PaymentService.Capture.{capture_in_tx-Captured}
use resilient_settlement_orc.PaymentService.Refund.{refund_in_tx-Refunded}
use resilient_settlement_orc.PaymentService.State.{
  update_payment_state-StateChanged, Inserted-by_result,
}
use resilient_settlement_orc.PaymentService.Writes.{
  capture_in_tx-Sound, refund_in_tx-Sound, state-Sound, Inserted-Sound,
}

get_payment-tables : (id : String) (w : World) → (get_payment id w).1.tables ≡ w.tables
unfolding get_payment
get_payment-tables id w = ground arith

publish_and_get :
    (e : PaymentEvent) (id : String) (v : World)
    → Sound v.tables (get_payment id (publish e v).1).1.tables
publish_and_get e id v = Sound-eq (get_payment-tables id (publish e v).1 ∙ publish-tables e v)

pub capture_payment-Sound :
    (id : String) (w : World) → Sound w.tables (capture_payment id w).1.tables
unfolding capture_payment
capture_payment-Sound id w =
    always-Sound w.tables (capture_in_tx id w) _
      (capture_in_tx-Sound id w (capture_in_tx id w) (capture_in_tx-Captured id w))
      λ a v. publish_and_get _ id v

pub refund_payment-Sound :
    (id : String) (amount : ℤ) (w : World) → Sound w.tables (refund_payment id amount w).1.tables
unfolding refund_payment
refund_payment-Sound id amount w =
    always-Sound w.tables (refund_in_tx id amount w) _
      (refund_in_tx-Sound id amount w (refund_in_tx id amount w)
        (refund_in_tx-Refunded id amount w))
      λ a v. publish_and_get _ id v

update_payment_state-Sound :
    (id : String) (from to : PaymentStatus) (pid : String) (reason : Reason) (trigger : String)
    (w : World)
    → Sound w.tables (update_payment_state id from to pid reason trigger w).1.tables
update_payment_state-Sound id from to pid reason trigger w =
    state-Sound id from to pid reason trigger w
      (update_payment_state id from to pid reason trigger w)
      (update_payment_state-StateChanged id from to pid reason trigger w)

-- What other requests do is sound.
abbrev pub Keeps : (World → World) → Type 0
Keeps others = (w : World) → Sound w.tables (others w).tables

or_raise-tables :
    {A : Type 0} (o : Option A) (e : Error) (w : World) → (or_raise o e w).1.tables ≡ w.tables
or_raise-tables none e w = refl
or_raise-tables (some a) e w = refl

pub cancel_payment-Sound :
    (others : World → World) (id : String) (w : World)
    → Keeps others
    → Sound w.tables (cancel_payment others id w).1.tables
unfolding cancel_payment
cancel_payment-Sound others id w safe =
    always-Sound w.tables (get_payment id w) _ (Sound-eq (get_payment-tables id w)) λ r v.
      always-Sound v.tables
        (raise_if (not (status_eq r.payment.status authorized)) not_authorized v) _
        (Sound-refl v.tables)
        λ _ v.
          always-Sound v.tables (or_raise (Router.get_adapter r.payment.psp v.router) unknown_psp v)
            _ (Sound-eq (or_raise-tables _ _ v))
            λ adapter v.
              always-Sound v.tables (or_raise r.payment.psp_payment_id database v) _
                (Sound-eq (or_raise-tables r.payment.psp_payment_id _ v))
                λ pid v.
                  always-Sound v.tables
                    (call_psp (cancel_call r.payment.psp pid) (λ n. adapter.cancel_payment n pid) v)
                    _ (Sound-refl v.tables)
                    λ _ v.
                      always-Sound v.tables
                        (update_payment_state id r.payment.status cancelled pid
                          (text "Payment cancelled via API") "api" (others v))
                        _
                        (Sound-trans (safe v) (
                          update_payment_state-Sound id r.payment.status cancelled pid _ _
                            (others v)))
                        λ _ v. Sound-eq (get_payment-tables id v)

select_psp-tables :
    (req : CreatePaymentRequest) (w : World) → (select_psp req w).1.tables ≡ w.tables
unfolding select_psp
select_psp-tables req w = or_raise-tables _ _ _

create_at_psp-tables :
    (d : RoutingDecision) (a : PspAdapter) (req : PspPaymentRequest) (w : World)
    → (create_at_psp d a req w).1.tables ≡ w.tables
unfolding create_at_psp
create_at_psp-tables d a req w = refl

record_outcome-tables :
    (psp : String) (good : Bool) (w : World) → (record_outcome psp good w).1.tables ≡ w.tables
unfolding record_outcome
record_outcome-tables psp true w = refl
record_outcome-tables psp false w = refl

pub create_payment-Sound :
    (others : World → World) (req : CreatePaymentRequest) (w : World)
    → Keeps others
    → Sound w.tables (create_payment others req w).1.tables
unfolding create_payment
create_payment-Sound others req w safe =
    always-Sound w.tables (select_psp req (record w { tick = w.tick + 1 })) _
      (Sound-eq (select_psp-tables req _))
      λ chosen v.
        let id = w.env.uuid w.tick in
        let time = w.env.clock (w.tick + 1) in
        let body = insert_body id req chosen.0.selected_psp time in
        always-Sound v.tables (transaction body v) _
          (Inserted-Sound id req _ time v (transaction body v)
            (Inserted-by_result id req _ time v (transaction body v).0 refl))
          λ _ v.
            always-Sound v.tables (create_at_psp chosen.0 chosen.1 _ v) _
              (Sound-eq (create_at_psp-tables chosen.0 chosen.1 _ v))
              λ outcome v.
                always-Sound v.tables (record_outcome chosen.0.selected_psp _ (others v)) _
                  (Sound-trans (safe v)
                    (Sound-eq (record_outcome-tables chosen.0.selected_psp _ (others v))))
                  λ _ v.
                    let good = succeeded outcome.0 in
                    always-Sound v.tables
                      (update_payment_state id created (if good then authorized else failed)
                        (if good then outcome.1 else "")
                        (if good then text "PSP authorization successful" else error_text) "system"
                        v)
                      _
                      (update_payment_state-Sound id created (if good then authorized else failed)
                        (if good then outcome.1 else "")
                        (if good then text "PSP authorization successful" else error_text) "system"
                        v)
                      λ _ v.
                        always-Sound v.tables (raise_if (not good) (psp_retries outcome.0) v) _
                          (Sound-refl v.tables) λ _ v. Sound-eq (get_payment-tables id v)
