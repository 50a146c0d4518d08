-- ===== src/PaymentService/Creation.antt =====
-- `CreatePayment` of internal/service/payment.go. What other requests do while it talks to a
-- provider is an argument, `others`.
use Prim.Native.String.{◌++◌ as ◌+++◌}
use resilient_settlement_orc.Base.{
  ℕ, ◌+◌, ◌-◌, String, Bool, true, false, not, Option, none, some, [], if◌then◌else◌, ◌++◌,
  replicate,
}
use resilient_settlement_orc.Base.Int.{ℤ, pos}
use resilient_settlement_orc.Payment.Status.{created, authorized, failed}
use resilient_settlement_orc.Retry
use resilient_settlement_orc.Router
use resilient_settlement_orc.Router.{RoutingDecision, RouteRequest}
use resilient_settlement_orc.Store.Rows.{Payment, text, error_text}
use resilient_settlement_orc.Store.Tables.{insert_payment, insert_transition}
use resilient_settlement_orc.Store.Action.{
  unavailable, psp_retries, Reply, answer, failure, PspPaymentRequest, PspAdapter, create_call,
  World, ok, Action, pure, or_raise, ◌>>=◌, ◌>>◌, raise_if, now, new_id, exec, End, commit,
  transaction,
}
use resilient_settlement_orc.PaymentService.{
  PaymentResponse, get_payment, update_payment_state, interfere,
}

-- What `CreatePayment` reads of its request.
pub record CreatePaymentRequest : Type 0 where
  pub merchant_id : String
  pub order_id : String
  pub amount : ℤ
  pub currency : String
  pub customer_email : String
  pub customer_name : String
  pub customer_phone : String
  pub preferred_psp : Option String

abbrev pub route_request : CreatePaymentRequest → RouteRequest
route_request req = record {
  amount = req.amount;
  currency = req.currency;
  preferred_psp = req.preferred_psp;
}

-- `s.router.Route`
unfoldable pub select_psp : CreatePaymentRequest → Action (RoutingDecision × PspAdapter)
select_psp req w =
    let (router, chosen) =
      Router.route (w.env.clock w.tick) (w.env.visit_order w.tick) (route_request req) w.router in
    or_raise chosen unavailable (record w { router = router; tick = w.tick + 1 })

-- The row of a new payment, and its first transition.
abbrev pub new_payment : String → CreatePaymentRequest → String → ℤ → Payment
new_payment id req psp_name time = record {
  id = id;
  merchant_id = req.merchant_id;
  order_id = req.order_id;
  amount = req.amount;
  currency = req.currency;
  status = created;
  psp = psp_name;
  psp_payment_id = none;
  customer_email = req.customer_email;
  customer_name = req.customer_name;
  customer_phone = req.customer_phone;
  total_refunded = pos 0;
  created_at = time;
  updated_at = time;
}

unfoldable pub insert_body : String → CreatePaymentRequest → String → ℤ → Action (End (Unit {0}))
insert_body id req psp_name time = do
  exec (insert_payment (new_payment id req psp_name time))
  row ← new_id
  exec (
      insert_transition (record {
        id = row;
        payment_id = id;
        from_status = none;
        to_status = created;
        reason = text "Payment initialized";
        triggered_by = "system";
        created_at = time;
      }))
  pure (commit tt)

abbrev reply_error : Reply String → Option Retry.GoError
reply_error (answer pid) = none
reply_error (failure e) = some e

abbrev reply_id : Reply String → String
reply_id (answer pid) = pid
reply_id (failure e) = ""

-- `cfg.MaxAttempts` of `retry.DefaultConfig`
abbrev pub default_attempts : ℤ
default_attempts = pos 3

-- The calls of the provider under `retry.Do`: how they ended, and the identifier of the last reply.
unfoldable pub create_at_psp :
    RoutingDecision → PspAdapter → PspPaymentRequest → Action (Retry.Result × String)
create_at_psp d adapter req w =
    let reply = λ (n : ℕ). adapter.create_payment (w.tick + n) req in
    let (made, result) =
      Retry.do_
        (record { call = λ n. reply_error (reply n); done = λ n. w.env.ctx_done (w.tick + n) })
        default_attempts in
    (
      ok (result, reply_id (reply (made - 1))),
      record w {
        tick = w.tick + made;
        psp_calls = replicate made (create_call d.selected_psp req.amount) ++ w.psp_calls;
      },
    )

abbrev pub succeeded : Retry.Result → Bool
succeeded Retry.success = true
succeeded _ = false

-- The outcome after all retries goes to the circuit breaker.
unfoldable pub record_outcome : String → Bool → Action (Unit {0})
record_outcome psp_name true w =
    (ok tt, record w { router = Router.record_success psp_name w.router })
record_outcome psp_name false w =
    let t = w.env.clock w.tick in
    (ok tt, record w { router = Router.record_failure t t psp_name w.router })

-- `CreatePayment`
unfoldable pub create_payment : (World → World) → CreatePaymentRequest → Action PaymentResponse
create_payment others req = do
  id ← new_id
  time ← now
  chosen ← select_psp req
  transaction (insert_body id req chosen.0.selected_psp time)
  outcome ← create_at_psp chosen.0 chosen.1 (record {
    amount = req.amount;
    currency = req.currency;
    description = "Order " +++ req.order_id;
    order_id = req.order_id;
    customer_email = req.customer_email;
    metadata = [];
  })
  interfere others
  let good = succeeded outcome.0
  record_outcome chosen.0.selected_psp good
  update_payment_state id created (if good then authorized else failed)
      (if good then outcome.1 else "")
      (if good then text "PSP authorization successful" else error_text) "system"
  raise_if (not good) (psp_retries outcome.0)
  get_payment id
