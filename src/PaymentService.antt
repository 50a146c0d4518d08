-- ===== src/PaymentService.antt =====
-- internal/service/payment.go, method by method; `CreatePayment` is in the child Creation. Tracing
-- is left out. What other requests do while a method talks to a provider with no row lock held is
-- an argument, `others`.
pub mod Creation
pub mod Capture
pub mod Refund
pub mod Totals
pub mod State
pub mod Writes
pub mod Kept
use resilient_settlement_orc.Base.{
  ℕ, ◌+◌, ◌-◌, String, Bool, true, false, not, ◌&&◌, Option, none, some, List, [], ◌∷◌,
  if◌then◌else◌, str_eq, is_some,
}
use resilient_settlement_orc.Base.Int.{ℤ, pos, leb_ℤ, ltb_ℤ}
use resilient_settlement_orc.Base.Int64.{add64, sub64}
use resilient_settlement_orc.Payment.Status.{
  PaymentStatus, created, authorized, captured, failed, cancelled, refunded, partially_refunded,
  status_eq, TransitionError, validate_transition,
}
use resilient_settlement_orc.Retry
use resilient_settlement_orc.Router
use resilient_settlement_orc.Router.{RoutingDecision, RouteRequest}
use resilient_settlement_orc.Store.Rows.{
  Payment, StateTransition, Reason, text, error_text, refund_text,
}
use resilient_settlement_orc.Store.Tables.{
  Tables, find_payment, update_payment, insert_payment, insert_transition, has_status, history,
  order_by_time,
}
use resilient_settlement_orc.Store.Action.{
  Error, payment_not_found, not_authorized, over_refund, optimistic_lock, database, unavailable,
  unknown_psp, not_refundable, transition, psp_retries, Reply, answer, failure, PspPaymentRequest,
  PspAdapter, PspCall, create_call, capture_call, refund_call, cancel_call, PaymentEvent, World,
  Result, ok, err, Action, pure, gets, or_raise, ◌>>=◌, ◌>>◌, raise_if, raise_some, now, new_id,
  query, exec, End, commit, transaction, publish, fail_as, call_psp,
}

abbrev pub transition_error : Option TransitionError → Option Error
transition_error none = none
transition_error (some e) = some (transition e)

-- COALESCE(NULLIF($2, ''), psp_payment_id)
abbrev pub coalesce : String → Option String → Option String
coalesce new old = if str_eq new "" then old else some new

pub record PaymentResponse : Type 0 where
  pub payment : Payment
  pub state_transitions : List StateTransition

-- `GetPayment`. PostgreSQL refuses an identifier that is no UUID. The columns that are not selected stay empty, and a NULL `psp_payment_id` cannot
-- be scanned into a Go string.
unfoldable pub get_payment : String → Action PaymentResponse
get_payment id = do
  found ← query (find_payment id)
  readable ← gets (λ w. w.env.is_uuid id)
  raise_if (not readable) database
  p ← or_raise found payment_not_found
  pid ← or_raise p.psp_payment_id database
  rows ← query (history id)
  pure (record {
    payment = record p { customer_name = ""; customer_phone = "" };
    state_transitions = order_by_time rows;
  })

-- The transaction of `updatePaymentState`. The number of rows that the update affects is read
-- off before it.
unfoldable pub state_body :
    String → PaymentStatus → PaymentStatus → String → Reason → String → Action (End (Unit {0}))
state_body id from to psp_payment_id reason trigger = do
  time ← now
  affected ← gets (λ w. has_status from (find_payment id w.tables))
  exec (
      update_payment id (λ p.
        if status_eq p.status from
        then record p {
          status = to;
          psp_payment_id = coalesce psp_payment_id p.psp_payment_id;
          updated_at = time;
        }
        else p))
  raise_if (not affected) optimistic_lock
  row ← new_id
  exec (
      insert_transition (record {
        id = row;
        payment_id = id;
        from_status = some from;
        to_status = to;
        reason = reason;
        triggered_by = trigger;
        created_at = time;
      }))
  pure (commit tt)

unfoldable pub state_in_tx :
    String → PaymentStatus → PaymentStatus → String → Reason → String → Action (Unit {0})
state_in_tx id from to psp_payment_id reason trigger =
    transaction (state_body id from to psp_payment_id reason trigger)

-- `updatePaymentState`
unfoldable pub update_payment_state :
    String → PaymentStatus → PaymentStatus → String → Reason → String → Action (Unit {0})
update_payment_state id from to psp_payment_id reason trigger = do
  raise_some (transition_error (validate_transition from to))
  state_in_tx id from to psp_payment_id reason trigger
  publish (record { payment_id = id; from_status = from; to_status = to; triggered_by = trigger })

-- Set the status under the row lock, and record the transition.
unfoldable pub record_change :
    String
    → PaymentStatus
    → PaymentStatus
    → (Payment → Payment)
    → Reason
    → String
    → ℤ
    → Action (Unit {0})
record_change id from to change reason trigger time = do
  exec (update_payment id (λ p. record (change p) { status = to; updated_at = time }))
  row ← new_id
  exec (
      insert_transition (record {
        id = row;
        payment_id = id;
        from_status = some from;
        to_status = to;
        reason = reason;
        triggered_by = trigger;
        created_at = time;
      }))

-- The transaction of `CapturePayment`. Any error of the first query is "not found".
unfoldable pub capture_body : String → Action (End (Unit {0}))
capture_body id = do
  p ← fail_as payment_not_found (do or_raise (← query (find_payment id)) payment_not_found)
  pid ← or_raise p.psp_payment_id payment_not_found
  raise_if (not (status_eq p.status authorized)) not_authorized
  adapter ← or_raise (← gets (λ w. Router.get_adapter p.psp w.router)) unknown_psp
  call_psp (capture_call p.psp pid p.amount)
      (λ n. adapter.capture_payment n pid p.amount p.currency)
  time ← now
  record_change id authorized captured (λ q. q) (text "Payment captured via API") "api" time
  pure (commit tt)

unfoldable pub capture_in_tx : String → Action (Unit {0})
capture_in_tx id = transaction (capture_body id)

unfoldable pub capture_payment : String → Action PaymentResponse
capture_payment id = do
  capture_in_tx id
  publish (record {
    payment_id = id;
    from_status = authorized;
    to_status = captured;
    triggered_by = "api";
  })
  get_payment id

abbrev pub is_refundable : PaymentStatus → Bool
is_refundable captured = true
is_refundable partially_refunded = true
is_refundable _ = false

-- The second half of the transaction of `RefundPayment`, after the provider's call.
unfoldable pub refund_write : String → Payment → ℤ → Action (End (PaymentStatus × PaymentStatus))
refund_write id p amount = do
  let total = add64 p.total_refunded amount
  let to = if leb_ℤ p.amount total then refunded else partially_refunded
  time ← now
  record_change id p.status to (λ q. record q { total_refunded = total })
      (refund_text amount total p.amount) "api" time
  pure (commit (p.status, to))

-- The transaction of `RefundPayment`; it gives the old and the new status.
unfoldable pub refund_body : String → ℤ → Action (End (PaymentStatus × PaymentStatus))
refund_body id amount = do
  p ← fail_as payment_not_found (do or_raise (← query (find_payment id)) payment_not_found)
  pid ← or_raise p.psp_payment_id payment_not_found
  raise_if (not (is_refundable p.status)) (not_refundable p.status)
  raise_if (ltb_ℤ (sub64 p.amount p.total_refunded) amount) over_refund
  adapter ← or_raise (← gets (λ w. Router.get_adapter p.psp w.router)) unknown_psp
  call_psp (refund_call p.psp pid amount) (λ n. adapter.refund_payment n pid amount)
  refund_write id p amount

unfoldable pub refund_in_tx : String → ℤ → Action (PaymentStatus × PaymentStatus)
refund_in_tx id amount = transaction (refund_body id amount)

unfoldable pub refund_payment : String → ℤ → Action PaymentResponse
refund_payment id amount = do
  change ← refund_in_tx id amount
  publish (record {
    payment_id = id;
    from_status = change.0;
    to_status = change.1;
    triggered_by = "api";
  })
  get_payment id

abbrev pub interfere : (World → World) → Action (Unit {0})
interfere others w = (ok tt, others w)

-- `CancelPayment`; no lock is held between the check of the status and the update.
unfoldable pub cancel_payment : (World → World) → String → Action PaymentResponse
cancel_payment others id = do
  r ← get_payment id
  raise_if (not (status_eq r.payment.status authorized)) not_authorized
  adapter ← or_raise (← gets (λ w. Router.get_adapter r.payment.psp w.router)) unknown_psp
  pid ← or_raise r.payment.psp_payment_id database
  call_psp (cancel_call r.payment.psp pid) (λ n. adapter.cancel_payment n pid)
  interfere others
  update_payment_state id r.payment.status cancelled pid (text "Payment cancelled via API") "api"
  get_payment id
