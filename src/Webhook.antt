-- ===== src/Webhook.antt =====
-- internal/service/webhook.go: the extraction of fields, the checks of age, and the three handlers of
-- events; their reception is in the child Reception.
-- `encoding/json`, the SHA-1 UUID of the payload and `time.Parse` are parameters (`Outside`).
-- Tracing and log lines are left out.
pub mod Reception
pub mod Json
pub mod Posting
pub mod Processing
pub mod Delivery
use Prim.Native.String.{◌++◌}
use resilient_settlement_orc.Base.{
  ℕ, ◌+◌, ◌*◌, String, Bool, true, false, not, ◌&&◌, ◌||◌, Option, none, some, List, [], ◌∷◌,
  is_some, if◌then◌else◌, str_eq,
}
use resilient_settlement_orc.Base.Int.{ℤ, pos, negsuc, ltb_ℤ, leb_ℤ, eqb_ℤ, ◌-ℤ◌}
use resilient_settlement_orc.CircuitBreaker.{since, zero_time}
use resilient_settlement_orc.Payment.Status.{
  PaymentStatus, captured, failed, refunded, partially_refunded, status_eq, is_terminal,
  validate_transition,
}
use resilient_settlement_orc.Retry.{GoError}
use resilient_settlement_orc.Router
use resilient_settlement_orc.Store.Rows
use resilient_settlement_orc.Store.Rows.{Payment, Reason, text, posted, WebhookEvent, WebhookStatus}
use resilient_settlement_orc.Store.Tables.{Tables, find_by, update_by, find_payment}
use resilient_settlement_orc.Store.Action.{
  Error, database, unknown_psp, no_internal_id, bad_refund, bad_payload, stale_webhook, psp_error,
  Result, ok, err, World, Action, pure, raise, gets, or_raise, ◌>>=◌, ◌>>◌, raise_if, raise_some,
  now, new_id, query, exec, End, commit, rollback, transaction,
}
use resilient_settlement_orc.PaymentService.{record_change, transition_error}
use resilient_settlement_orc.Ledger.{EntryLine, post_entry, insert_ledger_transaction, nil_if_empty}
use Json.{Fields, field_string, field_number, field_object, string_or_empty}

-- What the service takes from libraries: the parser of JSON objects, the UUID that is made of a
-- payload, the parser of RFC 3339 times, which gives nanoseconds, and which texts PostgreSQL
-- stores in a column of type JSONB (not those that are no JSON, nor those with an escaped NUL).
pub record Outside : Type 0 where
  pub parse : String → Option Fields
  pub payload_uuid : String → String
  pub parse_time : String → Option ℤ
  pub is_jsonb : String → Bool

-- The well-known accounts that webhooks post to.
abbrev pub psp_settlement : String
psp_settlement = "PSP_SETTLEMENT"

abbrev pub merchant_payable : String
merchant_payable = "MERCHANT_PAY"

abbrev pub refund_expense : String
refund_expense = "REFUND_EXP"

-- `postEntryInTx`
unfoldable pub post_entry_in_tx : String → String → ℤ → ℤ → String → String → ℤ → Action (Unit {0})
post_entry_in_tx tx_id code debit credit ref_id desc time =
    post_entry database tx_id
      (record {
        account_code = code;
        debit = debit;
        credit = credit;
        description = desc;
        reference_id = ref_id;
      })
      time

-- A ledger transaction of two entries, a debit and a credit of the same amount.
unfoldable pub post_pair : String → String → String → String → ℤ → String → ℤ → Action (Unit {0})
post_pair id type debit_code credit_code amount desc time = do
  tx_id ← new_id
  exec (
      insert_ledger_transaction (record {
        id = tx_id;
        payment_id = some id;
        transaction_type = type;
        status = posted;
        created_at = time;
        posted_at = time;
      }))
  post_entry_in_tx tx_id debit_code amount (pos 0) id desc time
  post_entry_in_tx tx_id credit_code (pos 0) amount id desc time

unfoldable pub capture_locked : String → Payment → ℤ → Action (End (Unit {0}))
capture_locked id p time = do
  raise_some (transition_error (validate_transition p.status captured))
  record_change id p.status captured (λ q. q) (text "Capture confirmed by PSP webhook") "webhook"
      time
  post_pair id "payment_capture" psp_settlement merchant_payable p.amount "Payment captured" time
  pure (commit tt)

unfoldable pub capture_body : String → Action (End (Unit {0}))
capture_body id = do
  time ← now
  p ← or_raise (← query (find_payment id)) database
  if status_eq p.status captured then pure (rollback tt) else capture_locked id p time

-- `processCaptureWebhook`
unfoldable pub process_capture_webhook : String → Action (Unit {0})
process_capture_webhook id =
    if str_eq id "" then raise no_internal_id else transaction (capture_body id)

unfoldable pub failure_locked : String → Payment → ℤ → Action (End (Unit {0}))
failure_locked id p time = do
  raise_some (transition_error (validate_transition p.status failed))
  record_change id p.status failed (λ q. q) (text "Payment failed per PSP webhook") "webhook" time
  pure (commit tt)

unfoldable pub failure_body : String → Action (End (Unit {0}))
failure_body id = do
  time ← now
  p ← or_raise (← query (find_payment id)) database
  if is_terminal p.status then pure (rollback tt) else failure_locked id p time

-- `processFailureWebhook`
unfoldable pub process_failure_webhook : String → Action (Unit {0})
process_failure_webhook id = if str_eq id "" then pure tt else transaction (failure_body id)

-- The status is chosen by the webhook's own amount alone.
abbrev pub refund_status : ℤ → ℤ → PaymentStatus
refund_status refund total = if ltb_ℤ refund total then partially_refunded else refunded

unfoldable pub refund_locked : String → Payment → ℤ → ℤ → Action (End (Unit {0}))
refund_locked id p amount time = do
  let to = refund_status amount p.amount
  raise_some (transition_error (validate_transition p.status to))
  record_change id p.status to (λ q. q) (text "Refund confirmed by PSP webhook") "webhook" time
  post_pair id "refund" merchant_payable refund_expense amount "Refund processed" time
  pure (commit tt)

unfoldable pub refund_body : String → ℤ → Action (End (Unit {0}))
refund_body id amount = do
  time ← now
  p ← or_raise (← query (find_payment id)) database
  refund_locked id p amount time

-- `extractPSPPaymentID`
abbrev payment_id_in : String → Fields → String
payment_id_in psp data_ =
    if str_eq psp "stripe"
    then string_or_empty
        (field_string "id" (field_object "object" (field_object "data" (some data_))))
    else if str_eq psp "razorpay"
    then string_or_empty (
        field_string "id"
          (field_object "entity" (field_object "payment" (field_object "payload" (some data_)))))
    else if str_eq psp "mock"
    then string_or_empty (field_string "payment_id" (some data_))
    else ""

abbrev or_zero : Option ℤ → ℤ
or_zero none = pos 0
or_zero (some n) = n

abbrev first_of_two : Option ℤ → Option ℤ → Option ℤ
first_of_two (some n) m = some n
first_of_two none m = m

-- `extractRefundAmount`: the formats of Stripe, Razorpay and the mock, in this order.
unfoldable pub extract_refund_amount : Fields → ℤ
extract_refund_amount data_ = or_zero (
    first_of_two (field_number "amount" (field_object "object" (field_object "data" (some data_))))
      (first_of_two
        (field_number "amount"
          (field_object "entity" (field_object "refund" (field_object "payload" (some data_)))))
        (field_number "amount" (some data_))))

module _ (outside : Outside) where
  abbrev payment_id_of : String → Option Fields → String
  payment_id_of psp none = ""
  payment_id_of psp (some data_) = payment_id_in psp data_

  unfoldable pub extract_psp_payment_id : String → String → String
  extract_psp_payment_id psp payload = payment_id_of psp (outside.parse payload)

  -- `processRefundWebhook`
  unfoldable pub process_refund_webhook : String → String → Action (Unit {0})
  process_refund_webhook id payload = if str_eq id "" then pure tt else do
    parsed ← or_raise (outside.parse payload) bad_payload
    raise_if (leb_ℤ (extract_refund_amount parsed) (pos 0)) bad_refund
    transaction (refund_body id (extract_refund_amount parsed))

  -- Nanoseconds of a number of seconds.
  abbrev of_seconds : ℤ → ℤ
  of_seconds (pos n) = pos (n * 1_000_000_000)
  of_seconds (negsuc n) = negsuc (n * 1_000_000_000 + 999_999_999)

  abbrev positive_time : Option ℤ → ℤ
  positive_time none = zero_time
  positive_time (some n) = if ltb_ℤ (pos 0) n then of_seconds n else zero_time

  abbrev or_time : ℤ → ℤ → ℤ
  or_time t u = if eqb_ℤ t zero_time then u else t

  abbrev parsed_time : Option ℤ → ℤ
  parsed_time none = zero_time
  parsed_time (some t) = t

  abbrev text_time : Option String → ℤ
  text_time none = zero_time
  text_time (some s) = if str_eq s "" then zero_time else parsed_time (outside.parse_time s)

  -- The three formats of the time of an event; the zero time is none.
  unfoldable pub event_time : Fields → ℤ
  event_time data_ = or_time (positive_time (field_number "created" (some data_))) (
      or_time (positive_time (field_number "created_at" (some data_)))
        (text_time (field_string "timestamp" (some data_))))

  abbrev pub max_age : ℤ
  max_age = pos 300_000_000_000

  abbrev pub max_ahead : ℤ
  max_ahead = negsuc 59_999_999_999

  abbrev fresh_at : ℤ → ℤ → Bool
  fresh_at time event =
      if eqb_ℤ event zero_time
      then true
      else if ltb_ℤ max_age (since time event)
      then false
      else if ltb_ℤ (since time event) max_ahead
      then false
      else true

  abbrev fresh_fields : ℤ → Option Fields → Bool
  fresh_fields time none = true
  fresh_fields time (some data_) = fresh_at time (event_time data_)

  -- `validateWebhookFreshness`, at an instant
  unfoldable pub is_fresh : ℤ → String → Bool
  unfolding event_time
  is_fresh time payload = fresh_fields time (outside.parse payload)

  -- `fmt.Sprintf("%s:%s:%s", psp, eventType, uuid)`
  unfoldable pub idempotency_key : String → String → String → String
  idempotency_key psp event_type payload =
      psp ++ (":" ++ (event_type ++ (":" ++ outside.payload_uuid payload)))
