-- ===== src/Adapters/Razorpay.antt =====
-- internal/adapter/razorpay.go: orders, payments and refunds of Razorpay behind the interface.
use resilient_settlement_orc.Base.{ℕ, String, Option, none, some, if◌then◌else◌}
use resilient_settlement_orc.Base.Int.{ℤ, pos, ltb_ℤ}
use resilient_settlement_orc.Retry.{GoError, wrapped}
use resilient_settlement_orc.Store.Action.{
  Reply, answer, failure, PspPaymentRequest, PspStatusResponse, PspAdapter,
}
use resilient_settlement_orc.Webhook.Json.{
  Fields, number, string, object, end, field, field_string, field_number, string_or_empty,
}
use resilient_settlement_orc.Adapters.{Mac, verify_with}

-- The SDK's client: what its n-th call answers. A body is a `map[string]interface{}`.
pub record Client : Type 0 where
  pub create_order : ℕ → Fields → Reply Fields
  pub capture_payment : ℕ → String → ℤ → Fields → Reply Fields
  pub create_refund : ℕ → Fields → Reply Fields
  pub fetch_payment : ℕ → String → Reply Fields

-- `RazorpayAdapter`
pub record RazorpayAdapter : Type 0 where
  pub client : Client
  pub webhook_secret : String

-- `fmt.Errorf("...: %w", err)`, where a body is turned into a response.
abbrev response : {A : Type 0} → String → (Fields → A) → Reply Fields → Reply A
response message f (answer body) = answer (f body)
response message f (failure e) = failure (wrapped message e)

abbrev error_of : String → Reply Fields → Option GoError
error_of message (answer body) = none
error_of message (failure e) = some (wrapped message e)

abbrev order_data : PspPaymentRequest → Fields
order_data req = field "amount" (number req.amount) (
    field "currency" (string req.currency) (
      field "receipt" (string req.order_id) (
        field "notes"
          (object (
            field "order_id" (string req.order_id)
              (field "customer_email" (string req.customer_email) end)))
          end)))

-- `CreatePayment`
abbrev pub create_payment : RazorpayAdapter → ℕ → PspPaymentRequest → Reply String
create_payment r n req =
    response "razorpay create order: " (λ body. string_or_empty (field_string "id" (some body)))
      (r.client.create_order n (order_data req))

-- `CapturePayment`
abbrev pub capture_payment : RazorpayAdapter → ℕ → String → ℤ → String → Option GoError
capture_payment r n pid amount currency =
    error_of "razorpay capture: "
      (r.client.capture_payment n pid amount (field "currency" (string currency) end))

abbrev pub refund_data : String → ℤ → Fields
refund_data pid amount =
    field "payment_id" (string pid)
      (if ltb_ℤ (pos 0) amount then field "amount" (number amount) end else end)

-- `RefundPayment`
abbrev pub refund_payment : RazorpayAdapter → ℕ → String → ℤ → Option GoError
refund_payment r n pid amount =
    error_of "razorpay refund: " (r.client.create_refund n (refund_data pid amount))

abbrev zero_or : Option ℤ → ℤ
zero_or none = pos 0
zero_or (some n) = n

-- `GetPaymentStatus`
abbrev pub get_payment_status : RazorpayAdapter → ℕ → String → Reply PspStatusResponse
get_payment_status r n pid =
    response "razorpay get status: "
      (λ body. record {
        status = string_or_empty (field_string "status" (some body));
        amount = zero_or (field_number "amount" (some body));
      })
      (r.client.fetch_payment n pid)

-- `VerifyWebhookSignature`
abbrev pub verify_webhook_signature : Mac → RazorpayAdapter → String → String → Option GoError
verify_webhook_signature mac r =
    verify_with mac r.webhook_secret "razorpay: invalid webhook signature"

-- The adapter; `CancelPayment` asks nothing of Razorpay.
abbrev pub adapter : Mac → RazorpayAdapter → PspAdapter
adapter mac r = record {
  create_payment = create_payment r;
  capture_payment = capture_payment r;
  refund_payment = refund_payment r;
  cancel_payment = λ n pid. none;
  get_payment_status = get_payment_status r;
  verify_webhook_signature = verify_webhook_signature mac r;
}
