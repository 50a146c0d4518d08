-- ===== src/Adapters/Stripe.antt =====
-- internal/adapter/stripe.go: payment intents and refunds of Stripe behind the interface.
use resilient_settlement_orc.Base.{ℕ, String, Option, none, some, [], ◌∷◌, if◌then◌else◌, str_eq}
use resilient_settlement_orc.Base.Dict.{Dict, insert}
use resilient_settlement_orc.Base.Int.{ℤ, pos, ltb_ℤ}
use resilient_settlement_orc.Retry.{GoError, wrapped}
use resilient_settlement_orc.Store.Action.{
  Reply, answer, failure, PspPaymentRequest, PspStatusResponse, PspAdapter,
}

-- `stripe.PaymentIntentParams`, as far as the code sets it.
pub record PaymentIntentParams : Type 0 where
  pub amount : ℤ
  pub currency : String
  pub capture_method : String
  pub description : String
  pub receipt_email : Option String
  pub metadata : Dict String

-- `stripe.PaymentIntent`, as far as the code reads it.
pub record PaymentIntent : Type 0 where
  pub id : String
  pub status : String
  pub amount : ℤ

-- The packages of the SDK: what their n-th call answers. An amount that is not set is `none`.
pub record Sdk : Type 0 where
  pub new_intent : ℕ → PaymentIntentParams → Reply PaymentIntent
  pub capture_intent : ℕ → String → Option ℤ → Reply PaymentIntent
  pub new_refund : ℕ → String → Option ℤ → Option GoError
  pub cancel_intent : ℕ → String → Reply PaymentIntent
  pub get_intent : ℕ → String → Reply PaymentIntent
  pub construct_event : String → String → String → Option GoError

-- `StripeAdapter`
pub record StripeAdapter : Type 0 where
  pub sdk : Sdk
  pub webhook_secret : String

abbrev response : {A : Type 0} → String → (PaymentIntent → A) → Reply PaymentIntent → Reply A
response message f (answer pi) = answer (f pi)
response message f (failure e) = failure (wrapped message e)

abbrev wrap : String → Option GoError → Option GoError
wrap message none = none
wrap message (some e) = some (wrapped message e)

abbrev error_of : String → Reply PaymentIntent → Option GoError
error_of message (answer pi) = none
error_of message (failure e) = some (wrapped message e)

abbrev add_all : Dict String → Dict String → Dict String
add_all [] m = m
add_all ((k, v) ∷ rest) m = add_all rest (insert k v m)

abbrev intent_params : PspPaymentRequest → PaymentIntentParams
intent_params req = record {
  amount = req.amount;
  currency = req.currency;
  capture_method = "manual";
  description = req.description;
  receipt_email = if str_eq req.customer_email "" then none else some req.customer_email;
  metadata = insert "order_id" req.order_id (add_all req.metadata []);
}

-- `CreatePayment`
abbrev pub create_payment : StripeAdapter → ℕ → PspPaymentRequest → Reply String
create_payment s n req =
    response "stripe create payment: " (λ pi. pi.id) (s.sdk.new_intent n (intent_params req))

abbrev if_positive : ℤ → Option ℤ
if_positive amount = if ltb_ℤ (pos 0) amount then some amount else none

-- `CapturePayment`
abbrev pub capture_payment : StripeAdapter → ℕ → String → ℤ → String → Option GoError
capture_payment s n pid amount currency =
    error_of "stripe capture: " (s.sdk.capture_intent n pid (if_positive amount))

-- `RefundPayment`
abbrev pub refund_payment : StripeAdapter → ℕ → String → ℤ → Option GoError
refund_payment s n pid amount = wrap "stripe refund: " (s.sdk.new_refund n pid (if_positive amount))

-- `CancelPayment`
abbrev pub cancel_payment : StripeAdapter → ℕ → String → Option GoError
cancel_payment s n pid = error_of "stripe cancel: " (s.sdk.cancel_intent n pid)

-- `GetPaymentStatus`
abbrev pub get_payment_status : StripeAdapter → ℕ → String → Reply PspStatusResponse
get_payment_status s n pid =
    response "stripe get status: " (λ pi. record { status = pi.status; amount = pi.amount })
      (s.sdk.get_intent n pid)

-- `VerifyWebhookSignature`
abbrev pub verify_webhook_signature : StripeAdapter → String → String → Option GoError
verify_webhook_signature s payload signature =
    wrap "stripe: invalid webhook signature: "
      (s.sdk.construct_event payload signature s.webhook_secret)

abbrev pub adapter : StripeAdapter → PspAdapter
adapter s = record {
  create_payment = create_payment s;
  capture_payment = capture_payment s;
  refund_payment = refund_payment s;
  cancel_payment = cancel_payment s;
  get_payment_status = get_payment_status s;
  verify_webhook_signature = verify_webhook_signature s;
}
