-- ===== src/Handlers/Payments.antt =====
-- internal/handler/payment.go: what stands between a request and the payment service. `merchant` is
-- what `APIKeyAuth` has put into the context.
pub mod Tenants
pub mod Creation
use resilient_settlement_orc.Base.{
  ℕ, String, Bool, true, false, not, ◌&&◌, ◌||◌, Option, none, some, List, [], ◌∷◌, if◌then◌else◌,
  str_eq,
}
use resilient_settlement_orc.Base.Int.{ℤ, pos, leb_ℤ, ltb_ℤ}
use resilient_settlement_orc.Store.Action.{Error, payment_not_found, World, Result, ok, err}
use resilient_settlement_orc.PaymentService as Service
use resilient_settlement_orc.PaymentService.Creation as Creating
use resilient_settlement_orc.PaymentService.{PaymentResponse}
use resilient_settlement_orc.PaymentService.Creation.{CreatePaymentRequest}
use resilient_settlement_orc.Middleware.Auth.{is_admin}
use resilient_settlement_orc.Handlers.{HttpResponse, error, json}

abbrev pub Answer : Type 0
Answer = HttpResponse PaymentResponse × World

abbrev pub max_amount : ℤ
max_amount = pos 999_999_999_999

abbrev pub supported_currencies : List String
supported_currencies =
    "INR" ∷ "USD" ∷ "EUR" ∷ "GBP" ∷ "SGD" ∷ "AUD" ∷ "CAD" ∷ "JPY" ∷ "AED" ∷ "MYR" ∷ []

abbrev pub is_one_of : String → List String → Bool
is_one_of s [] = false
is_one_of s (t ∷ ts) = str_eq s t || is_one_of s ts

-- `isValidCurrency`
unfoldable pub is_valid_currency : String → Bool
is_valid_currency code = is_one_of code supported_currencies

abbrev internal_error : {A : Type 0} → HttpResponse A
internal_error = error 500 "INTERNAL_ERROR"

abbrev not_found : {A : Type 0} → HttpResponse A
not_found = error 404 "NOT_FOUND"

-- The answer for what a method of the service returns.
abbrev pub answer : ℕ → Result PaymentResponse × World → Answer
answer n (err e, w) = (internal_error, w)
answer n (ok r, w) = (json n r, w)

abbrev pub refusal : String → CreatePaymentRequest → Option (ℕ × String)
refusal merchant req =
    if leb_ℤ req.amount (pos 0)
    then some (400, "VALIDATION_FAILED")
    else if ltb_ℤ max_amount req.amount
    then some (400, "VALIDATION_FAILED")
    else if str_eq req.currency "" || str_eq req.order_id "" || str_eq req.merchant_id ""
    then some (400, "VALIDATION_FAILED")
    else if not (is_valid_currency req.currency)
    then some (400, "VALIDATION_FAILED")
    else if not (is_admin merchant) && not (str_eq req.merchant_id merchant)
    then some (403, "FORBIDDEN")
    else none

abbrev create_unless : (World → World) → CreatePaymentRequest → Option (ℕ × String) → World → Answer
create_unless others req (some (n, code)) w = (error n code, w)
create_unless others req none w = answer 201 (Creating.create_payment others req w)

abbrev create_decoded : (World → World) → String → Option CreatePaymentRequest → World → Answer
create_decoded others merchant none w = (error 400 "INVALID_REQUEST", w)
create_decoded others merchant (some req) w = create_unless others req (refusal merchant req) w

-- `CreatePayment`; `key` is the header `Idempotency-Key`.
unfoldable pub create_payment :
    (World → World) → String → String → Option CreatePaymentRequest → World → Answer
create_payment others merchant key body w =
    if str_eq key ""
    then (error 400 "MISSING_IDEMPOTENCY_KEY", w)
    else create_decoded others merchant body w

abbrev error_answer : Error → HttpResponse PaymentResponse
error_answer payment_not_found = not_found
error_answer _ = internal_error

abbrev pub is_foreign : String → PaymentResponse → Bool
is_foreign merchant r = not (is_admin merchant) && not (str_eq r.payment.merchant_id merchant)

abbrev owned : String → (PaymentResponse → World → Answer) → Result PaymentResponse × World → Answer
owned merchant next (err e, w) = (error_answer e, w)
owned merchant next (ok r, w) = if is_foreign merchant r then (not_found, w) else next r w

-- The check of ownership that all four handlers below begin with, then the rest.
abbrev pub with_own : String → String → (PaymentResponse → World → Answer) → World → Answer
with_own merchant id next w =
    if str_eq id ""
    then (error 400 "INVALID_REQUEST", w)
    else owned merchant next (Service.get_payment id w)

-- `GetPayment`
unfoldable pub get_payment : String → String → World → Answer
get_payment merchant id = with_own merchant id (λ r w. (json 200 r, w))

-- `CapturePayment`
unfoldable pub capture_payment : String → String → World → Answer
capture_payment merchant id =
    with_own merchant id (λ r w. answer 200 (Service.capture_payment id w))

-- `CancelPayment`
unfoldable pub cancel_payment : (World → World) → String → String → World → Answer
cancel_payment others merchant id =
    with_own merchant id (λ r w. answer 200 (Service.cancel_payment others id w))

abbrev refund_decoded : String → String → Option ℤ → World → Answer
refund_decoded merchant id none w = (error 400 "INVALID_REQUEST", w)
refund_decoded merchant id (some amount) w =
    if leb_ℤ amount (pos 0)
    then (error 400 "VALIDATION_FAILED", w)
    else if ltb_ℤ max_amount amount
    then (error 400 "VALIDATION_FAILED", w)
    else with_own merchant id (λ r v. answer 200 (Service.refund_payment id amount v)) w

-- `RefundPayment`; the body is its amount.
unfoldable pub refund_payment : String → String → Option ℤ → World → Answer
refund_payment merchant id body w =
    if str_eq id "" then (error 400 "INVALID_REQUEST", w) else refund_decoded merchant id body w
