-- ===== src/Adapters/Mock.antt =====
-- internal/adapter/mock.go: a provider for tests, which succeeds at random. The simulated latency is
-- left out.
use Prim.Native.String.{◌++◌}
use resilient_settlement_orc.Base.{ℕ, zero, suc, String, Bool, Option, none, some, if◌then◌else◌}
use resilient_settlement_orc.Base.Int.{ℤ, pos}
use resilient_settlement_orc.Retry.{GoError, plain}
use resilient_settlement_orc.Store.Action.{
  Reply, answer, failure, PspPaymentRequest, PspStatusResponse, PspAdapter,
}
use resilient_settlement_orc.Adapters.{Mac, verify_with}

-- `MockPSP`: what the n-th `rng.Float64() < cfg.SuccessRate` says, and the n-th identifier that
-- `uuid.NewString` makes.
pub record MockPsp : Type 0 where
  pub succeeds : ℕ → Bool
  pub uuid : ℕ → String
  pub webhook_secret : String

-- `DefaultMockConfig`
abbrev pub default_webhook_secret : String
default_webhook_secret = "mock_webhook_secret_key"

-- `s[:n]` of a text of ASCII characters
abbrev front : ℕ → String → String
front zero s = ""
front (suc n) String.[] = ""
front (suc n) (String.◌∷◌ c s) = String.◌∷◌ c (front n s)

abbrev or_fail : MockPsp → ℕ → String → Option GoError
or_fail m n message = if m.succeeds n then none else some (plain message)

-- `CreatePayment`
abbrev pub create_payment : MockPsp → ℕ → PspPaymentRequest → Reply String
create_payment m n req =
    if m.succeeds n
    then answer ("mock_pay_" ++ front 8 (m.uuid n))
    else failure (plain ("mock psp: simulated payment failure for order " ++ req.order_id))

-- `CapturePayment`
abbrev pub capture_payment : MockPsp → ℕ → String → ℤ → String → Option GoError
capture_payment m n pid amount currency =
    or_fail m n ("mock psp: simulated capture failure for " ++ pid)

-- `RefundPayment`
abbrev pub refund_payment : MockPsp → ℕ → String → ℤ → Option GoError
refund_payment m n pid amount = or_fail m n ("mock psp: simulated refund failure for " ++ pid)

-- `CancelPayment`
abbrev pub cancel_payment : MockPsp → ℕ → String → Option GoError
cancel_payment m n pid = or_fail m n ("mock psp: simulated cancel failure for " ++ pid)

-- `GetPaymentStatus`, which keeps nothing of what the others have done.
abbrev pub get_payment_status : MockPsp → ℕ → String → Reply PspStatusResponse
get_payment_status m n pid = answer (record { status = "captured"; amount = pos 0 })

-- `VerifyWebhookSignature`
abbrev pub verify_webhook_signature : Mac → MockPsp → String → String → Option GoError
verify_webhook_signature mac m =
    verify_with mac m.webhook_secret "mock psp: invalid webhook signature"

abbrev pub adapter : Mac → MockPsp → PspAdapter
adapter mac m = record {
  create_payment = create_payment m;
  capture_payment = capture_payment m;
  refund_payment = refund_payment m;
  cancel_payment = cancel_payment m;
  get_payment_status = get_payment_status m;
  verify_webhook_signature = verify_webhook_signature mac m;
}
