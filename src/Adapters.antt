-- ===== src/Adapters.antt =====
-- internal/adapter: the providers behind the interface of `PspAdapter`. The clients of the providers'
-- SDKs are parameters; spans are left out.
pub mod Razorpay
pub mod Stripe
pub mod Mock
pub mod Signatures
pub mod Rehearsal
use resilient_settlement_orc.Base.{String, Option, none, some, ℕ, List, if◌then◌else◌, str_eq}
use resilient_settlement_orc.Base.Hex.{encode_to_string}
use resilient_settlement_orc.Retry.{GoError, plain}

-- `hmac.New(sha256.New, secret)`, `Write(payload)` and `Sum(nil)`: the bytes of the MAC of a payload
-- under a secret.
abbrev pub Mac : Type 0
Mac = String → String → List ℕ

-- `VerifyWebhookSignature` of the mock and of Razorpay, which differ in the text of the error.
-- `hmac.Equal` compares two texts.
unfoldable pub verify_with : Mac → String → String → String → String → Option GoError
verify_with mac secret message payload signature =
    if str_eq (encode_to_string (mac secret payload)) signature then none else some (plain message)
