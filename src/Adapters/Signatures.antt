-- ===== src/Adapters/Signatures.antt =====
-- The signatures of webhooks in internal/adapter/razorpay.go and internal/adapter/mock.go.
use resilient_settlement_orc.Base.{String, ◌≡◌, sym, ◌∙◌, none, arith, eq_iff, All}
use resilient_settlement_orc.Base.Hex.{encode_to_string, encode_to_string-inj, IsByte}
use resilient_settlement_orc.Adapters.{Mac, verify_with}

verify-accepted :
    (mac : Mac) (secret message payload signature : String)
    → verify_with mac secret message payload signature ≡ none
    → encode_to_string (mac secret payload) ≡ signature
unfolding verify_with
verify-accepted mac secret message payload signature h =
    ground (arith, eq_iff (encode_to_string (mac secret payload)) signature)

-- A MAC consists of bytes. Where a signature is accepted for two payloads, by the comparison that
-- Razorpay's adapter and the mock make, the payloads have the same MAC under the secret.
pub verify_with-binds :
    (mac : Mac) (secret message payload other signature : String)
    → ((s text : String) → All IsByte (mac s text))
    → verify_with mac secret message payload signature ≡ none
    → verify_with mac secret message other signature ≡ none
    → mac secret payload ≡ mac secret other
verify_with-binds mac secret message payload other signature bytes h k =
    encode_to_string-inj (mac secret payload) (mac secret other) (bytes secret payload)
      (bytes secret other)
      (verify-accepted mac secret message payload signature h
        ∙ sym (verify-accepted mac secret message other signature k))
