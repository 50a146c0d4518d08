-- ===== src/Middleware/Idempotency/Replay.antt =====
-- What `cacheResponse` of internal/middleware/idempotency.go stores, and what
-- `parseCachedResponse` reads from it; and the keys of merchants.

use text.Mathlib.TextLemmas.{append_cancel_left, cons≢nil}
use resilient_settlement_orc.Base.{
  ℕ, ◌<◌, String, false, ◌≡◌, ◌≢◌, refl, sym, ap, ◌∙◌, Option, some, arith, str_eq, eq_iff,
  Bool-cases, inl, inr,
}
use resilient_settlement_orc.Base.Int.{pos}
use resilient_settlement_orc.Base.Text.{cut, contains, cut-append_text}
use resilient_settlement_orc.Base.Decimal.{itoa, atoi-itoa, contains-itoa, itoa-Leading, Leading}
use resilient_settlement_orc.Middleware.Idempotency.{
  Request, redis_key, cached_value, parse_cached_response, processing_marker, merchant_or_anonymous,
}

cut-cached : (n : ℕ) (body : String) → cut 58 (cached_value (pos n) body) ≡ some (itoa n, body)
unfolding cached_value
cut-cached n body = cut-append_text 58 (itoa n) _ body refl (contains-itoa 58 n (omega arith))

Leading-ne_empty : (s : String) → Leading s → str_eq s "" ≡ false
Leading-ne_empty s (c, t, e, d) = elim (Bool-cases (str_eq s "")) [
  | inl same ↦ absurd (cons≢nil (sym e ∙ (eq_iff s "").0 same))
  | inr differ ↦ differ
]

-- A status that is not negative and fits in an int is read back from the cache with its body,
-- whatever characters the body has.
pub parse_cached_response-cached_value :
    (n : ℕ) (body : String)
    → n < 9223372036854775808
    → parse_cached_response (cached_value (pos n) body) ≡ (pos n, body)
unfolding parse_cached_response
parse_cached_response-cached_value n body h =
    rw (cut-cached n body, Leading-ne_empty (itoa n) (itoa-Leading n), atoi-itoa n h) refl

marker-cut : (x : String × String) → cut 58 processing_marker ≢ some x
unfolding cut
marker-cut x h = ground (arith, h)

-- A cached response is no processing marker.
pub cached_value-ne-marker :
    (n : ℕ) (body : String) → str_eq (cached_value (pos n) body) processing_marker ≡ false
cached_value-ne-marker n body =
    elim (Bool-cases (str_eq (cached_value (pos n) body) processing_marker)) [
      | inl same ↦ absurd (
          marker-cut (itoa n, body)
            (sym (ap (cut 58) ((eq_iff (cached_value (pos n) body) processing_marker).0 same))
              ∙ cut-cached n body))
      | inr differ ↦ differ
    ]

pair_of_some :
    {a b c d : String}
    → ◌≡◌ {A = Option (String × String)} (some (a, b)) (some (c, d))
    → (a ≡ c) × (b ≡ d)
pair_of_some h = (cc, cc)

-- Two merchants whose names have no colon share no key of Redis: the same key means the same
-- header and the same merchant, where a request with no merchant counts as one of `_anonymous`.
redis_key_inj :
    (q r : Request)
    → contains 58 (merchant_or_anonymous q.merchant) ≡ false
    → contains 58 (merchant_or_anonymous r.merchant) ≡ false
    → redis_key q ≡ redis_key r
    → (merchant_or_anonymous q.merchant ≡ merchant_or_anonymous r.merchant) × (q.key ≡ r.key)
unfolding redis_key
redis_key_inj q r hq hr h =
    let tail = append_cancel_left "idempotency:" _ _ h in
    pair_of_some (
      sym (cut-append_text 58 (merchant_or_anonymous q.merchant) _ q.key refl hq)
      ∙ ap (cut 58) tail
      ∙ cut-append_text 58 (merchant_or_anonymous r.merchant) _ r.key refl hr)
