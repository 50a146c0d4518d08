-- ===== src/Tests/Edge.antt =====
-- The theorems on the middleware at concrete inputs.
use resilient_settlement_orc.Base.{
  ℕ, ◌+◌, ◌≤◌, String, true, false, ◌≡◌, ◌≢◌, ◌⊎◌, refl, inr, List, [], ◌∷◌, All, arith, eq_iff,
  eq_refl, leb,
}
use resilient_settlement_orc.Base.Int.{pos}
use resilient_settlement_orc.Base.Text.{cut}
use resilient_settlement_orc.Middleware.Idempotency as Idempotency
use resilient_settlement_orc.Middleware.Idempotency.{
  Request, cached_value, parse_cached_response, arrival, is_mutating,
}
use resilient_settlement_orc.Middleware.Idempotency.Replay.{parse_cached_response-cached_value}
use resilient_settlement_orc.Middleware.Idempotency.Claims.{
  IsExclusive, run-IsExclusive, completion-replays,
}
use resilient_settlement_orc.Middleware.RateLimit.Bounds.{
  Call, ask, clean, serve_all, InOrder, serve_all-le,
}
use resilient_settlement_orc.Middleware.Auth.{
  MerchantKey, parse_merchant_keys, validate_key, matched_key, extract_bearer_token, equal_fold,
  refused, api_key_auth, is_blocked, record_failed_auth,
}
use resilient_settlement_orc.CircuitBreaker.{since}
use resilient_settlement_orc.Middleware.Auth.Keys.{Holds, validate_key-Holds}
use resilient_settlement_orc.Middleware.Auth.Attempts.{
  Event, attempt, meet_all, deployed, WithinWindow, Guesses, guesses,
}
use resilient_settlement_orc.Middleware.Auth.Lockout.{meet_all-locked}
use resilient_settlement_orc.Middleware.Auth.Overlap as Overlap

parse_cached_response-cached_value_example :
    parse_cached_response (cached_value (pos 201) "{}") ≡ (pos 201, "{}")
parse_cached_response-cached_value_example =
    parse_cached_response-cached_value 201 "{}" (omega arith)

abbrev asking : Request
asking = record { method = "POST"; key = "k"; merchant = "m1" }

-- A request that runs, and the same request again.
abbrev one_running : Idempotency.System
one_running = record {
  entries = (Idempotency.redis_key asking, Idempotency.processing_marker) ∷ [];
  running = Idempotency.redis_key asking ∷ [];
}

one_running-IsExclusive : IsExclusive one_running
one_running-IsExclusive = record {
  distinct = (refl, tt);
  marked = λ k h. ground (arith, h, eq_iff (Idempotency.redis_key asking) k);
}

run-IsExclusive_example :
    IsExclusive (Idempotency.run one_running (arrival false false asking ∷ []))
run-IsExclusive_example =
    run-IsExclusive one_running (arrival false false asking ∷ []) one_running-IsExclusive

completion-replays_example :
    let t = Idempotency.run one_running (
      Idempotency.completion false
        (Idempotency.redis_key asking)
        (record { status = pos 201; body = "{}"; replayed = false })
      ∷ arrival false false asking
      ∷ []) in
    Idempotency.arrive true false false asking t.entries
    ≡ (Idempotency.answer (Idempotency.replay (pos 201, "{}")), t.entries)
completion-replays_example =
    completion-replays one_running (arrival false false asking ∷ []) asking 201 "{}" false
      one_running-IsExclusive (rw (eq_refl (Idempotency.redis_key asking)) refl) refl refl refl

-- Two requests of an address, three seconds apart, and the cleanup between them.
abbrev calls : List Call
calls = ask "a" 5 6 ∷ clean 1_000_000_000 ∷ ask "a" 3_000_000_000 3_000_000_000 ∷ []

serve_all-le_example : (serve_all "a" ([], 0) calls).1 ≤ 200 + 300
unfolding InOrder
serve_all-le_example = serve_all-le 0 3_000_000_000 "a" calls (omega arith) (omega arith)

validate_key-Holds_example :
    let keys = parse_merchant_keys ("m1:secret" ∷ "root" ∷ []) in
    (validate_key "secret" keys ≡ "") × ((merchant : String) → ¬ Holds "secret" merchant keys)
    ⊎ (validate_key "secret" keys ≢ "") × Holds "secret" (validate_key "secret" keys) keys
validate_key-Holds_example = validate_key-Holds "secret" ("m1:secret" ∷ "root" ∷ [])

abbrev shop_key : MerchantKey
shop_key = record { merchant_id = "m1"; api_key = "secret" }

abbrev guess : ℕ → Event
guess n = attempt "a" "Bearer wrong" n n n

abbrev ten_guesses : List Event
ten_guesses =
    guess 10
    ∷ guess 9
    ∷ guess 8
    ∷ guess 7
    ∷ guess 6
    ∷ guess 5
    ∷ guess 4
    ∷ guess 3
    ∷ guess 2
    ∷ guess 1
    ∷ []

wrong : validate_key (extract_bearer_token "Bearer wrong") (shop_key ∷ []) ≡ ""
unfolding validate_key matched_key extract_bearer_token equal_fold cut
wrong = refl

guess-Guesses : (n : ℕ) → Guesses (shop_key ∷ []) "a" (guess n)
unfolding Guesses
guess-Guesses n = inr wrong

ten_guesses-WithinWindow : All (WithinWindow 0) ten_guesses
unfolding WithinWindow
ten_guesses-WithinWindow = omega arith

ten_guesses-Guesses : All (Guesses (shop_key ∷ []) "a") ten_guesses
ten_guesses-Guesses = (
  guess-Guesses 10,
  (
    guess-Guesses 9,
    (
      guess-Guesses 8,
      (
        guess-Guesses 7,
        (
          guess-Guesses 6,
          (
            guess-Guesses 5,
            (guess-Guesses 4, (guess-Guesses 3, (guess-Guesses 2, (guess-Guesses 1, tt)))),
          ),
        ),
      ),
    ),
  ),
)

-- Two requests that are both let in before the first is judged.
abbrev two_at_once : List Overlap.Event
two_at_once =
    Overlap.ask "a" "Bearer wrong" 1
    ∷ Overlap.ask "a" "Bearer wrong" 2
    ∷ Overlap.settle "a" "Bearer wrong" 3 3
    ∷ Overlap.settle "a" "Bearer wrong" 4 4
    ∷ []

two_at_once-WithinWindow : All (Overlap.WithinWindow 0) two_at_once
unfolding Overlap.WithinWindow
two_at_once-WithinWindow = omega arith

two_at_once-IsWrong : All (Overlap.IsWrong (shop_key ∷ []) "a") two_at_once
unfolding Overlap.IsWrong validate_key matched_key extract_bearer_token equal_fold cut
two_at_once-IsWrong = (tt, (tt, (inr (refl, refl), (inr (refl, refl), tt))))

steps-forbidden_example :
    let d = Overlap.steps (shop_key ∷ []) "a" Overlap.closed_door two_at_once in
    (d.forbidden ≤ 9 + d.most)
    × (is_blocked (pos 5) "a" (deployed d.failures) ≡ (deployed d.failures, leb 10 d.forbidden))
steps-forbidden_example =
    Overlap.steps-forbidden 0 "a" shop_key [] two_at_once 5 two_at_once-WithinWindow
      two_at_once-IsWrong (omega arith) (omega arith)

-- Both are answered 403.
two_forbidden : (Overlap.steps (shop_key ∷ []) "a" Overlap.closed_door two_at_once).forbidden ≡ 2
unfolding Overlap.steps Overlap.step is_blocked record_failed_auth validate_key matched_key
    extract_bearer_token equal_fold cut since
two_forbidden = refl

guesses_of_ten : guesses "a" ten_guesses ≡ 10
unfolding guesses extract_bearer_token equal_fold cut
guesses_of_ten = refl

meet_all-locked_example :
    let t = deployed (meet_all (shop_key ∷ []) "a" ([], 0) ten_guesses).0 in
    api_key_auth (pos 20) (pos 20) (pos 20) (shop_key ∷ []) "a" "Bearer secret" t ≡ (t, refused 429)
meet_all-locked_example =
    meet_all-locked 0 "a" "Bearer secret" shop_key [] ten_guesses 20 20 20 ten_guesses-WithinWindow
      ten_guesses-Guesses (omega (arith, guesses_of_ten)) (omega arith)
