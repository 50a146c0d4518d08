-- ===== src/CircuitBreaker/Counts.antt =====
-- The counters of internal/pkg/circuitbreaker/circuitbreaker.go.
use resilient_settlement_orc.Base.{ℕ, ◌+◌, ◌<◌, ◌≤◌, suc, String, ◌≡◌, refl, List, [], ◌∷◌, arith}
use resilient_settlement_orc.Base.Int.{pos, ◌+ℤ◌}
use resilient_settlement_orc.Base.Int64.{add64}
use resilient_settlement_orc.CircuitBreaker.{
  Config, CircuitBreaker, new, allow, record_success, record_failure, Event, ask, succeed, fail,
  run,
}

abbrev pub recorded : List Event → ℕ
recorded [] = 0
recorded (ask now ∷ es) = recorded es
recorded (succeed ∷ es) = suc (recorded es)
recorded (fail now opened ∷ es) = suc (recorded es)

abbrev pub failed : List Event → ℕ
failed [] = 0
failed (ask now ∷ es) = failed es
failed (succeed ∷ es) = failed es
failed (fail now opened ∷ es) = suc (failed es)

failed-le : (es : List Event) → failed es ≤ recorded es
failed-le [] = omega arith
failed-le (ask now ∷ es) = failed-le es
failed-le (succeed ∷ es) = omega (arith, failed-le es)
failed-le (fail now opened ∷ es) = omega (arith, failed-le es)

add64_pos : (n : ℕ) → n + 1 < 9223372036854775808 → add64 (pos n) (pos 1) ≡ pos (n + 1)
unfolding add64 ◌+ℤ◌
add64_pos n h = ground arith

counts :
    (cb : CircuitBreaker) (n m : ℕ) (es : List Event)
    → cb.total_requests ≡ pos n
    → cb.total_failures ≡ pos m
    → n + recorded es < 9223372036854775808
    → m + failed es < 9223372036854775808
    → ((run cb es).total_requests ≡ pos (n + recorded es))
      × ((run cb es).total_failures ≡ pos (m + failed es))
unfolding run
counts cb n m [] hn hm r f = ground arith
counts cb n m (ask now ∷ es) hn hm r f =
    counts (allow now cb).0 n m es (unfold allow in ground arith) (unfold allow in ground arith) r f
counts cb n m (succeed ∷ es) hn hm r f = ground (
  arith,
  counts (record_success cb) (n + 1) m es (unfold record_success in ground (arith, add64_pos n))
      (unfold record_success in ground arith),
)
counts cb n m (fail now opened ∷ es) hn hm r f = ground (
  arith,
  counts (record_failure now opened cb) (n + 1) (m + 1) es
      (unfold record_failure in ground (arith, add64_pos n))
      (unfold record_failure in ground (arith, add64_pos m)),
)

-- While fewer than 2^63 outcomes are recorded, the totals of a breaker are the number of outcomes
-- and the number of failures among them.
pub totals :
    (name : String) (cfg : Config) (es : List Event)
    → recorded es < 9223372036854775808
    → ((run (new name cfg) es).total_requests ≡ pos (recorded es))
      × ((run (new name cfg) es).total_failures ≡ pos (failed es))
      × (failed es ≤ recorded es)
unfolding new
totals name cfg es h =
    let le = failed-le es in
    let (r, f) = counts (new name cfg) 0 0 es refl refl (omega arith) (omega arith) in
    (ground (arith, r), ground (arith, f), le)
