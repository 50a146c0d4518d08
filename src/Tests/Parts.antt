-- ===== src/Tests/Parts.antt =====
-- The theorems on the statuses, the circuit breaker, the router and the retries at concrete inputs.
use resilient_settlement_orc.Base.{
  ℕ, ◌<◌, String, ◌≡◌, refl, ◌↔◌, inl, inr, none, some, List, [], ◌∷◌, arith, if◌then◌else◌, ltb,
  str_eq, eq_iff, Bool-cases,
}
use resilient_settlement_orc.Base.Int.{ℤ, pos}
use resilient_settlement_orc.Payment.Status.{
  authorized, captured, refunded, partially_refunded, validate_transition,
}
use resilient_settlement_orc.Payment.Lifecycle.{Reach, here, next}
use resilient_settlement_orc.CircuitBreaker.{
  default_config, Event, ask, succeed, fail, new, answers, run,
}
use resilient_settlement_orc.CircuitBreaker.Phases.{
  phase, spec_answers, spec_run, shut, IsValid, IsUsable, run-new,
}
use resilient_settlement_orc.Router.{RouteRequest, route}
use resilient_settlement_orc.Router.Choice.{Visits, IsUnusable, route-choose, route-none_iff}
use resilient_settlement_orc.Router.Candidates.{choose, candidates, available}
use resilient_settlement_orc.Retry.{plain, is_non_retryable, Environment, success, do_}
use resilient_settlement_orc.Retry.Attempts.{Summary, GoesOn, do-Summary, do-success}
use resilient_settlement_orc.Tests.Shop.{shop}

refunding : Reach captured refunded
unfolding validate_transition
refunding = next {t = partially_refunded} (next here refl) refl

selling : Reach authorized refunded
unfolding validate_transition
selling = next {t = captured} (next here refl) refl

default-IsUsable : IsUsable default_config
default-IsUsable =
    (omega arith, omega arith, (omega arith, omega arith), (omega arith, omega arith))

-- Five failures, a request after the timeout, and two successes.
abbrev outage : List Event
outage =
    fail (pos 1) (pos 1)
    ∷ fail (pos 2) (pos 2)
    ∷ fail (pos 3) (pos 3)
    ∷ fail (pos 4) (pos 4)
    ∷ fail (pos 5) (pos 5)
    ∷ ask (pos 30_000_000_005)
    ∷ succeed
    ∷ succeed
    ∷ []

run-new_example :
    (answers (new "mock" default_config) outage ≡ spec_answers default_config (shut (pos 0)) outage)
    × (phase (run (new "mock" default_config) outage)
        ≡ spec_run default_config (shut (pos 0)) outage)
    × IsValid (run (new "mock" default_config) outage)
run-new_example = run-new "mock" default_config outage default-IsUsable

abbrev request : RouteRequest
request = record { amount = pos 1000; currency = "INR"; preferred_psp = some "razorpay" }

abbrev instant : ℤ
instant = pos 1_700_000_000_000_000_000

route-choose_example :
    let (r', outcome) = route instant ("mock" ∷ []) request shop.router in
    (outcome
      ≡ choose instant shop.router.adapters shop.router.breakers
          (candidates ("mock" ∷ []) request shop.router.rules))
    × (r'.adapters ≡ shop.router.adapters)
    × (r'.rules ≡ shop.router.rules)
    × ((psp : String)
        → available instant r'.breakers psp ≡ available instant shop.router.breakers psp)
route-choose_example = route-choose instant ("mock" ∷ []) request shop.router

visits : Visits ("mock" ∷ []) shop.router.adapters
visits psp = elim (Bool-cases (str_eq "mock" psp)) [
  | inl same ↦ inr (inl (ground (arith, same, eq_iff "mock" psp)))
  | inr other ↦ inl (rw other refl)
]

route-none_iff_example :
    ((route instant ("mock" ∷ []) request shop.router).1 ≡ none)
    ↔ ((psp : String) → IsUnusable instant shop.router psp)
route-none_iff_example = route-none_iff instant ("mock" ∷ []) request shop.router visits

-- The operation fails twice and then succeeds.
abbrev flaky : Environment
flaky = record { call = λ n. if ltb n 2 then some (plain "timeout") else none; done = λ n. none }

do-Summary_example : Summary flaky (pos 3) 0 3 (do_ flaky (pos 3))
do-Summary_example = do-Summary flaky (pos 3)

flaky-GoesOn : (i : ℕ) → i < 2 → GoesOn flaky i
unfolding is_non_retryable
flaky-GoesOn i h = (plain "timeout", ground arith, refl, refl)

do-success_example : do_ flaky (pos 3) ≡ (3, success)
do-success_example = do-success flaky 3 2 (omega arith) flaky-GoesOn refl
