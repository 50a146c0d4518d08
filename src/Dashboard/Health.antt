-- ===== src/Dashboard/Health.antt =====
-- The health of the providers (`GetPSPHealth` of internal/service/dashboard.go): what their breakers
-- say, with the outcomes of their payments. A rate is kept as its two counts. The order in which Go
-- walks a map is that of its list here.
use resilient_settlement_orc.Base.{
  ◌+◌, ℕ, String, Option, none, some, List, [], ◌∷◌, ◌++◌, if◌then◌else◌, str_eq,
}
use resilient_settlement_orc.Base.Int.{ℤ}
use resilient_settlement_orc.Base.Int64.{sub64}
use resilient_settlement_orc.Base.Dict.{Dict, lookup}
use resilient_settlement_orc.CircuitBreaker.{CircuitBreaker, State}
use resilient_settlement_orc.Payment.Status.{captured, failed, status_eq}
use resilient_settlement_orc.Store.Rows.{Payment}
use resilient_settlement_orc.Store.Action.{Action, pure, gets, query, ◌>>=◌}

-- `Stats` of a breaker, as far as the dashboard reads it; the rate of success is the successes of
-- the requests.
pub record Stats : Type 0 where
  pub state : State
  pub total_requests : ℤ
  pub total_failures : ℤ
  pub consecutive_fails : ℤ
  pub successes : ℤ

abbrev pub stats : CircuitBreaker → Stats
stats cb = record {
  state = cb.state;
  total_requests = cb.total_requests;
  total_failures = cb.total_failures;
  consecutive_fails = cb.consecutive_fails;
  successes = sub64 cb.total_requests cb.total_failures;
}

-- `GetBreakerStats`
abbrev pub get_breaker_stats : Dict CircuitBreaker → Dict Stats
get_breaker_stats [] = []
get_breaker_stats ((name, cb) ∷ rest) = (name, stats cb) ∷ get_breaker_stats rest

-- The counts of a provider: all, captured, failed.
pub record Metrics : Type 0 where
  pub total : ℕ
  pub captured_count : ℕ
  pub failed_count : ℕ

abbrev no_metrics : Metrics
no_metrics = record { total = 0; captured_count = 0; failed_count = 0 }

abbrev counted : Payment → Metrics → Metrics
counted p m = record {
  total = m.total + 1;
  captured_count = if status_eq p.status captured then m.captured_count + 1 else m.captured_count;
  failed_count = if status_eq p.status failed then m.failed_count + 1 else m.failed_count;
}

abbrev add_payment : Payment → Dict Metrics → Dict Metrics
add_payment p [] = (p.psp, counted p no_metrics) ∷ []
add_payment p ((j, m) ∷ rest) =
    let others = add_payment p rest in
    if str_eq j p.psp then (j, counted p m) ∷ rest else (j, m) ∷ others

-- The statement that groups the payments by provider.
abbrev pub metrics_of : List Payment → Dict Metrics
metrics_of [] = []
metrics_of (p ∷ ps) = add_payment p (metrics_of ps)

-- `PSPHealth`; a breaker that is not there is "unknown".
pub record PspHealth : Type 0 where
  pub psp : String
  pub circuit : Option Stats
  pub db : Metrics

abbrev or_no_metrics : Option Metrics → Metrics
or_no_metrics none = no_metrics
or_no_metrics (some m) = m

-- The loop over the breakers
abbrev pub with_breakers : Dict Metrics → Dict Stats → List PspHealth
with_breakers metrics [] = []
with_breakers metrics ((psp, s) ∷ rest) =
    record { psp = psp; circuit = some s; db = or_no_metrics (lookup psp metrics) }
    ∷ with_breakers metrics rest

abbrev unless_seen : Option Stats → String → Metrics → List PspHealth → List PspHealth
unless_seen none psp m rest = record { psp = psp; circuit = none; db = m } ∷ rest
unless_seen (some s) psp m rest = rest

-- The loop over the rows whose provider has no breaker
abbrev pub without_breakers : Dict Stats → Dict Metrics → List PspHealth
without_breakers breakers [] = []
without_breakers breakers ((psp, m) ∷ rest) =
    unless_seen (lookup psp breakers) psp m (without_breakers breakers rest)

-- `GetPSPHealth`
unfoldable pub get_psp_health : Action (List PspHealth)
get_psp_health = do
  breakers ← gets (λ w. get_breaker_stats w.router.breakers)
  metrics ← query (λ t. metrics_of t.payments)
  pure (with_breakers metrics breakers ++ without_breakers breakers metrics)
