-- ===== src/CircuitBreaker.antt =====
-- internal/pkg/circuitbreaker/circuitbreaker.go. A method returns the new breaker. Instants and
-- durations are nanoseconds; each reading of the clock is an argument. The mutex makes every
-- method one step, and the log lines are left out.
pub mod Phases
pub mod Counts
use resilient_settlement_orc.Base.{String, Bool, true, false, if◌then◌else◌, List, [], ◌∷◌}
use resilient_settlement_orc.Base.Int.{ℤ, pos, negsuc, ◌-ℤ◌, leb_ℤ, ltb_ℤ}
use resilient_settlement_orc.Base.Int64.{add64}

pub data State : Type 0 where
  closed open_ half_open : State

pub record Config : Type 0 where
  pub failure_threshold : ℤ
  pub success_threshold : ℤ
  pub open_timeout : ℤ

abbrev pub default_config : Config
default_config = record {
  failure_threshold = pos 5;
  success_threshold = pos 2;
  open_timeout = pos 30_000_000_000;
}

pub record CircuitBreaker : Type 0 where
  pub name : String
  pub state : State
  pub cfg : Config
  pub consecutive_fails : ℤ
  pub consecutive_ok : ℤ
  pub total_requests : ℤ
  pub total_failures : ℤ
  pub last_failure_at : ℤ
  pub opened_at : ℤ

-- Go's zero `time.Time`, the first of January of the year 1, from the Unix epoch.
abbrev pub zero_time : ℤ
zero_time = negsuc 62_135_596_799_999_999_999

abbrev pub max_duration : ℤ
max_duration = pos 9_223_372_036_854_775_807

abbrev pub min_duration : ℤ
min_duration = negsuc 9_223_372_036_854_775_807

-- `now.Sub(t)`, which package time saturates at the ends of `time.Duration`.
unfoldable pub since : ℤ → ℤ → ℤ
since now t =
    let d = now -ℤ t in
    if ltb_ℤ max_duration d then max_duration else if ltb_ℤ d min_duration then min_duration else d

unfoldable pub new : String → Config → CircuitBreaker
new name cfg = record {
  name = name;
  state = closed;
  cfg = cfg;
  consecutive_fails = pos 0;
  consecutive_ok = pos 0;
  total_requests = pos 0;
  total_failures = pos 0;
  last_failure_at = zero_time;
  opened_at = zero_time;
}

abbrev allow_in : State → ℤ → CircuitBreaker → CircuitBreaker × Bool
allow_in closed now cb = (cb, true)
allow_in open_ now cb =
    if leb_ℤ cb.cfg.open_timeout (since now cb.opened_at)
    then (record cb { state = half_open; consecutive_ok = pos 0 }, true)
    else (cb, false)
allow_in half_open now cb = (cb, true)

unfoldable pub allow : ℤ → CircuitBreaker → CircuitBreaker × Bool
allow now cb = allow_in cb.state now cb

abbrev success_in : State → CircuitBreaker → CircuitBreaker
success_in half_open cb =
    let ok = add64 cb.consecutive_ok (pos 1) in
    if leb_ℤ cb.cfg.success_threshold ok
    then record cb { consecutive_ok = ok; state = closed }
    else record cb { consecutive_ok = ok }
success_in closed cb = cb
success_in open_ cb = cb

unfoldable pub record_success : CircuitBreaker → CircuitBreaker
record_success cb =
    success_in cb.state
      (record cb { total_requests = add64 cb.total_requests (pos 1); consecutive_fails = pos 0 })

abbrev failure_in : State → ℤ → CircuitBreaker → CircuitBreaker
failure_in half_open opened cb = record cb { state = open_; opened_at = opened }
failure_in closed opened cb =
    if leb_ℤ cb.cfg.failure_threshold cb.consecutive_fails
    then record cb { state = open_; opened_at = opened }
    else cb
failure_in open_ opened cb = cb

-- The clock is read twice: for `lastFailureAt`, and for `openedAt`.
unfoldable pub record_failure : ℤ → ℤ → CircuitBreaker → CircuitBreaker
record_failure now opened cb = failure_in cb.state opened (record cb {
  total_requests = add64 cb.total_requests (pos 1);
  total_failures = add64 cb.total_failures (pos 1);
  consecutive_fails = add64 cb.consecutive_fails (pos 1);
  consecutive_ok = pos 0;
  last_failure_at = now;
})

-- A call of one of the three methods.
pub data Event : Type 0 where
  ask : ℤ → Event
  succeed : Event
  fail : ℤ → ℤ → Event

abbrev pub handle : CircuitBreaker → Event → CircuitBreaker
handle cb (ask now) = (allow now cb).0
handle cb succeed = record_success cb
handle cb (fail now opened) = record_failure now opened cb

-- What the calls of `Allow` answer, in their order.
abbrev pub answer : CircuitBreaker → Event → List Bool → List Bool
answer cb (ask now) later = (allow now cb).1 ∷ later
answer cb succeed later = later
answer cb (fail now opened) later = later

pub answers : CircuitBreaker → List Event → List Bool
answers cb [] = []
answers cb (e ∷ es) = answer cb e (answers (handle cb e) es)

pub run : CircuitBreaker → List Event → CircuitBreaker
run cb [] = cb
run cb (e ∷ es) = run (handle cb e) es
