-- ===== src/CircuitBreaker/Phases.antt =====
-- The breaker of internal/pkg/circuitbreaker/circuitbreaker.go and an automaton of three phases,
-- each with the one number that matters in it.
use resilient_settlement_orc.Base.{
  String, Bool, true, ◌≡◌, ◌∙◌, refl, ap, List, [], ◌∷◌, arith, if◌then◌else◌,
}
use resilient_settlement_orc.Base.Int.{ℤ, pos, ◌+ℤ◌, ◌≤ℤ◌, ◌<ℤ◌, leb_ℤ}
use resilient_settlement_orc.Base.Int64.{add64, InRange, wrap64_exact}
use resilient_settlement_orc.CircuitBreaker.{
  State, closed, open_, half_open, Config, CircuitBreaker, since, new, allow, record_success,
  record_failure, Event, ask, succeed, fail, handle, answer, answers, run,
}

-- `shut` counts failures in a row, `tripped` has the instant, `probing` counts successes in a row.
pub data Phase : Type 0 where
  shut : ℤ → Phase
  tripped : ℤ → Phase
  probing : ℤ → Phase

phase_in : State → CircuitBreaker → Phase
phase_in closed cb = shut cb.consecutive_fails
phase_in open_ cb = tripped cb.opened_at
phase_in half_open cb = probing cb.consecutive_ok

pub phase : CircuitBreaker → Phase
unfolding phase_in
phase cb = phase_in cb.state cb

-- The automaton, with exact arithmetic.
unfoldable pub spec : Config → Phase → Event → Phase
spec cfg (tripped t) (ask now) =
    if leb_ℤ cfg.open_timeout (since now t) then probing (pos 0) else tripped t
spec cfg p (ask now) = p
spec cfg (shut n) succeed = shut (pos 0)
spec cfg (tripped t) succeed = tripped t
spec cfg (probing n) succeed =
    if leb_ℤ cfg.success_threshold (n +ℤ pos 1) then shut (pos 0) else probing (n +ℤ pos 1)
spec cfg (shut n) (fail now opened) =
    if leb_ℤ cfg.failure_threshold (n +ℤ pos 1) then tripped opened else shut (n +ℤ pos 1)
spec cfg (tripped t) (fail now opened) = tripped t
spec cfg (probing n) (fail now opened) = tripped opened

pub spec_run : Config → Phase → List Event → Phase
spec_run cfg p [] = p
spec_run cfg p (e ∷ es) = spec_run cfg (spec cfg p e) es

-- Whether a request is let through: always, but for the time that a tripped breaker waits.
abbrev pub admits : Config → Phase → ℤ → Bool
admits cfg (shut n) now = true
admits cfg (tripped t) now = leb_ℤ cfg.open_timeout (since now t)
admits cfg (probing n) now = true

abbrev spec_answer : Config → Phase → Event → List Bool → List Bool
spec_answer cfg p (ask now) later = admits cfg p now ∷ later
spec_answer cfg p succeed later = later
spec_answer cfg p (fail now opened) later = later

pub spec_answers : Config → Phase → List Event → List Bool
spec_answers cfg p [] = []
spec_answers cfg p (e ∷ es) = spec_answer cfg p e (spec_answers cfg (spec cfg p e) es)

-- A threshold is positive and an `int`.
abbrev pub IsUsable : Config → Type 0
IsUsable cfg =
    (pos 1 ≤ℤ cfg.failure_threshold)
    × (pos 1 ≤ℤ cfg.success_threshold)
    × InRange cfg.failure_threshold
    × InRange cfg.success_threshold

-- A closed breaker is short of its failure threshold, and a probing one of its success threshold.
pub record IsValid (cb : CircuitBreaker) : Type 0 where
  pub fails_nonneg : cb.state ≡ closed → pos 0 ≤ℤ cb.consecutive_fails
  pub fails_capped : cb.state ≡ closed → cb.consecutive_fails <ℤ cb.cfg.failure_threshold
  pub ok_nonneg : cb.state ≡ half_open → pos 0 ≤ℤ cb.consecutive_ok
  pub ok_capped : cb.state ≡ half_open → cb.consecutive_ok <ℤ cb.cfg.success_threshold

add64_one : (n m : ℤ) → pos 0 ≤ℤ n → n <ℤ m → InRange m → add64 n (pos 1) ≡ n +ℤ pos 1
unfolding add64 ◌+ℤ◌
add64_one n m h k r = wrap64_exact (n +ℤ pos 1) (ground arith)

handle-cfg : (cb : CircuitBreaker) (e : Event) → (handle cb e).cfg ≡ cb.cfg
unfolding allow record_success record_failure
handle-cfg cb (ask now) = ground arith
handle-cfg cb succeed = ground arith
handle-cfg cb (fail now opened) = ground arith

handle-IsValid :
    (cb : CircuitBreaker) (e : Event) → IsUsable cb.cfg → IsValid cb → IsValid (handle cb e)
unfolding allow record_success record_failure ◌+ℤ◌
handle-IsValid cb (ask now) u v = ground arith
handle-IsValid cb succeed u v = ground (arith, add64_one cb.consecutive_ok cb.cfg.success_threshold)
handle-IsValid cb (fail now opened) u v =
    ground (arith, add64_one cb.consecutive_fails cb.cfg.failure_threshold)

-- Every method does to the breaker's phase what the automaton does.
phase-handle :
    (cb : CircuitBreaker) (e : Event)
    → IsUsable cb.cfg
    → IsValid cb
    → phase (handle cb e) ≡ spec cb.cfg (phase cb) e
unfolding phase spec allow record_success record_failure ◌+ℤ◌
phase-handle cb (ask now) u v = ground arith
phase-handle cb succeed u v = ground (arith, add64_one cb.consecutive_ok cb.cfg.success_threshold)
phase-handle cb (fail now opened) u v =
    ground (arith, add64_one cb.consecutive_fails cb.cfg.failure_threshold)

-- `Allow` answers what the automaton does.
allow-admits : (now : ℤ) (cb : CircuitBreaker) → (allow now cb).1 ≡ admits cb.cfg (phase cb) now
unfolding allow phase
allow-admits now cb = ground arith

answer-phase :
    (cb : CircuitBreaker) (e : Event) (later : List Bool)
    → answer cb e later ≡ spec_answer cb.cfg (phase cb) e later
answer-phase cb (ask now) later = ap (λ b. b ∷ later) (allow-admits now cb)
answer-phase cb succeed later = refl
answer-phase cb (fail now opened) later = refl

answers-run :
    (cb : CircuitBreaker) (es : List Event)
    → IsUsable cb.cfg
    → IsValid cb
    → answers cb es ≡ spec_answers cb.cfg (phase cb) es
unfolding answers spec_answers
answers-run cb [] u v = refl
answers-run cb (e ∷ es) u v =
    ap (answer cb e) (
      answers-run (handle cb e) es (rw (handle-cfg cb e) u) (handle-IsValid cb e u v)
      ∙ (rw (handle-cfg cb e, phase-handle cb e u v) refl))
    ∙ answer-phase cb e (spec_answers cb.cfg (spec cb.cfg (phase cb) e) es)

run-IsValid :
    (cb : CircuitBreaker) (es : List Event) → IsUsable cb.cfg → IsValid cb → IsValid (run cb es)
unfolding run
run-IsValid cb [] u v = v
run-IsValid cb (e ∷ es) u v =
    run-IsValid (handle cb e) es (rw (handle-cfg cb e) u) (handle-IsValid cb e u v)

phase-run :
    (cb : CircuitBreaker) (es : List Event)
    → IsUsable cb.cfg
    → IsValid cb
    → phase (run cb es) ≡ spec_run cb.cfg (phase cb) es
unfolding run spec_run
phase-run cb [] u v = refl
phase-run cb (e ∷ es) u v =
    phase-run (handle cb e) es (rw (handle-cfg cb e) u) (handle-IsValid cb e u v)
    ∙ rw (handle-cfg cb e, phase-handle cb e u v)

new-IsValid : (name : String) (cfg : Config) → IsUsable cfg → IsValid (new name cfg)
unfolding new
new-IsValid name cfg u = ground arith

-- A new breaker with a usable configuration is given any calls of its methods. Each `Allow` answers
-- what the automaton answers that starts with no failures and is given the same calls, the breaker
-- ends in the automaton's phase, and it is valid.
pub run-new :
    (name : String) (cfg : Config) (es : List Event)
    → IsUsable cfg
    → (answers (new name cfg) es ≡ spec_answers cfg (shut (pos 0)) es)
      × (phase (run (new name cfg) es) ≡ spec_run cfg (shut (pos 0)) es)
      × IsValid (run (new name cfg) es)
unfolding new phase
run-new name cfg es u = (
  answers-run (new name cfg) es u (new-IsValid name cfg u),
  phase-run (new name cfg) es u (new-IsValid name cfg u),
  run-IsValid (new name cfg) es u (new-IsValid name cfg u),
)
