-- ===== src/Retry.antt =====
-- internal/pkg/retry/retry.go: `Do` and the non-retryable errors. What the environment decides is
-- an argument: what the n-th call of the operation returns, and whether the context is done while
-- `Do` waits after the n-th attempt. The spans and the log lines are left out.
pub mod Attempts
use resilient_settlement_orc.Base.{
  ℕ, zero, suc, ◌+◌, ◌-◌, String, Bool, true, false, Option, none, some, if◌then◌else◌, ◌==◌, ltb,
}
use resilient_settlement_orc.Base.Int.{ℤ, pos, negsuc}

-- Go errors: a plain one, the wrapper `nonRetryableError`, and `fmt.Errorf` with `%w`.
pub data GoError : Type 0 where
  plain : String → GoError
  non_retryable : GoError → GoError
  wrapped : String → GoError → GoError

-- `IsNonRetryable`: `errors.As` goes down the chain of wrapped errors.
unfoldable pub is_non_retryable : GoError → Bool
is_non_retryable (plain msg) = false
is_non_retryable (non_retryable e) = true
is_non_retryable (wrapped msg e) = is_non_retryable e

-- What `Do` returns: nil, the error of an attempt as it is, the context's error, or the error of
-- the last attempt wrapped with the number of attempts (`lastErr` is nil if there were none).
pub data Result : Type 0 where
  success : Result
  aborted : GoError → Result
  cancelled : GoError → Result
  exhausted : ℤ → Option GoError → Result

pub record Environment : Type 0 where
  pub call : ℕ → Option GoError
  pub done : ℕ → Option GoError

-- The loop, with the number of rounds left; it returns the number of calls made too.
unfoldable pub attempts : Environment → ℤ → ℕ → ℕ → Option GoError → ℕ × Result
attempts env max zero attempt last = (attempt, exhausted max last)
attempts env max (suc left) attempt last =
    let rest = attempts env max left (attempt + 1) (env.call attempt) in
    elim (env.call attempt) [
      | none ↦ (attempt + 1, success)
      | some e ↦
          if is_non_retryable e
          then (attempt + 1, aborted e)
          else if left == 0
          then (attempt + 1, exhausted max (some e))
          else elim (env.done attempt) [ some c ↦ (attempt + 1, cancelled c) | none ↦ rest ]
    ]

abbrev pub rounds : ℤ → ℕ
rounds (pos n) = n
rounds (negsuc n) = 0

-- `Do` with `cfg.MaxAttempts`; a limit that is not positive makes no call.
unfoldable pub do_ : Environment → ℤ → ℕ × Result
unfolding attempts
do_ env max_attempts = attempts env max_attempts (rounds max_attempts) 0 none
