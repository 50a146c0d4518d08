-- ===== src/Retry/Attempts.antt =====
-- How many calls `Do` of internal/pkg/retry/retry.go makes, and what it returns.
use resilient_settlement_orc.Base.{
  ℕ, zero, suc, ◌+◌, ◌≤◌, ◌<◌, ◌≡◌, Bool-cases, Option-cases, inl, inr, ◌⊎◌, ◌∙◌, sym, ap, subst,
  true, false, Option, none, some, arith, refl, ◌==◌,
}
use resilient_settlement_orc.Base.Int.{ℤ, pos}
use resilient_settlement_orc.Retry.{
  GoError, is_non_retryable, Result, success, aborted, cancelled, exhausted, Environment, attempts,
  do_, rounds,
}

-- Attempt `i` fails in a way that lets `Do` go on: with an error that may be retried, and no end
-- of the context while `Do` waits.
abbrev pub GoesOn : Environment → ℕ → Type 0
GoesOn env i =
    (e : GoError) × (env.call i ≡ some e) × (is_non_retryable e ≡ false) × (env.done i ≡ none)

-- How a run ends that makes `made` of at most `limit` calls; the calls are counted from 0.
abbrev pub EndsBy : Environment → ℤ → ℕ → ℕ → Result → Type 0
EndsBy env max limit made success = (k : ℕ) × (made ≡ suc k) × (env.call k ≡ none)
EndsBy env max limit made (aborted e) =
    (k : ℕ) × (made ≡ suc k) × (env.call k ≡ some e) × (is_non_retryable e ≡ true)
EndsBy env max limit made (cancelled c) =
    (k : ℕ) × (made ≡ suc k) × (made < limit) × (env.done k ≡ some c)
EndsBy env max limit made (exhausted n last) =
    (made ≡ limit) × (n ≡ max) × ((k : ℕ) → suc k ≡ limit → last ≡ env.call k)

pub record Summary (env : Environment) (max : ℤ) (start limit : ℕ) (run : ℕ × Result) : Type 0 where
  pub bounded : run.0 ≤ limit
  pub went_on : (i : ℕ) → start ≤ i → suc i < run.0 → GoesOn env i
  pub ends : EndsBy env max limit run.0 run.1

le_cases : (a b : ℕ) → a ≤ b → (a ≡ b) ⊎ (a + 1 ≤ b)
le_cases a b h = grind arith

GoesOn-at : (env : Environment) (i j : ℕ) → i ≡ j → GoesOn env i → GoesOn env j
GoesOn-at env i j e g = subst (λ k. GoesOn env k) e g

-- One attempt that lets the loop go on, before the others.
later :
    {env : Environment} {max : ℤ} {start limit : ℕ} {run : ℕ × Result}
    → GoesOn env start
    → Summary env max (start + 1) limit run
    → Summary env max start limit run
later {env} {max} {start} {limit} {run} g s = record {
  bounded = s.bounded;
  went_on = λ i a b. elim (le_cases start i a) [
    | inl e ↦ GoesOn-at env start i e g
    | inr more ↦ s.went_on i more b
  ];
  ends = s.ends;
}

attempts-Summary :
    (env : Environment) (max : ℤ) (left attempt limit : ℕ) (last : Option GoError)
    → attempt + left ≡ limit
    → ((k : ℕ) → suc k ≡ attempt → last ≡ env.call k)
    → Summary env max attempt limit (attempts env max left attempt last)
unfolding attempts
attempts-Summary env max zero attempt limit last eq h = record {
  bounded = omega arith;
  went_on = λ i a b. absurd (omega arith);
  ends = (omega arith, refl, λ k e. h k (omega arith));
}
attempts-Summary env max (suc left) attempt limit last eq h =
    elim (Option-cases (env.call attempt)) [
      | inl none_e ↦
          rw (none_e, attempts)
            (record {
              bounded = omega arith;
              went_on = λ i a b. absurd (omega arith);
              ends = (attempt, omega arith, none_e);
            })
      | inr (e, some_e) ↦ elim (Bool-cases (is_non_retryable e)) [
        | inl stop ↦
            rw (some_e, attempts)
              (rw stop (record {
                bounded = omega arith;
                went_on = λ i a b. absurd (omega arith);
                ends = (attempt, omega arith, some_e, stop);
              }))
        | inr retry ↦ elim (Bool-cases (left == 0)) [
          | inl over ↦
              rw (some_e, attempts)
                (rw (retry, over)
                  (record {
                    bounded = omega arith;
                    went_on = λ i a b. absurd (omega arith);
                    ends = (ground arith, refl, λ k q. sym some_e ∙ ap env.call (ground arith));
                  }))
          | inr more ↦ elim (Option-cases (env.done attempt)) [
            | inr (c, some_c) ↦
                rw (some_e, attempts)
                  (rw (retry, more, some_c)
                    (record {
                      bounded = omega arith;
                      went_on = λ i a b. absurd (omega arith);
                      ends = (attempt, omega arith, ground arith, some_c);
                    }))
            | inl none_c ↦
                rw (some_e, attempts)
                  (rw (retry, more, none_c)
                    (later (e, some_e, retry, none_c)
                      (attempts-Summary env max left (attempt + 1) limit _ (omega arith)
                        (λ k q. ap env.call (omega arith)))))
          ]
        ]
      ]
    ]

-- `Do` makes at most `MaxAttempts` calls, none if that is not positive. Before its last call
-- every call failed with an error that may be retried, and the context was not done in the wait
-- after it. It returns nil only when its last call succeeded, an error as it is only when that
-- call returned it as non-retryable, the context's error only when the context was done in the
-- wait after that call, which was not the last allowed; and "failed after n attempts", with the
-- last call's error, only when all the allowed calls were made.
pub do-Summary : (env : Environment) (max : ℤ) → Summary env max 0 (rounds max) (do_ env max)
unfolding do_
do-Summary env max =
    attempts-Summary env max (rounds max) 0 (rounds max) none (omega arith)
      (λ k q. absurd (omega arith))

attempts-GoesOn :
    (env : Environment) (max : ℤ) (left attempt : ℕ) (last : Option GoError)
    → 0 < left
    → GoesOn env attempt
    → attempts env max (suc left) attempt last
      ≡ attempts env max left (attempt + 1) (env.call attempt)
unfolding attempts
attempts-GoesOn env max left attempt last h (e, call_e, retry, none_c) =
    rw (call_e, attempts) (rw (retry, none_c) (ground arith))

attempts-success :
    (env : Environment) (max : ℤ) (left attempt : ℕ) (last : Option GoError)
    → env.call attempt ≡ none
    → attempts env max (suc left) attempt last ≡ (attempt + 1, success)
unfolding attempts
attempts-success env max left attempt last h = rw (h, attempts)

succeeds_at :
    (env : Environment) (max : ℤ) (n left attempt : ℕ) (last : Option GoError)
    → attempt ≤ n
    → n < attempt + left
    → ((i : ℕ) → attempt ≤ i → i < n → GoesOn env i)
    → env.call n ≡ none
    → attempts env max left attempt last ≡ (suc n, success)
succeeds_at env max n zero attempt last a h g s = absurd (omega arith)
succeeds_at env max n (suc left) attempt last a h g s = elim (le_cases attempt n a) [
  | inl e ↦ attempts-success env max left attempt last (ap env.call e ∙ s) ∙ ground arith
  | inr more ↦
      attempts-GoesOn env max left attempt last (omega arith)
        (g attempt (omega arith) (omega arith))
      ∙ succeeds_at env max n left (attempt + 1) (env.call attempt) more (omega arith)
          (λ i x y. g i (omega arith) y) s
]

-- If the operation succeeds at its n-th call, within `MaxAttempts`, and goes on before, then `Do`
-- returns nil after exactly that call.
pub do-success :
    (env : Environment) (max n : ℕ)
    → n < max
    → ((i : ℕ) → i < n → GoesOn env i)
    → env.call n ≡ none
    → do_ env (pos max) ≡ (suc n, success)
unfolding do_
do-success env max n h g s =
    succeeds_at env (pos max) n max 0 none (omega arith) (omega arith) (λ i x y. g i y) s
