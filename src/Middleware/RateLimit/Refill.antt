-- ===== src/Middleware/RateLimit/Refill.antt =====
-- The buckets of internal/middleware/ratelimit.go, refilled as deployed.
use resilient_settlement_orc.Base.{
  ℕ, ◌+◌, ◌-◌, ◌*◌, ◌/◌, ◌≤◌, ◌≡◌, refl, ap, ◌∙◌, arith, ltb, Bool-cases, inl, inr, if◌then◌else◌,
}
use resilient_settlement_orc.Base.Int.{pos, ◌+ℤ◌, ◌-ℤ◌}
use resilient_settlement_orc.Base.Int64.{wrap64, add64, wrap64_exact}
use resilient_settlement_orc.Base.Dict.{Dict}
use resilient_settlement_orc.CircuitBreaker.{since}
use resilient_settlement_orc.Middleware.RateLimit.{Bucket, RateLimiter, quotient, mul64, refill}

-- The limiter that cmd/server/main.go makes: 100 requests a second, 200 at once.
abbrev pub deployed : Dict Bucket → RateLimiter
deployed visitors = record {
  visitors = visitors;
  rate = pos 100;
  interval = pos 1_000_000_000;
  burst = pos 200;
}

-- A bucket that counts from `start`, whose key has had `n` requests let through.
abbrev pub IsPaid : ℕ → ℕ → Bucket → Type 0
IsPaid start n b =
    (f : ℕ) × (k : ℕ) × (b ≡ record { tokens = pos k; last_fill = pos f })
    × (k ≤ 200)
    × (start ≤ f)
    × (n + k ≤ 200 + 100 * ((f - start) / 1_000_000_000))

-- The time since an instant that is not in the future.
since-le :
    (f now : ℕ)
    → f ≤ now
    → (e : ℕ) × (since (pos now) (pos f) ≡ pos e) × (e ≤ now - f) × (e ≤ 9_223_372_036_854_775_807)
unfolding since ◌-ℤ◌
since-le f now h = elim (Bool-cases (ltb 9_223_372_036_854_775_807 (now - f))) [
  | inl long ↦ (9_223_372_036_854_775_807, ground arith, ground arith, omega arith)
  | inr short ↦ (now - f, ground arith, omega arith, ground arith)
]

quotient-pos : (e : ℕ) → quotient (pos e) (pos 1_000_000_000) ≡ pos (e / 1_000_000_000)
unfolding quotient
quotient-pos e = refl

mul64-pos : (d : ℕ) → d ≤ 9_223_372_036 → mul64 (pos d) (pos 100) ≡ pos (d * 100)
unfolding mul64
mul64-pos d h = wrap64_exact (pos (d * 100)) (omega arith, omega arith)

refill_amount :
    (f now : ℕ)
    → f ≤ now
    → (d : ℕ) × (mul64 (quotient (since (pos now) (pos f)) (pos 1_000_000_000)) (pos 100)
        ≡ pos (d * 100))
      × (d ≤ (now - f) / 1_000_000_000)
      × (d ≤ 9_223_372_036)
refill_amount f now h =
    let (e, same, le, fits) = since-le f now h in
    (
      e / 1_000_000_000,
      rw (same, quotient-pos e) (mul64-pos (e / 1_000_000_000) (omega arith)),
      omega arith,
      omega arith,
    )

pos-+ℤ : (k n : ℕ) → pos k +ℤ pos n ≡ pos (k + n)
unfolding ◌+ℤ◌
pos-+ℤ k n = ground arith

add64-pos :
    (k d : ℕ) → k ≤ 200 → d ≤ 9_223_372_036 → add64 (pos k) (pos (d * 100)) ≡ pos (k + d * 100)
unfolding add64
add64-pos k d h g =
    ap wrap64 (pos-+ℤ k (d * 100)) ∙ wrap64_exact (pos (k + d * 100)) (omega arith, omega arith)

abbrev filled_bucket : ℕ → ℕ → ℕ → ℕ → Bucket
filled_bucket k f d filled =
    if ltb 0 (d * 100)
    then record {
      tokens = if ltb 200 (k + d * 100) then pos 200 else pos (k + d * 100);
      last_fill = pos filled;
    }
    else record { tokens = pos k; last_fill = pos f }

refill_value :
    (now filled : ℕ) (m : Dict Bucket) (k f d : ℕ)
    → mul64 (quotient (since (pos now) (pos f)) (pos 1_000_000_000)) (pos 100) ≡ pos (d * 100)
    → k ≤ 200
    → d ≤ 9_223_372_036
    → refill (deployed m) (pos now) (pos filled) (record { tokens = pos k; last_fill = pos f })
      ≡ filled_bucket k f d filled
unfolding refill
refill_value now filled m k f d amount h g = rw (amount, add64-pos k d h g) (ground arith)

filled-IsPaid :
    (start n k f d now filled : ℕ)
    → k ≤ 200
    → start ≤ f
    → n + k ≤ 200 + 100 * ((f - start) / 1_000_000_000)
    → d ≤ (now - f) / 1_000_000_000
    → f ≤ now
    → now ≤ filled
    → IsPaid start n (filled_bucket k f d filled)
filled-IsPaid start n k f d now filled cap after paid le before later =
    elim (Bool-cases (ltb 0 (d * 100))) [
      | inr idle ↦ rw idle (f, k, refl, cap, after, paid)
      | inl more ↦ elim (Bool-cases (ltb 200 (k + d * 100))) [
        | inl full ↦ rw (more, full) (filled, 200, refl, omega arith, omega arith, ground arith)
        | inr part ↦
            rw (more, part) (filled, k + d * 100, refl, ground arith, omega arith, omega arith)
      ]
    ]

-- A refill keeps the account, if the second reading of the clock is not before the first.
pub refill-IsPaid :
    (start n now filled k f : ℕ) (m : Dict Bucket)
    → k ≤ 200
    → start ≤ f
    → n + k ≤ 200 + 100 * ((f - start) / 1_000_000_000)
    → f ≤ now
    → now ≤ filled
    → IsPaid start n
        (refill (deployed m) (pos now) (pos filled) (record { tokens = pos k; last_fill = pos f }))
refill-IsPaid start n now filled k f m cap after paid before later =
    let (d, amount, le, small) = refill_amount f now before in
    rw (refill_value now filled m k f d amount cap small)
      (filled-IsPaid start n k f d now filled cap after paid le before later)
