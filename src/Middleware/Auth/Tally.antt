-- ===== src/Middleware/Auth/Tally.antt =====
-- The failures that internal/middleware/auth.go remembers of one address, within one quarter of an
-- hour: the entry after a number of tokens that are not valid.
use resilient_settlement_orc.Base.{
  ℕ, suc, ◌≤◌, String, false, ◌≡◌, refl, ap, ◌∙◌, Option, none, some, arith, leb,
}
use resilient_settlement_orc.Base.Int.{pos, ◌+ℤ◌, ◌-ℤ◌, ltb_ℤ}
use resilient_settlement_orc.Base.Int64.{add64, wrap64, wrap64_exact}
use resilient_settlement_orc.Base.Dict.{Dict, lookup}
use resilient_settlement_orc.CircuitBreaker.{since}
use resilient_settlement_orc.Base.Dict.{keep_unless}
use resilient_settlement_orc.Middleware.Auth.{
  is_expired, AuthFailureEntry, is_blocked, blocked_by, failed_entry,
}
use resilient_settlement_orc.Middleware.Auth.Attempts.{deployed, InWindow}

not_expired :
    (start f now : ℕ)
    → InWindow start f
    → InWindow start now
    → ltb_ℤ (pos 900_000_000_000) (since (pos now) (pos f)) ≡ false
unfolding since ◌-ℤ◌
not_expired start f now h g = ground (arith, h, g)

-- The entry of an address that has got 403 so many times.
abbrev pub Tally : ℕ → ℕ → Option AuthFailureEntry → Type 0
Tally start n none = n ≡ 0
Tally start n (some e) =
    (f : ℕ) × (e ≡ record { count = pos n; first_at = pos f })
    × InWindow start f
    × (1 ≤ n)
    × (n ≤ 9_223_372_036_854_775_807)

blocked_by-Tally :
    (start n asked : ℕ) (ip : String) (m : Dict AuthFailureEntry)
    → InWindow start asked
    → (o : Option AuthFailureEntry) → Tally start n o
    → blocked_by (pos asked) ip (deployed m) o ≡ (deployed m, leb 10 n)
blocked_by-Tally start n asked ip m h none t = ground (arith, t)
blocked_by-Tally start n asked ip m h (some e) (f, same, g, low, most) =
    rw (same, not_expired start f asked g h) (ground arith)

pub is_blocked-Tally :
    (start n asked : ℕ) (ip : String) (m : Dict AuthFailureEntry)
    → InWindow start asked
    → Tally start n (lookup ip m)
    → is_blocked (pos asked) ip (deployed m) ≡ (deployed m, leb 10 n)
unfolding is_blocked
is_blocked-Tally start n asked ip m h t = blocked_by-Tally start n asked ip m h (lookup ip m) t

pos-+ℤ : (n : ℕ) → pos n +ℤ pos 1 ≡ pos (suc n)
unfolding ◌+ℤ◌
pos-+ℤ n = ground arith

add64-suc : (n : ℕ) → n ≤ 9_223_372_036_854_775_806 → add64 (pos n) (pos 1) ≡ pos (suc n)
unfolding add64
add64-suc n h = ap wrap64 (pos-+ℤ n) ∙ wrap64_exact (pos (suc n)) (omega arith, omega arith)

pub failed_entry-Tally :
    (start n now first : ℕ) (m : Dict AuthFailureEntry)
    → InWindow start now
    → InWindow start first
    → n ≤ 9_223_372_036_854_775_806
    → (o : Option AuthFailureEntry) → Tally start n o
    → Tally start (suc n) (some (failed_entry (deployed m) (pos now) (pos first) o))
failed_entry-Tally start n now first m h k few none t =
    (first, ground (arith, t), k, omega arith, omega (arith, t))
failed_entry-Tally start n now first m h k few (some e) (f, same, g, low, most) =
    rw (same, not_expired start f now g h)
      (f, rw (add64-suc n few) refl, g, omega arith, omega arith)

-- A round of the cleanup finds no entry whose window is over.
pub keep_unless-Tally :
    (start n now : ℕ)
    → InWindow start now
    → (o : Option AuthFailureEntry) → Tally start n o
    → Tally start n (keep_unless (is_expired (pos 900_000_000_000) (pos now)) o)
keep_unless-Tally start n now h none t = t
keep_unless-Tally start n now h (some e) (f, same, g, low, most) =
    rw (same, not_expired start f now g h) (f, refl, g, low, most)
