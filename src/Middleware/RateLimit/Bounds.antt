-- ===== src/Middleware/RateLimit/Bounds.antt =====
-- How many requests the limiter of internal/middleware/ratelimit.go lets through.
use resilient_settlement_orc.Base.{
  ℕ, suc, ◌+◌, ◌-◌, ◌*◌, ◌/◌, ◌≤◌, String, Bool, true, ◌≡◌, refl, sym, ap, subst, ◌∙◌, Option, none,
  some, List, [], ◌∷◌, arith, str_eq, eq_iff, leb, Bool-cases, inl, inr, if◌then◌else◌,
}
use resilient_settlement_orc.Base.Int.{pos, ◌-ℤ◌, ◌≤ℤ◌, ltb_ℤ}
use resilient_settlement_orc.Base.Int64.{wrap64, sub64, wrap64_exact}
use resilient_settlement_orc.Base.Dict.{
  Dict, lookup, insert, lookup-insert, Unique, Unique-insert, Unique-remove_if, lookup-remove_if,
  keep_unless,
}
use resilient_settlement_orc.Middleware.RateLimit.{
  Bucket, RateLimiter, refill, allow, allow_with, store, take_token, is_stale, cleanup, stale_after,
}
use resilient_settlement_orc.Middleware.RateLimit.Refill.{deployed, IsPaid, refill-IsPaid}

-- A request of a key, with the two readings of the clock, or a round of the cleanup.
pub data Call : Type 0 where
  ask : String → ℕ → ℕ → Call
  clean : ℕ → Call

abbrev add_if : Bool → ℕ → ℕ
add_if ok n = if ok then suc n else n

-- The visitors after some calls, and how many requests of a key have been let through.
abbrev counted : String → String → RateLimiter × Bool → ℕ → Dict Bucket × ℕ
counted key asked (rl, ok) n = (rl.visitors, if str_eq asked key then add_if ok n else n)

unfoldable pub serve : String → Dict Bucket × ℕ → Call → Dict Bucket × ℕ
serve key (m, n) (ask asked now filled) =
    counted key asked (allow (pos now) (pos filled) asked (deployed m)) n
serve key (m, n) (clean now) = ((cleanup (pos now) (deployed m)).visitors, n)

pub serve_all : String → Dict Bucket × ℕ → List Call → Dict Bucket × ℕ
serve_all key x [] = x
serve_all key x (c ∷ cs) = serve_all key (serve key x c) cs

-- The clock never goes back: the calls stand between two instants, each after the one before it.
unfoldable pub InOrder : ℕ → List Call → ℕ → Type 0
InOrder from [] to = from ≤ to
InOrder from (ask key now filled ∷ cs) to = (from ≤ now) × (now ≤ filled) × InOrder filled cs to
InOrder from (clean now ∷ cs) to = (from ≤ now) × InOrder now cs to

-- The account of a key at an instant, by its bucket if it has one.
abbrev Balanced : ℕ → ℕ → ℕ → Option Bucket → Type 0
Balanced start n now none = n ≤ 100 * ((now - start) / 1_000_000_000)
Balanced start n now (some b) = IsPaid start n b × (b.last_fill ≤ℤ pos now)

pos--ℤ : (k : ℕ) → 1 ≤ k → pos k -ℤ pos 1 ≡ pos (k - 1)
unfolding ◌-ℤ◌
pos--ℤ k h = ground arith

sub64-pos : (k : ℕ) → 1 ≤ k → k ≤ 200 → sub64 (pos k) (pos 1) ≡ pos (k - 1)
unfolding sub64
sub64-pos k h g = ap wrap64 (pos--ℤ k h) ∙ wrap64_exact (pos (k - 1)) (omega arith, omega arith)

-- Taking a token from a paid bucket.
take-IsPaid :
    (start n : ℕ) (b : Bucket)
    → IsPaid start n b
    → IsPaid start (add_if (take_token b).1 n) (take_token b).0
take-IsPaid start n b (f, k, same, cap, after, paid) = rw same (elim (Bool-cases (leb (k + 0) 0)) [
  | inl empty ↦ rw empty (f, k, refl, cap, after, paid)
  | inr left ↦
      rw (left, sub64-pos k (ground arith) cap) (f, k - 1, refl, omega arith, after, ground arith)
])

-- What a request does to the bucket of its key, and whether it is let through.
abbrev served : ℕ → ℕ → Dict Bucket → Option Bucket → Bucket × Bool
served now filled m none = (record { tokens = sub64 (pos 200) (pos 1); last_fill = pos now }, true)
served now filled m (some b) = take_token (refill (deployed m) (pos now) (pos filled) b)

allow-served :
    (now filled : ℕ) (key : String) (m : Dict Bucket)
    → allow (pos now) (pos filled) key (deployed m) ≡ (
      deployed (insert key (served now filled m (lookup key m)).0 m),
      (served now filled m (lookup key m)).1,
    )
unfolding allow
allow-served now filled key m = by_bucket (lookup key m)
  where
    by_pair : (x : Bucket × Bool) → store (deployed m) key x ≡ (deployed (insert key x.0 m), x.1)
    by_pair (b, ok) = refl

    by_bucket :
        (o : Option Bucket)
        → allow_with (deployed m) (pos now) (pos filled) key o
          ≡ (deployed (insert key (served now filled m o).0 m), (served now filled m o).1)
    by_bucket none = refl
    by_bucket (some b) = by_pair (take_token (refill (deployed m) (pos now) (pos filled) b))

last_fill-refill :
    (now filled : ℕ) (m : Dict Bucket) (b : Bucket)
    → b.last_fill ≤ℤ pos now
    → now ≤ filled
    → (take_token (refill (deployed m) (pos now) (pos filled) b)).0.last_fill ≤ℤ pos filled
unfolding refill
last_fill-refill now filled m b h g = ground arith

served-Balanced :
    (start n before now filled : ℕ) (m : Dict Bucket) (o : Option Bucket)
    → start ≤ before
    → before ≤ now
    → now ≤ filled
    → Balanced start n before o
    → Balanced start (add_if (served now filled m o).1 n) filled (some (served now filled m o).0)
served-Balanced start n before now filled m none s h g bal = (
  (
    now,
    199,
    rw (sub64-pos 200 (omega arith) (omega arith)) refl,
    omega arith,
    omega arith,
    omega arith,
  ),
  omega arith,
)
served-Balanced start n before now filled m (some b) s h g ((f, k, same, cap, after, paid), old) =
    let early : f ≤ before = ground (arith, old, same) in
    (
      take-IsPaid start n _ (
          subst (λ c. IsPaid start n (refill (deployed m) (pos now) (pos filled) c)) (sym same)
            (refill-IsPaid start n now filled k f m cap after paid (omega (arith, early, h)) g)),
      last_fill-refill now filled m b (ground (arith, old, h)) g,
    )

-- Time that passes leaves an account balanced.
later-Balanced :
    (start n before now : ℕ) (o : Option Bucket)
    → before ≤ now
    → Balanced start n before o
    → Balanced start n now o
later-Balanced start n before now none h bal = omega (arith, bal)
later-Balanced start n before now (some b) h (paid, old) = (paid, ground (arith, old, h))

keep-Balanced :
    (start n now : ℕ) (o : Option Bucket)
    → Balanced start n now o
    → Balanced start n now (keep_unless (is_stale (pos now -ℤ stale_after)) o)
unfolding ◌-ℤ◌
keep-Balanced start n now none bal = bal
keep-Balanced start n now (some b) ((f, k, same, cap, after, paid), old) =
    elim (Bool-cases (ltb_ℤ b.last_fill (pos now -ℤ stale_after))) [
      | inl stale ↦ rw stale (ground (arith, same))
      | inr fresh ↦ rw fresh ((f, k, same, cap, after, paid), old)
    ]

-- What holds of the visitors and the count of a key at an instant.
abbrev IsAccounted : ℕ → String → ℕ → Dict Bucket × ℕ → Type 0
IsAccounted start key now (m, n) = Unique m × Balanced start n now (lookup key m)

ask-IsAccounted :
    (start before now filled : ℕ) (key asked : String) (m : Dict Bucket) (n : ℕ)
    → start ≤ before
    → before ≤ now
    → now ≤ filled
    → IsAccounted start key before (m, n)
    → IsAccounted start key filled (serve key (m, n) (ask asked now filled))
unfolding serve
ask-IsAccounted start before now filled key asked m n s h g (u, bal) =
    rw (allow-served now filled asked m) (
      Unique-insert asked (served now filled m (lookup asked m)).0 m u,
      elim (Bool-cases (str_eq asked key)) [
        | inl same ↦
            rw
              (
                lookup-insert asked key (served now filled m (lookup asked m)).0 m,
                same,
                (eq_iff asked key).0 same,
              )
              (served-Balanced start n before now filled m (lookup key m) s h g bal)
        | inr other ↦
            rw (lookup-insert asked key (served now filled m (lookup asked m)).0 m, other)
              (later-Balanced start n before filled (lookup key m) (omega (arith, h, g)) bal)
      ],
    )

clean-IsAccounted :
    (start before now : ℕ) (key : String) (m : Dict Bucket) (n : ℕ)
    → before ≤ now
    → IsAccounted start key before (m, n)
    → IsAccounted start key now (serve key (m, n) (clean now))
unfolding serve cleanup
clean-IsAccounted start before now key m n h (u, bal) = (
  Unique-remove_if (is_stale (pos now -ℤ stale_after)) m u,
  rw (lookup-remove_if (is_stale (pos now -ℤ stale_after)) key m u) (
      keep-Balanced start n now (lookup key m)
        (later-Balanced start n before now (lookup key m) h bal)),
)

serve_all-IsAccounted :
    (start before to : ℕ) (key : String) (cs : List Call) (m : Dict Bucket) (n : ℕ)
    → start ≤ before
    → InOrder before cs to
    → IsAccounted start key before (m, n)
    → IsAccounted start key to (serve_all key (m, n) cs)
unfolding serve_all InOrder
serve_all-IsAccounted start before to key [] m n s o (u, bal) =
    (u, later-Balanced start n before to (lookup key m) o bal)
serve_all-IsAccounted start before to key (ask asked now filled ∷ cs) m n s (a, b, o) inv =
    serve_all-IsAccounted start filled to key cs _ _ (omega (arith, s, a, b)) o
      (ask-IsAccounted start before now filled key asked m n s a b inv)
serve_all-IsAccounted start before to key (clean now ∷ cs) m n s (a, o) inv =
    serve_all-IsAccounted start now to key cs _ _ (omega (arith, s, a)) o
      (clean-IsAccounted start before now key m n a inv)

accounted-le :
    (start to n : ℕ) (o : Option Bucket)
    → start ≤ to
    → Balanced start n to o
    → n ≤ 200 + 100 * ((to - start) / 1_000_000_000)
accounted-le start to n none h bal = omega (arith, bal)
accounted-le start to n (some b) h ((f, k, same, cap, after, paid), old) =
    let early : f ≤ to = ground (arith, old, same) in omega (arith, paid, early)

-- The deployed limiter starts with no visitors, the clock never goes back, and the rounds of the
-- cleanup come when they will. Between two instants it lets through at most 200 requests of a key,
-- and 100 more for each whole second between them.
pub serve_all-le :
    (start to : ℕ) (key : String) (cs : List Call)
    → start ≤ to
    → InOrder start cs to
    → (serve_all key ([], 0) cs).1 ≤ 200 + 100 * ((to - start) / 1_000_000_000)
serve_all-le start to key cs h o =
    accounted-le start to (serve_all key ([], 0) cs).1 (lookup key (serve_all key ([], 0) cs).0) h
      (serve_all-IsAccounted start start to key cs [] 0 (omega arith) o (tt, omega arith)).1
