-- ===== src/Middleware/Auth/Overlap.antt =====
-- Requests that overlap in `APIKeyAuth` of internal/middleware/auth.go. It takes the lock of the
-- tracker twice: to ask whether the address is blocked, and to record how its token was judged.
-- Between the two, other requests do the same, and the cleanup runs.
use resilient_settlement_orc.Base.{
  ℕ, suc, ◌+◌, ◌-◌, ◌≤◌, ◌<◌, String, Bool, false, not, ◌&&◌, ◌≡◌, ◌≢◌, ◌⊎◌, refl, Option, none,
  some, List, [], ◌∷◌, All, length, arith, str_eq, eq_iff, leb, ◌==◌, Bool-cases, inl, inr,
  if◌then◌else◌,
}
use resilient_settlement_orc.Base.Int.{pos, ltb_ℤ}
use resilient_settlement_orc.Base.Dict.{
  Dict, lookup, lookup-insert, Unique, Unique-insert, Unique-remove_if, lookup-remove_if,
}
use resilient_settlement_orc.CircuitBreaker.{since}
use resilient_settlement_orc.Middleware.Auth.{
  MerchantKey, AuthFailureEntry, AuthFailureTracker, AuthResult, is_blocked, blocked_by, checked,
  record_failed_auth, cleanup_failures, is_expired, validate_key, extract_bearer_token,
  failed_entry,
}
use resilient_settlement_orc.Middleware.Auth.Attempts.{
  deployed, is_forbidden, InWindow, Apart, erase-Apart, same-Apart, checked-Apart,
}
use resilient_settlement_orc.Middleware.Auth.Tally.{
  Tally, is_blocked-Tally, failed_entry-Tally, keep_unless-Tally,
}

-- The two halves of a request, each with its address, its header and its readings of the clock, and
-- a round of the cleanup.
pub data Event : Type 0 where
  ask : String → String → ℕ → Event
  settle : String → String → ℕ → ℕ → Event
  clean : ℕ → Event

-- The failures; and of one address, how many requests are between their halves, how many have been
-- at most, and how many were answered 403.
pub record Door : Type 0 where
  pub failures : Dict AuthFailureEntry
  pub waiting : ℕ
  pub most : ℕ
  pub forbidden : ℕ

abbrev pub closed_door : Door
closed_door = record { failures = []; waiting = 0; most = 0; forbidden = 0 }

abbrev max : ℕ → ℕ → ℕ
max m n = if leb m n then n else m

abbrev has_token : String → Bool
has_token header = not (str_eq (extract_bearer_token header) "")

-- Up to the token: 429 if the address is blocked, 401 if there is no token.
abbrev asked_with : Bool → AuthFailureTracker × Bool → Door → Door
asked_with mine (t, blocked) d =
    if mine && not blocked
    then record d {
      failures = t.failures;
      waiting = d.waiting + 1;
      most = max d.most (d.waiting + 1);
    }
    else record d { failures = t.failures }

abbrev settled_with : AuthFailureTracker × AuthResult → Door → Door
settled_with (t, a) d = record d {
  failures = t.failures;
  waiting = d.waiting - 1;
  forbidden = if is_forbidden a then suc d.forbidden else d.forbidden;
}

-- A second half of the address without a first one is no step.
unfoldable pub step : List MerchantKey → String → Door → Event → Door
step keys ip d (ask from header asked) =
    asked_with (str_eq from ip && has_token header)
      (is_blocked (pos asked) from (deployed d.failures)) d
step keys ip d (settle from header now first) =
    let x =
      checked (pos now) (pos first) keys from (extract_bearer_token header) (deployed d.failures) in
    if str_eq from ip
    then if d.waiting == 0 then d else settled_with x d
    else record d { failures = x.0.failures }
step keys ip d (clean now) = record d {
  failures = (cleanup_failures (pos now) (deployed d.failures)).failures;
}

unfoldable pub steps : List MerchantKey → String → Door → List Event → Door
steps keys ip d [] = d
steps keys ip d (e ∷ es) = steps keys ip (step keys ip d e) es

-- All readings of the clock are in the quarter of an hour from an instant.
unfoldable pub WithinWindow : ℕ → Event → Type 0
WithinWindow start (ask from header asked) = InWindow start asked
WithinWindow start (settle from header now first) = InWindow start now × InWindow start first
WithinWindow start (clean now) = InWindow start now

-- The tokens of the address that come to be judged are not valid.
unfoldable pub IsWrong : List MerchantKey → String → Event → Type 0
IsWrong keys ip (ask from header asked) = Unit {0}
IsWrong keys ip (settle from header now first) =
    (from ≢ ip)
    ⊎ (str_eq (extract_bearer_token header) "" ≡ false)
      × (validate_key (extract_bearer_token header) keys ≡ "")
IsWrong keys ip (clean now) = Unit {0}

-- The failures of the address are those that were answered 403.
record IsTallied (start : ℕ) (ip : String) (d : Door) : Type 0 where
  unique : Unique d.failures
  counted : Tally start d.forbidden (lookup ip d.failures)
  bound : d.forbidden + d.waiting ≤ 9 + d.most

-- What a step keeps, and that it brings one request more at most.
abbrev Kept : ℕ → String → Door → Door → Type 0
Kept start ip d e = IsTallied start ip e × (e.forbidden + e.waiting ≤ d.forbidden + d.waiting + 1)

is_blocked-Apart :
    (asked : ℕ) (from : String) (m : Dict AuthFailureEntry)
    → Apart from m (is_blocked (pos asked) from (deployed m)).0.failures
unfolding is_blocked
is_blocked-Apart asked from m = by_entry (lookup from m)
  where
    by_entry :
        (o : Option AuthFailureEntry)
        → Apart from m (blocked_by (pos asked) from (deployed m) o).0.failures
    by_entry none = same-Apart from m
    by_entry (some e) =
        elim (Bool-cases (ltb_ℤ (pos 900_000_000_000) (since (pos asked) e.first_at))) [
          | inl old ↦ rw old (erase-Apart from m)
          | inr young ↦ rw young (same-Apart from m)
        ]

-- A change that is about another address.
Apart-Kept :
    (start : ℕ) (ip from : String) (d : Door) (m : Dict AuthFailureEntry)
    → str_eq from ip ≡ false
    → Apart from d.failures m
    → IsTallied start ip d
    → Kept start ip d (record d { failures = m })
Apart-Kept start ip from d m other a inv = (
  record {
    unique = a.unique inv.unique;
    counted = rw (a.others ip other) inv.counted;
    bound = inv.bound;
  },
  omega arith,
)

module _ (start : ℕ) (ip : String) (k : MerchantKey) (ks : List MerchantKey) (d : Door)
    (inv : IsTallied start ip d) (room : d.forbidden + d.waiting < 9_223_372_036_854_775_807) where
  ask-Kept :
      (from header : String) (asked : ℕ)
      → InWindow start asked
      → Kept start ip d (step (k ∷ ks) ip d (ask from header asked))
  unfolding step
  ask-Kept from header asked h = elim (Bool-cases (str_eq from ip)) [
    | inr other ↦
        rw other (Apart-Kept start ip from d _ other (is_blocked-Apart asked from d.failures) inv)
    | inl mine ↦
        rw
          (
            mine,
            (eq_iff from ip).0 mine,
            is_blocked-Tally start d.forbidden asked ip d.failures h inv.counted,
          )
          (by_token (has_token header))
  ]
    where
      by_token :
          (b : Bool) → Kept start ip d (asked_with b (deployed d.failures, leb 10 d.forbidden) d)
      by_token b = (
        record {
          unique = ground (arith, inv.unique);
          counted = ground (arith, inv.counted);
          bound = ground (arith, inv.bound);
        },
        ground arith,
      )

  -- A token of the address that is judged, while some request of it waits.
  wrong-Kept :
      (header : String) (now first : ℕ)
      → InWindow start now
      → InWindow start first
      → str_eq (extract_bearer_token header) "" ≡ false
      → validate_key (extract_bearer_token header) (k ∷ ks) ≡ ""
      → (d.waiting == 0) ≡ false
      → Kept start ip d (
          settled_with
            (checked
              (pos now)
              (pos first)
              (k ∷ ks)
              ip
              (extract_bearer_token header)
              (deployed d.failures))
            d)
  unfolding record_failed_auth
  wrong-Kept header now first g l token bad some_wait =
      rw (token, bad)
        (
          record {
            unique = Unique-insert ip _ d.failures inv.unique;
            counted =
                rw
                  (
                    lookup-insert ip ip
                        (failed_entry (deployed d.failures) (pos now) (pos first)
                          (lookup ip d.failures))
                        d.failures,
                    (eq_iff ip ip).1 refl,
                  )
                  (failed_entry-Tally start d.forbidden now first d.failures g l
                    (omega (arith, room)) (lookup ip d.failures) inv.counted);
            bound = ground (arith, inv.bound, some_wait);
          },
          ground (arith, some_wait),
        )

  settle-Kept :
      (from header : String) (now first : ℕ)
      → InWindow start now
      → InWindow start first
      → IsWrong (k ∷ ks) ip (settle from header now first)
      → Kept start ip d (step (k ∷ ks) ip d (settle from header now first))
  unfolding step IsWrong
  settle-Kept from header now first g l wrong = elim (Bool-cases (str_eq from ip)) [
    | inr other ↦ rw other (
        Apart-Kept start ip from d _ other
          (checked-Apart (k ∷ ks) from (extract_bearer_token header) now first d.failures) inv)
    | inl mine ↦ elim (Bool-cases (d.waiting == 0)) [
      | inl idle ↦ rw (mine, idle) (inv, omega arith)
      | inr some_wait ↦
          let same = (eq_iff from ip).0 mine in
          rw (mine, some_wait, same)
            (elim wrong [
              | inl foreign ↦ absurd (foreign same)
              | inr (token, bad) ↦ wrong-Kept header now first g l token bad some_wait
            ])
    ]
  ]

  clean-Kept : (now : ℕ) → InWindow start now → Kept start ip d (step (k ∷ ks) ip d (clean now))
  unfolding step cleanup_failures
  clean-Kept now h = (
    record {
      unique = Unique-remove_if (is_expired (pos 900_000_000_000) (pos now)) d.failures inv.unique;
      counted =
          rw
            (lookup-remove_if (is_expired (pos 900_000_000_000) (pos now)) ip d.failures inv.unique)
            (keep_unless-Tally start d.forbidden now h (lookup ip d.failures) inv.counted);
      bound = inv.bound;
    },
    omega arith,
  )

  step-Kept :
      (e : Event)
      → WithinWindow start e
      → IsWrong (k ∷ ks) ip e
      → Kept start ip d (step (k ∷ ks) ip d e)
  unfolding WithinWindow
  step-Kept (ask from header asked) h _ = ask-Kept from header asked h
  step-Kept (settle from header now first) (g, l) wrong =
      settle-Kept from header now first g l wrong
  step-Kept (clean now) h _ = clean-Kept now h

steps-IsTallied :
    (start : ℕ) (ip : String) (k : MerchantKey) (ks : List MerchantKey) (es : List Event) (d : Door)
    → IsTallied start ip d
    → d.forbidden + d.waiting + length es ≤ 9_223_372_036_854_775_807
    → All (WithinWindow start) es
    → All (IsWrong (k ∷ ks) ip) es
    → IsTallied start ip (steps (k ∷ ks) ip d es)
unfolding steps
steps-IsTallied start ip k ks [] d inv room _ _ = inv
steps-IsTallied start ip k ks (e ∷ es) d inv room (h, within) (w, wrong) =
    let (next, more) = step-Kept start ip k ks d inv (omega (arith, room)) e h w in
    steps-IsTallied start ip k ks es (step (k ∷ ks) ip d e) next (omega (arith, room, more)) within
      wrong

-- The instants lie in one quarter of an hour, and no token of the address that is judged is valid;
-- its requests overlap in any way, other addresses do what they will, and rounds of the cleanup come
-- at any time. Then at most as many requests of the address are answered 403 as nine and the number
-- that have been between their two locks at once: ten if they come one after the other. The tracker
-- blocks the address in that time exactly when ten or more have been answered so.
pub steps-forbidden :
    (start : ℕ) (ip : String) (k : MerchantKey) (ks : List MerchantKey) (es : List Event)
    (asked : ℕ)
    → All (WithinWindow start) es
    → All (IsWrong (k ∷ ks) ip) es
    → length es ≤ 9_223_372_036_854_775_807
    → InWindow start asked
    → let d = steps (k ∷ ks) ip closed_door es in
      (d.forbidden ≤ 9 + d.most)
      × (is_blocked (pos asked) ip (deployed d.failures)
          ≡ (deployed d.failures, leb 10 d.forbidden))
steps-forbidden start ip k ks es asked within wrong few h =
    let inv =
      steps-IsTallied start ip k ks es closed_door
        (record { unique = tt; counted = refl; bound = omega arith }) (omega (arith, few)) within
        wrong in
    (omega (arith, inv.bound), is_blocked-Tally start _ asked ip _ h inv.counted)
