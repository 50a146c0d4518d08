-- ===== src/Middleware/Auth/Lockout.antt =====
-- The lockout of internal/middleware/auth.go, as deployed: what an address that guesses gets.
use resilient_settlement_orc.Base.{
  ℕ, suc, ◌+◌, ◌≤◌, String, true, false, ◌≡◌, refl, ◌∙◌, List, [], ◌∷◌, All, arith, str_eq, eq_iff,
  leb, Bool-cases, inl, inr, if◌then◌else◌,
}
use resilient_settlement_orc.Base.Int.{pos}
use resilient_settlement_orc.Base.Dict.{
  Dict, lookup, insert, lookup-insert, Unique, Unique-insert, Unique-remove_if, lookup-remove_if,
}
use resilient_settlement_orc.Middleware.Auth.{
  MerchantKey, AuthFailureEntry, AuthFailureTracker, is_blocked, record_failed_auth,
  cleanup_failures, is_expired, AuthResult, refused, api_key_auth, validate_key,
  extract_bearer_token, failed_entry,
}
use resilient_settlement_orc.Middleware.Auth.Attempts.{
  deployed, Event, attempt, clean, meet, meet_all, InWindow, WithinWindow, Guesses, guesses,
  unless_blocked-Apart,
}
use resilient_settlement_orc.Middleware.Auth.Tally.{
  keep_unless-Tally, Tally, is_blocked-Tally, failed_entry-Tally,
}

-- Ten at most.
abbrev capped : ℕ → ℕ
capped n = if leb 10 n then 10 else n

abbrev IsTallied : ℕ → String → Dict AuthFailureEntry × ℕ → Type 0
IsTallied start ip (m, n) = Unique m × Tally start n (lookup ip m) × (n ≤ 10)

module _ (start : ℕ) (ip : String) (k : MerchantKey) (ks : List MerchantKey) where
  -- What a guess of the address is answered, and what it leaves.
  abbrev guessed : String → ℕ → ℕ → ℕ → Dict AuthFailureEntry → AuthFailureTracker × AuthResult
  guessed header now first n m =
      if leb 10 n
      then (deployed m, refused 429)
      else if str_eq (extract_bearer_token header) ""
      then (deployed m, refused 401)
      else (
        deployed (insert ip (failed_entry (deployed m) (pos now) (pos first) (lookup ip m)) m),
        refused 403,
      )

  api_key_auth-guessed :
      (header : String) (asked now first n : ℕ) (m : Dict AuthFailureEntry)
      → InWindow start asked
      → Tally start n (lookup ip m)
      → validate_key (extract_bearer_token header) (k ∷ ks) ≡ ""
      → api_key_auth (pos asked) (pos now) (pos first) (k ∷ ks) ip header (deployed m)
        ≡ guessed header now first n m
  unfolding api_key_auth record_failed_auth
  api_key_auth-guessed header asked now first n m h t bad =
      rw (is_blocked-Tally start n asked ip m h t) (elim (Bool-cases (leb 10 n)) [
        | inl many ↦ rw many refl
        | inr few ↦ rw (few, bad) (ground arith)
      ])

  -- The count after a guess: a token that is not empty counts, up to ten.
  abbrev count_after : String → ℕ → ℕ
  count_after header n =
      if leb 10 n then n else if str_eq (extract_bearer_token header) "" then n else suc n

  guess-IsTallied :
      (header : String) (asked now first n : ℕ) (m : Dict AuthFailureEntry)
      → InWindow start asked
      → InWindow start now
      → InWindow start first
      → IsTallied start ip (m, n)
      → validate_key (extract_bearer_token header) (k ∷ ks) ≡ ""
      → IsTallied start ip (meet (k ∷ ks) ip (m, n) (attempt ip header asked now first))
        × ((meet (k ∷ ks) ip (m, n) (attempt ip header asked now first)).1 ≡ count_after header n)
  unfolding meet
  guess-IsTallied header asked now first n m h g l (u, t, cap_) bad =
      rw (api_key_auth-guessed header asked now first n m h t bad, (eq_iff ip ip).1 refl)
        (elim (Bool-cases (leb 10 n)) [
          | inl many ↦ rw many ((u, t, cap_), refl)
          | inr few ↦ rw few (elim (Bool-cases (str_eq (extract_bearer_token header) "")) [
            | inl empty ↦ rw empty ((u, t, cap_), refl)
            | inr token ↦
                rw
                  (
                    token,
                    lookup-insert ip ip
                        (failed_entry (deployed m) (pos now) (pos first) (lookup ip m)) m,
                    (eq_iff ip ip).1 refl,
                  )
                  (
                    (
                      Unique-insert ip _ m u,
                      failed_entry-Tally start n now first m g l (ground arith) (lookup ip m) t,
                      ground arith,
                    ),
                    refl,
                  )
          ])
        ])

  other-IsTallied :
      (from header : String) (asked now first n : ℕ) (m : Dict AuthFailureEntry)
      → str_eq from ip ≡ false
      → IsTallied start ip (m, n)
      → IsTallied start ip (meet (k ∷ ks) ip (m, n) (attempt from header asked now first))
        × ((meet (k ∷ ks) ip (m, n) (attempt from header asked now first)).1 ≡ n)
  unfolding meet api_key_auth is_blocked
  other-IsTallied from header asked now first n m other (u, t, few) =
      let a = unless_blocked-Apart (k ∷ ks) from header asked now first m (lookup from m) in
      rw (other, a.others ip other) ((a.unique u, t, few), refl)

  clean-IsTallied :
      (now n : ℕ) (m : Dict AuthFailureEntry)
      → InWindow start now
      → IsTallied start ip (m, n)
      → IsTallied start ip (meet (k ∷ ks) ip (m, n) (clean now))
        × ((meet (k ∷ ks) ip (m, n) (clean now)).1 ≡ n)
  unfolding meet cleanup_failures
  clean-IsTallied now n m h (u, t, few) = (
    (
      Unique-remove_if (is_expired (pos 900_000_000_000) (pos now)) m u,
      rw (lookup-remove_if (is_expired (pos 900_000_000_000) (pos now)) ip m u)
          (keep_unless-Tally start n now h (lookup ip m) t),
      few,
    ),
    refl,
  )

  events-IsTallied :
      (es : List Event) (m : Dict AuthFailureEntry) (n : ℕ)
      → All (WithinWindow start) es
      → All (Guesses (k ∷ ks) ip) es
      → IsTallied start ip (m, n)
      → IsTallied start ip (meet_all (k ∷ ks) ip (m, n) es)
        × ((meet_all (k ∷ ks) ip (m, n) es).1 ≡ capped (n + guesses ip es))
  unfolding meet_all guesses WithinWindow Guesses
  events-IsTallied [] m n _ _ inv = (inv, ground (arith, inv))
  events-IsTallied (attempt from header asked now first ∷ es) m n ((h, g, l), within) (guess, rest)
        inv =
      elim (Bool-cases (str_eq from ip)) [
        | inl mine ↦
            let e = (eq_iff from ip).0 mine in
            let bad : validate_key (extract_bearer_token header) (k ∷ ks) ≡ "" = elim guess [
              | inl d ↦ absurd (d e)
              | inr b ↦ b
            ] in
            rw e (
              let (next, same) = guess-IsTallied header asked now first n m h g l inv bad in
              let ih = events-IsTallied es _ _ within rest next in
              (ih.0, ih.1 ∙ (ground (arith, same, inv.2, (eq_iff ip ip).1 refl))))
        | inr other ↦
            let (next, same) = other-IsTallied from header asked now first n m other inv in
            let ih = events-IsTallied es _ _ within rest next in
            (ih.0, ih.1 ∙ (ground (arith, other, same)))
      ]
  events-IsTallied (clean now ∷ es) m n (h, within) (guess, rest) inv =
      let (next, same) = clean-IsTallied now n m h inv in
      let ih = events-IsTallied es _ _ within rest next in (ih.0, ih.1 ∙ (ground (arith, same)))

-- Each request is over before the next begins. After ten tokens that are not valid, and within the
-- same quarter of an hour, every request of the address gets 429, whatever key it brings, and leaves the failures as they are.
pub meet_all-locked :
    (start : ℕ) (ip header : String) (k : MerchantKey) (ks : List MerchantKey) (es : List Event)
    (asked now first : ℕ)
    → All (WithinWindow start) es
    → All (Guesses (k ∷ ks) ip) es
    → 10 ≤ guesses ip es
    → InWindow start asked
    → let t = deployed (meet_all (k ∷ ks) ip ([], 0) es).0 in
      api_key_auth (pos asked) (pos now) (pos first) (k ∷ ks) ip header t ≡ (t, refused 429)
unfolding api_key_auth
meet_all-locked start ip header k ks es asked now first within bad many h =
    let ((u, t, few), same) =
      events-IsTallied start ip k ks es [] 0 within bad (tt, refl, omega arith) in
    let ten : leb 10 (meet_all (k ∷ ks) ip ([], 0) es).1 ≡ true = ground (arith, same, many) in
    rw (is_blocked-Tally start _ asked ip _ h t, ten) refl
