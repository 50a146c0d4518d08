-- ===== src/Middleware/Auth/Attempts.antt =====
-- Requests that meet the lockout of internal/middleware/auth.go one after the other, as deployed, and
-- what a request of
-- one address leaves alone.
use resilient_settlement_orc.Base.{
  ℕ, suc, ◌+◌, ◌≤◌, String, Bool, false, not, ◌≡◌, ◌≢◌, ◌⊎◌, refl, ◌∙◌, Option, none, some, List,
  [], ◌∷◌, str_eq, ◌==◌, ◌&&◌, Bool-cases, inl, inr, if◌then◌else◌,
}
use resilient_settlement_orc.Base.Int.{pos, ltb_ℤ, leb_ℤ}
use resilient_settlement_orc.Base.Dict.{
  Dict, lookup, insert, lookup-insert, erase, lookup-erase, Unique, Unique-insert, Unique-erase,
}
use resilient_settlement_orc.CircuitBreaker.{since}
use resilient_settlement_orc.Middleware.Auth.{
  MerchantKey, AuthFailureEntry, AuthFailureTracker, record_failed_auth, reset_failures,
  cleanup_failures, AuthResult, refused, authenticated, api_key_auth, validate_key,
  extract_bearer_token, checked, unless_blocked, blocked_by,
}

-- The tracker that `APIKeyAuth` makes: ten failures in a quarter of an hour.
abbrev pub deployed : Dict AuthFailureEntry → AuthFailureTracker
deployed failures = record { failures = failures; max_fails = pos 10; window = pos 900_000_000_000 }

-- A request with its address, its header, and the three readings of the clock; or a round of the
-- cleanup.
pub data Event : Type 0 where
  attempt : String → String → ℕ → ℕ → ℕ → Event
  clean : ℕ → Event

abbrev pub status : AuthResult → ℕ
status (refused n) = n
status (authenticated _) = 200

abbrev pub is_forbidden : AuthResult → Bool
is_forbidden a = status a == 403

-- The failures, and how many requests of an address have got 403.
abbrev tallied : String → String → AuthFailureTracker × AuthResult → ℕ → Dict AuthFailureEntry × ℕ
tallied ip from (t, a) n = (t.failures, if str_eq from ip && is_forbidden a then suc n else n)

unfoldable pub meet :
    List MerchantKey → String → Dict AuthFailureEntry × ℕ → Event → Dict AuthFailureEntry × ℕ
meet keys ip (m, n) (attempt from header asked now first) =
    tallied ip from (api_key_auth (pos asked) (pos now) (pos first) keys from header (deployed m)) n
meet keys ip (m, n) (clean now) = ((cleanup_failures (pos now) (deployed m)).failures, n)

unfoldable pub meet_all :
    List MerchantKey → String → Dict AuthFailureEntry × ℕ → List Event → Dict AuthFailureEntry × ℕ
meet_all keys ip x [] = x
meet_all keys ip x (e ∷ es) = meet_all keys ip (meet keys ip x e) es

-- All readings of the clock are in the quarter of an hour from an instant.
abbrev pub InWindow : ℕ → ℕ → Type 0
InWindow start t = (start ≤ t) × (t ≤ start + 900_000_000_000)

unfoldable pub WithinWindow : ℕ → Event → Type 0
WithinWindow start (attempt from header asked now first) =
    InWindow start asked × InWindow start now × InWindow start first
WithinWindow start (clean now) = InWindow start now

-- The address has no key that is valid.
unfoldable pub Guesses : List MerchantKey → String → Event → Type 0
Guesses keys ip (attempt from header asked now first) =
    (from ≢ ip) ⊎ (validate_key (extract_bearer_token header) keys ≡ "")
Guesses keys ip (clean now) = Unit

-- How many requests of the address bring a token.
unfoldable pub guesses : String → List Event → ℕ
guesses ip [] = 0
guesses ip (attempt from header asked now first ∷ es) =
    let rest = guesses ip es in
    if str_eq from ip && not (str_eq (extract_bearer_token header) "") then suc rest else rest
guesses ip (clean now ∷ es) = guesses ip es

-- A change of the failures that is about one address only.
pub record Apart (from : String) (m n : Dict AuthFailureEntry) : Type 0 where
  pub unique : Unique m → Unique n
  pub others : (ip : String) → str_eq from ip ≡ false → lookup ip n ≡ lookup ip m

insert-Apart :
    (from : String) (e : AuthFailureEntry) (m : Dict AuthFailureEntry)
    → Apart from m (insert from e m)
insert-Apart from e m = record {
  unique = Unique-insert from e m;
  others = λ ip h. rw (lookup-insert from ip e m, h) refl;
}

pub erase-Apart : (from : String) (m : Dict AuthFailureEntry) → Apart from m (erase from m)
erase-Apart from m = record {
  unique = Unique-erase from m;
  others = λ ip h. rw (lookup-erase from ip m, h) refl;
}

pub same-Apart : (from : String) (m : Dict AuthFailureEntry) → Apart from m m
same-Apart from m = record { unique = λ u. u; others = λ ip h. refl }

pub checked-Apart :
    (keys : List MerchantKey) (from token : String) (now first : ℕ) (m : Dict AuthFailureEntry)
    → Apart from m (checked (pos now) (pos first) keys from token (deployed m)).0.failures
unfolding record_failed_auth reset_failures
checked-Apart keys from token now first m = elim (Bool-cases (str_eq token "")) [
  | inl e ↦ rw e (same-Apart from m)
  | inr e ↦ rw e (elim (Bool-cases (str_eq (validate_key token keys) "")) [
    | inl bad ↦ rw bad (insert-Apart from _ m)
    | inr good ↦ rw good (erase-Apart from m)
  ])
]

-- An entry that is forgotten by `is_blocked` is not blocked, and what follows changes it again.
Apart-erase :
    {from : String} {m n : Dict AuthFailureEntry} → Apart from (erase from m) n → Apart from m n
Apart-erase {from} {m} {n} a = record {
  unique = λ u. a.unique (Unique-erase from m u);
  others = λ ip h. a.others ip h ∙ (erase-Apart from m).others ip h;
}

pub unless_blocked-Apart :
    (keys : List MerchantKey) (from header : String) (asked now first : ℕ)
    (m : Dict AuthFailureEntry) (o : Option AuthFailureEntry)
    → Apart from m
        (unless_blocked
          (pos now)
          (pos first)
          keys
          from
          header
          (blocked_by (pos asked) from (deployed m) o)).0.failures
unless_blocked-Apart keys from header asked now first m none =
    checked-Apart keys from (extract_bearer_token header) now first m
unless_blocked-Apart keys from header asked now first m (some e) =
    elim (Bool-cases (ltb_ℤ (pos 900_000_000_000) (since (pos asked) e.first_at))) [
      | inl old ↦ rw old (
          Apart-erase
            (checked-Apart keys from (extract_bearer_token header) now first (erase from m)))
      | inr young ↦ rw young (elim (Bool-cases (leb_ℤ (pos 10) e.count)) [
        | inl many ↦ rw many (same-Apart from m)
        | inr few ↦ rw few (checked-Apart keys from (extract_bearer_token header) now first m)
      ])
    ]
