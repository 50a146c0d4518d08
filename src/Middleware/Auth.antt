-- ===== src/Middleware/Auth.antt =====
-- internal/middleware/auth.go: the keys of merchants, and the lockout of an address after too many
-- failures. Instants and durations are nanoseconds; each reading of the clock is an argument. The
-- mutex makes each method of the tracker one step; of an error only the status is kept.
pub mod Keys
pub mod Attempts
pub mod Tally
pub mod Lockout
pub mod Overlap
use Prim.Native.Char.{Char, code}
use resilient_settlement_orc.Base.{
  ℕ, suc, ◌+◌, ◌-◌, String, Bool, true, false, not, ◌&&◌, ◌||◌, Option, none, some, List, [], ◌∷◌,
  if◌then◌else◌, str_eq, leb, ◌==◌,
}
use resilient_settlement_orc.Base.Int.{ℤ, pos, ltb_ℤ, leb_ℤ}
use resilient_settlement_orc.Base.Dict.{Dict, lookup, insert, erase, remove_if}
use resilient_settlement_orc.Base.Int64.{add64}
use resilient_settlement_orc.Base.Text.{cut, trim_space}
use resilient_settlement_orc.CircuitBreaker.{since}

pub record MerchantKey : Type 0 where
  pub merchant_id : String
  pub api_key : String

abbrev pub admin : String
admin = "__admin__"

-- `strings.Index(raw, ":") > 0`: the part before the colon is not empty.
abbrev key_of_cut : String → Option (String × String) → MerchantKey
key_of_cut raw none = record { merchant_id = admin; api_key = raw }
key_of_cut raw (some (front, back)) =
    if str_eq front ""
    then record { merchant_id = admin; api_key = raw }
    else record { merchant_id = front; api_key = back }

unfoldable pub parse_merchant_key : String → MerchantKey
parse_merchant_key raw = key_of_cut raw (cut 58 raw)

-- `ParseMerchantKeys`
unfoldable pub parse_merchant_keys : List String → List MerchantKey
parse_merchant_keys [] = []
parse_merchant_keys (raw ∷ raws) =
    let rest = parse_merchant_keys raws in
    if str_eq (trim_space raw) "" then rest else parse_merchant_key (trim_space raw) ∷ rest

-- `IsAdmin`, of the merchant in the context
abbrev pub is_admin : String → Bool
is_admin merchant = str_eq merchant admin

-- ASCII letters in lower case; no other character folds to a letter of "bearer".
abbrev lower_code : Char → ℕ
lower_code c = if leb 65 (code c) && leb (code c) 90 then code c + 32 else code c

unfoldable pub equal_fold : String → String → Bool
equal_fold String.[] String.[] = true
equal_fold String.[] (String.◌∷◌ d t) = false
equal_fold (String.◌∷◌ c s) String.[] = false
equal_fold (String.◌∷◌ c s) (String.◌∷◌ d t) = lower_code c == lower_code d && equal_fold s t

abbrev token_of_cut : Option (String × String) → String
token_of_cut none = ""
token_of_cut (some (scheme, token)) = if equal_fold scheme "bearer" then token else ""

-- `extractBearerToken`, of the header `Authorization`
unfoldable pub extract_bearer_token : String → String
extract_bearer_token header = token_of_cut (cut 32 header)

-- The loop looks at every key; the last match stands.
unfoldable pub matched_key : String → String → List MerchantKey → String
matched_key token matched [] = matched
matched_key token matched (k ∷ ks) =
    matched_key token (if str_eq token k.api_key then k.merchant_id else matched) ks

-- `validateKeyAndGetMerchant`
unfoldable pub validate_key : String → List MerchantKey → String
validate_key token keys = matched_key token "" keys

pub record AuthFailureEntry : Type 0 where
  pub count : ℤ
  pub first_at : ℤ

pub record AuthFailureTracker : Type 0 where
  pub failures : Dict AuthFailureEntry
  pub max_fails : ℤ
  pub window : ℤ

abbrev pub new_auth_failure_tracker : ℤ → ℤ → AuthFailureTracker
new_auth_failure_tracker max_fails window = record {
  failures = [];
  max_fails = max_fails;
  window = window;
}

abbrev failed_entry : AuthFailureTracker → ℤ → ℤ → Option AuthFailureEntry → AuthFailureEntry
failed_entry t now first none = record { count = pos 1; first_at = first }
failed_entry t now first (some e) =
    if ltb_ℤ t.window (since now e.first_at)
    then record { count = pos 1; first_at = first }
    else record e { count = add64 e.count (pos 1) }

-- `recordFailure`; `first` is the reading of the clock for a new entry.
unfoldable pub record_failed_auth : ℤ → ℤ → String → AuthFailureTracker → AuthFailureTracker
record_failed_auth now first ip t = record t {
  failures = insert ip (failed_entry t now first (lookup ip t.failures)) t.failures;
}

abbrev blocked_by :
    ℤ → String → AuthFailureTracker → Option AuthFailureEntry → AuthFailureTracker × Bool
blocked_by now ip t none = (t, false)
blocked_by now ip t (some e) =
    if ltb_ℤ t.window (since now e.first_at)
    then (record t { failures = erase ip t.failures }, false)
    else (t, leb_ℤ t.max_fails e.count)

-- `isBlocked`, which forgets an entry whose window is over.
unfoldable pub is_blocked : ℤ → String → AuthFailureTracker → AuthFailureTracker × Bool
is_blocked now ip t = blocked_by now ip t (lookup ip t.failures)

-- `resetFailures`
unfoldable pub reset_failures : String → AuthFailureTracker → AuthFailureTracker
reset_failures ip t = record t { failures = erase ip t.failures }

abbrev pub is_expired : ℤ → ℤ → AuthFailureEntry → Bool
is_expired window now e = ltb_ℤ window (since now e.first_at)

unfoldable pub cleanup_failures : ℤ → AuthFailureTracker → AuthFailureTracker
cleanup_failures now t = record t { failures = remove_if (is_expired t.window now) t.failures }

-- How `APIKeyAuth` ends: the status of a refusal, or the merchant that goes into the context.
pub data AuthResult : Type 0 where
  refused : ℕ → AuthResult
  authenticated : String → AuthResult

abbrev checked :
    ℤ
    → ℤ
    → List MerchantKey
    → String
    → String
    → AuthFailureTracker
    → AuthFailureTracker × AuthResult
checked now first keys ip token t =
    if str_eq token ""
    then (t, refused 401)
    else if str_eq (validate_key token keys) ""
    then (record_failed_auth now first ip t, refused 403)
    else (reset_failures ip t, authenticated (validate_key token keys))

abbrev unless_blocked :
    ℤ
    → ℤ
    → List MerchantKey
    → String
    → String
    → AuthFailureTracker × Bool
    → AuthFailureTracker × AuthResult
unless_blocked now first keys ip header (t, true) = (t, refused 429)
unless_blocked now first keys ip header (t, false) =
    checked now first keys ip (extract_bearer_token header) t

-- `APIKeyAuth`: `asked`, `now` and `first` are the three readings of the clock.
unfoldable pub api_key_auth :
    ℤ
    → ℤ
    → ℤ
    → List MerchantKey
    → String
    → String
    → AuthFailureTracker
    → AuthFailureTracker × AuthResult
api_key_auth asked now first [] ip header t = (t, refused 401)
api_key_auth asked now first (k ∷ ks) ip header t =
    unless_blocked now first (k ∷ ks) ip header (is_blocked asked ip t)
