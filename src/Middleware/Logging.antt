-- ===== src/Middleware/Logging.antt =====
-- internal/middleware/logging.go: what is written of a request, and at which level. The request-scoped
-- logger and the recovery of panics are left out.
use Prim.Native.Char.{Char, code}
use resilient_settlement_orc.Base.{
  ℕ, ◌+◌, String, Bool, true, false, ◌||◌, ◌≡◌, refl, List, [], ◌∷◌, if◌then◌else◌, str_eq, ltb,
  leb, ◌==◌, inl, inr, Bool-cases,
}
use resilient_settlement_orc.Base.Int.{ℤ}

abbrev is_control : Char → Bool
is_control c = ltb (code c) 32 || code c == 127

-- `sanitizeLogValue`
unfoldable pub sanitize_log_value : String → String
sanitize_log_value String.[] = String.[]
sanitize_log_value (String.◌∷◌ c s) =
    let rest = sanitize_log_value s in if is_control c then rest else String.◌∷◌ c rest

pub data Level : Type 0 where
  info warn error : Level

abbrev pub level_of : ℕ → Level
level_of status = if leb 500 status then error else if leb 400 status then warn else info

abbrev message_of : ℕ → String
message_of status =
    if leb 500 status
    then "http request error"
    else if leb 400 status
    then "http request warning"
    else "http request"

pub record LoggedRequest : Type 0 where
  pub id : String
  pub method : String
  pub path : String
  pub remote_addr : String
  pub user_agent : String
  pub raw_query : String

-- `statusResponseWriter`, and how it follows what the handler writes.
pub record Written : Type 0 where
  pub status_code : ℕ
  pub bytes_written : ℕ

abbrev pub fresh : Written
fresh = record { status_code = 200; bytes_written = 0 }

abbrev pub write_header : ℕ → Written → Written
write_header status w = record w { status_code = status }

abbrev pub write : ℕ → Written → Written
write n w = record w { bytes_written = w.bytes_written + n }

pub record Entry : Type 0 where
  pub level : Level
  pub message : String
  pub request_id : String
  pub method : String
  pub path : String
  pub status : ℕ
  pub duration : ℤ
  pub response_bytes : ℕ
  pub remote_addr : String
  pub user_agent : String
  pub query : List String

-- The line that `Logger` writes.
unfoldable pub log_entry : LoggedRequest → Written → ℤ → Entry
log_entry r w duration = record {
  level = level_of w.status_code;
  message = message_of w.status_code;
  request_id = r.id;
  method = r.method;
  path = sanitize_log_value r.path;
  status = w.status_code;
  duration = duration;
  response_bytes = w.bytes_written;
  remote_addr = sanitize_log_value r.remote_addr;
  user_agent = sanitize_log_value r.user_agent;
  query = if str_eq r.raw_query "" then [] else sanitize_log_value r.raw_query ∷ [];
}

-- No character of a text is a control character.
unfoldable pub is_clean : String → Bool
is_clean String.[] = true
is_clean (String.◌∷◌ c s) = if is_control c then false else is_clean s

sanitize_log_value-clean : (s : String) → is_clean (sanitize_log_value s) ≡ true
unfolding sanitize_log_value is_clean
sanitize_log_value-clean String.[] = refl
sanitize_log_value-clean (String.◌∷◌ c s) = elim (Bool-cases (is_control c)) [
  | inl drop ↦ rw drop (sanitize_log_value-clean s)
  | inr keep ↦ rw keep (rw keep (sanitize_log_value-clean s))
]
