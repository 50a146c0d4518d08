-- ===== src/Middleware/Idempotency.antt =====
-- internal/middleware/idempotency.go. Redis is a map from keys to texts; whether a command fails is
-- an argument. The time to live of a key, 24 hours, does not pass within a run. Of the JSON of an
-- error only the message is kept.
pub mod Replay
pub mod Claims
use Prim.Native.String.{◌++◌}
use resilient_settlement_orc.Base.{
  ℕ, ◌+◌, String, Bool, true, false, not, ◌&&◌, ◌||◌, Option, none, some, List, [], ◌∷◌,
  if◌then◌else◌, str_eq, is_some,
}
use resilient_settlement_orc.Base.Int.{ℤ, pos, negsuc, leb_ℤ, ltb_ℤ}
use resilient_settlement_orc.Base.Dict.{Dict, lookup, insert, erase}
use resilient_settlement_orc.Base.Text.{cut}
use resilient_settlement_orc.Base.Decimal.{itoa, atoi}

-- What the middleware reads of a request: the method, the header `Idempotency-Key`, and the
-- merchant that the authentication has put into the context; an empty text is none.
pub record Request : Type 0 where
  pub method : String
  pub key : String
  pub merchant : String

pub record Response : Type 0 where
  pub status : ℤ
  pub body : String
  pub replayed : Bool

abbrev pub processing_marker : String
processing_marker = "__PROCESSING__"

abbrev pub is_mutating : String → Bool
is_mutating m = str_eq m "POST" || str_eq m "PUT" || str_eq m "PATCH"

abbrev pub merchant_or_anonymous : String → String
merchant_or_anonymous m = if str_eq m "" then "_anonymous" else m

unfoldable pub redis_key : Request → String
redis_key r = "idempotency:" ++ (merchant_or_anonymous r.merchant ++ (":" ++ r.key))

abbrev itoa_int : ℤ → String
itoa_int (pos n) = itoa n
itoa_int (negsuc n) = "-" ++ itoa (n + 1)

-- The text that `cacheResponse` stores.
unfoldable pub cached_value : ℤ → String → String
cached_value status body = itoa_int status ++ (":" ++ body)

abbrev ok_status : ℤ
ok_status = pos 200

abbrev parsed_parts : String → Option ℤ → String → ℤ × String
parsed_parts cached none body = (ok_status, cached)
parsed_parts cached (some code) body = (code, body)

abbrev parsed_cut : String → Option (String × String) → ℤ × String
parsed_cut cached none = (ok_status, cached)
parsed_cut cached (some (front, body)) =
    if str_eq front "" then (ok_status, cached) else parsed_parts cached (atoi front) body

-- `parseCachedResponse`
unfoldable pub parse_cached_response : String → ℤ × String
parse_cached_response cached = parsed_cut cached (cut 58 cached)

-- What the middleware does with a request when it arrives: hand it on as it is, answer it, or hand
-- it on with its key claimed.
pub data Verdict : Type 0 where
  bypass : Verdict
  answer : Response → Verdict
  claimed : String → Verdict

abbrev service_unavailable : Response
service_unavailable = record {
  status = pos 503;
  body = "idempotency service temporarily unavailable, please retry";
  replayed = false;
}

abbrev idempotency_error : Response
idempotency_error = record {
  status = pos 500;
  body = "failed to read cached response";
  replayed = false;
}

abbrev pub in_progress : Response
in_progress = record {
  status = pos 409;
  body = "a request with this idempotency key is already being processed";
  replayed = false;
}

abbrev pub replay : ℤ × String → Response
replay (code, body) = record { status = code; body = body; replayed = true }

-- The answer for a key that is there; a key that is gone when it is read is an error.
abbrev answer_for : Bool → Option String → Response
answer_for get_fails none = idempotency_error
answer_for get_fails (some value) =
    if get_fails
    then idempotency_error
    else if str_eq value processing_marker
    then in_progress
    else replay (parse_cached_response value)

-- From the arrival of a request to the handler. `configured` is false if there is no Redis client.
unfoldable pub arrive : Bool → Bool → Bool → Request → Dict String → Verdict × Dict String
arrive configured set_fails get_fails r entries =
    if not (is_mutating r.method)
    then (bypass, entries)
    else if str_eq r.key ""
    then (bypass, entries)
    else if not configured
    then (bypass, entries)
    else if set_fails
    then (answer service_unavailable, entries)
    else if is_some (lookup (redis_key r) entries)
    then (answer (answer_for get_fails (lookup (redis_key r) entries)), entries)
    else (claimed (redis_key r), insert (redis_key r) processing_marker entries)

abbrev pub is_success : ℤ → Bool
is_success status = leb_ℤ (pos 200) status && ltb_ℤ status (pos 300)

-- From the handler's response to the end: cache a success, release the key of a failure.
unfoldable pub finish : Bool → String → Response → Dict String → Dict String
finish write_fails key r entries =
    if write_fails
    then entries
    else if is_success r.status
    then insert key (cached_value r.status r.body) entries
    else erase key entries

-- The middleware around a handler that works on a state `S`.
module _ {S : Type 0} (next : Request → S → Response × S) where
  abbrev served : Bool → Request → S → Verdict × Dict String → Response × Dict String × S
  served write_fails r s (bypass, entries) = let (out, s') = next r s in (out, entries, s')
  served write_fails r s (answer out, entries) = (out, entries, s)
  served write_fails r s (claimed key, entries) =
      let (out, s') = next r s in (out, finish write_fails key out entries, s')

  unfoldable pub idempotency :
      Bool → Bool → Bool → Bool → Request → Dict String → S → Response × Dict String × S
  idempotency configured set_fails get_fails write_fails r entries s =
      served write_fails r s (arrive configured set_fails get_fails r entries)

-- Requests overlap: one may arrive while the handler of another runs.
pub record System : Type 0 where
  pub entries : Dict String
  pub running : List String

pub data Event : Type 0 where
  arrival : Bool → Bool → Request → Event
  completion : Bool → String → Response → Event

abbrev pub is_running : String → List String → Bool
is_running k [] = false
is_running k (j ∷ js) = str_eq j k || is_running k js

abbrev pub remove : String → List String → List String
remove k [] = []
remove k (j ∷ js) = let rest = remove k js in if str_eq j k then js else j ∷ rest

abbrev take_in : System → Verdict × Dict String → System
take_in s (bypass, entries) = record s { entries = entries }
take_in s (answer r, entries) = record s { entries = entries }
take_in s (claimed key, entries) = record { entries = entries; running = key ∷ s.running }

-- An event that completes a key that does not run is none.
unfoldable pub step : System → Event → System
step s (arrival set_fails get_fails r) = take_in s (arrive true set_fails get_fails r s.entries)
step s (completion write_fails key r) =
    if is_running key s.running
    then record { entries = finish write_fails key r s.entries; running = remove key s.running }
    else s

pub run : System → List Event → System
run s [] = s
run s (e ∷ es) = run (step s e) es
