-- ===== src/Handlers/Panels.antt =====
-- internal/handler/dashboard.go. The query parameters are a function of their name, and
-- `time.Parse("2006-01-02", s)` a parameter. `midnight` is the start of an instant's day in UTC.
use resilient_settlement_orc.Base.{ℕ, String, ◌||◌, Option, none, some, List, if◌then◌else◌, str_eq}
use resilient_settlement_orc.Base.Int.{ℤ, pos, ◌+ℤ◌, ◌-ℤ◌, ltb_ℤ, leb_ℤ}
use resilient_settlement_orc.Base.Decimal.{atoi_value}
use resilient_settlement_orc.Store.Action.{World, Result, ok, err}
use resilient_settlement_orc.Dashboard as Service
use resilient_settlement_orc.Dashboard.{DashboardStats, DailyVolume, day}
use resilient_settlement_orc.Dashboard.Health.{PspHealth, get_psp_health}
use resilient_settlement_orc.Dashboard.Pages.{RecentPayment, LedgerEntryRow}
use resilient_settlement_orc.Dashboard.Pages as Pages
use resilient_settlement_orc.Dashboard.Feed.{ActivityEvent}
use resilient_settlement_orc.Dashboard.Feed as Feed
use resilient_settlement_orc.Handlers.{HttpResponse, error, json}

abbrev pub Query : Type 0
Query = String → String

-- An error of a service is answered 500 with a code.
abbrev answer_with : {A B : Type 0} → String → (A → B) → Result A × World → HttpResponse B × World
answer_with code f (ok a, w) = (json 200 (f a), w)
answer_with code f (err e, w) = (error 500 code, w)

-- A date of the query, or a default where it is empty or no date.
abbrev date_or : ℤ → Option ℤ → ℤ
date_or default none = default
date_or default (some t) = t

abbrev later_by_day : Option ℤ → Option ℤ
later_by_day none = none
later_by_day (some t) = some (t +ℤ day)

abbrev parsed_date : (String → Option ℤ) → String → Option ℤ
parsed_date parse_date s = if str_eq s "" then none else parse_date s

-- `parseDateRange`
unfoldable pub parse_date_range : (String → Option ℤ) → (ℤ → ℤ) → ℤ → Query → ℤ × ℤ
parse_date_range parse_date midnight now query =
    let to = midnight now +ℤ day in
    (
      date_or (to -ℤ pos 2_592_000_000_000_000) (parsed_date parse_date (query "from")),
      date_or to (later_by_day (parsed_date parse_date (query "to"))),
    )

-- A limit of the query that is not positive or too large gives a default.
unfoldable pub limit_or : ℤ → ℤ → String → ℤ
limit_or default max s =
    let limit = atoi_value s in if leb_ℤ limit (pos 0) || ltb_ℤ max limit then default else limit

module _ (parse_date : String → Option ℤ) (midnight : ℤ → ℤ) where
  -- `GetStats`
  unfoldable pub get_stats :
      (World → World) → (ℤ → ℤ) → Query → World → HttpResponse DashboardStats × World
  get_stats others local_midnight query w =
      let (from, to) = parse_date_range parse_date midnight (w.env.clock w.tick) query in
      answer_with "STATS_ERROR" (λ s. s) (Service.get_stats others local_midnight from to w)

  -- `GetDailyVolume`, with the two ends of the range
  unfoldable pub get_daily_volume :
      (ℤ → ℤ) → Query → World → HttpResponse (List DailyVolume × ℤ × ℤ) × World
  get_daily_volume date_of query w =
      let (from, to) = parse_date_range parse_date midnight (w.env.clock w.tick) query in
      answer_with "VOLUME_ERROR" (λ ds. (ds, from, to)) (Service.get_daily_volume date_of from to w)

-- `GetPSPHealth`
unfoldable pub get_psp_health_answer : World → HttpResponse (List PspHealth) × World
get_psp_health_answer w = answer_with "PSP_HEALTH_ERROR" (λ h. h) (get_psp_health w)

-- What a page is answered with: the rows, their number, the offset and the limit.
pub record PaymentsPage : Type 0 where
  pub payments : List RecentPayment
  pub total : ℕ
  pub offset : ℤ
  pub limit : ℤ

-- `GetRecentPayments`; a negative offset is passed on.
unfoldable pub get_recent_payments :
    (World → World) → Query → World → HttpResponse PaymentsPage × World
get_recent_payments others query w =
    let offset = atoi_value (query "offset") in
    let limit = limit_or (pos 20) (pos 100) (query "limit") in
    answer_with "PAYMENTS_ERROR"
      (λ page. record { payments = page.0; total = page.1; offset = offset; limit = limit })
      (Pages.get_recent_payments others offset limit w)

-- `GetActivityFeed`
unfoldable pub get_activity_feed : Query → World → HttpResponse (List ActivityEvent) × World
get_activity_feed query w =
    answer_with "ACTIVITY_ERROR" (λ es. es)
      (Feed.get_activity_feed (limit_or (pos 50) (pos 200) (query "limit")) w)

-- `GetRecentEntries` of internal/handler/ledger.go; a negative offset counts as none.
unfoldable pub get_recent_entries :
    Query → World → HttpResponse (List LedgerEntryRow × ℤ × ℤ) × World
get_recent_entries query w =
    let limit = limit_or (pos 50) (pos 200) (query "limit") in
    let given = atoi_value (query "offset") in
    let offset = if ltb_ℤ given (pos 0) then pos 0 else given in
    answer_with "LEDGER_ERROR" (λ rows. (rows, limit, offset))
      (Pages.get_recent_entries limit offset w)
