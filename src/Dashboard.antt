-- ===== src/Dashboard.antt =====
-- internal/service/dashboard.go: the numbers of the dashboard. Each statement meets the tables of its
-- own time: what other requests do between two of them is an argument. A rate is kept as its two
-- counts, an average as a sum and a count. The time zones of the server and of the database are
-- parameters.
pub mod Health
pub mod Pages
pub mod Totals
pub mod Feed
use resilient_settlement_orc.Base.{
  ℕ, ◌+◌, String, Bool, true, false, not, ◌&&◌, Option, none, some, List, [], ◌∷◌, ◌++◌, map,
  if◌then◌else◌, str_eq,
}
use resilient_settlement_orc.Base.Int.{ℤ, pos, negsuc, ◌+ℤ◌, leb_ℤ, ltb_ℤ, eqb_ℤ}
use resilient_settlement_orc.Base.Dict.{Dict}
use resilient_settlement_orc.Base.Groups.{sum_of, group_by, collected}
use resilient_settlement_orc.Payment.Status.{
  PaymentStatus, captured, failed, status_eq, status_string,
}
use resilient_settlement_orc.Store.Rows.{Payment}
use resilient_settlement_orc.Store.Tables.{Tables}
use resilient_settlement_orc.Store.Action.{
  Result, ok, World, Action, database, pure, raise_if, query, ◌>>=◌, ◌>>◌,
}
use resilient_settlement_orc.PaymentService.{interfere}

-- `DashboardStats`, with the two counts that the rates are made of.
pub record DashboardStats : Type 0 where
  pub total_payments : ℤ
  pub total_revenue : ℤ
  pub success_count : ℤ
  pub failure_count : ℤ
  pub status_breakdown : Dict ℤ
  pub currency_breakdown : Dict ℤ
  pub psp_breakdown : Dict ℤ
  pub today_payments : ℤ
  pub today_revenue : ℤ
  pub period_start : ℤ
  pub period_end : ℤ

-- `WHERE created_at >= $1 AND created_at < $2`
abbrev pub in_period : ℤ → ℤ → List Payment → List Payment
in_period from to [] = []
in_period from to (p ∷ ps) =
    let rest = in_period from to ps in
    if leb_ℤ from p.created_at && ltb_ℤ p.created_at to then p ∷ rest else rest

abbrev pub one : Payment → ℤ
one p = pos 1

abbrev pub amount_of : Payment → ℤ
amount_of p = p.amount

-- `COUNT(*) FILTER (WHERE status = ...)`
abbrev pub one_if : PaymentStatus → Payment → ℤ
one_if s p = if status_eq p.status s then pos 1 else pos 0

abbrev pub status_key : Payment → String
status_key p = status_string p.status

abbrev pub currency_key : Payment → String
currency_key p = p.currency

abbrev pub psp_key : Payment → String
psp_key p = p.psp

-- A sum is a NUMERIC of the database, and is read into an int64 only if it fits.
abbrev pub fits : ℤ → Bool
fits n = leb_ℤ (negsuc 9_223_372_036_854_775_807) n && leb_ℤ n (pos 9_223_372_036_854_775_807)

abbrev pub all_fit : Dict ℤ → Bool
all_fit [] = true
all_fit ((k, v) ∷ rows) = fits v && all_fit rows

abbrev pub count_and_sum : ℤ → ℤ → Action (ℤ × ℤ)
count_and_sum from to = do
  x ← query (λ t.
      (sum_of one (in_period from to t.payments), sum_of amount_of (in_period from to t.payments)))
  raise_if (not (fits x.1)) database
  pure x

abbrev pub outcomes : ℤ → ℤ → Tables → ℤ × ℤ
outcomes from to t = (
  sum_of (one_if captured) (in_period from to t.payments),
  sum_of (one_if failed) (in_period from to t.payments),
)

abbrev pub breakdown : (Payment → String) → (Payment → ℤ) → ℤ → ℤ → Action (Dict ℤ)
breakdown key value from to = do
  rows ← query (λ t. group_by key value (in_period from to t.payments))
  raise_if (not (all_fit rows)) database
  pure (collected rows [])

-- A day in nanoseconds.
abbrev pub day : ℤ
day = pos 86_400_000_000_000

abbrev today_start : (ℤ → ℤ) → Action ℤ
today_start midnight w = (ok (midnight (w.env.clock w.tick)), w)

-- `GetStats`. `midnight` is `time.Date` of the calendar day that an instant has on the server's
-- clock, taken as a day in UTC.
unfoldable pub get_stats : (World → World) → (ℤ → ℤ) → ℤ → ℤ → Action DashboardStats
get_stats others midnight from to = do
  totals ← count_and_sum from to
  interfere others
  rates ← query (outcomes from to)
  interfere others
  by_status ← breakdown status_key one from to
  interfere others
  by_currency ← breakdown currency_key amount_of from to
  interfere others
  by_psp ← breakdown psp_key one from to
  interfere others
  today ← today_start midnight
  todays ← count_and_sum today (today +ℤ day)
  pure (record {
    total_payments = totals.0;
    total_revenue = totals.1;
    success_count = rates.0;
    failure_count = rates.1;
    status_breakdown = by_status;
    currency_breakdown = by_currency;
    psp_breakdown = by_psp;
    today_payments = todays.0;
    today_revenue = todays.1;
    period_start = from;
    period_end = to;
  })

-- `DailyVolume`, with the number of its day.
pub record DailyVolume : Type 0 where
  pub date : ℤ
  pub count : ℤ
  pub revenue : ℤ

-- `GROUP BY DATE(created_at) ORDER BY day ASC`
abbrev pub add_day : ℤ → ℤ → List DailyVolume → List DailyVolume
add_day date amount [] = record { date = date; count = pos 1; revenue = amount } ∷ []
add_day date amount (d ∷ ds) =
    let rest = add_day date amount ds in
    if ltb_ℤ date d.date
    then record { date = date; count = pos 1; revenue = amount } ∷ d ∷ ds
    else if eqb_ℤ date d.date
    then record { date = d.date; count = pos 1 +ℤ d.count; revenue = amount +ℤ d.revenue } ∷ ds
    else d ∷ rest

abbrev pub days_of : (ℤ → ℤ) → List Payment → List DailyVolume
days_of date_of [] = []
days_of date_of (p ∷ ps) = add_day (date_of p.created_at) p.amount (days_of date_of ps)

abbrev pub all_revenues_fit : List DailyVolume → Bool
all_revenues_fit [] = true
all_revenues_fit (d ∷ ds) = fits d.revenue && all_revenues_fit ds

-- `GetDailyVolume`; `date_of` is the day of an instant in the time zone of the database.
unfoldable pub get_daily_volume : (ℤ → ℤ) → ℤ → ℤ → Action (List DailyVolume)
get_daily_volume date_of from to = do
  days ← query (λ t. days_of date_of (in_period from to t.payments))
  raise_if (not (all_revenues_fit days)) database
  pure days
