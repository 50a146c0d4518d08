-- ===== src/Dashboard/Totals.antt =====
-- The sums behind the numbers of internal/service/dashboard.go.
use resilient_settlement_orc.Base.{
  ◌+◌, String, ◌≡◌, refl, sym, ap, subst, ◌∙◌, List, [], ◌∷◌, arith, inl, inr, Bool-cases,
}
use resilient_settlement_orc.Base.Int.{ℤ, pos, ◌+ℤ◌}
use resilient_settlement_orc.Base.Dict.{Dict}
use resilient_settlement_orc.Base.Groups.{
  total, sum_of, group_by, collected, collected-group_by, add_swap, add_assoc,
}
use resilient_settlement_orc.Store.Rows.{Payment}
use resilient_settlement_orc.Store.Tables.{Tables}
use resilient_settlement_orc.Store.Action.{Result, ok, World, Action, continue, query}
use resilient_settlement_orc.Dashboard.{
  DashboardStats, DailyVolume, in_period, one, amount_of, fits, all_fit, all_revenues_fit, outcomes,
  day, count_and_sum, breakdown, status_key, currency_key, psp_key, get_stats, add_day, days_of,
  get_daily_volume,
}

abbrev pub volume_count : List DailyVolume → ℤ
volume_count [] = pos 0
volume_count (d ∷ ds) = d.count +ℤ volume_count ds

abbrev pub volume_revenue : List DailyVolume → ℤ
volume_revenue [] = pos 0
volume_revenue (d ∷ ds) = d.revenue +ℤ volume_revenue ds

add_day-counts :
    (date amount : ℤ) (ds : List DailyVolume)
    → volume_count (add_day date amount ds) ≡ pos 1 +ℤ volume_count ds
add_day-counts date amount [] = refl
add_day-counts date amount (d ∷ ds) = ground (
  arith,
  add_day-counts date amount ds,
  add_swap (pos 1) d.count (volume_count ds),
  add_assoc (pos 1) d.count (volume_count ds),
)

add_day-revenues :
    (date amount : ℤ) (ds : List DailyVolume)
    → volume_revenue (add_day date amount ds) ≡ amount +ℤ volume_revenue ds
add_day-revenues date amount [] = refl
add_day-revenues date amount (d ∷ ds) = ground (
  arith,
  add_day-revenues date amount ds,
  add_swap amount d.revenue (volume_revenue ds),
  add_assoc amount d.revenue (volume_revenue ds),
)

days_of-sums :
    (date_of : ℤ → ℤ) (ps : List Payment)
    → (volume_count (days_of date_of ps) ≡ sum_of one ps)
      × (volume_revenue (days_of date_of ps) ≡ sum_of amount_of ps)
days_of-sums date_of [] = (refl, refl)
days_of-sums date_of (p ∷ ps) = (
  add_day-counts (date_of p.created_at) p.amount (days_of date_of ps)
      ∙ ap (λ n. pos 1 +ℤ n) (days_of-sums date_of ps).0,
  add_day-revenues (date_of p.created_at) p.amount (days_of date_of ps)
      ∙ ap (λ n. p.amount +ℤ n) (days_of-sums date_of ps).1,
)

after_query :
    {A B : Type 0} (f : Tables → A) (g : A → Action B) (w : World) (b : B)
    → (continue (query f w) g).0 ≡ ok b
    → (g (f w.tables) (record w { tick = w.tick + 1 })).0 ≡ ok b
after_query f g w b h = elim (Bool-cases (w.env.db_fails w.tick)) [
  | inl down ↦ cc (rw down at h)
  | inr up ↦ rw up at h
]

abbrev next : World → World
next w = record w { tick = w.tick + 1 }

after_count :
    {B : Type 0} (from to : ℤ) (g : ℤ × ℤ → Action B) (w : World) (b : B)
    → (continue (count_and_sum from to w) g).0 ≡ ok b
    → let ps = in_period from to w.tables.payments in
      (g (sum_of one ps, sum_of amount_of ps) (next w)).0 ≡ ok b
after_count from to g w b h = elim (Bool-cases (w.env.db_fails w.tick)) [
  | inl down ↦ cc (rw down at h)
  | inr up ↦ elim (Bool-cases (fits (sum_of amount_of (in_period from to w.tables.payments)))) [
    | inl small ↦ rw (up, small) at h
    | inr large ↦ cc (rw (up, large) at h)
  ]
]

after_breakdown :
    {B : Type 0} (key : Payment → String) (value : Payment → ℤ) (from to : ℤ)
    (g : Dict ℤ → Action B) (w : World) (b : B)
    → (continue (breakdown key value from to w) g).0 ≡ ok b
    → (g (collected (group_by key value (in_period from to w.tables.payments)) []) (next w)).0
      ≡ ok b
after_breakdown key value from to g w b h = elim (Bool-cases (w.env.db_fails w.tick)) [
  | inl down ↦ cc (rw down at h)
  | inr up ↦
      elim (Bool-cases (all_fit (group_by key value (in_period from to w.tables.payments)))) [
        | inl small ↦ rw (up, small) at h
        | inr large ↦ cc (rw (up, large) at h)
      ]
]

-- The map of a breakdown of payments that have not changed.
breakdown-total :
    (key : Payment → String) (value : Payment → ℤ) (from to : ℤ) (ps qs : List Payment)
    → qs ≡ ps
    → total (collected (group_by key value (in_period from to qs)) [])
      ≡ sum_of value (in_period from to ps)
breakdown-total key value from to ps qs e =
    collected-group_by key value (in_period from to qs)
    ∙ ap (λ l. sum_of value (in_period from to l)) e

get_daily_volume-days :
    (date_of : ℤ → ℤ) (from to : ℤ) (w : World) (ds : List DailyVolume)
    → (get_daily_volume date_of from to w).0 ≡ ok ds
    → ds ≡ days_of date_of (in_period from to w.tables.payments)
unfolding get_daily_volume
get_daily_volume-days date_of from to w ds h = elim (Bool-cases (w.env.db_fails w.tick)) [
  | inl down ↦ cc (rw down at h)
  | inr up ↦
      elim (Bool-cases (all_revenues_fit (days_of date_of (in_period from to w.tables.payments)))) [
        | inl small ↦ cc (rw (up, small) at h)
        | inr large ↦ cc (rw (up, large) at h)
      ]
]

-- What the statements of `GetStats` have read, where the payments do not change in between.
pub record Summed (from to : ℤ) (ps : List Payment) (s : DashboardStats) : Type 0 where
  pub counted : s.total_payments ≡ sum_of one (in_period from to ps)
  pub summed : s.total_revenue ≡ sum_of amount_of (in_period from to ps)
  pub by_status : total s.status_breakdown ≡ sum_of one (in_period from to ps)
  pub by_currency : total s.currency_breakdown ≡ sum_of amount_of (in_period from to ps)
  pub by_psp : total s.psp_breakdown ≡ sum_of one (in_period from to ps)

Summed-ok :
    (from to : ℤ) (ps : List Payment) (x s : DashboardStats)
    → ◌≡◌ {A = Result DashboardStats} (ok x) (ok s)
    → Summed from to ps x
    → Summed from to ps s
Summed-ok from to ps x s e k = let same : x ≡ s = cc in subst (λ y. Summed from to ps y) same k

get_stats-Summed :
    (others : World → World) (midnight : ℤ → ℤ) (from to : ℤ) (w : World) (s : DashboardStats)
    → ((v : World) → (others v).tables.payments ≡ v.tables.payments)
    → (get_stats others midnight from to w).0 ≡ ok s
    → Summed from to w.tables.payments s
unfolding get_stats
get_stats-Summed others midnight from to w s still h =
    let w1 = others (next w) in
    let h1 = after_count from to _ w s h in
    let w2 = others (next w1) in
    let h2 = after_query (outcomes from to) _ w1 s h1 in
    let w3 = others (next w2) in
    let h3 = after_breakdown status_key one from to _ w2 s h2 in
    let w4 = others (next w3) in
    let h4 = after_breakdown currency_key amount_of from to _ w3 s h3 in
    let w5 = others (next w4) in
    let h5 = after_breakdown psp_key one from to _ w4 s h4 in
    let today = midnight (w5.env.clock w5.tick) in
    let h6 = after_count today (today +ℤ day) _ w5 s h5 in
    let e1 = still (next w) in
    let e2 = still (next w1) ∙ e1 in
    let e3 = still (next w2) ∙ e2 in
    let e4 = still (next w3) ∙ e3 in
    Summed-ok from to w.tables.payments _ s h6 (record {
      counted = refl;
      summed = refl;
      by_status = breakdown-total status_key one from to w.tables.payments _ e2;
      by_currency = breakdown-total currency_key amount_of from to w.tables.payments _ e3;
      by_psp = breakdown-total psp_key one from to w.tables.payments _ e4;
    })

-- While the statements of one request for the numbers of a period run, and until another asks for
-- its days, no payment changes. If both succeed, the three breakdowns and the days add up to the
-- totals: by status, by provider and by day to the number of payments, by currency and by day to
-- their amount.
pub get_stats-adds_up :
    (others : World → World) (midnight date_of : ℤ → ℤ) (from to : ℤ) (w v : World)
    (s : DashboardStats) (ds : List DailyVolume)
    → ((u : World) → (others u).tables.payments ≡ u.tables.payments)
    → v.tables.payments ≡ w.tables.payments
    → (get_stats others midnight from to w).0 ≡ ok s
    → (get_daily_volume date_of from to v).0 ≡ ok ds
    → (total s.status_breakdown ≡ s.total_payments)
      × (total s.psp_breakdown ≡ s.total_payments)
      × (total s.currency_breakdown ≡ s.total_revenue)
      × (volume_count ds ≡ s.total_payments)
      × (volume_revenue ds ≡ s.total_revenue)
get_stats-adds_up others midnight date_of from to w v s ds still same h k =
    let c = get_stats-Summed others midnight from to w s still h in
    let days : ds ≡ days_of date_of (in_period from to w.tables.payments) =
      get_daily_volume-days date_of from to v ds k
      ∙ ap (λ ps. days_of date_of (in_period from to ps)) same in
    let sums = days_of-sums date_of (in_period from to w.tables.payments) in
    (
      c.by_status ∙ sym c.counted,
      c.by_psp ∙ sym c.counted,
      c.by_currency ∙ sym c.summed,
      ap volume_count days ∙ sums.0 ∙ sym c.counted,
      ap volume_revenue days ∙ sums.1 ∙ sym c.summed,
    )
