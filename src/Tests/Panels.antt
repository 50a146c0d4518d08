-- ===== src/Tests/Panels.antt =====
-- The theorems on the dashboard and the metrics at concrete inputs.
use resilient_settlement_orc.Base.{◌+◌, ◌%◌, leb, ◌≡◌, refl, List, [], ◌∷◌}
use resilient_settlement_orc.Base.Int.{pos, ◌+ℤ◌}
use resilient_settlement_orc.Base.Int64.{residue}
use resilient_settlement_orc.Base.Groups.{total}
use resilient_settlement_orc.Store.Action.{ok}
use resilient_settlement_orc.Dashboard.{
  DashboardStats, DailyVolume, get_stats, get_daily_volume, day,
}
use resilient_settlement_orc.Dashboard.Totals.{volume_count, volume_revenue, get_stats-adds_up}
use resilient_settlement_orc.Metrics.{new_histogram, observe_all, write_histogram}
use resilient_settlement_orc.Metrics.Histograms.{last_or, write_histogram-overcounts}
use resilient_settlement_orc.Tests.Shop.{busy_shop}

-- All days are one, and the period is that day.
abbrev numbers : DashboardStats
numbers = record {
  total_payments = pos 1;
  total_revenue = pos 1000;
  success_count = pos 1;
  failure_count = pos 0;
  status_breakdown = ("captured", pos 1) ∷ [];
  currency_breakdown = ("INR", pos 1000) ∷ [];
  psp_breakdown = ("mock", pos 1) ∷ [];
  today_payments = pos 1;
  today_revenue = pos 1000;
  period_start = pos 0;
  period_end = day;
}

numbers-returned : (get_stats (λ w. w) (λ t. pos 0) (pos 0) day busy_shop).0 ≡ ok numbers
unfolding get_stats ◌+ℤ◌
numbers-returned = refl

abbrev days : List DailyVolume
days = record { date = pos 0; count = pos 1; revenue = pos 1000 } ∷ []

days-returned : (get_daily_volume (λ t. pos 0) (pos 0) day busy_shop).0 ≡ ok days
unfolding get_daily_volume ◌+ℤ◌
days-returned = refl

get_stats-adds_up_example :
    (total numbers.status_breakdown ≡ pos 1)
    × (total numbers.psp_breakdown ≡ pos 1)
    × (total numbers.currency_breakdown ≡ pos 1000)
    × (volume_count days ≡ pos 1)
    × (volume_revenue days ≡ pos 1000)
get_stats-adds_up_example =
    get_stats-adds_up (λ w. w) (λ t. pos 0) (λ t. pos 0) (pos 0) day busy_shop busy_shop numbers
      days (λ u. refl) refl numbers-returned days-returned

-- One value, which is below two of three bounds, and one above all of them.
write_histogram-overcounts_example :
    let x =
      write_histogram (observe_all ◌+◌ leb (3 ∷ 20 ∷ []) (new_histogram 0 "h" (1 ∷ 5 ∷ 10 ∷ []))) in
    (residue x.count % 18446744073709551616 ≡ 2 % 18446744073709551616)
    × (residue (last_or (pos 0) x.bucket_counts) % 18446744073709551616
        ≡ (2 + 2) % 18446744073709551616)
write_histogram-overcounts_example =
    write_histogram-overcounts ◌+◌ leb 0 "h" (1 ∷ 5 ∷ 10 ∷ []) (3 ∷ 20 ∷ [])
