-- ===== src/Tests/Forecaster.antt =====
-- Examples for the forecaster's sizing.
use refluo.Prelude.{ℕ, ◌+◌, ◌≤◌, List, [], ◌∷◌, arith, pos, ◌<ℤ◌}
use refluo.Keeper.Forecaster.{Tier0TargetParams, apply_hysteresis, lower_after_seconds}
use refluo.Keeper.Forecaster.Hysteresis.{Tick, decide, state_after, BelowSince, lowers_after_a_day}
use refluo.Tests.Numbers.{whole}

abbrev low_at : ℕ → Tick
low_at now = record { computed = pos 400; on_chain = pos 900; now_seconds = now }

abbrev one_day_low : List Tick
one_day_low = low_at 50_000 ∷ low_at 1_000 ∷ []

lowers_after_a_day_example :
    (since : ℕ) × (since + lower_after_seconds ≤ 87_400)
    × BelowSince since (low_at 87_400 ∷ one_day_low)
lowers_after_a_day_example = lowers_after_a_day (low_at 87_400) one_day_low lowered
  where
    lowered :
        (decide (low_at 87_400) (state_after one_day_low)).applied_target
        <ℤ (low_at 87_400).on_chain
    lowered = unfold apply_hysteresis in (omega arith)

abbrev params : ℕ → Tier0TargetParams whole
params per_hour = record {
  rates = record { fast_per_hour = per_hour; slow_per_hour = 3_600 };
  recall_window_seconds = 600;
  k = 2;
  xlm_fee_floor_usd_stroops = pos 50;
}
