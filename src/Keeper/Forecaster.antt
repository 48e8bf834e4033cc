-- ===== src/Keeper/Forecaster.antt =====
-- keeper/src/forecaster.ts: Tier 0 sizing. Amounts are `bigint`s, burn rates are doubles; unix
-- seconds are natural numbers.
pub mod Winsor
pub mod Hysteresis
pub mod Band
pub mod Ewma
use refluo.Prelude.Result.{Result, ok, err}
use refluo.Prelude.Sort.{sort_by}
use refluo.Prelude.Double.{Double}
use refluo.Prelude.{
  ℕ, zero, suc, ◌+◌, ◌-◌, ◌*◌, ◌/◌, ◌%◌, ◌≡◌, ◌==◌, ◌&&◌, Bool, true, false, not, Option, none,
  some, List, [], ◌∷◌, ltb, leb, length, get_elem?, or_else, if◌then◌else◌, ℤ, pos, ◌+ℤ◌, ◌-ℤ◌,
  ◌*ℤ◌, ◌/ℤ◌, leb_ℤ, ltb_ℤ,
}

pub record BurnObservation : Type 0 where
  pub timestamp_seconds : ℕ
  pub amount_stroops : ℤ

unfoldable pub winsorize : ℤ → ℤ → ℤ
winsorize amount_stroops trailing_7d_median =
    if leb_ℤ trailing_7d_median (pos 0)
    then amount_stroops
    else let cap = trailing_7d_median *ℤ pos 3 in
      if ltb_ℤ cap amount_stroops then cap else amount_stroops

-- `values[i]`, at an index that is in range.
abbrev pub at : List ℤ → ℕ → ℤ
at values i = or_else (get_elem? values i) (pos 0)

abbrev pub middle : List ℤ → ℤ
middle sorted =
    let mid = length sorted / 2 in
    if length sorted % 2 == 1
    then at sorted mid
    else (at sorted (mid - 1) +ℤ at sorted mid) /ℤ pos 2

unfoldable pub median : List ℤ → ℤ
unfolding sort_by
median [] = pos 0
median (v ∷ vs) = middle (sort_by leb_ℤ (v ∷ vs))

module _ (d : Double) where
  open d use {Num, from_int, add, sub, mul, div, max_of, exp, neg, ln2, round}

  unfoldable pub half_life_to_alpha : Num → Result Num
  half_life_to_alpha half_life_periods =
      if d.leb half_life_periods (from_int (pos 0))
      then err "halfLifePeriods must be positive"
      else ok (sub (from_int (pos 1)) (exp (div (neg ln2) half_life_periods)))

  unfoldable pub ewma_step : Option Num → Num → Num → Num
  ewma_step none observation alpha = observation
  ewma_step (some previous) observation alpha =
      add (mul alpha observation) (mul (sub (from_int (pos 1)) alpha) previous)

  pub record Rates : Type 0 where
    pub fast_per_hour : Num
    pub slow_per_hour : Num

  -- The loop's two running values, `null` before the first observation.
  pub ewma_loop : Num → Num → Option Num → Option Num → List Num → Rates
  ewma_loop fast_alpha slow_alpha fast slow [] = record {
    fast_per_hour = or_else fast (from_int (pos 0));
    slow_per_hour = or_else slow (from_int (pos 0));
  }
  ewma_loop fast_alpha slow_alpha fast slow (obs ∷ rest) =
      ewma_loop fast_alpha slow_alpha (some (ewma_step fast obs fast_alpha))
        (some (ewma_step slow obs slow_alpha)) rest

  abbrev pub with_alphas : Result Num → Result Num → List Num → Result Rates
  with_alphas (err m) slow_alpha series = err m
  with_alphas (ok fast_alpha) (err m) series = err m
  with_alphas (ok fast_alpha) (ok slow_alpha) series =
      ok (ewma_loop fast_alpha slow_alpha none none series)

  unfoldable pub compute_ewmas : List Num → Result Rates
  unfolding ewma_loop
  compute_ewmas winsorized_hourly_stroops =
      with_alphas (half_life_to_alpha (from_int (pos 6)))
        (half_life_to_alpha (from_int (pos (24 * 7)))) winsorized_hourly_stroops

  pub record Tier0TargetParams : Type 0 where
    pub rates : Rates
    pub recall_window_seconds : Num
    pub k : Num
    pub xlm_fee_floor_usd_stroops : ℤ

  unfoldable pub compute_tier0_target : Tier0TargetParams → ℤ
  compute_tier0_target p =
      let per_hour = max_of p.rates.fast_per_hour p.rates.slow_per_hour in
      let per_second = div per_hour (from_int (pos 3600)) in
      let raw = mul (mul per_second p.recall_window_seconds) p.k in
      round raw +ℤ p.xlm_fee_floor_usd_stroops

pub record HysteresisState : Type 0 where
  pub below_since_seconds : Option ℕ

pub record HysteresisDecision : Type 0 where
  pub applied_target : ℤ
  pub next_state : HysteresisState

abbrev pub lower_after_seconds : ℕ
lower_after_seconds = 24 * 3600

-- `nowSeconds - belowSince` is compared with a positive number only, so stopping at 0 is exact.
unfoldable pub apply_hysteresis : ℤ → ℤ → ℕ → HysteresisState → HysteresisDecision
apply_hysteresis computed_target on_chain_target now_seconds state =
    if leb_ℤ on_chain_target computed_target
    then record {
      applied_target = computed_target;
      next_state = record { below_since_seconds = none };
    }
    else let below_since = or_else state.below_since_seconds now_seconds in
      let sustained_seconds = now_seconds - below_since in
      if leb lower_after_seconds sustained_seconds
      then record {
        applied_target = computed_target;
        next_state = record { below_since_seconds = none };
      }
      else record {
        applied_target = on_chain_target;
        next_state = record { below_since_seconds = some below_since };
      }

-- `a === b`.
abbrev pub eq_ℤ : ℤ → ℤ → Bool
eq_ℤ a b = leb_ℤ a b && leb_ℤ b a

unfoldable pub should_write_on_chain : ℤ → ℤ → ℤ → Bool
should_write_on_chain proposed_target on_chain_target band_bps =
    if eq_ℤ on_chain_target (pos 0)
    then not (eq_ℤ proposed_target (pos 0))
    else let diff =
        if ltb_ℤ on_chain_target proposed_target
        then proposed_target -ℤ on_chain_target
        else on_chain_target -ℤ proposed_target in
      let band_abs = on_chain_target *ℤ band_bps /ℤ pos 10_000 in ltb_ℤ band_abs diff

unfoldable pub should_recall : ℤ → ℤ → ℤ → Bool
should_recall tier0_balance applied_target refill_band_bps =
    let threshold = applied_target *ℤ refill_band_bps /ℤ pos 10_000 in ltb_ℤ tier0_balance threshold
