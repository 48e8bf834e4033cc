-- ===== src/Keeper/Reporter/Errors.antt =====
-- keeper/src/reporter.ts: the forecaster's errors and the backtest that finds them.
pub mod Backtest
use Prim.Native.String.{String}
use refluo.Prelude.Result.{Result, ok, err}
use refluo.Prelude.Sort.{sort_by}
use refluo.Prelude.Double.{Double}
use refluo.Prelude.{
  ℕ, zero, suc, ◌+◌, ◌-◌, ◌*◌, ◌/◌, min, max, ◌≡◌, Bool, true, false, not, ◌&&◌, Option, none, some,
  List, [], ◌∷◌, ◌++◌, map, keep, take, drop, length, get_elem?, ltb, leb, ◌==◌, or_else,
  if◌then◌else◌, ℤ, pos, leb_ℤ,
}
use refluo.Rpc.Pages.{Position, Page, fold_pages}
use refluo.Keeper.MetricsLog.{MetricEvent, tier0_sample, recall_triggered, other_event, TxStatus}
use refluo.Keeper.Forecaster.{BurnObservation, Rates, compute_ewmas}
use refluo.Keeper.ForecasterLoop.{winsorized}
use refluo.Keeper.Reporter.Recalls.{percentile}

module _ (d : Double) where
  open d use {Num, from_int, sub, mul, div, add, abs, max_of, leb as leb_num}

  pub record ForecasterErrorSample : Type 0 where
    pub timestamp_seconds : ℕ
    pub predicted_stroops_per_hour : Num
    pub realized_stroops_per_hour : Num

  pub record ForecasterErrorStats : Type 0 where
    pub count : ℕ
    pub mean_abs_error : Num
    pub mean_abs_percent_error : Num
    pub p99_abs_error : Num

  abbrev sum_from : Num → List Num → Num
  sum_from total [] = total
  sum_from total (x ∷ xs) = sum_from (add total x) xs

  abbrev mean : List Num → Num
  mean [] = from_int (pos 0)
  mean (x ∷ xs) = div (sum_from (from_int (pos 0)) (x ∷ xs)) (from_int (pos (length (x ∷ xs))))

  abbrev pub abs_error : ForecasterErrorSample → Num
  abs_error s = abs (sub s.predicted_stroops_per_hour s.realized_stroops_per_hour)

  abbrev pub percent_error : ForecasterErrorSample → Num
  percent_error s =
      mul
        (abs (
          div (sub s.predicted_stroops_per_hour s.realized_stroops_per_hour)
            s.realized_stroops_per_hour))
        (from_int (pos 100))

  -- `!== 0`.
  abbrev pub is_nonzero : Num → Bool
  is_nonzero x = not (leb_num x (from_int (pos 0)) && leb_num (from_int (pos 0)) x)

  pub compute_forecaster_error : List ForecasterErrorSample → ForecasterErrorStats
  compute_forecaster_error samples = record {
    count = length samples;
    mean_abs_error = mean (map abs_error samples);
    mean_abs_percent_error =
        mean (map percent_error (keep (λ s. is_nonzero s.realized_stroops_per_hour) samples));
    p99_abs_error = percentile (from_int (pos 0)) (sort_by leb_num (map abs_error samples)) 99;
  }

  -- The prediction for the hour at an index, from the hours before it.
  unfoldable pub rates_before : List BurnObservation → ℕ → Result (Rates d)
  rates_before observations i = compute_ewmas d (map from_int (winsorized (take i observations)))

  abbrev pub sampled :
      Result (Rates d)
      → BurnObservation
      → Result (List ForecasterErrorSample)
      → Result (List ForecasterErrorSample)
  sampled (err m) o rest = err m
  sampled (ok rates) o (err m) = err m
  sampled (ok rates) o (ok samples) = ok (
      record {
        timestamp_seconds = o.timestamp_seconds;
        predicted_stroops_per_hour = max_of rates.fast_per_hour rates.slow_per_hour;
        realized_stroops_per_hour = from_int o.amount_stroops;
      }
      ∷ samples)

  -- The loop from the index `i` on, over the hours that are left.
  unfoldable pub backtest_from :
      List BurnObservation → ℕ → List BurnObservation → Result (List ForecasterErrorSample)
  backtest_from observations i [] = ok []
  backtest_from observations i (o ∷ rest) =
      sampled (rates_before observations i) o (backtest_from observations (i + 1) rest)

  unfoldable pub backtest_forecaster_error :
      List BurnObservation → ℕ → Result (List ForecasterErrorSample)
  unfolding backtest_from
  backtest_forecaster_error observations backtest_hours =
      let start = max 1 (length observations - backtest_hours) in
      backtest_from observations start (drop start observations)
