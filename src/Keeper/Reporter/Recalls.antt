-- ===== src/Keeper/Reporter/Recalls.antt =====
-- keeper/src/reporter.ts: the histogram of the recall latencies.
pub mod Latency
use Prim.Native.String.{String}
use refluo.Prelude.Result.{Result, ok, err}
use refluo.Prelude.Sort.{sort_by}
use refluo.Prelude.Double.{Double}
use refluo.Prelude.{
  ℕ, zero, suc, ◌+◌, ◌-◌, ◌*◌, ◌/◌, min, max, ◌≡◌, Bool, true, false, not, ◌&&◌, Option, none, some,
  List, [], ◌∷◌, ◌++◌, map, keep, take, drop, length, get_elem?, ltb, leb, ◌==◌, or_else,
  if◌then◌else◌, ℤ, pos, leb_ℤ,
}
use refluo.Rpc.Pages.{Position, Page, fold_pages}
use refluo.Keeper.MetricsLog.{MetricEvent, tier0_sample, recall_triggered, other_event, TxStatus}
use refluo.Keeper.Forecaster.{BurnObservation, Rates, compute_ewmas}
use refluo.Keeper.ForecasterLoop.{winsorized}

pub record RecallLatencySample : Type 0 where
  pub detected_at_seconds : ℕ
  pub executed_at_seconds : ℕ

-- `Math.ceil((p / 100) * n)` for a whole percentage; the subtraction stops at 0 as `Math.max` does.
abbrev pub rank : ℕ → ℕ → ℕ
rank p n = min (n - 1) ((p * n + 99) / 100 - 1)

unfoldable pub percentile : {A : Type 0} → A → List A → ℕ → A
percentile zero_value [] p = zero_value
percentile zero_value (v ∷ sorted) p =
    or_else (get_elem? (v ∷ sorted) (rank p (length (v ∷ sorted)))) zero_value

-- A bucket's bounds: the upper one is exclusive, `none` is unbounded.
abbrev pub bucket_bounds : List (ℕ × Option ℕ)
bucket_bounds =
    (0, some 10)
    ∷ (10, some 30)
    ∷ (30, some 60)
    ∷ (60, some 120)
    ∷ (120, some 300)
    ∷ (300, none)
    ∷ []

abbrev pub below : Option ℕ → ℕ → Bool
below none v = true
below (some bound) v = ltb v bound

abbrev pub in_bucket : ℕ × Option ℕ → ℕ → Bool
in_bucket (least, bound) v = leb least v && below bound v

abbrev pub bucket_count : List ℕ → ℕ × Option ℕ → ℕ
bucket_count latencies bounds = length (keep (in_bucket bounds) latencies)

pub record LatencyHistogram : Type 0 where
  pub count : ℕ
  pub p50_seconds : ℕ
  pub p95_seconds : ℕ
  pub p99_seconds : ℕ
  pub buckets : List ℕ

-- A sample that was executed before it was detected has a negative latency and is dropped.
pub latencies_of : List RecallLatencySample → List ℕ
latencies_of [] = []
latencies_of (s ∷ samples) =
    let rest = latencies_of samples in
    if leb s.detected_at_seconds s.executed_at_seconds
    then (s.executed_at_seconds - s.detected_at_seconds) ∷ rest
    else rest

unfoldable pub compute_recall_latency_histogram : List RecallLatencySample → LatencyHistogram
compute_recall_latency_histogram samples =
    let latencies = sort_by leb (latencies_of samples) in
    record {
      count = length latencies;
      p50_seconds = percentile 0 latencies 50;
      p95_seconds = percentile 0 latencies 95;
      p99_seconds = percentile 0 latencies 99;
      buckets = map (bucket_count latencies) bucket_bounds;
    }
