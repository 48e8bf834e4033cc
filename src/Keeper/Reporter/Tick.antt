-- ===== src/Keeper/Reporter/Tick.antt =====
-- keeper/src/reporterLoop.ts: the tick that writes the SLA snapshot, and its loop. The RPC, the
-- clock and the metrics log that each read finds are parameters.
pub mod Totals
pub mod Figures
pub mod Snapshots
use refluo.Prelude.Result.{Result, ok, err, and_then}
use refluo.Prelude.Double.{Double}
use refluo.Prelude.{ℕ, ◌-◌, ◌*◌, Option, none, some, List, [], ◌∷◌}
use refluo.Rpc.Pages.{Position, Page}
use refluo.Keeper.MetricsLog.{MetricEvent}
use refluo.Keeper.Forecaster.{BurnObservation}
use refluo.Keeper.ForecasterLoop.{TransferEvent, fetch_hourly_burn_observations}
use refluo.Keeper.Reporter.{
  compute_tier0_hit_rate, compute_agent_uptime, PauseEvent, PauseStats, compute_pause_stats,
  RawEvent, fetch_pause_events, recall_latency_samples, tier0_samples,
}
use refluo.Keeper.Reporter.Recalls.{LatencyHistogram, compute_recall_latency_histogram}
use refluo.Keeper.Reporter.Errors.{
  ForecasterErrorSample, ForecasterErrorStats, compute_forecaster_error, backtest_forecaster_error,
}
use refluo.Keeper.Reporter.Series.{Tier0SeriesPoint, downsample_series, to_tier0_series_points}

pub record Config : Type 0 where
  pub window_hours : ℕ
  pub backtest_hours : ℕ
  pub lookback_hours : ℕ
  pub chart_series_max_points : ℕ

-- The answers during one tick: the clock at its start and at the pause query, the two servers'
-- pages, and the log as each of its two reads finds it.
pub record Answers : Type 0 where
  pub now_seconds : ℕ
  pub query_seconds : ℕ
  pub pause_ledger : Result ℕ
  pub pause_pages : ℕ → Position → Result (Page RawEvent)
  pub tier0_log : List MetricEvent
  pub recall_log : List MetricEvent
  pub burn_ledger : Result ℕ
  pub burn_pages : ℕ → Position → Result (Page TransferEvent)

module _ (d : Double) where
  pub record SlaSnapshot : Type 0 where
    pub generated_at_seconds : ℕ
    pub window_start_seconds : ℕ
    pub window_end_seconds : ℕ
    pub tier0_hit_rate : d.Num
    pub agent_uptime : d.Num
    pub pause_stats : PauseStats
    pub recall_latency : LatencyHistogram
    pub forecaster_error : ForecasterErrorStats d
    pub tier0_series : List Tier0SeriesPoint
    pub forecaster_error_series : List (Option (ForecasterErrorSample d))

  -- Not there, not JSON (as while it is written), or a snapshot.
  pub data SnapshotFile : Type 0 where
    absent unparsable : SnapshotFile
    holds : SlaSnapshot → SnapshotFile

  module _ (cfg : Config) (answers : Answers) where
    abbrev pub window_start : ℕ
    window_start = answers.now_seconds - cfg.window_hours * 3600

    abbrev pub snapshot_with :
        List PauseEvent → List (ForecasterErrorSample d) → List Tier0SeriesPoint → SlaSnapshot
    snapshot_with pauses errors points = record {
      generated_at_seconds = answers.now_seconds;
      window_start_seconds = window_start;
      window_end_seconds = answers.now_seconds;
      tier0_hit_rate = compute_tier0_hit_rate d (tier0_samples window_start answers.tier0_log);
      agent_uptime = compute_agent_uptime d (tier0_samples window_start answers.tier0_log);
      pause_stats = compute_pause_stats pauses window_start answers.now_seconds;
      recall_latency =
          compute_recall_latency_histogram (recall_latency_samples window_start answers.recall_log);
      forecaster_error = compute_forecaster_error d errors;
      tier0_series = points;
      forecaster_error_series = downsample_series d errors cfg.chart_series_max_points;
    }

    unfoldable pub snapshot_of : List PauseEvent → List BurnObservation → Result SlaSnapshot
    snapshot_of pauses observations =
        and_then (backtest_forecaster_error d observations cfg.backtest_hours) (λ errors.
          and_then
            (to_tier0_series_points (
              downsample_series d (tier0_samples window_start answers.tier0_log)
                cfg.chart_series_max_points))
            (λ points. ok (snapshot_with pauses errors points)))

    abbrev pub written : SnapshotFile → Result SlaSnapshot → Result SlaSnapshot × SnapshotFile
    written file (err m) = (err m, file)
    written file (ok snapshot) = (ok snapshot, holds snapshot)

    abbrev pub with_burns :
        SnapshotFile
        → List PauseEvent
        → Option (Result (List BurnObservation))
        → Option (Result SlaSnapshot × SnapshotFile)
    with_burns file pauses none = none
    with_burns file pauses (some (err m)) = some (err m, file)
    with_burns file pauses (some (ok observations)) =
        some (written file (snapshot_of pauses observations))

    abbrev pub burns : ℕ → Option (Result (List BurnObservation))
    burns fuel =
        fetch_hourly_burn_observations cfg.lookback_hours answers.burn_ledger answers.burn_pages
          fuel

    abbrev pub with_pauses :
        ℕ
        → SnapshotFile
        → Option (Result (List PauseEvent))
        → Option (Result SlaSnapshot × SnapshotFile)
    with_pauses fuel file none = none
    with_pauses fuel file (some (err m)) = some (err m, file)
    with_pauses fuel file (some (ok pauses)) = with_burns file pauses (burns fuel)

    -- `none`: the fuel of one of the two queries ran out, one unit for each page.
    unfoldable pub tick :
        (pause_fuel burn_fuel : ℕ) → SnapshotFile → Option (Result SlaSnapshot × SnapshotFile)
    tick pause_fuel burn_fuel file = with_pauses burn_fuel file (
        fetch_pause_events answers.pause_ledger (answers.query_seconds - window_start)
          answers.pause_pages pause_fuel)

  pub record Round : Type 0 where
    pub answers : Answers
    pub pause_fuel : ℕ
    pub burn_fuel : ℕ

  abbrev pub next_file : Option (Result SlaSnapshot × SnapshotFile) → Option SnapshotFile
  next_file none = none
  next_file (some (result, file)) = some file

  -- `main`: tick after tick, whatever a tick throws. `none`: the fuel of a query ran out.
  unfoldable pub main : Config → List Round → SnapshotFile → Option SnapshotFile
  main cfg [] file = some file
  main cfg (r ∷ rounds) file = elim (next_file (tick cfg r.answers r.pause_fuel r.burn_fuel file)) [
    | none ↦ none
    | some file' ↦ main cfg rounds file'
  ]
