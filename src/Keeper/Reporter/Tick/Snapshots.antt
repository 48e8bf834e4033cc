-- ===== src/Keeper/Reporter/Tick/Snapshots.antt =====
-- What a tick reports, from the events that the servers hold.
use refluo.Prelude.Result.{ok}
use refluo.Prelude.Double.{Double}
use refluo.Prelude.Sort.{sort_by}
use refluo.Prelude.{
  ℕ, ◌+◌, ◌-◌, ◌*◌, ◌^◌, ◌≤◌, ◌≡◌, refl, sym, ap, ◌∙◌, Option, none, some, List, drop, length, max,
  arith,
}
use refluo.Rpc.Pages.{Position, Serves}
use refluo.Keeper.Forecaster.{BurnObservation}
use refluo.Keeper.ForecasterLoop.{TransferEvent, start_ledger_of}
use refluo.Keeper.ForecasterLoop.Buckets.{
  observed_in, burned_in, fetch_hourly_burn_observations-Serves,
}
use refluo.Keeper.Reporter.{
  Tier0Sample, PauseEvent, RawEvent, raw_before, pair_pauses, pause_start_ledger, tier0_samples,
  compute_pause_stats, recall_latency_samples,
}
use refluo.Keeper.Reporter.Pauses.{overlapping, covered_by_all, compute_pause_stats-covered}
use refluo.Keeper.Reporter.Recalls.Latency.{
  IsHistogram, compute_recall_latency_histogram-IsHistogram,
}
use refluo.Keeper.Reporter.Errors.{
  ForecasterErrorSample, compute_forecaster_error, backtest_forecaster_error,
}
use refluo.Keeper.Reporter.Series.{Tier0SeriesPoint, downsample_series, to_tier0_series_points}
use refluo.Keeper.Reporter.Series.Strides.{RoundLaws}
use refluo.Keeper.Reporter.Tick.{
  Config, Answers, SlaSnapshot, SnapshotFile, holds, window_start, snapshot_with, snapshot_of, tick,
}
use refluo.Keeper.Reporter.Tick.Figures.{
  Samples, IsHit, HasFloor, IsAbove, IsShare, IsChart, Plots, Plots-points, length-drop_le,
  tier0_samples-Samples, compute_tier0_hit_rate-IsShare, compute_agent_uptime-IsShare,
  downsample_series-IsChart,
}
use refluo.Keeper.Reporter.Tick.Totals.{
  fetch_pause_events-Serves, to_tier0_series_points_total, downsample_series-AllThere,
  backtest_from_total,
}

module _ (d : Double) (cfg : Config) (answers : Answers) where
  -- A snapshot against the events of the contracts and what the log holds.
  pub record IsReport (raw : List RawEvent) (transfers : List TransferEvent)
      (snapshot : SlaSnapshot d) : Type 0 where
    pub generated_now : snapshot.generated_at_seconds ≡ answers.now_seconds
    pub ends_now : snapshot.window_end_seconds ≡ answers.now_seconds
    pub spans :
        snapshot.window_start_seconds + cfg.window_hours * 3600 ≡ snapshot.window_end_seconds
    pub pauses : List PauseEvent
    pub pairs : pauses ≡ pair_pauses none (sort_by raw_before raw)
    pub counted : snapshot.pause_stats ≡ record {
      pause_count = overlapping pauses (window_start d cfg answers) (cfg.window_hours * 3600);
      total_pause_duration_seconds =
          covered_by_all pauses (window_start d cfg answers) (cfg.window_hours * 3600);
    }
    pub samples : List Tier0Sample
    pub logged : Samples snapshot.window_start_seconds answers.tier0_log samples
    pub hits : IsShare d IsHit (λ s. Unit) samples snapshot.tier0_hit_rate
    pub uptime : IsShare d IsAbove HasFloor samples snapshot.agent_uptime
    pub latency :
        IsHistogram
          (recall_latency_samples snapshot.window_start_seconds answers.recall_log)
          snapshot.recall_latency
    pub observations : List BurnObservation
    pub observed : (h : ℕ) → observed_in h observations ≡ burned_in h transfers
    pub errors : List (ForecasterErrorSample d)
    pub backtested : backtest_forecaster_error d observations cfg.backtest_hours ≡ ok errors
    pub graded : snapshot.forecaster_error ≡ compute_forecaster_error d errors
    pub chart : List (Option Tier0Sample)
    pub drawn_from : IsChart d samples cfg.chart_series_max_points chart
    pub plotted : Plots chart snapshot.tier0_series
    pub charted : IsChart d errors cfg.chart_series_max_points snapshot.forecaster_error_series

  snapshot-IsReport :
      (raw : List RawEvent) (transfers : List TransferEvent) (pauses : List PauseEvent)
      (observations : List BurnObservation) (errors : List (ForecasterErrorSample d))
      (points : List Tier0SeriesPoint)
      → RoundLaws d
      → length (tier0_samples (window_start d cfg answers) answers.tier0_log) ≤ 2 ^ 25
      → length errors ≤ 2 ^ 25
      → cfg.window_hours * 3600 ≤ answers.now_seconds
      → pauses ≡ pair_pauses none (sort_by raw_before raw)
      → ((h : ℕ) → observed_in h observations ≡ burned_in h transfers)
      → backtest_forecaster_error d observations cfg.backtest_hours ≡ ok errors
      → to_tier0_series_points (
          downsample_series d
            (tier0_samples (window_start d cfg answers) answers.tier0_log)
            cfg.chart_series_max_points)
        ≡ ok points
      → IsReport raw transfers (snapshot_with d cfg answers pauses errors points)
  snapshot-IsReport raw transfers pauses observations errors points laws small few fits pairs
        observed backtested plotted =
      let n : ℕ = cfg.window_hours * 3600 in
      let from : ℕ = window_start d cfg answers in
      let end : from + n ≡ answers.now_seconds = omega arith in
      record {
        pauses = pauses;
        pairs = pairs;
        counted =
            ap (compute_pause_stats pauses from) (sym end)
            ∙ compute_pause_stats-covered pauses from n;
        generated_now = refl;
        ends_now = refl;
        spans = end;
        samples = tier0_samples from answers.tier0_log;
        logged = tier0_samples-Samples from answers.tier0_log;
        hits = compute_tier0_hit_rate-IsShare d (tier0_samples from answers.tier0_log);
        uptime = compute_agent_uptime-IsShare d (tier0_samples from answers.tier0_log);
        latency =
            compute_recall_latency_histogram-IsHistogram
              (recall_latency_samples from answers.recall_log);
        observations = observations;
        observed = observed;
        errors = errors;
        backtested = backtested;
        graded = refl;
        chart =
            downsample_series d (tier0_samples from answers.tier0_log) cfg.chart_series_max_points;
        drawn_from =
            downsample_series-IsChart d laws (tier0_samples from answers.tier0_log)
              cfg.chart_series_max_points small;
        plotted = Plots-points _ points plotted;
        charted = downsample_series-IsChart d laws errors cfg.chart_series_max_points few;
      }

  pub tick-IsReport :
      RoundLaws d
      → (raw : List RawEvent) (transfers : List TransferEvent) (pages burn_pages : ℕ)
        (sequence burn_sequence extra burn_extra : ℕ) (file : SnapshotFile d)
      → cfg.window_hours * 3600 ≤ answers.now_seconds
      → length (tier0_samples (window_start d cfg answers) answers.tier0_log) ≤ 2 ^ 25
      → cfg.backtest_hours ≤ 2 ^ 25
      → answers.pause_ledger ≡ ok sequence
      → answers.burn_ledger ≡ ok burn_sequence
      → let start =
          pause_start_ledger sequence (answers.query_seconds - window_start d cfg answers) in
        Serves (answers.pause_pages start) start pages (Position.start_ledger start) raw
        → let burn_start = start_ledger_of burn_sequence cfg.lookback_hours in
          Serves
            (answers.burn_pages burn_start)
            burn_start
            burn_pages
            (Position.start_ledger burn_start)
            transfers
          → (snapshot : SlaSnapshot d) × (tick d cfg answers
                (pages + extra)
                (burn_pages + burn_extra)
                file
              ≡ some (ok snapshot, holds snapshot))
            × IsReport raw transfers snapshot
  unfolding tick snapshot_of backtest_forecaster_error
  tick-IsReport laws raw transfers pages burn_pages sequence burn_sequence extra burn_extra file
        fits small short known burn_known served burn_served =
      let pauses = pair_pauses none (sort_by raw_before raw) in
      let fetched =
        fetch_pause_events-Serves sequence (answers.query_seconds - window_start d cfg answers)
          answers.pause_pages extra served in
      let (observations, burned, sorted, observed) =
        fetch_hourly_burn_observations-Serves cfg.lookback_hours burn_sequence answers.burn_pages
          burn_extra burn_served in
      let from = max 1 (length observations - cfg.backtest_hours) in
      let (errors, backtested, as_many) =
        backtest_from_total d laws observations from (drop from observations) in
      let shorter : length (drop from observations) ≤ length observations - from =
        length-drop_le from observations in
      let few : length errors ≤ 2 ^ 25 = omega arith in
      let samples = tier0_samples (window_start d cfg answers) answers.tier0_log in
      let (points, plotted) =
        to_tier0_series_points_total (downsample_series d samples cfg.chart_series_max_points)
          (downsample_series-AllThere d laws samples cfg.chart_series_max_points small) in
      (
        snapshot_with d cfg answers pauses errors points,
        simp (known, burn_known, fetched, burned, backtested, plotted),
        snapshot-IsReport raw transfers pauses observations errors points laws small few fits refl
            observed backtested plotted,
      )
