-- ===== src/Keeper/Reporter.antt =====
-- keeper/src/reporter.ts, and the queries of keeper/src/reporterLoop.ts that feed it. Seconds are
-- natural numbers; ratios are doubles.
pub mod Pauses
pub mod Recalls
pub mod Errors
pub mod Series
pub mod Tick
use Prim.Native.String.{String}
use refluo.Prelude.Result.{Result, ok, err}
use refluo.Prelude.Sort.{sort_by}
use refluo.Prelude.Double.{Double}
use refluo.Prelude.{
  ℕ, zero, suc, ◌+◌, ◌-◌, ◌*◌, ◌/◌, min, max, ◌≡◌, Bool, true, false, not, ◌&&◌, Option, none, some,
  List, [], ◌∷◌, ◌++◌, map, keep, take, drop, length, get_elem?, ltb, leb, ◌==◌, or_else,
  if◌then◌else◌, ℤ, pos, leb_ℤ,
}
use refluo.Rpc.Pages.{Position, Page, fold_pages}
use refluo.Keeper.MetricsLog.{MetricEvent, tier0_sample, recall_triggered, other_event, TxStatus}
use refluo.Keeper.Forecaster.{BurnObservation, Rates, compute_ewmas}
use refluo.Keeper.ForecasterLoop.{winsorized}
use refluo.Keeper.Reporter.Recalls.{RecallLatencySample}

pub record Tier0Sample : Type 0 where
  pub timestamp_seconds : ℕ
  pub balance_stroops : ℤ
  pub target_stroops : ℤ
  pub critical_floor_stroops : Option ℤ

abbrev pub is_hit : Tier0Sample → Bool
is_hit s = leb_ℤ s.target_stroops s.balance_stroops

abbrev pub has_floor : Option ℤ → Bool
has_floor none = false
has_floor (some floor) = true

abbrev pub is_above : ℤ → Option ℤ → Bool
is_above balance none = false
is_above balance (some floor) = leb_ℤ floor balance

module _ (d : Double) where
  open d use {Num, from_int, sub, mul, div, add, abs, max_of, leb as leb_num}

  abbrev pub ratio : ℕ → ℕ → Num
  ratio n total = div (from_int (pos n)) (from_int (pos total))

  unfoldable pub compute_tier0_hit_rate : List Tier0Sample → Num
  compute_tier0_hit_rate [] = from_int (pos 0)
  compute_tier0_hit_rate (s ∷ samples) =
      ratio (length (keep is_hit (s ∷ samples))) (length (s ∷ samples))

  abbrev pub uptime_of : List Tier0Sample → Num
  uptime_of [] = from_int (pos 0)
  uptime_of (s ∷ samples) =
      ratio (length (keep (λ s. is_above s.balance_stroops s.critical_floor_stroops) (s ∷ samples)))
        (length (s ∷ samples))

  unfoldable pub compute_agent_uptime : List Tier0Sample → Num
  compute_agent_uptime samples = uptime_of (keep (λ s. has_floor s.critical_floor_stroops) samples)

pub record PauseEvent : Type 0 where
  pub paused_at_seconds : ℕ
  pub pause_expiry_seconds : ℕ
  pub resumed_at_seconds : Option ℕ

pub record PauseStats : Type 0 where
  pub pause_count : ℕ
  pub total_pause_duration_seconds : ℕ

abbrev pub real_end : PauseEvent → ℕ
real_end event = or_else event.resumed_at_seconds event.pause_expiry_seconds

abbrev pub clipped_start : ℕ → PauseEvent → ℕ
clipped_start window_start event = max event.paused_at_seconds window_start

abbrev pub clipped_end : ℕ → PauseEvent → ℕ
clipped_end window_end event = min (real_end event) window_end

-- The loop's two counters, over the events that are left.
unfoldable pub pause_stats_from : ℕ → ℕ → PauseStats → List PauseEvent → PauseStats
pause_stats_from window_start window_end stats [] = stats
pause_stats_from window_start window_end stats (event ∷ events) =
    let start = clipped_start window_start event in
    let end = clipped_end window_end event in
    pause_stats_from window_start window_end
      (if leb end start then stats else record {
        pause_count = stats.pause_count + 1;
        total_pause_duration_seconds = stats.total_pause_duration_seconds + (end - start);
      })
      events

unfoldable pub compute_pause_stats : List PauseEvent → ℕ → ℕ → PauseStats
unfolding pause_stats_from
compute_pause_stats events window_start window_end =
    pause_stats_from window_start window_end
      (record { pause_count = 0; total_pause_duration_seconds = 0 }) events

-- An event of the HealthMonitor.
pub data RawEvent : Type 0 where
  paused : (closed_at_seconds pause_expiry : ℕ) → RawEvent
  resumed : (closed_at_seconds : ℕ) → RawEvent

abbrev pub closed_at : RawEvent → ℕ
closed_at (paused at expiry) = at
closed_at (resumed at) = at

abbrev pub raw_before : RawEvent → RawEvent → Bool
raw_before a b = leb (closed_at a) (closed_at b)

abbrev pub push_open : Option PauseEvent → List PauseEvent → List PauseEvent
push_open none events = events
push_open (some event) events = event ∷ events

abbrev pub new_pause : ℕ → ℕ → PauseEvent
new_pause at expiry = record {
  paused_at_seconds = at;
  pause_expiry_seconds = expiry;
  resumed_at_seconds = none;
}

-- The pairing loop, with its open pause, over the events that are left.
unfoldable pub pair_pauses : Option PauseEvent → List RawEvent → List PauseEvent
pair_pauses open_pause [] = push_open open_pause []
pair_pauses open_pause (paused at expiry ∷ raw) =
    push_open open_pause (pair_pauses (some (new_pause at expiry)) raw)
pair_pauses none (resumed at ∷ raw) = pair_pauses none raw
pair_pauses (some event) (resumed at ∷ raw) =
    record event { resumed_at_seconds = some at } ∷ pair_pauses none raw

-- The source subtracts 300 ledgers more than the window asks for; stopping at 0 is exact below 2.
abbrev pub pause_start_ledger : ℕ → ℕ → ℕ
pause_start_ledger sequence lookback_seconds = max 2 (sequence - (lookback_seconds + 4) / 5 - 300)

abbrev pub paired : Option (Result (List RawEvent)) → Option (Result (List PauseEvent))
paired none = none
paired (some (err m)) = some (err m)
paired (some (ok raw)) = some (ok (pair_pauses none (sort_by raw_before raw)))

-- `none`: the fuel ran out, one unit for each page.
unfoldable pub fetch_pause_events :
    (latest_ledger : Result ℕ)
    → (lookback_seconds : ℕ) → (ℕ → Position → Result (Page RawEvent))
    → ℕ
    → Option (Result (List PauseEvent))
fetch_pause_events (err m) lookback_seconds server fuel = some (err m)
fetch_pause_events (ok sequence) lookback_seconds server fuel =
    let start = pause_start_ledger sequence lookback_seconds in
    paired (
      fold_pages (server start) start (λ raw e. raw ++ e ∷ []) fuel (Position.start_ledger start)
        [])

pub recall_latency_samples : ℕ → List MetricEvent → List RecallLatencySample
recall_latency_samples window_start [] = []
recall_latency_samples window_start (tier0_sample at balance target floor ∷ events) =
    recall_latency_samples window_start events
recall_latency_samples window_start (other_event at ∷ events) =
    recall_latency_samples window_start events
recall_latency_samples window_start
      (recall_triggered at detected executed shortfall status ∷ events) =
    let rest = recall_latency_samples window_start events in
    if leb window_start at
    then record { detected_at_seconds = detected; executed_at_seconds = executed } ∷ rest
    else rest

unfoldable pub tier0_samples : ℕ → List MetricEvent → List Tier0Sample
tier0_samples window_start [] = []
tier0_samples window_start (tier0_sample at balance target floor ∷ events) =
    let rest = tier0_samples window_start events in
    if leb window_start at
    then record {
      timestamp_seconds = at;
      balance_stroops = balance;
      target_stroops = target;
      critical_floor_stroops = floor;
    }
      ∷ rest
    else rest
tier0_samples window_start (other_event at ∷ events) = tier0_samples window_start events
tier0_samples window_start (recall_triggered at detected executed shortfall status ∷ events) =
    tier0_samples window_start events
