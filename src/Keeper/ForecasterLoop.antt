-- ===== src/Keeper/ForecasterLoop.antt =====
-- keeper/src/forecasterLoop.ts: burn ingestion, the tick, and the recall. Amounts are `bigint`s;
-- the RPC, the clients, the SDK and the clock are parameters.
pub mod Buckets
pub mod Persisted
pub mod Tick
use Prim.Native.String.{String}
use text.Mathlib.Text.{◌==◌ as str_eq}
use refluo.Prelude.Result.{Result, ok, err, M, ◌>>=◌, ◌>>◌, call, modify, return, throw, get}
use refluo.Prelude.Sort.{sort_by}
use refluo.Prelude.Maps.{map_get, map_set, nat_eq}
use refluo.Prelude.Double.{Double}
use refluo.Prelude.{
  ℕ, zero, suc, ◌+◌, ◌-◌, ◌*◌, ◌/◌, ◌^◌, max, ◌≡◌, Bool, true, false, Option, none, some, List, [],
  ◌∷◌, ◌++◌, map, take, drop, leb, or_else, if◌then◌else◌, ℤ, pos, ◌+ℤ◌, ◌-ℤ◌, ◌*ℤ◌,
}
use refluo.Rpc.Pages.{Position, Page, position, fold_pages}
use refluo.Keeper.MetricsLog.{MetricEvent, tier0_sample, recall_triggered, TxStatus}
use refluo.Keeper.Forecaster.{
  BurnObservation, winsorize, median, Rates, compute_ewmas, compute_tier0_target, HysteresisState,
  HysteresisDecision, apply_hysteresis, should_write_on_chain, should_recall,
}

-- An event's value: an i128 by its two halves, or a value of another kind.
pub data ScVal : Type 0 where
  scv_i128 : (hi : ℤ) (lo : ℕ) → ScVal
  scv_other : ScVal

abbrev pub i128 : ℤ → ℕ → ℤ
i128 hi lo = hi *ℤ pos (2 ^ 64) +ℤ pos lo

pub sc_val_to_i128 : ScVal → Result ℤ
sc_val_to_i128 (scv_i128 hi lo) = ok (i128 hi lo)
sc_val_to_i128 scv_other = err "value is not an i128"

-- A transfer out of the vault; the closing time of its ledger in milliseconds.
pub record TransferEvent : Type 0 where
  pub value : ScVal
  pub ledger_closed_at_ms : ℕ

abbrev pub Buckets : Type 0
Buckets = List (ℕ × ℤ)

abbrev pub hour_bucket : ℕ → ℕ
hour_bucket ms = ms / 1000 / 3600 * 3600

abbrev pub add_to_bucket : Buckets → ℕ → ℤ → Buckets
add_to_bucket buckets hour amount =
    map_set hour (or_else (map_get hour buckets) (pos 0) +ℤ amount) buckets

abbrev pub add_value : Buckets → ℕ → ScVal → Buckets
add_value buckets hour (scv_i128 hi lo) = add_to_bucket buckets hour (i128 hi lo)
add_value buckets hour scv_other = buckets

pub on_transfer : Buckets → TransferEvent → Buckets
on_transfer buckets event = add_value buckets (hour_bucket event.ledger_closed_at_ms) event.value

abbrev pub entry_before : ℕ × ℤ → ℕ × ℤ → Bool
entry_before (a, _) (b, _) = leb a b

abbrev pub observation : ℕ × ℤ → BurnObservation
observation (hour, amount) = record { timestamp_seconds = hour; amount_stroops = amount }

pub observations_of : Buckets → List BurnObservation
observations_of buckets = map observation (sort_by entry_before buckets)

-- `Math.ceil` of the lookback over five seconds a ledger.
abbrev pub lookback_ledgers : ℕ → ℕ
lookback_ledgers lookback_hours = (lookback_hours * 3600 + 4) / 5

-- `Math.max(2, …)`: where the difference is negative the 2 wins, so stopping at 0 is exact.
abbrev pub start_ledger_of : ℕ → ℕ → ℕ
start_ledger_of sequence lookback_hours = max 2 (sequence + 300 - lookback_ledgers lookback_hours)

abbrev pub observed : Option (Result Buckets) → Option (Result (List BurnObservation))
observed none = none
observed (some (err m)) = some (err m)
observed (some (ok buckets)) = some (ok (observations_of buckets))

-- `none`: the fuel ran out, one unit for each page.
pub fetch_hourly_burn_observations :
    ℕ
    → (latest_ledger : Result ℕ) → (ℕ → Position → Result (Page TransferEvent))
    → ℕ
    → Option (Result (List BurnObservation))
fetch_hourly_burn_observations lookback_hours (err m) server fuel = some (err m)
fetch_hourly_burn_observations lookback_hours (ok sequence) server fuel =
    let start = start_ledger_of sequence lookback_hours in
    observed (fold_pages (server start) start on_transfer fuel (Position.start_ledger start) [])

-- `slice(max(0, i - 168), i)`.
abbrev pub trailing : List BurnObservation → ℕ → List ℤ
trailing observations i =
    map (λ o. o.amount_stroops) (take (i - (i - 168)) (drop (i - 168) observations))

-- The loop of the winsorized series from the index `i` on, over the hours that are left.
pub winsorized_from : List BurnObservation → ℕ → List BurnObservation → List ℤ
winsorized_from observations i [] = []
winsorized_from observations i (o ∷ rest) =
    winsorize o.amount_stroops (median (trailing observations i))
    ∷ winsorized_from observations (i + 1) rest

unfoldable pub winsorized : List BurnObservation → List ℤ
unfolding winsorized_from
winsorized observations = winsorized_from observations 0 observations

-- The hysteresis file: not there, not JSON, or a state.
pub data StateFile : Type 0 where
  absent corrupt : StateFile
  holds : HysteresisState → StateFile

unfoldable pub load_hysteresis_state : StateFile → HysteresisState
load_hysteresis_state absent = record { below_since_seconds = none }
load_hysteresis_state corrupt = record { below_since_seconds = none }
load_hysteresis_state (holds state) = state

-- What the loop submits.
pub data KeeperCall : Type 0 where
  set_tier0_target : (new_target : ℤ) → KeeperCall
  recall : (venue : String) (context_rule_id : ℕ) (shortfall : ℤ) → KeeperCall

pub record World : Type 0 where
  pub state_file : StateFile
  pub metrics : List MetricEvent
  pub submitted : List KeeperCall

module _ (d : Double) where
  open d use {Num, from_int}

  pub record Config : Type 0 where
    pub recall_window_seconds : Num
    pub forecaster_k : Num
    pub xlm_fee_floor_usd_stroops : ℤ
    pub band_bps : ℤ
    pub refill_band_bps : ℤ
    pub recall_context_rule_id : Option ℕ
    pub recall_venue_id : Option String

-- The simulated balance call: it failed, came back without a value, or with one.
pub data Simulated : Type 0 where
  simulation_failed no_value : Simulated
  value : ScVal → Simulated

pub record Answers : Type 0 where
  pub tick_start_seconds : ℕ
  pub tier0_target : Result ℤ
  pub critical_floor : Result ℤ
  pub now_seconds : ℕ
  pub set_target : ℤ → Result (Unit {0})
  -- `getAccount` for the balance query, and the query.
  pub account : Result (Unit {0})
  pub balance : Result Simulated
  pub recall_account : Result (Unit {0})
  pub authorize_and_send : KeeperCall → Result TxStatus
  pub executed_at_seconds : ℕ

abbrev pub submit : KeeperCall → M World (Unit {0})
submit c = modify (λ w. record w { submitted = w.submitted ++ c ∷ [] })

abbrev pub append_metric : MetricEvent → M World (Unit {0})
append_metric e = modify (λ w. record w { metrics = w.metrics ++ e ∷ [] })

-- A configured venue is not the empty string.
abbrev pub venue_of : Option String → Option String
venue_of none = none
venue_of (some venue) = if str_eq venue "" then none else some venue

module _ (d : Double) (cfg : Config d) (answers : Answers) where
  pub trigger_recall : Option ℕ → Option String → ℤ → M World (Unit {0})
  trigger_recall (some rule) (some venue) shortfall = do
    account ← call answers.recall_account
    submit (recall venue rule shortfall)
    status ← call (answers.authorize_and_send (recall venue rule shortfall))
    append_metric (
        recall_triggered answers.tick_start_seconds answers.tick_start_seconds
          answers.executed_at_seconds shortfall status)
  trigger_recall none venue shortfall = return tt
  trigger_recall (some rule) none shortfall = return tt

  pub recall_if_low : ℤ → ℤ → M World (Unit {0})
  recall_if_low applied tier0_balance =
      if should_recall tier0_balance applied cfg.refill_band_bps
      then trigger_recall cfg.recall_context_rule_id (venue_of cfg.recall_venue_id)
          (applied -ℤ tier0_balance)
      else return tt

  pub after_balance : ℤ → ℤ → ℤ → M World (Unit {0})
  after_balance applied critical_floor tier0_balance = do
    append_metric
        (tier0_sample answers.tick_start_seconds tier0_balance applied (some critical_floor))
    recall_if_low applied tier0_balance

  pub after_simulation : ℤ → ℤ → Simulated → M World (Unit {0})
  after_simulation applied critical_floor simulation_failed = return tt
  after_simulation applied critical_floor no_value = after_balance applied critical_floor (pos 0)
  after_simulation applied critical_floor (value v) = do
    tier0_balance ← call (sc_val_to_i128 v)
    after_balance applied critical_floor tier0_balance

  pub send_target : ℤ → M World (Unit {0})
  send_target applied = do submit (set_tier0_target applied); call (answers.set_target applied)

  pub write_target : ℤ → ℤ → M World (Unit {0})
  write_target applied on_chain =
      if should_write_on_chain applied on_chain cfg.band_bps then send_target applied else return tt

  pub computed_target : Rates d → ℤ
  computed_target rates = compute_tier0_target d (record {
    rates = rates;
    recall_window_seconds = cfg.recall_window_seconds;
    k = cfg.forecaster_k;
    xlm_fee_floor_usd_stroops = cfg.xlm_fee_floor_usd_stroops;
  })

  pub decide : ℤ → ℤ → M World HysteresisDecision
  decide computed on_chain = do
    w ← get
    let decision =
        apply_hysteresis computed on_chain answers.now_seconds (load_hysteresis_state w.state_file)
    modify (λ w. record w { state_file = holds decision.next_state })
    return decision

  pub after_decision : HysteresisDecision → ℤ → ℤ → M World (Unit {0})
  after_decision decision on_chain critical_floor = do
    write_target decision.applied_target on_chain
    account ← call answers.account
    simulated ← call answers.balance
    after_simulation decision.applied_target critical_floor simulated

  -- The tick behind the burn query.
  pub tick : Result (List BurnObservation) → M World (Unit {0})
  tick fetched = do
    observations ← call fetched
    rates ← call (compute_ewmas d (map d.from_int (winsorized observations)))
    on_chain ← call answers.tier0_target
    critical_floor ← call answers.critical_floor
    decision ← decide (computed_target rates) on_chain
    after_decision decision on_chain critical_floor
