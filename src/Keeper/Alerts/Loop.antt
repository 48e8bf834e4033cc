-- ===== src/Keeper/Alerts/Loop.antt =====
-- keeper/src/alertDispatcherLoop.ts. The RPC and RiskEngine's client are parameters.
pub mod Pauses
pub mod Tick
use Prim.Native.String.{String}
use text.Mathlib.Text.{◌==◌ as str_eq}
use refluo.Prelude.Result.{Result, ok, err, M, ◌>>=◌, ◌>>◌, call, modify, return, get}
use refluo.Prelude.Sort.{sort_by}
use refluo.Prelude.{
  ℕ, ◌+◌, ◌-◌, ◌/◌, min, max, ◌≡◌, Bool, true, false, not, ◌&&◌, Option, none, some, List, [], ◌∷◌,
  ◌++◌, map, keep, ltb, leb, ◌==◌, or_else, if◌then◌else◌, ℤ,
}
use refluo.Rpc.Pages.{Position, Page, fold_pages}
use refluo.Keeper.MetricsLog.{MetricEvent, tier0_sample, recall_triggered, other_event, TxStatus}
use refluo.Keeper.Alerts.{
  AlertsConfig, AlertEvent, pause_alert, recall_alert, state_alert, paused, recalled, transitioned,
}

pub record DispatcherState : Type 0 where
  pub last_pause_at_seconds : ℕ
  pub last_recall_at_seconds : ℕ
  pub last_known_system_state : Option ℕ

abbrev pub initial_state : DispatcherState
initial_state = record {
  last_pause_at_seconds = 0;
  last_recall_at_seconds = 0;
  last_known_system_state = none;
}

-- A Paused event; the closing time of its ledger in milliseconds.
pub record PausedEvent : Type 0 where
  pub ledger_closed_at_ms : ℕ
  pub trigger : String

pub record NewPause : Type 0 where
  pub at_seconds : ℕ
  pub trigger : String

abbrev pub new_pause : PausedEvent → NewPause
new_pause event = record { at_seconds = event.ledger_closed_at_ms / 1000; trigger = event.trigger }

abbrev pub push_if_new : ℕ → List NewPause → PausedEvent → List NewPause
push_if_new since found event =
    if ltb since (new_pause event).at_seconds then found ++ new_pause event ∷ [] else found

abbrev pub pause_before : NewPause → NewPause → Bool
pause_before a b = leb a.at_seconds b.at_seconds

-- `Math.max(0, …)` and `Math.max(2, …)` of differences: stopping at 0 is exact.
abbrev pub start_ledger_since : ℕ → ℕ → ℕ → ℕ → ℕ
start_ledger_since max_lookback_ledgers sequence now_seconds since =
    let lookback_seconds = now_seconds - since in
    let lookback_ledgers = min max_lookback_ledgers (max 300 ((lookback_seconds + 4) / 5 + 300)) in
    max 2 (sequence - lookback_ledgers)

abbrev pub sorted_pauses : Option (Result (List NewPause)) → Option (Result (List NewPause))
sorted_pauses none = none
sorted_pauses (some (err m)) = some (err m)
sorted_pauses (some (ok found)) = some (ok (sort_by pause_before found))

-- `none`: the fuel ran out, one unit for each page.
pub fetch_new_pause_events :
    ℕ
    → (latest_ledger : Result ℕ) → (now_seconds : ℕ) → (ℕ → Position → Result (Page PausedEvent))
    → ℕ
    → ℕ
    → Option (Result (List NewPause))
fetch_new_pause_events max_lookback_ledgers (err m) now_seconds server fuel since = some (err m)
fetch_new_pause_events max_lookback_ledgers (ok sequence) now_seconds server fuel since =
    let start = start_ledger_since max_lookback_ledgers sequence now_seconds since in
    sorted_pauses
      (fold_pages (server start) start (push_if_new since) fuel (Position.start_ledger start) [])

-- The state file (`none`: not there, or no JSON), and the alerts handed to the dispatch.
pub record World : Type 0 where
  pub state_file : Option DispatcherState
  pub dispatched : List AlertEvent

abbrev pub load_state : Option DispatcherState → DispatcherState
load_state none = initial_state
load_state (some state) = state

abbrev pub pause_event : NewPause → AlertEvent
pause_event pause = record {
  type = pause_alert;
  at_seconds = pause.at_seconds;
  detail = paused pause.trigger;
}

abbrev pub last_of : ℕ → List NewPause → ℕ
last_of last [] = last
last_of last (p ∷ ps) = last_of p.at_seconds ps

-- The recalls of the log that are newer than a time, as alerts.
abbrev pub recall_events : ℕ → List MetricEvent → List AlertEvent
recall_events since [] = []
recall_events since (tier0_sample at balance target floor ∷ events) = recall_events since events
recall_events since (other_event at ∷ events) = recall_events since events
recall_events since (recall_triggered at detected executed shortfall status ∷ events) =
    let rest = recall_events since events in
    if ltb since at
    then record { type = recall_alert; at_seconds = at; detail = recalled shortfall status } ∷ rest
    else rest

abbrev pub latest : ℕ → List AlertEvent → ℕ
latest last [] = last
latest last (e ∷ es) = latest (max last e.at_seconds) es

abbrev pub transition : Option ℕ → ℕ → ℕ → List AlertEvent
transition none current now_seconds = []
transition (some known) current now_seconds =
    if current == known
    then []
    else record {
      type = state_alert;
      at_seconds = now_seconds;
      detail = transitioned known current;
    }
      ∷ []

-- The answers during one tick: the alerts config file, the pauses since a time, the metrics log,
-- and RiskEngine's state.
pub record Answers : Type 0 where
  pub config : Option AlertsConfig
  pub now_seconds : ℕ
  pub new_pauses : ℕ → Result (List NewPause)
  pub metrics : List MetricEvent
  pub state : Result ℕ

abbrev pub dispatch : List AlertEvent → M World (Unit {0})
dispatch events = modify (λ w. record w { dispatched = w.dispatched ++ events })

module _ (answers : Answers) where
  pub save : DispatcherState → ℕ → M World (Unit {0})
  save state current = do
    dispatch (transition state.last_known_system_state current answers.now_seconds)
    modify (λ w. record w {
      state_file = some (record state { last_known_system_state = some current });
    })

  pub dispatch_recalls : DispatcherState → M World (Unit {0})
  dispatch_recalls state =
      let recalls = recall_events state.last_recall_at_seconds answers.metrics in
      do
        dispatch recalls
        current ← call answers.state
        save (record state { last_recall_at_seconds = latest state.last_recall_at_seconds recalls })
            current

  -- The tick behind the config file. A dispatch never throws, so what its results are does not
  -- matter here.
  pub run : DispatcherState → M World (Unit {0})
  run state = do
    new_pauses ← call (answers.new_pauses state.last_pause_at_seconds)
    dispatch (map pause_event new_pauses)
    dispatch_recalls
        (record state { last_pause_at_seconds = last_of state.last_pause_at_seconds new_pauses })

  pub tick_with : Option AlertsConfig → M World (Unit {0})
  tick_with none = return tt
  tick_with (some config) = do w ← get; run (load_state w.state_file)

  pub tick : M World (Unit {0})
  unfolding tick_with
  tick = tick_with answers.config
