-- ===== src/Keeper/Alerts/Loop/Tick.antt =====
-- What one tick of the alert dispatcher dispatches and saves.
use Prim.Native.String.{String}
use mathlib.Core.List.{append-nil}
use refluo.Prelude.Result.{ok, err}
use refluo.Prelude.{
  ℕ, ◌≤◌, max, ◌≡◌, refl, ap, ◌∙◌, inl, inr, true, false, some, List, [], ◌∷◌, ◌++◌, map, All,
  arith, ltb, ◌==◌, Bool-cases, ==_iff,
}
use refluo.Keeper.MetricsLog.{MetricEvent, tier0_sample, recall_triggered, other_event}
use refluo.Keeper.Alerts.{AlertsConfig, AlertEvent}
use refluo.Keeper.Alerts.Loop.{
  DispatcherState, PausedEvent, NewPause, World, load_state, pause_event, last_of, recall_events,
  latest, transition, Answers, save, dispatch_recalls, run, tick,
}
use refluo.Keeper.Alerts.Loop.Pauses.{pauses_since, pauses_since-again}

abbrev AlertsUpTo : ℕ → List AlertEvent → Type 0
AlertsUpTo b = All (λ e. e.at_seconds ≤ b)

latest-UpTo : (d : ℕ) (es : List AlertEvent) → (d ≤ latest d es) × AlertsUpTo (latest d es) es
latest-UpTo d [] = (omega arith, tt)
latest-UpTo d (e ∷ es) =
    let (above, rest) = latest-UpTo (max d e.at_seconds) es in (omega arith, (omega arith, rest))

recall_events-none :
    (since b : ℕ) (log : List MetricEvent)
    → since ≤ b
    → AlertsUpTo b (recall_events since log)
    → recall_events b log ≡ []
recall_events-none since b [] h k = refl
recall_events-none since b (tier0_sample at balance target floor ∷ log) h k =
    recall_events-none since b log h k
recall_events-none since b (other_event at ∷ log) h k = recall_events-none since b log h k
recall_events-none since b (recall_triggered at detected executed shortfall status ∷ log) h k =
    elim (Bool-cases (ltb since at)) [
      | inl new ↦
          let (q, rest) : (at ≤ b) × AlertsUpTo b (recall_events since log) = rw (new) at k in
          let older : ltb b at ≡ false = ground arith in
          rw (older) (recall_events-none since b log h rest)
      | inr old ↦
          let older : ltb b at ≡ false = ground arith in
          rw (older) (recall_events-none since b log h (rw (old) at k))
    ]

module _ (answers : Answers) (w : World) (config : AlertsConfig) (pauses : List NewPause) where
  abbrev before : DispatcherState
  before = load_state w.state_file

  abbrev recalls : List AlertEvent
  recalls = recall_events before.last_recall_at_seconds answers.metrics

  -- What a tick dispatches before it asks for RiskEngine's state.
  abbrev pub polled : List AlertEvent
  polled = (w.dispatched ++ map pause_event pauses) ++ recalls

  -- The world behind a tick that RiskEngine answers.
  abbrev pub ticked : ℕ → World
  ticked current = record {
    state_file = some (record {
      last_pause_at_seconds = last_of before.last_pause_at_seconds pauses;
      last_recall_at_seconds = latest before.last_recall_at_seconds recalls;
      last_known_system_state = some current;
    });
    dispatched = polled ++ transition before.last_known_system_state current answers.now_seconds;
  }

  tick-ticked :
      (current : ℕ)
      → answers.config ≡ some config
      → answers.new_pauses before.last_pause_at_seconds ≡ ok pauses
      → answers.state ≡ ok current
      → tick answers w ≡ (ok tt, ticked current)
  unfolding tick run dispatch_recalls save
  tick-ticked current c p s = simp (c, p, s)

  -- If RiskEngine's state cannot be read, a tick that has found its pauses throws with its alerts
  -- dispatched and its state file as it was, so what it has dispatched stays new for the next.
  tick-unsaved :
      (m : String)
      → answers.config ≡ some config
      → answers.new_pauses before.last_pause_at_seconds ≡ ok pauses
      → answers.state ≡ err m
      → tick answers w ≡ (err m, record { state_file = w.state_file; dispatched = polled })
  unfolding tick run dispatch_recalls save
  tick-unsaved m c p s = simp (c, p, s)

-- The answers of a tick at this time, with these settings, that list these pauses and this log
-- whenever they are asked.
abbrev pub steady : AlertsConfig → ℕ → List PausedEvent → List MetricEvent → ℕ → Answers
steady config now events log current = record {
  config = some config;
  now_seconds = now;
  new_pauses = λ since. ok (pauses_since events since);
  metrics = log;
  state = ok current;
}

-- When the pauses on chain, the log and RiskEngine's state can be read and stay the same, a second
-- tick dispatches nothing and leaves the world as the first one left it, whatever the clock reads in
-- each of them and also if the alerts' settings have been changed in between, as long as there are
-- some.
pub tick-steady :
    (config config' : AlertsConfig) (now later : ℕ) (events : List PausedEvent)
    (log : List MetricEvent) (current : ℕ) (w : World)
    → tick
        (steady config' later events log current)
        (tick (steady config now events log current) w).1
      ≡ (ok tt, (tick (steady config now events log current) w).1)
tick-steady config config' now later events log current w =
    let first = steady config now events log current in
    let second = steady config' later events log current in
    let since = (load_state w.state_file).last_recall_at_seconds in
    let (above, bound) = latest-UpTo since (recall_events since log) in
    let no_recall = recall_events-none since _ log above bound in
    let itself : current == current ≡ true = (==_iff current current).1 refl in
    rw (tick-ticked first w config _ current refl refl refl) (
      tick-ticked second _ config' [] current refl (ap ok (pauses_since-again events _)) refl
      ∙ simp (no_recall, itself, append-nil) refl)
