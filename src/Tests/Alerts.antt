-- ===== src/Tests/Alerts.antt =====
-- Examples for the alert dispatcher.
use Prim.Native.String.{String}
use refluo.Prelude.Result.{Result, ok, err}
use refluo.Prelude.{ℕ, ◌≡◌, true, none, some, List, [], ◌∷◌, pos}
use refluo.Rpc.Pages.{Page}
use refluo.Keeper.MetricsLog.{MetricEvent, recall_triggered, success}
use refluo.Keeper.Alerts.{
  AlertsConfig, AlertEvent, webhook, slack, discord, pagerduty, pause_alert, paused, dispatch_alert,
}
use refluo.Keeper.Alerts.Loop.{PausedEvent, NewPause, World, Answers, tick}
use refluo.Keeper.Alerts.Dispatch.{Dispatches, dispatch_alert-Dispatches}
use refluo.Keeper.Alerts.Loop.Tick.{steady, tick-steady}

abbrev config : AlertsConfig
config = record {
  webhook_url = "https://ops.example";
  slack_url = "";
  discord_url = "https://discord.example";
  pagerduty_routing_key = "key";
  event_routes = λ type. some (λ destination. true);
}

-- The same settings with every route taken out.
abbrev quiet : AlertsConfig
quiet = record config { event_routes = λ type. none }

abbrev pause_at : ℕ → AlertEvent
pause_at at = record { type = pause_alert; at_seconds = at; detail = paused "guardian" }

abbrev flaky : String → Result ℕ
flaky url = err "ECONNRESET"

dispatch_alert-Dispatches_example :
    Dispatches
      (λ url body. flaky url)
      (pause_at 60)
      config
      (webhook ∷ slack ∷ discord ∷ pagerduty ∷ [])
      (dispatch_alert (λ url body. flaky url) (pause_at 60) config)
dispatch_alert-Dispatches_example =
    dispatch_alert-Dispatches (λ url body. flaky url) (pause_at 60) config

abbrev pauses : List PausedEvent
pauses =
    record { ledger_closed_at_ms = 90_500; trigger = "guardian" }
    ∷ record { ledger_closed_at_ms = 61_000; trigger = "oracle" }
    ∷ []

abbrev log : List MetricEvent
log = recall_triggered 70 70 76 (pos 300) success ∷ []

abbrev world : World
world = record { state_file = none; dispatched = [] }

tick-steady_example :
    tick (steady quiet 160 pauses log 0) (tick (steady config 100 pauses log 0) world).1
    ≡ (ok tt, (tick (steady config 100 pauses log 0) world).1)
tick-steady_example = tick-steady config quiet 100 160 pauses log 0 world

abbrev one_pause : List NewPause
one_pause = record { at_seconds = 61; trigger = "oracle" } ∷ []

abbrev unread : Answers
unread = record {
  config = some config;
  now_seconds = 100;
  new_pauses = λ since. ok one_pause;
  metrics = log;
  state = err "timeout";
}

abbrev page : Page PausedEvent
page = record { events = pauses; next = "" }
