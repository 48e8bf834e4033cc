-- ===== src/Keeper/Alerts.antt =====
-- keeper/src/alertDispatcher.ts. The HTTP client is a parameter.
pub mod Dispatch
pub mod Loop
use Prim.Native.String.{String}
use text.Mathlib.Text.{◌==◌ as str_eq}
use refluo.Prelude.Result.{Result, ok, err, M, ◌>>=◌, ◌>>◌, call, modify, return, get}
use refluo.Prelude.Sort.{sort_by}
use refluo.Prelude.{
  ℕ, ◌+◌, ◌-◌, ◌/◌, min, max, ◌≡◌, Bool, true, false, not, ◌&&◌, Option, none, some, List, [], ◌∷◌,
  ◌++◌, map, keep, ltb, leb, ◌==◌, or_else, if◌then◌else◌, ℤ,
}
use refluo.Rpc.Pages.{Position, Page, fold_pages}
use refluo.Keeper.MetricsLog.{MetricEvent, tier0_sample, recall_triggered, other_event, TxStatus}

pub data AlertEventType : Type 0 where
  pause_alert recall_alert state_alert cap_alert : AlertEventType

pub data AlertDestination : Type 0 where
  webhook slack discord pagerduty : AlertDestination

abbrev pub alert_destinations : List AlertDestination
alert_destinations = webhook ∷ slack ∷ discord ∷ pagerduty ∷ []

abbrev pub EventRouteConfig : Type 0
EventRouteConfig = AlertDestination → Bool

-- A route that the file does not have is `none`.
pub record AlertsConfig : Type 0 where
  pub webhook_url : String
  pub slack_url : String
  pub discord_url : String
  pub pagerduty_routing_key : String
  pub event_routes : AlertEventType → Option EventRouteConfig

-- The `detail` object and the text that names it.
pub data AlertDetail : Type 0 where
  paused : (trigger : String) → AlertDetail
  recalled : (shortfall : ℤ) (status : TxStatus) → AlertDetail
  transitioned : (from to : ℕ) → AlertDetail

pub record AlertEvent : Type 0 where
  pub type : AlertEventType
  pub at_seconds : ℕ
  pub detail : AlertDetail

-- What is posted: the event in the shape of its destination, for PagerDuty with the routing key.
pub data Payload : Type 0 where
  webhook_payload slack_payload discord_payload : AlertEvent → Payload
  pagerduty_payload : (event : AlertEvent) (routing_key : String) → Payload

abbrev pub pagerduty_events_url : String
pagerduty_events_url = "https://events.pagerduty.com/v2/enqueue"

pub record Attempt : Type 0 where
  pub destination : AlertDestination
  pub url : String
  pub body : Payload

pub data DispatchError : Type 0 where
  http : ℕ → DispatchError
  thrown : String → DispatchError

pub record DispatchResult : Type 0 where
  pub destination : AlertDestination
  pub error : Option DispatchError

abbrev pub is_empty : String → Bool
is_empty s = str_eq s ""

abbrev pub routed : Option EventRouteConfig → AlertDestination → Bool
routed none destination = false
routed (some routes) destination = routes destination

abbrev pub configured : AlertsConfig → AlertDestination → String
configured config webhook = config.webhook_url
configured config slack = config.slack_url
configured config discord = config.discord_url
configured config pagerduty = config.pagerduty_routing_key

abbrev pub attempt_to : AlertEvent → AlertsConfig → AlertDestination → Attempt
attempt_to event config webhook = record {
  destination = webhook;
  url = config.webhook_url;
  body = webhook_payload event;
}
attempt_to event config slack = record {
  destination = slack;
  url = config.slack_url;
  body = slack_payload event;
}
attempt_to event config discord = record {
  destination = discord;
  url = config.discord_url;
  body = discord_payload event;
}
attempt_to event config pagerduty = record {
  destination = pagerduty;
  url = pagerduty_events_url;
  body = pagerduty_payload event config.pagerduty_routing_key;
}

-- `if (routes?.x && config.x) attempts.push(…)`.
abbrev pub push_if : AlertEvent → AlertsConfig → AlertDestination → List Attempt → List Attempt
push_if event config destination rest =
    if routed (config.event_routes event.type) destination
      && not (is_empty (configured config destination))
    then attempt_to event config destination ∷ rest
    else rest

unfoldable pub attempts : AlertEvent → AlertsConfig → List Attempt
attempts event config =
    push_if event config webhook (
      push_if event config slack (push_if event config discord (push_if event config pagerduty [])))

-- The answer to a post: the response's status, or a throw.
abbrev pub Fetch : Type 0
Fetch = String → Payload → Result ℕ

abbrev pub is_ok : ℕ → Bool
is_ok status = leb 200 status && ltb status 300

abbrev pub outcome : AlertDestination → Result ℕ → DispatchResult
outcome destination (ok status) = record {
  destination = destination;
  error = if is_ok status then none else some (http status);
}
outcome destination (err m) = record { destination = destination; error = some (thrown m) }

pub post_all : Fetch → List Attempt → List DispatchResult
post_all fetch [] = []
post_all fetch (a ∷ rest) = outcome a.destination (fetch a.url a.body) ∷ post_all fetch rest

unfoldable pub dispatch_alert : Fetch → AlertEvent → AlertsConfig → List DispatchResult
unfolding attempts post_all
dispatch_alert fetch event config = post_all fetch (attempts event config)
