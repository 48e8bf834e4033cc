-- ===== src/Keeper/Alerts/Dispatch.antt =====
-- Where one alert goes, and what comes of it.
use Prim.Native.String.{String}
use text.Mathlib.TextEquality.{eq_iff}
use refluo.Prelude.Result.{Result, ok, err}
use refluo.Prelude.{
  ℕ, ◌≤◌, ◌<◌, ◌≡◌, ◌≢◌, ◌⊎◌, refl, ◌∙◌, arith, inl, inr, Bool, true, false, not, ◌&&◌, Option,
  none, some, List, [], ◌∷◌, leb, Bool-cases,
}
use refluo.Keeper.Alerts.{
  AlertDestination, webhook, slack, discord, pagerduty, AlertsConfig, AlertEvent, EventRouteConfig,
  Attempt, DispatchError, http, thrown, DispatchResult, Payload, webhook_payload, slack_payload,
  discord_payload, pagerduty_payload, is_ok, is_empty, routed, configured, attempt_to, push_if,
  attempts, Fetch, outcome, post_all, dispatch_alert,
}

-- The file has a route for the event's type, and it enables the destination.
abbrev pub IsRouted : AlertsConfig → AlertEvent → AlertDestination → Type 0
IsRouted config event d =
    (routes : EventRouteConfig) × (config.event_routes event.type ≡ some routes) × (routes d ≡ true)

-- The URL and the body of an alert for a destination that is set up.
pub data Goes (config : AlertsConfig) (event : AlertEvent)
    : AlertDestination → String → Payload → Type 0 where
  to_webhook :
      config.webhook_url ≢ "" → Goes config event webhook config.webhook_url (webhook_payload event)
  to_slack : config.slack_url ≢ "" → Goes config event slack config.slack_url (slack_payload event)
  to_discord :
      config.discord_url ≢ "" → Goes config event discord config.discord_url (discord_payload event)
  to_pagerduty :
      config.pagerduty_routing_key ≢ ""
      → Goes config event pagerduty "https://events.pagerduty.com/v2/enqueue"
          (pagerduty_payload event config.pagerduty_routing_key)

-- The error that is recorded for an answer to a post.
pub data Records : Result ℕ → Option DispatchError → Type 0 where
  succeeded : {status : ℕ} → 200 ≤ status → status < 300 → Records (ok status) none
  refused :
      {status : ℕ} → (status < 200) ⊎ (300 ≤ status) → Records (ok status) (some (http status))
  failed : {m : String} → Records (err m) (some (thrown m))

-- The results for a list of destinations, each from its own post alone.
pub data Dispatches (fetch : Fetch) (event : AlertEvent) (config : AlertsConfig)
    : List AlertDestination → List DispatchResult → Type 0 where
  done : Dispatches fetch event config [] []
  posted :
      {d : AlertDestination} {ds : List AlertDestination} {rs : List DispatchResult} {url : String}
      {body : Payload} (result : DispatchResult)
      → IsRouted config event d
      → Goes config event d url body
      → result.destination ≡ d
      → Records (fetch url body) result.error
      → Dispatches fetch event config ds rs
      → Dispatches fetch event config (d ∷ ds) (result ∷ rs)
  left_out :
      {d : AlertDestination} {ds : List AlertDestination} {rs : List DispatchResult}
      → (IsRouted config event d
          → (url : String) → (body : Payload) → ¬ Goes config event d url body)
      → Dispatches fetch event config ds rs
      → Dispatches fetch event config (d ∷ ds) rs

not_empty : (s : String) → is_empty s ≡ false → s ≢ ""
not_empty s h e = let empty : is_empty s ≡ true = (eq_iff s "").1 e in cc (h, empty)

not_empty_test : (s : String) → s ≢ "" → is_empty s ≡ false
not_empty_test s h = elim (Bool-cases (is_empty s)) [
  | inl empty ↦ absurd (h ((eq_iff s "").0 empty))
  | inr filled ↦ filled
]

outcome-Records :
    (d : AlertDestination) (r : Result ℕ)
    → ((outcome d r).destination ≡ d) × Records r (outcome d r).error
outcome-Records d (err m) = (refl, failed)
outcome-Records d (ok status) = elim (Bool-cases (is_ok status)) [
  | inl fine ↦ rw fine (refl, succeeded (ground arith) (ground arith))
  | inr bad ↦ rw bad (refl, refused (outside status bad))
]
  where
    outside : (status : ℕ) → is_ok status ≡ false → (status < 200) ⊎ (300 ≤ status)
    outside status bad = elim (Bool-cases (leb 200 status)) [
      | inl large ↦ inr (ground arith)
      | inr small ↦ inl (ground arith)
    ]

module _ (fetch : Fetch) (event : AlertEvent) (config : AlertsConfig) where
  routed-IsRouted :
      (d : AlertDestination) (routes : Option EventRouteConfig)
      → config.event_routes event.type ≡ routes
      → routed routes d ≡ true
      → IsRouted config event d
  routed-IsRouted d none e h = absurd (cc h)
  routed-IsRouted d (some routes) e h = (routes, e, h)

  attempt_to-Goes :
      (d : AlertDestination)
      → is_empty (configured config d) ≡ false
      → Goes config event d (attempt_to event config d).url (attempt_to event config d).body
  attempt_to-Goes webhook h = to_webhook (not_empty config.webhook_url h)
  attempt_to-Goes slack h = to_slack (not_empty config.slack_url h)
  attempt_to-Goes discord h = to_discord (not_empty config.discord_url h)
  attempt_to-Goes pagerduty h = to_pagerduty (not_empty config.pagerduty_routing_key h)

  Goes-configured :
      {d : AlertDestination} {url : String} {body : Payload}
      → Goes config event d url body
      → is_empty (configured config d) ≡ false
  Goes-configured (to_webhook h) = not_empty_test config.webhook_url h
  Goes-configured (to_slack h) = not_empty_test config.slack_url h
  Goes-configured (to_discord h) = not_empty_test config.discord_url h
  Goes-configured (to_pagerduty h) = not_empty_test config.pagerduty_routing_key h

  destination_lem : (d : AlertDestination) → (attempt_to event config d).destination ≡ d
  destination_lem webhook = refl
  destination_lem slack = refl
  destination_lem discord = refl
  destination_lem pagerduty = refl

  abbrev is_wanted : AlertDestination → Bool
  is_wanted d = routed (config.event_routes event.type) d && not (is_empty (configured config d))

  wanted_parts :
      (d : AlertDestination)
      → is_wanted d ≡ true
      → (routed (config.event_routes event.type) d ≡ true)
        × (is_empty (configured config d) ≡ false)
  wanted_parts d h = (ground arith, ground arith)

  unwanted-Goes :
      (d : AlertDestination)
      → is_wanted d ≡ false
      → IsRouted config event d
      → (url : String) (body : Payload) → ¬ Goes config event d url body
  unwanted-Goes d h (routes, e, on) url body goes =
      let filled = Goes-configured goes in cc (rw (e, on, filled) at h)

  post_all-push_if :
      (d : AlertDestination) (rest : List Attempt) (ds : List AlertDestination)
      → Dispatches fetch event config ds (post_all fetch rest)
      → Dispatches fetch event config (d ∷ ds) (post_all fetch (push_if event config d rest))
  unfolding post_all
  post_all-push_if d rest ds h = elim (Bool-cases (is_wanted d)) [
    | inl wanted ↦
        let a = attempt_to event config d in
        let (on, filled) = wanted_parts d wanted in
        let (own, records) = outcome-Records a.destination (fetch a.url a.body) in
        rw wanted (
          posted (outcome a.destination (fetch a.url a.body)) (routed-IsRouted d _ refl on)
            (attempt_to-Goes d filled) (own ∙ destination_lem d) records h)
    | inr unwanted ↦ rw unwanted (left_out (unwanted-Goes d unwanted) h)
  ]

  -- An alert is posted to exactly those of the webhook, Slack, Discord and PagerDuty, in this order,
  -- that its event's route enables and that have a URL or a key: to the destination's own URL, or
  -- for PagerDuty to its events URL with the key, and in the destination's own shape. The result
  -- for each is that of its own post alone: no error for a status of 200 to 299, the status for any
  -- other, and the message of a post that throws, which keeps no other from being posted.
  pub dispatch_alert-Dispatches :
      Dispatches fetch event config
        (webhook ∷ slack ∷ discord ∷ pagerduty ∷ [])
        (dispatch_alert fetch event config)
  unfolding dispatch_alert
  dispatch_alert-Dispatches =
      unfold attempts in
      post_all-push_if webhook _ (slack ∷ discord ∷ pagerduty ∷ []) (
        post_all-push_if slack _ (discord ∷ pagerduty ∷ []) (
          post_all-push_if discord _ (pagerduty ∷ [])
            (post_all-push_if pagerduty [] [] (unfold post_all in done))))
