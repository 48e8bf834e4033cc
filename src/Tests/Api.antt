-- ===== src/Tests/Api.antt =====
-- Examples for the dashboard's routes and their client.
use Prim.Native.String.{String}
use native.Mathlib.Omega.{arith}
use text.Mathlib.Text.{◌==◌ as str_eq}
use refluo.Prelude.Json.{Json, bool, string, object, Fields, end, field}
use refluo.Prelude.Maps.{string_eq, map_get, map_set, set_has}
use refluo.Prelude.Result.{ok}
use refluo.Prelude.Patterns.{tests}
use refluo.Prelude.{
  ◌≡◌, refl, Bool, true, false, Option, some, none, List, [], ◌∷◌, All, if◌then◌else◌,
}
use refluo.Dashboard.ApiError.{
  HttpResponse, Attempt, answers, throws, other, Envelope, classify_error, is_transient,
  with_error_handling, fetch_json,
}
use refluo.Dashboard.ApiError.Client.{Sees, fetch_json-with_error_handling}
use refluo.Dashboard.Auth.{SessionPayload, admin, allowed}
use refluo.Dashboard.AlertsConfig.{
  spread, Object, known_fields, ConfigFile, missing, holds, writes, put_alerts, get_alerts,
  validate_alerts_config_patch,
}
use refluo.Dashboard.AlertsConfig.Validation.{IsField, setting}
use refluo.Dashboard.AlertsConfig.Panel.{
  slack_url, pause_triggered, slack, delivered, Action, fetches, edits, toggles, saves, config, run,
  opened, toggle_route, switch_at,
}
use refluo.Dashboard.AlertsConfig.Panel.Saves.{default-IsUsable}
use refluo.Dashboard.AlertsConfig.Panel.Runs.{Offers, run-Offers}
use refluo.Dashboard.AlertsConfig.Put.{Has, IsPut, put_alerts-IsField, put_alerts-IsPut}

abbrev envelope : Envelope (String × Bool)
envelope = record {
  error_json = λ message retryable. (message, retryable);
  error_of = λ b. some b.0;
  retryable_of = λ b. some b.1;
}

abbrev timeout : Attempt (HttpResponse (String × Bool))
timeout = throws (other "connect etimedout 10.0.0.1")

fetch_json-with_error_handling_example :
    Sees envelope
      (λ n. "")
      timeout
      (fetch_json envelope (λ n. "") (some (with_error_handling envelope timeout)))
unfolding classify_error is_transient tests
fetch_json-with_error_handling_example =
    fetch_json-with_error_handling envelope (λ n. "") timeout (λ m r. refl) (λ m r. refl) refl

-- A message with 503 as a word is retryable, one with 5031 is not.
words_only : (is_transient "HTTP 503: unavailable" ≡ true) × (is_transient "ledger 5031" ≡ false)
unfolding is_transient tests
words_only = (refl, refl)

abbrev protocol_of : String → Option String
protocol_of value = if str_eq value "https://hooks.example" then some "https:" else none

abbrev session : SessionPayload
session = record { address = "GADMIN"; role = admin; issued_at_seconds = 1_000 }

abbrev routes : Fields
routes = field "pause.triggered" (object (field "slack" (bool true) end)) end

abbrev body : Json
body =
    object
      (field "slackUrl" (string "https://hooks.example") (field "eventRoutes" (object routes) end))

abbrev file : ConfigFile
file = holds (("pagerdutyRoutingKey", string "key") ∷ [])

put_alerts-IsField_example :
    (config : Object) × (get_alerts
        (allowed session)
        (put_alerts protocol_of writes (allowed session) (some body) file).1
      ≡ answers config)
    × All (IsField protocol_of) config
    × All (Has config) known_fields
unfolding map_get set_has
put_alerts-IsField_example =
    put_alerts-IsField protocol_of writes (allowed session) (some body) file session
      (refl, (refl, tt))
      (setting "pagerdutyRoutingKey" "key" refl refl (λ u. absurd (ground arith)), tt)

put_alerts-IsPut_example :
    IsPut protocol_of writes
      (allowed session)
      file
      (some body)
      (put_alerts protocol_of writes (allowed session) (some body) file)
unfolding map_get
put_alerts-IsPut_example =
    put_alerts-IsPut protocol_of writes (allowed session) (some body) file (refl, (refl, tt))

-- The body is valid, though it names one switch of sixteen; the others are gone with it.
accepts_part_of_the_routes : validate_alerts_config_patch protocol_of body ≡ none
unfolding validate_alerts_config_patch map_get set_has
accepts_part_of_the_routes = refl

-- An empty file; an admin loads it, fills in Slack's address, routes pauses there, and saves.
abbrev edited : List Action
edited =
    fetches (allowed session)
    ∷ edits slack_url "https://hooks.example"
    ∷ toggles pause_triggered slack
    ∷ saves (allowed session) writes delivered
    ∷ []

abbrev saved_config : Object
saved_config = shown_config (config (run protocol_of (λ n. false) edited (opened missing)))
  where
    shown_config : Option Object → Object
    shown_config none = []
    shown_config (some c) = c

run-Offers_example :
    Offers protocol_of
      (λ n. false)
      saved_config
      (run protocol_of (λ n. false) edited (opened missing))
unfolding run get_alerts toggle_route map_get map_set put_alerts validate_alerts_config_patch
    set_has
run-Offers_example =
    run-Offers protocol_of (λ n. false) missing edited saved_config default-IsUsable
      (tt, (tt, (tt, (tt, tt)))) refl

routes_pauses_to_slack : switch_at pause_triggered slack saved_config ≡ ok (some (bool true))
unfolding run get_alerts toggle_route map_get map_set put_alerts validate_alerts_config_patch
    set_has spread
routes_pauses_to_slack = refl
