-- ===== src/Dashboard/AlertsConfig.antt =====
-- dashboard/src/lib/alertsConfigValidation.ts and alertsConfig.ts, and the route
-- dashboard/src/app/api/alerts. An object is the list of its entries; `URL` is a parameter, which
-- gives a parsed text's protocol.
pub mod Validation
pub mod Put
pub mod Panel
use Prim.Native.String.{String, ◌++◌}
use mathlib.Core.List.{foldl}
use text.Mathlib.Text.{◌==◌ as str_eq}
use refluo.Prelude.Json.{
  Json, null, bool, number, string, array, object, Fields, end, field, entries, fields_of,
}
use refluo.Prelude.Maps.{string_eq, map_get, map_set, set_has}
use refluo.Prelude.{
  Bool, true, false, not, ◌||◌, Option, none, some, List, [], ◌∷◌, map, if◌then◌else◌,
}
use refluo.Dashboard.ApiError.{
  Attempt, answers, throws, api_error, other, api_error_of, unauthenticated_error, forbidden_error,
}
use refluo.Dashboard.Auth.{Gate, unauthenticated, forbidden, allowed}

abbrev pub Object : Type 0
Object = List (String × Json)

abbrev pub alert_event_types : List String
alert_event_types =
    "pause.triggered" ∷ "recall.triggered" ∷ "state.transitioned" ∷ "cap.breached" ∷ []

abbrev pub alert_destinations : List String
alert_destinations = "webhook" ∷ "slack" ∷ "discord" ∷ "pagerduty" ∷ []

abbrev pub url_fields : List String
url_fields = "webhookUrl" ∷ "slackUrl" ∷ "discordUrl" ∷ []

abbrev pub known_fields : List String
known_fields = "webhookUrl" ∷ "slackUrl" ∷ "discordUrl" ∷ "pagerdutyRoutingKey" ∷ "eventRoutes" ∷ []

-- The first problem, and only if there is none the next check.
abbrev pub or_next : Option String → Option String → Option String
or_next none next = next
or_next (some problem) next = some problem

-- A loop that returns the first problem it finds.
abbrev pub first_error : {A : Type 0} → (A → Option String) → List A → Option String
first_error check [] = none
first_error check (x ∷ xs) = or_next (check x) (first_error check xs)

abbrev pub not_boolean : String → String → Option String
not_boolean event_type destination =
    some ("eventRoutes." ++ event_type ++ "." ++ destination ++ " must be a boolean")

abbrev pub boolean_problem : String → String → Json → Option String
boolean_problem event_type destination (bool b) = none
boolean_problem event_type destination _ = not_boolean event_type destination

abbrev pub check_destination : String → String × Json → Option String
check_destination event_type (destination, value) =
    if not (set_has destination alert_destinations)
    then some ("unknown destination in eventRoutes." ++ event_type ++ ": " ++ destination)
    else boolean_problem event_type destination value

abbrev pub check_destinations : String → Json → Option String
check_destinations event_type (object ds) = first_error (check_destination event_type) (entries ds)
check_destinations event_type _ = some ("eventRoutes." ++ event_type ++ " must be a JSON object")

abbrev pub check_route : String × Json → Option String
check_route (event_type, destinations) =
    if not (set_has event_type alert_event_types)
    then some ("unknown event type in eventRoutes: " ++ event_type)
    else check_destinations event_type destinations

abbrev pub validate_event_routes : Json → Option String
validate_event_routes (object fs) = first_error check_route (entries fs)
validate_event_routes _ = some "eventRoutes must be a JSON object"

abbrev pub text_problem : String → Json → Option String
text_problem key (string s) = none
text_problem key _ = some (key ++ " must be a string")

abbrev pub check_field : String × Json → Option String
check_field (key, value) =
    if not (set_has key known_fields)
    then some ("unknown field: " ++ key)
    else if str_eq key "eventRoutes"
    then none
    else text_problem key value

-- `new URL(value).protocol`; `none`: the constructor throws.
module _ (protocol_of : String → Option String) where
  abbrev pub protocol_problem : String → Option String → Option String
  protocol_problem key none = some (key ++ " is not a valid URL")
  protocol_problem key (some protocol) =
      if not (str_eq protocol "http:")
      then (if not (str_eq protocol "https:")
          then some (key ++ " must be an http(s) URL")
          else none)
      else none

  abbrev pub url_problem : String → Option Json → Option String
  url_problem key (some (string value)) =
      if str_eq value "" then none else protocol_problem key (protocol_of value)
  url_problem key _ = none

  abbrev pub routes_problem : Option Json → Option String
  routes_problem none = none
  routes_problem (some routes) = validate_event_routes routes

  unfoldable pub validate_alerts_config_patch : Json → Option String
  validate_alerts_config_patch (object fs) =
      let body = entries fs in
      or_next (first_error check_field body) (
        or_next (first_error (λ key. url_problem key (map_get key body)) url_fields)
          (routes_problem (map_get "eventRoutes" body)))
  validate_alerts_config_patch _ = some "body must be a JSON object"

-- `{ ...base, ...patch }`.
unfoldable pub spread : Object → Object → Object
spread base patch = foldl (λ m entry. map_set entry.0 entry.1 m) base patch

abbrev pub default_route : Json
default_route =
    object (fields_of (map (λ destination. (destination, bool false)) alert_destinations))

abbrev pub default_event_routes : Json
default_event_routes =
    object (fields_of (map (λ event_type. (event_type, default_route)) alert_event_types))

abbrev pub default_config : Object
default_config =
    ("webhookUrl", string "")
    ∷ ("slackUrl", string "")
    ∷ ("discordUrl", string "")
    ∷ ("pagerdutyRoutingKey", string "")
    ∷ ("eventRoutes", default_event_routes)
    ∷ []

-- The file: not there, not JSON, or JSON with these entries.
pub data ConfigFile : Type 0 where
  missing unreadable : ConfigFile
  holds : Object → ConfigFile

abbrev pub read_alerts_config : ConfigFile → Object
read_alerts_config missing = default_config
read_alerts_config unreadable = default_config
read_alerts_config (holds config) = spread default_config config

abbrev pub object_entries : Json → Object
object_entries (object fs) = entries fs
object_entries _ = []

-- What a `writeFileSync` comes to: it writes, it throws before it has changed the file, or it throws
-- with the file cut off, which is then no JSON.
pub data Disk : Type 0 where
  writes : Disk
  refuses breaks_off : (message : String) → Disk

module _ (protocol_of : String → Option String) where
  -- `writeAlertsConfig(updated)`, and the answer.
  abbrev pub store : Disk → Object → ConfigFile → Attempt Object × ConfigFile
  store writes updated file = (answers updated, holds updated)
  store (refuses message) updated file = (throws (other message), file)
  store (breaks_off message) updated file = (throws (other message), unreadable)

  -- Behind the validation.
  abbrev pub merge : Disk → Option String → Json → ConfigFile → Attempt Object × ConfigFile
  merge disk (some problem) body file = (throws (api_error (api_error_of problem 400 false)), file)
  merge disk none body file =
      store disk (spread (read_alerts_config file) (object_entries body)) file

  -- `none`: the body is no JSON.
  abbrev pub put_body : Disk → Option Json → ConfigFile → Attempt Object × ConfigFile
  put_body disk none file =
      (throws (api_error (api_error_of "malformed JSON body" 400 false)), file)
  put_body disk (some body) file =
      merge disk (validate_alerts_config_patch protocol_of body) body file

  unfoldable pub put_alerts : Disk → Gate → Option Json → ConfigFile → Attempt Object × ConfigFile
  put_alerts disk unauthenticated body file = (throws (api_error unauthenticated_error), file)
  put_alerts disk forbidden body file =
      (throws (api_error (forbidden_error "admin role required")), file)
  put_alerts disk (allowed session) body file = put_body disk body file

unfoldable pub get_alerts : Gate → ConfigFile → Attempt Object
get_alerts unauthenticated file = throws (api_error unauthenticated_error)
get_alerts forbidden file = throws (api_error (forbidden_error "admin role required"))
get_alerts (allowed session) file = answers (read_alerts_config file)
