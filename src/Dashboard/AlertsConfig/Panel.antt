-- ===== src/Dashboard/AlertsConfig/Panel.antt =====
-- dashboard/src/components/AlertsPanel.tsx: the draft, its edits and its save, against the route.
-- Rendering and the hook that loads the configuration are events from outside.
pub mod Edits
pub mod Saves
pub mod Runs
use Prim.Native.String.{String}
use text.Mathlib.Text.{◌==◌ as str_eq}
use refluo.Prelude.Json.{Json, null, bool, number, string, array, object, entries, fields_of}
use refluo.Prelude.Maps.{string_eq, map_get, map_set}
use refluo.Prelude.Result.{Result, ok, err, and_then}
use refluo.Prelude.{Bool, true, false, not, Option, none, some, List, [], ◌∷◌}
use refluo.Dashboard.ApiError.{Attempt, answers, throws}
use refluo.Dashboard.Auth.{Gate}
use refluo.Dashboard.AlertsConfig.{Object, ConfigFile, Disk, object_entries, put_alerts, get_alerts}

-- The keys of `FIELDS`.
pub data TextField : Type 0 where
  webhook_url slack_url discord_url pagerduty_routing_key : TextField

abbrev pub field_key : TextField → String
field_key webhook_url = "webhookUrl"
field_key slack_url = "slackUrl"
field_key discord_url = "discordUrl"
field_key pagerduty_routing_key = "pagerdutyRoutingKey"

-- The rows and columns of the table of switches.
pub data EventType : Type 0 where
  pause_triggered recall_triggered state_transitioned cap_breached : EventType

abbrev pub event_key : EventType → String
event_key pause_triggered = "pause.triggered"
event_key recall_triggered = "recall.triggered"
event_key state_transitioned = "state.transitioned"
event_key cap_breached = "cap.breached"

pub data Destination : Type 0 where
  webhook slack discord pagerduty : Destination

abbrev pub destination_key : Destination → String
destination_key webhook = "webhook"
destination_key slack = "slack"
destination_key discord = "discord"
destination_key pagerduty = "pagerduty"

-- `value[key]` for a key that no text, number or array has.
abbrev pub read_property : Option Json → String → Result (Option Json)
read_property none key = err "Cannot read properties of undefined"
read_property (some null) key = err "Cannot read properties of null"
read_property (some (object fs)) key = ok (map_get key (entries fs))
read_property (some (bool b)) key = ok none
read_property (some (number n)) key = ok none
read_property (some (string s)) key = ok none
read_property (some (array xs)) key = ok none

-- `{...value}`. A text or an array, which no PUT stores there, is taken to have no entries.
abbrev pub entries_in : Option Json → Object
entries_in none = []
entries_in (some value) = object_entries value

-- `config.eventRoutes[eventType][destination]`.
abbrev pub switch_at : EventType → Destination → Object → Result (Option Json)
switch_at event_type destination config =
    and_then (read_property (map_get "eventRoutes" config) (event_key event_type))
      (λ route. read_property route (destination_key destination))

abbrev pub route_in : String → Object → Object
route_in event_type routes = entries_in (map_get event_type routes)

abbrev pub with_switch : String → String → Bool → Object → Object
with_switch event_type destination value routes =
    map_set event_type
      (object (fields_of (map_set destination (bool value) (route_in event_type routes)))) routes

abbrev pub with_routes : Object → Object → Object
with_routes routes config = map_set "eventRoutes" (object (fields_of routes)) config

-- Whether the text of a number is one that JavaScript takes for false.
module _ (is_zero : String → Bool) where
  abbrev pub truthy : Option Json → Bool
  truthy none = false
  truthy (some null) = false
  truthy (some (bool b)) = b
  truthy (some (number n)) = not (is_zero n)
  truthy (some (string s)) = not (str_eq s "")
  truthy (some (array xs)) = true
  truthy (some (object fs)) = true

  unfoldable pub toggle_route : EventType → Destination → Object → Result Object
  toggle_route event_type destination config =
      and_then (switch_at event_type destination config) (λ value. ok (
        with_routes
          (with_switch (event_key event_type) (destination_key destination) (not (truthy value))
            (entries_in (map_get "eventRoutes" config)))
          config))

abbrev pub edit_field : TextField → String → Object → Object
edit_field key text config = map_set (field_key key) (string text) config

-- The server's file; the hook's data, and the draft.
pub record World : Type 0 where
  pub file : ConfigFile
  pub loaded : Option Object
  pub draft : Option Object

-- `draft ?? data`.
abbrev pub or_loaded : Option Object → Option Object → Option Object
or_loaded none loaded = loaded
or_loaded (some draft) loaded = some draft

abbrev pub config : World → Option Object
config w = or_loaded w.draft w.loaded

-- What becomes of a request: answered, answered with a body that is no JSON, or lost.
pub data Delivery : Type 0 where
  delivered garbled request_lost response_lost : Delivery

pub data Action : Type 0 where
  fetches : Gate → Action
  edits : TextField → String → Action
  toggles : EventType → Destination → Action
  saves : Gate → Disk → Delivery → Action
  -- another writer leaves the file so
  others : ConfigFile → Action

abbrev pub fetched : Attempt Object → World → World
fetched (answers config) w = record w { loaded = some config }
fetched (throws e) w = w

abbrev pub drafted : Result Object → World → World
drafted (ok config) w = record w { draft = some config }
drafted (err m) w = w

-- `setDraft(updated)`; an error leaves the draft. A body that is no JSON is read as null.
abbrev pub saved : Delivery → Attempt Object × ConfigFile → World → World
saved delivered (answers updated, file) w = record w { file = file; draft = some updated }
saved garbled (answers updated, file) w = record w { file = file; draft = none }
saved response_lost (answers updated, file) w = record w { file = file }
saved request_lost (answers updated, file) w = w
saved delivered (throws e, file) w = record w { file = file }
saved garbled (throws e, file) w = record w { file = file }
saved response_lost (throws e, file) w = record w { file = file }
saved request_lost (throws e, file) w = w

module _ (protocol_of : String → Option String) (is_zero : String → Bool) where
  -- Without a configuration there is nothing to edit or to save.
  abbrev pub act : Option Object → Action → World → World
  act c (fetches gate) w = fetched (get_alerts gate w.file) w
  act c (others file) w = record w { file = file }
  act none (edits key text) w = w
  act none (toggles event_type destination) w = w
  act none (saves gate disk fate) w = w
  act (some c) (edits key text) w = record w { draft = some (edit_field key text c) }
  act (some c) (toggles event_type destination) w =
      drafted (toggle_route is_zero event_type destination c) w
  act (some c) (saves gate disk fate) w =
      saved fate (put_alerts protocol_of disk gate (some (object (fields_of c))) w.file) w

  abbrev pub step : Action → World → World
  step a w = act (config w) a w

  unfoldable pub run : List Action → World → World
  run [] w = w
  run (a ∷ actions) w = run actions (step a w)

abbrev pub opened : ConfigFile → World
opened file = record { file = file; loaded = none; draft = none }
