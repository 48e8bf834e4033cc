-- ===== src/Dashboard/AlertsConfig/Panel/Saves.antt =====
-- What a save of the alerts panel stores.
use Prim.Native.String.{String}
use refluo.Prelude.Json.{object, string, fields_of, bool}
use refluo.Prelude.Maps.{string_eq, map_get}
use refluo.Prelude.{◌≡◌, refl, ◌∙◌, false, Option, none, some, map}
use refluo.Dashboard.ApiError.{Thrown, Attempt, answers, throws, other}
use refluo.Dashboard.Auth.{SessionPayload, Gate, unauthenticated, forbidden, allowed}
use refluo.Dashboard.AlertsConfig.{
  alert_event_types, alert_destinations, default_route, Object, default_config, spread, ConfigFile,
  Disk, writes, refuses, breaks_off, unreadable, holds, read_alerts_config,
  validate_alerts_config_patch, merge, put_alerts,
}
use refluo.Dashboard.AlertsConfig.Panel.{
  TextField, webhook_url, slack_url, discord_url, pagerduty_routing_key, EventType, pause_triggered,
  recall_triggered, state_transitioned, cap_breached, Destination, webhook, slack, discord,
  pagerduty, field_key, event_key, destination_key,
}
use refluo.Dashboard.AlertsConfig.Panel.Edits.{
  IsUsable, SameSettings, IsUsable-same, spread-SameSettings, spread-IsDistinct, entries-fields_of,
}

pub default-IsUsable : IsUsable default_config
unfolding map_get
default-IsUsable = record {
  distinct = (refl, (refl, (refl, (refl, (refl, tt)))));
  texts = λ key. ("", text key);
  switches = λ e d. (
    false,
    record {
      routes = fields_of (map (λ event_type. (event_type, default_route)) alert_event_types);
      route = fields_of (map (λ destination. (destination, bool false)) alert_destinations);
      has_routes = refl;
      has_route = row e;
      has_switch = cell d;
    },
  );
}
  where
    text : (key : TextField) → map_get (field_key key) default_config ≡ some (string "")
    text webhook_url = refl
    text slack_url = refl
    text discord_url = refl
    text pagerduty_routing_key = refl

    row :
        (e : EventType)
        → map_get (event_key e) (map (λ event_type. (event_type, default_route)) alert_event_types)
          ≡ some default_route
    row pause_triggered = refl
    row recall_triggered = refl
    row state_transitioned = refl
    row cap_breached = refl

    cell :
        (d : Destination)
        → map_get
            (destination_key d)
            (map (λ destination. (destination, bool false)) alert_destinations)
          ≡ some (bool false)
    cell webhook = refl
    cell slack = refl
    cell discord = refl
    cell pagerduty = refl

SameSettings-trans : (a b c : Object) → SameSettings a b → SameSettings b c → SameSettings a c
SameSettings-trans a b c h k = record {
  same_texts = λ key. k.same_texts key ∙ h.same_texts key;
  same_routes = k.same_routes ∙ h.same_routes;
}

-- What a PUT of a configuration comes to: it is refused and leaves the file, or the write breaks off,
-- or what it answers, and what is read from then on, has the settings that were sent.
pub data Stores (c : Object) (file : ConfigFile) (disk : Disk)
    : Attempt Object × ConfigFile → Type 0 where
  refused : (thrown : Thrown) → Stores c file disk (throws thrown, file)
  cut_off :
      (message : String)
      → disk ≡ breaks_off message
      → Stores c file disk (throws (other message), unreadable)
  stored :
      (updated : Object)
      → IsUsable updated
      → SameSettings c updated
      → IsUsable (read_alerts_config (holds updated))
      → SameSettings c (read_alerts_config (holds updated))
      → Stores c file disk (answers updated, holds updated)

pub spread-again :
    (c : Object) (file : ConfigFile)
    → IsUsable c
    → IsUsable (read_alerts_config file)
    → SameSettings c (read_alerts_config (holds (spread (read_alerts_config file) c)))
spread-again c file u v =
    let before = read_alerts_config file in
    let updated = spread before c in
    let same = spread-SameSettings before c u in
    let usable = IsUsable-same c updated (spread-IsDistinct before c v.distinct) same u in
    SameSettings-trans c updated (read_alerts_config (holds updated)) same
      (spread-SameSettings default_config updated usable)

-- Where the write succeeds.
pub spread-Stores :
    (c : Object) (file : ConfigFile) (disk : Disk)
    → IsUsable c
    → IsUsable (read_alerts_config file)
    → let updated = spread (read_alerts_config file) c in
      Stores c file disk (answers updated, holds updated)
spread-Stores c file disk u v =
    let before = read_alerts_config file in
    let updated = spread before c in
    let same = spread-SameSettings before c u in
    let usable = IsUsable-same c updated (spread-IsDistinct before c v.distinct) same u in
    let again = spread-again c file u v in
    stored updated usable same
      (IsUsable-same c (read_alerts_config (holds updated))
        (spread-IsDistinct default_config updated default-IsUsable.distinct) again u)
      again

module _ (protocol_of : String → Option String) where
  pub put_alerts-Stores :
      (disk : Disk) (gate : Gate) (c : Object) (file : ConfigFile)
      → IsUsable c
      → IsUsable (read_alerts_config file)
      → Stores c file disk (put_alerts protocol_of disk gate (some (object (fields_of c))) file)
  unfolding put_alerts
  put_alerts-Stores disk unauthenticated c file u v = refused _
  put_alerts-Stores disk forbidden c file u v = refused _
  put_alerts-Stores disk (allowed session) c file u v =
      merged disk (validate_alerts_config_patch protocol_of (object (fields_of c)))
    where
      merged :
          (disk : Disk) (problem : Option String)
          → Stores c file disk (merge protocol_of disk problem (object (fields_of c)) file)
      merged disk (some problem) = refused _
      merged (refuses m) none = refused _
      merged (breaks_off m) none = cut_off m refl
      merged writes none = rw (entries-fields_of c) (spread-Stores c file writes u v)

  -- What an admin's valid settings come to.
  pub put_alerts-valid :
      (session : SessionPayload) (c : Object) (file : ConfigFile)
      → validate_alerts_config_patch protocol_of (object (fields_of c)) ≡ none
      → let updated = spread (read_alerts_config file) c in
        put_alerts protocol_of writes (allowed session) (some (object (fields_of c))) file
        ≡ (answers updated, holds updated)
  unfolding put_alerts
  put_alerts-valid session c file e = simp (e, entries-fields_of c) refl
