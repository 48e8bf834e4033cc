-- ===== src/Dashboard/AlertsConfig/Put.antt =====
-- What a PUT of the alerts configuration does, and what a GET answers.
use Prim.Native.String.{String}
use text.Mathlib.Text.{◌==◌ as str_eq}
use text.Mathlib.TextEquality.{eq_iff}
use refluo.Prelude.Json.{Json, null, number, array, bool, string, object}
use refluo.Prelude.Maps.{
  string_eq, map_get, map_set, map_get-map_set, map_set-All, set_has, IsDistinct,
}
use refluo.Prelude.{
  ◌≡◌, refl, ◌∙◌, inl, inr, Bool-cases, Bool, true, false, Option, none, some, [], ◌∷◌, All,
  All-mono, arith, ◌==◌, ◌||◌,
}
use refluo.Dashboard.ApiError.{Attempt, answers, throws, Thrown, api_error, other}
use refluo.Dashboard.Auth.{SessionPayload, Gate, unauthenticated, forbidden, allowed}
use refluo.Dashboard.AlertsConfig.{
  Object, alert_event_types, default_route, known_fields, get_alerts, spread, default_config,
  ConfigFile, missing, unreadable, holds, read_alerts_config, object_entries, Disk, writes, refuses,
  breaks_off, validate_alerts_config_patch, merge, put_alerts,
}
use refluo.Dashboard.AlertsConfig.Validation.{
  IsField, setting, routes, IsRoute, route, switch, validate_alerts_config_patch-IsField,
}

abbrev pub first_of : {A : Type 0} → Option A → Option A → Option A
first_of none b = b
first_of (some a) b = some a

-- The entries of a parsed object have distinct keys.
abbrev pub IsParsed : Option Json → Type 0
IsParsed none = Unit
IsParsed (some body) = IsDistinct (object_entries body)

pub map_get-spread :
    (base patch : Object) (k : String)
    → IsDistinct patch
    → map_get k (spread base patch) ≡ first_of (map_get k patch) (map_get k base)
unfolding spread map_get
map_get-spread base [] k h = refl
map_get-spread base ((j, v) ∷ patch) k (n, h) =
    map_get-spread (map_set j v base) patch k h ∙ elim (Bool-cases (str_eq j k)) [
      | inl same ↦
          let gone : map_get k patch ≡ none = rw ((eq_iff j k).0 same) at n in
          ground (arith, map_get-map_set j k v base)
      | inr apart ↦ ground (arith, map_get-map_set j k v base)
    ]

abbrev is_some : {A : Type 0} → Option A → Bool
is_some none = false
is_some (some a) = true

-- The key is among the entries.
abbrev pub Has : Object → String → Type 0
Has config key = is_some (map_get key config) ≡ true

spread-Has : (base patch : Object) (key : String) → Has base key → Has (spread base patch) key
unfolding spread
spread-Has base [] key h = h
spread-Has base ((j, v) ∷ patch) key h =
    spread-Has (map_set j v base) patch key (ground (arith, map_get-map_set j key v base))

default-Has : All (Has default_config) known_fields
unfolding map_get
default-Has = (refl, (refl, (refl, (refl, (refl, tt)))))

read_alerts_config-Has : (file : ConfigFile) → All (Has (read_alerts_config file)) known_fields
read_alerts_config-Has missing = default-Has
read_alerts_config-Has unreadable = default-Has
read_alerts_config-Has (holds config) =
    All-mono _ _ (spread-Has default_config config) known_fields default-Has

off :
    (event_type : String)
    → set_has event_type alert_event_types ≡ true
    → IsRoute (event_type, default_route)
unfolding set_has
off event_type known = route event_type _ known (
  switch "webhook" false refl,
  (switch "slack" false refl, (switch "discord" false refl, (switch "pagerduty" false refl, tt))),
)

module _ (protocol_of : String → Option String) where
  spread-IsField :
      (base patch : Object)
      → All (IsField protocol_of) base
      → All (IsField protocol_of) patch
      → All (IsField protocol_of) (spread base patch)
  unfolding spread
  spread-IsField base [] h k = h
  spread-IsField base ((j, v) ∷ patch) h (p, k) =
      spread-IsField (map_set j v base) patch (map_set-All (IsField protocol_of) j v base p h) k

  default-IsField : All (IsField protocol_of) default_config
  unfolding set_has
  default-IsField =
      let routes_off = routes "eventRoutes" _ refl (
        off "pause.triggered" refl,
        (
          off "recall.triggered" refl,
          (off "state.transitioned" refl, (off "cap.breached" refl, tt)),
        ),
      ) in
      (
        setting "webhookUrl" "" refl refl (λ u. inl refl),
        (
          setting "slackUrl" "" refl refl (λ u. inl refl),
          (
            setting "discordUrl" "" refl refl (λ u. inl refl),
            (setting "pagerdutyRoutingKey" "" refl refl (λ u. inl refl), (routes_off, tt)),
          ),
        ),
      )

  -- What the file holds are fields of the configuration.
  abbrev pub IsSound : ConfigFile → Type 0
  IsSound missing = Unit
  IsSound unreadable = Unit
  IsSound (holds config) = All (IsField protocol_of) config

  read_alerts_config-IsField :
      (file : ConfigFile) → IsSound file → All (IsField protocol_of) (read_alerts_config file)
  read_alerts_config-IsField missing h = default-IsField
  read_alerts_config-IsField unreadable h = default-IsField
  read_alerts_config-IsField (holds config) h =
      spread-IsField default_config config default-IsField h

  valid-IsField :
      (body : Json)
      → IsDistinct (object_entries body)
      → validate_alerts_config_patch protocol_of body ≡ none
      → All (IsField protocol_of) (object_entries body)
  unfolding validate_alerts_config_patch
  valid-IsField (object fs) distinct e =
      validate_alerts_config_patch-IsField protocol_of fs distinct e
  valid-IsField null distinct e = tt
  valid-IsField (bool b) distinct e = tt
  valid-IsField (number n) distinct e = tt
  valid-IsField (string s) distinct e = tt
  valid-IsField (array xs) distinct e = tt

  merge-IsSound :
      (disk : Disk) (problem : Option String) (body : Json) (file : ConfigFile)
      → validate_alerts_config_patch protocol_of body ≡ problem
      → IsDistinct (object_entries body)
      → IsSound file
      → IsSound (merge protocol_of disk problem body file).1
  merge-IsSound disk (some problem) body file e distinct h = h
  merge-IsSound writes none body file e distinct h =
      spread-IsField (read_alerts_config file) (object_entries body)
        (read_alerts_config-IsField file h) (valid-IsField body distinct e)
  merge-IsSound (refuses m) none body file e distinct h = h
  merge-IsSound (breaks_off m) none body file e distinct h = tt

  put_alerts-IsSound :
      (disk : Disk) (gate : Gate) (body : Option Json) (file : ConfigFile)
      → IsParsed body
      → IsSound file
      → IsSound (put_alerts protocol_of disk gate body file).1
  unfolding put_alerts
  put_alerts-IsSound disk unauthenticated body file distinct h = h
  put_alerts-IsSound disk forbidden body file distinct h = h
  put_alerts-IsSound disk (allowed session) none file distinct h = h
  put_alerts-IsSound disk (allowed session) (some body) file distinct h =
      merge-IsSound disk (validate_alerts_config_patch protocol_of body) body file refl distinct h

  -- If the file held fields of the right types, then whatever body is put, by whom ever, and also if
  -- the write of the file fails, an admin then gets a configuration that has all five fields, each of the right type: the addresses are
  -- empty or http(s) URLs, and the routes are switches of known destinations under known events.
  pub put_alerts-IsField :
      (disk : Disk) (gate : Gate) (body : Option Json) (file : ConfigFile)
      (session : SessionPayload)
      → IsParsed body
      → IsSound file
      → (config : Object) × (get_alerts
            (allowed session)
            (put_alerts protocol_of disk gate body file).1
          ≡ answers config)
        × All (IsField protocol_of) config
        × All (Has config) known_fields
  unfolding get_alerts
  put_alerts-IsField disk gate body file session distinct h =
      let file' = (put_alerts protocol_of disk gate body file).1 in
      (
        read_alerts_config file',
        refl,
        read_alerts_config-IsField file' (put_alerts-IsSound disk gate body file distinct h),
        read_alerts_config-Has file',
      )

  abbrev pub is_refusal : Thrown → Bool
  is_refusal (api_error e) = (e.status == 400) || ((e.status == 401) || (e.status == 403))
  is_refusal (other message) = false

  abbrev pub IsAllowed : Gate → Type 0
  IsAllowed (allowed session) = Unit
  IsAllowed _ = ⊥

  -- What a PUT may come to.
  pub data IsPut (disk : Disk) (gate : Gate) (file : ConfigFile)
      : Option Json → Attempt Object × ConfigFile → Type 0 where
    refused :
        {body : Option Json} (thrown : Thrown)
        → is_refusal thrown ≡ true
        → IsPut disk gate file body (throws thrown, file)
    stored :
        (body : Json) (config : Object)
        → disk ≡ writes
        → IsAllowed gate
        → validate_alerts_config_patch protocol_of body ≡ none
        → ((key : String)
            → map_get key config
              ≡ first_of
                  (map_get key (object_entries body))
                  (map_get key (read_alerts_config file)))
        → IsPut disk gate file (some body) (answers config, holds config)
    unwritten :
        (body : Json) (message : String)
        → disk ≡ refuses message
        → IsAllowed gate
        → validate_alerts_config_patch protocol_of body ≡ none
        → IsPut disk gate file (some body) (throws (other message), file)
    cut_off :
        (body : Json) (message : String)
        → disk ≡ breaks_off message
        → IsAllowed gate
        → validate_alerts_config_patch protocol_of body ≡ none
        → IsPut disk gate file (some body) (throws (other message), unreadable)

  merge-IsPut :
      (disk : Disk) (problem : Option String) (gate : Gate) (body : Json) (file : ConfigFile)
      → validate_alerts_config_patch protocol_of body ≡ problem
      → IsAllowed gate
      → IsDistinct (object_entries body)
      → IsPut disk gate file (some body) (merge protocol_of disk problem body file)
  merge-IsPut disk (some problem) gate body file e a distinct = refused _ refl
  merge-IsPut writes none gate body file e a distinct =
      stored body _ refl a e
        (λ key. map_get-spread (read_alerts_config file) (object_entries body) key distinct)
  merge-IsPut (refuses m) none gate body file e a distinct = unwritten body m refl a e
  merge-IsPut (breaks_off m) none gate body file e a distinct = cut_off body m refl a e

  -- A PUT either is refused with status 400, 401 or 403 and leaves the file alone, or an admin has
  -- sent a valid body. Then, where the file can be written, it holds what is answered, each field as
  -- the body has it or, where the body does not name it, as it was; and where the write throws, so
  -- does the handler, with the file as it was or cut off.
  pub put_alerts-IsPut :
      (disk : Disk) (gate : Gate) (body : Option Json) (file : ConfigFile)
      → IsParsed body
      → IsPut disk gate file body (put_alerts protocol_of disk gate body file)
  unfolding put_alerts
  put_alerts-IsPut disk unauthenticated body file distinct = refused _ refl
  put_alerts-IsPut disk forbidden body file distinct = refused _ refl
  put_alerts-IsPut disk (allowed session) none file distinct = refused _ refl
  put_alerts-IsPut disk (allowed session) (some body) file distinct =
      merge-IsPut disk (validate_alerts_config_patch protocol_of body) (allowed session) body file
        refl tt distinct
