-- ===== src/Dashboard/AlertsConfig/Panel/Edits.antt =====
-- What an edit of the alerts panel does to a configuration.
use Prim.Native.String.{String}
use text.Mathlib.Text.{◌==◌ as str_eq}
use text.Mathlib.TextEquality.{eq_iff}
use refluo.Prelude.Json.{Json, bool, string, object, Fields, entries, fields_of}
use refluo.Prelude.Maps.{
  string_eq, map_get, map_set, map_get-map_set, map_set-IsDistinct, IsDistinct,
}
use refluo.Prelude.Result.{ok}
use refluo.Prelude.{
  ◌≡◌, refl, sym, ap, ◌∙◌, inl, inr, Bool, false, not, ◌&&◌, Option, some, [], ◌∷◌, if◌then◌else◌,
  Bool-cases,
}
use refluo.Dashboard.AlertsConfig.{Object, spread}
use refluo.Dashboard.AlertsConfig.Put.{map_get-spread}
use refluo.Dashboard.AlertsConfig.Panel.{
  TextField, webhook_url, slack_url, discord_url, pagerduty_routing_key, field_key, EventType,
  pause_triggered, event_key, Destination, webhook, destination_key, with_switch, with_routes,
  toggle_route, edit_field,
}

-- A switch of the configuration is on, or off.
pub record Switch (c : Object) (event_type : EventType) (destination : Destination) (b : Bool)
    : Type 0 where
  pub routes : Fields
  pub route : Fields
  pub has_routes : map_get "eventRoutes" c ≡ some (object routes)
  pub has_route : map_get (event_key event_type) (entries routes) ≡ some (object route)
  pub has_switch : map_get (destination_key destination) (entries route) ≡ some (bool b)

-- Every input has a text, every switch is on or off, and no key stands twice.
pub record IsUsable (c : Object) : Type 0 where
  pub distinct : IsDistinct c
  pub texts : (key : TextField) → (s : String) × (map_get (field_key key) c ≡ some (string s))
  pub switches : (e : EventType) (d : Destination) → (b : Bool) × Switch c e d b

pub entries-fields_of : (m : Object) → entries (fields_of m) ≡ m
entries-fields_of [] = refl
entries-fields_of ((k, v) ∷ m) = ap (λ es. (k, v) ∷ es) (entries-fields_of m)

pub is_not_routes : (key : TextField) → str_eq (field_key key) "eventRoutes" ≡ false
is_not_routes webhook_url = refl
is_not_routes slack_url = refl
is_not_routes discord_url = refl
is_not_routes pagerduty_routing_key = refl

pub is_no_text : (key : TextField) → str_eq "eventRoutes" (field_key key) ≡ false
is_no_text webhook_url = refl
is_no_text slack_url = refl
is_no_text discord_url = refl
is_no_text pagerduty_routing_key = refl

-- Two configurations with the same values under the five keys.
pub record SameSettings (c c' : Object) : Type 0 where
  pub same_texts : (key : TextField) → map_get (field_key key) c' ≡ map_get (field_key key) c
  pub same_routes : map_get "eventRoutes" c' ≡ map_get "eventRoutes" c

pub Switch-same :
    (c c' : Object) (e : EventType) (d : Destination) {b : Bool}
    → map_get "eventRoutes" c' ≡ map_get "eventRoutes" c
    → Switch c e d b
    → Switch c' e d b
Switch-same c c' e d same s = record {
  routes = s.routes;
  route = s.route;
  has_routes = same ∙ s.has_routes;
  has_route = s.has_route;
  has_switch = s.has_switch;
}

pub IsUsable-same : (c c' : Object) → IsDistinct c' → SameSettings c c' → IsUsable c → IsUsable c'
IsUsable-same c c' distinct same u = record {
  distinct = distinct;
  texts = λ key. let (s, e) = u.texts key in (s, same.same_texts key ∙ e);
  switches = λ e d. let (b, s) = u.switches e d in (b, Switch-same c c' e d same.same_routes s);
}

-- What a save stores over what there was has the settings of what is saved.
pub spread-SameSettings : (base c : Object) → IsUsable c → SameSettings c (spread base c)
spread-SameSettings base c u = record {
  same_texts = λ key.
      let (s, e) = u.texts key in map_get-spread base c (field_key key) u.distinct ∙ rw (e) refl;
  same_routes =
      let (b, s) = u.switches pause_triggered webhook in
      let e = s.has_routes in map_get-spread base c "eventRoutes" u.distinct ∙ rw (e) refl;
}

pub spread-IsDistinct : (base patch : Object) → IsDistinct base → IsDistinct (spread base patch)
unfolding spread
spread-IsDistinct base [] h = h
spread-IsDistinct base ((k, v) ∷ patch) h =
    spread-IsDistinct (map_set k v base) patch (map_set-IsDistinct k v base h)

pub edit_field-IsUsable :
    (key : TextField) (text : String) (c : Object) → IsUsable c → IsUsable (edit_field key text c)
edit_field-IsUsable key text c u = record {
  distinct = map_set-IsDistinct (field_key key) (string text) c u.distinct;
  texts = λ other.
      let found = map_get-map_set (field_key key) (field_key other) (string text) c in
      elim (Bool-cases (str_eq (field_key key) (field_key other))) [
        | inl same ↦ (text, rw (same) at found)
        | inr differs ↦ let (s, e) = u.texts other in (s, (rw (differs) at found) ∙ e)
      ];
  switches = λ e d.
      let found = map_get-map_set (field_key key) "eventRoutes" (string text) c in
      let (b, s) = u.switches e d in
      (b, Switch-same c (edit_field key text c) e d (rw (is_not_routes key) at found) s);
}

object_inj :
    {fs gs : Fields} → ◌≡◌ {A = Option Json} (some (object fs)) (some (object gs)) → fs ≡ gs
object_inj e = cc

module _ (c : Object) (e : EventType) (d : Destination) {b : Bool} (s : Switch c e d b) where
  abbrev pub toggled : Bool → Object
  toggled v = with_routes (with_switch (event_key e) (destination_key d) v (entries s.routes)) c

  pub toggle_route-toggled :
      (is_zero : String → Bool) → toggle_route is_zero e d c ≡ ok (toggled (not b))
  unfolding toggle_route
  toggle_route-toggled is_zero =
      let rs = s.has_routes in let r = s.has_route in let v = s.has_switch in rw (rs, r, v) refl

  abbrev pub is_toggled : EventType → Destination → Bool
  is_toggled e' d' =
      str_eq (event_key e) (event_key e') && str_eq (destination_key d) (destination_key d')

  pub toggled-Switch :
      (v : Bool) (e' : EventType) (d' : Destination) {b' : Bool}
      → Switch c e' d' b'
      → Switch (toggled v) e' d' (if is_toggled e' d' then v else b')
  toggled-Switch v e' d' {b'} s' =
      let m : Object = with_switch (event_key e) (destination_key d) v (entries s.routes) in
      let ds : Object = map_set (destination_key d) (bool v) (entries s.route) in
      let found : map_get "eventRoutes" (toggled v) ≡ some (object (fields_of m)) =
        map_get-map_set "eventRoutes" "eventRoutes" (object (fields_of m)) c in
      let has_route = s.has_route in
      let with_ds : m ≡ map_set (event_key e) (object (fields_of ds)) (entries s.routes) =
        rw (has_route) refl in
      let same_routes : s.routes ≡ s'.routes = object_inj (sym s.has_routes ∙ s'.has_routes) in
      let row : map_get (event_key e') (entries (fields_of m)) ≡ (
          if str_eq (event_key e) (event_key e')
          then some (object (fields_of ds))
          else map_get (event_key e') (entries s.routes)) =
        ap (map_get (event_key e')) (entries-fields_of m ∙ with_ds)
        ∙ map_get-map_set (event_key e) (event_key e') (object (fields_of ds)) (entries s.routes) in
      let cell : map_get (destination_key d') (entries (fields_of ds)) ≡ (
          if str_eq (destination_key d) (destination_key d')
          then some (bool v)
          else map_get (destination_key d') (entries s.route)) =
        ap (map_get (destination_key d')) (entries-fields_of ds)
        ∙ map_get-map_set (destination_key d) (destination_key d') (bool v) (entries s.route) in
      elim (Bool-cases (str_eq (event_key e) (event_key e'))) [
        | inl same_event ↦
            let same_key : event_key e ≡ event_key e' = (eq_iff _ _).0 same_event in
            let same_route : s.route ≡ s'.route = object_inj (
              sym s.has_route
              ∙ ap (λ k. map_get k (entries s.routes)) same_key
              ∙ ap (λ rs. map_get (event_key e') (entries rs)) same_routes
              ∙ s'.has_route) in
            record {
              routes = fields_of m;
              route = fields_of ds;
              has_routes = found;
              has_route = rw (same_event) at row;
              has_switch = elim (Bool-cases (str_eq (destination_key d) (destination_key d'))) [
                | inl same ↦ rw (same_event, same) (rw (same) at cell)
                | inr differs ↦
                    rw (same_event, differs)
                      ((rw (differs) at cell)
                        ∙ ap (λ r. map_get (destination_key d') (entries r)) same_route
                        ∙ s'.has_switch)
              ];
            }
        | inr other_event ↦ record {
          routes = fields_of m;
          route = s'.route;
          has_routes = found;
          has_route =
              (rw (other_event) at row)
              ∙ ap (λ rs. map_get (event_key e') (entries rs)) same_routes
              ∙ s'.has_route;
          has_switch = rw (other_event) s'.has_switch;
        }
      ]

  pub toggled-IsUsable : (v : Bool) → IsUsable c → IsUsable (toggled v)
  toggled-IsUsable v u = record {
    distinct = map_set-IsDistinct "eventRoutes" _ c u.distinct;
    texts = λ key.
        let m : Object = with_switch (event_key e) (destination_key d) v (entries s.routes) in
        let found = map_get-map_set "eventRoutes" (field_key key) (object (fields_of m)) c in
        let (t, has) = u.texts key in (t, (rw (is_no_text key) at found) ∙ has);
    switches = λ e' d'. let (b', s') = u.switches e' d' in (_, toggled-Switch v e' d' s');
  }
