-- ===== src/Dashboard/AlertsConfig/Panel/Runs.antt =====
-- What the alerts panel shows and stores, over any run of its edits.
use Prim.Native.String.{String}
use text.Mathlib.Text.{◌==◌ as str_eq}
use text.Mathlib.TextEquality.{eq_iff}
use refluo.Prelude.Json.{string, object, fields_of}
use refluo.Prelude.Maps.{string_eq, map_get, map_get-map_set}
use refluo.Prelude.{
  ◌≡◌, refl, ◌∙◌, Bool, true, false, not, ◌&&◌, Option, none, some, List, [], ◌∷◌, All,
}
use refluo.Dashboard.ApiError.{Attempt, answers}
use refluo.Dashboard.Auth.{SessionPayload, Gate, unauthenticated, forbidden, allowed}
use refluo.Dashboard.AlertsConfig.{
  Object, ConfigFile, unreadable, holds, Disk, writes, breaks_off, spread, read_alerts_config,
  get_alerts, validate_alerts_config_patch,
}
use refluo.Dashboard.AlertsConfig.Panel.{
  TextField, field_key, event_key, destination_key, EventType, Destination, edit_field, World,
  config, or_loaded, Delivery, delivered, garbled, request_lost, response_lost, Action, fetches,
  edits, toggles, saves, others, fetched, saved, act, step, run, opened,
}
use refluo.Dashboard.AlertsConfig.Panel.Edits.{
  Switch, IsUsable, SameSettings, is_not_routes, is_no_text, edit_field-IsUsable, toggled,
  toggle_route-toggled, toggled-Switch, toggled-IsUsable, spread-SameSettings,
}
use refluo.Dashboard.AlertsConfig.Panel.Saves.{
  default-IsUsable, Stores, refused, cut_off, stored, spread-again, put_alerts-Stores,
  put_alerts-valid,
}

module _ (protocol_of : String → Option String) (is_zero : String → Bool) where
  abbrev AreUsable : Option Object → Type 0
  AreUsable none = Unit
  AreUsable (some c) = IsUsable c

  record IsSound (w : World) : Type 0 where
    stored_usable : IsUsable (read_alerts_config w.file)
    loaded_usable : AreUsable w.loaded
    draft_usable : AreUsable w.draft

  config-IsUsable :
      (draft loaded : Option Object)
      → AreUsable draft
      → AreUsable loaded
      → AreUsable (or_loaded draft loaded)
  config-IsUsable none loaded h k = k
  config-IsUsable (some draft) loaded h k = h

  -- Another writer leaves a configuration that the panel can show.
  abbrev pub IsFair : Action → Type 0
  IsFair (others file) = IsUsable (read_alerts_config file)
  IsFair _ = Unit

  fetched-IsSound :
      (gate : Gate) (w : World) → IsSound w → IsSound (fetched (get_alerts gate w.file) w)
  unfolding get_alerts
  fetched-IsSound unauthenticated w h = h
  fetched-IsSound forbidden w h = h
  fetched-IsSound (allowed session) w h = record {
    stored_usable = h.stored_usable;
    loaded_usable = h.stored_usable;
    draft_usable = h.draft_usable;
  }

  broken : (w : World) → IsSound w → IsSound (record w { file = unreadable })
  broken w h = record {
    stored_usable = default-IsUsable;
    loaded_usable = h.loaded_usable;
    draft_usable = h.draft_usable;
  }

  saved-IsSound :
      (fate : Delivery) (c : Object) (disk : Disk) (w : World) (out : Attempt Object × ConfigFile)
      → Stores c w.file disk out
      → IsSound w
      → IsSound (saved fate out w)
  saved-IsSound delivered c disk w out (refused thrown) h = h
  saved-IsSound garbled c disk w out (refused thrown) h = h
  saved-IsSound request_lost c disk w out (refused thrown) h = h
  saved-IsSound request_lost c disk w out (cut_off m e) h = h
  saved-IsSound request_lost c disk w out (stored updated u same v again) h = h
  saved-IsSound response_lost c disk w out (refused thrown) h = h
  saved-IsSound delivered c disk w out (cut_off m e) h = broken w h
  saved-IsSound garbled c disk w out (cut_off m e) h = broken w h
  saved-IsSound response_lost c disk w out (cut_off m e) h = broken w h
  saved-IsSound delivered c disk w out (stored updated u same v again) h = record {
    stored_usable = v;
    loaded_usable = h.loaded_usable;
    draft_usable = u;
  }
  saved-IsSound garbled c disk w out (stored updated u same v again) h = record {
    stored_usable = v;
    loaded_usable = h.loaded_usable;
    draft_usable = tt;
  }
  saved-IsSound response_lost c disk w out (stored updated u same v again) h = record {
    stored_usable = v;
    loaded_usable = h.loaded_usable;
    draft_usable = h.draft_usable;
  }

  drafts : (c : Object) (w : World) → IsUsable c → IsSound w → IsSound (record w { draft = some c })
  drafts c w u h = record {
    stored_usable = h.stored_usable;
    loaded_usable = h.loaded_usable;
    draft_usable = u;
  }

  act-IsSound :
      (c : Option Object) (a : Action) (w : World)
      → IsFair a
      → AreUsable c
      → IsSound w
      → IsSound (act protocol_of is_zero c a w)
  act-IsSound c (fetches gate) w fair u h = fetched-IsSound gate w h
  act-IsSound c (others file) w fair u h = record {
    stored_usable = fair;
    loaded_usable = h.loaded_usable;
    draft_usable = h.draft_usable;
  }
  act-IsSound none (edits key text) w fair u h = h
  act-IsSound none (toggles event_type destination) w fair u h = h
  act-IsSound none (saves gate disk fate) w fair u h = h
  act-IsSound (some c) (edits key text) w fair u h =
      drafts (edit_field key text c) w (edit_field-IsUsable key text c u) h
  act-IsSound (some c) (toggles e d) w fair u h =
      let (b, s) = u.switches e d in
      rw (toggle_route-toggled c e d s is_zero)
        (drafts (toggled c e d s (not b)) w (toggled-IsUsable c e d s (not b) u) h)
  act-IsSound (some c) (saves gate disk fate) w fair u h =
      saved-IsSound fate c disk w _
        (put_alerts-Stores protocol_of disk gate c w.file u h.stored_usable) h

  run-IsSound :
      (actions : List Action) (w : World)
      → All IsFair actions
      → IsSound w
      → IsSound (run protocol_of is_zero actions w)
  unfolding run
  run-IsSound [] w fair h = h
  run-IsSound (a ∷ actions) w (first, fair) h =
      run-IsSound actions (act protocol_of is_zero (config w) a w) fair (
        act-IsSound (config w) a w first
          (config-IsUsable w.draft w.loaded h.draft_usable h.loaded_usable) h)

  -- The panel shows this configuration, and has left the file alone.
  abbrev pub Drafts : World → Object → World → Type 0
  Drafts w c w' = (config w' ≡ some c) × (w'.file ≡ w.file)

  -- An edit of an input sets its text, and no other input or switch.
  pub record IsEdited (c : Object) (key : TextField) (text : String) (c' : Object) : Type 0 where
    pub set : map_get (field_key key) c' ≡ some (string text)
    pub others_same :
        (other : TextField)
        → str_eq (field_key key) (field_key other) ≡ false
        → map_get (field_key other) c' ≡ map_get (field_key other) c
    pub routes_same : map_get "eventRoutes" c' ≡ map_get "eventRoutes" c

  -- A toggle turns one switch, and no other switch or input.
  pub record IsTurned (c : Object) (e : EventType) (d : Destination) (b : Bool) (c' : Object)
      : Type 0 where
    pub turned : Switch c' e d (not b)
    pub others_kept :
        (e' : EventType) (d' : Destination) (b' : Bool)
        → (str_eq (event_key e) (event_key e') && str_eq (destination_key d) (destination_key d'))
          ≡ false
        → Switch c e' d' b'
        → Switch c' e' d' b'
    pub texts_kept : (key : TextField) → map_get (field_key key) c' ≡ map_get (field_key key) c

  -- What the panel shows behind a save that the server has stored.
  abbrev pub ShowsSaved : Object → World → World → Delivery → Type 0
  ShowsSaved c w w' delivered = (c' : Object) × (config w' ≡ some c') × SameSettings c c'
  ShowsSaved c w w' garbled = config w' ≡ w.loaded
  ShowsSaved c w w' request_lost = ⊥
  ShowsSaved c w w' response_lost = config w' ≡ some c

  -- What is read from now on has the settings shown.
  abbrev pub IsStored : Object → Delivery → World → World → Type 0
  IsStored c fate w w' = SameSettings c (read_alerts_config w'.file) × ShowsSaved c w w' fate

  -- What a save may come to.
  pub data IsSaved (c : Object) (disk : Disk) (fate : Delivery) (w w' : World) : Type 0 where
    kept : Drafts w c w' → IsSaved c disk fate w w'
    lost :
        (message : String)
        → disk ≡ breaks_off message
        → w'.file ≡ unreadable
        → config w' ≡ some c
        → IsSaved c disk fate w w'
    is_stored : IsStored c fate w w' → IsSaved c disk fate w w'

  -- What the panel does, from a world in which it shows a configuration.
  pub record Offers (c : Object) (w : World) : Type 0 where
    pub shows : IsUsable c
    pub edits_one :
        (key : TextField) (text : String)
        → (c' : Object) × Drafts w c' (step protocol_of is_zero (edits key text) w)
          × IsEdited c key text c'
    pub toggles_one :
        (e : EventType) (d : Destination) (b : Bool)
        → Switch c e d b
        → (c' : Object) × Drafts w c' (step protocol_of is_zero (toggles e d) w)
          × IsTurned c e d b c'
    pub saves_any :
        (gate : Gate) (disk : Disk) (fate : Delivery)
        → IsSaved c disk fate w (step protocol_of is_zero (saves gate disk fate) w)
    pub saves_valid :
        (session : SessionPayload) (fate : Delivery)
        → ¬ (fate ≡ request_lost)
        → validate_alerts_config_patch protocol_of (object (fields_of c)) ≡ none
        → IsStored c fate w (step protocol_of is_zero (saves (allowed session) writes fate) w)

  edit_field-IsEdited :
      (c : Object) (key : TextField) (text : String) → IsEdited c key text (edit_field key text c)
  edit_field-IsEdited c key text = record {
    set =
        map_get-map_set (field_key key) (field_key key) (string text) c
        ∙ rw ((eq_iff (field_key key) (field_key key)).1 refl) refl;
    others_same = λ other apart.
        map_get-map_set (field_key key) (field_key other) (string text) c ∙ rw apart refl;
    routes_same =
        map_get-map_set (field_key key) "eventRoutes" (string text) c ∙ rw (is_not_routes key) refl;
  }

  toggled-IsTurned :
      (c : Object) (e : EventType) (d : Destination) (b : Bool) (s : Switch c e d b)
      → IsTurned c e d b (toggled c e d s (not b))
  toggled-IsTurned c e d b s = record {
    turned =
        let same_event : str_eq (event_key e) (event_key e) ≡ true = (eq_iff _ _).1 refl in
        let same_destination : str_eq (destination_key d) (destination_key d) ≡ true =
          (eq_iff _ _).1 refl in
        rw (same_event, same_destination) at (toggled-Switch c e d s (not b) e d s);
    others_kept = λ e' d' b' apart s'. rw apart at (toggled-Switch c e d s (not b) e' d' s');
    texts_kept =
        λ key. map_get-map_set "eventRoutes" (field_key key) _ c ∙ rw (is_no_text key) refl;
  }

  Stores-IsSaved :
      (c : Object) (disk : Disk) (fate : Delivery) (w : World) (out : Attempt Object × ConfigFile)
      → config w ≡ some c
      → Stores c w.file disk out
      → IsSaved c disk fate w (saved fate out w)
  Stores-IsSaved c disk delivered w out shown (refused thrown) = kept (shown, refl)
  Stores-IsSaved c disk garbled w out shown (refused thrown) = kept (shown, refl)
  Stores-IsSaved c disk request_lost w out shown (refused thrown) = kept (shown, refl)
  Stores-IsSaved c disk response_lost w out shown (refused thrown) = kept (shown, refl)
  Stores-IsSaved c disk delivered w out shown (cut_off m e) = lost m e refl shown
  Stores-IsSaved c disk garbled w out shown (cut_off m e) = lost m e refl shown
  Stores-IsSaved c disk request_lost w out shown (cut_off m e) = kept (shown, refl)
  Stores-IsSaved c disk response_lost w out shown (cut_off m e) = lost m e refl shown
  Stores-IsSaved c disk delivered w out shown (stored updated u same v again) =
      is_stored (again, (updated, refl, same))
  Stores-IsSaved c disk garbled w out shown (stored updated u same v again) =
      is_stored (again, refl)
  Stores-IsSaved c disk request_lost w out shown (stored updated u same v again) =
      kept (shown, refl)
  Stores-IsSaved c disk response_lost w out shown (stored updated u same v again) =
      is_stored (again, shown)

  written-IsStored :
      (c : Object) (fate : Delivery) (w : World) (updated : Object)
      → config w ≡ some c
      → ¬ (fate ≡ request_lost)
      → SameSettings c updated
      → SameSettings c (read_alerts_config (holds updated))
      → IsStored c fate w (saved fate (answers updated, holds updated) w)
  written-IsStored c delivered w updated shown sent same again = (again, (updated, refl, same))
  written-IsStored c garbled w updated shown sent same again = (again, refl)
  written-IsStored c request_lost w updated shown sent same again = absurd (sent refl)
  written-IsStored c response_lost w updated shown sent same again = (again, shown)

  offers : (c : Object) (w : World) → config w ≡ some c → IsUsable c → IsSound w → Offers c w
  offers c w shown u h = record {
    shows = u;
    edits_one =
        λ key text. rw shown (edit_field key text c, (refl, refl), edit_field-IsEdited c key text);
    toggles_one = λ e d b s.
        rw (shown, toggle_route-toggled c e d s is_zero)
          (toggled c e d s (not b), (refl, refl), toggled-IsTurned c e d b s);
    saves_any = λ gate disk fate. rw shown (
        Stores-IsSaved c disk fate w _ shown
          (put_alerts-Stores protocol_of disk gate c w.file u h.stored_usable));
    saves_valid = λ session fate sent valid.
        let same = spread-SameSettings (read_alerts_config w.file) c u in
        rw (shown, put_alerts-valid protocol_of session c w.file valid)
          (written-IsStored c fate w (spread (read_alerts_config w.file) c) shown sent same
            (spread-again c w.file u h.stored_usable));
  }

  -- If the stored configuration is one that the panel can show, and other writers leave it so, then
  -- behind any run of fetches, edits, toggles and saves, with whatever roles, failing writes and
  -- losses on the way, the configuration that the panel shows has a text in every input and an on or
  -- off in every switch. An edit then sets its input's text and a toggle turns its switch, in what
  -- the panel shows, with all else as it was and the file left alone. A save leaves what is shown
  -- and the file, or breaks the file off, or what is read from then on has the settings shown; and
  -- an admin's save of valid settings that is not lost on its way, and whose write succeeds, is
  -- always stored. Behind a stored save the panel shows these settings: as the server answers them
  -- or, where its answer is lost, as they were; where the answer is no JSON it falls back to what it
  -- had loaded.
  pub run-Offers :
      (file : ConfigFile) (actions : List Action) (c : Object)
      → IsUsable (read_alerts_config file)
      → All IsFair actions
      → config (run protocol_of is_zero actions (opened file)) ≡ some c
      → Offers c (run protocol_of is_zero actions (opened file))
  run-Offers file actions c usable fair shown =
      let w = run protocol_of is_zero actions (opened file) in
      let h : IsSound w =
        run-IsSound actions (opened file) fair
          (record { stored_usable = usable; loaded_usable = tt; draft_usable = tt }) in
      let there = config-IsUsable w.draft w.loaded h.draft_usable h.loaded_usable in
      offers c w shown (rw (shown) at there) h
