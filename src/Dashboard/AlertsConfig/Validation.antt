-- ===== src/Dashboard/AlertsConfig/Validation.antt =====
-- What a patch that passes the validation holds.
use Prim.Native.String.{String}
use text.Mathlib.Text.{◌==◌ as str_eq}
use text.Mathlib.TextEquality.{eq_iff}
use refluo.Prelude.Json.{Json, null, bool, number, string, array, object, Fields, entries}
use refluo.Prelude.Maps.{string_eq, map_get, set_has, IsDistinct, IsDistinct-All}
use refluo.Prelude.{
  ◌≡◌, refl, ap, ◌∙◌, ◌⊎◌, inl, inr, Bool, true, false, Option, none, some, List, [], ◌∷◌, All,
  All-mono, arith, Bool-cases,
}
use refluo.Dashboard.AlertsConfig.{
  Object, alert_event_types, alert_destinations, url_fields, known_fields, or_next, first_error,
  check_destination, check_destinations, boolean_problem, check_route, validate_event_routes,
  text_problem, check_field, protocol_problem, url_problem, routes_problem,
  validate_alerts_config_patch,
}

-- A destination with its switch.
pub data IsSwitch : String × Json → Type 0 where
  switch :
      (destination : String) (b : Bool)
      → set_has destination alert_destinations ≡ true
      → IsSwitch (destination, bool b)

-- An event's type with its destinations.
pub data IsRoute : String × Json → Type 0 where
  route :
      (event_type : String) (ds : Fields)
      → set_has event_type alert_event_types ≡ true
      → All IsSwitch (entries ds)
      → IsRoute (event_type, object ds)

or_next-none : (a b : Option String) → or_next a b ≡ none → (a ≡ none) × (b ≡ none)
or_next-none none b e = (refl, e)
or_next-none (some problem) b e = absurd (ground arith)

first_error-none :
    {A : Type 0} (check : A → Option String) (xs : List A)
    → first_error check xs ≡ none
    → All (λ x. check x ≡ none) xs
first_error-none check [] e = tt
first_error-none check (x ∷ xs) e =
    let (first, rest) = or_next-none (check x) (first_error check xs) e in
    (first, first_error-none check xs rest)

boolean_problem-IsSwitch :
    (event_type destination : String) (v : Json)
    → set_has destination alert_destinations ≡ true
    → boolean_problem event_type destination v ≡ none
    → IsSwitch (destination, v)
boolean_problem-IsSwitch event_type destination (bool b) h e = switch destination b h
boolean_problem-IsSwitch event_type destination null h e = absurd (ground arith)
boolean_problem-IsSwitch event_type destination (number n) h e = absurd (ground arith)
boolean_problem-IsSwitch event_type destination (string s) h e = absurd (ground arith)
boolean_problem-IsSwitch event_type destination (array xs) h e = absurd (ground arith)
boolean_problem-IsSwitch event_type destination (object fs) h e = absurd (ground arith)

check_destination-IsSwitch :
    (event_type : String) (entry : String × Json)
    → check_destination event_type entry ≡ none
    → IsSwitch entry
check_destination-IsSwitch event_type (destination, v) e =
    elim (Bool-cases (set_has destination alert_destinations)) [
      | inl known ↦ boolean_problem-IsSwitch event_type destination v known (rw known at e)
      | inr other ↦ absurd (ground arith)
    ]

check_destinations-IsRoute :
    (event_type : String) (v : Json)
    → set_has event_type alert_event_types ≡ true
    → check_destinations event_type v ≡ none
    → IsRoute (event_type, v)
check_destinations-IsRoute event_type (object ds) h e = route event_type ds h (
    All-mono _ _ (check_destination-IsSwitch event_type) (entries ds)
      (first_error-none (check_destination event_type) (entries ds) e))
check_destinations-IsRoute event_type null h e = absurd (ground arith)
check_destinations-IsRoute event_type (bool b) h e = absurd (ground arith)
check_destinations-IsRoute event_type (number n) h e = absurd (ground arith)
check_destinations-IsRoute event_type (string s) h e = absurd (ground arith)
check_destinations-IsRoute event_type (array xs) h e = absurd (ground arith)

check_route-IsRoute : (entry : String × Json) → check_route entry ≡ none → IsRoute entry
check_route-IsRoute (event_type, v) e = elim (Bool-cases (set_has event_type alert_event_types)) [
  | inl known ↦ check_destinations-IsRoute event_type v known (rw known at e)
  | inr other ↦ absurd (ground arith)
]

module _ (protocol_of : String → Option String) where
  -- Nothing, or an address that the dispatcher can post to.
  abbrev pub IsAddress : String → Type 0
  IsAddress value =
      (value ≡ "") ⊎ ((protocol_of value ≡ some "http:") ⊎ (protocol_of value ≡ some "https:"))

  -- A field of the configuration, as its type in the source says, but for routes that are left out.
  pub data IsField : String × Json → Type 0 where
    setting :
        (key value : String)
        → set_has key known_fields ≡ true
        → str_eq key "eventRoutes" ≡ false
        → (set_has key url_fields ≡ true → IsAddress value)
        → IsField (key, string value)
    routes :
        (key : String) (fs : Fields)
        → key ≡ "eventRoutes"
        → All IsRoute (entries fs)
        → IsField (key, object fs)

  set_has-All :
      (P : String → Type 0) (k : String) (ks : List String) → All P ks → set_has k ks ≡ true → P k
  unfolding set_has
  set_has-All P k [] h e = absurd (ground arith)
  set_has-All P k (j ∷ ks) (p, h) e = elim (Bool-cases (str_eq j k)) [
    | inl same ↦ rw ((eq_iff j k).0 same) at p
    | inr other ↦ set_has-All P k ks h (rw other at e)
  ]

  protocol_problem-IsAddress :
      (key value : String) (p : Option String)
      → protocol_of value ≡ p
      → protocol_problem protocol_of key p ≡ none
      → IsAddress value
  protocol_problem-IsAddress key value none q e = absurd (ground arith)
  protocol_problem-IsAddress key value (some protocol) q e =
      elim (Bool-cases (str_eq protocol "http:")) [
        | inl http ↦ inr (inl (q ∙ ap (λ s. some s) ((eq_iff protocol "http:").0 http)))
        | inr no_http ↦ elim (Bool-cases (str_eq protocol "https:")) [
          | inl https ↦ inr (inr (q ∙ ap (λ s. some s) ((eq_iff protocol "https:").0 https)))
          | inr no_https ↦ absurd (ground arith)
        ]
      ]

  url_problem-IsAddress :
      (key value : String)
      → url_problem protocol_of key (some (string value)) ≡ none
      → IsAddress value
  url_problem-IsAddress key value e = elim (Bool-cases (str_eq value "")) [
    | inl empty ↦ inl ((eq_iff value "").0 empty)
    | inr given ↦ protocol_problem-IsAddress key value (protocol_of value) refl (rw given at e)
  ]

  -- The three checks of a body, for one of its entries.
  module _ (body : Object)
      (urls : All (λ key. url_problem protocol_of key (map_get key body) ≡ none) url_fields)
      (routed : routes_problem protocol_of (map_get "eventRoutes" body) ≡ none) where
    setting-IsField :
        (key : String) (v : Json)
        → set_has key known_fields ≡ true
        → str_eq key "eventRoutes" ≡ false
        → map_get key body ≡ some v
        → text_problem key v ≡ none
        → IsField (key, v)
    setting-IsField key (string value) known other found e = setting key value known other (λ url.
        let checked : url_problem protocol_of key (map_get key body) ≡ none =
          set_has-All (λ k. url_problem protocol_of k (map_get k body) ≡ none) key url_fields urls
            url in
        url_problem-IsAddress key value (rw found at checked))
    setting-IsField key null known other found e = absurd (ground arith)
    setting-IsField key (bool b) known other found e = absurd (ground arith)
    setting-IsField key (number n) known other found e = absurd (ground arith)
    setting-IsField key (array xs) known other found e = absurd (ground arith)
    setting-IsField key (object fs) known other found e = absurd (ground arith)

    routes-IsField :
        (key : String) (v : Json)
        → key ≡ "eventRoutes"
        → validate_event_routes v ≡ none
        → IsField (key, v)
    routes-IsField key (object fs) same e = routes key fs same (
        All-mono _ _ check_route-IsRoute (entries fs) (first_error-none check_route (entries fs) e))
    routes-IsField key null same e = absurd (ground arith)
    routes-IsField key (bool b) same e = absurd (ground arith)
    routes-IsField key (number n) same e = absurd (ground arith)
    routes-IsField key (string s) same e = absurd (ground arith)
    routes-IsField key (array xs) same e = absurd (ground arith)

    check_field-IsField :
        (entry : String × Json)
        → check_field entry ≡ none
        → map_get entry.0 body ≡ some entry.1
        → IsField entry
    check_field-IsField (key, v) e found = elim (Bool-cases (set_has key known_fields)) [
      | inl known ↦ elim (Bool-cases (str_eq key "eventRoutes")) [
        | inl same ↦
            let is_routes = (eq_iff key "eventRoutes").0 same in
            let here : map_get "eventRoutes" body ≡ some v = rw is_routes at found in
            routes-IsField key v is_routes (rw here at routed)
        | inr other ↦ setting-IsField key v known other found (rw (known, other) at e)
      ]
      | inr unknown ↦ absurd (ground arith)
    ]

  All-both :
      {A : Type 0} (P Q : A → Type 0) (xs : List A) → All P xs → All Q xs → All (λ x. P x × Q x) xs
  All-both P Q [] h k = tt
  All-both P Q (x ∷ xs) (p, h) (q, k) = ((p, q), All-both P Q xs h k)

  -- The entries of a body that is valid, and names no field twice, are fields of the configuration.
  pub validate_alerts_config_patch-IsField :
      (fs : Fields)
      → IsDistinct (entries fs)
      → validate_alerts_config_patch protocol_of (object fs) ≡ none
      → All IsField (entries fs)
  unfolding validate_alerts_config_patch
  validate_alerts_config_patch-IsField fs distinct e =
      let body = entries fs in
      let (fields_ok, rest) = or_next-none _ _ e in
      let (urls, routed) = or_next-none _ _ rest in
      All-mono _ IsField
        (λ entry h.
          check_field-IsField body
            (first_error-none (λ key. url_problem protocol_of key (map_get key body)) url_fields
              urls)
            routed entry h.0 h.1)
        body
        (All-both _ _ body (first_error-none check_field body fields_ok)
          (IsDistinct-All body distinct))
