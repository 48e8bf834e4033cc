-- ===== src/Keeper/MetricsLog.antt =====
-- keeper/src/metricsLog.ts: the append-only log, as the list of its bytes. `JSON.stringify` and
-- `JSON.parse` are a parameter.
pub mod Lines
use refluo.Prelude.{
  ℕ, ◌≡◌, ◌≢◌, Bool, true, false, not, ◌||◌, Option, none, some, List, [], ◌∷◌, ◌++◌, All, keep,
  if◌then◌else◌, ◌==◌, ℤ,
}

pub data TxStatus : Type 0 where
  success failed not_found : TxStatus

-- The events that the loops write, and any other.
pub data MetricEvent : Type 0 where
  -- `criticalFloorStroops` is missing in old samples.
  tier0_sample :
      (timestamp_seconds : ℕ) (balance target : ℤ) (critical_floor : Option ℤ) → MetricEvent
  recall_triggered :
      (timestamp_seconds detected_at_seconds executed_at_seconds : ℕ) (shortfall : ℤ)
      (status : TxStatus)
      → MetricEvent
  other_event : (timestamp_seconds : ℕ) → MetricEvent

abbrev pub timestamp : MetricEvent → ℕ
timestamp (tier0_sample at balance target critical_floor) = at
timestamp (recall_triggered at detected executed shortfall status) = at
timestamp (other_event at) = at

-- The JSON text of an event is an object on one line, and parses back to the event; what another
-- text parses to, if anything, is the parser's affair.
pub record Json : Type 0 where
  pub stringify : MetricEvent → List ℕ
  pub parse : List ℕ → Option MetricEvent
  pub parse_stringify : (e : MetricEvent) → parse (stringify e) ≡ some e
  pub one_line : (e : MetricEvent) → All (λ c. c ≢ b'\n') (stringify e)
  pub is_object : (e : MetricEvent) → (rest : List ℕ) × (stringify e ≡ b'{' ∷ rest)

abbrev pub newline : ℕ
newline = b'\n'

-- The white space that `trim` removes, of ASCII.
abbrev pub is_space : ℕ → Bool
is_space c = c == 32 || c == 9 || c == 10 || c == 11 || c == 12 || c == 13

abbrev pub is_blank : List ℕ → Bool
is_blank [] = true
is_blank (c ∷ cs) = if is_space c then is_blank cs else false

abbrev pub onto_head : ℕ → List (List ℕ) → List (List ℕ)
onto_head c [] = (c ∷ []) ∷ []
onto_head c (l ∷ ls) = (c ∷ l) ∷ ls

-- `split("\n")`.
unfoldable pub split_lines : List ℕ → List (List ℕ)
split_lines [] = [] ∷ []
split_lines (c ∷ cs) =
    let rest = split_lines cs in if c == newline then [] ∷ rest else onto_head c rest

module _ (json : Json) where
  -- The log file; `none` if there is none yet.
  pub append_metric_event : Option (List ℕ) → MetricEvent → Option (List ℕ)
  append_metric_event none event = some (json.stringify event ++ newline ∷ [])
  append_metric_event (some text) event = some (text ++ (json.stringify event ++ newline ∷ []))

  abbrev onto_events : Option MetricEvent → List MetricEvent → List MetricEvent
  onto_events none events = events
  onto_events (some e) events = e ∷ events

  pub parse_lines : List (List ℕ) → List MetricEvent
  parse_lines [] = []
  parse_lines (line ∷ lines) = onto_events (json.parse line) (parse_lines lines)

  pub read_metric_events : Option (List ℕ) → List MetricEvent
  unfolding parse_lines split_lines
  read_metric_events none = []
  read_metric_events (some text) = parse_lines (keep (λ l. not (is_blank l)) (split_lines text))
