-- ===== src/Dashboard/PauseHistory.antt =====
-- dashboard/src/lib/contracts/pauseHistoryState.ts: the replay of HealthMonitor's events into the
-- episodes of the incidents page; and pauseHistory.ts, which reads the events from the ledger. The
-- decoding of an event's values is done where `ContractEvent` is made.
pub mod Contract
pub mod Refine
pub mod Fetch
pub mod Disjoint
use Prim.Native.String.{String}
use mathlib.Core.List.{foldl, reverse}
use text.Mathlib.Text.{◌==◌ as str_eq}
use refluo.Prelude.Result.{Result, ok, err}
use refluo.Prelude.{ℕ, ◌-◌, max, Option, none, some, List, [], ◌∷◌, ◌++◌, leb, if◌then◌else◌}
use refluo.Rpc.Pages.{Position, start_ledger, Page, fold_pages}

pub data PauseResolution : Type 0 where
  resumed_early auto_expired superseded active : PauseResolution

pub record PauseExtensionRecord : Type 0 where
  pub at_seconds : ℕ
  pub extensions_used : ℕ
  pub pause_expiry_seconds : ℕ

pub record PauseEpisode : Type 0 where
  pub paused_at_seconds : ℕ
  pub trigger : String
  pub extensions : List PauseExtensionRecord
  pub resolution : PauseResolution
  pub resolved_at_seconds : Option ℕ
  pub final_pause_expiry_seconds : ℕ

pub data RawEvent : Type 0 where
  paused : (at_seconds : ℕ) (trigger : String) (pause_expiry_seconds : ℕ) → RawEvent
  extended : (at_seconds extensions_used pause_expiry_seconds : ℕ) → RawEvent
  resumed : (at_seconds : ℕ) → RawEvent

-- The loop's variables. The source pushes the open episode to `episodes` at once and changes it
-- there: it is always the last of them, and stands apart here until it is closed.
pub record Replay : Type 0 where
  pub episodes : List PauseEpisode
  pub current : Option PauseEpisode

abbrev pub resolve : PauseResolution → ℕ → PauseEpisode → PauseEpisode
resolve how at e = record e { resolution = how; resolved_at_seconds = some at }

-- How a new pause ends the one before it.
abbrev pub cut_short : ℕ → PauseEpisode → PauseEpisode
cut_short at e =
    if leb e.final_pause_expiry_seconds at
    then resolve auto_expired e.final_pause_expiry_seconds e
    else resolve superseded at e

abbrev pub opened : ℕ → String → ℕ → PauseEpisode
opened at trigger expiry = record {
  paused_at_seconds = at;
  trigger = trigger;
  extensions = [];
  resolution = active;
  resolved_at_seconds = none;
  final_pause_expiry_seconds = expiry;
}

abbrev pub extend : ℕ → ℕ → ℕ → PauseEpisode → PauseEpisode
extend at used expiry e = record e {
  extensions =
      e.extensions
      ++ record { at_seconds = at; extensions_used = used; pause_expiry_seconds = expiry } ∷ [];
  final_pause_expiry_seconds = expiry;
}

-- One round of the loop over the events.
abbrev pub replay_event : Replay → RawEvent → Replay
replay_event r (paused at trigger expiry) = elim r.current [
  | none ↦ record r { current = some (opened at trigger expiry) }
  | some e ↦ record {
    episodes = r.episodes ++ cut_short at e ∷ [];
    current = some (opened at trigger expiry);
  }
]
replay_event r (extended at used expiry) = elim r.current [
  | none ↦ r
  | some e ↦ record r { current = some (extend at used expiry e) }
]
replay_event r (resumed at) = elim r.current [
  | none ↦ r
  | some e ↦ record { episodes = r.episodes ++ resolve resumed_early at e ∷ []; current = none }
]

-- What the episode that is open behind the last event is called.
abbrev pub classify : ℕ → PauseEpisode → PauseEpisode
classify now e =
    if leb e.final_pause_expiry_seconds now
    then resolve auto_expired e.final_pause_expiry_seconds e
    else e

abbrev pub all_episodes : ℕ → Replay → List PauseEpisode
all_episodes now r = elim r.current [
  | none ↦ r.episodes
  | some e ↦ r.episodes ++ classify now e ∷ []
]

abbrev pub nothing_yet : Replay
nothing_yet = record { episodes = []; current = none }

unfoldable pub reconstruct_pause_history : List RawEvent → ℕ → List PauseEpisode
reconstruct_pause_history events now =
    reverse (all_episodes now (foldl replay_event nothing_yet events))

-- An event of HealthMonitor as it is decoded: of the topics' and the value's fields each kind of
-- event has its own.
pub record ContractEvent : Type 0 where
  pub topic_name : String
  pub at_seconds : ℕ
  pub trigger : String
  pub extensions_used : ℕ
  pub pause_expiry : ℕ

abbrev pub raw_event : ContractEvent → RawEvent
raw_event event =
    if str_eq event.topic_name "paused"
    then paused event.at_seconds event.trigger event.pause_expiry
    else if str_eq event.topic_name "extended"
    then extended event.at_seconds event.extensions_used event.pause_expiry
    else resumed event.at_seconds

abbrev pub push_raw : List RawEvent → ContractEvent → List RawEvent
push_raw events event = events ++ raw_event event ∷ []

abbrev pub lookback_start : ℕ → ℕ → ℕ
lookback_start sequence lookback = max 2 (sequence - lookback)

abbrev pub replayed : ℕ → Option (Result (List RawEvent)) → Option (Result (List PauseEpisode))
replayed now none = none
replayed now (some (ok events)) = some (ok (reconstruct_pause_history events now))
replayed now (some (err m)) = some (err m)

module _ (server : Position → Result (Page ContractEvent)) (lookback now fuel : ℕ) where
  -- `none`: the fuel ran out.
  unfoldable pub fetch_pause_history : Result ℕ → Option (Result (List PauseEpisode))
  fetch_pause_history (err m) = some (err m)
  fetch_pause_history (ok sequence) =
      let start = lookback_start sequence lookback in
      replayed now (fold_pages server start push_raw fuel (start_ledger start) [])
