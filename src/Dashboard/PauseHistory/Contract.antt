-- ===== src/Dashboard/PauseHistory/Contract.antt =====
-- contracts/health-monitor/src/lib.rs: the calls that change HealthMonitor's PauseState, the event
-- that each publishes, and `status`. Who may call is left out; `none` stands for a panic, which
-- changes nothing.
use refluo.Prelude.{
  ℕ, ◌+◌, ◌*◌, Bool, true, false, not, ◌&&◌, ◌||◌, Option, none, some, List, [], ◌∷◌, leb, ltb,
  if◌then◌else◌,
}
use refluo.Dashboard.PauseHistory.{RawEvent, paused, extended, resumed}

pub record PauseState : Type 0 where
  pub is_paused : Bool
  pub pause_expiry : ℕ
  pub extensions_used : ℕ

abbrev pub max_pause_duration : ℕ
max_pause_duration = 72 * 3600

abbrev pub max_extensions : ℕ
max_extensions = 2

-- A call, with the ledger's time.
pub data Call : Type 0 where
  pause extend resume_early : ℕ → Call

abbrev pub time : Call → ℕ
time (pause t) = t
time (extend t) = t
time (resume_early t) = t

abbrev pub status : Option PauseState → ℕ → Bool
status none now = false
status (some s) now = s.is_paused && ltb now s.pause_expiry

abbrev pub extended_state : ℕ → PauseState → PauseState
extended_state now s = record s {
  pause_expiry = now + max_pause_duration;
  extensions_used = s.extensions_used + 1;
}

abbrev pub is_refused : ℕ → PauseState → Bool
is_refused now s =
    not s.is_paused || (leb s.pause_expiry now || leb max_extensions s.extensions_used)

abbrev pub call : Option PauseState → Call → Option (PauseState × RawEvent)
call s (pause now) = some (
  record { is_paused = true; pause_expiry = now + max_pause_duration; extensions_used = 0 },
  paused now "Guardian" (now + max_pause_duration),
)
call none (extend now) = none
call (some s) (extend now) =
    if is_refused now s
    then none
    else some
        (extended_state now s, extended now (s.extensions_used + 1) (now + max_pause_duration))
call none (resume_early now) = none
call (some s) (resume_early now) = some (record s { is_paused = false }, resumed now)

-- The state behind a call.
abbrev pub after_call : Option PauseState → Option (PauseState × RawEvent) → Option PauseState
after_call s none = s
after_call s (some (t, e)) = some t

abbrev pub published : Option (PauseState × RawEvent) → List RawEvent → List RawEvent
published none es = es
published (some (t, e)) es = e ∷ es

-- The events that a run of calls publishes, in order.
unfoldable pub events_of : Option PauseState → List Call → List RawEvent
events_of s [] = []
events_of s (c ∷ cs) = published (call s c) (events_of (after_call s (call s c)) cs)

-- What `status` answers at a time in such a run: behind all calls up to that time.
unfoldable pub status_at : Option PauseState → List Call → ℕ → Bool
status_at s [] t = status s t
status_at s (c ∷ cs) t =
    let later = status_at (after_call s (call s c)) cs t in
    if ltb t (time c) then status s t else later

-- The state behind a run of calls.
unfoldable pub state_after : Option PauseState → List Call → Option PauseState
state_after s [] = s
state_after s (c ∷ cs) = state_after (after_call s (call s c)) cs
