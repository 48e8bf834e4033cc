-- ===== src/Dashboard/Resource.antt =====
-- dashboard/src/hooks/useApiResource.ts: the state of a panel's data as its effects and callbacks
-- change it. A key is the url with the count of reloads; each run of the effect starts a fetch for
-- the key of its time, and a fetch is ignored once the effect has run again. Rendering, and the
-- timers that call `reload`, are events from outside.
pub mod Runs
use Prim.Native.String.{String}
use refluo.Prelude.{
  ℕ, ◌+◌, ◌≡◌, Bool, true, false, not, ◌&&◌, Option, none, some, List, [], ◌∷◌, if◌then◌else◌, ◌==◌,
  length,
}
use text.Mathlib.Text.{◌==◌ as str_eq}
use refluo.Dashboard.ApiError.{ApiError}

-- `${url}#${reloadToken}`.
pub record Key : Type 0 where
  pub url : String
  pub reload_token : ℕ

abbrev pub same_key : Key → Key → Bool
same_key a b = str_eq a.url b.url && (a.reload_token == b.reload_token)

-- A fetch as its closure has it: the key of its run of the effect, and the run's `ignore`.
pub record EffectRun : Type 0 where
  pub key : Key
  pub ignore : Bool

pub record State (T : Type 0) : Type 0 where
  pub url : Option String
  pub reload_token : ℕ
  pub shown : Option T
  pub error : Option ApiError
  pub completed_key : Option Key
  pub last_success_at_ms : Option ℕ
  -- the fetches that the effect has started, the last first
  pub runs : List EffectRun

-- What a fetch comes to.
pub data Settled (T : Type 0) : Type 0 where
  succeeded : T → Settled T
  rejected : ApiError → Settled T

pub data Event (T : Type 0) : Type 0 where
  -- the component renders with this url
  renders : Option String → Event T
  reload : Event T
  -- the fetch with this number, counted from 0, settles
  settles : (run : ℕ) → Settled T → (now_ms : ℕ) → Event T

abbrev pub key_of : Option String → ℕ → Option Key
key_of none token = none
key_of (some url) token =
    if str_eq url "" then none else some (record { url = url; reload_token = token })

abbrev pub changed : Option Key → Option Key → Bool
changed none none = false
changed (some a) (some b) = not (same_key a b)
changed _ _ = true

abbrev pub is_pending : Option Key → Option Key → Bool
is_pending (some now) none = true
is_pending (some now) (some last) = not (same_key last now)
is_pending none last = false

-- The effect's cleanup. Without a key the effect starts no fetch and has no cleanup, but then the
-- last fetch is ignored already.
abbrev pub clean_up : List EffectRun → List EffectRun
clean_up [] = []
clean_up (r ∷ rs) = record r { ignore = true } ∷ rs

-- `if (!key || !url) return`, and the fetch.
abbrev pub start : Option Key → List EffectRun → List EffectRun
start none rs = rs
start (some k) rs = record { key = k; ignore = false } ∷ rs

abbrev pub run_at : ℕ → List EffectRun → Option EffectRun
run_at i [] = none
run_at i (r ∷ rs) = if i == length rs then some r else run_at i rs

module _ {T : Type 0} where
  abbrev pub initial : Option String → State T
  initial url = record {
    url = url;
    reload_token = 0;
    shown = none;
    error = none;
    completed_key = none;
    last_success_at_ms = none;
    runs = start (key_of url 0) [];
  }

  abbrev pub key : State T → Option Key
  key s = key_of s.url s.reload_token

  -- When its key has changed, the effect is cleaned up and runs again.
  abbrev pub rerun : State T → State T → State T
  rerun before after =
      if changed (key before) (key after)
      then record after { runs = start (key after) (clean_up after.runs) }
      else after

  abbrev pub complete : Key → Settled T → ℕ → State T → State T
  complete k (succeeded value) now_ms s = record s {
    shown = some value;
    error = none;
    completed_key = some k;
    last_success_at_ms = some now_ms;
  }
  complete k (rejected e) now_ms s = record s { error = some e; completed_key = some k }

  abbrev pub with_url : Option String → State T → State T
  with_url url s = record s { url = url }

  -- `setReloadToken((t) => t + 1)`.
  abbrev pub reloaded : State T → State T
  reloaded s = record s { reload_token = s.reload_token + 1 }

  -- What a fetch does when it settles.
  abbrev pub settle : Option EffectRun → Settled T → ℕ → State T → State T
  settle none outcome now_ms s = s
  settle (some r) outcome now_ms s = if not r.ignore then complete r.key outcome now_ms s else s

  unfoldable pub step : State T → Event T → State T
  step s (renders url) = rerun s (with_url url s)
  step s reload = rerun s (reloaded s)
  step s (settles run outcome now_ms) = settle (run_at run s.runs) outcome now_ms s

  -- `!!key && completedKey !== key`.
  abbrev pub refreshing : State T → Bool
  refreshing s = is_pending (key s) s.completed_key

  abbrev pub has_data : Option T → Bool
  has_data none = false
  has_data (some value) = true

  abbrev pub loading : State T → Bool
  loading s = refreshing s && not (has_data s.shown)
