-- ===== src/Dashboard/GuardianPanel/Expiry.antt =====
-- The countdown of the guardian panel, against the contract.
use Prim.Native.String.{String}
use mathlib.Core.List.{foldl}
use refluo.Prelude.Result.{Result, ok}
use refluo.Prelude.{
  ℕ, ◌+◌, ◌-◌, max, ◌≡◌, refl, ap, ◌∙◌, Bool, true, false, Option, none, some, List, [], ◌∷◌, arith,
}
use refluo.Rpc.Pages.{Position, start_ledger, Page, Serves, fold_pages-Serves}
use refluo.Dashboard.PauseHistory.{RawEvent, paused, extended, resumed}
use refluo.Dashboard.PauseHistory.Contract.{
  PauseState, Call, pause, extend, resume_early, status, events_of, state_after,
}
use refluo.Dashboard.GuardianPanel.{
  GuardianPanelData, on_paused, fetch_latest_pause_expiry, panel, expiry_if,
  fetch_guardian_panel_data,
}

-- The expiries of the Paused events among some events.
abbrev pub expiries : List RawEvent → List ℕ
expiries [] = []
expiries (paused at trigger expiry ∷ es) = expiry ∷ expiries es
expiries (extended at used expiry ∷ es) = expiries es
expiries (resumed at ∷ es) = expiries es

-- No call extends a pause.
abbrev pub IsUnextended : List Call → Type 0
IsUnextended [] = Unit
IsUnextended (extend now ∷ cs) = ⊥
IsUnextended (pause now ∷ cs) = IsUnextended cs
IsUnextended (resume_early now ∷ cs) = IsUnextended cs

-- The latest expiry is that of a state that is paused.
abbrev Known : Option PauseState → Option ℕ → Type 0
Known none latest = Unit
Known (some s) latest = s.is_paused ≡ true → latest ≡ some s.pause_expiry

events-Known :
    (s : Option PauseState) (latest : Option ℕ) (cs : List Call)
    → Known s latest
    → IsUnextended cs
    → Known (state_after s cs) (foldl on_paused latest (expiries (events_of s cs)))
unfolding state_after events_of
events-Known s latest [] h u = h
events-Known s latest (pause now ∷ cs) h u = events-Known _ _ cs (λ p. refl) u
events-Known s latest (extend now ∷ cs) h u = absurd u
events-Known none latest (resume_early now ∷ cs) h u = events-Known none latest cs h u
events-Known (some s) latest (resume_early now ∷ cs) h u =
    events-Known (some (record s { is_paused = false })) latest cs (λ p. absurd (ground arith)) u

abbrev expiry_when : Bool → PauseState → Option ℕ
expiry_when true s = some s.pause_expiry
expiry_when false s = none

-- The expiry that a state has while it is paused.
abbrev pub expiry_at : Option PauseState → ℕ → Option ℕ
expiry_at none now = none
expiry_at (some s) now = expiry_when (status (some s) now) s

module _ (server : Position → Result (Page ℕ)) (lookback fuel sequence : ℕ) (id : String)
    (guardians : List String) where
  abbrev data_of : Bool → Option ℕ → GuardianPanelData
  data_of on expiry = record {
    health_monitor_id = id;
    is_paused = on;
    pause_expiry_seconds = expiry;
    guardians = guardians;
  }

  panel-expiry_when :
      (on : Bool) (s : PauseState) (latest : Option ℕ)
      → (on ≡ true → latest ≡ some s.pause_expiry)
      → fetch_latest_pause_expiry server lookback fuel (ok sequence) ≡ some (ok latest)
      → panel server lookback fuel id on guardians (expiry_if server lookback fuel on (ok sequence))
        ≡ some (ok (data_of on (expiry_when on s)))
  panel-expiry_when false s latest k read = refl
  panel-expiry_when true s latest k read =
      ap (panel server lookback fuel id true guardians) (read ∙ ap (λ o. some (ok o)) (k refl))

  panel-status :
      (s : Option PauseState) (latest : Option ℕ) (now : ℕ)
      → Known s latest
      → fetch_latest_pause_expiry server lookback fuel (ok sequence) ≡ some (ok latest)
      → panel server lookback fuel id
          (status s now)
          guardians
          (expiry_if server lookback fuel (status s now) (ok sequence))
        ≡ some (ok (data_of (status s now) (expiry_at s now)))
  panel-status none latest now k read = refl
  panel-status (some s) latest now k read =
      panel-expiry_when (status (some s) now) s latest (λ on. k (ground arith)) read

-- If the server's pages from the start of the lookback hold just the expiries of the Paused events
-- of a HealthMonitor that was never paused before, by calls of which none extends a pause, then with
-- fuel for those pages the panel shows the contract's status and, while it is paused, its expiry.
pub fetch_guardian_panel_data-status :
    (server : Position → Result (Page ℕ)) (lookback sequence n extra now : ℕ) (id : String)
    (guardians : List String) (calls : List Call)
    → Serves server
        (max 2 (sequence - lookback))
        n
        (start_ledger (max 2 (sequence - lookback)))
        (expiries (events_of none calls))
    → IsUnextended calls
    → let s = state_after none calls in
      fetch_guardian_panel_data server lookback
        (n + extra)
        id
        (ok (status s now))
        (ok guardians)
        (ok sequence)
      ≡ some (
          ok (record {
            health_monitor_id = id;
            is_paused = status s now;
            pause_expiry_seconds = expiry_at s now;
            guardians = guardians;
          }))
unfolding fetch_guardian_panel_data fetch_latest_pause_expiry
fetch_guardian_panel_data-status server lookback sequence n extra now id guardians calls serves u =
    let start = max 2 (sequence - lookback) in
    panel-status server lookback (n + extra) sequence id guardians (state_after none calls) _ now
      (events-Known none none calls tt u)
      (fold_pages-Serves server start on_paused serves extra none)
