-- ===== src/Tests/PauseHistory.antt =====
-- Examples for the incidents page: a pause, a second one on top of it, an extension, and an early
-- resume.
use Prim.Native.String.{String}
use refluo.Prelude.Result.{Result, ok}
use refluo.Prelude.{ℕ, ◌≡◌, ◌≤◌, refl, true, false, some, none, List, [], ◌∷◌, any, map}
use native.Mathlib.Omega.{arith}
use refluo.Rpc.Pages.{Position, Page, last}
use refluo.Dashboard.PauseHistory.{
  PauseEpisode, resumed_early, superseded, paused, resumed, ContractEvent, raw_event,
  reconstruct_pause_history, fetch_pause_history,
}
use refluo.Dashboard.PauseHistory.Contract.{
  Call, pause, extend, resume_early as resume, events_of, status_at, status, state_after,
}
use refluo.Dashboard.PauseHistory.Refine.{spans, IsRun}
use refluo.Dashboard.GuardianPanel.{fetch_guardian_panel_data}
use refluo.Dashboard.GuardianPanel.Expiry.{expiries, expiry_at, fetch_guardian_panel_data-status}
use refluo.Dashboard.PauseHistory.Disjoint.{spanning, reconstruct_pause_history-spanning}
use refluo.Dashboard.PauseHistory.Fetch.{fetch_pause_history-status_at}

abbrev calls : List Call
calls = pause 1_000 ∷ pause 5_000 ∷ extend 6_000 ∷ resume 9_000 ∷ []

calls-IsRun : IsRun 0 none calls
calls-IsRun =
    (omega arith, tt, (omega arith, tt, (omega arith, tt, (omega arith, (λ h. omega arith), tt))))

reconstruct_pause_history-spanning_example :
    spanning 5_500 (
      reconstruct_pause_history
        (paused 1_000 "Guardian" 260_200 ∷ paused 5_000 "Guardian" 264_200 ∷ resumed 9_000 ∷ [])
        20_000)
    ≤ 1
reconstruct_pause_history-spanning_example =
    reconstruct_pause_history-spanning
      (paused 1_000 "Guardian" 260_200 ∷ paused 5_000 "Guardian" 264_200 ∷ resumed 9_000 ∷ [])
      20_000 5_500 (omega arith, (omega arith, (omega arith, tt)))

abbrev event : (name : String) (at extensions_used pause_expiry : ℕ) → ContractEvent
event name at used expiry = record {
  topic_name = name;
  at_seconds = at;
  trigger = "Guardian";
  extensions_used = used;
  pause_expiry = expiry;
}

abbrev events : List ContractEvent
events =
    event "paused" 1_000 0 260_200
    ∷ event "paused" 5_000 0 264_200
    ∷ event "extended" 6_000 1 265_200
    ∷ event "resumed" 9_000 0 0
    ∷ []

-- The server holds them in one page.
abbrev server : Position → Result (Page ContractEvent)
server at = ok (record { events = events; next = "" })

fetch_pause_history-status_at_example :
    (episodes : List PauseEpisode) × (fetch_pause_history server 10_000 20_000 1 (ok 50_000)
      ≡ some (ok episodes))
    × ((t : ℕ) → any (spans t) episodes ≡ status_at none calls t)
unfolding events_of
fetch_pause_history-status_at_example =
    fetch_pause_history-status_at server 10_000 20_000 50_000 1 0 events calls
      (last (record { events = events; next = "" }) refl refl) refl calls-IsRun

-- The page shows the first pause as superseded and the second as resumed early, newest first.
shows_newest_first :
    map (λ e. e.resolution) (reconstruct_pause_history (map raw_event events) 20_000)
    ≡ resumed_early ∷ superseded ∷ []
unfolding reconstruct_pause_history
shows_newest_first = refl

-- A pause that is resumed behind its expiry is shown as paused up to that resume.
late_resume :
    (status_at none (pause 1_000 ∷ resume 300_000 ∷ []) 280_000 ≡ false)
    × (any
          (spans 280_000)
          (reconstruct_pause_history (events_of none (pause 1_000 ∷ resume 300_000 ∷ [])) 400_000)
        ≡ true)
unfolding status_at events_of reconstruct_pause_history
late_resume = (refl, refl)

abbrev unextended : List Call
unextended = pause 1_000 ∷ resume 3_000 ∷ pause 5_000 ∷ []

abbrev expiry_server : Position → Result (Page ℕ)
expiry_server at = ok (record { events = 260_200 ∷ 264_200 ∷ []; next = "" })

fetch_guardian_panel_data-status_example :
    let s = state_after none unextended in
    fetch_guardian_panel_data expiry_server 10_000 1 "CHEALTH"
      (ok (status s 6_000))
      (ok ("GA" ∷ []))
      (ok 50_000)
    ≡ some (
        ok (record {
          health_monitor_id = "CHEALTH";
          is_paused = status s 6_000;
          pause_expiry_seconds = expiry_at s 6_000;
          guardians = "GA" ∷ [];
        }))
unfolding events_of
fetch_guardian_panel_data-status_example =
    fetch_guardian_panel_data-status expiry_server 10_000 50_000 1 0 6_000 "CHEALTH" ("GA" ∷ [])
      unextended (last (record { events = 260_200 ∷ 264_200 ∷ []; next = "" }) refl refl) tt

-- Behind an extension the last Paused event has the old expiry.
extension_is_not_shown :
    (expiries (events_of none (pause 1_000 ∷ extend 9_000 ∷ [])) ≡ 260_200 ∷ [])
    × (expiry_at (state_after none (pause 1_000 ∷ extend 9_000 ∷ [])) 9_500 ≡ some 268_200)
unfolding events_of state_after
extension_is_not_shown = (refl, refl)
