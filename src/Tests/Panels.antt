-- ===== src/Tests/Panels.antt =====
-- Examples for the dashboard's panels: an overview of two rules, and a resource whose url changes
-- while a fetch is on its way.
use refluo.Prelude.Result.{ok, err, Holds}
use Prim.Native.String.{String}
use refluo.Prelude.{
  Option, true, false, ℕ, ◌≡◌, ◌↔◌, refl, pos, some, none, List, [], ◌∷◌, if◌then◌else◌, ltb,
}
use refluo.Dashboard.Overview.{
  balanced, VaultOverview, summary, ContextRule, Reads, fetch_vault_overview,
  derive_risk_profile_label,
}
use refluo.Dashboard.Overview.Rules.{IsOverview, fetch_vault_overview-IsOverview}
use refluo.Prelude.Maps.{set_has}
use refluo.Dashboard.Auth.{DashboardRole, admin, guardian}
use refluo.Dashboard.Checklist.{Fetches, onboarding_checklist_panel, says_ready}
use refluo.Dashboard.Checklist.Ready.{IsReady, AllLoaded, onboarding_checklist_panel-IsReady}
use refluo.Dashboard.GuardianPanel.{GuardianPanelData}
use refluo.Tests.Numbers.{whole}
use refluo.Dashboard.Resource.{Key, succeeded, Event, renders, settles, step, refreshing}
use refluo.Dashboard.Resource.Runs.{run, Brought, run-Brought}

abbrev named : String → ℕ → ContextRule
named name id = record {
  id = id;
  name = name;
  valid_until = none;
  signers = record { tag = "Delegated"; value = "GA" } ∷ [];
  policies = [];
}

abbrev rule : ℕ → ContextRule
rule = named "R_ADMIN"

abbrev reads : Reads
reads = record {
  state = ok 0;
  tier_state = ok (record { tier0_target = pos 5; tier1_positions = [] });
  config =
      ok (record {
        preemptive_util_bps = 8_500;
        full_drain_util_bps = 9_200;
        critical_floor = pos 1;
      });
  usdc_balance = ok (pos 7);
  xlm_balance = ok (pos 9);
  rule_count = ok 2;
  get_context_rule = λ id. if ltb id 2 then ok (rule id) else err "no such rule";
  system_state_name = λ raw. some "Normal";
}

fetch_vault_overview-IsOverview_example :
    Holds (IsOverview reads) (fetch_vault_overview "CVAULT" reads)
fetch_vault_overview-IsOverview_example = fetch_vault_overview-IsOverview "CVAULT" reads

-- Rule 0 has been removed: the count is 1 again, and the overview fails.
abbrev removed : Reads
removed = record reads {
  rule_count = ok 1;
  get_context_rule = λ id. if ltb 0 id then ok (rule id) else err "no such rule";
}

fails_after_a_removal : fetch_vault_overview "CVAULT" removed ≡ err "no such rule"
unfolding fetch_vault_overview
fails_after_a_removal = refl

-- The last event first: the fetch for /a settles after the panel has gone on to /b.
abbrev events : List (Event ℕ)
events = settles 1 (succeeded 20) 700 ∷ settles 0 (succeeded 10) 600 ∷ renders (some "/b") ∷ []

abbrev b_key : Key
b_key = record { url = "/b"; reload_token = 0 }

run-Brought_example :
    ((refreshing (run (some "/a") events) ≡ false)
      × ((run (some "/a") events).error ≡ none)
      × ((run (some "/a") events).shown ≡ some 20))
    ↔ Brought (some "/a") events b_key 20
unfolding step
run-Brought_example = run-Brought (some "/a") events b_key 20 refl

-- The answer for /b came first: that for /a, which settles behind it, changes nothing.
abbrev overtaken : List (Event ℕ)
overtaken = settles 0 (succeeded 10) 700 ∷ settles 1 (succeeded 20) 600 ∷ renders (some "/b") ∷ []

ignores_the_old_url :
    ((run (some "/a") events).shown ≡ some 20) × ((run (some "/a") overtaken).shown ≡ some 20)
unfolding step
ignores_the_old_url = (refl, refl)

-- A vault with its agents' rule, and what the panel has of it.
abbrev ready : Reads
ready = record reads { get_context_rule = λ id. ok (named "R_AGENT_PAY" id) }

abbrev overview : VaultOverview
overview = record {
  vault_address = "CVAULT";
  system_state = "Normal";
  tier0_target = pos 5;
  tier1_positions = [];
  usdc_balance = pos 7;
  xlm_balance = pos 9;
  context_rules = summary (named "R_AGENT_PAY" 0) ∷ summary (named "R_AGENT_PAY" 1) ∷ [];
  risk_profile = balanced;
  critical_floor = pos 1;
}

abbrev guardian_panel : GuardianPanelData
guardian_panel = record {
  health_monitor_id = "CHEALTH";
  is_paused = false;
  pause_expiry_seconds = none;
  guardians = "GGUARD" ∷ [];
}

ready_overview : fetch_vault_overview "CVAULT" ready ≡ ok overview
unfolding fetch_vault_overview derive_risk_profile_label set_has
ready_overview = refl

onboarding_checklist_panel-IsReady_example :
    let says = λ (role : Option DashboardRole) (fetches : Fetches ℕ).
      says_ready whole
        (λ digits amount. "7")
        (λ n. "1")
        (onboarding_checklist_panel whole (λ digits amount. "7") (λ n. "1") false role fetches) in
    let full : Fetches ℕ = record {
      vault_overview = some overview;
      guardian_panel = some guardian_panel;
      telemetry = some (some 3);
    } in
    (says (some admin) full ≡ true → IsReady {S = ℕ} ready ("GGUARD" ∷ []) (some 3))
    × (IsReady {S = ℕ} ready ("GGUARD" ∷ []) (some 3) → says (some admin) full ≡ true)
    × ((fetches : Fetches ℕ) → says none fetches ≡ false)
    × ((fetches : Fetches ℕ) → says (some guardian) fetches ≡ false)
    × ((fetches : Fetches ℕ)
        → says (some admin) fetches ≡ true
        → AllLoaded fetches.vault_overview fetches.guardian_panel fetches.telemetry)
onboarding_checklist_panel-IsReady_example =
    onboarding_checklist_panel-IsReady whole (λ digits amount. "7") (λ n. "1") ready "CVAULT"
      overview guardian_panel (some 3) ready_overview
