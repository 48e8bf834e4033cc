-- ===== src/Dashboard/Checklist.antt =====
-- dashboard/src/lib/onboardingChecklist.ts, formatAmount.ts, and what OnboardingChecklistPanel.tsx
-- makes of them. `Intl.NumberFormat` and the printing of a count are parameters.
pub mod Ready
use Prim.Native.String.{String, ◌++◌}
use text.Mathlib.Text.{◌==◌ as str_eq}
use refluo.Prelude.Double.{Double}
use refluo.Prelude.{
  ℕ, Bool, true, false, not, ◌&&◌, Option, none, some, List, [], ◌∷◌, length, any, leb, ◌==◌,
  if◌then◌else◌, ℤ, pos, leb_ℤ,
}
use refluo.Dashboard.Auth.{DashboardRole, admin, guardian}
use refluo.Dashboard.GuardianPanel.{GuardianPanelData}
use refluo.Dashboard.Overview.{
  VaultOverview, ContextRuleSummary, RiskProfileLabel, conservative, balanced, aggressive, custom,
}

abbrev pub stroops_per_unit : ℕ
stroops_per_unit = 10_000_000

pub data AssetUnit : Type 0 where
  usdc xlm : AssetUnit

abbrev pub unit_name : AssetUnit → String
unit_name usdc = "USDC"
unit_name xlm = "XLM"

pub record ChecklistItem : Type 0 where
  pub key : String
  pub label : String
  pub passed : Bool
  pub detail : String

abbrev pub profile_name : RiskProfileLabel → String
profile_name conservative = "Conservative"
profile_name balanced = "Balanced"
profile_name aggressive = "Aggressive"
profile_name custom = "Custom"

abbrev pub agent_context_rule_name : String
agent_context_rule_name = "R_AGENT_PAY"

abbrev pub has_snapshot : {S : Type 0} → Option S → Bool
has_snapshot none = false
has_snapshot (some snapshot) = true

abbrev pub is_agent_rule : ContextRuleSummary → Bool
is_agent_rule rule = str_eq rule.name agent_context_rule_name

module _ (d : Double) (number_format : (maximum_fraction_digits : ℕ) → d.Num → String)
    (print : ℕ → String) where
  abbrev pub with_unit : String → Option AssetUnit → String
  with_unit formatted none = formatted
  with_unit formatted (some unit) = formatted ++ " " ++ unit_name unit

  pub format_stroops : ℤ → Option AssetUnit → (maximum_fraction_digits : ℕ) → String
  format_stroops raw unit maximum_fraction_digits =
      with_unit
        (number_format maximum_fraction_digits
          (d.div (d.from_int raw) (d.from_int (pos stroops_per_unit))))
        unit

  abbrev pub plural : ℕ → String
  plural n = if n == 1 then "" else "s"

  unfoldable pub evaluate_go_live_checklist :
      {S : Type 0} → VaultOverview → GuardianPanelData → Option S → List ChecklistItem
  evaluate_go_live_checklist overview panel snapshot =
      record {
        key = "tier0Funded";
        label = "Tier 0 funded above the critical floor";
        passed = leb_ℤ overview.critical_floor overview.usdc_balance;
        detail =
            format_stroops overview.usdc_balance (some usdc) 2
            ++ " / "
            ++ format_stroops overview.critical_floor (some usdc) 2
            ++ " (USDC balance / critical floor)";
      }
      ∷ record {
        key = "guardianConfigured";
        label = "At least one guardian configured";
        passed = leb 1 (length panel.guardians);
        detail =
            print (length panel.guardians)
            ++ " guardian"
            ++ plural (length panel.guardians)
            ++ " registered";
      }
      ∷ record {
        key = "riskProfileSet";
        label = "Risk profile set";
        passed = true;
        detail =
            profile_name overview.risk_profile
            ++ " (RiskEngine reads back a real config, so it's always initialized once the vault exists)";
      }
      ∷ record {
        key = "agentKeyRegistered";
        label = "Agent key(s) registered and scoped";
        passed = any is_agent_rule overview.context_rules;
        detail =
            if any is_agent_rule overview.context_rules
            then agent_context_rule_name ++ " context rule installed"
            else "No " ++ agent_context_rule_name ++ " context rule found";
      }
      ∷ record {
        key = "slaTelemetryReachable";
        label = "SLA telemetry endpoint reachable";
        passed = has_snapshot snapshot;
        detail =
            if has_snapshot snapshot
            then "Reporter loop snapshot found"
            else "No snapshot yet — run `npm run reporter:once` in keeper/";
      }
      ∷ []

-- `items.every((i) => i.passed)`.
abbrev pub every_passed : List ChecklistItem → Bool
every_passed [] = true
every_passed (i ∷ items) = i.passed && every_passed items

-- What the panel's three fetches hold.
pub record Fetches (S : Type 0) : Type 0 where
  pub vault_overview : Option VaultOverview
  pub guardian_panel : Option GuardianPanelData
  -- `{snapshot}`, where it has come
  pub telemetry : Option (Option S)

module _ (d : Double) (number_format : (maximum_fraction_digits : ℕ) → d.Num → String)
    (print : ℕ → String) where
  abbrev pub items_from :
      {S : Type 0}
      → Option VaultOverview
      → Option GuardianPanelData
      → Option (Option S)
      → Option (List ChecklistItem)
  items_from none panel telemetry = none
  items_from (some overview) none telemetry = none
  items_from (some overview) (some panel) none = none
  items_from (some overview) (some panel) (some snapshot) =
      some (evaluate_go_live_checklist d number_format print overview panel snapshot)

  -- What the panel shows: a skeleton, a request to sign in as an admin, or the checklist.
  pub data PanelView : Type 0 where
    skeleton sign_in_as_admin : PanelView
    checklist : Option (List ChecklistItem) → PanelView

  abbrev pub for_role : {S : Type 0} → Option DashboardRole → Fetches S → PanelView
  for_role none fetches = sign_in_as_admin
  for_role (some guardian) fetches = sign_in_as_admin
  for_role (some admin) fetches =
      checklist (items_from fetches.vault_overview fetches.guardian_panel fetches.telemetry)

  unfoldable pub onboarding_checklist_panel :
      {S : Type 0} → (auth_loading : Bool) → Option DashboardRole → Fetches S → PanelView
  onboarding_checklist_panel auth_loading role fetches =
      if auth_loading then skeleton else for_role role fetches

  -- Whether the panel says "Ready to activate."
  abbrev pub says_ready : PanelView → Bool
  says_ready skeleton = false
  says_ready sign_in_as_admin = false
  says_ready (checklist none) = false
  says_ready (checklist (some items)) = every_passed items
