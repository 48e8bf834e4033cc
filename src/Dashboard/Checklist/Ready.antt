-- ===== src/Dashboard/Checklist/Ready.antt =====
-- When the panel says that a vault is ready to activate.
use Prim.Native.String.{String}
use text.Mathlib.Text.{◌==◌ as str_eq}
use text.Mathlib.TextEquality.{eq_iff}
use refluo.Prelude.Result.{Result, ok, Holds-ok}
use refluo.Prelude.Double.{Double}
use refluo.Prelude.{
  ℕ, ◌<◌, ◌≡◌, refl, sym, ap, ◌∙◌, Bool, true, false, ◌&&◌, Option, none, some, List, length, any,
  any-at, any-of_at, leb, arith, ℤ, leb_ℤ, ◌≤ℤ◌,
}
use refluo.Dashboard.Auth.{DashboardRole, admin, guardian}
use refluo.Dashboard.GuardianPanel.{GuardianPanelData}
use refluo.Dashboard.Overview.{
  Reads, Config, ContextRule, summary, VaultOverview, fetch_vault_overview,
}
use refluo.Dashboard.Overview.Rules.{IsOverview, fetch_vault_overview-IsOverview}
use refluo.Dashboard.Checklist.{
  agent_context_rule_name, has_snapshot, is_agent_rule, evaluate_go_live_checklist, Fetches,
  items_from, onboarding_checklist_panel, checklist, says_ready,
}

-- A vault that may go live, as the contracts have it: its balance covers the critical floor, a
-- guardian is on the roster, one of its rules has the agents' name, and the reporter has run.
pub record IsReady {S : Type 0} (reads : Reads) (guardians : List String) (snapshot : Option S)
    : Type 0 where
  pub config : Config
  pub configured : reads.config ≡ ok config
  pub balance : ℤ
  pub held : reads.usdc_balance ≡ ok balance
  pub funded : config.critical_floor ≤ℤ balance
  pub guarded : 0 < length guardians
  pub rule_count : ℕ
  pub counted : reads.rule_count ≡ ok rule_count
  pub id : ℕ
  pub within : id < rule_count
  pub rule : ContextRule
  pub read : reads.get_context_rule id ≡ ok rule
  pub named : rule.name ≡ agent_context_rule_name
  pub reported : has_snapshot snapshot ≡ true

same_ok : {A : Type 0} {r : Result A} {a b : A} → r ≡ ok a → r ≡ ok b → a ≡ b
same_ok e f = cc

module _ {S : Type 0} (reads : Reads) (o : VaultOverview) (seen : IsOverview reads o)
    (panel : GuardianPanelData) (snapshot : Option S) where
  Ready-of_tests :
      leb_ℤ o.critical_floor o.usdc_balance ≡ true
      → leb 1 (length panel.guardians) ≡ true
      → any is_agent_rule o.context_rules ≡ true
      → has_snapshot snapshot ≡ true
      → IsReady reads panel.guardians snapshot
  Ready-of_tests f g a s =
      let (i, l, x, e, q) = any-at is_agent_rule o.context_rules a in
      let (rule, found, listed) = seen.each i (rw (sym seen.as_many) l) in
      record {
        config = seen.config;
        configured = seen.configured;
        balance = o.usdc_balance;
        held = seen.balance;
        funded = let floor = seen.floor in ground arith;
        guarded = ground arith;
        rule_count = seen.rule_count;
        counted = seen.counted;
        id = i;
        within = rw (sym seen.as_many) l;
        rule = rule;
        read = found;
        named =
            let same : x ≡ summary rule = cc in
            (eq_iff rule.name agent_context_rule_name).0 (rw (same) at q);
        reported = s;
      }

  tests-of_Ready :
      IsReady reads panel.guardians snapshot
      → (leb_ℤ o.critical_floor o.usdc_balance ≡ true)
        × (leb 1 (length panel.guardians) ≡ true)
        × (any is_agent_rule o.context_rules ≡ true)
        × (has_snapshot snapshot ≡ true)
  tests-of_Ready r =
      let same_config : seen.config ≡ r.config = same_ok seen.configured r.configured in
      let same_balance : o.usdc_balance ≡ r.balance = same_ok seen.balance r.held in
      let same_count : seen.rule_count ≡ r.rule_count = same_ok seen.counted r.counted in
      let floor : o.critical_floor ≡ r.config.critical_floor =
        seen.floor ∙ ap (λ c. c.critical_floor) same_config in
      let (rule, found, listed) = seen.each r.id (rw (same_count) (r.within)) in
      let same_rule : rule ≡ r.rule = same_ok found r.read in
      let agents : str_eq rule.name agent_context_rule_name ≡ true =
        (eq_iff rule.name agent_context_rule_name).1 (ap (λ c. c.name) same_rule ∙ r.named) in
      (
        rw (floor, same_balance) (funded r.config.critical_floor r.balance r.funded),
        let guarded = r.guarded in ground arith,
        any-of_at is_agent_rule o.context_rules r.id listed agents,
        r.reported,
      )
    where
      funded : (a b : ℤ) → a ≤ℤ b → leb_ℤ a b ≡ true
      funded a b h = ground arith

all_four :
    (a b c e : Bool)
    → a && (b && (true && (c && (e && true)))) ≡ true
    → (a ≡ true) × (b ≡ true) × (c ≡ true) × (e ≡ true)
all_four a b c e h = ground arith

-- All three fetches have come.
abbrev pub AllLoaded :
    {S : Type 0} → Option VaultOverview → Option GuardianPanelData → Option (Option S) → Type 0
AllLoaded overview panel telemetry =
    ((o : VaultOverview) × (overview ≡ some o))
    × ((p : GuardianPanelData) × (panel ≡ some p))
    × ((s : Option _) × (telemetry ≡ some s))

loaded :
    (d : Double) (number_format : ℕ → d.Num → String) (print : ℕ → String) {S : Type 0}
    (overview : Option VaultOverview) (panel : Option GuardianPanelData)
    (telemetry : Option (Option S))
    → says_ready d number_format print
        (checklist (items_from d number_format print overview panel telemetry))
      ≡ true
    → AllLoaded overview panel telemetry
loaded d number_format print none panel telemetry h = absurd (ground arith)
loaded d number_format print (some o) none telemetry h = absurd (ground arith)
loaded d number_format print (some o) (some p) none h = absurd (ground arith)
loaded d number_format print (some o) (some p) (some s) h = ((o, refl), (p, refl), (s, refl))

-- For an admin whose panel holds an overview that was read from the contracts, the guardians' panel
-- and the reporter's answer, the panel says that the vault is ready exactly when the contracts'
-- balance covers their critical floor, a guardian is on the roster, some rule under an id below the
-- vault's count of rules is named R_AGENT_PAY, and there is a snapshot; whoever else it is shown to,
-- or while one of the three is missing, it does not say so.
pub onboarding_checklist_panel-IsReady :
    (d : Double) (number_format : ℕ → d.Num → String) (print : ℕ → String) {S : Type 0}
    (reads : Reads) (vault_address : String) (o : VaultOverview) (panel : GuardianPanelData)
    (snapshot : Option S)
    → fetch_vault_overview vault_address reads ≡ ok o
    → let says = λ (role : Option DashboardRole) (fetches : Fetches S).
      says_ready d number_format print
        (onboarding_checklist_panel d number_format print false role fetches) in
      let full : Fetches S = record {
        vault_overview = some o;
        guardian_panel = some panel;
        telemetry = some snapshot;
      } in
      (says (some admin) full ≡ true → IsReady reads panel.guardians snapshot)
      × (IsReady reads panel.guardians snapshot → says (some admin) full ≡ true)
      × ((fetches : Fetches S) → says none fetches ≡ false)
      × ((fetches : Fetches S) → says (some guardian) fetches ≡ false)
      × ((fetches : Fetches S)
          → says (some admin) fetches ≡ true
          → AllLoaded fetches.vault_overview fetches.guardian_panel fetches.telemetry)
unfolding onboarding_checklist_panel evaluate_go_live_checklist
onboarding_checklist_panel-IsReady d number_format print reads vault_address o panel snapshot read =
    let seen : IsOverview reads o =
      Holds-ok (IsOverview reads) (fetch_vault_overview vault_address reads)
        (fetch_vault_overview-IsOverview vault_address reads) read in
    (
      λ h.
          let (f, g, a, s) = all_four _ _ _ _ h in
          Ready-of_tests reads o seen panel snapshot f g a s,
      λ r. let (f, g, a, s) = tests-of_Ready reads o seen panel snapshot r in rw (f, g, a, s) refl,
      λ fetches. refl,
      λ fetches. refl,
      λ fetches h. loaded d number_format print _ _ _ h,
    )
