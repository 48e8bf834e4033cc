-- ===== src/Dashboard/Overview.antt =====
-- dashboard/src/lib/contracts/vaultOverview.ts, riskProfile.ts and systemState.ts: the vault as the
-- panels show it. A read of a contract is the answer that it comes to behind its retries; where
-- several reads of one Promise.all fail, the error is that of the first in the list.
pub mod Rules
use Prim.Native.String.{String}
use text.Mathlib.Text.{◌==◌ as str_eq}
use refluo.Prelude.Maps.{string_eq, set_has}
use refluo.Prelude.Result.{Result, ok, err, and_then}
use refluo.Prelude.{
  ℕ, zero, suc, ◌+◌, ℤ, Bool, ◌&&◌, not, Option, none, some, List, [], ◌∷◌, map, keep, ◌==◌,
  if◌then◌else◌,
}

pub data RiskProfileLabel : Type 0 where
  conservative balanced aggressive custom : RiskProfileLabel

pub record RiskProfileThresholds : Type 0 where
  pub preemptive_util_bps : ℕ
  pub full_drain_util_bps : ℕ

abbrev pub thresholds : ℕ → ℕ → RiskProfileThresholds
thresholds preemptive full_drain = record {
  preemptive_util_bps = preemptive;
  full_drain_util_bps = full_drain;
}

abbrev pub presets : List (RiskProfileLabel × RiskProfileThresholds)
presets =
    (conservative, thresholds 7_500 8_500)
    ∷ (balanced, thresholds 8_500 9_200)
    ∷ (aggressive, thresholds 9_000 9_700)
    ∷ []

abbrev pub first_match :
    List (RiskProfileLabel × RiskProfileThresholds) → RiskProfileThresholds → RiskProfileLabel
first_match [] t = custom
first_match ((label, preset) ∷ rest) t =
    let later = first_match rest t in
    if (preset.preemptive_util_bps == t.preemptive_util_bps)
      && (preset.full_drain_util_bps == t.full_drain_util_bps)
    then label
    else later

unfoldable pub derive_risk_profile_label : RiskProfileThresholds → RiskProfileLabel
derive_risk_profile_label t = first_match presets t

abbrev pub known_keys : List String
known_keys = "Normal" ∷ "PreemptiveDrain" ∷ "Emergency" ∷ "Paused" ∷ []

abbrev pub known_state : Option String → Result String
known_state none = err "RiskEngine returned an unrecognized SystemState value"
known_state (some decoded) =
    if not (set_has decoded known_keys)
    then err "RiskEngine returned an unrecognized SystemState value"
    else ok decoded

-- A signer's tag and its first value.
pub record Signer : Type 0 where
  pub tag : String
  pub value : String

pub record ContextRule : Type 0 where
  pub id : ℕ
  pub name : String
  pub valid_until : Option ℕ
  pub signers : List Signer
  pub policies : List String

pub record ContextRuleSummary : Type 0 where
  pub id : ℕ
  pub name : String
  pub valid_until_ledger : Option ℕ
  pub delegated_signers : List String
  pub policies : List String

abbrev pub is_delegated : Signer → Bool
is_delegated s = str_eq s.tag "Delegated"

abbrev pub summary : ContextRule → ContextRuleSummary
summary rule = record {
  id = rule.id;
  name = rule.name;
  valid_until_ledger = rule.valid_until;
  delegated_signers = map (λ s. s.value) (keep is_delegated rule.signers);
  policies = rule.policies;
}

-- The loop over the ids, `left` of them from `id` on.
abbrev pub context_rules_from :
    (ℕ → Result ContextRule) → (left id : ℕ) → Result (List ContextRuleSummary)
context_rules_from get_context_rule zero id = ok []
context_rules_from get_context_rule (suc left) id =
    let rest = context_rules_from get_context_rule left (id + 1) in
    and_then (get_context_rule id) (λ rule. and_then rest (λ rules. ok (summary rule ∷ rules)))

pub record TierState : Type 0 where
  pub tier0_target : ℤ
  pub tier1_positions : List (String × ℤ)

pub record Config : Type 0 where
  pub preemptive_util_bps : ℕ
  pub full_drain_util_bps : ℕ
  pub critical_floor : ℤ

pub record Reads : Type 0 where
  pub state : Result ℕ
  pub tier_state : Result TierState
  pub config : Result Config
  pub usdc_balance : Result ℤ
  pub xlm_balance : Result ℤ
  pub rule_count : Result ℕ
  pub get_context_rule : ℕ → Result ContextRule
  -- the generated enum's name for a number
  pub system_state_name : ℕ → Option String

abbrev pub decode_system_state : Reads → ℕ → Result String
decode_system_state reads raw = known_state (reads.system_state_name raw)

-- Amounts stay integers; the source prints them in decimal.
pub record VaultOverview : Type 0 where
  pub vault_address : String
  pub system_state : String
  pub tier0_target : ℤ
  pub tier1_positions : List (String × ℤ)
  pub usdc_balance : ℤ
  pub xlm_balance : ℤ
  pub context_rules : List ContextRuleSummary
  pub risk_profile : RiskProfileLabel
  pub critical_floor : ℤ

pub record VaultStatus : Type 0 where
  pub vault_address : String
  pub system_state : String
  pub tier0_target : ℤ
  pub usdc_balance : ℤ
  pub critical_floor : ℤ

abbrev pub risk_profile_of : Config → RiskProfileLabel
risk_profile_of config =
    derive_risk_profile_label (thresholds config.preemptive_util_bps config.full_drain_util_bps)

module _ (vault_address : String) (reads : Reads) where
  unfoldable pub fetch_vault_status : Result VaultStatus
  fetch_vault_status = and_then reads.state (λ state. and_then reads.tier_state (λ tier_state.
      and_then reads.config (λ config. and_then reads.usdc_balance (λ usdc_balance.
        and_then (decode_system_state reads state) (λ system_state. ok (record {
          vault_address = vault_address;
          system_state = system_state;
          tier0_target = tier_state.tier0_target;
          usdc_balance = usdc_balance;
          critical_floor = config.critical_floor;
        }))))))

  -- The last steps, behind the reads.
  abbrev pub overview_of : ℕ → TierState → Config → ℤ → ℤ → ℕ → Result VaultOverview
  overview_of state tier_state config usdc_balance xlm_balance rule_count =
      and_then (context_rules_from reads.get_context_rule rule_count 0) (λ context_rules.
        and_then (decode_system_state reads state) (λ system_state. ok (record {
          vault_address = vault_address;
          system_state = system_state;
          tier0_target = tier_state.tier0_target;
          tier1_positions = tier_state.tier1_positions;
          usdc_balance = usdc_balance;
          xlm_balance = xlm_balance;
          context_rules = context_rules;
          risk_profile = risk_profile_of config;
          critical_floor = config.critical_floor;
        })))

  unfoldable pub fetch_vault_overview : Result VaultOverview
  fetch_vault_overview = and_then reads.state (λ state. and_then reads.tier_state (λ tier_state.
      and_then reads.config (λ config. and_then reads.usdc_balance (λ usdc_balance.
        and_then reads.xlm_balance (λ xlm_balance. and_then reads.rule_count (λ rule_count.
          overview_of state tier_state config usdc_balance xlm_balance rule_count))))))
