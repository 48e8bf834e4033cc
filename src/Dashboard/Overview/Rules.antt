-- ===== src/Dashboard/Overview/Rules.antt =====
-- What an overview shows, against the vault.
use Prim.Native.String.{String}
use refluo.Prelude.Result.{Result, ok, Holds, Holds-then, Holds-ok}
use refluo.Prelude.{
  ℕ, zero, suc, ◌+◌, ◌<◌, ◌≡◌, refl, ap, ◌∙◌, some, List, ◌∷◌, length, get_elem?, arith,
}
use refluo.Dashboard.Overview.{
  ContextRule, ContextRuleSummary, summary, context_rules_from, Config, Reads, VaultOverview,
  risk_profile_of, fetch_vault_overview, decode_system_state,
}

-- The rules of `n` ids from `id` on, one after the other.
record Lists (get : ℕ → Result ContextRule) (n id : ℕ) (rules : List ContextRuleSummary)
    : Type 0 where
  as_many : length rules ≡ n
  each :
      (i : ℕ)
      → i < n
      → (rule : ContextRule) × (get (id + i) ≡ ok rule) × (get_elem? rules i ≡ some (summary rule))

Lists-cons :
    (get : ℕ → Result ContextRule) (n id : ℕ) (rule : ContextRule) (rules : List ContextRuleSummary)
    → get id ≡ ok rule
    → Lists get n (id + 1) rules
    → Lists get (suc n) id (summary rule ∷ rules)
Lists-cons get n id rule rules e h = record { as_many = ap suc h.as_many; each = λ i l. at i l }
  where
    shift : (i : ℕ) → id + suc i ≡ id + 1 + i
    shift i = omega arith

    start : id + 0 ≡ id
    start = omega arith

    at :
        (i : ℕ)
        → i < suc n
        → (r : ContextRule) × (get (id + i) ≡ ok r)
          × (get_elem? (summary rule ∷ rules) i ≡ some (summary r))
    at zero l = (rule, ap get start ∙ e, refl)
    at (suc i) l =
        let (r, found, listed) = h.each i (omega arith) in (r, ap get (shift i) ∙ found, listed)

context_rules_from-Lists :
    (get : ℕ → Result ContextRule) (n id : ℕ) → Holds (Lists get n id) (context_rules_from get n id)
context_rules_from-Lists get zero id = record { as_many = refl; each = λ i l. absurd (omega arith) }
context_rules_from-Lists get (suc n) id =
    Holds-then (Lists get (suc n) id) (get id) _ (λ rule found.
      Holds-then (Lists get (suc n) id) (context_rules_from get n (id + 1)) _ (λ rules rest.
        Lists-cons get n id rule rules found (
          Holds-ok (Lists get n (id + 1)) (context_rules_from get n (id + 1))
            (context_rules_from-Lists get n (id + 1)) rest)))

from_zero :
    (get : ℕ → Result ContextRule) (rules : List ContextRuleSummary) (i : ℕ)
    → (rule : ContextRule) × (get (0 + i) ≡ ok rule) × (get_elem? rules i ≡ some (summary rule))
    → (rule : ContextRule) × (get i ≡ ok rule) × (get_elem? rules i ≡ some (summary rule))
from_zero get rules i (rule, found, listed) =
    let same : i ≡ 0 + i = omega arith in (rule, ap get same ∙ found, listed)

-- An overview of what was read: the vault's rules under the ids from 0 up to their count, each as
-- the vault has it.
pub record IsOverview (reads : Reads) (o : VaultOverview) : Type 0 where
  pub config : Config
  pub configured : reads.config ≡ ok config
  pub profile : o.risk_profile ≡ risk_profile_of config
  pub floor : o.critical_floor ≡ config.critical_floor
  pub balance : reads.usdc_balance ≡ ok o.usdc_balance
  pub rule_count : ℕ
  pub counted : reads.rule_count ≡ ok rule_count
  pub as_many : length o.context_rules ≡ rule_count
  pub each :
      (id : ℕ)
      → id < rule_count
      → (rule : ContextRule) × (reads.get_context_rule id ≡ ok rule)
        × (get_elem? o.context_rules id ≡ some (summary rule))

-- An overview that is returned shows just the rules with the ids from 0 up to the vault's count of
-- rules, each as the vault has it: when the vault has none under one of these ids, as behind the
-- removal of a rule that is not the last, the overview fails.
pub fetch_vault_overview-IsOverview :
    (vault_address : String) (reads : Reads)
    → Holds (IsOverview reads) (fetch_vault_overview vault_address reads)
unfolding fetch_vault_overview
fetch_vault_overview-IsOverview vault_address reads =
    Holds-then (IsOverview reads) reads.state _ (λ state s.
      Holds-then (IsOverview reads) reads.tier_state _ (λ tier_state t.
        Holds-then (IsOverview reads) reads.config _ (λ config c.
          Holds-then (IsOverview reads) reads.usdc_balance _ (λ usdc_balance u.
            Holds-then (IsOverview reads) reads.xlm_balance _ (λ xlm_balance x.
              Holds-then (IsOverview reads) reads.rule_count _ (λ rule_count n.
                Holds-then (IsOverview reads)
                  (context_rules_from reads.get_context_rule rule_count 0) _
                  (λ rules listed.
                    Holds-then (IsOverview reads) (decode_system_state reads state) _ (λ name d.
                      let shown : Lists reads.get_context_rule rule_count 0 rules =
                        Holds-ok _ (context_rules_from reads.get_context_rule rule_count 0)
                          (context_rules_from-Lists reads.get_context_rule rule_count 0) listed in
                      record {
                        config = config;
                        configured = c;
                        profile = refl;
                        floor = refl;
                        balance = u;
                        rule_count = rule_count;
                        counted = n;
                        as_many = shown.as_many;
                        each = λ id l. from_zero reads.get_context_rule rules id (shown.each id l);
                      }))))))))
