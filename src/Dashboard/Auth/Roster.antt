-- ===== src/Dashboard/Auth/Roster.antt =====
-- dashboard/src/lib/auth/authorization.ts: the reads of the contracts behind a role, with their
-- retries. The generated clients are a parameter: a call is first assembled and then simulated.
pub mod Roles
use Prim.Native.String.{String}
use text.Mathlib.Text.{◌==◌ as str_eq}
use refluo.Prelude.Result.{Result, ok, err, and_then}
use refluo.Prelude.{ℕ, Bool, ◌&&◌, List, any}
use refluo.Rpc.Retry.{dashboard_with_retry}
use refluo.Dashboard.Auth.{Answers}
use refluo.Dashboard.Overview.{Signer, ContextRule, is_delegated}

abbrev pub attempts : ℕ
attempts = 4

abbrev pub r_admin_context_rule_id : ℕ
r_admin_context_rule_id = 0

-- What each round of a call answers; `T` is an assembled call.
pub record Contracts (T : Type 0) : Type 0 where
  pub get_context_rule : ℕ → (round : ℕ) → Result T
  pub simulate_rule : T → (round : ℕ) → Result ContextRule
  pub guardians : (round : ℕ) → Result T
  pub simulate_guardians : T → (round : ℕ) → Result (List String)

module _ {T : Type 0} (contracts : Contracts T) where
  abbrev pub retried : {A : Type 0} → (ℕ → Result A) → Result A
  retried fn = (dashboard_with_retry fn attempts).0

  abbrev pub signs_as : String → Signer → Bool
  signs_as address signer = is_delegated signer && str_eq signer.value address

  pub is_vault_admin : String → Result Bool
  is_vault_admin address =
      and_then (retried (contracts.get_context_rule r_admin_context_rule_id)) (λ assembled.
        and_then (retried (contracts.simulate_rule assembled))
          (λ rule. ok (any (signs_as address) rule.signers)))

  pub is_guardian : String → Result Bool
  is_guardian address = and_then (retried contracts.guardians) (λ assembled.
      and_then (retried (contracts.simulate_guardians assembled))
        (λ roster. ok (any (λ guardian. str_eq guardian address) roster)))

  -- The answers of a request whose roles come from the contracts.
  abbrev pub with_contracts : Answers → Answers
  with_contracts answers = record answers {
    is_vault_admin = is_vault_admin;
    is_guardian = is_guardian;
  }
