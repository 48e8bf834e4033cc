-- ===== src/Dashboard/Auth/Roster/Roles.antt =====
-- The role that an address gets, against what the contracts answered.
use Prim.Native.String.{String}
use text.Mathlib.Text.{◌==◌ as str_eq}
use text.Mathlib.TextEquality.{eq_iff}
use refluo.Prelude.Result.{Result, ok, err, Holds, Holds-then, Holds-ok}
use refluo.Prelude.{
  ℕ, ◌<◌, ◌≡◌, refl, ap, ◌∙◌, Bool, true, false, ◌&&◌, Option, none, some, List, get_elem?, any,
  any-at, any-of_at, arith,
}
use refluo.Rpc.Retry.{
  Outcome, succeeds, gives_up, with_retry-Outcome, dashboard_with_retry-with_retry,
}
use refluo.Dashboard.Auth.{
  DashboardRole, admin, guardian, Codec, Answers, admin_role, guardian_role, resolve_dashboard_role,
}
use refluo.Dashboard.Overview.{Signer, is_delegated, ContextRule}
use refluo.Dashboard.Auth.Roster.{
  attempts, r_admin_context_rule_id, Contracts, retried, signs_as, is_vault_admin, is_guardian,
  with_contracts,
}

-- The answer of some attempt.
abbrev pub Answered : {A : Type 0} → (ℕ → Result A) → A → Type 0
Answered fn a = (round : ℕ) × (round < 4) × (fn round ≡ ok a)

module _ {T : Type 0} (contracts : Contracts T) where
  Outcome-Answered :
      {A : Type 0} (fn : ℕ → Result A) {run : Result A × ℕ}
      → Outcome fn 0 attempts run
      → Holds (Answered fn) run.0
  Outcome-Answered fn (succeeds k a h l f s) = (k, omega arith, s)
  Outcome-Answered fn (gives_up m pauses f h) = tt

  retried-Answered : {A : Type 0} (fn : ℕ → Result A) → Holds (Answered fn) (retried contracts fn)
  retried-Answered fn =
      rw ((dashboard_with_retry-with_retry fn attempts (omega arith)).0)
        (Outcome-Answered fn (with_retry-Outcome fn attempts))

  -- The admin rule of the vault, and the guardians' roster, as some attempt has read them.
  pub record ReadsAdmins (rule : ContextRule) : Type 0 where
    pub assembled : T
    pub asked : Answered (contracts.get_context_rule 0) assembled
    pub simulated : Answered (contracts.simulate_rule assembled) rule

  pub record ReadsGuardians (roster : List String) : Type 0 where
    pub assembled : T
    pub asked : Answered contracts.guardians assembled
    pub simulated : Answered (contracts.simulate_guardians assembled) roster

  module _ (address : String) where
    -- The address is among the rule's delegated signers, and on the roster.
    abbrev pub Signs : ContextRule → Type 0
    Signs rule =
        (i : ℕ) × (signer : Signer) × (get_elem? rule.signers i ≡ some signer)
        × (signer.tag ≡ "Delegated")
        × (signer.value ≡ address)

    abbrev pub Guards : List String → Type 0
    Guards roster = (i : ℕ) × (get_elem? roster i ≡ some address)

    -- A test that decides a statement.
    abbrev Tests : Type 0 → Bool → Type 0
    Tests P b = ((b ≡ true) → P) × (P → (b ≡ true))

    Tests-false : {P : Type 0} {b : Bool} → Tests P b → b ≡ false → ¬ P
    Tests-false (to, from) e p = absurd (cc (from p))

    any-Signs :
        (rule : ContextRule) → Tests (Signs rule) (any (signs_as contracts address) rule.signers)
    any-Signs rule = (
      λ h.
          let (i, l, signer, e, both) = any-at (signs_as contracts address) rule.signers h in
          let (delegated, same) =
            and_both (is_delegated signer) (str_eq signer.value address) both in
          (
            i,
            signer,
            e,
            (eq_iff signer.tag "Delegated").0 delegated,
            (eq_iff signer.value address).0 same,
          ),
      λ (i, signer, e, tag, value).
          let delegated : is_delegated signer ≡ true = (eq_iff signer.tag "Delegated").1 tag in
          let same : str_eq signer.value address ≡ true = (eq_iff signer.value address).1 value in
          any-of_at (signs_as contracts address) rule.signers i e (rw (delegated, same) refl),
    )
      where
        and_both : (a b : Bool) → a && b ≡ true → (a ≡ true) × (b ≡ true)
        and_both a b h = ground arith

    any-Guards : (roster : List String) → Tests (Guards roster) (any (λ g. str_eq g address) roster)
    any-Guards roster = (
      λ h.
          let (i, l, g, e, same) = any-at (λ g. str_eq g address) roster h in
          (i, e ∙ ap some ((eq_iff g address).0 same)),
      λ (i, e). any-of_at (λ g. str_eq g address) roster i e ((eq_iff address address).1 refl),
    )

    is_vault_admin-Reads :
        Holds
          (λ b. (rule : ContextRule) × ReadsAdmins rule × Tests (Signs rule) b)
          (is_vault_admin contracts address)
    unfolding is_vault_admin
    is_vault_admin-Reads =
        Holds-then _ (retried contracts (contracts.get_context_rule r_admin_context_rule_id)) _
          (λ assembled asked.
            Holds-then _ (retried contracts (contracts.simulate_rule assembled)) _
              (λ rule simulated. (
                rule,
                record {
                  assembled = assembled;
                  asked = Holds-ok _ _ (retried-Answered _) asked;
                  simulated = Holds-ok _ _ (retried-Answered _) simulated;
                },
                any-Signs rule,
              )))

    is_guardian-Reads :
        Holds
          (λ b. (roster : List String) × ReadsGuardians roster × Tests (Guards roster) b)
          (is_guardian contracts address)
    unfolding is_guardian
    is_guardian-Reads = Holds-then _ (retried contracts contracts.guardians) _ (λ assembled asked.
        Holds-then _ (retried contracts (contracts.simulate_guardians assembled)) _
          (λ roster simulated. (
            roster,
            record {
              assembled = assembled;
              asked = Holds-ok _ _ (retried-Answered _) asked;
              simulated = Holds-ok _ _ (retried-Answered _) simulated;
            },
            any-Guards roster,
          )))

    -- What a role rests on.
    pub record IsAdmin : Type 0 where
      pub rule : ContextRule
      pub read : ReadsAdmins rule
      pub listed : Signs rule

    pub record IsNoAdmin : Type 0 where
      pub rule : ContextRule
      pub read : ReadsAdmins rule
      pub unlisted : ¬ Signs rule

    pub record IsGuardian : Type 0 where
      pub roster : List String
      pub read : ReadsGuardians roster
      pub listed : Guards roster

    pub record IsNoGuardian : Type 0 where
      pub roster : List String
      pub read : ReadsGuardians roster
      pub unlisted : ¬ Guards roster

    abbrev pub Rests : Option DashboardRole → Type 0
    Rests (some admin) = IsAdmin
    Rests (some guardian) = IsNoAdmin × IsGuardian
    Rests none = IsNoAdmin × IsNoGuardian

    module _ (codec : Codec) (answers : Answers) where
      guardian_role-Rests :
          (r : Result Bool)
          → is_guardian contracts address ≡ r
          → IsNoAdmin
          → Holds Rests (guardian_role codec (with_contracts contracts answers) r)
      guardian_role-Rests (err m) e h = tt
      guardian_role-Rests (ok true) e h =
          let (roster, read, tests) = Holds-ok _ _ is_guardian-Reads e in
          (h, record { roster = roster; read = read; listed = tests.0 refl })
      guardian_role-Rests (ok false) e h =
          let (roster, read, tests) = Holds-ok _ _ is_guardian-Reads e in
          (h, record { roster = roster; read = read; unlisted = Tests-false tests refl })

      admin_role-Rests :
          (r : Result Bool)
          → is_vault_admin contracts address ≡ r
          → Holds Rests (admin_role codec (with_contracts contracts answers) r address)
      admin_role-Rests (err m) e = tt
      admin_role-Rests (ok true) e =
          let (rule, read, tests) = Holds-ok _ _ is_vault_admin-Reads e in
          record { rule = rule; read = read; listed = tests.0 refl }
      admin_role-Rests (ok false) e =
          let (rule, read, tests) = Holds-ok _ _ is_vault_admin-Reads e in
          guardian_role-Rests (is_guardian contracts address) refl
            (record { rule = rule; read = read; unlisted = Tests-false tests refl })

      -- Whatever the contracts answer in the rounds of the retries, a role that is resolved rests on
      -- an answer of one of the four attempts: admin on a rule 0 with the address among its
      -- delegated signers, guardian on a rule 0 without it and a roster with it, and none on a rule
      -- 0 and a roster without it.
      pub resolve_dashboard_role-Rests :
          Holds Rests (resolve_dashboard_role codec (with_contracts contracts answers) address)
      unfolding resolve_dashboard_role
      resolve_dashboard_role-Rests = admin_role-Rests (is_vault_admin contracts address) refl
