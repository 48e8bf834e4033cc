-- ===== src/Sdk/SmartAccount/Entries.antt =====
-- What is submitted on behalf of a vault, and when.
use Prim.Native.String.{String}
use refluo.Prelude.Result.{Holds, Holds-ok, Result, ok, err}
use refluo.Prelude.Effects.{Adds, Adds-none, Adds-one, Adds-call}
use refluo.Prelude.{ℕ, ◌≤◌, ◌<◌, ◌≡◌, refl, sym, ◌∙◌, List, [], ◌∷◌, length, keep, All, arith}
use refluo.Rpc.Retry.{Outcome, succeeds, gives_up, with_retry-Outcome}
use refluo.Sdk.SmartAccount.{Xdr}
use refluo.Sdk.SmartAccount.Submit.{
  AuthEntry, Simulation, simulation_error, simulated, Chain, Params, vault_entries, only_entry,
  attempts, signed_entries, retried, simulation_of, simulate, final_tx, submit_with, valid_until,
  authorize_and_submit, with_co_signers, submit, landed, authorize_and_send_smart_account_call,
}
use refluo.Sdk.SmartAccount.Signed.{
  is_own, vault_entries-keep, only_entry-only, IsSigned, signed_entries-IsSigned,
}

module _ {V T K S : Type 0} (xdr : Xdr V) (chain : Chain V T K S) (params : Params T K) where
  -- The answer of some attempt.
  abbrev pub Answered : {A : Type 0} → (ℕ → Result A) → A → Type 0
  Answered fn a = (round : ℕ) × (round < attempts) × (fn round ≡ ok a)

  -- A transaction that may be submitted: the caller's, simulated without error, with just the
  -- signed entries of the vault's only entry attached, simulated again without error with those,
  -- assembled from that second simulation and signed by the source.
  pub record IsAuthorized (tx : T) : Type 0 where
    pub sequence : ℕ
    pub initial_sim : S
    pub simulated_first :
        Answered (chain.simulate_transaction params.unsigned_tx) (simulated initial_sim)
    pub vault_entry : AuthEntry V
    pub only_own :
        keep
          (is_own params.vault_address)
          (chain.auth (chain.assemble params.unsigned_tx initial_sim))
        ≡ vault_entry ∷ []
    pub entries : List (AuthEntry V)
    pub signed :
        IsSigned xdr chain params vault_entry (valid_until xdr chain params sequence) entries
    pub final_sim : S
    pub simulated_again :
        Answered
          (chain.simulate_transaction (chain.with_auth params.unsigned_tx entries))
          (simulated final_sim)
    pub is_final :
        tx ≡ final_tx xdr chain params (chain.with_auth params.unsigned_tx entries) final_sim

  Outcome-Answered :
      {A : Type 0} (fn : ℕ → Result A) {run : Result A × ℕ}
      → Outcome fn 0 attempts run
      → Holds (Answered fn) run.0
  Outcome-Answered fn (succeeds k a h l f s) = (k, omega arith, s)
  Outcome-Answered fn (gives_up m pauses f h) = tt

  simulation_of-Answered :
      (what : String) (fn : ℕ → Result (Simulation S)) (r : Result (Simulation S))
      → Holds (Answered fn) r
      → Holds (λ s. Answered fn (simulated s)) (simulation_of xdr chain params what r)
  simulation_of-Answered what fn (err m) h = tt
  simulation_of-Answered what fn (ok (simulation_error m)) h = tt
  simulation_of-Answered what fn (ok (simulated s)) h = h

  simulate-Answered :
      (what : String) (tx : T) {s : S}
      → simulate xdr chain params what tx ≡ ok s
      → Answered (chain.simulate_transaction tx) (simulated s)
  simulate-Answered what tx h =
      let fn = chain.simulate_transaction tx in
      Holds-ok _ (simulate xdr chain params what tx)
        (simulation_of-Answered what fn _ (Outcome-Answered fn (with_retry-Outcome fn attempts))) h

  -- The transactions that were submitted are the state itself.
  abbrev log : List T → List T
  log sent = sent

  submit_with-Adds :
      (entries : List (AuthEntry V)) (sent : List T)
      → ((s : S)
          → Answered
              (chain.simulate_transaction (chain.with_auth params.unsigned_tx entries))
              (simulated s)
          → IsAuthorized (final_tx xdr chain params (chain.with_auth params.unsigned_tx entries) s))
      → Adds log IsAuthorized 1 sent (submit_with xdr chain params entries sent).1
  submit_with-Adds entries sent h =
      let trial = chain.with_auth params.unsigned_tx entries in
      Adds-call log IsAuthorized 1 sent
        (simulate xdr chain params "authorized-call simulation failed" trial) _
        (λ s again.
          Adds-one log IsAuthorized 0 sent _ (final_tx xdr chain params trial s) refl
            (h s (simulate-Answered _ trial again)))

  only_entry-vault_entries :
      (es own : List (AuthEntry V)) {e : AuthEntry V}
      → vault_entries params.vault_address es ≡ ok own
      → only_entry own ≡ ok e
      → keep (is_own params.vault_address) es ≡ e ∷ []
  only_entry-vault_entries es own filtered only =
      sym (
        Holds-ok _ (vault_entries params.vault_address es)
          (vault_entries-keep params.vault_address es) filtered)
      ∙ Holds-ok _ (only_entry own) (only_entry-only own) only

  authorize_and_submit-Adds :
      (sent : List T) → Adds log IsAuthorized 1 sent (authorize_and_submit xdr chain params sent).1
  authorize_and_submit-Adds sent =
      Adds-call log IsAuthorized 1 sent (retried xdr chain params chain.get_latest_ledger) _
        (λ sequence known.
          Adds-call log IsAuthorized 1 sent
            (simulate xdr chain params "initial simulation failed" params.unsigned_tx) _
            (λ initial_sim first.
              let es = chain.auth (chain.assemble params.unsigned_tx initial_sim) in
              Adds-call log IsAuthorized 1 sent (vault_entries params.vault_address es) _
                (λ own filtered. Adds-call log IsAuthorized 1 sent (only_entry own) _ (λ e only.
                  let until = valid_until xdr chain params sequence in
                  Adds-call log IsAuthorized 1 sent (signed_entries xdr chain params e until) _
                    (λ entries attached. submit_with-Adds entries sent (λ final_sim again. record {
                      sequence = sequence;
                      initial_sim = initial_sim;
                      simulated_first = simulate-Answered _ params.unsigned_tx first;
                      vault_entry = e;
                      only_own = only_entry-vault_entries es own filtered only;
                      entries = entries;
                      signed =
                          Holds-ok (IsSigned xdr chain params e until)
                            (signed_entries xdr chain params e until)
                            (signed_entries-IsSigned xdr chain params e until) attached;
                      final_sim = final_sim;
                      simulated_again = again;
                      is_final = refl;
                    }))))))

  with_co_signers-Adds :
      (ks : List K)
      → Adds log IsAuthorized 1 [] (with_co_signers xdr chain params ks []).1
        × (ks ≡ [] → (with_co_signers xdr chain params ks []).1 ≡ [])
  with_co_signers-Adds [] = (Adds-none log IsAuthorized 1 [], λ h. refl)
  with_co_signers-Adds (k ∷ ks) = (authorize_and_submit-Adds [], λ h. absurd (ground arith))

  landed-sent :
      (fuel : ℕ) (out : Result String × List T) → (landed xdr chain params fuel out).1 ≡ out.1
  landed-sent fuel (ok hash, sent) = refl
  landed-sent fuel (err m, sent) = refl

  -- Whatever the server answers, at most one transaction is submitted, none without a co-signer, and
  -- what is submitted is authorized: its entries are the vault's only entry and one signed entry for
  -- each co-signer in turn, all over one digest that covers the rule's id once for each node of the
  -- vault's invocations, and both simulations have ended without error.
  pub authorize_and_send_smart_account_call-IsAuthorized :
      (fuel : ℕ)
      → let submitted = (authorize_and_send_smart_account_call xdr chain params fuel).1 in
        All IsAuthorized submitted
        × (length submitted ≤ 1)
        × (params.co_signers ≡ [] → submitted ≡ [])
  unfolding authorize_and_send_smart_account_call submit
  authorize_and_send_smart_account_call-IsAuthorized fuel =
      let ((xs, added, good, few), none_sent) = with_co_signers-Adds params.co_signers in
      rw (landed-sent fuel (submit xdr chain params []))
        (rw (sym added) at good, rw (sym added) at few, none_sent)
