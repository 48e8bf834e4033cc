-- ===== src/Tests/SmartAccount.antt =====
-- Examples for a call through a smart account, with values that are their own bytes.
use Prim.Native.String.{String}
use mathlib.Core.List.Perm
use text.Mathlib.Text.{◌==◌ as str_eq}
use refluo.Prelude.Result.{ok}
use refluo.Prelude.{
  ℕ, zero, suc, ◌≡◌, ◌≤◌, ◌<◌, arith, refl, pos, some, none, List, [], ◌∷◌, ◌++◌, All, length,
  if◌then◌else◌,
}
use refluo.Rpc.Retry.{with_retry}
use refluo.Sdk.SmartAccount.{
  Bytes, Xdr, build_auth_payload_sc_val, contract_fn, Invocation, invocation, nil, cons,
}
use refluo.Sdk.SmartAccount.Payload.{build_auth_payload_sc_val-Perm}
use refluo.Sdk.SmartAccount.Submit.{
  AuthEntry, address_credentials, simulated, queued, not_found, success, GetTransaction, Chain,
  Params, submit, signed_entries, poll, authorize_and_send_smart_account_call,
}
use refluo.Sdk.SmartAccount.Entries.{
  IsAuthorized, authorize_and_send_smart_account_call-IsAuthorized,
}
use refluo.Sdk.SmartAccount.Poll.{IsAwaited, lands, poll-Ends_at}

abbrev joined : List Bytes → Bytes
joined [] = []
joined (x ∷ xs) = x ++ joined xs

abbrev joined_pairs : List (Bytes × Bytes) → Bytes
joined_pairs [] = []
joined_pairs ((k, v) ∷ es) = k ++ v ++ joined_pairs es

abbrev xdr : Xdr Bytes
xdr = record {
  scv_vec = joined;
  scv_symbol = λ s. 7 ∷ [];
  scv_address = λ s. (if str_eq s "GA" then 1 else 2) ∷ [];
  scv_u32 = λ n. n ∷ [];
  scv_bytes = λ b. b;
  scv_map = joined_pairs;
  to_xdr = λ v. v;
}

build_auth_payload_sc_val-Perm_example :
    build_auth_payload_sc_val xdr (0 ∷ []) ("GB" ∷ "GA" ∷ [])
    ≡ build_auth_payload_sc_val xdr (0 ∷ []) ("GA" ∷ "GB" ∷ [])
build_auth_payload_sc_val-Perm_example =
    build_auth_payload_sc_val-Perm xdr (0 ∷ []) ("GB" ∷ "GA" ∷ []) ("GA" ∷ "GB" ∷ []) (λ a b h. h)
      (Perm.swap "GA" "GB" [])

-- The router's call, with the token's transfer below it.
abbrev swap : Invocation Bytes
swap =
    invocation (contract_fn "CROUTER" "swap" [])
      (cons (invocation (contract_fn "CTOKEN" "transfer" []) nil) nil)

abbrev vault_entry : AuthEntry Bytes
vault_entry = record {
  credentials = address_credentials "CVAULT" (pos 3) 0 [];
  root_invocation = swap;
}

abbrev answer_at : ℕ → GetTransaction
answer_at zero = record { status = not_found; json = "" }
answer_at (suc n) = record { status = success; json = "{}" }

-- A transaction is the list of its entries; the first simulation finds the vault's.
abbrev assembled : List (AuthEntry Bytes) → List (AuthEntry Bytes)
assembled [] = vault_entry ∷ []
assembled (e ∷ es) = e ∷ es

abbrev chain : Chain Bytes (List (AuthEntry Bytes)) String (Unit {0})
chain = record {
  public_key = λ k. k;
  hash = λ b. 9 ∷ b;
  preimage = λ e until. some (until ∷ []);
  authorize_entry = λ e k until. ok e;
  random_nonce = λ i. pos i;
  auth = λ tx. tx;
  with_auth = λ tx es. es;
  assemble = λ tx s. assembled tx;
  sign = λ tx k. tx;
  get_latest_ledger = λ round. ok 50;
  simulate_transaction = λ tx round. ok (simulated tt);
  send_transaction = λ tx round. ok (queued "hash");
  get_transaction = λ hash poll round. ok (answer_at poll);
}

abbrev params : Params (List (AuthEntry Bytes)) String
params = record {
  vault_address = "CVAULT";
  context_rule_id = 4;
  unsigned_tx = [];
  co_signers = "GB" ∷ "GA" ∷ [];
  source_keypair = "GA";
  valid_until_ledger_seq = none;
}

authorize_and_send_smart_account_call-IsAuthorized_example :
    let submitted = (authorize_and_send_smart_account_call xdr chain params 2).1 in
    All (IsAuthorized xdr chain params) submitted
    × (length submitted ≤ 1)
    × (params.co_signers ≡ [] → submitted ≡ [])
authorize_and_send_smart_account_call-IsAuthorized_example =
    authorize_and_send_smart_account_call-IsAuthorized xdr chain params 2

-- One transaction is submitted in this run, with three entries.
submits_once :
    let (answer, submitted) = authorize_and_send_smart_account_call xdr chain params 2 in
    (answer ≡ some (ok (answer_at 1))) × (length submitted ≡ 1)
unfolding authorize_and_send_smart_account_call submit signed_entries poll with_retry
submits_once = (refl, refl)

poll-Ends_at_example : poll xdr chain params 2 0 "hash" ≡ some (ok (answer_at 1))
poll-Ends_at_example =
    poll-Ends_at xdr chain params "hash" 1 0 (ok (answer_at 1)) first_poll
      (lands (answer_at 1) (0, omega arith, (λ l h. absurd (omega arith)), refl) refl)
  where
    first_poll : (j : ℕ) → j < 1 → IsAwaited xdr chain params "hash" j
    first_poll j h =
        let start : 0 ≡ j = omega arith in
        rw (← start) (answer_at 0, (0, omega arith, (λ l h. absurd (omega arith)), refl), refl)

abbrev silent : Chain Bytes (List (AuthEntry Bytes)) String (Unit {0})
silent = record chain { get_transaction = λ hash poll round. ok (answer_at 0) }
