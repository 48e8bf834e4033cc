-- ===== src/Sdk/SmartAccount/Submit.antt =====
-- sdk/src/smartAccountAuth.ts: authorizeAndSendSmartAccountCall. The Stellar SDK and the RPC server
-- are a parameter, `Chain`; a server's call is a function from the retry's round to its answer.
use Prim.Native.String.{String}
use text.Mathlib.Text.{◌==◌ as str_eq}
use refluo.Prelude.Result.{Result, ok, err, M, ◌>>=◌, ◌>>◌, throw, call, modify, and_then}
use refluo.Prelude.{
  ℕ, zero, suc, ◌+◌, ℤ, Option, none, some, List, [], ◌∷◌, ◌++◌, map, or_else, if◌then◌else◌,
}
use refluo.Rpc.Retry.{with_retry}
use refluo.Sdk.SmartAccount.{
  Bytes, Xdr, build_auth_payload_sc_val, contract_fn, Invocation, invocation, nil,
  count_invocation_nodes,
}

-- An entry that an address signs, or one that the transaction's own source authorizes.
pub data Credentials (V : Type 0) : Type 0 where
  source_account : Credentials V
  address_credentials :
      (address : String) (nonce : ℤ) (signature_expiration_ledger : ℕ) (signature : V)
      → Credentials V

pub record AuthEntry (V : Type 0) : Type 0 where
  pub credentials : Credentials V
  pub root_invocation : Invocation V

pub data Simulation (S : Type 0) : Type 0 where
  simulation_error : String → Simulation S
  simulated : S → Simulation S

-- Any status but ERROR is taken for accepted.
pub data SendStatus : Type 0 where
  send_error : String → SendStatus
  queued : (hash : String) → SendStatus

pub data TxStatus : Type 0 where
  not_found success failed : TxStatus

pub record GetTransaction : Type 0 where
  pub status : TxStatus
  pub json : String

-- The Stellar SDK: `T` is a transaction, `K` a key pair, `S` what a simulation finds.
pub record Chain (V T K S : Type 0) : Type 0 where
  pub public_key : K → String
  pub hash : Bytes → Bytes
  -- the preimage that `authorizeEntry` gives its signer, where it comes that far
  pub preimage : AuthEntry V → ℕ → Option Bytes
  pub authorize_entry : AuthEntry V → K → ℕ → Result (AuthEntry V)
  pub random_nonce : ℕ → ℤ
  pub auth : T → List (AuthEntry V)
  pub with_auth : T → List (AuthEntry V) → T
  pub assemble : T → S → T
  pub sign : T → K → T
  pub get_latest_ledger : ℕ → Result ℕ
  pub simulate_transaction : T → ℕ → Result (Simulation S)
  pub send_transaction : T → ℕ → Result SendStatus
  pub get_transaction : String → (poll : ℕ) → ℕ → Result GetTransaction

pub record Params (T K : Type 0) : Type 0 where
  pub vault_address : String
  pub context_rule_id : ℕ
  pub unsigned_tx : T
  pub co_signers : List K
  pub source_keypair : K
  pub valid_until_ledger_seq : Option ℕ

abbrev pub default_valid_ledgers : ℕ
default_valid_ledgers = 100

abbrev pub repeat : {A : Type 0} → ℕ → A → List A
repeat zero a = []
repeat (suc n) a = a ∷ repeat n a

module _ {V : Type 0} where
  -- The address of an entry's credentials; the SDK throws where there is none.
  abbrev pub address_of : AuthEntry V → Result String
  address_of e = elim e.credentials [
    | source_account ↦ err "address not set"
    | address_credentials address nonce until signature ↦ ok address
  ]

  -- `.filter` by the vault's address.
  abbrev pub push_own :
      String
      → AuthEntry V
      → Result (List (AuthEntry V))
      → Result String
      → Result (List (AuthEntry V))
  push_own vault e rest (err m) = err m
  push_own vault e (err m) (ok address) = err m
  push_own vault e (ok es) (ok address) = if str_eq address vault then ok (e ∷ es) else ok es

  abbrev pub vault_entries : String → List (AuthEntry V) → Result (List (AuthEntry V))
  vault_entries vault [] = ok []
  vault_entries vault (e ∷ es) = push_own vault e (vault_entries vault es) (address_of e)

  abbrev pub only_entry : List (AuthEntry V) → Result (AuthEntry V)
  only_entry (e ∷ []) = ok e
  only_entry _ = err "expected exactly one auth entry for the vault"

  -- The vault's entry with the expiry and the signature set.
  abbrev pub filled_entry : ℕ → V → AuthEntry V → AuthEntry V
  filled_entry until payload e = record e {
    credentials = elim e.credentials [
      | source_account ↦ source_account
      | address_credentials address nonce old signature ↦
          address_credentials address nonce until payload
    ];
  }

abbrev pub attempts : ℕ
attempts = 5

-- The state is the list of the transactions that were handed to `sendTransaction`.
module _ {V T K S : Type 0} (xdr : Xdr V) (chain : Chain V T K S) (params : Params T K) where
  abbrev pub context_rule_ids : AuthEntry V → V
  context_rule_ids e =
      xdr.scv_vec
        (repeat (count_invocation_nodes e.root_invocation) (xdr.scv_u32 params.context_rule_id))

  abbrev pub auth_digest : Bytes → V → Bytes
  auth_digest signature_payload ids = chain.hash (signature_payload ++ xdr.to_xdr ids)

  abbrev pub signature_payload : AuthEntry V → ℕ → Result Bytes
  signature_payload e until = elim (chain.preimage e until) [
    | none ↦ err "failed to compute signature_payload for the vault's auth entry"
    | some preimage ↦ ok (chain.hash preimage)
  ]

  abbrev pub check_auth_invocation : Bytes → Invocation V
  check_auth_invocation digest =
      invocation (contract_fn params.vault_address "__check_auth" (xdr.scv_bytes digest ∷ [])) nil

  -- The entry of the co-signer at an index, before it is signed.
  abbrev pub synthetic_entry : Bytes → ℕ → K → AuthEntry V
  synthetic_entry digest i co_signer = record {
    credentials =
        address_credentials (chain.public_key co_signer) (chain.random_nonce i) 0 (xdr.scv_vec []);
    root_invocation = check_auth_invocation digest;
  }

  abbrev pub co_signer_entries : Bytes → ℕ → ℕ → List K → Result (List (AuthEntry V))
  co_signer_entries digest until i [] = ok []
  co_signer_entries digest until i (k ∷ ks) =
      let rest = co_signer_entries digest until (i + 1) ks in
      and_then (chain.authorize_entry (synthetic_entry digest i k) k until)
        (λ e. and_then rest (λ es. ok (e ∷ es)))

  abbrev pub vault_payload : AuthEntry V → V
  vault_payload e =
      build_auth_payload_sc_val xdr (context_rule_ids e) (map chain.public_key params.co_signers)

  -- Steps 2 to 4: the entries that are attached.
  unfoldable pub signed_entries : AuthEntry V → ℕ → Result (List (AuthEntry V))
  signed_entries e until = and_then (signature_payload e until) (λ payload.
      and_then
        (co_signer_entries (auth_digest payload (context_rule_ids e)) until 0 params.co_signers)
        (λ es. ok (filled_entry until (vault_payload e) e ∷ es)))

  abbrev pub retried : {A : Type 0} → (ℕ → Result A) → Result A
  retried fn = (with_retry fn attempts).0

  abbrev pub simulation_of : String → Result (Simulation S) → Result S
  simulation_of what (err m) = err m
  simulation_of what (ok (simulation_error m)) = err what
  simulation_of what (ok (simulated s)) = ok s

  abbrev pub simulate : String → T → Result S
  simulate what tx = simulation_of what (retried (chain.simulate_transaction tx))

  abbrev pub accepted : Result SendStatus → Result String
  accepted (err m) = err m
  accepted (ok (send_error m)) = err "send failed"
  accepted (ok (queued hash)) = ok hash

  abbrev pub final_tx : T → S → T
  final_tx trial s = chain.sign (chain.assemble trial s) params.source_keypair

  -- Step 5, up to the server's first answer: the transaction's hash.
  abbrev pub submit_with : List (AuthEntry V) → M (List T) String
  submit_with entries =
      let trial = chain.with_auth params.unsigned_tx entries in
      do
        final_sim ← call (simulate "authorized-call simulation failed" trial)
        modify (λ sent. sent ++ final_tx trial final_sim ∷ [])
        call (accepted (retried (chain.send_transaction (final_tx trial final_sim))))

  abbrev pub valid_until : ℕ → ℕ
  valid_until sequence = or_else params.valid_until_ledger_seq (sequence + default_valid_ledgers)

  abbrev pub authorize_and_submit : M (List T) String
  authorize_and_submit = do
    sequence ← call (retried chain.get_latest_ledger)
    initial_sim ← call (simulate "initial simulation failed" params.unsigned_tx)
    own ← call (
        vault_entries params.vault_address
          (chain.auth (chain.assemble params.unsigned_tx initial_sim)))
    e ← call (only_entry own)
    entries ← call (signed_entries e (valid_until sequence))
    submit_with entries

  -- The guard on the co-signers.
  abbrev pub with_co_signers : List K → M (List T) String
  with_co_signers [] = throw "authorizeAndSendSmartAccountCall requires at least one co-signer"
  with_co_signers (k ∷ ks) = authorize_and_submit

  unfoldable pub submit : M (List T) String
  submit = with_co_signers params.co_signers

  -- The loop until the transaction is found, from poll `i` on; `none`: the fuel ran out.
  unfoldable pub poll : (fuel : ℕ) → ℕ → String → Option (Result GetTransaction)
  poll zero i hash = none
  poll (suc fuel) i hash = elim (retried (chain.get_transaction hash i)) [
    | err m ↦ some (err m)
    | ok r ↦
        let later = poll fuel (i + 1) hash in
        elim r.status [
          | not_found ↦ later
          | success ↦ some (ok r)
          | failed ↦ some (err "transaction failed on-chain")
        ]
  ]

  abbrev pub landed : ℕ → Result String × List T → Option (Result GetTransaction) × List T
  landed fuel (err m, sent) = (some (err m), sent)
  landed fuel (ok hash, sent) = (poll fuel 0 hash, sent)

  -- The answer, and what was submitted.
  unfoldable pub authorize_and_send_smart_account_call : ℕ → Option (Result GetTransaction) × List T
  authorize_and_send_smart_account_call fuel = landed fuel (submit [])
