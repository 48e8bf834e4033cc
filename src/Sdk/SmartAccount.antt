-- ===== src/Sdk/SmartAccount.antt =====
-- sdk/src/smartAccountAuth.ts: the values that authorize a call through a smart account's vault, as
-- the Stellar SDK builds them: `Xdr`, a parameter, has its values and their bytes. The flow of the
-- call stands in Submit.
pub mod Submit
pub mod Payload
pub mod Signed
pub mod Entries
pub mod Poll
use Prim.Native.String.{String}
use refluo.Prelude.Sort.{sort_by}
use refluo.Prelude.{ℕ, ◌+◌, Bool, true, false, List, [], ◌∷◌, map, ltb, if◌then◌else◌, ◌==◌}

abbrev pub Bytes : Type 0
Bytes = List ℕ

-- `xdr.ScVal`: its constructors that are used, and `toXDR`.
pub record Xdr (V : Type 0) : Type 0 where
  pub scv_vec : List V → V
  pub scv_symbol : String → V
  pub scv_address : String → V
  pub scv_u32 : ℕ → V
  pub scv_bytes : Bytes → V
  pub scv_map : List (V × V) → V
  pub to_xdr : V → Bytes

-- `Buffer.compare(a, b) <= 0`.
abbrev pub bytes_before : Bytes → Bytes → Bool
bytes_before [] ys = true
bytes_before (x ∷ xs) [] = false
bytes_before (x ∷ xs) (y ∷ ys) =
    let rest = bytes_before xs ys in if ltb x y then true else if x == y then rest else false

module _ {V : Type 0} (xdr : Xdr V) where
  abbrev pub delegated_signer_sc_val : String → V
  delegated_signer_sc_val address =
      xdr.scv_vec (xdr.scv_symbol "Delegated" ∷ xdr.scv_address address ∷ [])

  -- The source keeps a key's bytes beside it while it sorts.
  abbrev pub key_before : V → V → Bool
  key_before a b = bytes_before (xdr.to_xdr a) (xdr.to_xdr b)

  abbrev pub signer_entry : V → V × V
  signer_entry key = (key, xdr.scv_bytes [])

  abbrev pub signers_map : List String → List (V × V)
  signers_map addresses =
      map signer_entry (sort_by key_before (map delegated_signer_sc_val addresses))

  unfoldable pub build_auth_payload_sc_val : V → List String → V
  build_auth_payload_sc_val context_rule_ids addresses = xdr.scv_map (
      (xdr.scv_symbol "context_rule_ids", context_rule_ids)
      ∷ (xdr.scv_symbol "signers", xdr.scv_map (signers_map addresses))
      ∷ [])

-- What an invocation calls: a contract's function, or to create a contract.
pub data AuthorizedFunction (V : Type 0) : Type 0 where
  contract_fn : (contract_address function_name : String) (args : List V) → AuthorizedFunction V
  create_contract : V → AuthorizedFunction V

mutual
  pub data Invocation (V : Type 0) : Type 0 where
    invocation : AuthorizedFunction V → Invocations V → Invocation V

  pub data Invocations (V : Type 0) : Type 0 where
    nil : Invocations V
    cons : Invocation V → Invocations V → Invocations V

unfoldable mutual
  pub count_invocation_nodes : {V : Type 0} → Invocation V → ℕ
  count_invocation_nodes (invocation f subs) = 1 + count_sub_nodes subs

  -- The sum over `subInvocations()`.
  pub count_sub_nodes : {V : Type 0} → Invocations V → ℕ
  count_sub_nodes nil = 0
  count_sub_nodes (cons sub subs) = count_invocation_nodes sub + count_sub_nodes subs
