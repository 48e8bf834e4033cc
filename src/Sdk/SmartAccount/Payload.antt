-- ===== src/Sdk/SmartAccount/Payload.antt =====
-- The signature that the vault's entry carries.
use Prim.Native.String.{String}
use mathlib.Core.List.{Perm, Permᴰ}
use mathlib.Core.Logic.{∥∥₁_elim}
use mathlib.Core.Path.{ap₂}
use refluo.Prelude.Sort.{sort_by}
use refluo.Prelude.Canonical.{sort_by-Permᴰ}
use refluo.Prelude.{
  ◌≡◌, refl, ap, true, false, List, [], ◌∷◌, ◌++◌, arith, map, length, length-append,
}
use refluo.Sdk.SmartAccount.{
  Bytes, Xdr, bytes_before, key_before, delegated_signer_sc_val, signer_entry,
  build_auth_payload_sc_val, AuthorizedFunction, Invocation, Invocations, invocation, nil, cons,
  count_invocation_nodes, count_sub_nodes,
}

pub bytes_before_trans :
    (xs ys zs : Bytes)
    → bytes_before xs ys ≡ true
    → bytes_before ys zs ≡ true
    → bytes_before xs zs ≡ true
bytes_before_trans [] ys zs h k = refl
bytes_before_trans (x ∷ xs) [] zs h k = absurd (ground arith)
bytes_before_trans (x ∷ xs) (y ∷ ys) [] h k = absurd (ground arith)
bytes_before_trans (x ∷ xs) (y ∷ ys) (z ∷ zs) h k = ground (arith, bytes_before_trans xs ys zs)

pub bytes_before_total : (xs ys : Bytes) → bytes_before xs ys ≡ false → bytes_before ys xs ≡ true
bytes_before_total [] ys h = absurd (ground arith)
bytes_before_total (x ∷ xs) [] h = refl
bytes_before_total (x ∷ xs) (y ∷ ys) h = ground (arith, bytes_before_total xs ys)

pub bytes_before_antisym :
    (xs ys : Bytes) → bytes_before xs ys ≡ true → bytes_before ys xs ≡ true → xs ≡ ys
bytes_before_antisym [] [] h k = refl
bytes_before_antisym [] (y ∷ ys) h k = absurd (ground arith)
bytes_before_antisym (x ∷ xs) [] h k = absurd (ground arith)
bytes_before_antisym (x ∷ xs) (y ∷ ys) h k =
    let same : x ≡ y = ground arith in
    let before : bytes_before xs ys ≡ true = ground arith in
    let behind : bytes_before ys xs ≡ true = ground arith in
    ap₂ ◌∷◌ same (bytes_before_antisym xs ys before behind)

bytes_set : IsSet Bytes
bytes_set = hlevel

-- Where values with the same bytes are the same, the payload does not depend on the order in which
-- the co-signers are listed.
pub build_auth_payload_sc_val-Perm :
    {V : Type 0} (xdr : Xdr V) (context_rule_ids : V) (addresses others : List String)
    → ((a b : V) → xdr.to_xdr a ≡ xdr.to_xdr b → a ≡ b)
    → Perm addresses others
    → build_auth_payload_sc_val xdr context_rule_ids addresses
      ≡ build_auth_payload_sc_val xdr context_rule_ids others
unfolding build_auth_payload_sc_val
build_auth_payload_sc_val-Perm {V} xdr context_rule_ids addresses others inj p =
    inj _ _ (∥∥₁_elim p (bytes_set _ _) (λ d. ap (λ keys. xdr.to_xdr (payload keys)) (in_order d)))
  where
    payload : List V → V
    payload keys = xdr.scv_map (
        (xdr.scv_symbol "context_rule_ids", context_rule_ids)
        ∷ (xdr.scv_symbol "signers", xdr.scv_map (map (signer_entry xdr) keys))
        ∷ [])

    in_order :
        Permᴰ addresses others
        → sort_by (key_before xdr) (map (delegated_signer_sc_val xdr) addresses)
          ≡ sort_by (key_before xdr) (map (delegated_signer_sc_val xdr) others)
    in_order d =
        sort_by-Permᴰ (key_before xdr)
          (λ a b c h k. bytes_before_trans (xdr.to_xdr a) (xdr.to_xdr b) (xdr.to_xdr c) h k)
          (λ a b h. bytes_before_total (xdr.to_xdr a) (xdr.to_xdr b) h)
          (delegated_signer_sc_val xdr)
          (λ a b h k. inj a b (bytes_before_antisym (xdr.to_xdr a) (xdr.to_xdr b) h k)) d

-- The functions that the nodes of a tree call, the root's first and then each subtree's.
abbrev mutual
  pub nodes : {V : Type 0} → Invocation V → List (AuthorizedFunction V)
  nodes (invocation f subs) = f ∷ sub_nodes subs

  pub sub_nodes : {V : Type 0} → Invocations V → List (AuthorizedFunction V)
  sub_nodes nil = []
  sub_nodes (cons sub subs) = nodes sub ++ sub_nodes subs

mutual
  unfolding count_invocation_nodes

  count-nodes : {V : Type 0} (t : Invocation V) → count_invocation_nodes t ≡ length (nodes t)
  count-nodes (invocation f subs) = omega (arith, count-sub_nodes subs)

  count-sub_nodes : {V : Type 0} (ts : Invocations V) → count_sub_nodes ts ≡ length (sub_nodes ts)
  count-sub_nodes nil = refl
  count-sub_nodes (cons t ts) =
      omega (arith, count-nodes t, count-sub_nodes ts, length-append (nodes t) (sub_nodes ts))

-- An entry's count is the number of the nodes of its tree of invocations.
pub count_invocation_nodes-nodes :
    {V : Type 0} (t : Invocation V) → count_invocation_nodes t ≡ length (nodes t)
count_invocation_nodes-nodes t = count-nodes t
