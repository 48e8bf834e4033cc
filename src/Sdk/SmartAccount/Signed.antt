-- ===== src/Sdk/SmartAccount/Signed.antt =====
-- The entries that go with a call: the vault's only entry and its co-signers' signed ones.
use Prim.Native.String.{String}
use text.Mathlib.Text.{◌==◌ as str_eq}
use refluo.Prelude.Result.{Holds, Holds-then, Holds-ok, Result, ok, err}
use refluo.Prelude.{
  ℕ, ◌+◌, ◌≡◌, refl, sym, ap, ◌∙◌, inl, inr, Bool, true, false, Option, none, some, List, [], ◌∷◌,
  map, length, keep, Bool-cases,
}
use refluo.Sdk.SmartAccount.{Bytes, Xdr}
use refluo.Sdk.SmartAccount.Payload.{nodes, count_invocation_nodes-nodes}
use refluo.Sdk.SmartAccount.Submit.{
  AuthEntry, Chain, Params, repeat, address_of, push_own, vault_entries, only_entry, filled_entry,
  context_rule_ids, auth_digest, signature_payload, synthetic_entry, co_signer_entries,
  vault_payload, signed_entries,
}

abbrev is_own_address : String → Result String → Bool
is_own_address vault (ok address) = str_eq address vault
is_own_address vault (err m) = false

module _ {A : Type 0} (p : A → Bool) (x : A) (xs : List A) where
  keep-hit : p x ≡ true → keep p (x ∷ xs) ≡ x ∷ keep p xs
  keep-hit h = rw (h, keep) refl

  keep-miss : p x ≡ false → keep p (x ∷ xs) ≡ keep p xs
  keep-miss h = rw (h, keep) refl

module _ {V : Type 0} where
  -- The entry is the vault's.
  abbrev pub is_own : String → AuthEntry V → Bool
  is_own vault e = is_own_address vault (address_of e)

  push_own-keep :
      (vault : String) (e : AuthEntry V) (es : List (AuthEntry V))
      (rest : Result (List (AuthEntry V))) (address : Result String)
      → address_of e ≡ address
      → Holds (λ own. own ≡ keep (is_own vault) es) rest
      → Holds (λ own. own ≡ keep (is_own vault) (e ∷ es)) (push_own vault e rest address)
  push_own-keep vault e es rest (err m) q h = tt
  push_own-keep vault e es (err m) (ok address) q h = tt
  push_own-keep vault e es (ok own) (ok address) q h = elim (Bool-cases (str_eq address vault)) [
    | inl same ↦ simp same (ap (λ l. e ∷ l) h ∙ sym (keep-hit _ e es (own_by q ∙ same)))
    | inr other ↦ simp other (h ∙ sym (keep-miss _ e es (own_by q ∙ other)))
  ]
    where
      own_by : {r : Result String} → address_of e ≡ r → is_own vault e ≡ is_own_address vault r
      own_by q = ap (is_own_address vault) q

  pub vault_entries-keep :
      (vault : String) (es : List (AuthEntry V))
      → Holds (λ own. own ≡ keep (is_own vault) es) (vault_entries vault es)
  vault_entries-keep vault [] = refl
  vault_entries-keep vault (e ∷ es) =
      push_own-keep vault e es (vault_entries vault es) (address_of e) refl
        (vault_entries-keep vault es)

  pub only_entry-only : (own : List (AuthEntry V)) → Holds (λ e. own ≡ e ∷ []) (only_entry own)
  only_entry-only [] = tt
  only_entry-only (x ∷ []) = refl
  only_entry-only (x ∷ y ∷ own) = tt

repeat-map : {A B : Type 0} (a : A) (xs : List B) → repeat (length xs) a ≡ map (λ x. a) xs
repeat-map a [] = refl
repeat-map a (x ∷ xs) = ap (λ l. a ∷ l) (repeat-map a xs)

module _ {V T K S : Type 0} (xdr : Xdr V) (chain : Chain V T K S) (params : Params T K) where
  -- One entry for each co-signer in turn, which it has signed for the vault's check of the digest.
  pub data SignedBy (digest : Bytes) (until : ℕ) : ℕ → List K → List (AuthEntry V) → Type 0 where
    nobody : {i : ℕ} → SignedBy digest until i [] []
    signer :
        {i : ℕ} (k : K) {ks : List K} (e : AuthEntry V) {es : List (AuthEntry V)}
        → chain.authorize_entry (synthetic_entry xdr chain params digest i k) k until ≡ ok e
        → SignedBy digest until (i + 1) ks es
        → SignedBy digest until i (k ∷ ks) (e ∷ es)

  co_signer_entries-SignedBy :
      (digest : Bytes) (until i : ℕ) (ks : List K)
      → Holds (SignedBy digest until i ks) (co_signer_entries xdr chain params digest until i ks)
  co_signer_entries-SignedBy digest until i [] = nobody
  co_signer_entries-SignedBy digest until i (k ∷ ks) =
      Holds-then (SignedBy digest until i (k ∷ ks)) _ _ (λ e signed.
        Holds-then (SignedBy digest until i (k ∷ ks)) _ _ (λ es rest. signer k e signed (
          Holds-ok _ (co_signer_entries xdr chain params digest until (i + 1) ks)
            (co_signer_entries-SignedBy digest until (i + 1) ks) rest)))

  -- The rule's id once for each node of the invocations that the entry authorizes.
  abbrev pub ids_of : AuthEntry V → V
  ids_of e =
      xdr.scv_vec (map (λ node. xdr.scv_u32 params.context_rule_id) (nodes e.root_invocation))

  context_rule_ids-ids_of : (e : AuthEntry V) → context_rule_ids xdr chain params e ≡ ids_of e
  context_rule_ids-ids_of e = ap xdr.scv_vec (
      ap (λ n. repeat n (xdr.scv_u32 params.context_rule_id))
        (count_invocation_nodes-nodes e.root_invocation)
      ∙ repeat-map (xdr.scv_u32 params.context_rule_id) (nodes e.root_invocation))

  -- The entries that go with a vault's entry: itself, with the payload as its signature, and one
  -- for each co-signer, signed for the digest of the entry's preimage and of the rule's ids.
  pub record IsSigned (e : AuthEntry V) (until : ℕ) (entries : List (AuthEntry V)) : Type 0 where
    pub preimage : Bytes
    pub hashed : chain.preimage e until ≡ some preimage
    pub others : List (AuthEntry V)
    pub attached : entries ≡ filled_entry until (vault_payload xdr chain params e) e ∷ others
    pub co_signed :
        SignedBy
          (auth_digest xdr chain params (chain.hash preimage) (ids_of e))
          until
          0
          params.co_signers
          others

  abbrev IsPayload : AuthEntry V → ℕ → Bytes → Type 0
  IsPayload e until payload =
      (preimage : Bytes) × (chain.preimage e until ≡ some preimage)
      × (payload ≡ chain.hash preimage)

  signature_payload-IsPayload :
      (e : AuthEntry V) (until : ℕ)
      → Holds (IsPayload e until) (signature_payload xdr chain params e until)
  signature_payload-IsPayload e until = from (chain.preimage e until) refl
    where
      from :
          (p : Option Bytes)
          → chain.preimage e until ≡ p
          → Holds (IsPayload e until) (elim p [
            | none ↦ err "failed to compute signature_payload for the vault's auth entry"
            | some preimage ↦ ok (chain.hash preimage)
          ])
      from none h = tt
      from (some preimage) h = (preimage, h, refl)

  pub signed_entries-IsSigned :
      (e : AuthEntry V) (until : ℕ)
      → Holds (IsSigned e until) (signed_entries xdr chain params e until)
  unfolding signed_entries
  signed_entries-IsSigned e until =
      Holds-then (IsSigned e until) (signature_payload xdr chain params e until) _ (λ payload found.
        let (preimage, hashed, same) : IsPayload e until payload =
          Holds-ok (IsPayload e until) (signature_payload xdr chain params e until)
            (signature_payload-IsPayload e until) found in
        Holds-then (IsSigned e until)
          (co_signer_entries xdr chain params
            (auth_digest xdr chain params payload (context_rule_ids xdr chain params e)) until 0
            params.co_signers)
          (λ es. ok (filled_entry until (vault_payload xdr chain params e) e ∷ es))
          (λ es rest.
            let by : SignedBy
                (auth_digest xdr chain params payload (context_rule_ids xdr chain params e)) until 0
                params.co_signers es =
              Holds-ok _
                (co_signer_entries xdr chain params
                  (auth_digest xdr chain params payload (context_rule_ids xdr chain params e)) until
                  0 params.co_signers)
                (co_signer_entries-SignedBy _ until 0 params.co_signers) rest in
            record {
              preimage = preimage;
              hashed = hashed;
              others = es;
              attached = refl;
              co_signed = rw (sym same, sym (context_rule_ids-ids_of e)) by;
            }))
