-- ===== src/Dashboard/Proposals/Pending.antt =====
-- Which proposals the timelock panel lists, against the events themselves.
use Prim.Native.String.{String}
use mathlib.Core.Path.{ap₂}
use mathlib.Core.List.{foldl, append-nil, append_assoc}
use text.Mathlib.Text.{◌==◌ as str_eq}
use text.Mathlib.TextEquality.{eq_iff}
use refluo.Prelude.Result.{Result, ok}
use refluo.Prelude.Maps.{string_eq, map_get, set_has, IsDistinct-All}
use refluo.Prelude.Sort.{sort_by, IsSorted, sort_by-IsSorted, sort_by-All, any-sort_by}
use refluo.Prelude.{
  ℕ, ◌+◌, ◌-◌, max, ◌≡◌, refl, sym, ap, ◌∙◌, inl, inr, Bool, true, false, not, ◌&&◌, ◌||◌, Option,
  none, some, List, [], ◌∷◌, ◌++◌, arith, All, All-append, All-mono, any, if◌then◌else◌, Bool-cases,
}
use refluo.Rpc.Pages.{Position, start_ledger, Page, Serves, fold_pages-Serves}
use refluo.Dashboard.Proposals.{
  PendingProposal, TimelockEvent, on_event, nothing_seen, Proposal, pending_proposal, push_read,
  read_pending, eta_before, sorted, pending_of, fetch_pending_proposals,
}
use refluo.Dashboard.Proposals.Ids.{
  is_some, last_eta, is_resolved, first_of-none, proposed_ids-last_eta, resolved_ids-is_resolved,
  seen-IsDistinct,
}

any-append : {B : Type 0} (p : B → Bool) (xs ys : List B) → any p (xs ++ ys) ≡ any p xs || any p ys
any-append p [] ys = refl
any-append p (x ∷ xs) ys = ground (arith, any-append p xs ys)

module _ {A : Type 0} (json_stringify : A → String) (contract : String → Option (Proposal A)) where
  -- The rows that the entries come to when the contract answers.
  abbrev rows : List String → List (String × ℕ) → List PendingProposal
  rows resolved [] = []
  rows resolved (entry ∷ entries) =
      let more = rows resolved entries in
      if set_has entry.0 resolved
      then more
      else push_read json_stringify entry (contract entry.0) [] ++ more

  push_read-append :
      (entry : String × ℕ) (p : Option (Proposal A)) (pending : List PendingProposal)
      → push_read json_stringify entry p pending ≡ pending ++ push_read json_stringify entry p []
  push_read-append entry none pending = sym (append-nil pending)
  push_read-append entry (some p) pending = refl

  read_pending-rows :
      (resolved : List String) (entries : List (String × ℕ)) (pending : List PendingProposal)
      → read_pending json_stringify (λ id. ok (contract id)) resolved entries pending
        ≡ ok (pending ++ rows resolved entries)
  unfolding read_pending
  read_pending-rows resolved [] pending = ap ok (sym (append-nil pending))
  read_pending-rows resolved ((id, eta) ∷ entries) pending =
      elim (Bool-cases (set_has id resolved)) [
        | inl gone ↦ simp gone (read_pending-rows resolved entries pending)
        | inr here ↦ simp here (
            read_pending-rows resolved entries
              (push_read json_stringify (id, eta) (contract id) pending)
            ∙ ap ok (
                ap (λ ps. ps ++ rows resolved entries)
                  (push_read-append (id, eta) (contract id) pending)
                ∙ append_assoc pending (push_read json_stringify (id, eta) (contract id) [])
                    (rows resolved entries)))
      ]

  -- A row of the panel, against the events and the contract.
  pub record IsPending (es : List TimelockEvent) (p : PendingProposal) : Type 0 where
    pub proposal : Proposal A
    pub readable : contract p.id ≡ some proposal
    pub proposed : last_eta es p.id ≡ some p.eta_seconds
    pub unresolved : is_resolved es p.id ≡ false
    pub row : p ≡ pending_proposal json_stringify (p.id, p.eta_seconds) proposal

  -- Whether the panel should list an id.
  abbrev pub is_listed : List TimelockEvent → String → Bool
  is_listed es id = is_some (last_eta es id) && (not (is_resolved es id) && is_some (contract id))

  abbrev lists : List PendingProposal → String → Bool
  lists ps id = any (λ p. str_eq p.id id) ps

  module _ (es : List TimelockEvent) (resolved : List String)
      (settled : (id : String) → set_has id resolved ≡ is_resolved es id) where
    row-IsPending :
        (entry : String × ℕ) (p : Option (Proposal A))
        → last_eta es entry.0 ≡ some entry.1
        → set_has entry.0 resolved ≡ false
        → contract entry.0 ≡ p
        → All (IsPending es) (push_read json_stringify entry p [])
    row-IsPending entry none e here k = tt
    row-IsPending (id, eta) (some p) e here k = (
      record {
        proposal = p;
        readable = k;
        proposed = e;
        unresolved = sym (settled id) ∙ here;
        row = refl;
      },
      tt,
    )

    rows-IsPending :
        (entries : List (String × ℕ))
        → All (λ entry. last_eta es entry.0 ≡ some entry.1) entries
        → All (IsPending es) (rows resolved entries)
    rows-IsPending [] h = tt
    rows-IsPending (entry ∷ entries) (e, h) = elim (Bool-cases (set_has entry.0 resolved)) [
      | inl gone ↦ rw gone (rows-IsPending entries h)
      | inr here ↦ rw here (
          All-append (IsPending es) _ _ (row-IsPending entry (contract entry.0) e here refl)
            (rows-IsPending entries h))
    ]

    lists-push_read :
        (entry : String × ℕ) (p : Option (Proposal A)) (id : String)
        → lists (push_read json_stringify entry p []) id ≡ (is_some p && str_eq entry.0 id)
    lists-push_read entry none id = refl
    lists-push_read (k, v) (some p) id = ground arith

    lists-rows :
        (entries : List (String × ℕ)) (id : String)
        → lists (rows resolved entries) id
          ≡ (is_some (map_get id entries) && (not (set_has id resolved) && is_some (contract id)))
    unfolding map_get
    lists-rows [] id = refl
    lists-rows ((k, v) ∷ entries) id =
        let others = lists-rows entries id in
        let first =
          any-append (λ p. str_eq p.id id) (push_read json_stringify (k, v) (contract k) [])
            (rows resolved entries) in
        let own = lists-push_read (k, v) (contract k) id in
        elim (Bool-cases (set_has k resolved)) [
          | inl gone ↦ rw gone (elim (Bool-cases (str_eq k id)) [
            | inl same ↦
                let gone' : set_has id resolved ≡ true = rw ((eq_iff k id).0 same) at gone in
                ground arith
            | inr other ↦ ground arith
          ])
          | inr here ↦ rw here (elim (Bool-cases (str_eq k id)) [
            | inl same ↦
                let here' : set_has id resolved ≡ false = rw ((eq_iff k id).0 same) at here in
                let answer : is_some (contract k) ≡ is_some (contract id) =
                  ap (λ i. is_some (contract i)) ((eq_iff k id).0 same) in
                ground arith
            | inr other ↦ ground arith
          ])
        ]

  -- If the server's pages from the start of the lookback hold these events of the timelock and the
  -- contract answers for every id, then with fuel for those pages the panel's read ends in a list
  -- that is sorted by eta, in which every row has the contract's own detail and the eta of the last
  -- event that proposes it, and which has just the ids that some event proposes, that no event
  -- executes or cancels, and that the contract still holds.
  pub fetch_pending_proposals-IsPending :
      (server : Position → Result (Page TimelockEvent)) (lookback sequence n extra : ℕ)
      (es : List TimelockEvent)
      → Serves server
          (max 2 (sequence - lookback))
          n
          (start_ledger (max 2 (sequence - lookback)))
          es
      → (pending : List PendingProposal) × (fetch_pending_proposals json_stringify
            (λ id. ok (contract id))
            server
            lookback
            (n + extra)
            (ok sequence)
          ≡ some (ok pending))
        × IsSorted eta_before pending
        × All (IsPending es) pending
        × ((id : String) → lists pending id ≡ is_listed es id)
  unfolding fetch_pending_proposals map_get set_has
  fetch_pending_proposals-IsPending server lookback sequence n extra es serves =
      let start = max 2 (sequence - lookback) in
      let seen = foldl on_event nothing_seen es in
      let settled = λ (id : String). resolved_ids-is_resolved nothing_seen es id in
      let proposed = λ (id : String).
        proposed_ids-last_eta nothing_seen es id ∙ first_of-none (last_eta es id) in
      let found = rows seen.resolved_ids seen.proposed_ids in
      (
        sort_by eta_before found,
        ap (pending_of json_stringify (λ id. ok (contract id)))
              (fold_pages-Serves server start on_event serves extra nothing_seen)
            ∙ ap (λ r. some (sorted r)) (read_pending-rows seen.resolved_ids seen.proposed_ids []),
        sort_by-IsSorted eta_before (λ a b c h k. ground arith) (λ a b h. ground arith) _,
        sort_by-All (IsPending es) eta_before found (
            rows-IsPending es seen.resolved_ids settled seen.proposed_ids (
              All-mono _ _ (λ entry e. sym (proposed entry.0) ∙ e) seen.proposed_ids
                (IsDistinct-All seen.proposed_ids (seen-IsDistinct nothing_seen es tt)))),
        λ id.
            any-sort_by (λ p. str_eq p.id id) eta_before found
            ∙ lists-rows es seen.resolved_ids settled seen.proposed_ids id
            ∙ ap₂ (λ o b. is_some o && (not b && is_some (contract id))) (proposed id) (settled id),
      )
