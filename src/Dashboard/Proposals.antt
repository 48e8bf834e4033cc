-- ===== src/Dashboard/Proposals.antt =====
-- dashboard/src/lib/contracts/timelockProposals.ts: the timelock's pending proposals, made of its
-- events and read from the contract. An argument of a proposal is a value of some type that the
-- generated client has decoded, and printing it is a parameter.
pub mod Ids
pub mod Pending
use Prim.Native.String.{String}
use mathlib.Core.List.{foldl}
use text.Mathlib.Text.{◌==◌ as str_eq}
use refluo.Prelude.Result.{Result, ok, err}
use refluo.Prelude.Maps.{string_eq, map_set, set_has, set_add}
use refluo.Prelude.Sort.{sort_by}
use refluo.Prelude.{
  ℕ, ◌-◌, max, Bool, Option, none, some, List, [], ◌∷◌, ◌++◌, map, leb, if◌then◌else◌,
}
use refluo.Rpc.Pages.{Position, start_ledger, Page, fold_pages}

pub record PendingProposal : Type 0 where
  pub id : String
  pub eta_seconds : ℕ
  pub target : String
  pub fn_name : String
  pub proposer : String
  pub args : List String

-- An event of the timelock as it is decoded; only a propose_event has an eta.
pub record TimelockEvent : Type 0 where
  pub topic_name : String
  pub id : String
  pub eta : ℕ

-- The maps that the loop over the pages fills.
pub record Seen : Type 0 where
  pub proposed_ids : List (String × ℕ)
  pub resolved_ids : List String

abbrev pub is_propose : TimelockEvent → Bool
is_propose event = str_eq event.topic_name "propose_event"

unfoldable pub on_event : Seen → TimelockEvent → Seen
on_event seen event =
    if is_propose event
    then record seen { proposed_ids = map_set event.id event.eta seen.proposed_ids }
    else record seen { resolved_ids = set_add event.id seen.resolved_ids }

abbrev pub nothing_seen : Seen
nothing_seen = record { proposed_ids = []; resolved_ids = [] }

-- What get_proposal returns for a proposal that is there.
pub record Proposal (A : Type 0) : Type 0 where
  pub target : String
  pub fn_name : String
  pub proposer : String
  pub args : List A

abbrev pub eta_before : PendingProposal → PendingProposal → Bool
eta_before a b = leb a.eta_seconds b.eta_seconds

abbrev pub sorted : Result (List PendingProposal) → Result (List PendingProposal)
sorted (ok pending) = ok (sort_by eta_before pending)
sorted (err m) = err m

module _ {A : Type 0} (json_stringify : A → String) where
  abbrev pub pending_proposal : String × ℕ → Proposal A → PendingProposal
  pending_proposal (id, eta) p = record {
    id = id;
    eta_seconds = eta;
    target = p.target;
    fn_name = p.fn_name;
    proposer = p.proposer;
    args = map json_stringify p.args;
  }

  -- What a row that is read adds: nothing where the contract answers with an error.
  abbrev pub push_read :
      String × ℕ → Option (Proposal A) → List PendingProposal → List PendingProposal
  push_read entry none pending = pending
  push_read entry (some p) pending = pending ++ pending_proposal entry p ∷ []

  module _ (get_proposal : String → Result (Option (Proposal A))) where
    unfoldable pub read_pending :
        List String → List (String × ℕ) → List PendingProposal → Result (List PendingProposal)
    read_pending resolved [] pending = ok pending
    read_pending resolved ((id, eta) ∷ entries) pending =
        let skipped = read_pending resolved entries pending in
        if set_has id resolved then skipped else elim (get_proposal id) [
          | err m ↦ err m
          | ok answer ↦ read_pending resolved entries (push_read (id, eta) answer pending)
        ]

    abbrev pub pending_of : Option (Result Seen) → Option (Result (List PendingProposal))
    pending_of none = none
    pending_of (some (err m)) = some (err m)
    pending_of (some (ok seen)) =
        some (sorted (read_pending seen.resolved_ids seen.proposed_ids []))

    -- `none`: the fuel ran out.
    unfoldable pub fetch_pending_proposals :
        (Position → Result (Page TimelockEvent))
        → (lookback fuel : ℕ) → Result ℕ
        → Option (Result (List PendingProposal))
    fetch_pending_proposals server lookback fuel (err m) = some (err m)
    fetch_pending_proposals server lookback fuel (ok sequence) =
        let start = max 2 (sequence - lookback) in
        pending_of (fold_pages server start on_event fuel (start_ledger start) nothing_seen)
