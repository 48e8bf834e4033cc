-- ===== src/Tests/Proposals.antt =====
-- Examples for the timelock's panel: three proposals, of which one is cancelled and one is gone from
-- the contract.
use Prim.Native.String.{String}
use text.Mathlib.Text.{◌==◌ as str_eq}
use refluo.Prelude.Result.{Result, ok}
use refluo.Prelude.Sort.{IsSorted}
use refluo.Prelude.{ℕ, ◌≡◌, refl, Option, some, none, List, [], ◌∷◌, All, any, if◌then◌else◌}
use refluo.Rpc.Pages.{Position, Page, last}
use refluo.Dashboard.Proposals.{
  PendingProposal, TimelockEvent, Proposal, eta_before, fetch_pending_proposals,
}
use refluo.Dashboard.Proposals.Pending.{IsPending, is_listed, fetch_pending_proposals-IsPending}

abbrev event : (name id : String) (eta : ℕ) → TimelockEvent
event name id eta = record { topic_name = name; id = id; eta = eta }

abbrev events : List TimelockEvent
events =
    event "propose_event" "1" 900
    ∷ event "propose_event" "2" 500
    ∷ event "propose_event" "3" 700
    ∷ event "propose_event" "4" 600
    ∷ event "cancel_event" "2" 0
    ∷ []

abbrev server : Position → Result (Page TimelockEvent)
server at = ok (record { events = events; next = "" })

abbrev contract : String → Option (Proposal ℕ)
contract id =
    if str_eq id "3"
    then none
    else some
        (record { target = "CVAULT"; fn_name = "set_rule"; proposer = "GA"; args = 1 ∷ 2 ∷ [] })

abbrev print : ℕ → String
print n = "n"

fetch_pending_proposals-IsPending_example :
    (pending : List PendingProposal) × (fetch_pending_proposals print
        (λ id. ok (contract id))
        server
        10_000
        1
        (ok 50_000)
      ≡ some (ok pending))
    × IsSorted eta_before pending
    × All (IsPending print contract events) pending
    × ((id : String) → any (λ p. str_eq p.id id) pending ≡ is_listed print contract events id)
fetch_pending_proposals-IsPending_example =
    fetch_pending_proposals-IsPending print contract server 10_000 50_000 1 0 events
      (last (record { events = events; next = "" }) refl refl)
