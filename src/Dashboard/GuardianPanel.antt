-- ===== src/Dashboard/GuardianPanel.antt =====
-- dashboard/src/lib/contracts/healthMonitor.ts: the guardian panel. The contract's status and roster
-- are answers; the events asked for are the Paused ones only, each given by its decoded expiry.
pub mod Expiry
use Prim.Native.String.{String}
use refluo.Prelude.Result.{Result, ok, err}
use refluo.Prelude.{ℕ, ◌-◌, max, Bool, true, false, Option, none, some, List}
use refluo.Rpc.Pages.{Position, start_ledger, Page, fold_pages}

pub record GuardianPanelData : Type 0 where
  pub health_monitor_id : String
  pub is_paused : Bool
  pub pause_expiry_seconds : Option ℕ
  pub guardians : List String

-- The loop's body: `latestExpiry = Number(data.pause_expiry)`.
abbrev pub on_paused : Option ℕ → ℕ → Option ℕ
on_paused latest pause_expiry = some pause_expiry

module _ (server : Position → Result (Page ℕ)) (lookback fuel : ℕ) where
  -- `none`: the fuel ran out.
  unfoldable pub fetch_latest_pause_expiry : Result ℕ → Option (Result (Option ℕ))
  fetch_latest_pause_expiry (err m) = some (err m)
  fetch_latest_pause_expiry (ok sequence) =
      let start = max 2 (sequence - lookback) in
      fold_pages server start on_paused fuel (start_ledger start) none

  abbrev pub panel :
      String → Bool → List String → Option (Result (Option ℕ)) → Option (Result GuardianPanelData)
  panel id paused guardians none = none
  panel id paused guardians (some (err m)) = some (err m)
  panel id paused guardians (some (ok expiry)) = some (
      ok (record {
        health_monitor_id = id;
        is_paused = paused;
        pause_expiry_seconds = expiry;
        guardians = guardians;
      }))

  -- The expiry is asked for only while the contract is paused.
  abbrev pub expiry_if : Bool → Result ℕ → Option (Result (Option ℕ))
  expiry_if true sequence = fetch_latest_pause_expiry sequence
  expiry_if false sequence = some (ok none)

  unfoldable pub fetch_guardian_panel_data :
      String → Result Bool → Result (List String) → Result ℕ → Option (Result GuardianPanelData)
  fetch_guardian_panel_data id (err m) guardians sequence = some (err m)
  fetch_guardian_panel_data id (ok paused) (err m) sequence = some (err m)
  fetch_guardian_panel_data id (ok paused) (ok guardians) sequence =
      panel id paused guardians (expiry_if paused sequence)
