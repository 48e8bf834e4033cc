-- ===== src/Dashboard/Routes.antt =====
-- The read-only routes under dashboard/src/app/api, with dashboard/src/lib/telemetry.ts. What each
-- read of the contracts comes to is an answer; a JSON body is a value by its shape.
pub mod Access
pub mod Telemetry
use Prim.Native.String.{String}
use refluo.Prelude.Result.{Result, ok, err}
use refluo.Prelude.Double.{Double}
use refluo.Prelude.{ℕ, Bool, true, false, Option, none, some, List}
use refluo.Dashboard.ApiError.{
  unauthenticated_error, api_error, other, Attempt, answers, throws, HttpResponse, Envelope,
  with_error_handling, as_json,
}
use refluo.Dashboard.Auth.{SessionPayload, Codec, Token, get_session}
use refluo.Dashboard.Overview.{VaultOverview, VaultStatus, ContextRuleSummary}
use refluo.Dashboard.Proposals.{PendingProposal}
use refluo.Dashboard.PauseHistory.{PauseEpisode}
use refluo.Dashboard.GuardianPanel.{GuardianPanelData}
use refluo.Keeper.Reporter.Tick.{SlaSnapshot, SnapshotFile, absent, unparsable, holds}

-- The routes that ask for a session, and those that are public by design.
pub data Route : Type 0 where
  telemetry vault_overview vault_status guardian_status : Route
  vault_addresses timelock_proposals pause_history : Route

-- The configured addresses, and the vault's rules.
pub record Addresses : Type 0 where
  pub vault_address : String
  pub risk_engine_id : String
  pub health_monitor_id : String
  pub timelock_id : String
  pub usdc_token_id : String
  pub xlm_token_id : String

-- Who calls.
pub record Caller : Type 0 where
  pub cookie : Option Token
  pub session_secret : String
  pub now_seconds : ℕ

module _ (d : Double) where
  pub data Body : Type 0 where
    error_body : (error : String) (retryable : Bool) → Body
    -- Without a snapshot the body says that there is none yet.
    snapshot_body : Option (SlaSnapshot d) → Body
    overview_body : VaultOverview → Body
    status_body : VaultStatus → Body
    guardian_body : GuardianPanelData → Body
    addresses_body : Addresses → List ContextRuleSummary → Body
    proposals_body : List PendingProposal → Body
    episodes_body : List PauseEpisode → Body

  abbrev pub error_of : Body → Option String
  error_of (error_body error retryable) = some error
  error_of (snapshot_body snapshot) = none
  error_of (overview_body overview) = none
  error_of (status_body status) = none
  error_of (guardian_body panel) = none
  error_of (addresses_body addresses rules) = none
  error_of (proposals_body proposals) = none
  error_of (episodes_body episodes) = none

  abbrev pub retryable_of : Body → Option Bool
  retryable_of (error_body error retryable) = some retryable
  retryable_of (snapshot_body snapshot) = none
  retryable_of (overview_body overview) = none
  retryable_of (status_body status) = none
  retryable_of (guardian_body panel) = none
  retryable_of (addresses_body addresses rules) = none
  retryable_of (proposals_body proposals) = none
  retryable_of (episodes_body episodes) = none

  abbrev pub envelope : Envelope Body
  envelope = record { error_json = error_body; error_of = error_of; retryable_of = retryable_of }

  -- What the reads of one request come to.
  pub record Answers : Type 0 where
    pub snapshot_file : SnapshotFile d
    pub overview : Result VaultOverview
    pub status : Result VaultStatus
    pub guardian_panel : Result GuardianPanelData
    pub addresses : Addresses
    pub proposals : Result (List PendingProposal)
    pub episodes : Result (List PauseEpisode)

  unfoldable pub read_sla_snapshot : SnapshotFile d → Option (SlaSnapshot d)
  read_sla_snapshot absent = none
  read_sla_snapshot unparsable = none
  read_sla_snapshot (holds snapshot) = some snapshot

  abbrev pub reading : {A : Type 0} → (A → Body) → Result A → Attempt Body
  reading body (ok a) = answers (body a)
  reading body (err m) = throws (other m)

  abbrev pub required : Option SessionPayload → Attempt Body → Attempt Body
  required none handler = throws (api_error unauthenticated_error)
  required (some session) handler = handler

  module _ (codec : Codec) where
    -- `await requireSession()`, and what follows it.
    abbrev pub require_session : Caller → Attempt Body → Attempt Body
    require_session caller handler =
        required (get_session codec caller.session_secret caller.now_seconds caller.cookie) handler

    abbrev pub handle : Route → Caller → Answers → Attempt Body
    handle telemetry caller a =
        require_session caller (answers (snapshot_body (read_sla_snapshot a.snapshot_file)))
    handle vault_overview caller a = require_session caller (reading overview_body a.overview)
    handle vault_status caller a = require_session caller (reading status_body a.status)
    handle guardian_status caller a =
        require_session caller (reading guardian_body a.guardian_panel)
    handle vault_addresses caller a =
        reading (λ overview. addresses_body a.addresses overview.context_rules) a.overview
    handle timelock_proposals caller a = reading proposals_body a.proposals
    handle pause_history caller a = reading episodes_body a.episodes

    unfoldable pub get_route : Route → Caller → Answers → HttpResponse Body
    get_route route caller a = with_error_handling envelope (as_json (handle route caller a))
