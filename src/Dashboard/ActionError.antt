-- ===== src/Dashboard/ActionError.antt =====
-- dashboard/src/lib/actions/actionError.ts. What the SDK throws is a parameter by its class.
use Prim.Native.String.{String, ◌++◌}
use refluo.Prelude.{zero, suc, Option, none, some, List, [], ◌∷◌, ℤ, pos, negsuc}

pub record ActionErrorDescription : Type 0 where
  pub title : String
  pub description : String

pub record FreighterApiError : Type 0 where
  pub code : ℤ
  pub message : String
  pub ext : Option (List String)

abbrev pub described : String → String → ActionErrorDescription
described title description = record { title = title; description = description }

-- `join(", ")` behind a first text.
abbrev pub join_from : String → List String → String
join_from text [] = text
join_from text (s ∷ rest) = join_from (text ++ ", " ++ s) rest

abbrev pub full_message : String → Option (List String) → String
full_message message none = message
full_message message (some []) = message
full_message message (some (s ∷ rest)) = message ++ " (" ++ join_from s rest ++ ")"

-- The switch on the code: `negsuc n` is -(n + 1).
abbrev pub by_code : ℤ → String → ActionErrorDescription
by_code (pos n) message = described "Wallet error" message
by_code (negsuc zero) message = described "Wallet error" message
by_code (negsuc (suc zero)) message =
    described "Wallet network error" "The wallet's own backend service failed. Try again shortly."
by_code (negsuc (suc (suc zero))) message = described "Invalid request" message
by_code (negsuc (suc (suc (suc zero)))) message =
    described "Signing cancelled" "The connected wallet declined this request."
by_code (negsuc (suc (suc (suc (suc n))))) message = described "Wallet error" message

pub describe_freighter_api_error : FreighterApiError → ActionErrorDescription
describe_freighter_api_error error = by_code error.code (full_message error.message error.ext)

-- What a signing action throws: an error of one of the SDK's classes, any other error by its
-- message, or a value that is no error by its text.
pub data ActionError : Type 0 where
  user_rejected external_service_error restoration_failure expired_state : ActionError
  internal_wallet_error invalid_client_request needs_more_signatures simulation_failed :
      String → ActionError
  other : String → ActionError

pub describe_action_error : ActionError → ActionErrorDescription
describe_action_error user_rejected =
    described "Signing cancelled" "The connected wallet declined to sign this transaction."
describe_action_error (internal_wallet_error m) =
    described "Wallet error" ("The wallet reported an internal error: " ++ m)
describe_action_error external_service_error =
    described "Wallet network error"
      "The wallet's own backend service failed. This is usually transient, try again shortly."
describe_action_error (invalid_client_request m) = described "Invalid request" m
describe_action_error (needs_more_signatures m) = described "More signatures required" m
describe_action_error (simulation_failed m) =
    described "Simulation failed" ("The transaction was rejected before it was ever sent: " ++ m)
describe_action_error restoration_failure =
    described "Restoration failed"
      "The expired ledger entries this call needs could not be restored automatically."
describe_action_error expired_state =
    described "State expired"
      "The simulated transaction's ledger state expired before it could be signed. Retry."
describe_action_error (other m) = described "Transaction failed" m
