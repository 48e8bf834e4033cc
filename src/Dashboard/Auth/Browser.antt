-- ===== src/Dashboard/Auth/Browser.antt =====
-- dashboard/src/hooks/AuthProvider.tsx, run against the routes. The wallet and the network are
-- parameters: each request has its own answers of the server and its own fate on the way.
pub mod Cookies
pub mod Sessions
pub mod Runs
pub mod Completes
use Prim.Native.String.{String}
use text.Mathlib.Text.{◌==◌ as str_eq}
use refluo.Prelude.Result.{Result, ok, err, M, ◌>>=◌, ◌>>◌, call}
use refluo.Prelude.{ℕ, Bool, true, false, Option, none, some, List, [], ◌∷◌, if◌then◌else◌}
use refluo.Dashboard.ActionError.{FreighterApiError, describe_freighter_api_error}
use refluo.Dashboard.ApiError.{HttpResponse, Fetched, fetched, client_error, fetch_json}
use refluo.Dashboard.Auth.{Store, DashboardRole, Codec, Token, Answers, VerifyBody}
use refluo.Dashboard.Auth.Routes.{
  Body, error_body, challenge_body, verified_body, session_body, done_body, envelope, CookieChange,
  keeps, deletes, sets, Reply, Request, challenge_route, verify_route, get_session_route,
  delete_session_route,
}

pub record AuthState : Type 0 where
  pub authenticated : Bool
  pub address : Option String
  pub role : Option DashboardRole

abbrev pub signed_out : AuthState
signed_out = record { authenticated = false; address = none; role = none }

-- The server's pending challenges, and the browser's cookie and context.
pub record World : Type 0 where
  pub store : Store
  pub cookie : Option Token
  pub auth : AuthState
  pub loading : Bool

-- A garbled response has lost its body, but not its headers.
pub data Delivery : Type 0 where
  delivered garbled request_lost response_lost : Delivery

pub record Trip : Type 0 where
  pub answers : Answers
  pub delivery : Delivery

abbrev pub changed : CookieChange → Option Token → Option Token
changed keeps cookie = cookie
changed deletes cookie = none
changed (sets token) cookie = some token

abbrev pub result_of : Fetched envelope → Result (Option Body)
result_of (fetched body) = ok body
result_of (client_error e) = err e.message

pub data SignedMessage : Type 0 where
  signature_text : String → SignedMessage
  signature_bytes : List ℕ → SignedMessage

pub record SignResult : Type 0 where
  pub error : Option FreighterApiError
  pub signed_message : Option SignedMessage

pub record Wallet : Type 0 where
  pub sign_message : (message address : String) → SignResult
  pub to_base64 : List ℕ → String

module _ (codec : Codec) where
  abbrev pub received : HttpResponse Body → Result (Option Body)
  received response = result_of (fetch_json envelope codec.print (some response))

  abbrev pub arrives : Delivery → Reply × Store → M World (Option Body)
  arrives delivered (reply, store) w =
      (received reply.response, record w { store = store; cookie = changed reply.cookie w.cookie })
  arrives garbled (reply, store) w = (
    received (record { status = reply.response.status; body = none }),
    record w { store = store; cookie = changed reply.cookie w.cookie },
  )
  arrives request_lost (reply, store) w = (result_of (fetch_json envelope codec.print none), w)
  arrives response_lost (reply, store) w =
      (result_of (fetch_json envelope codec.print none), record w { store = store })

  -- `fetchJson` of a route.
  unfoldable pub visit : Delivery → Request → M World (Option Body)
  visit delivery request w = arrives delivery (request w.store w.cookie) w

  -- A body that is null has no fields; the session route answers none of the last four.
  abbrev pub auth_of : Result (Option Body) → AuthState
  auth_of (err m) = signed_out
  auth_of (ok none) = signed_out
  auth_of (ok (some (session_body none))) = signed_out
  auth_of (ok (some (session_body (some (address, role))))) = record {
    authenticated = true;
    address = some address;
    role = some role;
  }
  auth_of (ok (some (error_body error retryable))) = signed_out
  auth_of (ok (some (challenge_body nonce message))) = signed_out
  auth_of (ok (some (verified_body address role))) = signed_out
  auth_of (ok (some done_body)) = signed_out

  abbrev pub shown : Result (Option Body) × World → Result (Unit {0}) × World
  shown (r, w) = (ok tt, record w { auth = auth_of r; loading = false })

  unfoldable pub refresh : Trip → M World (Unit {0})
  refresh trip w = shown (visit trip.delivery (get_session_route codec trip.answers) w)

  abbrev pub dropped : Result (Option Body) × World → Result (Unit {0}) × World
  dropped (r, w) = (ok tt, w)

  -- The effect of the first render; once it is cleaned up its answer is ignored.
  unfoldable pub mount : Bool → Trip → M World (Unit {0})
  mount ignore trip w =
      let asked = visit trip.delivery (get_session_route codec trip.answers) w in
      if ignore then dropped asked else shown asked

  -- The challenge route answers no other body.
  abbrev pub challenge_of : Option Body → Result (String × String)
  challenge_of none = err "Cannot destructure property 'nonce' of null"
  challenge_of (some (challenge_body nonce message)) = ok (nonce, message)
  challenge_of (some (error_body error retryable)) = err "no challenge"
  challenge_of (some (verified_body address role)) = err "no challenge"
  challenge_of (some (session_body session)) = err "no challenge"
  challenge_of (some done_body) = err "no challenge"

  unfoldable pub sign_out : (leaving checking : Trip) → M World (Unit {0})
  sign_out leaving checking = do
    done ← visit leaving.delivery delete_session_route
    refresh checking

  module _ (wallet : Wallet) where
    abbrev pub signed_text : Option SignedMessage → Result String
    signed_text none = err "wallet returned no signature"
    signed_text (some (signature_text s)) =
        if str_eq s "" then err "wallet returned no signature" else ok s
    signed_text (some (signature_bytes bs)) = ok (wallet.to_base64 bs)

    abbrev pub signature_of : Option FreighterApiError → Option SignedMessage → Result String
    signature_of (some error) signed = err (describe_freighter_api_error error).description
    signature_of none signed = signed_text signed

    abbrev pub sign : (message address : String) → Result String
    sign message address =
        let result = wallet.sign_message message address in
        signature_of result.error result.signed_message

    unfoldable pub sign_in : String → (asking verifying checking : Trip) → M World (Unit {0})
    sign_in address asking verifying checking = do
      body ← visit asking.delivery (challenge_route codec asking.answers address)
      challenge ← call (challenge_of body)
      signed_message ← call (sign challenge.1 address)
      verified ← visit verifying.delivery (
          verify_route codec verifying.answers
            (record { nonce = challenge.0; address = address; signed_message = signed_message }))
      refresh checking
