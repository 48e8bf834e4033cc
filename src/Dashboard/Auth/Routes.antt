-- ===== src/Dashboard/Auth/Routes.antt =====
-- What the sign-in routes put on the wire: dashboard/src/app/api/auth/session/route.ts, and the
-- responses of the challenge and verify routes. A JSON body is a value by its shape.
use Prim.Native.String.{String}
use refluo.Prelude.{Bool, false, Option, none, some}
use refluo.Dashboard.ApiError.{
  other, answers, HttpResponse, Envelope, throws, json_response, with_error_handling,
}
use refluo.Dashboard.Auth.{
  Store, DashboardRole, SessionPayload, Codec, Token, Answers, Response, failed, thrown, challenged,
  signed_in, challenge_message, VerifyBody, post_verify, post_challenge, get_session,
}

pub data Body : Type 0 where
  error_body : (error : String) (retryable : Bool) → Body
  challenge_body : (nonce message : String) → Body
  verified_body : (address : String) (role : DashboardRole) → Body
  -- `{authenticated: false}`, or the session's address and role.
  session_body : Option (String × DashboardRole) → Body
  done_body : Body

abbrev pub error_of : Body → Option String
error_of (error_body error retryable) = some error
error_of (challenge_body nonce message) = none
error_of (verified_body address role) = none
error_of (session_body session) = none
error_of done_body = none

abbrev pub retryable_of : Body → Option Bool
retryable_of (error_body error retryable) = some retryable
retryable_of (challenge_body nonce message) = none
retryable_of (verified_body address role) = none
retryable_of (session_body session) = none
retryable_of done_body = none

abbrev pub envelope : Envelope Body
envelope = record { error_json = error_body; error_of = error_of; retryable_of = retryable_of }

pub data CookieChange : Type 0 where
  keeps deletes : CookieChange
  sets : Token → CookieChange

pub record Reply : Type 0 where
  pub response : HttpResponse Body
  pub cookie : CookieChange

abbrev pub json_reply : Body → Reply
json_reply body = record {
  response = with_error_handling envelope (answers (json_response 200 body));
  cookie = keeps;
}

-- What a route does with its store and the request's cookie.
abbrev pub Request : Type 0
Request = Store → Option Token → Reply × Store

module _ (codec : Codec) (trip : Answers) where
  abbrev pub reply_to : Response → Reply
  reply_to (failed status error) = record {
    response =
        with_error_handling envelope (answers (json_response status (error_body error false)));
    cookie = keeps;
  }
  reply_to (thrown message) = record {
    response = with_error_handling envelope (throws (other message));
    cookie = keeps;
  }
  reply_to (challenged challenge) =
      json_reply (challenge_body challenge.nonce (challenge_message codec trip challenge))
  reply_to (signed_in address role token) = record {
    response =
        with_error_handling envelope (answers (json_response 200 (verified_body address role)));
    cookie = sets token;
  }

  abbrev pub replied : Response × Store → Reply × Store
  replied (response, store) = (reply_to response, store)

  unfoldable pub challenge_route : String → Request
  challenge_route address store cookie = replied (post_challenge codec trip address store)

  unfoldable pub verify_route : VerifyBody → Request
  verify_route body store cookie = replied (post_verify codec trip body store)

  abbrev pub session_of : Option SessionPayload → Option (String × DashboardRole)
  session_of none = none
  session_of (some session) = some (session.address, session.role)

  unfoldable pub get_session_route : Request
  get_session_route store cookie = (
    json_reply
        (session_body (session_of (get_session codec trip.session_secret trip.now_seconds cookie))),
    store,
  )

unfoldable pub delete_session_route : Request
delete_session_route store cookie = (
  record {
    response = with_error_handling envelope (answers (json_response 200 done_body));
    cookie = deletes;
  },
  store,
)
