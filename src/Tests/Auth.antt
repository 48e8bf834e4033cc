-- ===== src/Tests/Auth.antt =====
-- Examples for signing in, with codecs that keep the text as it is.
use refluo.Prelude.Result.{ok}
use refluo.Prelude.{◌-◌, ◌≡◌, refl, true, false, Option, none, some, [], ◌∷◌, ltb, if◌then◌else◌}
use refluo.Dashboard.Auth.{
  Store, admin, SessionPayload, session_ttl_seconds, Codec, Token, issue_session_token,
  verify_session_token, Answers, failed, unknown_challenge, VerifyBody, post_verify,
  require_admin_session,
}
use refluo.Dashboard.Auth.Session.{
  IsAdmitted, verify_session_token-issue_session_token, require_admin_session-IsAdmitted,
}
use refluo.Dashboard.Auth.SignIn.{IsJustified, post_verify-IsJustified, post_verify-again}

abbrev pub session : SessionPayload
session = record { address = "GADMIN"; role = admin; issued_at_seconds = 1_000 }

-- One session only is written and read.
abbrev pub codec : Codec
codec = record {
  stringify = λ p. p.address;
  parse = λ text. some session;
  to_base64 = λ s. s;
  from_base64 = λ s. some s;
  sign = λ payload_json secret. secret;
  print = λ n. "1000";
}

verify_session_token-issue_session_token_example :
    verify_session_token codec (issue_session_token codec session "secret") "secret" 4_000
    ≡ (if ltb session_ttl_seconds (4_000 - 1_000) then none else some session)
verify_session_token-issue_session_token_example =
    verify_session_token-issue_session_token codec "secret" 4_000 session refl refl

abbrev pub cookie : Option Token
cookie = some ("GADMIN" ∷ "secret" ∷ [])

require_admin_session-IsAdmitted_example :
    IsAdmitted codec "secret" 4_000 cookie (require_admin_session codec "secret" 4_000 cookie)
require_admin_session-IsAdmitted_example =
    require_admin_session-IsAdmitted codec "secret" 4_000 cookie

abbrev answers : Answers
answers = record {
  now_seconds = 1_100;
  random_nonce = "n2";
  is_vault_admin = λ address. ok false;
  is_guardian = λ address. ok true;
  verify_sep53_signature = λ message signature address. true;
  session_secret = "secret";
}

abbrev store : Store
store = ("n1", record { nonce = "n1"; address = "GADMIN"; issued_at_seconds = 1_000 }) ∷ []

abbrev body : VerifyBody
body = record { nonce = "n1"; address = "GADMIN"; signed_message = "c2ln" }

post_verify-IsJustified_example :
    IsJustified codec answers body store (post_verify codec answers body store).0
post_verify-IsJustified_example = post_verify-IsJustified codec answers body store

post_verify-again_example :
    let out = post_verify codec answers body store in
    post_verify codec answers body out.1 ≡ (failed 401 unknown_challenge, out.1)
post_verify-again_example = post_verify-again codec answers answers body body store refl refl refl
