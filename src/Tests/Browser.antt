-- ===== src/Tests/Browser.antt =====
-- Examples for signing in from a browser tab.
use Prim.Native.Char.{Char, code}
use Prim.Native.String.{String}
use text.Mathlib.Text.{◌==◌ as str_eq}
use refluo.Prelude.Result.{ok}
use refluo.Prelude.{
  ℕ, zero, suc, ◌≡◌, refl, ap, ◌∙◌, false, ◌==◌, Option, none, some, List, [], ◌∷◌, arith,
  if◌then◌else◌,
}
use refluo.Prelude.Maps.{map_get, map_set, map_delete}
use refluo.Dashboard.ApiError.{fetch_json, with_error_handling}
use refluo.Dashboard.Auth.Routes.{challenge_route, verify_route, get_session_route}
use refluo.Dashboard.Auth.{
  resolve_dashboard_role, issue_session_token, verify_session_token, post_challenge, post_verify,
  take_challenge, is_challenge_expired, verify_challenge_response, put_challenge,
  prune_expired_challenges, DashboardRole, admin, guardian, SessionPayload, Codec, Answers,
}
use refluo.Dashboard.Auth.Browser.{signature_text, Wallet, sign_in, mount, visit, refresh}
use refluo.Dashboard.Auth.Browser.Sessions.{ReadsBack}
use refluo.Dashboard.Auth.Browser.Cookies.{Shows}
use refluo.Dashboard.Auth.Browser.Runs.{
  Action, mounts, signs_in, others, start, step, run, Sent, run-Shows,
}
use refluo.Dashboard.Auth.Browser.Completes.{direct, signed_world, sign_in-completes}

-- A session as a text: the role, the seconds in unary, a stop, and the address.
abbrev seconds_text : ℕ → String → String
seconds_text zero rest = String.◌∷◌ "." rest
seconds_text (suc n) rest = String.◌∷◌ "x" (seconds_text n rest)

abbrev one_more : Option (ℕ × String) → Option (ℕ × String)
one_more none = none
one_more (some (n, rest)) = some (suc n, rest)

abbrev read_seconds : String → Option (ℕ × String)
read_seconds String.[] = none
read_seconds (String.◌∷◌ c s) =
    let more = read_seconds s in if code c == 120 then one_more more else some (0, s)

read_back : (n : ℕ) (rest : String) → read_seconds (seconds_text n rest) ≡ some (n, rest)
read_back zero rest = refl
read_back (suc n) rest = ap one_more (read_back n rest)

abbrev role_text : DashboardRole → Char
role_text admin = "a"
role_text guardian = "g"

abbrev with_role : Char → Option (ℕ × String) → Option SessionPayload
with_role c none = none
with_role c (some (n, rest)) = some (record {
  address = rest;
  role = if code c == 97 then admin else guardian;
  issued_at_seconds = n;
})

abbrev read_session : String → Option SessionPayload
read_session String.[] = none
read_session (String.◌∷◌ c s) = with_role c (read_seconds s)

abbrev codec : Codec
codec = record {
  stringify = λ p. String.◌∷◌ (role_text p.role) (seconds_text p.issued_at_seconds p.address);
  parse = read_session;
  to_base64 = λ s. s;
  from_base64 = λ s. some s;
  sign = λ payload_json secret. secret;
  print = λ n. "100";
}

reads_role :
    (role : DashboardRole) (n : ℕ) (address : String)
    → with_role (role_text role) (some (n, address))
      ≡ some (record { address = address; role = role; issued_at_seconds = n })
reads_role admin n address = refl
reads_role guardian n address = refl

reads_back : ReadsBack codec
reads_back p = (
  refl,
  ap (with_role (role_text p.role)) (read_back p.issued_at_seconds p.address)
      ∙ reads_role p.role p.issued_at_seconds p.address,
)

abbrev at : ℕ → Answers
at now = record {
  now_seconds = now;
  random_nonce = "n1";
  is_vault_admin = λ address. ok (str_eq address "GADMIN");
  is_guardian = λ address. ok false;
  verify_sep53_signature = λ message signature address. str_eq signature "c2ln";
  session_secret = "secret";
}

abbrev signing : Wallet
signing = record {
  sign_message =
      λ message address. record { error = none; signed_message = some (signature_text "c2ln") };
  to_base64 = λ bs. "";
}

sign_in-completes_example :
    sign_in codec signing "GADMIN" (direct (at 100)) (direct (at 110)) (direct (at 120)) start
    ≡ (ok tt, signed_world codec "GADMIN" (at 100) (at 110) admin "c2ln" start)
unfolding resolve_dashboard_role
sign_in-completes_example =
    sign_in-completes codec "GADMIN" (at 100) (at 110) admin "c2ln" signing (at 120) start
      reads_back refl refl refl refl (omega arith) refl refl (omega arith)

-- A render without a session, a sign-in, and requests of others.
abbrev actions : List Action
actions =
    mounts false (direct (at 90))
    ∷ signs_in signing "GADMIN" (direct (at 100)) (direct (at 110)) (direct (at 120))
    ∷ others []
    ∷ []

run-Shows_example : Shows codec (Sent codec actions) (run codec actions start).auth
unfolding run step mount sign_in visit refresh challenge_route verify_route get_session_route
    post_challenge post_verify take_challenge is_challenge_expired verify_challenge_response
    resolve_dashboard_role put_challenge prune_expired_challenges map_get map_set map_delete
    fetch_json with_error_handling issue_session_token verify_session_token
run-Shows_example = run-Shows codec reads_back actions refl
