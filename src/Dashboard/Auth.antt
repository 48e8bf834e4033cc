-- ===== src/Dashboard/Auth.antt =====
-- Signing in: dashboard/src/lib/auth (challenge.ts, store.ts, session.ts, authorization.ts,
-- getSession.ts) and the routes dashboard/src/app/api/auth/challenge and verify. Random nonces,
-- signatures, hashes, base64 and JSON are parameters.
pub mod Session
pub mod SignIn
pub mod Routes
pub mod Browser
pub mod Roster
use Prim.Native.String.{String, ◌++◌ as str_append}
use text.Mathlib.Text.{◌==◌ as str_eq}
use refluo.Prelude.Result.{Result, ok, err}
use refluo.Prelude.Maps.{map_get, map_set, map_delete, string_eq}
use refluo.Prelude.{
  ℕ, ◌+◌, ◌-◌, ◌≡◌, Bool, true, false, not, ◌||◌, Option, none, some, List, [], ◌∷◌, keep, ltb,
  if◌then◌else◌,
}

pub record Challenge : Type 0 where
  pub nonce : String
  pub address : String
  pub issued_at_seconds : ℕ

abbrev pub challenge_ttl_seconds : ℕ
challenge_ttl_seconds = 300

-- The difference is compared with the time to live only, so stopping at 0 is exact.
unfoldable pub is_challenge_expired : Challenge → ℕ → Bool
is_challenge_expired challenge now_seconds =
    ltb challenge_ttl_seconds (now_seconds - challenge.issued_at_seconds)

-- The pending challenges by their nonce.
abbrev pub Store : Type 0
Store = List (String × Challenge)

unfoldable pub put_challenge : Challenge → Store → Store
put_challenge challenge store = map_set challenge.nonce challenge store

abbrev pub taken : Option Challenge → ℕ → String → Store → Option Challenge × Store
taken none now_seconds nonce store = (none, store)
taken (some challenge) now_seconds nonce store = (
  if is_challenge_expired challenge now_seconds then none else some challenge,
  map_delete nonce store,
)

unfoldable pub take_challenge : String → ℕ → Store → Option Challenge × Store
take_challenge nonce now_seconds store = taken (map_get nonce store) now_seconds nonce store

unfoldable pub prune_expired_challenges : ℕ → Store → Store
prune_expired_challenges now_seconds store =
    keep (λ (nonce, challenge). not (is_challenge_expired challenge now_seconds)) store

pub data DashboardRole : Type 0 where
  admin guardian : DashboardRole

pub record SessionPayload : Type 0 where
  pub address : String
  pub role : DashboardRole
  pub issued_at_seconds : ℕ

abbrev pub session_ttl_seconds : ℕ
session_ttl_seconds = 3600

-- JSON, base64, the HMAC, and a number in decimal.
pub record Codec : Type 0 where
  pub stringify : SessionPayload → String
  pub parse : String → Option SessionPayload
  pub to_base64 : String → String
  pub from_base64 : String → Option String
  pub sign : (payload_json secret : String) → String
  pub print : ℕ → String

-- A token as the list of its parts between the dots: base64 has no dot.
abbrev pub Token : Type 0
Token = List String

module _ (codec : Codec) where
  unfoldable pub issue_session_token : SessionPayload → String → Token
  issue_session_token payload secret =
      let payload_json = codec.stringify payload in
      codec.to_base64 payload_json ∷ codec.sign payload_json secret ∷ []

  abbrev pub fresh : ℕ → Option SessionPayload → Option SessionPayload
  fresh now_seconds none = none
  fresh now_seconds (some payload) =
      if ltb session_ttl_seconds (now_seconds - payload.issued_at_seconds)
      then none
      else some payload

  abbrev pub verify_json : Option String → String → String → ℕ → Option SessionPayload
  verify_json none signature secret now_seconds = none
  verify_json (some payload_json) signature secret now_seconds =
      if str_eq signature (codec.sign payload_json secret)
      then fresh now_seconds (codec.parse payload_json)
      else none

  unfoldable pub verify_session_token : Token → String → ℕ → Option SessionPayload
  verify_session_token [] secret now_seconds = none
  verify_session_token (payload_b64 ∷ []) secret now_seconds = none
  verify_session_token (payload_b64 ∷ signature ∷ []) secret now_seconds =
      verify_json (codec.from_base64 payload_b64) signature secret now_seconds
  verify_session_token (payload_b64 ∷ signature ∷ other ∷ parts) secret now_seconds = none

-- The answers to one request: whether the contracts list an address, a fresh nonce, and the check
-- of a signature over a message by an address.
pub record Answers : Type 0 where
  pub now_seconds : ℕ
  pub random_nonce : String
  pub is_vault_admin : String → Result Bool
  pub is_guardian : String → Result Bool
  pub verify_sep53_signature : (message signature claimed_address : String) → Bool
  pub session_secret : String

pub data Response : Type 0 where
  failed : (status : ℕ) (error : String) → Response
  -- Thrown out of the handler; `withErrorHandling` makes a response of it.
  thrown : (message : String) → Response
  challenged : Challenge → Response
  signed_in : (address : String) (role : DashboardRole) (cookie : Token) → Response

pub record VerifyBody : Type 0 where
  pub nonce : String
  pub address : String
  pub signed_message : String

abbrev pub is_missing : String → Bool
is_missing s = str_eq s ""

-- A body that is no JSON, or lacks a field, has an empty one here.
abbrev pub is_incomplete : VerifyBody → Bool
is_incomplete body =
    is_missing body.nonce || (is_missing body.address || is_missing body.signed_message)

abbrev pub unknown_challenge : String
unknown_challenge = "unknown or expired challenge, request a new one"

module _ (codec : Codec) (answers : Answers) where
  abbrev pub challenge_message : Challenge → String
  challenge_message challenge = str_append "Refluo dashboard sign-in\naddress: " (
      str_append challenge.address (
        str_append "\nnonce: " (
          str_append challenge.nonce
            (str_append "\nissued: " (codec.print challenge.issued_at_seconds)))))

  abbrev pub guardian_role : Result Bool → Result (Option DashboardRole)
  guardian_role (err m) = err m
  guardian_role (ok is_guardian) = ok (if is_guardian then some guardian else none)

  abbrev pub admin_role : Result Bool → String → Result (Option DashboardRole)
  admin_role (err m) address = err m
  admin_role (ok is_admin) address =
      if is_admin then ok (some admin) else guardian_role (answers.is_guardian address)

  unfoldable pub resolve_dashboard_role : String → Result (Option DashboardRole)
  resolve_dashboard_role address = admin_role (answers.is_vault_admin address) address

  unfoldable pub verify_challenge_response : Challenge → String → Bool
  verify_challenge_response challenge signature =
      if is_challenge_expired challenge answers.now_seconds
      then false
      else answers.verify_sep53_signature (challenge_message challenge) signature challenge.address

  abbrev pub with_role : Result (Option DashboardRole) → String → Response
  with_role (err m) address = thrown m
  with_role (ok none) address =
      failed 403 "address is not a current admin or guardian on this vault"
  with_role (ok (some role)) address = signed_in address role (
      issue_session_token codec
        (record { address = address; role = role; issued_at_seconds = answers.now_seconds })
        answers.session_secret)

  abbrev pub with_challenge : Option Challenge → VerifyBody → Response
  with_challenge none body = failed 401 unknown_challenge
  with_challenge (some challenge) body =
      if not (str_eq challenge.address body.address)
      then failed 401 unknown_challenge
      else if not (verify_challenge_response challenge body.signed_message)
      then failed 401 "invalid signature"
      else with_role (resolve_dashboard_role body.address) body.address

  abbrev pub after_take : Option Challenge × Store → VerifyBody → Response × Store
  after_take (challenge, store) body = (with_challenge challenge body, store)

  unfoldable pub post_verify : VerifyBody → Store → Response × Store
  post_verify body store =
      if is_incomplete body
      then (failed 400 "nonce, address, and signedMessage are required", store)
      else after_take (take_challenge body.nonce answers.now_seconds store) body

  unfoldable pub post_challenge : String → Store → Response × Store
  post_challenge address store =
      if is_missing address
      then (failed 400 "address is required", store)
      else let challenge : Challenge = record {
        nonce = answers.random_nonce;
        address = address;
        issued_at_seconds = answers.now_seconds;
      } in
        (
          challenged challenge,
          put_challenge challenge (prune_expired_challenges answers.now_seconds store),
        )

-- `requireSession` and `requireAdminSession`: 401 without a session, 403 without the role.
pub data Gate : Type 0 where
  unauthenticated forbidden : Gate
  allowed : SessionPayload → Gate

module _ (codec : Codec) (session_secret : String) (now_seconds : ℕ) where
  abbrev pub admin_gate : Option SessionPayload → Gate
  admin_gate none = unauthenticated
  admin_gate (some payload) = elim payload.role [ admin ↦ allowed payload | guardian ↦ forbidden ]

  abbrev pub get_session : Option Token → Option SessionPayload
  get_session none = none
  get_session (some token) = verify_session_token codec token session_secret now_seconds

  unfoldable pub require_admin_session : Option Token → Gate
  require_admin_session cookie = admin_gate (get_session cookie)
