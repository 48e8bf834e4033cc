-- ===== src/Dashboard/Auth/Browser/Completes.antt =====
-- A sign-in that nothing hinders.
use Prim.Native.String.{String}
use text.Mathlib.Text.{◌==◌ as str_eq}
use text.Mathlib.TextEquality.{eq_iff}
use refluo.Prelude.Result.{ok}
use refluo.Prelude.Maps.{map_delete, map_get-map_set, string_eq}
use refluo.Prelude.{◌+◌, ◌-◌, ◌≤◌, ◌≡◌, refl, ◌∙◌, true, false, some, ltb, arith}
use refluo.Dashboard.ApiError.{fetch_json, with_error_handling}
use refluo.Dashboard.Auth.{
  Challenge, Store, challenge_ttl_seconds, session_ttl_seconds, is_challenge_expired, put_challenge,
  prune_expired_challenges, take_challenge, DashboardRole, SessionPayload, Codec, Token,
  issue_session_token, verify_session_token, Answers, VerifyBody, is_incomplete, challenge_message,
  resolve_dashboard_role, verify_challenge_response, post_verify, post_challenge,
}
use refluo.Dashboard.Auth.Session.{verify_session_token-issue_session_token}
use refluo.Dashboard.Auth.Routes.{
  challenge_body, verified_body, challenge_route, verify_route, get_session_route,
}
use refluo.Dashboard.Auth.Browser.{World, delivered, Trip, Wallet, visit, refresh, sign, sign_in}
use refluo.Dashboard.Auth.Browser.Sessions.{ReadsBack}

-- The request and its response arrive.
abbrev pub direct : Answers → Trip
direct answers = record { answers = answers; delivery = delivered }

module _ (codec : Codec) (address : String) (asking : Answers) where
  abbrev pub challenge : Challenge
  challenge = record {
    nonce = asking.random_nonce;
    address = address;
    issued_at_seconds = asking.now_seconds;
  }

  abbrev pub message : String
  message = challenge_message codec asking challenge

  abbrev pub pending : Store → Store
  pending store = put_challenge challenge (prune_expired_challenges asking.now_seconds store)

  asked_challenge :
      (w : World)
      → str_eq address "" ≡ false
      → visit codec delivered (challenge_route codec asking address) w ≡ (
        ok (some (challenge_body asking.random_nonce message)),
        record w { store = pending w.store },
      )
  unfolding visit challenge_route post_challenge fetch_json with_error_handling
  asked_challenge w given = simp given

  module _ (verifying : Answers) (role : DashboardRole) (signature : String) where
    abbrev pub token : Token
    token =
        issue_session_token codec
          (record { address = address; role = role; issued_at_seconds = verifying.now_seconds })
          verifying.session_secret

    abbrev pub body : VerifyBody
    body = record { nonce = asking.random_nonce; address = address; signed_message = signature }

    verified_challenge :
        (w : World) (store : Store)
        → is_incomplete body ≡ false
        → verifying.now_seconds ≤ asking.now_seconds + challenge_ttl_seconds
        → verifying.verify_sep53_signature message signature address ≡ true
        → resolve_dashboard_role codec verifying address ≡ ok (some role)
        → visit codec delivered
            (verify_route codec verifying body)
            (record w { store = pending store })
          ≡ (
            ok (some (verified_body address role)),
            record w {
              store = map_delete asking.random_nonce (pending store);
              cookie = some token;
            },
          )
    unfolding visit verify_route post_verify take_challenge fetch_json verify_challenge_response
        is_challenge_expired put_challenge with_error_handling map_delete issue_session_token
    verified_challenge w store complete in_time signed has_role =
        let timely : ltb challenge_ttl_seconds (verifying.now_seconds - asking.now_seconds)
            ≡ false =
          ground arith in
        let own : str_eq address address ≡ true = (eq_iff address address).1 refl in
        let same : string_eq.beq asking.random_nonce asking.random_nonce ≡ true =
          (string_eq.beq_iff asking.random_nonce asking.random_nonce).1 refl in
        simp (complete, map_get-map_set, same, timely, own, signed, has_role)

    abbrev pub signed_world : World → World
    signed_world w = record w {
      store = map_delete asking.random_nonce (pending w.store);
      cookie = some token;
      auth = record { authenticated = true; address = some address; role = some role };
      loading = false;
    }

    refreshed :
        (checking : Answers) (w : World) (store : Store)
        → ReadsBack codec
        → checking.session_secret ≡ verifying.session_secret
        → checking.now_seconds ≤ verifying.now_seconds + session_ttl_seconds
        → refresh codec (direct checking) (record w { store = store; cookie = some token }) ≡ (
          ok tt,
          record w {
            store = store;
            cookie = some token;
            auth = record { authenticated = true; address = some address; role = some role };
            loading = false;
          },
        )
    unfolding refresh visit get_session_route fetch_json with_error_handling
    refreshed checking w store reads secret in_time =
        let p : SessionPayload = record {
          address = address;
          role = role;
          issued_at_seconds = verifying.now_seconds;
        } in
        let (decodes, parses) = reads p in
        let timely : ltb session_ttl_seconds (checking.now_seconds - verifying.now_seconds)
            ≡ false =
          ground arith in
        let verifies : verify_session_token codec
              (issue_session_token codec p verifying.session_secret) verifying.session_secret
              checking.now_seconds
            ≡ some p =
          verify_session_token-issue_session_token codec verifying.session_secret
            checking.now_seconds p decodes parses
          ∙ rw timely in
        simp (secret, verifies)

    -- If JSON and base64 read back the sessions that they wrote, all three requests arrive, the
    -- wallet signs the challenge's message, the signature verifies for the address, at most five
    -- minutes behind the challenge, the contracts give the address a role, and the session is
    -- looked up with the same secret at most an hour behind its issue, then the sign-in ends without
    -- an error, the context shows the address with that role, the browser holds the token that was
    -- issued for them, and the challenge is used up.
    pub sign_in-completes :
        (wallet : Wallet) (checking : Answers) (w : World)
        → ReadsBack codec
        → str_eq address "" ≡ false
        → is_incomplete body ≡ false
        → sign codec wallet message address ≡ ok signature
        → verifying.verify_sep53_signature message signature address ≡ true
        → verifying.now_seconds ≤ asking.now_seconds + challenge_ttl_seconds
        → resolve_dashboard_role codec verifying address ≡ ok (some role)
        → checking.session_secret ≡ verifying.session_secret
        → checking.now_seconds ≤ verifying.now_seconds + session_ttl_seconds
        → sign_in codec wallet address (direct asking) (direct verifying) (direct checking) w
          ≡ (ok tt, signed_world w)
    unfolding sign_in
    sign_in-completes wallet checking w reads given complete signs verifies in_time has_role secret
          fresh_yet =
        simp (
          asked_challenge w given,
          signs,
          verified_challenge w w.store complete in_time verifies has_role,
          refreshed checking w (map_delete asking.random_nonce (pending w.store)) reads secret
              fresh_yet,
        )
