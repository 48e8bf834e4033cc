-- ===== src/Dashboard/Auth/Session.antt =====
-- Session tokens: what verifies, and what that shows.
use Prim.Native.String.{String}
use text.Mathlib.Text.{◌==◌ as str_eq}
use text.Mathlib.TextEquality.{eq_iff}
use refluo.Prelude.{
  ℕ, ◌+◌, ◌-◌, ◌≤◌, ◌≡◌, refl, ap, ◌∙◌, inl, inr, true, Option, none, some, [], ◌∷◌, arith, ltb,
  if◌then◌else◌, Bool-cases,
}
use refluo.Dashboard.Auth.{
  DashboardRole, admin, guardian, SessionPayload, session_ttl_seconds, Codec, Token,
  issue_session_token, fresh, verify_json, verify_session_token, Gate, allowed, admin_gate,
  require_admin_session,
}

module _ (codec : Codec) (secret : String) (now : ℕ) where
  -- A token that the holder of the secret has signed, for a session that is not over.
  pub record IsGenuine (token : Token) (payload : SessionPayload) : Type 0 where
    pub payload_json : String
    pub payload_b64 : String
    pub parts : token ≡ payload_b64 ∷ codec.sign payload_json secret ∷ []
    pub decodes : codec.from_base64 payload_b64 ≡ some payload_json
    pub parses : codec.parse payload_json ≡ some payload
    pub in_time : now ≤ payload.issued_at_seconds + session_ttl_seconds

  -- If base64 and JSON read back what they wrote for a payload, the token issued for it verifies
  -- with the same secret to that payload, up to an hour behind its issue, and to nothing from then
  -- on.
  pub verify_session_token-issue_session_token :
      (payload : SessionPayload)
      → codec.from_base64 (codec.to_base64 (codec.stringify payload))
        ≡ some (codec.stringify payload)
      → codec.parse (codec.stringify payload) ≡ some payload
      → verify_session_token codec (issue_session_token codec payload secret) secret now
        ≡ (if ltb session_ttl_seconds (now - payload.issued_at_seconds) then none else some payload)
  unfolding verify_session_token issue_session_token
  verify_session_token-issue_session_token payload decoded parsed =
      let itself : str_eq (codec.sign (codec.stringify payload) secret)
            (codec.sign (codec.stringify payload) secret)
          ≡ true =
        (eq_iff _ _).1 refl in
      simp (decoded, itself, parsed) refl

  fresh-IsGenuine :
      (token : Token) (payload : SessionPayload) (b64 signature json : String)
      (p : Option SessionPayload)
      → token ≡ b64 ∷ signature ∷ []
      → codec.from_base64 b64 ≡ some json
      → signature ≡ codec.sign json secret
      → codec.parse json ≡ p
      → fresh codec now p ≡ some payload
      → IsGenuine token payload
  fresh-IsGenuine token payload b64 signature json none t b s q e = absurd (ground arith)
  fresh-IsGenuine token payload b64 signature json (some r) t b s q e = record {
    payload_json = json;
    payload_b64 = b64;
    parts = t ∙ ap (λ x. b64 ∷ x ∷ []) s;
    decodes = b;
    parses = q ∙ ground arith;
    in_time = ground arith;
  }

  verify_json-IsGenuine :
      (token : Token) (payload : SessionPayload) (b64 signature : String) (json : Option String)
      → token ≡ b64 ∷ signature ∷ []
      → codec.from_base64 b64 ≡ json
      → verify_json codec json signature secret now ≡ some payload
      → IsGenuine token payload
  verify_json-IsGenuine token payload b64 signature none t b e = absurd (ground arith)
  verify_json-IsGenuine token payload b64 signature (some json) t b e =
      elim (Bool-cases (str_eq signature (codec.sign json secret))) [
        | inl same ↦
            fresh-IsGenuine token payload b64 signature json (codec.parse json) t b
              ((eq_iff _ _).0 same) refl (rw (same) at e)
        | inr other ↦ absurd (ground arith)
      ]

  -- Whatever a cookie holds, it verifies only if it has two parts of which the second is the
  -- signature under the secret of what the first decodes to, that text parses to the payload, and
  -- the payload was issued at most an hour ago.
  pub verify_session_token-IsGenuine :
      (token : Token) (payload : SessionPayload)
      → verify_session_token codec token secret now ≡ some payload
      → IsGenuine token payload
  unfolding verify_session_token
  verify_session_token-IsGenuine [] payload e = absurd (ground arith)
  verify_session_token-IsGenuine (b64 ∷ []) payload e = absurd (ground arith)
  verify_session_token-IsGenuine (b64 ∷ signature ∷ []) payload e =
      verify_json-IsGenuine _ payload b64 signature (codec.from_base64 b64) refl refl e
  verify_session_token-IsGenuine (b64 ∷ signature ∷ other ∷ parts) payload e = absurd (ground arith)

  -- What an admin's gate rests on.
  abbrev pub IsAdmitted : Option Token → Gate → Type 0
  IsAdmitted cookie Gate.unauthenticated = Unit
  IsAdmitted cookie Gate.forbidden = Unit
  IsAdmitted cookie (allowed payload) =
      (token : Token) × (cookie ≡ some token) × IsGenuine token payload × (payload.role ≡ admin)

  role-IsAdmitted :
      (token : Token) (payload : SessionPayload) (role : DashboardRole)
      → payload.role ≡ role
      → IsGenuine token payload
      → IsAdmitted (some token) (elim role [ admin ↦ allowed payload | guardian ↦ Gate.forbidden ])
  role-IsAdmitted token payload admin r g = (token, refl, g, r)
  role-IsAdmitted token payload guardian r g = tt

  admin_gate-IsAdmitted :
      (token : Token) (p : Option SessionPayload)
      → verify_session_token codec token secret now ≡ p
      → IsAdmitted (some token) (admin_gate codec secret now p)
  admin_gate-IsAdmitted token none e = tt
  admin_gate-IsAdmitted token (some payload) e =
      role-IsAdmitted token payload payload.role refl
        (verify_session_token-IsGenuine token payload e)

  -- Whatever the cookie, an admin's gate lets a request through only with a token of two parts
  -- whose signature is the one under the secret of what its first part decodes to, for a session
  -- that was issued at most an hour ago to an admin.
  pub require_admin_session-IsAdmitted :
      (cookie : Option Token) → IsAdmitted cookie (require_admin_session codec secret now cookie)
  unfolding require_admin_session
  require_admin_session-IsAdmitted none = tt
  require_admin_session-IsAdmitted (some token) =
      admin_gate-IsAdmitted token (verify_session_token codec token secret now) refl
