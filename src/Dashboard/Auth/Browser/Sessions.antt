-- ===== src/Dashboard/Auth/Browser/Sessions.antt =====
-- What the browser shows behind one of its calls.
use Prim.Native.String.{String}
use text.Mathlib.Text.{◌==◌ as str_eq}
use refluo.Prelude.Result.{Result, ok, err, M, bind_out}
use refluo.Prelude.Effects.{Keeps, Keeps-bind}
use refluo.Prelude.{
  ℕ, ◌≡◌, refl, ap, sym, ◌∙◌, inl, inr, Bool, true, false, Option, none, some, arith, Bool-cases,
}
use refluo.Dashboard.ApiError.{fetch_json, with_error_handling}
use refluo.Dashboard.Auth.{
  DashboardRole, SessionPayload, Codec, Token, issue_session_token, verify_session_token, fresh,
  Answers, VerifyBody, Store, get_session,
}
use refluo.Dashboard.Auth.Routes.{
  Body, session_body, challenge_route, verify_route, session_of, get_session_route,
  delete_session_route,
}
use refluo.Dashboard.Auth.Browser.{
  World, Delivery, delivered, garbled, request_lost, response_lost, Trip, Wallet, visit, auth_of,
  refresh, mount, sign_in, sign_out, challenge_of, sign,
}
use refluo.Dashboard.Auth.Browser.Cookies.{
  Issued, Shows, IsHonest, visit-IsHonest, verify_route-SetsIssued, challenge_route-SetsIssued,
  get_session_route-SetsIssued, delete_session_route-SetsIssued,
}

module _ (codec : Codec) where
  -- JSON and base64 read back the sessions that they wrote.
  abbrev pub ReadsBack : Type 0
  ReadsBack =
      (p : SessionPayload)
      → (codec.from_base64 (codec.to_base64 (codec.stringify p)) ≡ some (codec.stringify p))
        × (codec.parse (codec.stringify p) ≡ some p)

  -- A session that the cookie's token verifies to is the one that it was issued for.
  fresh-id :
      (now : ℕ) (p : SessionPayload) {session : SessionPayload}
      → fresh codec now (some p) ≡ some session
      → session ≡ p
  fresh-id now p e = ground arith

  verify_issued :
      ReadsBack
      → (p : SessionPayload) (secret other_secret : String) (now : ℕ) {session : SessionPayload}
      → verify_session_token codec (issue_session_token codec p secret) other_secret now
        ≡ some session
      → session ≡ p
  unfolding verify_session_token issue_session_token
  verify_issued reads p secret other_secret now {session} e =
      let (decodes, parses) = reads p in
      elim (Bool-cases (
        str_eq (codec.sign (codec.stringify p) secret)
          (codec.sign (codec.stringify p) other_secret))) [
            | inl same ↦
                fresh-id now p
                  (ap (fresh codec now) (sym parses) ∙ sym (simp (decodes, same) refl) ∙ e)
            | inr differs ↦ absurd (ground (arith, decodes, differs))
          ]

module _ (codec : Codec) (Sent : Answers → VerifyBody → Store → Type 0) where
  cookie-Issued :
      ReadsBack codec
      → (cookie : Option Token) (trip : Answers) {session : SessionPayload}
      → ((token : Token)
          → cookie ≡ some token
          → (address : String) × (role : DashboardRole) × Issued codec Sent address role token)
      → get_session codec trip.session_secret trip.now_seconds cookie ≡ some session
      → (token : Token) × Issued codec Sent session.address session.role token
  cookie-Issued reads none trip h e = absurd (ground arith)
  cookie-Issued reads (some token) trip {session} h e =
      let (address, role, i) = h token refl in
      let p : SessionPayload = record {
        address = address;
        role = role;
        issued_at_seconds = i.answers.now_seconds;
      } in
      let same : session ≡ p =
        verify_issued codec reads p i.answers.session_secret trip.session_secret trip.now_seconds
          (rw (i.is_signed_in.issued) at e) in
      (token, rw (same) i)

  session-Shows :
      (trip : Answers) (s : Option SessionPayload)
      → ((session : SessionPayload)
          → s ≡ some session
          → (token : Token) × Issued codec Sent session.address session.role token)
      → let auth = auth_of codec (ok (some (session_body (session_of codec trip s)))) in
        auth.authenticated ≡ true → Shows codec Sent auth
  session-Shows trip none h e = absurd (ground arith)
  session-Shows trip (some session) h e =
      let (token, i) = h session refl in
      record {
        address = session.address;
        role = session.role;
        token = token;
        shows_address = refl;
        shows_role = refl;
        issued = i;
      }

  asked-Shows :
      ReadsBack codec
      → (delivery : Delivery) (trip : Answers) (w : World) → IsHonest codec Sent w
      → let auth = auth_of codec (visit codec delivery (get_session_route codec trip) w).0 in
        auth.authenticated ≡ true → Shows codec Sent auth
  unfolding visit get_session_route fetch_json with_error_handling
  asked-Shows reads delivered trip w h e =
      session-Shows trip (get_session codec trip.session_secret trip.now_seconds w.cookie)
        (λ session found. cookie-Issued reads w.cookie trip h.cookie_issued found) e
  asked-Shows reads garbled trip w h e = absurd (ground arith)
  asked-Shows reads request_lost trip w h e = absurd (ground arith)
  asked-Shows reads response_lost trip w h e = absurd (ground arith)

  module _ (reads : ReadsBack codec) where
    pub refresh-IsHonest : (trip : Trip) → Keeps (IsHonest codec Sent) (refresh codec trip)
    unfolding refresh
    refresh-IsHonest trip w h =
        let kept =
          visit-IsHonest codec Sent trip.delivery (get_session_route codec trip.answers) w
            (get_session_route-SetsIssued codec Sent trip.answers w.store w.cookie) h in
        record {
          cookie_issued = kept.cookie_issued;
          auth_issued = asked-Shows reads trip.delivery trip.answers w h;
        }

    pub mount-IsHonest :
        (ignore : Bool) (trip : Trip) → Keeps (IsHonest codec Sent) (mount codec ignore trip)
    unfolding mount
    mount-IsHonest true trip w h =
        visit-IsHonest codec Sent trip.delivery (get_session_route codec trip.answers) w
          (get_session_route-SetsIssued codec Sent trip.answers w.store w.cookie) h
    mount-IsHonest false trip w h = unfold refresh in (refresh-IsHonest trip w h)

    -- The bodies that a sign-in may send, and the store that they find.
    abbrev pub SendsSigned : Wallet → String → Trip → Trip → World → Type 0
    SendsSigned wallet address asking verifying w =
        let asked = visit codec asking.delivery (challenge_route codec asking.answers address) w in
        (reply : Option Body) (challenge : String × String) (signed : String)
        → asked.0 ≡ ok reply
        → challenge_of codec reply ≡ ok challenge
        → sign codec wallet challenge.1 address ≡ ok signed
        → Sent verifying.answers
            (record { nonce = challenge.0; address = address; signed_message = signed })
            asked.1.store

    pub sign_in-IsHonest :
        (wallet : Wallet) (address : String) (asking verifying checking : Trip) (w : World)
        → SendsSigned wallet address asking verifying w
        → IsHonest codec Sent w
        → IsHonest codec Sent (sign_in codec wallet address asking verifying checking w).1
    unfolding sign_in
    sign_in-IsHonest wallet address asking verifying checking w sends h =
        let asked = visit codec asking.delivery (challenge_route codec asking.answers address) w in
        then_at asked.0 asked.1 _
          (visit-IsHonest codec Sent asking.delivery (challenge_route codec asking.answers address)
            w (challenge_route-SetsIssued codec Sent asking.answers address w.store w.cookie) h)
          (λ body e k. then_at (challenge_of codec body) asked.1 _ k (λ challenge f l.
            then_at (sign codec wallet challenge.1 address) asked.1 _ l (λ signed g m.
              let verified =
                visit codec verifying.delivery
                  (verify_route codec verifying.answers
                    (record { nonce = challenge.0; address = address; signed_message = signed }))
                  asked.1 in
              then_at verified.0 verified.1 _
                (visit-IsHonest codec Sent verifying.delivery _ asked.1
                  (verify_route-SetsIssued codec Sent verifying.answers _ asked.1.store
                    asked.1.cookie (sends body challenge signed e f g))
                  m)
                (λ done i n. refresh-IsHonest checking verified.1 n))))
      where
        then_at :
            {A : Type 0} (r : Result A) (v : World) (f : A → M World (Unit {0}))
            → IsHonest codec Sent v
            → ((a : A) → r ≡ ok a → IsHonest codec Sent v → IsHonest codec Sent (f a v).1)
            → IsHonest codec Sent (bind_out r v f).1
        then_at (ok a) v f p k = k a refl p
        then_at (err m) v f p k = p

    pub sign_out-IsHonest :
        (leaving checking : Trip) → Keeps (IsHonest codec Sent) (sign_out codec leaving checking)
    unfolding sign_out
    sign_out-IsHonest leaving checking =
        Keeps-bind (IsHonest codec Sent) (visit codec leaving.delivery delete_session_route) _
          (λ w h.
            visit-IsHonest codec Sent leaving.delivery delete_session_route w
              (delete_session_route-SetsIssued codec Sent w.store w.cookie) h)
          (λ done. refresh-IsHonest checking)
