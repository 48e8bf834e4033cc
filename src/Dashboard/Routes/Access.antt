-- ===== src/Dashboard/Routes/Access.antt =====
-- Who gets an answer from the read-only routes.
use refluo.Prelude.Double.{Double}
use refluo.Prelude.{◌≡◌, refl, ◌⊎◌, inl, inr, Bool, true, false, Option, none, some}
use refluo.Dashboard.ApiError.{
  Attempt, answers, HttpResponse, classify_error, with_error_handling, as_json,
}
use refluo.Dashboard.Auth.{SessionPayload, Codec, Token, get_session}
use refluo.Dashboard.Auth.Session.{IsGenuine, verify_session_token-IsGenuine}
use refluo.Dashboard.Routes.{
  Route, telemetry, vault_overview, vault_status, guardian_status, vault_addresses,
  timelock_proposals, pause_history, Caller, Body, error_body, snapshot_body, overview_body,
  status_body, guardian_body, addresses_body, proposals_body, episodes_body, envelope, Answers,
  read_sla_snapshot, reading, required, get_route,
}

-- What the watchers may read without a session.
abbrev pub is_public : Route → Bool
is_public telemetry = false
is_public vault_overview = false
is_public vault_status = false
is_public guardian_status = false
is_public vault_addresses = true
is_public timelock_proposals = true
is_public pause_history = true

module _ (d : Double) (codec : Codec) where
  abbrev pub refused : HttpResponse (Body d)
  refused = record { status = 401; body = some (error_body "unauthenticated" false) }

  -- What a route has to say to whom it answers.
  abbrev pub content : Route → Answers d → Attempt (Body d)
  content telemetry a = answers (snapshot_body (read_sla_snapshot d a.snapshot_file))
  content vault_overview a = reading d overview_body a.overview
  content vault_status a = reading d status_body a.status
  content guardian_status a = reading d guardian_body a.guardian_panel
  content vault_addresses a =
      reading d (λ overview. addresses_body a.addresses overview.context_rules) a.overview
  content timelock_proposals a = reading d proposals_body a.proposals
  content pause_history a = reading d episodes_body a.episodes

  abbrev pub served : Route → Answers d → HttpResponse (Body d)
  served route a = with_error_handling (envelope d) (as_json (content route a))

  -- The caller's cookie holds a token of a session that is not over.
  abbrev pub HasSession : Caller → Type 0
  HasSession caller =
      (token : Token) × (caller.cookie ≡ some token)
      × (session : SessionPayload) × IsGenuine codec caller.session_secret caller.now_seconds token
          session

  get_session-HasSession :
      (caller : Caller) (cookie : Option Token) (s : Option SessionPayload)
      → caller.cookie ≡ cookie
      → get_session codec caller.session_secret caller.now_seconds cookie ≡ s
      → ((session : SessionPayload) × (s ≡ some session) × HasSession caller) ⊎ (s ≡ none)
  get_session-HasSession caller cookie none c e = inr refl
  get_session-HasSession caller none (some session) c e = absurd (cc e)
  get_session-HasSession caller (some token) (some session) c e =
      let genuine =
        verify_session_token-IsGenuine codec caller.session_secret caller.now_seconds token session
          e in
      inl (session, refl, (token, c, session, genuine))

  -- What a request gets: a public route's content, a session's holder the content, or a refusal.
  pub data IsAnswered (route : Route) (caller : Caller) (a : Answers d)
      : HttpResponse (Body d) → Type 0 where
    watched : is_public route ≡ true → IsAnswered route caller a (served route a)
    entitled :
        is_public route ≡ false → HasSession caller → IsAnswered route caller a (served route a)
    turned_away :
        is_public route ≡ false
        → get_session codec caller.session_secret caller.now_seconds caller.cookie ≡ none
        → IsAnswered route caller a refused

  guarded :
      (route : Route) (caller : Caller) (a : Answers d)
      → is_public route ≡ false
      → IsAnswered route caller a (
          with_error_handling (envelope d) (
            as_json (
              required d
                (get_session codec caller.session_secret caller.now_seconds caller.cookie)
                (content route a))))
  guarded route caller a private = elim (get_session-HasSession caller caller.cookie _ refl refl) [
    | inl (session, e, has) ↦ rw e (entitled private has)
    | inr e ↦ rw e (unfold with_error_handling classify_error in (turned_away private e))
  ]

  -- Whatever the cookie and the reads come to, the public routes answer anyone with their read;
  -- each other route answers with its read, or the read's error, only a caller whose cookie is a
  -- genuine token of a session that is not over, and anyone whose cookie verifies to no session
  -- with 401 and no word of the read.
  pub get_route-IsAnswered :
      (route : Route) (caller : Caller) (a : Answers d)
      → IsAnswered route caller a (get_route d codec route caller a)
  unfolding get_route
  get_route-IsAnswered telemetry caller a = guarded telemetry caller a refl
  get_route-IsAnswered vault_overview caller a = guarded vault_overview caller a refl
  get_route-IsAnswered vault_status caller a = guarded vault_status caller a refl
  get_route-IsAnswered guardian_status caller a = guarded guardian_status caller a refl
  get_route-IsAnswered vault_addresses caller a = watched refl
  get_route-IsAnswered timelock_proposals caller a = watched refl
  get_route-IsAnswered pause_history caller a = watched refl
