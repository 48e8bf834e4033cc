-- ===== src/Dashboard/Auth/Browser/Cookies.antt =====
-- Where a cookie comes from: the replies that set one.
use Prim.Native.String.{String}
use text.Mathlib.Text.{◌==◌ as str_eq}
use refluo.Prelude.{◌≡◌, inl, inr, true, Option, some, arith, Bool-cases}
use refluo.Dashboard.Auth.{
  Store, DashboardRole, Codec, Token, Answers, Response, failed, thrown, challenged, signed_in,
  VerifyBody, post_verify, post_challenge,
}
use refluo.Dashboard.Auth.SignIn.{IsSignedIn, IsJustified, post_verify-IsJustified}
use refluo.Dashboard.Auth.Routes.{
  CookieChange, keeps, deletes, sets, Reply, Request, reply_to, challenge_route, verify_route,
  get_session_route, delete_session_route,
}
use refluo.Dashboard.Auth.Browser.{
  AuthState, World, Delivery, delivered, garbled, request_lost, response_lost, changed, visit,
  arrives,
}

-- The bodies that are sent to the verify route are the ones in `Sent`, with the answers that it has
-- for them and the store that it finds.
module _ (codec : Codec) (Sent : Answers → VerifyBody → Store → Type 0) where
  -- The verify route has issued the token, to an address that had signed its challenge.
  pub record Issued (address : String) (role : DashboardRole) (token : Token) : Type 0 where
    pub answers : Answers
    pub body : VerifyBody
    pub store : Store
    pub sent : Sent answers body store
    pub is_signed_in : IsSignedIn codec answers body store address role token

  pub record Shows (auth : AuthState) : Type 0 where
    pub address : String
    pub role : DashboardRole
    pub token : Token
    pub shows_address : auth.address ≡ some address
    pub shows_role : auth.role ≡ some role
    pub issued : Issued address role token

  pub record IsHonest (w : World) : Type 0 where
    pub cookie_issued :
        (token : Token)
        → w.cookie ≡ some token
        → (address : String) × (role : DashboardRole) × Issued address role token
    pub auth_issued : w.auth.authenticated ≡ true → Shows w.auth

  -- A cookie that a reply sets has been issued.
  abbrev pub SetsIssued : CookieChange → Type 0
  SetsIssued keeps = Unit
  SetsIssued deletes = Unit
  SetsIssued (sets token) = (address : String) × (role : DashboardRole) × Issued address role token

  changed-IsHonest :
      (c : CookieChange) (w : World) (store : Store)
      → SetsIssued c
      → IsHonest w
      → IsHonest (record w { store = store; cookie = changed c w.cookie })
  changed-IsHonest keeps w store s h = record {
    cookie_issued = h.cookie_issued;
    auth_issued = h.auth_issued;
  }
  changed-IsHonest deletes w store s h = record {
    cookie_issued = λ token e. absurd (ground arith);
    auth_issued = h.auth_issued;
  }
  changed-IsHonest (sets token) w store (address, role, i) h = record {
    cookie_issued = λ other e. (address, role, rw (token_of e) i);
    auth_issued = h.auth_issued;
  }
    where
      token_of : {a b : Token} → ◌≡◌ {A = Option Token} (some a) (some b) → b ≡ a
      token_of e = cc

  arrives-IsHonest :
      (delivery : Delivery) (reply : Reply) (store : Store) (w : World)
      → SetsIssued reply.cookie
      → IsHonest w
      → IsHonest (arrives codec delivery (reply, store) w).1
  arrives-IsHonest delivered reply store w s h = changed-IsHonest reply.cookie w store s h
  arrives-IsHonest garbled reply store w s h = changed-IsHonest reply.cookie w store s h
  arrives-IsHonest request_lost reply store w s h = h
  arrives-IsHonest response_lost reply store w s h = changed-IsHonest keeps w store tt h

  pub visit-IsHonest :
      (delivery : Delivery) (request : Request) (w : World)
      → SetsIssued (request w.store w.cookie).0.cookie
      → IsHonest w
      → IsHonest (visit codec delivery request w).1
  unfolding visit
  visit-IsHonest delivery request w s h =
      arrives-IsHonest delivery (request w.store w.cookie).0 (request w.store w.cookie).1 w s h

  pub verify_route-SetsIssued :
      (answers : Answers) (body : VerifyBody) (store : Store) (cookie : Option Token)
      → Sent answers body store
      → SetsIssued (verify_route codec answers body store cookie).0.cookie
  unfolding verify_route
  verify_route-SetsIssued answers body store cookie sent =
      justified (post_verify codec answers body store).0
        (post_verify-IsJustified codec answers body store)
    where
      justified :
          (r : Response)
          → IsJustified codec answers body store r
          → SetsIssued (reply_to codec answers r).cookie
      justified (failed status error) j = tt
      justified (thrown message) j = tt
      justified (challenged challenge) j = tt
      justified (signed_in address role token) j = (
        address,
        role,
        record { answers = answers; body = body; store = store; sent = sent; is_signed_in = j },
      )

  pub challenge_route-SetsIssued :
      (answers : Answers) (address : String) (store : Store) (cookie : Option Token)
      → SetsIssued (challenge_route codec answers address store cookie).0.cookie
  unfolding challenge_route post_challenge
  challenge_route-SetsIssued answers address store cookie = elim (Bool-cases (str_eq address "")) [
    | inl missing ↦ simp missing tt
    | inr given ↦ simp given tt
  ]

  pub get_session_route-SetsIssued :
      (trip : Answers) (store : Store) (cookie : Option Token)
      → SetsIssued (get_session_route codec trip store cookie).0.cookie
  unfolding get_session_route
  get_session_route-SetsIssued trip store cookie = tt

  pub delete_session_route-SetsIssued :
      (store : Store) (cookie : Option Token)
      → SetsIssued (delete_session_route store cookie).0.cookie
  unfolding delete_session_route
  delete_session_route-SetsIssued store cookie = tt
