-- ===== src/Dashboard/Auth/SignIn.antt =====
-- The verify route: who is signed in, and that a challenge serves once.
use Prim.Native.String.{String}
use text.Mathlib.Text.{◌==◌ as str_eq}
use text.Mathlib.TextEquality.{eq_iff}
use refluo.Prelude.Result.{Result, ok, err}
use refluo.Prelude.Maps.{map_get, map_get-map_delete, string_eq}
use refluo.Prelude.{
  ℕ, ◌+◌, ◌≤◌, ◌≡◌, refl, ap, ◌∙◌, inl, inr, true, false, Option, none, some, arith, Bool-cases,
}
use refluo.Dashboard.Auth.{
  Challenge, challenge_ttl_seconds, is_challenge_expired, Store, taken, take_challenge,
  DashboardRole, Codec, Token, issue_session_token, Answers, Response, failed, thrown, signed_in,
  VerifyBody, is_incomplete, challenge_message, unknown_challenge, resolve_dashboard_role,
  verify_challenge_response, with_role, with_challenge, post_verify,
}

module _ (codec : Codec) (answers : Answers) (body : VerifyBody) (store : Store) where
  -- What a sign-in rests on.
  pub record IsSignedIn (address : String) (role : DashboardRole) (cookie : Token) : Type 0 where
    pub challenge : Challenge
    pub pending : map_get body.nonce store ≡ some challenge
    pub own_address : challenge.address ≡ address
    pub same_address : body.address ≡ address
    pub in_time : answers.now_seconds ≤ challenge.issued_at_seconds + challenge_ttl_seconds
    pub signed :
        answers.verify_sep53_signature
          (challenge_message codec answers challenge)
          body.signed_message
          challenge.address
        ≡ true
    pub has_role : resolve_dashboard_role codec answers address ≡ ok (some role)
    pub issued :
        cookie
        ≡ issue_session_token codec
            (record { address = address; role = role; issued_at_seconds = answers.now_seconds })
            answers.session_secret

  -- A response that signs nobody in rests on nothing.
  abbrev pub IsJustified : Response → Type 0
  IsJustified (failed status error) = Unit
  IsJustified (thrown message) = Unit
  IsJustified (Response.challenged challenge) = Unit
  IsJustified (signed_in address role cookie) = IsSignedIn address role cookie

  with_role-IsJustified :
      (challenge : Challenge) (r : Result (Option DashboardRole))
      → map_get body.nonce store ≡ some challenge
      → challenge.address ≡ body.address
      → answers.now_seconds ≤ challenge.issued_at_seconds + challenge_ttl_seconds
      → answers.verify_sep53_signature
          (challenge_message codec answers challenge)
          body.signed_message
          challenge.address
        ≡ true
      → resolve_dashboard_role codec answers body.address ≡ r
      → IsJustified (with_role codec answers r body.address)
  with_role-IsJustified challenge (err m) f a t s h = tt
  with_role-IsJustified challenge (ok none) f a t s h = tt
  with_role-IsJustified challenge (ok (some role)) f a t s h = record {
    challenge = challenge;
    pending = f;
    own_address = a;
    same_address = refl;
    in_time = t;
    signed = s;
    has_role = h;
    issued = refl;
  }

  taken-IsJustified :
      (c : Option Challenge)
      → map_get body.nonce store ≡ c
      → IsJustified
          (with_challenge codec answers (taken c answers.now_seconds body.nonce store).0 body)
  unfolding is_challenge_expired
  taken-IsJustified none f = tt
  taken-IsJustified (some challenge) f =
      elim (Bool-cases (is_challenge_expired challenge answers.now_seconds)) [
        | inl late ↦ simp late tt
        | inr timely ↦ elim (Bool-cases (str_eq challenge.address body.address)) [
          | inr other ↦ simp (timely, other) tt
          | inl own ↦
              elim (Bool-cases
                (verify_challenge_response codec answers challenge body.signed_message)) [
                  | inr bad ↦ simp (timely, own, bad) tt
                  | inl good ↦
                      let same : challenge.address ≡ body.address = (eq_iff _ _).0 own in
                      simp (timely, own, good)
                        (with_role-IsJustified challenge _ f same (ground arith)
                          (signature challenge timely good) refl)
                ]
        ]
      ]
    where
      signature :
          (challenge : Challenge)
          → is_challenge_expired challenge answers.now_seconds ≡ false
          → verify_challenge_response codec answers challenge body.signed_message ≡ true
          → answers.verify_sep53_signature
              (challenge_message codec answers challenge)
              body.signed_message
              challenge.address
            ≡ true
      signature challenge timely good = unfold verify_challenge_response in (rw (timely) at good)

  -- Whatever the contracts and the wallet answer, the verify route signs an address in only if
  -- the body's nonce had a pending challenge for this address, at most five minutes old, the
  -- body's signature of its message verifies for the address, and the contracts give the address
  -- the role that the cookie is issued for.
  pub post_verify-IsJustified : IsJustified (post_verify codec answers body store).0
  unfolding post_verify take_challenge
  post_verify-IsJustified = elim (Bool-cases (is_incomplete body)) [
    | inl lacking ↦ simp lacking tt
    | inr complete ↦ simp complete (taken-IsJustified (map_get body.nonce store) refl)
  ]

same_key : (k : String) → string_eq.beq k k ≡ true
same_key k = (string_eq.beq_iff k k).1 refl

-- Behind a take the nonce has no challenge.
taken-gone :
    (c : Option Challenge) (now : ℕ) (nonce : String) (store : Store)
    → map_get nonce store ≡ c
    → map_get nonce (taken c now nonce store).1 ≡ none
taken-gone none now nonce store e = e
taken-gone (some challenge) now nonce store e =
    map_get-map_delete nonce nonce store ∙ rw (same_key nonce)

module _ (codec : Codec) where
  gone_fails :
      (answers : Answers) (body : VerifyBody) (store : Store)
      → is_incomplete body ≡ false
      → map_get body.nonce store ≡ none
      → post_verify codec answers body store ≡ (failed 401 unknown_challenge, store)
  unfolding post_verify take_challenge
  gone_fails answers body store complete e = simp (complete, e)

  posted-gone :
      (answers : Answers) (body : VerifyBody) (store : Store)
      → is_incomplete body ≡ false
      → map_get body.nonce (post_verify codec answers body store).1 ≡ none
  unfolding post_verify take_challenge
  posted-gone answers body store complete =
      simp complete
        (taken-gone (map_get body.nonce store) answers.now_seconds body.nonce store refl)

  -- A challenge serves one attempt: once a complete body with its nonce has been posted, every
  -- later complete body with that nonce that finds the store as it was left is refused with 401 as an unknown challenge,
  -- whatever came of the first one and whatever the answers and the time are then, and the store
  -- is left as it is.
  pub post_verify-again :
      (answers later_answers : Answers) (body later_body : VerifyBody) (store : Store)
      → later_body.nonce ≡ body.nonce
      → is_incomplete body ≡ false
      → is_incomplete later_body ≡ false
      → let out = post_verify codec answers body store in
        post_verify codec later_answers later_body out.1 ≡ (failed 401 unknown_challenge, out.1)
  post_verify-again answers later_answers body later_body store same complete later_complete =
      gone_fails later_answers later_body _ later_complete (
        ap (λ n. map_get n (post_verify codec answers body store).1) same
        ∙ posted-gone answers body store complete)
