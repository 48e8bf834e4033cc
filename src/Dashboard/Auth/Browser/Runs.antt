-- ===== src/Dashboard/Auth/Browser/Runs.antt =====
-- What the browser shows, over any run of its calls.
use Prim.Native.String.{String}
use refluo.Prelude.{◌≡◌, refl, sym, ◌∙◌, Bool, true, Option, none, List, [], ◌∷◌, ◌++◌, arith}
use mathlib.Core.List.{append_assoc}
use refluo.Prelude.Result.{ok}
use refluo.Dashboard.Auth.Routes.{Body, challenge_route}
use refluo.Dashboard.Auth.{Store, Codec, Answers, VerifyBody}
use refluo.Dashboard.Auth.Browser.{
  signed_out, World, Trip, Wallet, visit, challenge_of, sign, refresh, mount, sign_in, sign_out,
}
use refluo.Dashboard.Auth.Browser.Cookies.{Shows, IsHonest}
use refluo.Dashboard.Auth.Browser.Sessions.{
  ReadsBack, refresh-IsHonest, mount-IsHonest, sign_in-IsHonest, sign_out-IsHonest,
}

-- What happens in one browser tab, and to the store by the requests of others.
pub data Action : Type 0 where
  mounts : (ignore : Bool) (trip : Trip) → Action
  refreshes : (trip : Trip) → Action
  signs_in : (wallet : Wallet) (address : String) (asking verifying checking : Trip) → Action
  signs_out : (leaving checking : Trip) → Action
  others : (store : Store) → Action

abbrev pub start : World
start = record { store = []; cookie = none; auth = signed_out; loading = true }

module _ (codec : Codec) where
  -- A call that throws leaves the world as it had come to it.
  unfoldable pub step : Action → World → World
  step (mounts ignore trip) w = (mount codec ignore trip w).1
  step (refreshes trip) w = (refresh codec trip w).1
  step (signs_in wallet address asking verifying checking) w =
      (sign_in codec wallet address asking verifying checking w).1
  step (signs_out leaving checking) w = (sign_out codec leaving checking w).1
  step (others store) w = record w { store = store }

  unfoldable pub run : List Action → World → World
  run [] w = w
  run (a ∷ actions) w = run actions (step a w)

  -- A sign-in of the run has sent this body to the verify route: the wallet's signature, for the
  -- address of the sign-in, of the challenge that it had just been given. The store is the one that
  -- the run and the request for the challenge had left.
  pub record Sent (actions : List Action) (trip : Answers) (body : VerifyBody) (store : Store)
      : Type 0 where
    pub before : List Action
    pub after : List Action
    pub wallet : Wallet
    pub address : String
    pub asking : Trip
    pub verifying : Trip
    pub checking : Trip
    pub happened : actions ≡ before ++ signs_in wallet address asking verifying checking ∷ after
    pub reply : Option Body
    pub message : String
    pub asked :
        (visit codec asking.delivery
          (challenge_route codec asking.answers address)
          (run before start)).0
        ≡ ok reply
    pub challenged : challenge_of codec reply ≡ ok (body.nonce, message)
    pub signed : sign codec wallet message address ≡ ok body.signed_message
    pub own_address : body.address ≡ address
    pub own_trip : trip ≡ verifying.answers
    pub own_store :
        store
        ≡ (visit codec asking.delivery
            (challenge_route codec asking.answers address)
            (run before start)).1.store

  step-IsHonest :
      ReadsBack codec
      → (all before after : List Action) (a : Action) → all ≡ before ++ a ∷ after
      → IsHonest codec (Sent all) (run before start)
      → IsHonest codec (Sent all) (step a (run before start))
  unfolding step
  step-IsHonest reads all before after (mounts ignore trip) e h =
      mount-IsHonest codec (Sent all) reads ignore trip (run before start) h
  step-IsHonest reads all before after (refreshes trip) e h =
      refresh-IsHonest codec (Sent all) reads trip (run before start) h
  step-IsHonest reads all before after (signs_in wallet address asking verifying checking) e h =
      sign_in-IsHonest codec (Sent all) reads wallet address asking verifying checking
        (run before start)
        (λ reply challenge signature asked challenged signed. record {
          before = before;
          after = after;
          wallet = wallet;
          address = address;
          asking = asking;
          verifying = verifying;
          checking = checking;
          happened = e;
          reply = reply;
          message = challenge.1;
          asked = asked;
          challenged = challenged;
          signed = signed;
          own_address = refl;
          own_trip = refl;
          own_store = refl;
        })
        h
  step-IsHonest reads all before after (signs_out leaving checking) e h =
      sign_out-IsHonest codec (Sent all) reads leaving checking (run before start) h
  step-IsHonest reads all before after (others store) e h = record {
    cookie_issued = h.cookie_issued;
    auth_issued = h.auth_issued;
  }

  run_then :
      (before : List Action) (a : Action) (w : World)
      → run (before ++ a ∷ []) w ≡ step a (run before w)
  unfolding run
  run_then [] a w = refl
  run_then (b ∷ before) a w = run_then before a (step b w)

  run-IsHonest :
      ReadsBack codec
      → (all before rest : List Action) → all ≡ before ++ rest
      → IsHonest codec (Sent all) (run before start)
      → IsHonest codec (Sent all) (run rest (run before start))
  unfolding run
  run-IsHonest reads all before [] e h = h
  run-IsHonest reads all before (a ∷ rest) e h =
      let one_more : run (before ++ a ∷ []) start ≡ step a (run before start) =
        run_then before a start in
      let stepped = step-IsHonest reads all before rest a e h in
      rw one_more at (
        run-IsHonest reads all (before ++ a ∷ []) rest (e ∙ sym (append_assoc before (a ∷ []) rest))
          (rw one_more stepped))

  start-IsHonest : (all : List Action) → IsHonest codec (Sent all) start
  start-IsHonest all = record {
    cookie_issued = λ token e. absurd (ground arith);
    auth_issued = λ e. absurd (ground arith);
  }

  -- If JSON and base64 read back the sessions that they wrote, then over any run of renders,
  -- refreshes, sign-ins and sign-outs from a fresh tab, with whatever answers, losses on the way and
  -- requests of others, the context shows a session as authenticated only if a sign-in of this run,
  -- for the address that it shows, had sent the verify route its wallet's signature of the challenge
  -- that it had just been given, and the route, with the store and the answers that it had at that
  -- time, justly issued a token for this address and the role shown: the challenge was pending for
  -- the address, its signature verified, and the role was one that the contracts gave it.
  pub run-Shows :
      ReadsBack codec
      → (actions : List Action) → (run actions start).auth.authenticated ≡ true
      → Shows codec (Sent actions) (run actions start).auth
  unfolding run
  run-Shows reads actions =
      (run-IsHonest reads actions [] actions refl (start-IsHonest actions)).auth_issued
