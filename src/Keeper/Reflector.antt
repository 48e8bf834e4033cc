-- ===== src/Keeper/Reflector.antt =====
-- keeper/src/reflectorQuorum.ts, the cross-check of keeper/src/reflectorSubscription.ts, and
-- keeper/src/reflectorWebhookServer.ts. Hashes, signatures and prices are parameters.
pub mod Canonical
pub mod Quorum
pub mod Repeat
pub mod Webhook
pub mod Failure
pub mod Receive
use Prim.Native.String.{String}
use refluo.Prelude.Json.{Json}
use refluo.Prelude.Result.{Result, ok, err, M, ◌>>=◌, ◌>>◌, call, modify, return, throw}
use refluo.Prelude.Maps.{map_get, map_set, set_has, set_add, string_eq}
use refluo.Prelude.Double.{Double}
use refluo.Prelude.{
  ℕ, ◌+◌, ◌-◌, ◌≡◌, Bool, true, false, not, ◌||◌, Option, none, some, List, [], ◌∷◌, ◌++◌, keep,
  length, ltb, leb, or_else, if◌then◌else◌, ℤ, pos, leb_ℤ,
}

-- Of an update, what the receiver uses; the hash is over the whole object.
pub record ReflectorUpdate : Type 0 where
  pub price : String
  pub decimals : ℕ
  pub timestamp : ℕ
  -- The object as it came.
  pub object : Json

pub record ReflectorNotification : Type 0 where
  pub event : ReflectorUpdate
  pub signature : String
  pub verifier : String

pub data QuorumResult : Type 0 where
  rejected_bad_signature : QuorumResult
  rejected_untrusted_verifier : (verifier : String) → QuorumResult
  duplicate : (confirming_verifiers : List String) → QuorumResult
  recorded : (confirming_verifiers : List String) (needed : ℕ) → QuorumResult
  quorum_reached : (event : ReflectorUpdate) (confirming_verifiers : List String) → QuorumResult
  already_resolved : (confirming_verifiers : List String) → QuorumResult

pub record PendingGroup : Type 0 where
  pub event : ReflectorUpdate
  pub first_seen_seconds : ℕ
  pub confirming_verifiers : List String
  pub resolved : Bool

abbrev pub Groups : Type 0
Groups = List (String × PendingGroup)

-- The tracker's settings; its groups are the state.
pub record QuorumTracker : Type 0 where
  pub trusted_verifiers : List String
  pub quorum_size : ℕ
  pub window_seconds : ℕ

abbrev pub set_of : List String → List String → List String
set_of seen [] = seen
set_of seen (v ∷ vs) = set_of (set_add v seen) vs

unfoldable pub new_tracker : List String → ℕ → ℕ → Result QuorumTracker
new_tracker trusted_verifiers quorum_size window_seconds =
    if ltb quorum_size 1
    then err "quorumSize must be at least 1"
    else if ltb (length trusted_verifiers) quorum_size
    then err "quorumSize cannot exceed the number of trusted verifiers"
    else ok (record {
      trusted_verifiers = set_of [] trusted_verifiers;
      quorum_size = quorum_size;
      window_seconds = window_seconds;
    })

abbrev pub fresh_group : ReflectorUpdate → ℕ → PendingGroup
fresh_group event now_seconds = record {
  event = event;
  first_seen_seconds = now_seconds;
  confirming_verifiers = [];
  resolved = false;
}

-- What the receiver uses of the crypto: the hex digest of an update, and the check of a
-- notification's signature over it.
pub record Crypto : Type 0 where
  pub update_hash : ReflectorUpdate → String
  pub verify_notification_signature : ReflectorNotification → Bool

module _ (crypto : Crypto) (tracker : QuorumTracker) where
  -- The clock's difference is compared with the window only, so stopping at 0 is exact.
  abbrev pub is_live : ℕ → String × PendingGroup → Bool
  is_live now_seconds (key, group) =
      not (ltb tracker.window_seconds (now_seconds - group.first_seen_seconds))

  unfoldable pub prune_expired : ℕ → Groups → Groups
  prune_expired now_seconds groups = keep (is_live now_seconds) groups

  unfoldable pub confirm : String → PendingGroup → String → Groups → QuorumResult × Groups
  confirm key group verifier groups =
      if group.resolved
      then (already_resolved group.confirming_verifiers, groups)
      else if set_has verifier group.confirming_verifiers
      then (duplicate group.confirming_verifiers, groups)
      else let confirming = group.confirming_verifiers ++ verifier ∷ [] in
        if leb tracker.quorum_size (length confirming)
        then (
          quorum_reached group.event confirming,
          map_set key (record group { confirming_verifiers = confirming; resolved = true }) groups,
        )
        else (
          recorded confirming (tracker.quorum_size - length confirming),
          map_set key (record group { confirming_verifiers = confirming }) groups,
        )

  -- The source puts a fresh group into the map before it confirms it, which it then always does.
  unfoldable pub record_live : ReflectorNotification → ℕ → Groups → QuorumResult × Groups
  record_live notification now_seconds groups =
      if not (crypto.verify_notification_signature notification)
      then (rejected_bad_signature, groups)
      else if not (set_has notification.verifier tracker.trusted_verifiers)
      then (rejected_untrusted_verifier notification.verifier, groups)
      else let key = crypto.update_hash notification.event in
        confirm key (or_else (map_get key groups) (fresh_group notification.event now_seconds))
          notification.verifier groups

  unfoldable pub record_notification : ReflectorNotification → ℕ → Groups → QuorumResult × Groups
  record_notification notification now_seconds groups =
      record_live notification now_seconds (prune_expired now_seconds groups)

module _ (d : Double) (power_of_ten : ℕ → d.Num) where
  open d use {Num, from_int, sub, mul, div, abs, round}

  pub record CrossCheckResult : Type 0 where
    pub should_pause : Bool
    pub divergence_bps : ℤ

  unfoldable pub cross_check_price : ℤ → ℕ → Num → ℤ → CrossCheckResult
  cross_check_price reflector_price_raw reflector_decimals redstone_price_usd divergence_hard_bps =
      let reflector_price_usd =
        div (from_int reflector_price_raw) (power_of_ten reflector_decimals) in
      let divergence_bps = round (
        mul (div (abs (sub reflector_price_usd redstone_price_usd)) redstone_price_usd)
          (from_int (pos 10_000))) in
      record {
        should_pause = leb_ℤ divergence_hard_bps divergence_bps;
        divergence_bps = divergence_bps;
      }

module _ (d : Double) where
  -- The answers to one request: RedStone's quote, `BigInt` of a price, and the pause's submission.
  pub record Answers : Type 0 where
    pub now_seconds : ℕ
    pub redstone_price_usd : Result d.Num
    pub big_int : String → Result ℤ
    pub pause : Result String

-- The server's state: the tracker's groups, and how many pauses have been submitted.
pub record Server : Type 0 where
  pub groups : Groups
  pub pauses : ℕ

-- A request: another method or path; or a body that cannot be read, of another shape, or a
-- notification.
pub data Request : Type 0 where
  elsewhere : Request
  unreadable : String → Request
  malformed : Request
  notification : ReflectorNotification → Request

pub data Response : Type 0 where
  not_found bad_request : Response
  status_ok bad_gateway : QuorumResult → Response

module _ (crypto : Crypto) (tracker : QuorumTracker) (d : Double) (power_of_ten : ℕ → d.Num) where
  module _ (divergence_hard_bps : ℤ) (answers : Answers d) where
    pub trigger_guardian_pause : M Server (Unit {0})
    trigger_guardian_pause = do
      modify (λ s. record s { pauses = s.pauses + 1 })
      status ← call answers.pause
      return tt

    pub pause_if : Bool → M Server (Unit {0})
    pause_if should_pause = if should_pause then trigger_guardian_pause else return tt

    pub handle_confirmed_update : ReflectorUpdate → M Server (Unit {0})
    handle_confirmed_update event = do
      redstone ← call answers.redstone_price_usd
      raw ← call (answers.big_int event.price)
      pause_if
          (cross_check_price d power_of_ten raw event.decimals redstone
            divergence_hard_bps).should_pause

    abbrev pub answered : QuorumResult → Result (Unit {0}) × Server → Response × Server
    answered result (ok done, s) = (status_ok result, s)
    answered result (err m, s) = (bad_gateway result, s)

    pub respond : QuorumResult → Server → Response × Server
    respond (quorum_reached event confirming) s =
        answered (quorum_reached event confirming) (handle_confirmed_update event s)
    respond rejected_bad_signature s = (status_ok rejected_bad_signature, s)
    respond (rejected_untrusted_verifier v) s = (status_ok (rejected_untrusted_verifier v), s)
    respond (duplicate vs) s = (status_ok (duplicate vs), s)
    respond (recorded vs needed) s = (status_ok (recorded vs needed), s)
    respond (already_resolved vs) s = (status_ok (already_resolved vs), s)

    pub handle_request : Request → Server → Response × Server
    handle_request elsewhere s = (not_found, s)
    handle_request (unreadable m) s = (bad_request, s)
    handle_request malformed s = (bad_request, s)
    handle_request (notification n) s =
        let (result, groups) = record_notification crypto tracker n answers.now_seconds s.groups in
        respond result (record s { groups = groups })
