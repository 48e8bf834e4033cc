-- ===== src/Keeper/Reflector/Webhook.antt =====
-- What one request to the webhook submits and answers.
use Prim.Native.String.{String}
use refluo.Prelude.Result.{Result, ok, err, Result-cases}
use refluo.Prelude.Double.{Double}
use refluo.Prelude.{ℕ, ◌+◌, ◌≡◌, refl, ◌⊎◌, inl, inr, true, List, Bool-cases, ℤ, pos, ◌≤ℤ◌, arith}
use refluo.Keeper.Reflector.{
  ReflectorUpdate, ReflectorNotification, QuorumResult, rejected_bad_signature,
  rejected_untrusted_verifier, duplicate, recorded, quorum_reached, already_resolved, QuorumTracker,
  Crypto, record_notification, cross_check_price, Answers, Server, Request, elsewhere, unreadable,
  malformed, notification, status_ok, bad_gateway, trigger_guardian_pause, pause_if,
  handle_confirmed_update, answered, respond, handle_request,
}

module _ (crypto : Crypto) (tracker : QuorumTracker) (d : Double) (power_of_ten : ℕ → d.Num) where
  module _ (hard_bps : ℤ) (answers : Answers d) where
    -- An update for which the guardian's pause is due: RedStone has a price, and the update's
    -- differs from it by the hard bound or more, in basis points of RedStone's.
    pub record IsDivergent (event : ReflectorUpdate) : Type 0 where
      pub redstone : d.Num
      pub raw : ℤ
      pub quoted : answers.redstone_price_usd ≡ ok redstone
      pub parsed : answers.big_int event.price ≡ ok raw
      pub diverges :
          hard_bps
          ≤ℤ d.round (
              d.mul
                (d.div
                  (d.abs (d.sub (d.div (d.from_int raw) (power_of_ten event.decimals)) redstone))
                  redstone)
                (d.from_int (pos 10_000)))

    -- One pause more, for a confirmed and divergent update.
    pub record IsPaused (n : ReflectorNotification) (s t : Server) : Type 0 where
      pub event : ReflectorUpdate
      pub confirming_verifiers : List String
      pub confirmed :
          (record_notification crypto tracker n answers.now_seconds s.groups).0
          ≡ quorum_reached event confirming_verifiers
      pub divergent : IsDivergent event
      pub once : t.pauses ≡ s.pauses + 1

    -- What a request does to the server.
    pub data Handled (s : Server) : Request → Server → Type 0 where
      ignored : (request : Request) → Handled s request s
      noted :
          (n : ReflectorNotification) (t : Server)
          → t.groups ≡ (record_notification crypto tracker n answers.now_seconds s.groups).1
          → (t.pauses ≡ s.pauses) ⊎ IsPaused n s t
          → Handled s (notification n) t

    trigger_pauses :
        (s : Server)
        → ((trigger_guardian_pause crypto tracker d power_of_ten hard_bps answers s).1.pauses
            ≡ s.pauses + 1)
          × ((trigger_guardian_pause crypto tracker d power_of_ten hard_bps answers s).1.groups
              ≡ s.groups)
    unfolding trigger_guardian_pause
    trigger_pauses s = elim (Result-cases answers.pause) [
      | inl (a, e) ↦ simp e (refl, refl)
      | inr (m, e) ↦ simp e (refl, refl)
    ]

    should_pause-IsDivergent :
        (event : ReflectorUpdate) (redstone : d.Num) (raw : ℤ)
        → answers.redstone_price_usd ≡ ok redstone
        → answers.big_int event.price ≡ ok raw
        → (cross_check_price d power_of_ten raw event.decimals redstone hard_bps).should_pause
          ≡ true
        → IsDivergent event
    unfolding cross_check_price
    should_pause-IsDivergent event redstone raw q p due = record {
      redstone = redstone;
      raw = raw;
      quoted = q;
      parsed = p;
      diverges = ground arith;
    }

    diverges-should_pause :
        (event : ReflectorUpdate) (v : IsDivergent event)
        → (cross_check_price d power_of_ten v.raw event.decimals v.redstone hard_bps).should_pause
          ≡ true
    unfolding cross_check_price
    diverges-should_pause event v = let far = v.diverges in ground arith

    abbrev Confirmed : ReflectorUpdate → Server → Server → Type 0
    Confirmed event s t =
        (t.groups ≡ s.groups)
        × ((t.pauses ≡ s.pauses) ⊎ (IsDivergent event × (t.pauses ≡ s.pauses + 1)))

    pause_if_due :
        (event : ReflectorUpdate) (redstone : d.Num) (raw : ℤ) (s : Server)
        → answers.redstone_price_usd ≡ ok redstone
        → answers.big_int event.price ≡ ok raw
        → Confirmed event s
            (pause_if crypto tracker d power_of_ten hard_bps answers
              (cross_check_price d power_of_ten raw event.decimals redstone hard_bps).should_pause
              s).1
    unfolding pause_if
    pause_if_due event redstone raw s q p =
        elim (Bool-cases
          (cross_check_price d power_of_ten raw event.decimals redstone hard_bps).should_pause) [
            | inl due ↦ simp due (
              (trigger_pauses s).1,
              inr (should_pause-IsDivergent event redstone raw q p due, (trigger_pauses s).0),
            )
            | inr close ↦ simp close (refl, inl refl)
          ]

    handle_confirmed_update-Confirmed :
        (event : ReflectorUpdate) (s : Server)
        → Confirmed event s
            (handle_confirmed_update crypto tracker d power_of_ten hard_bps answers event s).1
    unfolding handle_confirmed_update
    handle_confirmed_update-Confirmed event s = elim (Result-cases answers.redstone_price_usd) [
      | inr (m, q) ↦ simp q (refl, inl refl)
      | inl (redstone, q) ↦ elim (Result-cases (answers.big_int event.price)) [
        | inr (m, p) ↦ simp (q, p) (refl, inl refl)
        | inl (raw, p) ↦ simp (q, p) (pause_if_due event redstone raw s q p)
      ]
    ]

    answered_server :
        (result : QuorumResult) (out : Result (Unit {0}) × Server)
        → (answered crypto tracker d power_of_ten hard_bps answers result out).1 ≡ out.1
    answered_server result (ok done, s) = refl
    answered_server result (err m, s) = refl

    respond-Handled :
        (n : ReflectorNotification) (s : Server) (result : QuorumResult)
        → (record_notification crypto tracker n answers.now_seconds s.groups).0 ≡ result
        → Handled s
            (notification n)
            (respond crypto tracker d power_of_ten hard_bps answers result (record s {
              groups = (record_notification crypto tracker n answers.now_seconds s.groups).1;
            })).1
    unfolding respond
    respond-Handled n s rejected_bad_signature e = noted n _ refl (inl refl)
    respond-Handled n s (rejected_untrusted_verifier v) e = noted n _ refl (inl refl)
    respond-Handled n s (duplicate vs) e = noted n _ refl (inl refl)
    respond-Handled n s (recorded vs needed) e = noted n _ refl (inl refl)
    respond-Handled n s (already_resolved vs) e = noted n _ refl (inl refl)
    respond-Handled n s (quorum_reached event vs) e =
        rw (answered_server (quorum_reached event vs) _)
          (by_update _ (handle_confirmed_update-Confirmed event _))
      where
        by_update :
            (t : Server)
            → Confirmed event
                (record s {
                  groups = (record_notification crypto tracker n answers.now_seconds s.groups).1;
                })
                t
            → Handled s (notification n) t
        by_update t (g, inl same) = noted n t g (inl same)
        by_update t (g, inr (divergent, once)) = noted n t g (
            inr (record {
              event = event;
              confirming_verifiers = vs;
              confirmed = e;
              divergent = divergent;
              once = once;
            }))

    -- A request that is no notification leaves the server as it is. A notification is recorded by
    -- the tracker, and submits at most one pause: only if it has just reached a quorum, RedStone
    -- has answered, and its price differs from the confirmed one by the hard bound or more.
    pub handle_request-Handled :
        (request : Request) (s : Server)
        → Handled s request
            (handle_request crypto tracker d power_of_ten hard_bps answers request s).1
    unfolding handle_request
    handle_request-Handled elsewhere s = ignored elsewhere
    handle_request-Handled (unreadable m) s = ignored (unreadable m)
    handle_request-Handled malformed s = ignored malformed
    handle_request-Handled (notification n) s = respond-Handled n s _ refl

    -- A notification that reaches a quorum on a divergent update submits a pause, whether or not
    -- that call then goes through, and it is answered 200 if it does and 502 if it does not.
    handle_request-divergent :
        (n : ReflectorNotification) (s : Server) (event : ReflectorUpdate) (vs : List String)
        → (record_notification crypto tracker n answers.now_seconds s.groups).0
          ≡ quorum_reached event vs
        → IsDivergent event
        → ((handle_request crypto tracker d power_of_ten hard_bps answers
              (notification n)
              s).1.pauses
            ≡ s.pauses + 1)
          × ((handle_request crypto tracker d power_of_ten hard_bps answers (notification n) s).0
              ≡ elim answers.pause [
                | ok status ↦ status_ok (quorum_reached event vs)
                | err m ↦ bad_gateway (quorum_reached event vs)
              ])
    unfolding handle_request respond handle_confirmed_update pause_if trigger_guardian_pause
    handle_request-divergent n s event vs e v = elim (Result-cases answers.pause) [
      | inl (status, p) ↦
          simp (e, v.quoted, v.parsed, diverges-should_pause event v, p) (refl, refl)
      | inr (m, p) ↦ simp (e, v.quoted, v.parsed, diverges-should_pause event v, p) (refl, refl)
    ]
