-- ===== src/Keeper/Reflector/Failure.antt =====
-- A cross-check that fails behind a quorum.
use Prim.Native.String.{String}
use refluo.Prelude.Result.{err}
use refluo.Prelude.Double.{Double}
use refluo.Prelude.{ℕ, ◌≡◌, refl, List, ℤ}
use refluo.Keeper.Reflector.{
  ReflectorUpdate, ReflectorNotification, quorum_reached, already_resolved, QuorumTracker, Crypto,
  record_notification, Answers, Server, notification, status_ok, bad_gateway,
  handle_confirmed_update, respond, handle_request,
}
use refluo.Keeper.Reflector.Repeat.{record_notification-again}

module _ (crypto : Crypto) (tracker : QuorumTracker) (d : Double) (power_of_ten : ℕ → d.Num) where
  -- When a notification reaches a quorum and RedStone's quote then fails, the answer is 502 and no
  -- pause is submitted. The same notification sent again in the same second, to whatever answers,
  -- finds the quorum already resolved: it is answered 200, submits no pause and changes nothing.
  pub failed_check_is_final :
      (hard_bps : ℤ) (answers retry : Answers d) (n : ReflectorNotification) (s : Server)
      (event : ReflectorUpdate) (vs : List String) (m : String)
      → retry.now_seconds ≡ answers.now_seconds
      → (record_notification crypto tracker n answers.now_seconds s.groups).0
        ≡ quorum_reached event vs
      → answers.redstone_price_usd ≡ err m
      → let (response, t) =
          handle_request crypto tracker d power_of_ten hard_bps answers (notification n) s in
        (response ≡ bad_gateway (quorum_reached event vs))
        × (t.pauses ≡ s.pauses)
        × (handle_request crypto tracker d power_of_ten hard_bps retry (notification n) t
            ≡ (status_ok (already_resolved vs), t))
  unfolding handle_request respond handle_confirmed_update
  failed_check_is_final hard_bps answers retry n s event vs m same q f =
      let again =
        rw q at (record_notification-again crypto tracker answers.now_seconds n s.groups) in
      simp (same, q, f) (refl, refl, rw again)
