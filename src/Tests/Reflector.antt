-- ===== src/Tests/Reflector.antt =====
-- Examples for the quorum of notifications and the webhook.
use Prim.Native.String.{String}
use refluo.Prelude.Json.{null}
use refluo.Prelude.Result.{Result, ok, err}
use refluo.Prelude.{ℕ, ◌^◌, ◌≡◌, refl, true, some, [], ◌∷◌, pos}
use refluo.Keeper.Reflector.{
  ReflectorUpdate, ReflectorNotification, quorum_reached, already_resolved, QuorumTracker,
  new_tracker, set_of, Crypto, record_notification, record_live, prune_expired, confirm, Answers,
  Server, notification, status_ok, bad_gateway, handle_request,
}
use refluo.Keeper.Reflector.Quorum.{start, step, IsBacked, record_notification-IsBacked}
use refluo.Keeper.Reflector.Webhook.{Handled, handle_request-Handled}
use refluo.Keeper.Reflector.Failure.{failed_check_is_final}
use refluo.Prelude.Maps.{set_add, set_has, map_get, map_set}
use refluo.Keeper.Reflector.Receive.{stream_end, read, request_of}
use refluo.Keeper.Reflector.Receive.Chunks.{concat, emitted, whole_body, request_of-emitted}
use refluo.Tests.Numbers.{whole}

-- Every signature verifies, and the price is the hash.
abbrev trusting : Crypto
trusting = record { update_hash = λ u. u.price; verify_notification_signature = λ n. true }

abbrev settings : QuorumTracker
settings = record {
  trusted_verifiers = set_of [] ("GA" ∷ "GB" ∷ "GC" ∷ []);
  quorum_size = 2;
  window_seconds = 600;
}

abbrev update : ReflectorUpdate
update = record { price = "1300"; decimals = 1; timestamp = 5; object = null }

abbrev sent_by : String → ReflectorNotification
sent_by verifier = record { event = update; signature = "s"; verifier = verifier }

abbrev one_more : Server
one_more = record {
  groups = (record_notification trusting settings (sent_by "GA") 1_000 []).1;
  pauses = 0;
}

record_notification-IsBacked_example :
    IsBacked trusting settings
      ((sent_by "GB", 1_010) ∷ (sent_by "GA", 1_000) ∷ [])
      "1300"
      (record_notification trusting settings (sent_by "GB") 1_010 one_more.groups).0
record_notification-IsBacked_example =
    record_notification-IsBacked trusting settings ("GA" ∷ "GB" ∷ "GC" ∷ []) 2 600 (sent_by "GB")
      1_010 built (step (sent_by "GA") 1_000 start)
  where
    built : new_tracker ("GA" ∷ "GB" ∷ "GC" ∷ []) 2 600 ≡ ok settings
    built = unfold new_tracker in refl

abbrev quotes : Result ℕ → Answers whole
quotes redstone = record {
  now_seconds = 1_010;
  redstone_price_usd = redstone;
  big_int = λ text. ok (pos 1_300);
  pause = ok "SUCCESS";
}

handle_request-Handled_example :
    Handled trusting settings whole
      (λ n. 10 ^ n)
      (pos 500)
      (quotes (ok 50))
      one_more
      (notification (sent_by "GB"))
      (handle_request trusting settings whole
        (λ n. 10 ^ n)
        (pos 500)
        (quotes (ok 50))
        (notification (sent_by "GB"))
        one_more).1
handle_request-Handled_example =
    handle_request-Handled trusting settings whole (λ n. 10 ^ n) (pos 500) (quotes (ok 50))
      (notification (sent_by "GB")) one_more

reaches :
    (record_notification trusting settings (sent_by "GB") 1_010 one_more.groups).0
    ≡ quorum_reached update ("GA" ∷ "GB" ∷ [])
unfolding record_notification record_live prune_expired confirm set_add set_has map_get map_set
reaches = refl

failed_check_is_final_example :
    let (response, t) =
      handle_request trusting settings whole
        (λ n. 10 ^ n)
        (pos 500)
        (quotes (err "HTTP 500"))
        (notification (sent_by "GB"))
        one_more in
    (response ≡ bad_gateway (quorum_reached update ("GA" ∷ "GB" ∷ [])))
    × (t.pauses ≡ 0)
    × (handle_request trusting settings whole
          (λ n. 10 ^ n)
          (pos 500)
          (quotes (ok 50))
          (notification (sent_by "GB"))
          t
        ≡ (status_ok (already_resolved ("GA" ∷ "GB" ∷ [])), t))
failed_check_is_final_example =
    failed_check_is_final trusting settings whole (λ n. 10 ^ n) (pos 500) (quotes (err "HTTP 500"))
      (quotes (ok 50)) (sent_by "GB") one_more update ("GA" ∷ "GB" ∷ []) "HTTP 500" refl reaches
      refl

request_of-emitted_example :
    request_of "/reflector-webhook"
      (λ bytes. ok null)
      (λ text. 0)
      "POST"
      "/reflector-webhook"
      (emitted ((1 ∷ []) ∷ (2 ∷ []) ∷ []) (stream_end ∷ []))
    ≡ read "/reflector-webhook"
        (λ bytes. ok null)
        (λ text. 0)
        (some (whole_body (λ bytes. ok null) (concat ((1 ∷ []) ∷ (2 ∷ []) ∷ []))))
request_of-emitted_example =
    request_of-emitted (λ bytes. ok null) "/reflector-webhook" (λ text. 0)
      ((1 ∷ []) ∷ (2 ∷ []) ∷ []) (stream_end ∷ [])
