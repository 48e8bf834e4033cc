-- ===== src/Keeper/Reflector/Receive.antt =====
-- How keeper/src/reflectorWebhookServer.ts reads a request, and verifyNotificationSignature of
-- keeper/src/reflectorSubscription.ts. JSON.parse, base64, sha256 and the check of an Ed25519
-- signature are parameters.
pub mod Chunks
use Prim.Native.String.{String}
use text.Mathlib.Text.{◌==◌ as str_eq}
use refluo.Prelude.Json.{Json, null, bool, number, string, array, object, Items, Fields, end, field}
use refluo.Prelude.Result.{Result, ok, err}
use refluo.Prelude.Double.{Double}
use refluo.Prelude.{
  ℕ, ◌+◌, Bool, true, false, not, ◌&&◌, ◌||◌, Option, none, some, List, [], ◌∷◌, ◌++◌, length, ltb,
  or_else, if◌then◌else◌,
}
use refluo.Keeper.Reflector.{
  ReflectorUpdate, ReflectorNotification, QuorumTracker, Crypto, Answers, Server, Request,
  elsewhere, unreadable, malformed, notification, Response, handle_request,
}
use refluo.Keeper.Reflector.Canonical.{compute_update_hash}

abbrev pub Bytes : Type 0
Bytes = List ℕ

abbrev pub max_body_bytes : ℕ
max_body_bytes = 65_536

-- What a request's stream emits.
pub data StreamEvent : Type 0 where
  data_chunk : Bytes → StreamEvent
  stream_end : StreamEvent
  stream_error : String → StreamEvent

module _ (parse_json : Bytes → Result Json) where
  -- The listeners, with the bytes that have come. A promise is settled once: what follows a
  -- rejection has no effect. A stream that emits no more leaves it open, which is `none`.
  unfoldable pub read_json_body :
      (received : ℕ) (chunks : Bytes) → List StreamEvent → Option (Result Json)
  read_json_body received chunks [] = none
  read_json_body received chunks (data_chunk chunk ∷ events) =
      let later = read_json_body (received + length chunk) (chunks ++ chunk) events in
      if ltb max_body_bytes (received + length chunk)
      then some (err "request body too large")
      else later
  read_json_body received chunks (stream_end ∷ events) = some (parse_json chunks)
  read_json_body received chunks (stream_error m ∷ events) = some (err m)

abbrev pub find_field : String → Fields → Option Json
find_field key end = none
find_field key (field k v fs) = if str_eq k key then some v else find_field key fs

-- A property of a parsed value; only objects have the properties that are asked for.
abbrev pub property : String → Json → Option Json
property key null = none
property key (bool b) = none
property key (number n) = none
property key (string s) = none
property key (array xs) = none
property key (object fs) = find_field key fs

abbrev pub string_in : Option Json → Option String
string_in none = none
string_in (some null) = none
string_in (some (bool b)) = none
string_in (some (number n)) = none
string_in (some (string s)) = some s
string_in (some (array xs)) = none
string_in (some (object fs)) = none

abbrev pub number_in : Option Json → Option String
number_in none = none
number_in (some null) = none
number_in (some (bool b)) = none
number_in (some (number n)) = some n
number_in (some (string s)) = none
number_in (some (array xs)) = none
number_in (some (object fs)) = none

-- The `update` that is an object, with its `event`.
abbrev pub event_in : Json → Option Json
event_in body = elim (property "update" body) [
  | none ↦ none
  | some update ↦ property "event" update
]

abbrev pub chain : {A B : Type 0} → Option A → (A → Option B) → Option B
chain none f = none
chain (some a) f = f a

-- What `isReflectorNotification` lets through, with the fields that it has looked at. The numbers
-- of an update are natural, and reading one is a parameter.
unfoldable pub reflector_notification_of :
    (number_of : String → ℕ) → Json → Option ReflectorNotification
reflector_notification_of number_of body =
    chain (string_in (property "signature" body)) (λ signature.
      chain (string_in (property "verifier" body)) (λ verifier. chain (event_in body) (λ event.
        chain (string_in (property "price" event)) (λ price.
          chain (number_in (property "decimals" event)) (λ decimals.
            chain (number_in (property "timestamp" event)) (λ timestamp. some (record {
              event = record {
                price = price;
                decimals = number_of decimals;
                timestamp = number_of timestamp;
                object = event;
              };
              signature = signature;
              verifier = verifier;
            })))))))

-- The parts of the crypto: `none` where the SDK throws on a key or a signature.
pub record Primitives : Type 0 where
  pub locale_before : String → String → Bool
  pub stringify : Json → String
  pub sha256 : String → Bytes
  pub to_hex : Bytes → String
  pub from_base64 : String → Bytes
  pub verify : (verifier : String) (hash signature : Bytes) → Option Bool

module _ (p : Primitives) where
  abbrev pub update_hash : ReflectorUpdate → Bytes
  update_hash event = compute_update_hash p.locale_before p.stringify p.sha256 event.object

  unfoldable pub verify_notification_signature : ReflectorNotification → Bool
  verify_notification_signature n =
      or_else (p.verify n.verifier (update_hash n.event) (p.from_base64 n.signature)) false

  abbrev pub crypto_of : Crypto
  crypto_of = record {
    update_hash = λ event. p.to_hex (update_hash event);
    verify_notification_signature = verify_notification_signature;
  }

module _ (path : String) (parse_json : Bytes → Result Json) (number_of : String → ℕ) where
  abbrev pub shaped : Option ReflectorNotification → Request
  shaped none = malformed
  shaped (some n) = notification n

  abbrev pub read : Option (Result Json) → Option Request
  read none = none
  read (some (err m)) = some (unreadable m)
  read (some (ok body)) = some (shaped (reflector_notification_of number_of body))

  -- The request that the server handles; `none` while its body has not ended.
  unfoldable pub request_of : (method url : String) → List StreamEvent → Option Request
  request_of method url events =
      if not (str_eq method "POST") || not (str_eq url path)
      then some elsewhere
      else read (read_json_body parse_json 0 [] events)
