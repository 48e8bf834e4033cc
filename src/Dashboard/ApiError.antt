-- ===== src/Dashboard/ApiError.antt =====
-- dashboard/src/lib/apiError.ts, the routes' error handling, and apiClient.ts, which reads what they
-- answer. The codec of the JSON envelope {error, retryable} and the printing of a status are
-- parameters.
pub mod Client
use Prim.Native.String.{String, ◌++◌}
use refluo.Prelude.Patterns.{Pattern, ignoring_case, whole_word, tests}
use refluo.Prelude.{
  ℕ, Bool, true, false, not, ◌&&◌, Option, none, some, List, [], ◌∷◌, any, leb, ltb, or_else,
  if◌then◌else◌,
}

pub record ApiError : Type 0 where
  pub message : String
  pub status : ℕ
  pub retryable : Bool

abbrev pub api_error_of : String → ℕ → Bool → ApiError
api_error_of message status retryable = record {
  message = message;
  status = status;
  retryable = retryable;
}

abbrev pub unauthenticated_error : ApiError
unauthenticated_error = api_error_of "unauthenticated" 401 false

abbrev pub forbidden_error : String → ApiError
forbidden_error message = api_error_of message 403 false

abbrev pub transient_patterns : List Pattern
transient_patterns =
    ignoring_case "timeout"
    ∷ ignoring_case "ETIMEDOUT"
    ∷ ignoring_case "ECONNRESET"
    ∷ ignoring_case "ENETUNREACH"
    ∷ ignoring_case "ENOTFOUND"
    ∷ ignoring_case "fetch failed"
    ∷ ignoring_case "account not found"
    ∷ ignoring_case "rate limit"
    ∷ whole_word "502"
    ∷ whole_word "503"
    ∷ whole_word "504"
    ∷ ignoring_case "startLedger must be within"
    ∷ []

unfoldable pub is_transient : String → Bool
is_transient message = any (λ pattern. tests pattern message) transient_patterns

-- What a handler throws: an ApiError, or any other value, by its message.
pub data Thrown : Type 0 where
  api_error : ApiError → Thrown
  other : String → Thrown

unfoldable pub classify_error : Thrown → ApiError
classify_error (api_error e) = e
classify_error (other message) =
    if is_transient message
    then api_error_of "Temporary network or RPC issue talking to the Stellar testnet. Please retry."
        503 true
    else api_error_of message 500 false

-- What a route's handler comes to.
pub data Attempt (A : Type 0) : Type 0 where
  answers : A → Attempt A
  throws : Thrown → Attempt A

-- `none`: the body is no JSON.
pub record HttpResponse (B : Type 0) : Type 0 where
  pub status : ℕ
  pub body : Option B

-- `NextResponse.json(body, { status })`.
abbrev pub json_response : {B : Type 0} → ℕ → B → HttpResponse B
json_response status body = record { status = status; body = some body }

-- What a handler that answers with a body, and status 200, comes to.
abbrev pub as_json : {B : Type 0} → Attempt B → Attempt (HttpResponse B)
as_json (answers b) = answers (json_response 200 b)
as_json (throws thrown) = throws thrown

-- JSON bodies: the error envelope written, and its fields read; a field that is missing is `none`.
pub record Envelope (B : Type 0) : Type 0 where
  pub error_json : String → Bool → B
  pub error_of : B → Option String
  pub retryable_of : B → Option Bool

module _ {B : Type 0} (envelope : Envelope B) where
  abbrev pub to_error_response : Thrown → HttpResponse B
  to_error_response thrown =
      let e = classify_error thrown in
      record { status = e.status; body = some (envelope.error_json e.message e.retryable) }

  unfoldable pub with_error_handling : Attempt (HttpResponse B) → HttpResponse B
  with_error_handling (answers response) = response
  with_error_handling (throws thrown) = to_error_response thrown

  -- `res.ok`.
  abbrev pub is_ok : ℕ → Bool
  is_ok status = leb 200 status && ltb status 300

  -- The client's view: the parsed body, or an ApiClientError, with the same fields as ApiError.
  pub data Fetched : Type 0 where
    fetched : Option B → Fetched
    client_error : ApiError → Fetched

  abbrev pub field_of : {F : Type 0} → (B → Option F) → Option B → Option F
  field_of get none = none
  field_of get (some b) = get b

  module _ (print : ℕ → String) where
    abbrev pub failed_with : ℕ → Option B → ApiError
    failed_with status body =
        api_error_of
          (or_else (field_of envelope.error_of body)
            ("Request failed with status " ++ print status))
          status (or_else (field_of envelope.retryable_of body) (leb 500 status))

    -- `none`: the request itself failed.
    unfoldable pub fetch_json : Option (HttpResponse B) → Fetched
    fetch_json none =
        client_error
          (api_error_of "Network request failed. Check your connection and retry." 0 true)
    fetch_json (some response) =
        if not (is_ok response.status)
        then client_error (failed_with response.status response.body)
        else fetched response.body
