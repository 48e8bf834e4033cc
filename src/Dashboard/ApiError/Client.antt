-- ===== src/Dashboard/ApiError/Client.antt =====
-- What the client makes of a route's answer.
use Prim.Native.String.{String, ◌++◌}
use refluo.Prelude.{
  ℕ, ◌<◌, ◌≤◌, ◌≡◌, ◌⊎◌, ◌↔◌, refl, Bool, false, true, some, none, leb, or_else, inl, inr, arith,
  Bool-cases,
}
use refluo.Dashboard.ApiError.{
  Thrown, ApiError, classify_error, Attempt, answers, throws, HttpResponse, Envelope,
  with_error_handling, is_ok, Fetched, fetched, client_error, field_of, fetch_json,
}

module _ {B : Type 0} (envelope : Envelope B) (print : ℕ → String) where
  -- The error that a client has of a response: its status, and the message and the flag that its
  -- body holds, or else a message that names the status and a flag that is set from 500 on.
  pub record IsErrorOf (response : HttpResponse B) (e : ApiError) : Type 0 where
    pub status : e.status ≡ response.status
    pub message :
        e.message
        ≡ or_else
            (field_of envelope envelope.error_of response.body)
            ("Request failed with status " ++ print response.status)
    pub told :
        (flag : Bool)
        → field_of envelope envelope.retryable_of response.body ≡ some flag
        → e.retryable ≡ flag
    pub untold :
        field_of envelope envelope.retryable_of response.body ≡ none
        → (e.retryable ≡ true) ↔ (500 ≤ response.status)

  -- What the client sees of a handler.
  pub data Sees : Attempt (HttpResponse B) → Fetched envelope → Type 0 where
    content :
        (response : HttpResponse B)
        → 200 ≤ response.status
        → response.status < 300
        → Sees (answers response) (fetched response.body)
    refusal :
        (response : HttpResponse B) (e : ApiError)
        → (response.status < 200) ⊎ (300 ≤ response.status)
        → IsErrorOf response e
        → Sees (answers response) (client_error e)
    failure : (thrown : Thrown) → Sees (throws thrown) (client_error (classify_error thrown))

  -- A thrown error's status is none of a success.
  abbrev pub IsFailure : Attempt (HttpResponse B) → Type 0
  IsFailure (answers response) = Unit
  IsFailure (throws thrown) = is_ok envelope (classify_error thrown).status ≡ false

  response_seen :
      (response : HttpResponse B)
      → Sees (answers response) (fetch_json envelope print (some response))
  unfolding fetch_json
  response_seen response = elim (Bool-cases (is_ok envelope response.status)) [
    | inl succeeded ↦ rw succeeded (content response (ground arith) (ground arith))
    | inr refused ↦ rw refused (
        refusal response _ (outside refused) (record {
          status = refl;
          message = refl;
          told = λ flag e. simp e refl;
          untold = λ e. simp e (by_status response.status);
        }))
  ]
    where
      outside :
          is_ok envelope response.status ≡ false → (response.status < 200) ⊎ (300 ≤ response.status)
      outside refused = elim (Bool-cases (leb 200 response.status)) [
        | inl large ↦ inr (ground arith)
        | inr small ↦ inl (ground arith)
      ]

      by_status : (n : ℕ) → (leb 500 n ≡ true) ↔ (500 ≤ n)
      by_status n = (λ h. ground arith, λ h. ground arith)

  thrown_seen :
      (thrown : Thrown)
      → ((message : String) (retryable : Bool)
          → envelope.error_of (envelope.error_json message retryable) ≡ some message)
      → ((message : String) (retryable : Bool)
          → envelope.retryable_of (envelope.error_json message retryable) ≡ some retryable)
      → is_ok envelope (classify_error thrown).status ≡ false
      → fetch_json envelope print (some (with_error_handling envelope (throws thrown)))
        ≡ client_error (classify_error thrown)
  unfolding fetch_json with_error_handling
  thrown_seen thrown e r f =
      let c = classify_error thrown in
      simp (f, e c.message c.retryable, r c.message c.retryable) refl

  -- If the envelope's fields are read back as they were written and a thrown error has no status of
  -- a success, the client gets the body of just the response that the handler built if its status
  -- is one of 200 to 299, an error with the response's status, message and flag if it is any other,
  -- and the classified error with its message, status and flag if the handler threw.
  pub fetch_json-with_error_handling :
      (attempt : Attempt (HttpResponse B))
      → ((message : String) (retryable : Bool)
          → envelope.error_of (envelope.error_json message retryable) ≡ some message)
      → ((message : String) (retryable : Bool)
          → envelope.retryable_of (envelope.error_json message retryable) ≡ some retryable)
      → IsFailure attempt
      → Sees attempt (fetch_json envelope print (some (with_error_handling envelope attempt)))
  fetch_json-with_error_handling (answers response) e r f =
      unfold with_error_handling in response_seen response
  fetch_json-with_error_handling (throws thrown) e r f =
      rw (thrown_seen thrown e r f) (failure thrown)
