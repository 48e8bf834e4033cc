-- ===== src/Sdk/SmartAccount/Poll.antt =====
-- How the wait for a submitted transaction ends.
use Prim.Native.String.{String}
use refluo.Prelude.Result.{Result, ok, err}
use refluo.Prelude.{ℕ, zero, suc, ◌+◌, ◌<◌, ◌≡◌, refl, none, some, arith}
use refluo.Rpc.Retry.{with_retry, with_retry-first, with_retry-last}
use refluo.Sdk.SmartAccount.{Xdr}
use refluo.Sdk.SmartAccount.Submit.{
  not_found, success, failed, GetTransaction, Chain, Params, retried, poll,
}

module _ {V T K S : Type 0} (xdr : Xdr V) (chain : Chain V T K S) (params : Params T K)
    (hash : String) where
  -- The first of the five attempts of a poll that does not throw answers with this.
  abbrev pub Answers : ℕ → GetTransaction → Type 0
  Answers i r =
      (k : ℕ) × (k < 5)
      × ((l : ℕ) → l < k → (m : String) × (chain.get_transaction hash i l ≡ err m))
      × (chain.get_transaction hash i k ≡ ok r)

  -- How a poll ends the wait: its transaction has been found, or all its five attempts throw.
  pub data Ends (i : ℕ) : Result GetTransaction → Type 0 where
    lands : (r : GetTransaction) → Answers i r → r.status ≡ success → Ends i (ok r)
    fails :
        (r : GetTransaction)
        → Answers i r
        → r.status ≡ failed
        → Ends i (err "transaction failed on-chain")
    unreachable :
        (m : String)
        → ((l : ℕ) → l < 4 → (n : String) × (chain.get_transaction hash i l ≡ err n))
        → chain.get_transaction hash i 4 ≡ err m
        → Ends i (err m)

  -- A poll answers that there is no such transaction yet.
  abbrev pub IsAwaited : ℕ → Type 0
  IsAwaited i = (r : GetTransaction) × Answers i r × (r.status ≡ not_found)

  abbrev answer : ℕ → Result GetTransaction
  answer i = retried xdr chain params (chain.get_transaction hash i)

  answer-Answers : (i : ℕ) (r : GetTransaction) → Answers i r → answer i ≡ ok r
  answer-Answers i r (k, h, f, e) = with_retry-first (chain.get_transaction hash i) 5 k r h f e

  poll-Ends :
      (i fuel : ℕ) (end : Result GetTransaction)
      → Ends i end
      → poll xdr chain params (suc fuel) i hash ≡ some end
  unfolding poll with_retry
  poll-Ends i fuel end (lands r a s) = simp (answer-Answers i r a, s) refl
  poll-Ends i fuel end (fails r a s) = simp (answer-Answers i r a, s) refl
  poll-Ends i fuel end (unreachable m f e) =
      simp (with_retry-last (chain.get_transaction hash i) 4 m f e) refl

  poll_from :
      (n i extra : ℕ) (end : Result GetTransaction)
      → ((j : ℕ) → j < n → IsAwaited (i + j))
      → Ends (i + n) end
      → poll xdr chain params (suc n + extra) i hash ≡ some end
  unfolding poll with_retry
  poll_from zero i extra end h e =
      let start : i + 0 ≡ i = omega arith in
      let fuel : 1 + extra ≡ suc extra = omega arith in
      rw fuel (poll-Ends i extra end (rw start at e))
  poll_from (suc n) i extra end h e =
      let (r, a, s) = h 0 (omega arith) in
      let start : i + 0 ≡ i = omega arith in
      let fuel : suc (suc n) + extra ≡ suc (suc n + extra) = omega arith in
      let next : i + suc n ≡ i + 1 + n = omega arith in
      rw fuel (
        simp (answer-Answers i r (rw start at a), s)
          (poll_from n (i + 1) extra end (λ j k. later n j k h) (rw next at e)))
    where
      later : (n j : ℕ) → j < n → ((j : ℕ) → j < suc n → IsAwaited (i + j)) → IsAwaited (i + 1 + j)
      later n j k h =
          let shift : i + suc j ≡ i + 1 + j = omega arith in rw shift at (h (suc j) (omega arith))

  -- If the first n polls find no such transaction and the next one ends the wait, then fuel for
  -- n + 1 polls or more is enough: the wait returns the transaction only if its status is SUCCESS,
  -- and throws if it has failed on the chain, or with the last attempt's error if all five attempts
  -- of the poll throw. A poll's answer is that of its first attempt that does not throw.
  pub poll-Ends_at :
      (n extra : ℕ) (end : Result GetTransaction)
      → ((j : ℕ) → j < n → IsAwaited j)
      → Ends n end
      → poll xdr chain params (suc n + extra) 0 hash ≡ some end
  poll-Ends_at n extra end h e =
      let from_start : (j : ℕ) → 0 + j ≡ j = (λ j. omega arith) in
      poll_from n 0 extra end (λ j k. rw (from_start j) (h j k)) (rw (from_start n) e)

  -- While every poll answers that the transaction is not found, no fuel is enough: the source's
  -- loop has no deadline.
  poll-not_found : ((i : ℕ) → IsAwaited i) → (fuel i : ℕ) → poll xdr chain params fuel i hash ≡ none
  unfolding poll with_retry
  poll-not_found h zero i = refl
  poll-not_found h (suc fuel) i =
      let (r, a, s) = h i in simp (answer-Answers i r a, s) (poll-not_found h fuel (i + 1))
