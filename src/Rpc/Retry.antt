-- ===== src/Rpc/Retry.antt =====
-- `withRetry` of keeper/src/swap.ts (the same text stands in sdk/src/smartAccountAuth.ts) and of
-- dashboard/src/lib/withRetry.ts. The call is a function from the round to its answer; a run's
-- second part counts the pauses between rounds.
use Prim.Native.String.{String}
use refluo.Prelude.Result.{Result, ok, err, Result-cases}
use refluo.Prelude.{
  ℕ, zero, suc, ◌+◌, ◌-◌, ◌<◌, ◌≤◌, ◌≡◌, refl, ap, ◌∙◌, inl, inr, arith, ==_iff, ◌==◌, ltb,
  if◌then◌else◌, Bool-cases,
}

module _ {A : Type 0} where
  abbrev after_pause : ℕ → Result A × ℕ → Result A × ℕ
  after_pause n (r, pauses) = (r, n + pauses)

  -- The keeper's loop: `left` rounds are left, round `i` is next, `last` is the last error.
  retry_from : (ℕ → Result A) → ℕ → (left : ℕ) → String → Result A × ℕ
  retry_from fn i zero last = (err last, 0)
  retry_from fn i (suc left) last = elim (fn i) [
    | ok a ↦ (ok a, 0)
    | err m ↦ after_pause 1 (retry_from fn (i + 1) left m)
  ]

  -- With no attempt at all the source throws `undefined`.
  unfoldable pub with_retry : (ℕ → Result A) → ℕ → Result A × ℕ
  unfolding retry_from
  with_retry fn attempts = retry_from fn 0 attempts "undefined"

  -- The dashboard's loop does not pause behind the last round.
  dashboard_from : (ℕ → Result A) → ℕ → ℕ → (left : ℕ) → String → Result A × ℕ
  dashboard_from fn attempts i zero last = (err last, 0)
  dashboard_from fn attempts i (suc left) last = elim (fn i) [
    | ok a ↦ (ok a, 0)
    | err m ↦
        after_pause (if ltb i (attempts - 1) then 1 else 0)
          (dashboard_from fn attempts (i + 1) left m)
  ]

  unfoldable pub dashboard_with_retry : (ℕ → Result A) → ℕ → Result A × ℕ
  unfolding dashboard_from
  dashboard_with_retry fn attempts = dashboard_from fn attempts 0 attempts "undefined"

  -- All rounds from `i` up to `j`, without `j`, throw.
  abbrev pub FailsUntil : (ℕ → Result A) → ℕ → ℕ → Type 0
  FailsUntil fn i j = (k : ℕ) → i ≤ k → k < j → (m : String) × (fn k ≡ err m)

  FailsUntil-cons :
      (fn : ℕ → Result A) (i j : ℕ) {m : String}
      → fn i ≡ err m
      → FailsUntil fn (i + 1) j
      → FailsUntil fn i j
  FailsUntil-cons fn i j {m} e f k h l = elim (Bool-cases (k == i)) [
    | inl same ↦ (m, ap fn ((==_iff k i).0 same) ∙ e)
    | inr other ↦ f k (ground arith) l
  ]

  -- What a run of `attempts` rounds comes to: the first success, with one pause for each failure
  -- before it, or the last error, when every round has failed.
  pub data Outcome (fn : ℕ → Result A) (from attempts : ℕ) : Result A × ℕ → Type 0 where
    succeeds :
        (k : ℕ) (a : A)
        → from ≤ k
        → k < from + attempts
        → FailsUntil fn from k
        → fn k ≡ ok a
        → Outcome fn from attempts (ok a, k - from)
    gives_up :
        (m : String) (pauses : ℕ)
        → FailsUntil fn from (from + attempts)
        → pauses ≡ attempts
        → Outcome fn from attempts (err m, pauses)

  Outcome-cons :
      (fn : ℕ → Result A) (i left : ℕ) {m : String} (r : Result A) (pauses : ℕ)
      → fn i ≡ err m
      → Outcome fn (i + 1) left (r, pauses)
      → Outcome fn i (suc left) (r, 1 + pauses)
  Outcome-cons fn i left r pauses e (succeeds k a h l f s) =
      rw (shift k h) (succeeds k a (omega arith) (omega arith) (FailsUntil-cons fn i k e f) s)
    where
      shift : (k : ℕ) → i + 1 ≤ k → 1 + (k - (i + 1)) ≡ k - i
      shift k h = omega arith
  Outcome-cons fn i left r pauses e (gives_up m p f q) =
      gives_up m (1 + p) (λ k h l. FailsUntil-cons fn i (i + suc left) e (rw (end) f) k h l)
        (omega arith)
    where
      end : i + suc left ≡ i + 1 + left
      end = omega arith

  Outcome-first :
      (fn : ℕ → Result A) (i left : ℕ) (a : A) → fn i ≡ ok a → Outcome fn i (suc left) (ok a, 0)
  Outcome-first fn i left a e =
      let none_before : 0 ≡ i - i = omega arith in
      rw none_before (succeeds i a (omega arith) (omega arith) (λ k h l. absurd (omega arith)) e)

  retry_from-Outcome :
      (fn : ℕ → Result A) (i left : ℕ) (last : String)
      → Outcome fn i left (retry_from fn i left last)
  unfolding retry_from
  retry_from-Outcome fn i zero last = gives_up last 0 (λ k h l. absurd (omega arith)) refl
  retry_from-Outcome fn i (suc left) last = elim (Result-cases (fn i)) [
    | inl (a, e) ↦ rw (e, retry_from) (Outcome-first fn i left a e)
    | inr (m, e) ↦
        rw (e, retry_from) (Outcome-cons fn i left _ _ e (retry_from-Outcome fn (i + 1) left m))
  ]

  retry_from-first :
      (fn : ℕ → Result A) (i d left : ℕ) (last : String) (a : A)
      → d < left
      → ((l : ℕ) → l < d → (m : String) × (fn (i + l) ≡ err m))
      → fn (i + d) ≡ ok a
      → (retry_from fn i left last).0 ≡ ok a
  unfolding retry_from
  retry_from-first fn i d zero last a h f e = absurd (omega arith)
  retry_from-first fn i zero (suc left) last a h f e =
      let here : fn i ≡ ok a = ap fn (omega arith) ∙ e in rw (here, retry_from) refl
  retry_from-first fn i (suc d) (suc left) last a h f e =
      let (m, fails) = f 0 (omega arith) in
      let here : fn i ≡ err m = ap fn (omega arith) ∙ fails in
      rw (here, retry_from)
        (retry_from-first fn (i + 1) d left m a (omega arith)
          (λ l k. let (n, g) = f (suc l) (omega arith) in (n, ap fn (omega arith) ∙ g))
          (ap fn (omega arith) ∙ e))

  retry_from-last :
      (fn : ℕ → Result A) (i left : ℕ) (last m : String)
      → ((l : ℕ) → l < left → (n : String) × (fn (i + l) ≡ err n))
      → fn (i + left) ≡ err m
      → (retry_from fn i (suc left) last).0 ≡ err m
  unfolding retry_from
  retry_from-last fn i zero last m f e =
      let here : fn i ≡ err m = ap fn (omega arith) ∙ e in rw (here, retry_from) refl
  retry_from-last fn i (suc left) last m f e =
      let (n, fails) = f 0 (omega arith) in
      let here : fn i ≡ err n = ap fn (omega arith) ∙ fails in
      rw (here, retry_from)
        (retry_from-last fn (i + 1) left n m
          (λ l k. let (o, g) = f (suc l) (omega arith) in (o, ap fn (omega arith) ∙ g))
          (ap fn (omega arith) ∙ e))

  -- A run comes to the first answer, if it is among the attempts.
  pub with_retry-first :
      (fn : ℕ → Result A) (attempts d : ℕ) (a : A)
      → d < attempts
      → ((l : ℕ) → l < d → (m : String) × (fn l ≡ err m))
      → fn d ≡ ok a
      → (with_retry fn attempts).0 ≡ ok a
  unfolding with_retry
  with_retry-first fn attempts d a h f e =
      retry_from-first fn 0 d attempts "undefined" a h
        (λ l k. let (m, g) = f l k in (m, ap fn (omega arith) ∙ g)) (ap fn (omega arith) ∙ e)

  -- A run comes to the error of its last attempt, if all attempts throw.
  pub with_retry-last :
      (fn : ℕ → Result A) (left : ℕ) (m : String)
      → ((l : ℕ) → l < left → (n : String) × (fn l ≡ err n))
      → fn left ≡ err m
      → (with_retry fn (suc left)).0 ≡ err m
  unfolding with_retry
  with_retry-last fn left m f e =
      retry_from-last fn 0 left "undefined" m
        (λ l k. let (n, g) = f l k in (n, ap fn (omega arith) ∙ g)) (ap fn (omega arith) ∙ e)

  -- The keeper's retry returns the first success among its attempts after one pause for each
  -- failure before it, and throws only when all attempts have thrown, after as many pauses.
  pub with_retry-Outcome :
      (fn : ℕ → Result A) (attempts : ℕ) → Outcome fn 0 attempts (with_retry fn attempts)
  unfolding with_retry
  with_retry-Outcome fn attempts = retry_from-Outcome fn 0 attempts "undefined"

  -- The pauses that the keeper makes and the dashboard does not: one, behind a last failure.
  abbrev pub spare_pause : Result A → ℕ
  spare_pause (ok a) = 0
  spare_pause (err m) = 1

  dashboard_from-retry_from :
      (fn : ℕ → Result A) (attempts i left : ℕ) (last : String)
      → i + suc left ≡ attempts
      → ((dashboard_from fn attempts i (suc left) last).0 ≡ (retry_from fn i (suc left) last).0)
        × ((retry_from fn i (suc left) last).1
            ≡ spare_pause (retry_from fn i (suc left) last).0
              + (dashboard_from fn attempts i (suc left) last).1)
  unfolding dashboard_from retry_from
  dashboard_from-retry_from fn attempts i zero last h = ground arith
  dashboard_from-retry_from fn attempts i (suc left) last h =
      ground (arith, λ (m : String). dashboard_from-retry_from fn attempts (i + 1) left m)

  -- With at least one attempt both retries end with the same answer, and the keeper's makes exactly
  -- one pause more when it throws, and as many when it returns.
  pub dashboard_with_retry-with_retry :
      (fn : ℕ → Result A) (attempts : ℕ)
      → 0 < attempts
      → ((dashboard_with_retry fn attempts).0 ≡ (with_retry fn attempts).0)
        × ((with_retry fn attempts).1
            ≡ spare_pause (with_retry fn attempts).0 + (dashboard_with_retry fn attempts).1)
  unfolding dashboard_with_retry with_retry
  dashboard_with_retry-with_retry fn zero h = absurd (omega arith)
  dashboard_with_retry-with_retry fn (suc n) h =
      dashboard_from-retry_from fn (suc n) 0 n "undefined" (omega arith)
