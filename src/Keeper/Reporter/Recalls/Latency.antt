-- ===== src/Keeper/Reporter/Recalls/Latency.antt =====
-- The latency percentiles and buckets.
use native.Mathlib.Nat.{mul-le-mul_right}
use mathlib.Core.Option.{some_inj}
use refluo.Prelude.Sort.{length-sort_by, sort_by, IsSorted, sort_by-IsSorted}
use refluo.Prelude.{
  ℕ, zero, suc, ◌+◌, ◌*◌, ◌≤◌, ◌<◌, ◌≡◌, refl, inl, inr, Bool, true, false, Option, some, List, [],
  ◌∷◌, map, keep, length, get_elem?, All, arith, ltb, leb, or_else, if◌then◌else◌, Bool-cases,
}
use refluo.Keeper.Reporter.Recalls.{
  rank, percentile, bucket_bounds, in_bucket, bucket_count, latencies_of, RecallLatencySample,
  LatencyHistogram, compute_recall_latency_histogram,
}

abbrev pub sum : List ℕ → ℕ
sum [] = 0
sum (n ∷ ns) = n + sum ns

abbrev pub indicator : Bool → ℕ
indicator b = if b then 1 else 0

bucket_count-cons :
    (v : ℕ) (vs : List ℕ) (bounds : ℕ × Option ℕ)
    → bucket_count (v ∷ vs) bounds ≡ indicator (in_bucket bounds v) + bucket_count vs bounds
bucket_count-cons v vs bounds = elim (Bool-cases (in_bucket bounds v)) [
  | inl e ↦ rw (e, keep) (omega arith)
  | inr e ↦ rw (e, keep) (omega arith)
]

in_one_bucket : (v : ℕ) → sum (map (λ b. indicator (in_bucket b v)) bucket_bounds) ≡ 1
in_one_bucket v = ground arith

sum-bucket_count : (vs : List ℕ) → sum (map (bucket_count vs) bucket_bounds) ≡ length vs
sum-bucket_count [] = refl
sum-bucket_count (v ∷ vs) =
    simp (bucket_count-cons) (omega (arith, in_one_bucket v, sum-bucket_count vs))

-- As many of the values as the least that are not above `v`.
abbrev pub count_up_to : ℕ → List ℕ → ℕ
count_up_to v vs = length (keep (λ w. leb w v) vs)

abbrev pub count_below : ℕ → List ℕ → ℕ
count_below v vs = length (keep (λ w. ltb w v) vs)

nth-All : (P : ℕ → Type 0) (vs : List ℕ) (i : ℕ) {v : ℕ} → All P vs → get_elem? vs i ≡ some v → P v
nth-All P [] i h e = absurd (ground arith)
nth-All P (w ∷ vs) zero (p, h) e = rw (some_inj.0 e) at p
nth-All P (w ∷ vs) (suc i) (p, h) e = nth-All P vs i h e

count_up_to-nth :
    (vs : List ℕ) (i v : ℕ) → IsSorted leb vs → get_elem? vs i ≡ some v → i + 1 ≤ count_up_to v vs
count_up_to-nth [] i v s e = absurd (ground arith)
count_up_to-nth (w ∷ vs) zero v s e =
    let first : leb w v ≡ true = ground (arith, some_inj.0 e) in rw (first, keep) (omega arith)
count_up_to-nth (w ∷ vs) (suc i) v (h, s) e =
    let first : leb w v ≡ true = nth-All (λ y. leb w y ≡ true) vs i h e in
    rw (first, keep) (omega (arith, count_up_to-nth vs i v s e))

count_below-least : (v : ℕ) (vs : List ℕ) → All (λ y. leb v y ≡ true) vs → count_below v vs ≡ 0
count_below-least v [] h = refl
count_below-least v (w ∷ vs) (p, h) =
    let above : ltb w v ≡ false = ground arith in rw (above, keep) (count_below-least v vs h)

count_below-nth :
    (vs : List ℕ) (i v : ℕ) → IsSorted leb vs → get_elem? vs i ≡ some v → count_below v vs ≤ i
count_below-nth [] i v s e = absurd (ground arith)
count_below-nth (w ∷ vs) zero v (h, s) e =
    let same : w ≡ v = some_inj.0 e in
    let itself : ltb w v ≡ false = ground arith in
    rw (itself, keep) (omega (arith, count_below-least v vs (rw (same) at h)))
count_below-nth (w ∷ vs) (suc i) v (h, s) e = ground (arith, count_below-nth vs i v s e)

nth_defined :
    (vs : List ℕ) (i : ℕ) → i < length vs → get_elem? vs i ≡ some (or_else (get_elem? vs i) 0)
nth_defined [] i h = absurd (omega arith)
nth_defined (w ∷ vs) zero h = refl
nth_defined (w ∷ vs) (suc i) h = nth_defined vs i (omega arith)

-- For latencies in order and a percentage from 1 to 100 the percentile is the nearest rank: that
-- share of the latencies is at or below it, and a smaller share is below it.
percentile-count :
    (v : ℕ) (vs : List ℕ) (p : ℕ)
    → IsSorted leb (v ∷ vs)
    → 1 ≤ p
    → p ≤ 100
    → let n = length (v ∷ vs) in
      let r = percentile 0 (v ∷ vs) p in
      (p * n ≤ 100 * count_up_to r (v ∷ vs)) × (100 * count_below r (v ∷ vs) < p * n)
unfolding percentile
percentile-count v vs p s least most =
    let n : ℕ = length (v ∷ vs) in
    let above : p * n ≤ 100 * n = mul-le-mul_right n most in
    let positive : 1 * n ≤ p * n = mul-le-mul_right n least in
    let i : ℕ = rank p n in
    let r : ℕ = or_else (get_elem? (v ∷ vs) i) 0 in
    let there = nth_defined (v ∷ vs) i (omega arith) in
    let at_least : i + 1 ≤ count_up_to r (v ∷ vs) = count_up_to-nth (v ∷ vs) i r s there in
    let at_most : count_below r (v ∷ vs) ≤ i = count_below-nth (v ∷ vs) i r s there in
    (omega arith, omega arith)

-- The nearest rank of a percentage in latencies in order, and 0 where there are none.
abbrev pub IsRank : ℕ → List ℕ → ℕ → Type 0
IsRank p [] r = r ≡ 0
IsRank p (v ∷ vs) r =
    let n = length (v ∷ vs) in
    (p * n ≤ 100 * count_up_to r (v ∷ vs)) × (100 * count_below r (v ∷ vs) < p * n)

percentile-IsRank :
    (vs : List ℕ) (p : ℕ) → IsSorted leb vs → 1 ≤ p → p ≤ 100 → IsRank p vs (percentile 0 vs p)
percentile-IsRank [] p s least most = unfold percentile in refl
percentile-IsRank (v ∷ vs) p s least most = percentile-count v vs p s least most

-- The latencies counted are those of the samples that were not executed before they were detected,
-- each in exactly one bucket.
pub record IsHistogram (samples : List RecallLatencySample) (h : LatencyHistogram) : Type 0 where
  pub counted : h.count ≡ length (latencies_of samples)
  pub bucketed : sum h.buckets ≡ h.count
  pub p50 : IsRank 50 (sort_by leb (latencies_of samples)) h.p50_seconds
  pub p95 : IsRank 95 (sort_by leb (latencies_of samples)) h.p95_seconds
  pub p99 : IsRank 99 (sort_by leb (latencies_of samples)) h.p99_seconds

pub compute_recall_latency_histogram-IsHistogram :
    (samples : List RecallLatencySample)
    → IsHistogram samples (compute_recall_latency_histogram samples)
unfolding compute_recall_latency_histogram
compute_recall_latency_histogram-IsHistogram samples =
    let vs = sort_by leb (latencies_of samples) in
    let s =
      sort_by-IsSorted leb (λ a b c h k. ground arith) (λ a b h. ground arith)
        (latencies_of samples) in
    record {
      counted = length-sort_by leb (latencies_of samples);
      bucketed = sum-bucket_count vs;
      p50 = percentile-IsRank vs 50 s (omega arith) (omega arith);
      p95 = percentile-IsRank vs 95 s (omega arith) (omega arith);
      p99 = percentile-IsRank vs 99 s (omega arith) (omega arith);
    }
