-- ===== src/Keeper/Reporter/Tick/Figures.antt =====
-- What the figures and series of a snapshot are, against the samples of the log.
use refluo.Prelude.Result.{ok, Result-cases}
use refluo.Prelude.Double.{Double}
use refluo.Prelude.{
  ℕ, zero, suc, ◌-◌, ◌^◌, ◌≤◌, ◌<◌, ◌≡◌, ◌⊎◌, refl, ap, inl, inr, Bool, true, false, ◌||◌, Option,
  none, some, List, [], ◌∷◌, keep, map, drop, length, leb, arith, Bool-cases, ℤ, pos, leb_ℤ, ◌≤ℤ◌,
}
use refluo.Keeper.MetricsLog.{MetricEvent, tier0_sample, recall_triggered, other_event}
use refluo.Keeper.Reporter.{
  Tier0Sample, is_hit, has_floor, is_above, uptime_of, compute_tier0_hit_rate, compute_agent_uptime,
  tier0_samples,
}
use refluo.Keeper.Reporter.Series.{Tier0SeriesPoint, downsample_series, to_tier0_series_points}
use refluo.Keeper.Reporter.Series.Strides.{RoundLaws, Selects, downsample_series-Selects}

-- So many of the list have the property.
pub data Counts {A : Type 0} (P : A → Type 0) : List A → ℕ → Type 0 where
  none_left : Counts P [] 0
  has : {x : A} {xs : List A} {n : ℕ} → P x → Counts P xs n → Counts P (x ∷ xs) (suc n)
  lacks : {x : A} {xs : List A} {n : ℕ} → ¬ P x → Counts P xs n → Counts P (x ∷ xs) n

-- The balance is at the target or above it.
abbrev pub IsHit : Tier0Sample → Type 0
IsHit s = s.target_stroops ≤ℤ s.balance_stroops

-- The sample has a critical floor.
abbrev pub HasFloor : Tier0Sample → Type 0
HasFloor s = (floor : ℤ) × (s.critical_floor_stroops ≡ some floor)

-- The balance is at the sample's critical floor or above it.
abbrev pub IsAbove : Tier0Sample → Type 0
IsAbove s = (floor : ℤ) × (s.critical_floor_stroops ≡ some floor) × (floor ≤ℤ s.balance_stroops)

-- The samples of a log from a time on, in its order.
pub data Samples (from : ℕ) : List MetricEvent → List Tier0Sample → Type 0 where
  log_ends : Samples from [] []
  taken :
      {log : List MetricEvent} {samples : List Tier0Sample} (t : ℕ) (balance target : ℤ)
      (floor : Option ℤ)
      → from ≤ t
      → Samples from log samples
      → Samples from (tier0_sample t balance target floor ∷ log) (
          record {
            timestamp_seconds = t;
            balance_stroops = balance;
            target_stroops = target;
            critical_floor_stroops = floor;
          }
          ∷ samples)
  too_old :
      {log : List MetricEvent} {samples : List Tier0Sample} (t : ℕ) (balance target : ℤ)
      (floor : Option ℤ)
      → t < from
      → Samples from log samples
      → Samples from (tier0_sample t balance target floor ∷ log) samples
  no_sample :
      {log : List MetricEvent} {samples : List Tier0Sample} (e : MetricEvent)
      → ((t : ℕ) (balance target : ℤ) (floor : Option ℤ)
          → ¬ (e ≡ tier0_sample t balance target floor))
      → Samples from log samples
      → Samples from (e ∷ log) samples

-- The points of a series, without a gap.
pub data Plots : List (Option Tier0Sample) → List Tier0SeriesPoint → Type 0 where
  no_points : Plots [] []
  point :
      {picked : List (Option Tier0Sample)} {points : List Tier0SeriesPoint} (s : Tier0Sample)
      → Plots picked points
      → Plots (some s ∷ picked) (
          record {
            timestamp_seconds = s.timestamp_seconds;
            balance_stroops = s.balance_stroops;
            target_stroops = s.target_stroops;
          }
          ∷ points)

pub Plots-points :
    (picked : List (Option Tier0Sample)) (points : List Tier0SeriesPoint)
    → to_tier0_series_points picked ≡ ok points
    → Plots picked points
unfolding to_tier0_series_points
Plots-points [] points e = let same : [] ≡ points = cc e in rw (← same) no_points
Plots-points (none ∷ picked) points e = absurd (cc e)
Plots-points (some s ∷ picked) points e = elim (Result-cases (to_tier0_series_points picked)) [
  | inr (m, f) ↦ absurd (cc (rw f at e))
  | inl (rest, f) ↦
      let same : (record {
        timestamp_seconds = s.timestamp_seconds;
        balance_stroops = s.balance_stroops;
        target_stroops = s.target_stroops;
      }
            ∷ rest)
          ≡ points =
        cc (rw f at e) in
      rw (← same) (point s (Plots-points picked rest f))
]

Counts-keep :
    {A : Type 0} (P : A → Type 0) (b : A → Bool)
    → ((x : A) → b x ≡ true → P x)
    → ((x : A) → b x ≡ false → ¬ P x)
    → (xs : List A) → Counts P xs (length (keep b xs))
Counts-keep P b holds fails [] = none_left
Counts-keep P b holds fails (x ∷ xs) = elim (Bool-cases (b x)) [
  | inl t ↦ rw (t, keep) (has (holds x t) (Counts-keep P b holds fails xs))
  | inr f ↦ rw (f, keep) (lacks (fails x f) (Counts-keep P b holds fails xs))
]

length-keep-keep :
    {A : Type 0} (b c : A → Bool)
    → ((x : A) → c x ≡ true → b x ≡ true)
    → (xs : List A) → length (keep c (keep b xs)) ≡ length (keep c xs)
length-keep-keep b c narrower [] = refl
length-keep-keep b c narrower (x ∷ xs) = elim (Bool-cases (b x)) [
  | inl t ↦ elim (Bool-cases (c x)) [
    | inl u ↦ rw (t, u, keep) (ap suc (length-keep-keep b c narrower xs))
    | inr u ↦ rw (t, u, keep) (length-keep-keep b c narrower xs)
  ]
  | inr f ↦
      let outside : c x ≡ false = ground (arith, narrower x) in
      rw (f, outside, keep) (length-keep-keep b c narrower xs)
]

pub length-drop_le : {A : Type 0} (i : ℕ) (xs : List A) → length (drop i xs) ≤ length xs - i
length-drop_le zero xs = omega arith
length-drop_le (suc i) [] = omega arith
length-drop_le (suc i) (x ∷ xs) = let rest = length-drop_le i xs in omega arith

pub tier0_samples-Samples :
    (from : ℕ) (log : List MetricEvent) → Samples from log (tier0_samples from log)
unfolding tier0_samples
tier0_samples-Samples from [] = log_ends
tier0_samples-Samples from (tier0_sample t balance target floor ∷ log) =
    elim (Bool-cases (leb from t)) [
      | inl late ↦
          simp late (taken t balance target floor (ground arith) (tier0_samples-Samples from log))
      | inr old ↦
          simp old (too_old t balance target floor (ground arith) (tier0_samples-Samples from log))
    ]
tier0_samples-Samples from (other_event t ∷ log) =
    no_sample _ (λ t b g f e. cc e) (tier0_samples-Samples from log)
tier0_samples-Samples from (recall_triggered t detected executed shortfall status ∷ log) =
    no_sample _ (λ t b g f e. cc e) (tier0_samples-Samples from log)

module _ (d : Double) where
  -- The share of the samples with the one property that have the other, and 0 where there is none.
  pub record IsShare (P Q : Tier0Sample → Type 0) (samples : List Tier0Sample) (x : d.Num)
      : Type 0 where
    pub part : ℕ
    pub total : ℕ
    pub counted_part : Counts P samples part
    pub counted_total : Counts Q samples total
    pub share :
        ((total ≡ 0) × (x ≡ d.from_int (pos 0)))
        ⊎ ((0 < total) × (x ≡ d.div (d.from_int (pos part)) (d.from_int (pos total))))

  -- A chart of so many points at most: all items where they are few, and otherwise the first, the
  -- last and others between them in order.
  pub data IsChart {A : Type 0} (items : List A) (max_points : ℕ) : List (Option A) → Type 0 where
    whole :
        (length items ≤ max_points) ⊎ (max_points ≤ 1) → IsChart items max_points (map some items)
    drawn :
        (picked : List (Option A))
        → 1 < max_points
        → max_points < length items
        → Selects d items max_points picked
        → IsChart items max_points picked

  pub compute_tier0_hit_rate-IsShare :
      (samples : List Tier0Sample)
      → IsShare IsHit (λ s. Unit) samples (compute_tier0_hit_rate d samples)
  unfolding compute_tier0_hit_rate
  compute_tier0_hit_rate-IsShare samples = record {
    part = length (keep is_hit samples);
    total = length samples;
    counted_part = Counts-keep IsHit is_hit (λ s h. ground arith) (λ s h k. ground arith) samples;
    counted_total = everything samples;
    share = of samples;
  }
    where
      everything : (xs : List Tier0Sample) → Counts (λ s. Unit) xs (length xs)
      everything [] = none_left
      everything (x ∷ xs) = has tt (everything xs)

      of :
          (xs : List Tier0Sample)
          → ((length xs ≡ 0) × (compute_tier0_hit_rate d xs ≡ d.from_int (pos 0)))
            ⊎ ((0 < length xs)
                × (compute_tier0_hit_rate d xs
                    ≡ d.div
                        (d.from_int (pos (length (keep is_hit xs))))
                        (d.from_int (pos (length xs)))))
      of [] = inl (refl, refl)
      of (x ∷ xs) = inr (omega arith, refl)

  is_above-IsAbove :
      (s : Tier0Sample) (floor : Option ℤ)
      → s.critical_floor_stroops ≡ floor
      → is_above s.balance_stroops floor ≡ true
      → IsAbove s
  is_above-IsAbove s none e h = absurd (cc h)
  is_above-IsAbove s (some floor) e h = (floor, e, ground arith)

  has_floor-HasFloor :
      (s : Tier0Sample) (floor : Option ℤ)
      → s.critical_floor_stroops ≡ floor
      → has_floor floor ≡ true
      → HasFloor s
  has_floor-HasFloor s none e h = absurd (cc h)
  has_floor-HasFloor s (some floor) e h = (floor, e)

  is_above-has_floor :
      (balance : ℤ) (floor : Option ℤ) → is_above balance floor ≡ true → has_floor floor ≡ true
  is_above-has_floor balance none h = absurd (cc h)
  is_above-has_floor balance (some floor) h = refl

  is_above-false :
      (s : Tier0Sample) → is_above s.balance_stroops s.critical_floor_stroops ≡ false → ¬ IsAbove s
  is_above-false s h (floor, e, k) =
      let low : leb_ℤ floor s.balance_stroops ≡ false = rw e at h in ground arith

  has_floor-false : (s : Tier0Sample) → has_floor s.critical_floor_stroops ≡ false → ¬ HasFloor s
  has_floor-false s h (floor, e) = cc (rw e at h)

  uptime_of-share :
      (xs : List Tier0Sample)
      → ((length xs ≡ 0) × (uptime_of d xs ≡ d.from_int (pos 0)))
        ⊎ ((0 < length xs)
            × (uptime_of d xs
                ≡ d.div
                    (d.from_int (
                      pos (
                        length
                          (keep (λ s. is_above s.balance_stroops s.critical_floor_stroops) xs))))
                    (d.from_int (pos (length xs)))))
  uptime_of-share [] = inl (refl, refl)
  uptime_of-share (x ∷ xs) = inr (omega arith, refl)

  pub compute_agent_uptime-IsShare :
      (samples : List Tier0Sample)
      → IsShare IsAbove HasFloor samples (compute_agent_uptime d samples)
  unfolding compute_agent_uptime
  compute_agent_uptime-IsShare samples = record {
    part = length (
        keep (λ s. is_above s.balance_stroops s.critical_floor_stroops)
          (keep (λ s. has_floor s.critical_floor_stroops) samples));
    total = length (keep (λ s. has_floor s.critical_floor_stroops) samples);
    counted_part =
        rw
          (length-keep-keep (λ s. has_floor s.critical_floor_stroops)
            (λ s. is_above s.balance_stroops s.critical_floor_stroops)
            (λ s h. is_above-has_floor s.balance_stroops s.critical_floor_stroops h) samples)
          (Counts-keep IsAbove (λ s. is_above s.balance_stroops s.critical_floor_stroops)
            (λ s h. is_above-IsAbove s _ refl h) is_above-false samples);
    counted_total =
        Counts-keep HasFloor (λ s. has_floor s.critical_floor_stroops)
          (λ s h. has_floor-HasFloor s _ refl h) has_floor-false samples;
    share = uptime_of-share (keep (λ s. has_floor s.critical_floor_stroops) samples);
  }

  pub downsample_series-IsChart :
      {A : Type 0}
      → RoundLaws d
      → (items : List A) (max_points : ℕ) → length items ≤ 2 ^ 25
      → IsChart items max_points (downsample_series d items max_points)
  downsample_series-IsChart laws items max_points small =
      elim (Bool-cases (leb (length items) max_points || leb max_points 1)) [
        | inl short ↦ unfold downsample_series in (simp short (whole (few short)))
        | inr long ↦
            drawn _ (ground arith) (ground arith) (
              downsample_series-Selects d items laws max_points (ground arith) (ground arith) small)
      ]
    where
      few :
          (leb (length items) max_points || leb max_points 1) ≡ true
          → (length items ≤ max_points) ⊎ (max_points ≤ 1)
      few short = elim (Bool-cases (leb max_points 1)) [
        | inl one ↦ inr (ground arith)
        | inr several ↦ inl (ground arith)
      ]
