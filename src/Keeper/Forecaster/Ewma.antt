-- ===== src/Keeper/Forecaster/Ewma.antt =====
-- The burn-rate averages and the target as functions of the series that they are computed from.
use refluo.Prelude.Result.{ok}
use refluo.Prelude.Double.{Double, DoubleLaws}
use refluo.Prelude.{
  ℕ, suc, ◌≡◌, true, Option, none, some, List, [], ◌∷◌, or_else, ℤ, pos, ◌≤ℤ◌, int_laws,
}
use refluo.Keeper.Forecaster.{
  half_life_to_alpha, ewma_step, Rates, ewma_loop, compute_ewmas, Tier0TargetParams,
  compute_tier0_target,
}

module _ (d : Double) (laws : DoubleLaws d) where
  open d use {Num, from_int, add, sub, mul, div, max_of, exp, neg, ln2, leb}

  abbrev Le : Num → Num → Type 0
  Le a b = leb a b ≡ true

  abbrev zero_num : Num
  zero_num = from_int (pos 0)

  abbrev one_num : Num
  one_num = from_int (pos 1)

  -- One series lies below another, hour by hour.
  abbrev pub Pointwise : List Num → List Num → Type 0
  Pointwise [] [] = Unit
  Pointwise [] (y ∷ ys) = ⊥
  Pointwise (x ∷ xs) [] = ⊥
  Pointwise (x ∷ xs) (y ∷ ys) = Le x y × Pointwise xs ys

  abbrev LeOption : Option Num → Option Num → Type 0
  LeOption none none = Unit
  LeOption none (some b) = ⊥
  LeOption (some a) none = ⊥
  LeOption (some a) (some b) = Le a b

  abbrev IsAlpha : Num → Type 0
  IsAlpha a = Le zero_num a × Le zero_num (sub one_num a)

  alpha_of : ℕ → Num
  alpha_of n = sub one_num (exp (div (neg ln2) (from_int (pos n))))

  alpha_lem : (n : ℕ) → half_life_to_alpha d (from_int (pos (suc n))) ≡ ok (alpha_of (suc n))
  unfolding half_life_to_alpha alpha_of
  alpha_lem n = rw (laws.positive n)

  alpha_of-IsAlpha : (n : ℕ) → IsAlpha (alpha_of (suc n))
  unfolding alpha_of
  alpha_of-IsAlpha n = (
    laws.sub_nonneg one_num _ decay_le_one,
    laws.sub_nonneg one_num _ (laws.sub_le one_num _ (laws.exp_nonneg _)),
  )
    where
      decay_le_one : Le (exp (div (neg ln2) (from_int (pos (suc n))))) one_num
      decay_le_one =
          rw (laws.div_neg ln2 (from_int (pos (suc n))))
            (laws.exp_neg_le_one _ (laws.div_nonneg ln2 _ laws.ln2_nonneg (laws.positive n)))

  ewma_step_mono :
      (p q : Option Num) (x y alpha : Num)
      → IsAlpha alpha
      → LeOption p q
      → Le x y
      → Le (ewma_step d p x alpha) (ewma_step d q y alpha)
  unfolding ewma_step
  ewma_step_mono none none x y alpha (a, b) l h = h
  ewma_step_mono none (some q) x y alpha (a, b) l h = absurd l
  ewma_step_mono (some p) none x y alpha (a, b) l h = absurd l
  ewma_step_mono (some p) (some q) x y alpha (a, b) l h =
      laws.add_mono _ _ _ _ (laws.mul_mono alpha x y a h) (laws.mul_mono _ p q b l)

  or_zero_mono : (p q : Option Num) → LeOption p q → Le (or_else p zero_num) (or_else q zero_num)
  or_zero_mono none none l = laws.leb_refl _
  or_zero_mono none (some q) l = absurd l
  or_zero_mono (some p) none l = absurd l
  or_zero_mono (some p) (some q) l = l

  abbrev pub RatesLe : Rates d → Rates d → Type 0
  RatesLe r s = Le r.fast_per_hour s.fast_per_hour × Le r.slow_per_hour s.slow_per_hour

  ewma_loop_mono :
      (fa sa : Num) (p q r s : Option Num) (xs ys : List Num)
      → IsAlpha fa
      → IsAlpha sa
      → LeOption p q
      → LeOption r s
      → Pointwise xs ys
      → RatesLe (ewma_loop d fa sa p r xs) (ewma_loop d fa sa q s ys)
  unfolding ewma_loop
  ewma_loop_mono fa sa p q r s [] [] f g l m h = (or_zero_mono p q l, or_zero_mono r s m)
  ewma_loop_mono fa sa p q r s [] (y ∷ ys) f g l m h = absurd h
  ewma_loop_mono fa sa p q r s (x ∷ xs) [] f g l m h = absurd h
  ewma_loop_mono fa sa p q r s (x ∷ xs) (y ∷ ys) f g l m (e, h) =
      ewma_loop_mono fa sa (some (ewma_step d p x fa)) (some (ewma_step d q y fa))
        (some (ewma_step d r x sa)) (some (ewma_step d s y sa)) xs ys f g
        (ewma_step_mono p q x y fa f l e) (ewma_step_mono r s x y sa g m e) h

  rates_of : List Num → Rates d
  rates_of xs = ewma_loop d (alpha_of 6) (alpha_of 168) none none xs

  compute_ewmas_lem : (xs : List Num) → compute_ewmas d xs ≡ ok (rates_of xs)
  unfolding compute_ewmas rates_of
  compute_ewmas_lem xs = rw (alpha_lem 5, alpha_lem 167)

  -- Both averages exist for every series (their half-lives never raise the error), and a series
  -- that lies below another hour by hour gets averages that lie below the other's.
  compute_ewmas_mono :
      (xs ys : List Num)
      → Pointwise xs ys
      → (r : Rates d) × (s : Rates d) × (compute_ewmas d xs ≡ ok r)
        × (compute_ewmas d ys ≡ ok s)
        × RatesLe r s
  unfolding rates_of
  compute_ewmas_mono xs ys h = (
    rates_of xs,
    rates_of ys,
    compute_ewmas_lem xs,
    compute_ewmas_lem ys,
    ewma_loop_mono (alpha_of 6) (alpha_of 168) none none none none xs ys (alpha_of-IsAlpha 5)
        (alpha_of-IsAlpha 167) tt tt h,
  )

  -- With the same recall window, buffer multiplier (neither negative) and fee floor, a target is
  -- not above another whose averages are not below.
  compute_tier0_target_mono :
      (r s : Rates d) (window k : Num) (floor : ℤ)
      → Le zero_num window
      → Le zero_num k
      → RatesLe r s
      → compute_tier0_target d (record {
        rates = r;
        recall_window_seconds = window;
        k = k;
        xlm_fee_floor_usd_stroops = floor;
      })
        ≤ℤ compute_tier0_target d (record {
          rates = s;
          recall_window_seconds = window;
          k = k;
          xlm_fee_floor_usd_stroops = floor;
        })
  unfolding compute_tier0_target
  compute_tier0_target_mono r s window k floor w c (f, g) =
      let hour : Num = from_int (pos 3600) in
      let rounded = laws.round_mono _ _ (
        laws.mul_mono_left k _ _ c (
          laws.mul_mono_left window _ _ w
            (laws.div_mono hour _ _ (laws.positive 3599) (laws.max_mono _ _ _ _ f g)))) in
      omega (int_laws, rounded)

  -- A target is never below the fee floor when the averages, the window and the multiplier are not
  -- negative.
  floor-le-compute_tier0_target :
      (p : Tier0TargetParams d)
      → Le zero_num p.rates.fast_per_hour
      → Le zero_num p.recall_window_seconds
      → Le zero_num p.k
      → p.xlm_fee_floor_usd_stroops ≤ℤ compute_tier0_target d p
  unfolding compute_tier0_target
  floor-le-compute_tier0_target p f w c =
      let hour : Num = from_int (pos 3600) in
      let rounded = rw (laws.round_zero) at (
        laws.round_mono _ _ (
          laws.mul_nonneg _ p.k
            (laws.mul_nonneg _ p.recall_window_seconds
              (laws.div_nonneg _ hour
                (laws.leb_trans _ _ _ f (laws.le_max_left _ p.rates.slow_per_hour))
                (laws.positive 3599))
              w)
            c)) in
      omega (int_laws, rounded)
