-- ===== src/Keeper/Reporter/Tick/Totals.antt =====
-- The parts of a tick that come to a result: its pause query, its backtest and its series.
use refluo.Prelude.Result.{Result, ok}
use refluo.Prelude.Double.{Double}
use refluo.Prelude.Sort.{sort_by}
use refluo.Prelude.{
  ℕ, suc, ◌+◌, ◌^◌, ◌≤◌, ◌<◌, ◌≡◌, refl, sym, ap, ◌∙◌, inl, inr, ◌||◌, Option, none, some, List, [],
  ◌∷◌, ◌++◌, map, take, length, get_elem?, All, leb, arith, pos, Bool-cases,
}
use mathlib.Core.List.{foldl, append_assoc, append-nil}
use refluo.Rpc.Pages.{Position, Page, Serves, fold_pages-Serves}
use refluo.Keeper.Forecaster.{BurnObservation, Rates, half_life_to_alpha, compute_ewmas}
use refluo.Keeper.ForecasterLoop.{winsorized}
use refluo.Keeper.Reporter.{
  Tier0Sample, RawEvent, raw_before, pair_pauses, pause_start_ledger, paired, fetch_pause_events,
}
use refluo.Keeper.Reporter.Errors.{ForecasterErrorSample, rates_before, backtest_from}
use refluo.Keeper.Reporter.Series.{Tier0SeriesPoint, downsample_series, to_tier0_series_points}
use refluo.Keeper.Reporter.Series.Strides.{RoundLaws, downsample_series-Selects}

foldl-append_one :
    {A : Type 0} (acc es : List A) → foldl (λ raw e. raw ++ e ∷ []) acc es ≡ acc ++ es
foldl-append_one acc [] = sym (append-nil acc)
foldl-append_one acc (e ∷ es) = foldl-append_one (acc ++ e ∷ []) es ∙ append_assoc acc (e ∷ []) es

pub fetch_pause_events-Serves :
    (sequence lookback : ℕ) (server : ℕ → Position → Result (Page RawEvent)) (extra : ℕ) {n : ℕ}
    {es : List RawEvent}
    → let start = pause_start_ledger sequence lookback in
      Serves (server start) start n (Position.start_ledger start) es
      → fetch_pause_events (ok sequence) lookback server (n + extra)
        ≡ some (ok (pair_pauses none (sort_by raw_before es)))
unfolding fetch_pause_events
fetch_pause_events-Serves sequence lookback server extra {es} s =
    ap paired (fold_pages-Serves _ _ (λ raw e. raw ++ e ∷ []) s extra [])
    ∙ ap (λ raw. some (ok (pair_pauses none (sort_by raw_before raw)))) (foldl-append_one [] es)

-- Every sample that is picked is one.
abbrev pub AllThere : {A : Type 0} → List (Option A) → Type 0
AllThere {A} = All (λ p. (x : A) × (p ≡ some x))

AllThere-of_get_elem? :
    {A : Type 0} (ps : List (Option A))
    → ((k : ℕ) → k < length ps → (x : A) × (get_elem? ps k ≡ some (some x)))
    → AllThere ps
AllThere-of_get_elem? [] h = tt
AllThere-of_get_elem? (p ∷ ps) h =
    let (x, e) = h 0 (omega arith) in
    ((x, first e), AllThere-of_get_elem? ps (λ k l. h (suc k) (omega arith)))
  where
    first :
        {A : Type 0} {p : Option A} {x : A}
        → ◌≡◌ {A = Option (Option A)} (some p) (some (some x))
        → p ≡ some x
    first e = cc

AllThere-map : {A : Type 0} (xs : List A) → AllThere (map some xs)
AllThere-map [] = tt
AllThere-map (x ∷ xs) = ((x, refl), AllThere-map xs)

pub to_tier0_series_points_total :
    (samples : List (Option Tier0Sample))
    → AllThere samples
    → (points : List Tier0SeriesPoint) × (to_tier0_series_points samples ≡ ok points)
unfolding to_tier0_series_points
to_tier0_series_points_total [] h = ([], refl)
to_tier0_series_points_total (none ∷ samples) ((x, e), h) = absurd (ground arith)
to_tier0_series_points_total (some s ∷ samples) (p, h) =
    let (points, e) = to_tier0_series_points_total samples h in rw (e) (_, refl)

module _ (d : Double) (laws : RoundLaws d) where
  pub downsample_series-AllThere :
      {A : Type 0} (items : List A) (max_points : ℕ)
      → length items ≤ 2 ^ 25
      → AllThere (downsample_series d items max_points)
  downsample_series-AllThere items max_points small =
      elim (Bool-cases (leb (length items) max_points || leb max_points 1)) [
        | inl short ↦ unfold downsample_series in (simp short (AllThere-map items))
        | inr long ↦
            let selects =
              downsample_series-Selects d items laws max_points (ground arith) (ground arith)
                small in
            AllThere-of_get_elem? (downsample_series d items max_points) (λ k h.
              let (x, found, e) = selects.is_item k (rw (sym selects.all_picked) h) in (x, e))
      ]

  half_life_to_alpha_total :
      (n : ℕ) → (a : d.Num) × (half_life_to_alpha d (d.from_int (pos (suc n))) ≡ ok a)
  unfolding half_life_to_alpha
  half_life_to_alpha_total n = rw (laws.positive n) (_, refl)

  compute_ewmas_total :
      (series : List d.Num) → (rates : Rates d) × (compute_ewmas d series ≡ ok rates)
  unfolding compute_ewmas
  compute_ewmas_total series =
      let (a, e) = half_life_to_alpha_total 5 in
      let (b, f) = half_life_to_alpha_total 167 in rw (e, f) (_, refl)

  pub backtest_from_total :
      (observations : List BurnObservation) (i : ℕ) (rest : List BurnObservation)
      → (errors : List (ForecasterErrorSample d)) × (backtest_from d observations i rest
          ≡ ok errors)
        × (length errors ≡ length rest)
  unfolding backtest_from rates_before
  backtest_from_total observations i [] = ([], refl, refl)
  backtest_from_total observations i (o ∷ rest) =
      let (errors, e, l) = backtest_from_total observations (i + 1) rest in
      let (rates, r) = compute_ewmas_total (map d.from_int (winsorized (take i observations))) in
      rw (r, e) (_, refl, ap suc l)
