-- ===== src/Keeper/Reporter/Series.antt =====
-- keeper/src/reporter.ts: the chart series. An index that an array does not have reads `undefined`,
-- which is `none` here.
pub mod Strides
use refluo.Prelude.Result.{Result, ok, err, and_then}
use refluo.Prelude.Double.{Double}
use refluo.Prelude.{
  ℕ, zero, suc, ◌+◌, ◌-◌, Bool, ◌||◌, Option, none, some, List, [], ◌∷◌, map, length, get_elem?,
  leb, if◌then◌else◌, ℤ, pos, negsuc,
}
use refluo.Keeper.Reporter.{Tier0Sample}

abbrev pub at : {A : Type 0} → List A → ℤ → Option A
at items (pos i) = get_elem? items i
at items (negsuc i) = none

module _ (d : Double) where
  open d use {Num, from_int, mul, div, round}

  abbrev pub stride : ℕ → ℕ → Num
  stride count max_points = div (from_int (pos (count - 1))) (from_int (pos (max_points - 1)))

  module _ {A : Type 0} (items : List A) (step : Num) where
    -- The loop from the index `i` on, with so many rounds left.
    pub picked_from : (rounds i : ℕ) → List (Option A)
    picked_from zero i = []
    picked_from (suc rounds) i =
        at items (round (mul (from_int (pos i)) step)) ∷ picked_from rounds (i + 1)

  unfoldable pub downsample_series : {A : Type 0} → List A → ℕ → List (Option A)
  unfolding picked_from
  downsample_series items max_points =
      if leb (length items) max_points || leb max_points 1
      then map some items
      else picked_from items (stride (length items) max_points) max_points 0

-- The amounts stay integers; the source prints them in decimal.
pub record Tier0SeriesPoint : Type 0 where
  pub timestamp_seconds : ℕ
  pub balance_stroops : ℤ
  pub target_stroops : ℤ

-- A field of `undefined` throws.
unfoldable pub to_tier0_series_points : List (Option Tier0Sample) → Result (List Tier0SeriesPoint)
to_tier0_series_points [] = ok []
to_tier0_series_points (none ∷ samples) = err "Cannot read properties of undefined"
to_tier0_series_points (some s ∷ samples) = and_then (to_tier0_series_points samples) (λ points.
    ok (
      record {
        timestamp_seconds = s.timestamp_seconds;
        balance_stroops = s.balance_stroops;
        target_stroops = s.target_stroops;
      }
      ∷ points))
