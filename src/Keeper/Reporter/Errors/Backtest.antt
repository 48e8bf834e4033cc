-- ===== src/Keeper/Reporter/Errors/Backtest.antt =====
-- The backtest grades only predictions made from earlier hours.
use refluo.Prelude.Double.{Double}
use refluo.Prelude.{ℕ, zero, suc, ◌≤◌, ◌≡◌, refl, ap, List, [], ◌∷◌, ◌++◌, take, length, arith}
use refluo.Keeper.Forecaster.{BurnObservation}
use refluo.Keeper.Reporter.Errors.{rates_before}

take-prefix :
    (past later : List BurnObservation) (i : ℕ)
    → i ≤ length past
    → take i (past ++ later) ≡ take i past
take-prefix past later zero h = refl
take-prefix [] later (suc i) h = absurd (omega arith)
take-prefix (o ∷ past) later (suc i) h = ap (λ os. o ∷ os) (take-prefix past later i (omega arith))

-- Two series that agree on their first hours get the same rates for each of these hours and for
-- the one behind them, whatever follows: a prediction never reads its own hour or a later one.
rates_before-past :
    (d : Double) (past later others : List BurnObservation) (i : ℕ)
    → i ≤ length past
    → rates_before d (past ++ later) i ≡ rates_before d (past ++ others) i
unfolding rates_before
rates_before-past d past later others i h =
    rw (take-prefix past later i h, take-prefix past others i h)
