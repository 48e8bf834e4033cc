-- ===== src/Tests/Reporter.antt =====
-- Examples for the reporter.
use refluo.Prelude.{ℕ, none, some, List, [], ◌∷◌, pos}
use refluo.Keeper.Forecaster.{BurnObservation}
use refluo.Keeper.Reporter.{PauseEvent, RawEvent, paused, resumed}
use refluo.Keeper.Reporter.Recalls.{RecallLatencySample}

-- The second pause starts before the first one has expired.
abbrev overlap : List PauseEvent
overlap =
    record { paused_at_seconds = 10; pause_expiry_seconds = 40; resumed_at_seconds = none }
    ∷ record { paused_at_seconds = 30; pause_expiry_seconds = 90; resumed_at_seconds = some 50 }
    ∷ []

abbrev raw : List RawEvent
raw = paused 10 40 ∷ paused 30 90 ∷ resumed 50 ∷ resumed 60 ∷ []

abbrev recalls : List RecallLatencySample
recalls =
    record { detected_at_seconds = 100; executed_at_seconds = 108 }
    ∷ record { detected_at_seconds = 200; executed_at_seconds = 190 }
    ∷ record { detected_at_seconds = 300; executed_at_seconds = 450 }
    ∷ []

abbrev hour : ℕ → ℕ → BurnObservation
hour at amount = record { timestamp_seconds = at; amount_stroops = pos amount }
