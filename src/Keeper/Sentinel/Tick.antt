-- ===== src/Keeper/Sentinel/Tick.antt =====
-- What one tick of the utilization monitor submits.
use refluo.Prelude.Result.{ok}
use refluo.Prelude.{◌≡◌, ◌<◌, ◌⊎◌, some, [], ◌∷◌, ◌++◌, ℤ, ◌≤ℤ◌}
use refluo.Keeper.Sentinel.{
  SystemState, emergency, preemptive_drain, code, to_bps, TierConfig, Advance, Answers, Submitted,
}

-- A call that the tick may make: it attests the pool's own reading, raises the state that
-- RiskEngine reports, and the reading has crossed the threshold of the state asked for.
pub record IsWarranted (answers : Answers) (a : Advance) : Type 0 where
  pub utilization : ℤ
  pub cfg : TierConfig
  pub current : SystemState
  pub read_reserve : answers.reserve ≡ ok (some utilization)
  pub read_config : answers.config ≡ ok cfg
  pub read_state : answers.state ≡ ok current
  pub attested : a.utilization_bps ≡ to_bps utilization
  pub raises : code current < code a.to
  pub crossed :
      ((a.to ≡ emergency) × (cfg.full_drain_util_bps ≤ℤ to_bps utilization))
      ⊎ ((a.to ≡ preemptive_drain) × (cfg.preemptive_util_bps ≤ℤ to_bps utilization))

-- A tick submits at most one call, and only a warranted one.
abbrev pub SubmitsWarranted : Answers → Submitted → Submitted → Type 0
SubmitsWarranted answers before after =
    (after ≡ before) ⊎ ((a : Advance) × (after ≡ before ++ a ∷ []) × IsWarranted answers a)
