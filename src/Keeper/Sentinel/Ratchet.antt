-- ===== src/Keeper/Sentinel/Ratchet.antt =====
-- decision.ts as a ratchet: what an escalation does to the state, over any readings.
use refluo.Prelude.{ℕ, ◌≡◌, max, List, [], ◌∷◌, arith, or_else, ℤ, leb_ℤ, if◌then◌else◌}
use refluo.Keeper.Sentinel.{
  SystemState, normal, preemptive_drain, emergency, paused, code, decide_escalation,
}

-- The state that a reading calls for, whatever the current one is.
abbrev pub demanded : ℤ → ℤ → ℤ → SystemState
demanded utilization preemptive full =
    if leb_ℤ full utilization
    then emergency
    else if leb_ℤ preemptive utilization
    then preemptive_drain
    else normal

-- The state after the loop has acted on a reading and RiskEngine has accepted the call.
abbrev pub advanced : ℤ → ℤ → SystemState → ℤ → SystemState
advanced preemptive full current utilization =
    or_else (decide_escalation utilization current preemptive full) current

-- Acting on a reading moves the state's number to the larger of its own and the demanded state's.
code-advanced :
    (utilization preemptive full : ℤ) (current : SystemState)
    → code (advanced preemptive full current utilization)
      ≡ max (code current) (code (demanded utilization preemptive full))
unfolding decide_escalation
code-advanced utilization preemptive full normal = ground arith
code-advanced utilization preemptive full preemptive_drain = ground arith
code-advanced utilization preemptive full emergency = ground arith
code-advanced utilization preemptive full paused = ground arith

abbrev pub advanced_all : ℤ → ℤ → SystemState → List ℤ → SystemState
advanced_all preemptive full current [] = current
advanced_all preemptive full current (u ∷ us) =
    advanced_all preemptive full (advanced preemptive full current u) us

abbrev pub worst : ℤ → ℤ → List ℤ → ℕ
worst preemptive full [] = 0
worst preemptive full (u ∷ us) = max (code (demanded u preemptive full)) (worst preemptive full us)

-- Over any readings with fixed thresholds the loop leaves the state at the worst of its start and
-- of what the readings demand: the order of the readings does not matter, and calm ones undo
-- nothing.
code-advanced_all :
    (preemptive full : ℤ) (current : SystemState) (us : List ℤ)
    → code (advanced_all preemptive full current us) ≡ max (code current) (worst preemptive full us)
code-advanced_all preemptive full current [] = omega arith
code-advanced_all preemptive full current (u ∷ us) = omega (
  arith,
  code-advanced u preemptive full current,
  code-advanced_all preemptive full (advanced preemptive full current u) us,
)
