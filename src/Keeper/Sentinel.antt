-- ===== src/Keeper/Sentinel.antt =====
-- keeper/src/decision.ts and keeper/src/sentinel.ts: the utilization monitor. What the RPC, the
-- Blend SDK and RiskEngine's client answer is a parameter; the state is the calls submitted so far.
pub mod Ratchet
pub mod Tick
use Prim.Native.String.{String}
use refluo.Prelude.Result.{Result, ok, M, ◌>>=◌, ◌>>◌, call, throw, modify, return}
use refluo.Prelude.{
  ℕ, ◌≡◌, Bool, ◌&&◌, Option, none, some, List, [], ◌∷◌, ◌++◌, ltb, if◌then◌else◌, ℤ, pos, ◌/ℤ◌,
  leb_ℤ,
}

-- The enum of risk-engine-client; its numbers are `code`.
pub data SystemState : Type 0 where
  normal preemptive_drain emergency paused : SystemState

abbrev pub code : SystemState → ℕ
code normal = 0
code preemptive_drain = 1
code emergency = 2
code paused = 3

unfoldable pub to_bps : ℤ → ℤ
to_bps utilization_7_decimal = utilization_7_decimal /ℤ pos 1000

unfoldable pub decide_escalation : ℤ → SystemState → ℤ → ℤ → Option SystemState
decide_escalation utilization_bps current_state preemptive_util_bps full_drain_util_bps =
    if leb_ℤ full_drain_util_bps utilization_bps && ltb (code current_state) (code emergency)
    then some emergency
    else if leb_ℤ preemptive_util_bps utilization_bps
        && ltb (code current_state) (code preemptive_drain)
    then some preemptive_drain
    else none

pub record TierConfig : Type 0 where
  pub preemptive_util_bps : ℤ
  pub full_drain_util_bps : ℤ

-- The arguments of `keeper_advance_state`.
pub record Advance : Type 0 where
  pub to : SystemState
  pub utilization_bps : ℤ

-- The answers during one tick: the pool's reserve (`none` if it is not listed), the two reads, and
-- the submission of a call.
pub record Answers : Type 0 where
  pub reserve : Result (Option ℤ)
  pub config : Result TierConfig
  pub state : Result SystemState
  pub advance : Advance → Result String

-- Each submission is listed, whether or not it goes through; the newest stands last.
abbrev pub Submitted : Type 0
Submitted = List Advance

module _ (answers : Answers) where
  pub found_reserve : Option ℤ → M Submitted ℤ
  found_reserve none = throw "reserve not found in pool; check RESERVE_ASSET_ID"
  found_reserve (some utilization) = return utilization

  pub attest : ℤ → Option SystemState → M Submitted (Unit {0})
  attest utilization_bps none = return tt
  attest utilization_bps (some target) =
      let attestation : Advance = record { to = target; utilization_bps = utilization_bps } in
      do
        modify (λ sent. sent ++ attestation ∷ [])
        status ← call (answers.advance attestation)
        return tt

  pub tick : M Submitted (Unit {0})
  unfolding found_reserve attest
  tick = do
    listed ← call answers.reserve
    utilization ← found_reserve listed
    let utilization_bps = to_bps utilization
    cfg ← call answers.config
    current_state ← call answers.state
    attest utilization_bps (
        decide_escalation utilization_bps current_state cfg.preemptive_util_bps
          cfg.full_drain_util_bps)
