-- ===== src/Keeper/Forecaster/Hysteresis.antt =====
-- Asymmetric hysteresis over a history of ticks.
use refluo.Prelude.{
  ℕ, ◌+◌, ◌≤◌, ◌≡◌, refl, ◌⊎◌, inl, inr, Option, none, some, List, [], ◌∷◌, arith, ℤ, ◌≤ℤ◌, ◌<ℤ◌,
  leb_ℤ, Bool-cases, leb, or_else, leb_ℤ-false, ◌-◌,
}
use refluo.Keeper.Forecaster.{
  HysteresisState, HysteresisDecision, lower_after_seconds, apply_hysteresis,
}

-- What one tick sees: the target it has computed, the one on chain, and the time.
pub record Tick : Type 0 where
  pub computed : ℤ
  pub on_chain : ℤ
  pub now_seconds : ℕ

abbrev pub IsBelow : Tick → Type 0
IsBelow t = t.computed <ℤ t.on_chain

abbrev pub decide : Tick → HysteresisState → HysteresisDecision
decide t s = apply_hysteresis t.computed t.on_chain t.now_seconds s

abbrev pub initial : HysteresisState
initial = record { below_since_seconds = none }

-- The state behind a history, the newest tick first.
abbrev pub state_after : List Tick → HysteresisState
state_after [] = initial
state_after (t ∷ history) = (decide t (state_after history)).next_state

-- The newest ticks of a history, back to one at the time `since`, all saw the computed target below.
abbrev pub BelowSince : ℕ → List Tick → Type 0
BelowSince since [] = ⊥
BelowSince since (t ∷ history) = IsBelow t × ((t.now_seconds ≡ since) ⊎ BelowSince since history)

abbrev pub Explains : List Tick → Option ℕ → Type 0
Explains history none = Unit
Explains history (some since) = BelowSince since history

decide-Explains :
    (t : Tick) (history : List Tick) (s : Option ℕ)
    → Explains history s
    → Explains
        (t ∷ history)
        (decide t (record { below_since_seconds = s })).next_state.below_since_seconds
unfolding apply_hysteresis
decide-Explains t history s h = elim (Bool-cases (leb_ℤ t.on_chain t.computed)) [
  | inl up ↦ rw (up) tt
  | inr down ↦
      elim (Bool-cases (leb lower_after_seconds (t.now_seconds - or_else s t.now_seconds))) [
        | inl long ↦ rw (down) (rw (long) tt)
        | inr short ↦ rw (down) (rw (short) (leb_ℤ-false t.on_chain t.computed down, since s h))
      ]
]
  where
    since :
        (s : Option ℕ)
        → Explains history s
        → (t.now_seconds ≡ or_else s t.now_seconds) ⊎ BelowSince (or_else s t.now_seconds) history
    since none k = inl refl
    since (some at) k = inr k

-- Behind every history the state remembers a time only if all ticks since then saw the computed
-- target below the one on chain.
state_after-Explains :
    (history : List Tick) → Explains history (state_after history).below_since_seconds
state_after-Explains [] = tt
state_after-Explains (t ∷ history) =
    decide-Explains t history (state_after history).below_since_seconds
      (state_after-Explains history)

decide_lowers :
    (t : Tick) (history : List Tick) (s : Option ℕ)
    → Explains history s
    → (decide t (record { below_since_seconds = s })).applied_target <ℤ t.on_chain
    → (since : ℕ) × (since + lower_after_seconds ≤ t.now_seconds) × BelowSince since (t ∷ history)
unfolding apply_hysteresis
decide_lowers t history none h l = absurd (ground arith)
decide_lowers t history (some since) h l = (since, ground arith, (ground arith, inr h))

-- Behind every history a tick applies a target below the one on chain only if every tick from one
-- at least 24 hours ago up to itself has computed a target below the one that was then on chain.
pub lowers_after_a_day :
    (t : Tick) (history : List Tick)
    → (decide t (state_after history)).applied_target <ℤ t.on_chain
    → (since : ℕ) × (since + lower_after_seconds ≤ t.now_seconds) × BelowSince since (t ∷ history)
lowers_after_a_day t history l =
    decide_lowers t history (state_after history).below_since_seconds (state_after-Explains history)
      l

-- A tick never applies less than the computed target, and applies it at once when that is at or
-- above the target on chain; otherwise it applies no more than the target on chain.
applied_target_bounds :
    (t : Tick) (s : HysteresisState)
    → (t.computed ≤ℤ (decide t s).applied_target)
      × (t.on_chain ≤ℤ t.computed → (decide t s).applied_target ≡ t.computed)
      × (t.computed <ℤ t.on_chain → (decide t s).applied_target ≤ℤ t.on_chain)
unfolding apply_hysteresis
applied_target_bounds t s = (ground arith, λ h. ground arith, λ h. ground arith)
