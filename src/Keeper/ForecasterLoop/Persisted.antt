-- ===== src/Keeper/ForecasterLoop/Persisted.antt =====
-- The calls behind the decision leave the state file alone.
use Prim.Native.String.{String}
use refluo.Prelude.Result.{M}
use refluo.Prelude.Effects.{Leaves-bind, Leaves-call}
use refluo.Prelude.Double.{Double}
use refluo.Prelude.{ℕ, ◌≡◌, refl, inl, inr, Option, none, some, arith, Bool-cases, ℤ, pos}
use refluo.Keeper.Forecaster.{HysteresisDecision, should_write_on_chain, should_recall}
use refluo.Keeper.ForecasterLoop.{
  World, Config, Answers, Simulated, simulation_failed, no_value, value, i128, after_decision,
  scv_i128, scv_other, sc_val_to_i128, trigger_recall, recall_if_low, after_balance,
  after_simulation, send_target, write_target,
}

abbrev pub StateFileLeft : M World (Unit {0}) → Type 0
StateFileLeft c = (s : World) → (c s).1.state_file ≡ s.state_file

module _ (d : Double) (cfg : Config d) (answers : Answers) where
  trigger_recall-Leaves :
      (rule : Option ℕ) (venue : Option String) (shortfall : ℤ)
      → StateFileLeft (trigger_recall d cfg answers rule venue shortfall)
  unfolding trigger_recall
  trigger_recall-Leaves none venue shortfall s = refl
  trigger_recall-Leaves (some rule) none shortfall s = refl
  trigger_recall-Leaves (some rule) (some venue) shortfall s = ground arith

  after_balance-Leaves :
      (applied floor balance : ℤ)
      → StateFileLeft (after_balance d cfg answers applied floor balance)
  unfolding after_balance recall_if_low
  after_balance-Leaves applied floor balance s =
      elim (Bool-cases (should_recall balance applied cfg.refill_band_bps)) [
        | inl low ↦ simp low (trigger_recall-Leaves _ _ _ _)
        | inr enough ↦ simp enough
      ]

  after_simulation-Leaves :
      (applied floor : ℤ) (simulated : Simulated)
      → StateFileLeft (after_simulation d cfg answers applied floor simulated)
  unfolding after_simulation sc_val_to_i128
  after_simulation-Leaves applied floor simulation_failed s = refl
  after_simulation-Leaves applied floor no_value s = after_balance-Leaves applied floor (pos 0) s
  after_simulation-Leaves applied floor (value (scv_i128 hi lo)) s =
      after_balance-Leaves applied floor (i128 hi lo) s
  after_simulation-Leaves applied floor (value scv_other) s = refl

  write_target-Leaves :
      (applied on_chain : ℤ) → StateFileLeft (write_target d cfg answers applied on_chain)
  unfolding write_target send_target
  write_target-Leaves applied on_chain s =
      elim (Bool-cases (should_write_on_chain applied on_chain cfg.band_bps)) [
        | inl outside ↦ simp outside
        | inr within ↦ simp within
      ]

  pub after_decision-Leaves :
      (decision : HysteresisDecision) (on_chain floor : ℤ)
      → StateFileLeft (after_decision d cfg answers decision on_chain floor)
  unfolding after_decision
  after_decision-Leaves decision on_chain floor =
      Leaves-bind (λ u. u.state_file) (write_target d cfg answers decision.applied_target on_chain)
        _ (write_target-Leaves decision.applied_target on_chain)
        (λ _.
          Leaves-call (λ u. u.state_file) answers.account _
            (λ _.
              Leaves-call (λ u. u.state_file) answers.balance _
                (after_simulation-Leaves decision.applied_target floor)))
