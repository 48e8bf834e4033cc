-- ===== src/Keeper/ForecasterLoop/Tick.antt =====
-- What one tick of the forecaster submits, and what it leaves in its state file.
use Prim.Native.String.{String}
use refluo.Prelude.Result.{Result-cases, Result, ok, err, M, ◌>>=◌, call}
use refluo.Prelude.Effects.{Adds, Adds-none, Adds-bind}
use refluo.Prelude.Double.{Double}
use refluo.Prelude.{
  ◌⊎◌, not, negsuc, ap, ℕ, ◌≤◌, ◌≡◌, refl, inl, inr, true, Option, none, some, List, [], ◌∷◌, ◌++◌,
  map, arith, All, length, Bool-cases, ℤ, pos, ltb_ℤ, ◌<ℤ◌, ◌/ℤ◌, ◌-ℤ◌, ◌+ℤ◌, ◌*ℤ◌, ◌^◌,
}
use refluo.Keeper.Forecaster.{
  BurnObservation, Rates, compute_ewmas, HysteresisDecision, apply_hysteresis,
  should_write_on_chain, should_recall, eq_ℤ,
}
use refluo.Keeper.ForecasterLoop.{
  KeeperCall, set_tier0_target, recall, World, holds, load_hysteresis_state, Config, Answers,
  Simulated, simulation_failed, no_value, value, i128, after_decision, scv_i128, scv_other,
  sc_val_to_i128, venue_of, trigger_recall, recall_if_low, after_balance, after_simulation,
  send_target, write_target, computed_target, decide, tick, winsorized,
}
use refluo.Keeper.ForecasterLoop.Persisted.{after_decision-Leaves}

should_recall-below :
    (balance target band_bps : ℤ)
    → should_recall balance target band_bps ≡ true
    → balance <ℤ target *ℤ band_bps /ℤ pos 10_000
unfolding should_recall
should_recall-below balance target band_bps low = ground arith

-- The proposed target differs from the one on chain by more than the band's share of that; from 0
-- on chain, it is not 0.
abbrev pub IsOutside : ℤ → ℤ → ℤ → Type 0
IsOutside proposed on_chain band_bps =
    ((on_chain ≡ pos 0) × ¬ (proposed ≡ pos 0))
    ⊎ ((on_chain *ℤ band_bps /ℤ pos 10_000 <ℤ proposed -ℤ on_chain)
        ⊎ (on_chain *ℤ band_bps /ℤ pos 10_000 <ℤ on_chain -ℤ proposed))

eq_ℤ-pos_zero : (a : ℤ) → eq_ℤ a (pos 0) ≡ true → a ≡ pos 0
eq_ℤ-pos_zero (pos n) h = ap pos (ground arith)
eq_ℤ-pos_zero (negsuc n) h = absurd (ground arith)

should_write_on_chain-IsOutside :
    (proposed on_chain band_bps : ℤ)
    → should_write_on_chain proposed on_chain band_bps ≡ true
    → IsOutside proposed on_chain band_bps
unfolding should_write_on_chain
should_write_on_chain-IsOutside proposed on_chain band_bps h =
    elim (Bool-cases (eq_ℤ on_chain (pos 0))) [
      | inl zero_now ↦
          let other : not (eq_ℤ proposed (pos 0)) ≡ true = rw zero_now at h in
          inl (eq_ℤ-pos_zero on_chain zero_now, λ e. cc (rw e at other))
      | inr set ↦ elim (Bool-cases (ltb_ℤ on_chain proposed)) [
        | inl up ↦ inr (inl (let far = rw (set, up) at h in ground arith))
        | inr down ↦ inr (inr (let far = rw (set, down) at h in ground arith))
      ]
    ]

module _ (d : Double) (cfg : Config d) (answers : Answers) (fetched : Result (List BurnObservation))
    (w : World) where
  abbrev pub decision_of : Rates d → ℤ → HysteresisDecision
  decision_of rates on_chain =
      apply_hysteresis (computed_target d cfg answers rates) on_chain answers.now_seconds
        (load_hysteresis_state w.state_file)

  -- The decision that this tick comes to, if it gets so far.
  pub record Decides (decision : HysteresisDecision) (on_chain : ℤ) : Type 0 where
    pub observations : List BurnObservation
    pub rates : Rates d
    pub was_fetched : fetched ≡ ok observations
    pub averaged : compute_ewmas d (map d.from_int (winsorized observations)) ≡ ok rates
    pub read_target : answers.tier0_target ≡ ok on_chain
    pub decided : decision ≡ decision_of rates on_chain

  -- The balance that a simulation reports: the signed 128-bit number with these halves, or 0 where
  -- it succeeds without a value.
  pub data Reports : Simulated → ℤ → Type 0 where
    nothing_held : Reports no_value (pos 0)
    held : (hi : ℤ) (lo : ℕ) → Reports (value (scv_i128 hi lo)) (hi *ℤ pos (2 ^ 64) +ℤ pos lo)

  -- The vault's balance, as it was read in this tick.
  pub record IsBalance (balance : ℤ) : Type 0 where
    pub simulated : Simulated
    pub read : answers.balance ≡ ok simulated
    pub reports : Reports simulated balance

  -- A call that the tick may make.
  pub data IsPlanned : KeeperCall → Type 0 where
    target :
        (decision : HysteresisDecision) (on_chain : ℤ)
        → Decides decision on_chain
        → IsOutside decision.applied_target on_chain cfg.band_bps
        → IsPlanned (set_tier0_target decision.applied_target)
    refill :
        (decision : HysteresisDecision) (on_chain balance : ℤ) (rule : ℕ) (venue : String)
        → Decides decision on_chain
        → IsBalance balance
        → balance <ℤ decision.applied_target *ℤ cfg.refill_band_bps /ℤ pos 10_000
        → cfg.recall_context_rule_id ≡ some rule
        → venue_of cfg.recall_venue_id ≡ some venue
        → IsPlanned (recall venue rule (decision.applied_target -ℤ balance))

  abbrev pub Sends : ℕ → World → World → Type 0
  Sends = Adds (λ u. u.submitted) IsPlanned

  module _ (decision : HysteresisDecision) (on_chain : ℤ) (dec : Decides decision on_chain) where
    trigger_recall-Sends :
        (balance : ℤ) (is_balance : IsBalance balance) (rule : Option ℕ) (venue : Option String)
        (s : World)
        → should_recall balance decision.applied_target cfg.refill_band_bps ≡ true
        → cfg.recall_context_rule_id ≡ rule
        → venue_of cfg.recall_venue_id ≡ venue
        → Sends 1 s
            (trigger_recall d cfg answers rule venue (decision.applied_target -ℤ balance) s).1
    unfolding trigger_recall
    trigger_recall-Sends balance is_balance none venue s low r v =
        Adds-none (λ u. u.submitted) IsPlanned 1 s
    trigger_recall-Sends balance is_balance (some rule) none s low r v =
        Adds-none (λ u. u.submitted) IsPlanned 1 s
    trigger_recall-Sends balance is_balance (some rule) (some venue) s low r v =
        elim (Result-cases answers.recall_account) [
          | inr (m, e) ↦ simp e (Adds-none (λ u. u.submitted) IsPlanned 1 s)
          | inl (a, e) ↦
              elim (Result-cases (
                answers.authorize_and_send
                  (recall venue rule (decision.applied_target -ℤ balance)))) [
                    | inl (status, f) ↦ simp (e, f) planned
                    | inr (m, f) ↦ simp (e, f) planned
                  ]
        ]
      where
        planned :
            (sent : List KeeperCall) × (s.submitted
                ++ recall venue rule (decision.applied_target -ℤ balance) ∷ []
              ≡ s.submitted ++ sent)
            × All IsPlanned sent
            × (length sent ≤ 1)
        planned = (
          recall venue rule (decision.applied_target -ℤ balance) ∷ [],
          refl,
          (
            refill decision on_chain balance rule venue dec is_balance
                (should_recall-below balance decision.applied_target cfg.refill_band_bps low) r v,
            tt,
          ),
          omega arith,
        )

    after_balance-Sends :
        (critical_floor balance : ℤ) (is_balance : IsBalance balance) (s : World)
        → Sends 1 s (after_balance d cfg answers decision.applied_target critical_floor balance s).1
    unfolding after_balance recall_if_low
    after_balance-Sends critical_floor balance is_balance s =
        elim (Bool-cases (should_recall balance decision.applied_target cfg.refill_band_bps)) [
          | inl low ↦ simp low (trigger_recall-Sends balance is_balance _ _ _ low refl refl)
          | inr enough ↦ simp enough (Adds-none (λ u. u.submitted) IsPlanned 1 s)
        ]

    after_simulation-Sends :
        (critical_floor : ℤ) (simulated : Simulated)
        → answers.balance ≡ ok simulated
        → (s : World)
        → Sends 1 s
            (after_simulation d cfg answers decision.applied_target critical_floor simulated s).1
    unfolding after_simulation sc_val_to_i128
    after_simulation-Sends critical_floor simulation_failed e s =
        Adds-none (λ u. u.submitted) IsPlanned 1 s
    after_simulation-Sends critical_floor no_value e s =
        after_balance-Sends critical_floor (pos 0)
          (record { simulated = no_value; read = e; reports = nothing_held }) s
    after_simulation-Sends critical_floor (value (scv_i128 hi lo)) e s =
        after_balance-Sends critical_floor (i128 hi lo)
          (record { simulated = value (scv_i128 hi lo); read = e; reports = held hi lo }) s
    after_simulation-Sends critical_floor (value scv_other) e s =
        Adds-none (λ u. u.submitted) IsPlanned 1 s

    write_target-Sends :
        (s : World) → Sends 1 s (write_target d cfg answers decision.applied_target on_chain s).1
    unfolding write_target send_target
    write_target-Sends s =
        elim (Bool-cases (should_write_on_chain decision.applied_target on_chain cfg.band_bps)) [
          | inr within ↦ simp within (Adds-none (λ u. u.submitted) IsPlanned 1 s)
          | inl outside ↦ simp outside (
            set_tier0_target decision.applied_target ∷ [],
            refl,
            (
              target decision on_chain dec (
                  should_write_on_chain-IsOutside decision.applied_target on_chain cfg.band_bps
                    outside),
              tt,
            ),
            omega arith,
          )
        ]

    query_balance : ℤ → M World (Unit {0})
    query_balance critical_floor = do
      account ← call answers.account
      simulated ← call answers.balance
      after_simulation d cfg answers decision.applied_target critical_floor simulated

    query_balance-Sends :
        (critical_floor : ℤ) (s : World) → Sends 1 s (query_balance critical_floor s).1
    unfolding query_balance
    query_balance-Sends critical_floor s = elim (Result-cases answers.account) [
      | inr (m, e) ↦ simp e (Adds-none (λ u. u.submitted) IsPlanned 1 s)
      | inl (a, e) ↦ elim (Result-cases answers.balance) [
        | inr (m, f) ↦ simp (e, f) (Adds-none (λ u. u.submitted) IsPlanned 1 s)
        | inl (simulated, f) ↦ simp (e, f) (after_simulation-Sends critical_floor simulated f s)
      ]
    ]

    after_decision-Sends :
        (critical_floor : ℤ) (s : World)
        → Sends 2 s (after_decision d cfg answers decision on_chain critical_floor s).1
    unfolding after_decision query_balance
    after_decision-Sends critical_floor s =
        Adds-bind (λ u. u.submitted) IsPlanned 1 1 s
          (write_target d cfg answers decision.applied_target on_chain)
          (λ _. query_balance critical_floor) (write_target-Sends s)
          (λ _ t. query_balance-Sends critical_floor t)

module _ (d : Double) (cfg : Config d) (answers : Answers) (w : World) where
  -- Whatever the RPC, the clients and the SDK answer, and wherever the tick throws, it submits at
  -- most two calls. A target is written only if it is the one that hysteresis decided and lies
  -- outside the band; a recall is made only if the balance is below the refill band's share of the target, both its
  -- settings are configured, and it asks for the decided target less the balance, which is the one
  -- that this tick's simulation of the vault's balance reports.
  pub tick-Sends :
      (fetched : Result (List BurnObservation))
      → Sends d cfg answers fetched w 2 w (tick d cfg answers fetched w).1
  unfolding tick decide
  tick-Sends (err m) = Adds-none (λ u. u.submitted) (IsPlanned d cfg answers (err m) w) 2 w
  tick-Sends (ok os) = elim (Result-cases (compute_ewmas d (map d.from_int (winsorized os)))) [
    | inr (m, e) ↦ simp e (nothing os)
    | inl (rates, r) ↦ elim (Result-cases answers.tier0_target) [
      | inr (m, e) ↦ simp (r, e) (nothing os)
      | inl (on_chain, t) ↦ elim (Result-cases answers.critical_floor) [
        | inr (m, e) ↦ simp (r, t, e) (nothing os)
        | inl (floor, c) ↦
            simp (r, t, c)
              (after_decision-Sends d cfg answers (ok os) w
                (decision_of d cfg answers (ok os) w rates on_chain) on_chain
                (record {
                  observations = os;
                  rates = rates;
                  was_fetched = refl;
                  averaged = r;
                  read_target = t;
                  decided = refl;
                })
                floor _)
      ]
    ]
  ]
    where
      nothing : (os : List BurnObservation) → Sends d cfg answers (ok os) w 2 w w
      nothing os = Adds-none (λ u. u.submitted) (IsPlanned d cfg answers (ok os) w) 2 w

  -- Once the burn events and both contract reads have been answered, the tick leaves the decided
  -- hysteresis state in the state file, also when the target's write or a later call throws.
  pub tick-state_file :
      (os : List BurnObservation) (rates : Rates d) (on_chain critical_floor : ℤ)
      → compute_ewmas d (map d.from_int (winsorized os)) ≡ ok rates
      → answers.tier0_target ≡ ok on_chain
      → answers.critical_floor ≡ ok critical_floor
      → (tick d cfg answers (ok os) w).1.state_file
        ≡ holds (decision_of d cfg answers (ok os) w rates on_chain).next_state
  unfolding tick decide
  tick-state_file os rates on_chain critical_floor r t c =
      simp (r, t, c)
        (after_decision-Leaves d cfg answers (decision_of d cfg answers (ok os) w rates on_chain)
          on_chain critical_floor _)
