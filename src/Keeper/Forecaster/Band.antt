-- ===== src/Keeper/Forecaster/Band.antt =====
-- The write band and the refill band, over targets that are not negative.
use refluo.Prelude.{
  ℕ, zero, suc, ◌+◌, ◌*◌, ◌-◌, ◌≤◌, ◌<◌, ◌≡◌, ◌↔◌, inl, inr, true, arith, pos, *ℤ-pos, /ℤ-pos,
  -ℤ-pos, ltb_ℤ, ap, ◌∙◌, if◌then◌else◌, Bool-cases, ◌-ℤ◌,
}
use refluo.Keeper.Forecaster.{should_write_on_chain, should_recall}

abbrev pub distance : ℕ → ℕ → ℕ
distance a b = (a - b) + (b - a)

distance-ℤ :
    (p o : ℕ)
    → (if ltb_ℤ (pos o) (pos p) then pos p -ℤ pos o else pos o -ℤ pos p) ≡ pos (distance p o)
distance-ℤ p o = elim (Bool-cases (ltb_ℤ (pos o) (pos p))) [
  | inl e ↦ rw (e) (-ℤ-pos p o (ground arith) ∙ ap pos (ground arith))
  | inr e ↦ rw (e) (-ℤ-pos o p (ground arith) ∙ ap pos (ground arith))
]

-- A target is written exactly when it differs from the one on chain by more than the band's share
-- of that; from 0 on chain, exactly when it is not 0.
should_write_on_chain_iff :
    (proposed on_chain band_bps : ℕ)
    → (should_write_on_chain (pos proposed) (pos on_chain) (pos band_bps) ≡ true)
      ↔ (on_chain * band_bps < distance proposed on_chain * 10_000)
unfolding should_write_on_chain
should_write_on_chain_iff proposed zero band_bps = (λ e. ground arith, λ h. ground arith)
should_write_on_chain_iff proposed (suc o) band_bps =
    simp (distance-ℤ, *ℤ-pos, /ℤ-pos) (λ e. ground arith, λ h. ground arith)

-- A recall is due exactly when the balance and one more stroop still come to at most the refill
-- band's share of the target.
should_recall_iff :
    (balance target band_bps : ℕ)
    → (should_recall (pos balance) (pos target) (pos band_bps) ≡ true)
      ↔ ((balance + 1) * 10_000 ≤ target * band_bps)
unfolding should_recall
should_recall_iff balance target band_bps =
    simp (*ℤ-pos, /ℤ-pos) (λ e. ground arith, λ h. ground arith)
