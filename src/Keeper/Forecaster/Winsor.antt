-- ===== src/Keeper/Forecaster/Winsor.antt =====
-- Clipping against the trailing median.
use refluo.Prelude.Sort.{sort_by, sort_by-All, length-sort_by}
use refluo.Prelude.{
  ℕ, zero, suc, ◌/◌, ◌-◌, ◌%◌, ◌<◌, ◌≡◌, refl, inl, inr, List, [], ◌∷◌, arith, All, length, ℤ, pos,
  negsuc, ◌≤ℤ◌, ◌<ℤ◌, leb_ℤ, ◌+ℤ◌, ◌/ℤ◌, ◌*ℤ◌, ◌==◌, Bool-cases, +ℤ_parts, parts_disjoint, pos_part,
  neg_part,
}
use refluo.Keeper.Forecaster.{winsorize, median, at, middle}

abbrev pub Within : ℤ → ℤ → ℤ → Type 0
Within lo hi v = (lo ≤ℤ v) × (v ≤ℤ hi)

at-All : (P : ℤ → Type 0) (xs : List ℤ) (i : ℕ) → All P xs → i < length xs → P (at xs i)
at-All P [] i h l = absurd (omega arith)
at-All P (x ∷ xs) zero (p, h) l = p
at-All P (x ∷ xs) (suc i) (p, h) l = at-All P xs i h (omega arith)

half_bounds :
    (s : ℤ) → (pos_part (s /ℤ pos 2) ≡ pos_part s / 2) × (neg_part (s /ℤ pos 2) ≡ neg_part s / 2)
unfolding ◌/ℤ◌
half_bounds (pos n) = (refl, ground arith)
half_bounds (negsuc n) = (ground arith, ground arith)

mean-Within : (lo hi a b : ℤ) → Within lo hi a → Within lo hi b → Within lo hi ((a +ℤ b) /ℤ pos 2)
mean-Within lo hi a b h k =
    let (up, down) = half_bounds (a +ℤ b) in
    omega
      (arith, up, down, +ℤ_parts a b, parts_disjoint (a +ℤ b), parts_disjoint lo, parts_disjoint hi)

middle-Within :
    (lo hi : ℤ) (xs : List ℤ) → 0 < length xs → All (Within lo hi) xs → Within lo hi (middle xs)
middle-Within lo hi xs l h = elim (Bool-cases (length xs % 2 == 1)) [
  | inl odd ↦ rw (odd) (at-All (Within lo hi) xs (length xs / 2) h (omega arith))
  | inr even ↦ rw (even) (
      mean-Within lo hi _ _ (at-All (Within lo hi) xs (length xs / 2 - 1) h (ground arith))
        (at-All (Within lo hi) xs (length xs / 2) h (omega arith)))
]

-- The median of a history that is not empty lies within every range that holds all its values.
median-Within :
    (lo hi v : ℤ) (vs : List ℤ) → All (Within lo hi) (v ∷ vs) → Within lo hi (median (v ∷ vs))
unfolding median
median-Within lo hi v vs h =
    middle-Within lo hi (sort_by leb_ℤ (v ∷ vs)) (omega (arith, length-sort_by leb_ℤ (v ∷ vs)))
      (sort_by-All (Within lo hi) leb_ℤ (v ∷ vs) h)

-- A payment of any size counts for at most three times the largest burn of the trailing hours, if
-- each of those burned something; and clipping only ever lowers an amount.
winsorize-median-le :
    (amount lo hi v : ℤ) (vs : List ℤ)
    → pos 0 <ℤ lo
    → All (Within lo hi) (v ∷ vs)
    → (winsorize amount (median (v ∷ vs)) ≤ℤ hi *ℤ pos 3)
      × (winsorize amount (median (v ∷ vs)) ≤ℤ amount)
unfolding winsorize ◌*ℤ◌
winsorize-median-le amount lo hi v vs h k =
    let inside = median-Within lo hi v vs k in (ground arith, ground arith)
