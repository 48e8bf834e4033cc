-- ===== src/Keeper/Reporter/Series/Strides.antt =====
-- What a downsampled series keeps.
use refluo.Prelude.Double.{Double}
use refluo.Prelude.{
  ℕ, zero, suc, ◌+◌, ◌-◌, ◌*◌, ◌^◌, ◌≤◌, ◌<◌, ◌≡◌, refl, ap, ◌∙◌, false, Option, some, List, [],
  ◌∷◌, length, get_elem?, arith, leb, ℤ, pos, negsuc,
}
use refluo.Keeper.Reporter.Series.{at, stride, picked_from, downsample_series}

-- A whole number above 0 compares as such, and a multiple of a stride is rounded to a nearest whole number: a double has 53 bits, and below 2^25
-- the error of the division and the product is too small to reach the next one.
pub record RoundLaws (d : Double) : Type 0 where
  pub positive : (n : ℕ) → d.leb (d.from_int (pos (suc n))) (d.from_int (pos 0)) ≡ false
  pub nearest :
      (i a b : ℕ)
      → i ≤ b
      → b < a
      → 0 < b
      → a < 2 ^ 25
      → (r : ℕ) × (d.round
            (d.mul (d.from_int (pos i)) (d.div (d.from_int (pos a)) (d.from_int (pos b))))
          ≡ pos r)
        × (2 * (i * a) ≤ 2 * (r * b) + b)
        × (2 * (r * b) ≤ 2 * (i * a) + b)

-- Where `i` of `b` strides over `a` end up.
module _ (i a b r : ℕ) (low : 2 * (i * a) ≤ 2 * (r * b) + b) (high : 2 * (r * b) ≤ 2 * (i * a) + b)
    (some_strides : 0 < b) where
  nearest-first : i ≡ 0 → r ≡ 0
  nearest-first e = grind arith

  nearest-last : i ≡ b → r ≡ a
  nearest-last e = grind arith

  nearest-le : i ≤ b → r ≤ a
  nearest-le h = grind arith

nearest-lt :
    (i a b r s : ℕ)
    → 2 * (r * b) ≤ 2 * (i * a) + b
    → 2 * ((i + 1) * a) ≤ 2 * (s * b) + b
    → b < a
    → r < s
nearest-lt i a b r s high low h = grind arith

pub get_elem?-of_lt :
    {A : Type 0} (xs : List A) (i : ℕ) → i < length xs → (x : A) × (get_elem? xs i ≡ some x)
get_elem?-of_lt [] i h = absurd (omega arith)
get_elem?-of_lt (x ∷ xs) zero h = (x, refl)
get_elem?-of_lt (x ∷ xs) (suc i) h = get_elem?-of_lt xs i (omega arith)

module _ (d : Double) {A : Type 0} (items : List A) where
  -- Where the source looks up the `k`th point of `max_points`.
  abbrev pub spot : (max_points k : ℕ) → ℤ
  spot max_points k = d.round (d.mul (d.from_int (pos k)) (stride d (length items) max_points))

  get_elem?-picked_from :
      (max_points rounds i k : ℕ)
      → k < rounds
      → get_elem? (picked_from d items (stride d (length items) max_points) rounds i) k
        ≡ some (at items (spot max_points (i + k)))
  unfolding picked_from
  get_elem?-picked_from max_points zero i k h = absurd (omega arith)
  get_elem?-picked_from max_points (suc rounds) i zero h =
      let e : i + 0 ≡ i = omega arith in rw e refl
  get_elem?-picked_from max_points (suc rounds) i (suc k) h =
      let e : i + suc k ≡ (i + 1) + k = omega arith in
      rw e (get_elem?-picked_from max_points rounds (i + 1) k (omega arith))

  length-picked_from :
      (max_points rounds i : ℕ)
      → length (picked_from d items (stride d (length items) max_points) rounds i) ≡ rounds
  unfolding picked_from
  length-picked_from max_points zero i = refl
  length-picked_from max_points (suc rounds) i =
      ap suc (length-picked_from max_points rounds (i + 1))

  -- A selection of so many items, by their positions in the list.
  pub record Selects (max_points : ℕ) (picked : List (Option A)) : Type 0 where
    pub position : ℕ → ℕ
    pub all_picked : length picked ≡ max_points
    pub first : position 0 ≡ 0
    pub last : position (max_points - 1) ≡ length items - 1
    pub in_order : (k : ℕ) → k + 1 < max_points → position k < position (k + 1)
    pub is_item :
        (k : ℕ)
        → k < max_points
        → (x : A) × (get_elem? items (position k) ≡ some x) × (get_elem? picked k ≡ some (some x))

  abbrev magnitude : ℤ → ℕ
  magnitude (pos n) = n
  magnitude (negsuc n) = 0

  module _ (laws : RoundLaws d) (max_points : ℕ) (few : 1 < max_points)
      (many : max_points < length items) (small : length items ≤ 2 ^ 25) where
    near :
        (k : ℕ)
        → k < max_points
        → let a = length items - 1 in
          let b = max_points - 1 in
          let r = magnitude (spot max_points k) in
          (spot max_points k ≡ pos r)
          × (2 * (k * a) ≤ 2 * (r * b) + b)
          × (2 * (r * b) ≤ 2 * (k * a) + b)
    near k h =
        let (r, e, low, high) =
          laws.nearest k (length items - 1) (max_points - 1) (omega arith) (omega arith)
            (omega arith) (omega arith) in
        rw (e) (refl, low, high)

  -- If the rounding is to a nearest number, a series of at most 2^25 points that is longer than the
  -- limit of at least two is thinned to just so many of its own points: each once and in the
  -- series' order, the first one first and the last one last.
  pub downsample_series-Selects :
      RoundLaws d
      → (max_points : ℕ) → 1 < max_points
      → max_points < length items
      → length items ≤ 2 ^ 25
      → Selects max_points (downsample_series d items max_points)
  unfolding downsample_series
  downsample_series-Selects laws max_points few many small =
      let longer : leb (length items) max_points ≡ false = ground arith in
      let several : leb max_points 1 ≡ false = ground arith in
      let close = near laws max_points few many small in
      simp (longer, several)
        (record {
          position = λ k. magnitude (spot max_points k);
          all_picked = length-picked_from max_points max_points 0;
          first =
              let (e, low, high) = close 0 (omega arith) in
              nearest-first 0 _ (max_points - 1) _ low high (omega arith) refl;
          last =
              let (e, low, high) = close (max_points - 1) (omega arith) in
              nearest-last (max_points - 1) _ (max_points - 1) _ low high (omega arith) refl;
          in_order = λ k h.
              let (e, low, high) = close k (omega arith) in
              let (f, low', high') = close (k + 1) h in
              nearest-lt k _ _ _ _ high low' (omega arith);
          is_item = λ k h.
              let (e, low, high) = close k h in
              let below = nearest-le k _ (max_points - 1) _ low high (omega arith) (omega arith) in
              let (x, found) =
                get_elem?-of_lt items (magnitude (spot max_points k)) (omega arith) in
              (
                x,
                found,
                get_elem?-picked_from max_points max_points 0 k h
                    ∙ ap some (
                        ap (λ n. at items (spot max_points n)) (zero_add k)
                        ∙ ap (at items) e
                        ∙ found),
              );
        })
    where
      zero_add : (k : ℕ) → 0 + k ≡ k
      zero_add k = omega arith
