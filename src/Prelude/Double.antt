-- ===== src/Prelude/Double.antt =====
-- The source's `number` where it holds a fraction: what the code uses of IEEE arithmetic, as a
-- parameter, and what it relies on, over the finite values that occur.
use Prim.Native.Nat.{ℕ, suc}
use mathlib.Core.Path.{◌≡◌}
use mathlib.Core.Bool.{Bool, true, false}
use refluo.Prelude.Int.{ℤ, pos, ◌≤ℤ◌}

pub record Double : Type 1 where
  pub Num : Type 0
  pub from_int : ℤ → Num
  pub add : Num → Num → Num
  pub sub : Num → Num → Num
  pub mul : Num → Num → Num
  pub div : Num → Num → Num
  pub max_of : Num → Num → Num
  pub abs : Num → Num
  -- `Math.exp` and `Math.LN2`.
  pub exp : Num → Num
  pub neg : Num → Num
  pub ln2 : Num
  -- `Math.round`, then `BigInt`.
  pub round : Num → ℤ
  pub leb : Num → Num → Bool

-- Rounding keeps the order, so every operation that is monotone over the reals is monotone here.
module _ (d : Double) where
  open d use {Num, from_int, add, sub, mul, div, max_of, exp, neg, ln2, round, leb}

  pub record DoubleLaws : Type 0 where
    pub leb_refl : (a : Num) → leb a a ≡ true
    pub leb_trans : (a b c : Num) → leb a b ≡ true → leb b c ≡ true → leb a c ≡ true
    pub positive : (n : ℕ) → leb (from_int (pos (suc n))) (from_int (pos 0)) ≡ false
    pub from_int_mono : (a b : ℤ) → a ≤ℤ b → leb (from_int a) (from_int b) ≡ true
    pub add_mono :
        (a b c e : Num) → leb a b ≡ true → leb c e ≡ true → leb (add a c) (add b e) ≡ true
    pub sub_nonneg : (a b : Num) → leb b a ≡ true → leb (from_int (pos 0)) (sub a b) ≡ true
    pub sub_le : (a b : Num) → leb (from_int (pos 0)) b ≡ true → leb (sub a b) a ≡ true
    pub mul_mono :
        (c a b : Num)
        → leb (from_int (pos 0)) c ≡ true
        → leb a b ≡ true
        → leb (mul c a) (mul c b) ≡ true
    pub mul_mono_left :
        (c a b : Num)
        → leb (from_int (pos 0)) c ≡ true
        → leb a b ≡ true
        → leb (mul a c) (mul b c) ≡ true
    pub mul_nonneg :
        (a b : Num)
        → leb (from_int (pos 0)) a ≡ true
        → leb (from_int (pos 0)) b ≡ true
        → leb (from_int (pos 0)) (mul a b) ≡ true
    pub div_mono :
        (c a b : Num)
        → leb c (from_int (pos 0)) ≡ false
        → leb a b ≡ true
        → leb (div a c) (div b c) ≡ true
    pub div_neg : (a c : Num) → div (neg a) c ≡ neg (div a c)
    pub div_nonneg :
        (a c : Num)
        → leb (from_int (pos 0)) a ≡ true
        → leb c (from_int (pos 0)) ≡ false
        → leb (from_int (pos 0)) (div a c) ≡ true
    pub max_mono :
        (a b c e : Num) → leb a b ≡ true → leb c e ≡ true → leb (max_of a c) (max_of b e) ≡ true
    pub le_max_left : (a b : Num) → leb a (max_of a b) ≡ true
    pub ln2_nonneg : leb (from_int (pos 0)) ln2 ≡ true
    pub exp_nonneg : (a : Num) → leb (from_int (pos 0)) (exp a) ≡ true
    pub exp_neg_le_one :
        (a : Num) → leb (from_int (pos 0)) a ≡ true → leb (exp (neg a)) (from_int (pos 1)) ≡ true
    pub round_mono : (a b : Num) → leb a b ≡ true → round a ≤ℤ round b
    pub round_zero : round (from_int (pos 0)) ≡ pos 0
