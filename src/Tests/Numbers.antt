-- ===== src/Tests/Numbers.antt =====
-- Whole numbers in the place of doubles: every operation that the model asks for is there, and the
-- laws hold.
use native.Mathlib.Nat.{
  mul-le-mul_left, mul-le-mul_right, le-div_iff_mul-le, le_trans, div-mul-le_self,
}
use refluo.Prelude.{
  ℕ, ◌+◌, ◌-◌, ◌*◌, ◌/◌, ◌≤◌, ◌≡◌, refl, max, arith, leb, leb→le, true, false, pos, pos_part,
  if◌then◌else◌, ◌==◌,
}
use refluo.Prelude.Double.{Double, DoubleLaws}

abbrev pub whole : Double
whole = record {
  Num = ℕ;
  from_int = pos_part;
  add = λ a b. a + b;
  sub = λ a b. a - b;
  mul = λ a b. a * b;
  div = λ a b. a / b;
  max_of = max;
  abs = λ a. a;
  exp = λ a. if a == 0 then 1 else 0;
  neg = λ a. a;
  ln2 = 1;
  round = pos;
  leb = leb;
}

le→leb : (a b : ℕ) → a ≤ b → leb a b ≡ true
le→leb a b h = ground arith

scaled : (c a b : ℕ) → leb a b ≡ true → leb (c * a) (c * b) ≡ true
scaled c a b k = le→leb _ _ (mul-le-mul_left c (leb→le a b k))

scaled_left : (c a b : ℕ) → leb a b ≡ true → leb (a * c) (b * c) ≡ true
scaled_left c a b k = le→leb _ _ (mul-le-mul_right c (leb→le a b k))

shared : (c a b : ℕ) → leb c 0 ≡ false → leb a b ≡ true → leb (a / c) (b / c) ≡ true
shared c a b h k =
    le→leb _ _
      ((le-div_iff_mul-le (ground arith)).1 (le_trans (div-mul-le_self a c) (leb→le a b k)))

-- Whole numbers have every law that is asked of doubles.
whole_laws : DoubleLaws whole
whole_laws = record {
  leb_refl = λ a. ground arith;
  leb_trans = λ a b c h k. ground arith;
  positive = λ n. ground arith;
  from_int_mono = λ a b h. ground arith;
  add_mono = λ a b c e h k. ground arith;
  sub_nonneg = λ a b h. ground arith;
  sub_le = λ a b h. ground arith;
  mul_mono = λ c a b h k. scaled c a b k;
  mul_mono_left = λ c a b h k. scaled_left c a b k;
  mul_nonneg = λ a b h k. ground arith;
  div_mono = shared;
  div_neg = λ a c. refl;
  div_nonneg = λ a c h k. ground arith;
  max_mono = λ a b c e h k. ground arith;
  le_max_left = λ a b. ground arith;
  ln2_nonneg = refl;
  exp_nonneg = λ a. ground arith;
  exp_neg_le_one = λ a h. ground arith;
  round_mono = λ a b h. ground arith;
  round_zero = refl;
}
