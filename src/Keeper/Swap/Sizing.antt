-- ===== src/Keeper/Swap/Sizing.antt =====
-- The size of a top-up swap over the amounts that occur: balances, prices and bounds that are not
-- negative.
use native.Mathlib.Nat.{div-mul-le_self, le_of_mul-le-mul_right, le_trans, mul-le-mul_left}
use refluo.Prelude.Result.{ok}
use refluo.Prelude.{
  ℕ, ◌+◌, ◌-◌, ◌*◌, ◌/◌, ◌^◌, ◌≤◌, ◌<◌, ◌≡◌, refl, none, some, arith, ℤ, pos, *ℤ-pos, /ℤ-pos,
  -ℤ-pos, ◌<ℤ◌, ◌≤ℤ◌, ◌↔◌,
}
use refluo.Keeper.Swap.{SwapNeed, oracle_derived_min_out, decide_swap}

-- The decision over the natural numbers.
abbrev pub amount_in_of : ℕ → ℕ → ℕ
amount_in_of shortfall price = shortfall * price / 10 ^ 14

abbrev pub min_out_of : ℕ → ℕ → ℕ → ℕ
min_out_of amount_in price bps = amount_in * 10 ^ 14 / price * bps / 10_000

pub oracle_derived_min_out-pos :
    (amount_in price bps : ℕ)
    → 0 < price
    → oracle_derived_min_out (pos amount_in) (pos price) (pos bps)
      ≡ ok (pos (min_out_of amount_in price bps))
unfolding oracle_derived_min_out
oracle_derived_min_out-pos amount_in price bps h = simp (*ℤ-pos, /ℤ-pos) (ground arith)

min_out_of-le :
    (shortfall price bps : ℕ)
    → 0 < price
    → bps ≤ 10_000
    → min_out_of (amount_in_of shortfall price) price bps ≤ shortfall
min_out_of-le shortfall price bps h k =
    let fair : amount_in_of shortfall price * 10 ^ 14 ≤ shortfall * price =
      div-mul-le_self (shortfall * price) (10 ^ 14) in
    let expected : ℕ = amount_in_of shortfall price * 10 ^ 14 / price in
    let within : expected ≤ shortfall =
      le_of_mul-le-mul_right
        (le_trans (div-mul-le_self (amount_in_of shortfall price * 10 ^ 14) price) fair) h in
    let scaled : expected * bps ≤ expected * 10_000 = mul-le-mul_left expected k in omega arith

-- What a needed top-up asks for.
pub record IsSized (shortfall price bps : ℕ) (need : SwapNeed) : Type 0 where
  pub amount_in : ℕ
  pub min_out : ℕ
  pub in_is : need.amount_in_usdc_stroops ≡ pos amount_in
  pub out_is : need.amount_out_min_xlm_stroops ≡ pos min_out
  pub pays_at_most : amount_in * 10 ^ 14 ≤ shortfall * price
  pub pays_at_least : shortfall * price < (amount_in + 1) * 10 ^ 14
  pub asks_at_most : min_out ≤ shortfall
  pub contract_floor :
      oracle_derived_min_out (pos amount_in) (pos price) (pos bps) ≡ ok (pos min_out)

decide_swap-below :
    (balance floor target price bps : ℕ)
    → floor < target
    → balance < floor
    → 0 < price
    → decide_swap (pos balance) (pos floor) (pos target) (pos price) (pos bps)
      ≡ ok (
          some (record {
            amount_in_usdc_stroops = pos (amount_in_of (target - balance) price);
            amount_out_min_xlm_stroops =
                pos (min_out_of (amount_in_of (target - balance) price) price bps);
          }))
unfolding decide_swap
decide_swap-below balance floor target price bps h k p =
    simp (-ℤ-pos target balance (omega arith), *ℤ-pos, /ℤ-pos)
      (simp (oracle_derived_min_out-pos (amount_in_of (target - balance) price) price bps p)
        (ground arith))

-- When the balance is below the floor, the target above it, the price positive and the slippage
-- bound at most 10 000 bps, a swap is needed. It pays the shortfall at the oracle's price rounded
-- down to a stroop, demands no more XLM than the shortfall, and its least output is the floor that
-- the oracle's formula gives for the amount paid.
pub decide_swap-IsSized :
    (balance floor target price bps : ℕ)
    → floor < target
    → balance < floor
    → 0 < price
    → bps ≤ 10_000
    → (need : SwapNeed) × (decide_swap (pos balance) (pos floor) (pos target) (pos price) (pos bps)
        ≡ ok (some need))
      × IsSized (target - balance) price bps need
decide_swap-IsSized balance floor target price bps h k p b =
    let shortfall : ℕ = target - balance in
    (
      _,
      decide_swap-below balance floor target price bps h k p,
      record {
        amount_in = amount_in_of shortfall price;
        min_out = min_out_of (amount_in_of shortfall price) price bps;
        in_is = refl;
        out_is = refl;
        pays_at_most = div-mul-le_self (shortfall * price) (10 ^ 14);
        pays_at_least = omega arith;
        asks_at_most = min_out_of-le shortfall price bps p b;
        contract_floor = oracle_derived_min_out-pos (amount_in_of shortfall price) price bps p;
      },
    )

-- With the target above the floor, no swap is decided exactly when the balance is at or above the
-- floor, whatever the price.
decide_swap-none_iff :
    (balance floor target price bps : ℤ)
    → floor <ℤ target
    → (decide_swap balance floor target price bps ≡ ok none) ↔ (floor ≤ℤ balance)
unfolding decide_swap oracle_derived_min_out
decide_swap-none_iff balance floor target price bps h = (λ e. ground arith, λ k. ground arith)
