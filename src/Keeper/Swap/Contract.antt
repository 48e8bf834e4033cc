-- ===== src/Keeper/Swap/Contract.antt =====
-- `oracle_derived_min_out` of contracts/policy-swap/src/lib.rs, the least output that the contract
-- demands of a swap, and the one that the keeper proposes. An `i128` is an integer whose operations
-- are checked; a panic is an error.
use native.Mathlib.Nat.{mul-div-mul_right, mul_assoc}
use native.Mathlib.Numerals.{unary_clauses}
use refluo.Prelude.Result.{Result, ok, err, and_then}
use refluo.Prelude.{
  ℕ, zero, suc, ◌-◌, ◌*◌, ◌/◌, ◌^◌, ◌<◌, ◌≡◌, refl, arith, ℤ, pos, negsuc, *ℤ-pos, /ℤ-pos, ◌*ℤ◌,
  ◌/ℤ◌, ◌∙◌, sym, ap, leb_ℤ, ◌&&◌, Bool, true, false, not, Bool-cases, if◌then◌else◌, inl, inr,
}
use refluo.Keeper.Swap.{oracle_derived_min_out}
use refluo.Keeper.Swap.Sizing.{min_out_of, oracle_derived_min_out-pos}

pub data MirroredOracleStatus : Type 0 where
  healthy one_feed degraded hard_stop : MirroredOracleStatus

pub record MirroredPriceQuote : Type 0 where
  pub price : ℤ
  pub timestamp : ℕ
  pub status : MirroredOracleStatus

-- Of the configuration, what the least output depends on.
pub record SwapConfig : Type 0 where
  pub token_in_decimals : ℕ
  pub token_out_decimals : ℕ
  pub oracle_price_decimals : ℕ
  pub min_out_bps : ℕ

abbrev pub bps_denom : ℤ
bps_denom = pos 10_000

-- The value fits an `i128`.
abbrev pub fits : ℤ → Bool
fits x = leb_ℤ (negsuc (2 ^ 127 - 1)) x && leb_ℤ x (pos (2 ^ 127 - 1))

abbrev pub checked : ℤ → Result ℤ
checked x = if fits x then ok x else err "BadState"

abbrev pub checked_mul : ℤ → ℤ → Result ℤ
checked_mul a b = checked (a *ℤ b)

abbrev pub is_zero : ℤ → Bool
is_zero b = leb_ℤ b (pos 0) && leb_ℤ (pos 0) b

abbrev pub checked_div : ℤ → ℤ → Result ℤ
checked_div a b = if is_zero b then err "BadState" else checked (a /ℤ b)

-- `10i128.pow`, which panics when it overflows.
abbrev pub pow10 : ℕ → Result ℤ
pow10 exp = if fits (pos (10 ^ exp)) then ok (pos (10 ^ exp)) else err "overflow"

abbrev pub is_usable : MirroredOracleStatus → Bool
is_usable healthy = true
is_usable one_feed = true
is_usable degraded = false
is_usable hard_stop = false

abbrev pub scaled : SwapConfig → ℤ → ℤ → Result ℤ
scaled cfg price amount_in = and_then (pow10 cfg.oracle_price_decimals) (λ one.
    and_then (pow10 cfg.token_out_decimals) (λ one_out.
      and_then (checked_mul one one_out) (λ scale_num.
        and_then (pow10 cfg.token_in_decimals) (λ one_in.
          and_then (checked_mul price one_in) (λ scale_den.
            and_then (checked_mul amount_in scale_num) (λ product.
              and_then (checked_div product scale_den) (λ expected_out.
                and_then (checked_mul expected_out (pos cfg.min_out_bps))
                  (λ part. checked_div part bps_denom))))))))

unfoldable pub on_chain_min_out : SwapConfig → MirroredPriceQuote → ℤ → Result ℤ
on_chain_min_out cfg quote amount_in =
    if not (is_usable quote.status)
    then err "OracleUnhealthy"
    else if leb_ℤ quote.price (pos 0)
    then err "BadState"
    else scaled cfg quote.price amount_in

and_then-ok :
    {A B : Type 0} (r : Result A) (k : A → Result B) {b : B}
    → and_then r k ≡ ok b
    → (a : A) × (r ≡ ok a) × (k a ≡ ok b)
and_then-ok (ok a) k e = (a, refl, e)
and_then-ok (err m) k e = absurd (cc e)

checked-ok : (x : ℤ) {y : ℤ} → checked x ≡ ok y → y ≡ x
checked-ok x e = ground arith

pow10-ok : (exp : ℕ) {y : ℤ} → pow10 exp ≡ ok y → y ≡ pos (10 ^ exp)
pow10-ok exp e = ground arith

checked_div-ok : (a b : ℤ) {y : ℤ} → checked_div a b ≡ ok y → y ≡ a /ℤ b
checked_div-ok a b e = ground (arith, checked-ok (a /ℤ b))

scaled-ok :
    (cfg : SwapConfig) (price amount_in : ℤ) {out : ℤ}
    → scaled cfg price amount_in ≡ ok out
    → out
      ≡ amount_in
        *ℤ (pos (10 ^ cfg.oracle_price_decimals) *ℤ pos (10 ^ cfg.token_out_decimals))
        /ℤ (price *ℤ pos (10 ^ cfg.token_in_decimals))
        *ℤ pos cfg.min_out_bps
        /ℤ pos 10_000
scaled-ok cfg price amount_in e =
    let (one, e1, f1) = and_then-ok (pow10 cfg.oracle_price_decimals) _ e in
    let (one_out, e2, f2) = and_then-ok (pow10 cfg.token_out_decimals) _ f1 in
    let (scale_num, e3, f3) = and_then-ok (checked_mul one one_out) _ f2 in
    let (one_in, e4, f4) = and_then-ok (pow10 cfg.token_in_decimals) _ f3 in
    let (scale_den, e5, f5) = and_then-ok (checked_mul price one_in) _ f4 in
    let (product, e6, f6) = and_then-ok (checked_mul amount_in scale_num) _ f5 in
    let (expected_out, e7, f7) = and_then-ok (checked_div product scale_den) _ f6 in
    let (part, e8, f8) = and_then-ok (checked_mul expected_out (pos cfg.min_out_bps)) _ f7 in
    let c1 = pow10-ok cfg.oracle_price_decimals e1 in
    let c2 = pow10-ok cfg.token_out_decimals e2 in
    let c3 = checked-ok (one *ℤ one_out) e3 in
    let c4 = pow10-ok cfg.token_in_decimals e4 in
    let c5 = checked-ok (price *ℤ one_in) e5 in
    let c6 = checked-ok (amount_in *ℤ scale_num) e6 in
    let c7 = checked_div-ok product scale_den e7 in
    let c8 = checked-ok (expected_out *ℤ pos cfg.min_out_bps) e8 in
    let c9 = checked_div-ok part (pos 10_000) f8 in cc (c1, c2, c3, c4, c5, c6, c7, c8, c9)

guards-ok :
    (cfg : SwapConfig) (quote : MirroredPriceQuote) (amount_in : ℤ) {out : ℤ}
    → on_chain_min_out cfg quote amount_in ≡ ok out
    → (leb_ℤ quote.price (pos 0) ≡ false) × (scaled cfg quote.price amount_in ≡ ok out)
unfolding on_chain_min_out
guards-ok cfg quote amount_in e = elim (Bool-cases (is_usable quote.status)) [
  | inr bad ↦ absurd (cc (rw bad at e))
  | inl usable ↦ elim (Bool-cases (leb_ℤ quote.price (pos 0))) [
    | inl low ↦ absurd (cc (rw (usable, low) at e))
    | inr high ↦ (high, rw (usable, high) at e)
  ]
]

power_positive : (d : ℕ) → 0 < 10 ^ d
power_positive zero = omega arith
power_positive (suc d) = let smaller = power_positive d in simp unary_clauses (omega arith)

keeper_amount :
    (d amount_in price bps : ℕ)
    → 0 < price
    → pos amount_in
        *ℤ (pos (10 ^ 14) *ℤ pos (10 ^ d))
        /ℤ (pos price *ℤ pos (10 ^ d))
        *ℤ pos bps
        /ℤ pos 10_000
      ≡ pos (min_out_of amount_in price bps)
keeper_amount d amount_in price bps h =
    simp (*ℤ-pos, /ℤ-pos) (ap (λ (e : ℕ). pos (e * bps / 10_000)) cancelled)
  where
    cancelled : amount_in * (10 ^ 14 * 10 ^ d) / (price * 10 ^ d) ≡ amount_in * 10 ^ 14 / price
    cancelled =
        rw (← mul_assoc amount_in (10 ^ 14) (10 ^ d))
          (mul-div-mul_right (amount_in * 10 ^ 14) price (power_positive d))

-- For an oracle of 14 decimals and two tokens of the same number of decimals: whenever the contract
-- works out a least output for an amount that is not negative, and does not panic because the
-- oracle is unhealthy, its price is not positive or a product does not fit, the keeper proposes
-- exactly that output for the same price and bound.
pub on_chain_min_out-oracle_derived_min_out :
    (cfg : SwapConfig) (quote : MirroredPriceQuote) (amount_in : ℕ) (out : ℤ)
    → cfg.oracle_price_decimals ≡ 14
    → cfg.token_in_decimals ≡ cfg.token_out_decimals
    → on_chain_min_out cfg quote (pos amount_in) ≡ ok out
    → oracle_derived_min_out (pos amount_in) quote.price (pos cfg.min_out_bps) ≡ ok out
on_chain_min_out-oracle_derived_min_out cfg quote amount_in out fourteen same e =
    let (positive, f) = guards-ok cfg quote (pos amount_in) e in
    agrees quote.price positive
      (rw (fourteen, same) at (scaled-ok cfg quote.price (pos amount_in) f))
  where
    agrees :
        (price : ℤ)
        → leb_ℤ price (pos 0) ≡ false
        → out
          ≡ pos amount_in
            *ℤ (pos (10 ^ 14) *ℤ pos (10 ^ cfg.token_out_decimals))
            /ℤ (price *ℤ pos (10 ^ cfg.token_out_decimals))
            *ℤ pos cfg.min_out_bps
            /ℤ pos 10_000
        → oracle_derived_min_out (pos amount_in) price (pos cfg.min_out_bps) ≡ ok out
    agrees (negsuc p) h e = absurd (ground arith)
    agrees (pos p) h e =
        let above : 0 < p = ground arith in
        oracle_derived_min_out-pos amount_in p cfg.min_out_bps above
        ∙ ap ok (sym (e ∙ keeper_amount cfg.token_out_decimals amount_in p cfg.min_out_bps above))
