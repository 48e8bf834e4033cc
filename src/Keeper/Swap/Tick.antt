-- ===== src/Keeper/Swap/Tick.antt =====
-- What one tick of the swap sentinel submits.
use refluo.Prelude.Result.{ok, Result-cases, bind_out-return}
use refluo.Prelude.{
  ◌≡◌, refl, ◌⊎◌, inl, inr, none, some, List, [], ◌∷◌, ◌++◌, arith, ℤ, pos, ◌<ℤ◌, true, false,
  Bool-cases, get_elem?,
}
use refluo.Rpc.Retry.{with_retry}
use refluo.Keeper.Swap.{
  SwapNeed, Config, Quote, SwapCall, Answers, Submitted, oracle_derived_min_out, decide_swap,
  is_usable, quoted_below, swap_call, submit, after_router_quote, after_decision, after_quote, tick,
}

decide_swap-below_floor :
    (balance floor target price bps : ℤ) {need : SwapNeed}
    → decide_swap balance floor target price bps ≡ ok (some need)
    → (balance <ℤ floor)
      × (floor <ℤ target)
      × (pos 0 <ℤ price)
      × (oracle_derived_min_out need.amount_in_usdc_stroops price bps
          ≡ ok need.amount_out_min_xlm_stroops)
unfolding decide_swap oracle_derived_min_out
decide_swap-below_floor balance floor target price bps h =
    (ground arith, ground arith, ground arith, ground arith)

module _ (cfg : Config) (answers : Answers) where
  -- A swap that the tick may submit.
  pub record IsJustified (c : SwapCall) : Type 0 where
    pub balance : ℤ
    pub quote : Quote
    pub amounts : List ℤ
    pub read_balance : answers.balance ≡ ok balance
    pub read_quote : answers.quote ≡ ok quote
    pub usable : is_usable quote ≡ true
    pub below_floor : balance <ℤ cfg.xlm_floor
    pub positive_price : pos 0 <ℤ quote.price
    pub oracle_floor :
        oracle_derived_min_out c.amount_in quote.price cfg.swap_min_out_bps ≡ ok c.amount_out_min
    pub read_amounts :
        answers.amounts_out c.amount_in (cfg.usdc_token_id ∷ cfg.xlm_token_id ∷ []) ≡ ok amounts
    pub router_clears : quoted_below (get_elem? amounts 1) c.amount_out_min ≡ false
    pub to_vault : c.to ≡ cfg.vault_address
    pub by_path : c.path ≡ cfg.usdc_token_id ∷ cfg.xlm_token_id ∷ []
    pub by_rule : c.context_rule_id ≡ cfg.swap_context_rule_id

  abbrev pub SubmitsJustified : Submitted → Submitted → Type 0
  SubmitsJustified before after =
      (after ≡ before) ⊎ ((c : SwapCall) × (after ≡ before ++ c ∷ []) × IsJustified c)

module _ (cfg : Config) (answers : Answers) (sent : Submitted) where
  submit_submits :
      (need : SwapNeed)
      → ((submit cfg answers need sent).1 ≡ sent)
        ⊎ ((submit cfg answers need sent).1 ≡ sent ++ swap_call cfg answers need ∷ [])
  unfolding submit
  submit_submits need = elim (Result-cases (with_retry answers.account 5).0) [
    | inl (a, e) ↦ inr (simp e (bind_out-return (answers.authorize_and_send _) _ _))
    | inr (m, e) ↦ inl (simp e)
  ]

  router_submits :
      (balance : ℤ) (quote : Quote) (need : SwapNeed) (amounts : List ℤ)
      → answers.balance ≡ ok balance
      → answers.quote ≡ ok quote
      → is_usable quote ≡ true
      → decide_swap balance cfg.xlm_floor cfg.xlm_topup_target quote.price cfg.swap_min_out_bps
        ≡ ok (some need)
      → answers.amounts_out need.amount_in_usdc_stroops (cfg.usdc_token_id ∷ cfg.xlm_token_id ∷ [])
        ≡ ok amounts
      → SubmitsJustified cfg answers sent (after_router_quote cfg answers need amounts sent).1
  unfolding after_router_quote
  router_submits balance quote need amounts b q u d a =
      elim (Bool-cases (quoted_below (get_elem? amounts 1) need.amount_out_min_xlm_stroops)) [
        | inl below ↦ rw (below) (inl refl)
        | inr clears ↦ rw (clears) (elim (submit_submits need) [
          | inl e ↦ inl e
          | inr e ↦ inr (
            swap_call cfg answers need,
            e,
            record {
              balance = balance;
              quote = quote;
              amounts = amounts;
              read_balance = b;
              read_quote = q;
              usable = u;
              below_floor = bounds.0;
              positive_price = bounds.2;
              oracle_floor = bounds.3;
              read_amounts = a;
              router_clears = clears;
              to_vault = refl;
              by_path = refl;
              by_rule = refl;
            },
          )
        ])
      ]
    where
      bounds :
          (balance <ℤ cfg.xlm_floor)
          × (cfg.xlm_floor <ℤ cfg.xlm_topup_target)
          × (pos 0 <ℤ quote.price)
          × (oracle_derived_min_out need.amount_in_usdc_stroops quote.price cfg.swap_min_out_bps
              ≡ ok need.amount_out_min_xlm_stroops)
      bounds = decide_swap-below_floor balance _ _ _ _ d

  quote_submits :
      (balance : ℤ) (quote : Quote)
      → answers.balance ≡ ok balance
      → answers.quote ≡ ok quote
      → SubmitsJustified cfg answers sent (after_quote cfg answers balance quote sent).1
  unfolding after_quote after_decision
  quote_submits balance quote b q = elim (Bool-cases (is_usable quote)) [
    | inr degraded ↦ rw (degraded) (inl refl)
    | inl usable ↦
        elim (Result-cases (
          decide_swap balance cfg.xlm_floor cfg.xlm_topup_target quote.price
            cfg.swap_min_out_bps)) [
              | inr (m, e) ↦ simp (usable, e) (inl refl)
              | inl (none, e) ↦ simp (usable, e) (inl refl)
              | inl (some need, d) ↦
                  elim (Result-cases (
                    answers.amounts_out need.amount_in_usdc_stroops
                      (cfg.usdc_token_id ∷ cfg.xlm_token_id ∷ []))) [
                        | inr (m, e) ↦ simp (usable, d, e) (inl refl)
                        | inl (amounts, a) ↦
                            simp (usable, d, a)
                              (router_submits balance quote need amounts b q usable d a)
                      ]
            ]
  ]

  -- Whatever the clients answer, and wherever the tick throws, it submits nothing or exactly one
  -- swap. That swap goes to the vault by the configured path and context rule, and only when the
  -- oracle is healthy or on one feed with a positive price, the vault's XLM balance is below the
  -- floor, the least output is the oracle's floor for the amount paid, and the router has not
  -- quoted less.
  pub tick-SubmitsJustified : SubmitsJustified cfg answers sent (tick cfg answers sent).1
  unfolding tick
  tick-SubmitsJustified = elim (Result-cases answers.balance) [
    | inr (m, e) ↦ simp e (inl refl)
    | inl (balance, b) ↦ elim (Result-cases answers.quote) [
      | inr (m, e) ↦ simp (b, e) (inl refl)
      | inl (quote, q) ↦ simp (b, q) (quote_submits balance quote b q)
    ]
  ]
