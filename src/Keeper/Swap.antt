-- ===== src/Keeper/Swap.antt =====
-- keeper/src/swapDecision.ts and keeper/src/swap.ts: the XLM fee-floor top-up. The clients'
-- answers, the clock and the SDK's submission are parameters; the state is the swaps submitted.
pub mod Sizing
pub mod Contract
pub mod Tick
use Prim.Native.String.{String}
use refluo.Prelude.Result.{Result, ok, err, M, ◌>>=◌, ◌>>◌, call, modify, return}
use refluo.Prelude.{
  ℕ, ◌+◌, ◌^◌, ◌≡◌, Bool, true, false, not, ◌||◌, Option, none, some, List, [], ◌∷◌, ◌++◌, ◌==◌,
  ltb, if◌then◌else◌, get_elem?, ℤ, pos, ◌-ℤ◌, ◌*ℤ◌, ◌/ℤ◌, leb_ℤ, ltb_ℤ,
}
use refluo.Rpc.Retry.{with_retry}

pub record SwapNeed : Type 0 where
  pub amount_in_usdc_stroops : ℤ
  pub amount_out_min_xlm_stroops : ℤ

abbrev pub price_scale : ℤ
price_scale = pos (10 ^ 14)

abbrev pub bps_denom : ℤ
bps_denom = pos 10_000

unfoldable pub oracle_derived_min_out : ℤ → ℤ → ℤ → Result ℤ
oracle_derived_min_out amount_in_usdc_stroops xlm_price_14_decimals min_out_bps =
    if leb_ℤ xlm_price_14_decimals (pos 0)
    then err "oracle price must be positive"
    else let expected_out = amount_in_usdc_stroops *ℤ price_scale /ℤ xlm_price_14_decimals in
      ok (expected_out *ℤ min_out_bps /ℤ bps_denom)

abbrev pub sized : ℤ → Result ℤ → Result (Option SwapNeed)
sized amount_in (err m) = err m
sized amount_in (ok min_out) =
    ok (some (record { amount_in_usdc_stroops = amount_in; amount_out_min_xlm_stroops = min_out }))

unfoldable pub decide_swap : ℤ → ℤ → ℤ → ℤ → ℤ → Result (Option SwapNeed)
decide_swap xlm_balance xlm_floor xlm_topup_target xlm_price_14_decimals min_out_bps =
    if leb_ℤ xlm_topup_target xlm_floor
    then err "xlmTopupTarget must be strictly above xlmFloor"
    else if leb_ℤ xlm_floor xlm_balance
    then ok none
    else let shortfall = xlm_topup_target -ℤ xlm_balance in
      let amount_in = shortfall *ℤ xlm_price_14_decimals /ℤ price_scale in
      sized amount_in (oracle_derived_min_out amount_in xlm_price_14_decimals min_out_bps)

-- The loop's environment variables.
pub record Config : Type 0 where
  pub vault_address : String
  pub swap_context_rule_id : ℕ
  pub usdc_token_id : String
  pub xlm_token_id : String
  pub xlm_floor : ℤ
  pub xlm_topup_target : ℤ
  pub swap_min_out_bps : ℤ
  pub swap_deadline_seconds : ℕ

abbrev pub oracle_status_healthy : ℕ
oracle_status_healthy = 0

abbrev pub oracle_status_one_feed : ℕ
oracle_status_one_feed = 1

pub record Quote : Type 0 where
  pub price : ℤ
  pub status : ℕ

-- The arguments of `swap_exact_tokens_for_tokens` and of its authorization through the vault.
pub record SwapCall : Type 0 where
  pub amount_in : ℤ
  pub amount_out_min : ℤ
  pub path : List String
  pub to : String
  pub deadline : ℕ
  pub context_rule_id : ℕ

pub record Answers : Type 0 where
  pub balance : Result ℤ
  pub quote : Result Quote
  pub amounts_out : ℤ → List String → Result (List ℤ)
  -- The answer of each round of `getAccount`.
  pub account : ℕ → Result (Unit {0})
  pub now_seconds : ℕ
  pub authorize_and_send : SwapCall → Result String

abbrev pub Submitted : Type 0
Submitted = List SwapCall

abbrev pub is_usable : Quote → Bool
is_usable quote = quote.status == oracle_status_healthy || quote.status == oracle_status_one_feed

-- `routerQuotedOut < amountOutMin`, where an answer with no second amount is `undefined` and
-- compares as false.
abbrev pub quoted_below : Option ℤ → ℤ → Bool
quoted_below none least = false
quoted_below (some quoted) least = ltb_ℤ quoted least

module _ (cfg : Config) (answers : Answers) where
  abbrev pub swap_call : SwapNeed → SwapCall
  swap_call need = record {
    amount_in = need.amount_in_usdc_stroops;
    amount_out_min = need.amount_out_min_xlm_stroops;
    path = cfg.usdc_token_id ∷ cfg.xlm_token_id ∷ [];
    to = cfg.vault_address;
    deadline = answers.now_seconds + cfg.swap_deadline_seconds;
    context_rule_id = cfg.swap_context_rule_id;
  }

  pub submit : SwapNeed → M Submitted (Unit {0})
  submit need = do
    account ← call (with_retry answers.account 5).0
    modify (λ sent. sent ++ swap_call need ∷ [])
    status ← call (answers.authorize_and_send (swap_call need))
    return tt

  pub after_router_quote : SwapNeed → List ℤ → M Submitted (Unit {0})
  after_router_quote need amounts =
      if quoted_below (get_elem? amounts 1) need.amount_out_min_xlm_stroops
      then return tt
      else submit need

  pub after_decision : Option SwapNeed → M Submitted (Unit {0})
  after_decision none = return tt
  after_decision (some need) = do
    amounts ← call (
        answers.amounts_out need.amount_in_usdc_stroops (cfg.usdc_token_id ∷ cfg.xlm_token_id ∷ []))
    after_router_quote need amounts

  pub after_quote : ℤ → Quote → M Submitted (Unit {0})
  after_quote balance quote = if not (is_usable quote) then return tt else do
    need ←
        call
          (decide_swap balance cfg.xlm_floor cfg.xlm_topup_target quote.price cfg.swap_min_out_bps)
    after_decision need

  pub tick : M Submitted (Unit {0})
  tick = do balance ← call answers.balance; quote ← call answers.quote; after_quote balance quote
