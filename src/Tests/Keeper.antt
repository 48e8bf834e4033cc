-- ===== src/Tests/Keeper.antt =====
-- Examples for the ticks of the sentinels and of the forecaster.
use refluo.Prelude.Result.{ok, err}
use refluo.Prelude.{◌≡◌, refl, some, List, [], ◌∷◌, arith, ℤ, pos, ◌*ℤ◌, ◌/ℤ◌, ◌^◌, map}
use refluo.Rpc.Pages.{Page}
use refluo.Keeper.Sentinel.{
  SystemState, normal, preemptive_drain, emergency, paused, code, TierConfig, Advance,
}
use refluo.Keeper.Sentinel as Monitor
use refluo.Keeper.Swap.{SwapNeed, Config, Quote, oracle_derived_min_out, decide_swap}
use refluo.Keeper.Swap as SwapLoop
use refluo.Keeper.Swap.Contract.{
  one_feed, MirroredPriceQuote, SwapConfig, on_chain_min_out,
  on_chain_min_out-oracle_derived_min_out,
}
use refluo.Keeper.Swap.Sizing.{IsSized, decide_swap-IsSized}
use refluo.Keeper.Swap.Tick.{SubmitsJustified, tick-SubmitsJustified}
use refluo.Keeper.MetricsLog.{success}
use refluo.Keeper.Forecaster.{
  BurnObservation, Rates, compute_ewmas, half_life_to_alpha, ewma_step, winsorize, median,
}
use refluo.Keeper.ForecasterLoop as Loop
use refluo.Keeper.ForecasterLoop.{
  ScVal, scv_i128, TransferEvent, start_ledger_of, fetch_hourly_burn_observations, World, absent,
  holds, winsorized, value,
}
use refluo.Keeper.ForecasterLoop.Tick.{Sends, decision_of, tick-Sends, tick-state_file}
use refluo.Tests.Numbers.{whole}

abbrev readings : List ℤ
readings = pos 9_600 ∷ pos 9_000 ∷ pos 9_850 ∷ pos 100 ∷ []

abbrev pool : Monitor.Answers
pool = record {
  reserve = ok (some (pos 9_700_000));
  config = ok (record { preemptive_util_bps = pos 9_500; full_drain_util_bps = pos 9_800 });
  state = ok normal;
  advance = λ a. ok "SUCCESS";
}

abbrev swap_config : SwapConfig
swap_config = record {
  token_in_decimals = 7;
  token_out_decimals = 7;
  oracle_price_decimals = 14;
  min_out_bps = 9_900;
}

abbrev quote : MirroredPriceQuote
quote = record { price = pos 25_000_000_000_000; timestamp = 1_000; status = one_feed }

on_chain_min_out-oracle_derived_min_out_example :
    oracle_derived_min_out (pos 5_000_000) (pos 25_000_000_000_000) (pos 9_900)
    ≡ ok (pos 19_800_000)
unfolding on_chain_min_out ◌*ℤ◌ ◌/ℤ◌
on_chain_min_out-oracle_derived_min_out_example =
    on_chain_min_out-oracle_derived_min_out swap_config quote 5_000_000 (pos 19_800_000) refl refl
      refl

-- An amount whose product does not fit an `i128` panics, though the keeper works one out.
panics_where_the_keeper_does_not :
    on_chain_min_out swap_config quote (pos (10 ^ 18)) ≡ err "BadState"
unfolding on_chain_min_out ◌*ℤ◌ ◌/ℤ◌
panics_where_the_keeper_does_not = refl

decide_swap-IsSized_example :
    (need : SwapNeed) × (decide_swap
        (pos 100)
        (pos 200)
        (pos 500)
        (pos 25_000_000_000_000)
        (pos 9_900)
      ≡ ok (some need))
    × IsSized 400 25_000_000_000_000 9_900 need
decide_swap-IsSized_example =
    decide_swap-IsSized 100 200 500 25_000_000_000_000 9_900 (omega arith) (omega arith)
      (omega arith) (omega arith)

abbrev swap_settings : Config
swap_settings = record {
  vault_address = "CVAULT";
  swap_context_rule_id = 4;
  usdc_token_id = "CUSDC";
  xlm_token_id = "CXLM";
  xlm_floor = pos 200;
  xlm_topup_target = pos 500;
  swap_min_out_bps = pos 9_900;
  swap_deadline_seconds = 300;
}

abbrev market : SwapLoop.Answers
market = record {
  balance = ok (pos 100);
  quote = ok (record { price = pos 25_000_000_000_000; status = 0 });
  amounts_out = λ amount path. ok (amount ∷ pos 398 ∷ []);
  account = λ i. ok tt;
  now_seconds = 1_700_000_000;
  authorize_and_send = λ c. ok "SUCCESS";
}

tick-SubmitsJustified_example :
    SubmitsJustified swap_settings market [] (SwapLoop.tick swap_settings market []).1
tick-SubmitsJustified_example = tick-SubmitsJustified swap_settings market []

abbrev transfers : List TransferEvent
transfers =
    record { value = scv_i128 (pos 0) 70; ledger_closed_at_ms = 7_300_000 }
    ∷ record { value = scv_i128 (pos 0) 5; ledger_closed_at_ms = 3_700_000 }
    ∷ record { value = scv_i128 (pos 0) 30; ledger_closed_at_ms = 7_400_000 }
    ∷ []

abbrev transfer_page : Page TransferEvent
transfer_page = record { events = transfers; next = "" }

abbrev settings : Loop.Config whole
settings = record {
  recall_window_seconds = 7_200;
  forecaster_k = 2;
  xlm_fee_floor_usd_stroops = pos 50;
  band_bps = pos 1_000;
  refill_band_bps = pos 5_000;
  recall_context_rule_id = some 3;
  recall_venue_id = some "CVENUE";
}

abbrev answers : Loop.Answers
answers = record {
  tick_start_seconds = 1_700_000_000;
  tier0_target = ok (pos 900);
  critical_floor = ok (pos 100);
  now_seconds = 1_700_000_001;
  set_target = λ target. err "timeout";
  account = ok tt;
  balance = ok (value (scv_i128 (pos 0) 40));
  recall_account = ok tt;
  authorize_and_send = λ c. ok success;
  executed_at_seconds = 1_700_000_009;
}

abbrev start : World
start = record { state_file = absent; metrics = []; submitted = [] }

abbrev hours : List BurnObservation
hours =
    record { timestamp_seconds = 3_600; amount_stroops = pos 36_000 }
    ∷ record { timestamp_seconds = 7_200; amount_stroops = pos 72_000 }
    ∷ []

tick-Sends_example :
    Sends whole settings answers
      (ok hours)
      start
      2
      start
      (Loop.tick whole settings answers (ok hours) start).1
tick-Sends_example = tick-Sends whole settings answers start (ok hours)

abbrev hourly_rates : Rates whole
hourly_rates = record { fast_per_hour = 36_000; slow_per_hour = 36_000 }

tick-state_file_example :
    (Loop.tick whole settings answers (ok hours) start).1.state_file
    ≡ holds (decision_of whole settings answers (ok hours) start hourly_rates (pos 900)).next_state
tick-state_file_example =
    tick-state_file whole settings answers start hours hourly_rates (pos 900) (pos 100) averaged
      refl refl
  where
    averaged : compute_ewmas whole (map whole.from_int (winsorized hours)) ≡ ok hourly_rates
    averaged =
        unfold compute_ewmas half_life_to_alpha ewma_step winsorized winsorize median ◌*ℤ◌ in refl
