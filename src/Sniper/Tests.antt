-- ===== src/Sniper/Tests.antt =====
-- One configuration with a watch, with numbers for floats.
use clawmes.Base.{
  ℕ, ◌+◌, ◌-◌, ◌≡◌, refl, true, false, none, some, [], ◌∷◌, All, leb, ltb, ◌==◌, arith,
}
use clawmes.Dca.Tick.{sent}
use clawmes.Sniper.{Config, Watch, Status, active, exhausted, watching}
use clawmes.Sniper.Engine.{Launch, Market, fit, process}
use clawmes.Sniper.Tick.{
  launches, run_due, run_configs, run_config, after_process, close_watches, evaluate_watches,
  run_watches, run_watch, judge_watch, trigger_of,
}
use clawmes.Sniper.Bounded.{ok_snipes, IsBounded, run_due-IsBounded}

-- The world counts the swaps; every token costs 50.
abbrev market : Market ℕ ℕ
market = record {
  now_iso = λ w. "now";
  connected = λ w. true;
  price = λ token w. some 50;
  balance = λ token w. 9;
  buy = λ trade w. (sent "0x01", w + 1);
  sell = λ token amount bps w. (sent "0x02", w + 1);
  matches = λ filter symbol. true;
  lower = λ t. t;
  exceeds = λ a b. ltb b a;
  is_at_most_zero = λ f. f == 0;
  is_above_zero = λ f. ltb 0 f;
  change_pct = λ a b. a - b;
  at_least = λ a b. leb b a;
  at_most_minus = λ a b. false;
}

-- A token that was bought at 10, whose highest price was 20.
abbrev watch : Watch ℕ
watch = record {
  token = "0xaa";
  symbol = "AA";
  buy_price_usd = 10;
  high_water_price_usd = 20;
  created_at = "then";
  status = watching;
  closing = none;
}

abbrev config : Status → Config ℕ
config status = record {
  id = "snp_1";
  sender_id = "ann";
  eth_amount = 1;
  max_buys = 2;
  buys_made = 0;
  auto_trail_pct = some 20;
  slippage_bps = 100;
  source_filter = none;
  symbol_filter = none;
  max_mcap_usd = none;
  max_age_seconds = 600;
  auto_sell = none;
  auto_sell_watches = watch ∷ [];
  status = status;
  created_at = "then";
  last_seen_epoch = 1000;
  snipes = [];
}

abbrev launch : ℕ → Launch ℕ
launch epoch = record {
  address = some "0xbb";
  epoch = epoch;
  source = some "clawn";
  symbol = some "BB";
  mcap = none;
}

config-IsBounded : IsBounded market (config active)
unfolding IsBounded ok_snipes
config-IsBounded = (refl, omega arith)

run_due-IsBounded_example :
    All
      (IsBounded market)
      (run_due market 1100 (launches (launch 1050 ∷ [])) (config active ∷ []) 0).0
run_due-IsBounded_example =
    run_due-IsBounded market 1100 (launches (launch 1050 ∷ [])) (config active ∷ []) 0
      (config-IsBounded, tt)

-- A launch that was seen before writes no line, so the file keeps the highest price of 20 though
-- the price is 50.
highest_price_is_lost :
    (run_due market 1100 (launches (launch 900 ∷ [])) (config active ∷ []) 0).0 ≡ config active ∷ []
unfolding run_due run_configs run_config process fit after_process close_watches evaluate_watches
    run_watches run_watch judge_watch trigger_of
highest_price_is_lost = refl

-- Where no configuration is active the watches are not looked at.
exhausted_is_unwatched :
    run_due market 1100 (launches (launch 1050 ∷ [])) (config exhausted ∷ []) 0
    ≡ (config exhausted ∷ [], 0)
unfolding run_due
exhausted_is_unwatched = refl
