-- ===== src/Orders/Tests.antt =====
-- One order book, with numbers for floats.
use clawmes.Base.{ℕ, ◌+◌, ◌≤◌, refl, true, false, none, some, List, [], All, leb, ltb}
use clawmes.Base.Int.{pos}
use clawmes.Orders.{Floats, buy, below, active, plain, done, Order, Answer, active_count}
use clawmes.Orders.Add.{add, new_order, positive_float, bracket_of, is_over_cap}
use clawmes.Orders.Engine.{Market, run_order, run_due}
use clawmes.Orders.Caps.{add-active_count}
use clawmes.Orders.Retries.{empty, added, ran, Reachable-IsRetryable}
use clawmes.Orders.Kept.{IsRetryable}
use clawmes.Orders.Fires.{Fires, run_order-Fires}

abbrev floats : Floats ℕ
floats = record {
  float_of = λ text. some 5;
  int_of = λ text. some (pos 7);
  is_positive = λ f. ltb 0 f;
  at_least = λ a b. leb b a;
  raised = λ price pct. price + pct;
  lowered = λ price pct. price;
  split_colon = λ text. [];
}

-- The world counts the swaps.
abbrev market : Market ℕ ℕ
market = record {
  price = λ token w. some 3;
  connected = λ w. true;
  swap = λ s w. (done "0x01", w + 1);
  new_id = λ role o w. "child";
  now_text = λ w. "now";
}

abbrev order : Order ℕ
order = record {
  id = "lim_1";
  sender_id = "ann";
  side = buy;
  token = "CLAWNCH";
  amount = 1;
  direction = below;
  threshold_usd = 5;
  slippage_bps = 100;
  max_attempts = 3;
  bracket = none;
  bracket_children = [];
  status = active;
  created_at = "now";
  attempts = [];
  parent_order_id = none;
  role = plain;
}

abbrev first_order : Answer × List (Order ℕ)
first_order = add floats false "ann" buy "CLAWNCH" "1" "5" [] "lim_1" "now" []

add-active_count_example : active_count "ann" first_order.1 ≤ 1
unfolding add new_order positive_float bracket_of is_over_cap active_count
add-active_count_example =
    add-active_count floats "ann" buy "CLAWNCH" "1" "5" [] "lim_1" "now" [] refl

Reachable-IsRetryable_example : All IsRetryable (run_due floats market first_order.1 0).0
Reachable-IsRetryable_example =
    Reachable-IsRetryable floats market
      (ran 0 (added false "ann" buy "CLAWNCH" "1" "5" [] "lim_1" "now" empty))

run_order-Fires_example : Fires floats market order 0 (run_order floats market order 0)
run_order-Fires_example = run_order-Fires floats market order 0
