-- ===== src/Orders/Engine.antt =====
-- clawmes/commands/limit_order.py: `_run_due_with_lines`, which the scheduler and `tick` call.
use clawmes.Base.{
  ℕ, String, Bool, Option, none, some, List, [], ◌∷◌, ◌++◌, leb, ◌==◌, if◌then◌else◌, length, map,
  ◌&&◌,
}
use clawmes.Orders.{
  Floats, buy, sell, Direction, above, below, active, filled, failed, Role, take_profit, stop_loss,
  Fill, done, error, no_wallet, Order, default_slippage_bps, default_max_attempts, is_active,
  with_status,
}

-- What `defi_swap` is asked for.
pub record Swap (F : Type 0) : Type 0 where
  pub sell_token : String
  pub buy_token : String
  pub sell_amount : F
  pub slippage_bps : ℕ

-- Prices, the wallet, swaps, new ids and the clock. `swap` gives the outcome that the code reads off
-- the tool's answer.
pub record Market {ℓ} (F : Type 0) (W : Type ℓ) : Type ℓ where
  pub price : String → W → Option F
  pub connected : W → Bool
  pub swap : Swap F → W → Fill × W
  pub new_id : Role → Order F → W → String
  pub now_text : W → String

-- `n or default`
abbrev pub or_default : ℕ → ℕ → ℕ
or_default n default = if n == 0 then default else n

-- The order after a failed attempt.
unfoldable pub after_failure : {F : Type 0} → Order F → Order F
after_failure o =
    if leb (or_default o.max_attempts default_max_attempts) (length o.attempts)
    then with_status failed o
    else o

module _ {F : Type 0} (floats : Floats F) where
  unfoldable pub is_crossed : Direction → F → F → Bool
  is_crossed above price threshold = floats.at_least price threshold
  is_crossed below price threshold = floats.at_least threshold price

  unfoldable pub swap_of : Order F → Swap F
  swap_of o = elim o.side [
    | buy ↦ record {
      sell_token = "ETH";
      buy_token = o.token;
      sell_amount = o.amount;
      slippage_bps = or_default o.slippage_bps default_slippage_bps;
    }
    | sell ↦ record {
      sell_token = o.token;
      buy_token = "ETH";
      sell_amount = o.amount;
      slippage_bps = or_default o.slippage_bps default_slippage_bps;
    }
  ]

  -- One child of `_materialize_bracket`
  unfoldable pub child : Order F → String → String → Role → Direction → F → Order F
  child parent id now role direction threshold = record {
    id = id;
    sender_id = parent.sender_id;
    side = sell;
    token = parent.token;
    amount = parent.amount;
    direction = direction;
    threshold_usd = threshold;
    slippage_bps = or_default parent.slippage_bps default_slippage_bps;
    max_attempts = 5;
    bracket = none;
    bracket_children = [];
    status = active;
    created_at = now;
    attempts = [];
    parent_order_id = some parent.id;
    role = role;
  }

  module _ {ℓ} {W : Type ℓ} (market : Market F W) where
    unfoldable pub materialize_bracket : Order F → F → W → List (Order F)
    materialize_bracket parent price w = elim parent.bracket [
      | none ↦ []
      | some b ↦
          if floats.is_positive price
            && (floats.is_positive b.tp_pct && floats.is_positive b.sl_pct)
          then child parent (market.new_id take_profit parent w) (market.now_text w) take_profit
              above (floats.raised price b.tp_pct)
            ∷ child parent (market.new_id stop_loss parent w) (market.now_text w) stop_loss below
                (floats.lowered price b.sl_pct)
            ∷ []
          else []
    ]

    -- `_submit_swap`
    unfoldable pub submit_swap : Order F → W → Fill × W
    submit_swap o w =
        let tried = market.swap (swap_of o) w in
        if market.connected w then tried else (no_wallet, w)

    -- `_evaluate_order`: the price and the outcome, if the threshold is crossed
    unfoldable pub evaluate_order : Order F → W → Option (F × Fill) × W
    evaluate_order o w = elim (market.price o.token w) [
      | none ↦ (none, w)
      | some price ↦
          let (fill, w') = submit_swap o w in
          if is_crossed o.direction price o.threshold_usd
          then (some (price, fill), w')
          else (none, w)
    ]

    -- `order["attempts"].append(...)`
    unfoldable pub tried_order : Order F → F → Fill → W → Order F
    tried_order o price fill w = record o {
      attempts =
          o.attempts ++ record { at = market.now_text w; fill = fill; price_usd = price } ∷ [];
    }

    -- The order after an attempt, and its children.
    unfoldable pub settle : Order F → F → Fill → W → Order F × List (Order F)
    settle o price fill w =
        let tried = tried_order o price fill w in
        let children = materialize_bracket tried price w in
        let children_ids : List String = map (λ c. c.id) children in
        elim fill [
          | done _ ↦ (
            elim children [
              | [] ↦ with_status filled tried
              | _ ∷ _ ↦ record (with_status filled tried) { bracket_children = children_ids }
            ],
            children,
          )
          | error _ ↦ (after_failure tried, [])
          | no_wallet ↦ (after_failure tried, [])
        ]

    -- One order of the loop: the order, its children, and the world.
    unfoldable pub run_order : Order F → W → (Order F × List (Order F)) × W
    run_order o w =
        let (outcome, w') = evaluate_order o w in
        let next : (Order F × List (Order F)) × W = (elim outcome [
          | none ↦ ((o, []), w')
          | some (price, fill) ↦ (settle o price fill w', w')
        ]) in
        if is_active o.status then next else ((o, []), w)

    -- The loop: the orders in place, and the children of all.
    unfoldable pub run_orders : List (Order F) → W → (List (Order F) × List (Order F)) × W
    run_orders [] w = (([], []), w)
    run_orders (o ∷ orders) w =
        let ((o', children), w') = run_order o w in
        let ((orders', more), w'') = run_orders orders w' in ((o' ∷ orders', children ++ more), w'')

    unfoldable pub run_due : List (Order F) → W → List (Order F) × W
    run_due orders w =
        let ((orders', children), w') = run_orders orders w in (orders' ++ children, w')
