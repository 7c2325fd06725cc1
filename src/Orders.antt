-- ===== src/Orders.antt =====
-- clawmes/commands/limit_order.py: the limit orders of all users, their commands and the engine
-- that the scheduler runs. Floating-point numbers are a parameter, and so are prices and swaps,
-- which act on a world.
pub mod Add
pub mod Engine
pub mod Caps
pub mod Kept
pub mod Retries
pub mod Fires
pub mod Tests
use clawmes.Base.{
  ℕ, ◌+◌, String, Bool, true, false, not, ◌&&◌, ◌||◌, Option, none, some, List, [], ◌∷◌, ◌++◌, ltb,
  leb, ◌==◌, if◌then◌else◌, length, keep_if, str_eq, lookup, is_some,
}
use clawmes.Base.Int.{ℤ, pos, ltb_ℤ}

-- What the code uses of `float`, of `int` on texts, of `str.split(":")` and of `uuid`.
pub record Floats (F : Type 0) : Type 1 where
  pub float_of : String → Option F
  pub int_of : String → Option ℤ
  -- `not f <= 0`, which holds of NaN too
  pub is_positive : F → Bool
  pub at_least : F → F → Bool
  -- `price * (1 + pct / 100)` and `price * (1 - pct / 100)`
  pub raised : F → F → F
  pub lowered : F → F → F
  pub split_colon : String → List String

pub data Side : Type 0 where
  buy sell : Side

pub data Direction : Type 0 where
  above below : Direction

pub data Status : Type 0 where
  active paused filled failed : Status

pub data Role : Type 0 where
  plain take_profit stop_loss : Role

-- How a swap attempt ended, with its transaction hash or its message.
pub data Fill : Type 0 where
  done : (tx_hash : String) → Fill
  error : (detail : String) → Fill
  no_wallet : Fill

pub record Attempt (F : Type 0) : Type 0 where
  pub at : String
  pub fill : Fill
  pub price_usd : F

pub record Bracket (F : Type 0) : Type 0 where
  pub tp_pct : F
  pub sl_pct : F

pub record Order (F : Type 0) : Type 0 where
  pub id : String
  pub sender_id : String
  pub side : Side
  pub token : String
  pub amount : F
  pub direction : Direction
  pub threshold_usd : F
  pub slippage_bps : ℕ
  pub max_attempts : ℕ
  pub bracket : Option (Bracket F)
  pub bracket_children : List String
  pub status : Status
  pub created_at : String
  pub attempts : List (Attempt F)
  pub parent_order_id : Option String
  pub role : Role

abbrev pub default_slippage_bps : ℕ
default_slippage_bps = 100

abbrev pub default_max_attempts : ℕ
default_max_attempts = 3

-- The free tier's cap on limit orders (clawmes/services/token_gate.py).
abbrev pub free_tier_cap : ℕ
free_tier_cap = 1

-- The answers that are not the order's text.
pub data Refusal : Type 0 where
  over_cap not_a_number not_positive bad_slippage bad_max_attempts needs_holder bracket_on_sell
        bad_bracket unknown_field not_found terminal_order only_paused :
      Refusal

pub data Answer : Type 0 where
  refused : Refusal → Answer
  changed : Answer

abbrev pub is_active : Status → Bool
is_active active = true
is_active _ = false

abbrev pub is_paused : Status → Bool
is_paused paused = true
is_paused _ = false

abbrev pub is_terminal : Status → Bool
is_terminal filled = true
is_terminal failed = true
is_terminal _ = false

module _ {F : Type 0} where
  abbrev pub with_status : Status → Order F → Order F
  with_status s o = record o { status = s }

  abbrev pub is_mine : String → String → Order F → Bool
  is_mine oid sender o = str_eq o.id oid && str_eq o.sender_id sender

  -- `_find`
  unfoldable pub find : String → String → List (Order F) → Option (Order F)
  find oid sender [] = none
  find oid sender (o ∷ orders) = if is_mine oid sender o then some o else find oid sender orders

  -- The order that `_find` gives, changed in place.
  unfoldable pub update : String → String → (Order F → Order F) → List (Order F) → List (Order F)
  update oid sender f [] = []
  update oid sender f (o ∷ orders) =
      let rest = update oid sender f orders in
      if is_mine oid sender o then f o ∷ orders else o ∷ rest

  -- The active orders of a sender, counted by `_cmd_add`.
  unfoldable pub active_count : String → List (Order F) → ℕ
  active_count sender orders =
      length (keep_if (λ o. str_eq o.sender_id sender && is_active o.status) orders)

  -- `_cmd_mutate` with the status "paused"
  unfoldable pub pause : String → String → List (Order F) → Answer × List (Order F)
  pause oid sender orders = elim (find oid sender orders) [
    | none ↦ (refused not_found, orders)
    | some o ↦
        if is_terminal o.status
        then (refused terminal_order, orders)
        else (changed, update oid sender (with_status paused) orders)
  ]

  unfoldable pub resume : String → String → List (Order F) → Answer × List (Order F)
  resume oid sender orders = elim (find oid sender orders) [
    | none ↦ (refused not_found, orders)
    | some o ↦
        if is_paused o.status
        then (changed, update oid sender (with_status active) orders)
        else (refused only_paused, orders)
  ]

  unfoldable pub cancel : String → String → List (Order F) → Answer × List (Order F)
  cancel oid sender orders =
      let rest = keep_if (λ o. not (is_mine oid sender o)) orders in
      if length rest == length orders then (refused not_found, orders) else (changed, rest)
