-- ===== src/Sniper.antt =====
-- clawmes/commands/sniper.py: configurations that buy newly launched tokens, and the watches that
-- sell them again. Floats, regular expressions, prices, balances and swaps are parameters.
pub mod Add
pub mod Edit
pub mod Engine
pub mod Tick
pub mod Bounded
pub mod Tests
use clawmes.Base.{
  ℕ, String, Bool, true, false, not, ◌&&◌, Option, none, some, List, [], ◌∷◌, ◌==◌, if◌then◌else◌,
  length, keep_if, find_first, update_first, str_eq,
}

pub data Status : Type 0 where
  active paused exhausted : Status

-- How a buy or a sell ended.
pub data Result : Type 0 where
  ok : (tx_hash : String) → Result
  error : (detail : String) → Result
  no_wallet no_balance : Result

pub record Snipe : Type 0 where
  pub at : String
  pub token : String
  pub symbol : String
  pub result : Result

pub data WatchStatus : Type 0 where
  watching sold close_failed : WatchStatus

pub data Trigger : Type 0 where
  take_profit trailing_stop stop_loss : Trigger

-- Why and how a watch was closed, at which price. The two percentages that are noted with it follow
-- from the prices.
pub record Closing (F : Type 0) : Type 0 where
  pub closed_at : String
  pub price_usd : F
  pub reason : Trigger
  pub result : Result

pub record Watch (F : Type 0) : Type 0 where
  pub token : String
  pub symbol : String
  pub buy_price_usd : F
  pub high_water_price_usd : F
  pub created_at : String
  pub status : WatchStatus
  pub closing : Option (Closing F)

pub record AutoSell (F : Type 0) : Type 0 where
  pub gain_pct : F
  pub loss_pct : F

pub record Config (F : Type 0) : Type 0 where
  pub id : String
  pub sender_id : String
  pub eth_amount : F
  pub max_buys : ℕ
  pub buys_made : ℕ
  pub auto_trail_pct : Option F
  pub slippage_bps : ℕ
  pub source_filter : Option String
  pub symbol_filter : Option String
  pub max_mcap_usd : Option F
  pub max_age_seconds : ℕ
  pub auto_sell : Option (AutoSell F)
  pub auto_sell_watches : List (Watch F)
  pub status : Status
  pub created_at : String
  pub last_seen_epoch : ℕ
  pub snipes : List Snipe

abbrev pub default_slippage_bps : ℕ
default_slippage_bps = 100

abbrev pub default_max_buys : ℕ
default_max_buys = 10

abbrev pub default_max_age_seconds : ℕ
default_max_age_seconds = 600

pub data Refusal : Type 0 where
  usage needs_unlimited not_a_number not_positive bad_max_buys bad_slippage bad_max_age bad_regex
        bad_auto_sell bad_auto_trail unknown_field not_found :
      Refusal

pub data Answer : Type 0 where
  refused : Refusal → Answer
  changed : Answer

abbrev pub is_active : Status → Bool
is_active active = true
is_active paused = false
is_active exhausted = false

module _ {F : Type 0} where
  abbrev pub with_status : Status → Config F → Config F
  with_status status c = record c { status = status }

  abbrev pub is_mine : String → String → Config F → Bool
  is_mine cid sender c = str_eq c.id cid && str_eq c.sender_id sender

  -- `_cmd_mutate`, for `pause` and `resume`
  unfoldable pub mutate : Status → String → List String → List (Config F) → Answer × List (Config F)
  mutate status sender [] configs = (refused usage, configs)
  mutate status sender (cid ∷ _) configs = elim (find_first (is_mine cid sender) configs) [
    | none ↦ (refused not_found, configs)
    | some _ ↦ (changed, update_first (is_mine cid sender) (with_status status) configs)
  ]

  unfoldable pub cancel : String → List String → List (Config F) → Answer × List (Config F)
  cancel sender [] configs = (refused usage, configs)
  cancel sender (cid ∷ _) configs =
      let rest = keep_if (λ c. not (is_mine cid sender c)) configs in
      if length rest == length configs then (refused not_found, configs) else (changed, rest)
