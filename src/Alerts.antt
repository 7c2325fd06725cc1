-- ===== src/Alerts.antt =====
-- clawmes/commands/alerts.py: the price and wallet alerts of all users, their commands, and the watcher
-- that the scheduler calls. Prices, token receipts and webhooks are parameters and act on a world.
pub mod Add
pub mod Watcher
pub mod Watches
pub mod Tests
use clawmes.Base.{
  ℕ, String, Bool, true, false, not, ◌&&◌, Option, none, some, List, [], ◌∷◌, ◌==◌, if◌then◌else◌,
  length, keep_if, find_first, update_first, str_eq,
}

pub data Direction : Type 0 where
  above below : Direction

pub data Status : Type 0 where
  active paused fired : Status

-- What an alert watches: the price of a token, or the receipts of a wallet after a block.
pub data Watch (F : Type 0) : Type 0 where
  price : (token : String) (direction : Direction) (threshold_usd : F) → Watch F
  wallet : (address : String) (last_seen_block : ℕ) → Watch F

-- What a check reports: a price, a number of receipts with some of their tokens, or the message of
-- a failed quote.
pub data Event (F : Type 0) : Type 0 where
  crossed : (price_usd : F) → Event F
  received : (tx_count : ℕ) (sample_tokens : List String) → Event F
  quote_error : (detail : String) → Event F

pub data Delivery : Type 0 where
  delivered : (http_status : ℕ) → Delivery
  undelivered : (detail : String) → Delivery

pub record Fire (F : Type 0) : Type 0 where
  pub at : String
  pub event : Event F
  pub webhook : Option Delivery

pub record Alert (F : Type 0) : Type 0 where
  pub id : String
  pub sender_id : String
  pub watch : Watch F
  pub webhook_url : Option String
  pub status : Status
  pub created_at : String
  pub fires : List (Fire F)

pub data Refusal : Type 0 where
  usage over_cap needs_holder bad_url unknown_kind bad_direction not_a_number not_positive
        bad_wallet not_found not_editable unknown_field :
      Refusal

pub data Answer : Type 0 where
  refused : Refusal → Answer
  changed : Answer

abbrev pub is_active : Status → Bool
is_active active = true
is_active paused = false
is_active fired = false

module _ {F : Type 0} where
  abbrev pub with_status : Status → Alert F → Alert F
  with_status status a = record a { status = status }

  abbrev pub is_mine : String → String → Alert F → Bool
  is_mine aid sender a = str_eq a.id aid && str_eq a.sender_id sender

  -- The active alerts of a sender, counted by `_cmd_add`.
  unfoldable pub active_count : String → List (Alert F) → ℕ
  active_count sender alerts =
      length (keep_if (λ a. str_eq a.sender_id sender && is_active a.status) alerts)

  -- `_cmd_mutate`, for `pause` and `resume`
  unfoldable pub mutate : Status → String → List String → List (Alert F) → Answer × List (Alert F)
  mutate status sender [] alerts = (refused usage, alerts)
  mutate status sender (aid ∷ _) alerts = elim (find_first (is_mine aid sender) alerts) [
    | none ↦ (refused not_found, alerts)
    | some _ ↦ (changed, update_first (is_mine aid sender) (with_status status) alerts)
  ]

  unfoldable pub cancel : String → List String → List (Alert F) → Answer × List (Alert F)
  cancel sender [] alerts = (refused usage, alerts)
  cancel sender (aid ∷ _) alerts =
      let rest = keep_if (λ a. not (is_mine aid sender a)) alerts in
      if length rest == length alerts then (refused not_found, alerts) else (changed, rest)
