-- ===== src/Copy.antt =====
-- clawmes/commands/copy.py: follows that mirror the token transfers of other wallets. Floats, the
-- block explorer, the wallet and swaps are parameters.
pub mod Add
pub mod Edit
pub mod Engine
pub mod Tick
pub mod Faithful
pub mod Tests
use clawmes.Base.{
  ℕ, String, Bool, true, false, not, ◌&&◌, Option, none, some, List, [], ◌∷◌, ◌==◌, if◌then◌else◌,
  length, keep_if, find_first, update_first, str_eq,
}

pub data Status : Type 0 where
  active paused : Status

-- How a buy or a sell ended.
pub data Result : Type 0 where
  ok : (tx_hash : String) → Result
  error : (detail : String) → Result
  no_wallet no_balance daily_capped total_capped : Result

-- What was done for a transfer: nothing, since its token is blocked, a buy of an amount, or a sell.
pub data Outcome (F : Type 0) : Type 0 where
  blocklisted : Outcome F
  bought : (eth_amount : F) → Result → Outcome F
  sold : Result → Outcome F

pub record Execution (F : Type 0) : Type 0 where
  pub at : String
  pub tx_seen : String
  pub watched_wallet : String
  pub token : String
  pub outcome : Outcome F

pub record Follow (F : Type 0) : Type 0 where
  pub id : String
  pub sender_id : String
  pub wallet : String
  pub extra_wallets : List String
  pub eth_per_copy : F
  pub pct : Option F
  pub invert : Bool
  pub slippage_bps : ℕ
  pub daily_cap_eth : Option F
  pub max_eth_total : Option F
  pub max_consecutive_failures : ℕ
  pub blocklist : List String
  pub status : Status
  pub created_at : String
  pub last_seen_block : ℕ
  pub total_eth_spent : F
  pub executions : List (Execution F)

abbrev pub default_slippage_bps : ℕ
default_slippage_bps = 100

abbrev pub default_max_failures : ℕ
default_max_failures = 3

abbrev pub max_tx_per_tick : ℕ
max_tx_per_tick = 20

pub data Refusal : Type 0 where
  usage over_cap needs_holder needs_unlimited bad_wallet not_a_number not_positive bad_slippage
        bad_max_failures bad_pct bad_invert unknown_field not_found :
      Refusal

pub data Answer : Type 0 where
  refused : Refusal → Answer
  changed : Answer

abbrev pub is_active : Status → Bool
is_active active = true
is_active paused = false

module _ {F : Type 0} where
  abbrev pub with_status : Status → Follow F → Follow F
  with_status status f = record f { status = status }

  abbrev pub is_mine : String → String → Follow F → Bool
  is_mine fid sender f = str_eq f.id fid && str_eq f.sender_id sender

  unfoldable pub active_count : String → List (Follow F) → ℕ
  active_count sender follows =
      length (keep_if (λ f. str_eq f.sender_id sender && is_active f.status) follows)

  -- `_cmd_mutate`, for `pause` and `resume`
  unfoldable pub mutate : Status → String → List String → List (Follow F) → Answer × List (Follow F)
  mutate status sender [] follows = (refused usage, follows)
  mutate status sender (fid ∷ _) follows = elim (find_first (is_mine fid sender) follows) [
    | none ↦ (refused not_found, follows)
    | some _ ↦ (changed, update_first (is_mine fid sender) (with_status status) follows)
  ]

  unfoldable pub cancel : String → List String → List (Follow F) → Answer × List (Follow F)
  cancel sender [] follows = (refused usage, follows)
  cancel sender (fid ∷ _) follows =
      let rest = keep_if (λ f. not (is_mine fid sender f)) follows in
      if length rest == length follows then (refused not_found, follows) else (changed, rest)
