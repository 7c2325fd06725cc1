-- ===== src/Dca.antt =====
-- clawmes/commands/dca.py: recurring buys. The schedules of all users, the commands that change
-- them, and the loop that the scheduler calls. What the code uses of `float`, `int` and of text
-- methods is a parameter, and so are prices and swaps, which act on a world.
pub mod Interval
pub mod Add
pub mod Edit
pub mod Tick
pub mod Valid
pub mod Tests
use clawmes.Base.{
  ℕ, ◌+◌, String, Bool, true, false, not, ◌&&◌, Option, none, some, List, [], ◌∷◌, ◌==◌,
  if◌then◌else◌, length, keep_if, find_first, update_first, str_eq,
}
use clawmes.Base.Int.{ℤ}
use clawmes.Dca.Interval.{Classes}

pub record Values (F : Type 0) : Type 1 where
  pub float_of : String → Option F
  pub int_of : String → Option ℤ
  pub lower : String → String
  pub split_colon : String → List String
  pub classes : Classes
  pub zero_eth : F
  pub plus : F → F → F
  -- `not f <= 0` and `a > b`; the first holds of NaN
  pub is_positive : F → Bool
  pub exceeds : F → F → Bool

pub data Op : Type 0 where
  price_above price_below : Op

pub record Conditional (F : Type 0) : Type 0 where
  pub op : Op
  pub token : String
  pub threshold_usd : F

pub data Status : Type 0 where
  active paused : Status

-- How a due schedule ended: a transaction hash, the message of a failed swap, or the safeguard that
-- stopped it.
pub data Result : Type 0 where
  ok : (tx_hash : String) → Result
  error : (detail : String) → Result
  no_wallet daily_capped total_capped conditional_blocked : Result

pub record Execution : Type 0 where
  pub at : String
  pub result : Result

pub record Schedule (F : Type 0) : Type 0 where
  pub id : String
  pub sender_id : String
  pub token : String
  pub eth_amount : F
  pub interval_seconds : ℕ
  pub next_run_epoch : ℕ
  pub status : Status
  pub created_at : String
  pub executions : List Execution
  pub slippage_bps : ℕ
  pub daily_cap_eth : Option F
  pub max_eth_total : Option F
  pub max_consecutive_failures : ℕ
  pub total_eth_spent : F
  pub conditional : Option (Conditional F)

abbrev pub default_slippage_bps : ℕ
default_slippage_bps = 100

abbrev pub default_max_failures : ℕ
default_max_failures = 3

-- The answers that tell the user why a command changed nothing.
pub data Refusal : Type 0 where
  usage over_cap needs_holder needs_unlimited bad_token not_a_number not_positive bad_interval
        bad_slippage bad_max_failures bad_conditional unknown_field not_found :
      Refusal

pub data Answer : Type 0 where
  refused : Refusal → Answer
  changed : Answer

abbrev pub is_active : Status → Bool
is_active active = true
is_active paused = false

-- `int(n or default)`
abbrev pub or_default : ℕ → ℕ → ℕ
or_default n default = if n == 0 then default else n

module _ {F : Type 0} where
  abbrev pub with_status : Status → Schedule F → Schedule F
  with_status status s = record s { status = status }

  abbrev pub is_mine : String → String → Schedule F → Bool
  is_mine sched_id sender s = str_eq s.id sched_id && str_eq s.sender_id sender

  -- `_find_sched`
  abbrev pub find_sched : String → String → List (Schedule F) → Option (Schedule F)
  find_sched sched_id sender schedules = find_first (is_mine sched_id sender) schedules

  -- The active schedules of a sender, counted by `_cmd_add`.
  unfoldable pub active_count : String → List (Schedule F) → ℕ
  active_count sender schedules =
      length (keep_if (λ s. str_eq s.sender_id sender && is_active s.status) schedules)

  -- A change of the schedule that `_find_sched` gives.
  unfoldable pub change_sched :
      String → String → (Schedule F → Schedule F) → List (Schedule F) → Answer × List (Schedule F)
  change_sched sender sched_id change schedules = elim (find_sched sched_id sender schedules) [
    | none ↦ (refused not_found, schedules)
    | some _ ↦ (changed, update_first (is_mine sched_id sender) change schedules)
  ]

  -- `_mutate`: no other check is made of a schedule that is resumed.
  unfoldable pub mutate :
      Status → String → List String → List (Schedule F) → Answer × List (Schedule F)
  mutate status sender [] schedules = (refused usage, schedules)
  mutate status sender (sched_id ∷ _) schedules =
      change_sched sender sched_id (with_status status) schedules

  abbrev pub pause : String → List String → List (Schedule F) → Answer × List (Schedule F)
  pause sender parts schedules = mutate paused sender parts schedules

  abbrev pub resume : String → List String → List (Schedule F) → Answer × List (Schedule F)
  resume sender parts schedules = mutate active sender parts schedules

  unfoldable pub cancel : String → List String → List (Schedule F) → Answer × List (Schedule F)
  cancel sender [] schedules = (refused usage, schedules)
  cancel sender (sched_id ∷ _) schedules =
      let rest = keep_if (λ s. not (is_mine sched_id sender s)) schedules in
      if length rest == length schedules then (refused not_found, schedules) else (changed, rest)

  abbrev pub put_off : ℕ → Schedule F → Schedule F
  put_off now s = record s { next_run_epoch = now + s.interval_seconds }

  -- `_cmd_skip`
  unfoldable pub skip : ℕ → String → List String → List (Schedule F) → Answer × List (Schedule F)
  skip now sender [] schedules = (refused usage, schedules)
  skip now sender (sched_id ∷ _) schedules = change_sched sender sched_id (put_off now) schedules
