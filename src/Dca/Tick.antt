-- ===== src/Dca/Tick.antt =====
-- clawmes/commands/dca.py: `_run_due_with_lines` and what it calls, and the tick of
-- clawmes/services/dca_scheduler.py. A schedule is changed only by its own round, so the loop over
-- the due ones is a walk over all.
pub mod Runs
pub mod Served
pub mod Capped
pub mod Streaks
use clawmes.Base.{
  ℕ, suc, ◌+◌, ◌-◌, String, Bool, true, false, not, ◌&&◌, Option, none, some, List, [], ◌∷◌, ◌++◌,
  leb, ltb, ◌==◌, if◌then◌else◌, length, all,
}
use clawmes.Dca.{
  Values, price_above, price_below, Conditional, Status, active, paused, Result, ok, error,
  no_wallet, daily_capped, total_capped, conditional_blocked, Execution, Schedule,
  default_slippage_bps, default_max_failures, is_active, or_default, with_status, put_off,
}

-- What `defi_swap` is asked for, to buy a token with ETH.
pub record Buy (F : Type 0) : Type 0 where
  pub buy_token : String
  pub sell_amount : F
  pub slippage_bps : ℕ

-- What the code reads off the answer of `defi_swap`, or off the exception that it raises.
pub data Swapped : Type 0 where
  sent : (tx_hash : String) → Swapped
  failed : (detail : String) → Swapped

-- The clock, prices, the wallet and swaps. `price_usd` is the number that
-- `_conditional_satisfied` reads off the answer of `defi_price`, if any; `epoch_of` reads the
-- texts that `now_iso` writes.
pub record Market {ℓ} (F : Type 0) (W : Type ℓ) : Type ℓ where
  pub now : W → ℕ
  pub now_iso : W → String
  pub epoch_of : String → Option ℕ
  pub price_usd : String → W → Option F
  pub connected : W → Bool
  pub swap : Buy F → W → Swapped × W

abbrev pub is_failure : Result → Bool
is_failure (ok _) = false
is_failure (error _) = true
is_failure no_wallet = true
is_failure daily_capped = true
is_failure total_capped = true
is_failure conditional_blocked = false

abbrev pub is_ok : Result → Bool
is_ok (ok _) = true
is_ok _ = false

abbrev pub result_of : Swapped → Result
result_of (sent tx_hash) = ok tx_hash
result_of (failed detail) = error detail

-- `runs[-n:]` for `n` of 1 or more
unfoldable pub last_runs : ℕ → List Execution → List Execution
last_runs n [] = []
last_runs n (r ∷ runs) =
    let rest = last_runs n runs in if leb (suc (length runs)) n then r ∷ runs else rest

-- The length and the tail that `_maybe_auto_pause` looks at.
unfoldable pub is_streak : ℕ → List Execution → Bool
is_streak max_fails runs =
    leb max_fails (length runs) && all (λ r. is_failure r.result) (last_runs max_fails runs)

module _ {F : Type 0} where
  abbrev pub max_fails : Schedule F → ℕ
  max_fails s = or_default s.max_consecutive_failures default_max_failures

  unfoldable pub maybe_auto_pause : Schedule F → Schedule F
  maybe_auto_pause s = if is_streak (max_fails s) s.executions then with_status paused s else s

  abbrev pub append_run : String → Result → Schedule F → Schedule F
  append_run at result s = record s {
    executions = s.executions ++ record { at = at; result = result } ∷ [];
  }

  unfoldable pub is_due : ℕ → Schedule F → Bool
  is_due now s = is_active s.status && leb s.next_run_epoch now

  module _ (values : Values F) where
    unfoldable pub is_satisfied : Conditional F → Option F → Bool
    is_satisfied c none = false
    is_satisfied c (some price) = elim c.op [
      | price_above ↦ values.exceeds price c.threshold_usd
      | price_below ↦ values.exceeds c.threshold_usd price
    ]

    abbrev pub is_over : F → F → Option F → Bool
    is_over spent amount none = false
    is_over spent amount (some cap) = values.exceeds (values.plus spent amount) cap

    unfoldable pub is_over_total : Schedule F → Bool
    is_over_total s = is_over s.total_eth_spent s.eth_amount s.max_eth_total

    -- `sched["total_eth_spent"] + sched["eth_amount"]` after a swap
    unfoldable pub add_spend : Result → Schedule F → Schedule F
    add_spend result s =
        if is_ok result
        then record s { total_eth_spent = values.plus s.total_eth_spent s.eth_amount }
        else s

    abbrev pub buy_of : Schedule F → Buy F
    buy_of s = record {
      buy_token = s.token;
      sell_amount = s.eth_amount;
      slippage_bps = or_default s.slippage_bps default_slippage_bps;
    }

    module _ {ℓ} {W : Type ℓ} (market : Market F W) where
      -- Whether an execution is a swap of the last day, at a time.
      abbrev pub is_recent : ℕ → Execution → Bool
      is_recent now r = elim (market.epoch_of r.at) [
        | none ↦ false
        | some ts ↦ is_ok r.result && leb now (ts + 86_400)
      ]

      unfoldable pub sum_recent : ℕ → F → F → List Execution → F
      sum_recent now eth_amount total [] = total
      sum_recent now eth_amount total (r ∷ runs) =
          sum_recent now eth_amount
            (if is_recent now r then values.plus total eth_amount else total) runs

      unfoldable pub spend_in_last_24h : Schedule F → W → F
      spend_in_last_24h s w = sum_recent (market.now w) s.eth_amount values.zero_eth s.executions

      unfoldable pub is_over_daily : Schedule F → W → Bool
      is_over_daily s w = is_over (spend_in_last_24h s w) s.eth_amount s.daily_cap_eth

      unfoldable pub execute : Schedule F → W → Result × W
      execute s w =
          let (answer, w') = market.swap (buy_of s) w in
          if is_over_total s
          then (total_capped, w)
          else (if is_over_daily s w
              then (daily_capped, w)
              else (if market.connected w then (result_of answer, w') else (no_wallet, w)))

      unfoldable pub is_blocked : Schedule F → W → Bool
      is_blocked s w = elim s.conditional [
        | none ↦ false
        | some c ↦ not (is_satisfied c (market.price_usd c.token w))
      ]

      -- A schedule after `_execute_sync`: the run is recorded, the next one is set, the spend is
      -- added, and a streak of failures pauses it.
      unfoldable pub settle : ℕ → Schedule F → Result → W → Schedule F
      settle now s result w =
          maybe_auto_pause (add_spend result (put_off now (append_run (market.now_iso w) result s)))

      -- One round of the loop, for a due schedule; `now` is the time at which the loop began.
      unfoldable pub run_schedule : ℕ → Schedule F → W → Schedule F × W
      run_schedule now s w =
          let (result, w') = execute s w in
          if is_blocked s w
          then (put_off now (append_run (market.now_iso w) conditional_blocked s), w)
          else (settle now s result w', w')

      unfoldable pub run_if_due : ℕ → Schedule F → W → Schedule F × W
      run_if_due now s w = if is_due now s then run_schedule now s w else (s, w)

      -- The loop: the number of the due schedules, and all of them.
      unfoldable pub run_all : ℕ → List (Schedule F) → W → (ℕ × List (Schedule F)) × W
      run_all now [] w = ((0, []), w)
      run_all now (s ∷ schedules) w =
          let (s', w') = run_if_due now s w in
          let ((count, served), w'') = run_all now schedules w' in
          ((if is_due now s then suc count else count, s' ∷ served), w'')

      -- `_run_due_sync`, on the state that it loads and saves
      unfoldable pub run_due : List (Schedule F) → W → (ℕ × List (Schedule F)) × W
      run_due schedules w = run_all (market.now w) schedules w

      -- `DcaSchedulerService`: its counters, and its tick.
      pub record Service : Type 0 where
        pub running : Bool
        pub ticks : ℕ
        pub last_fired : ℕ
        pub total_fired : ℕ

      unfoldable pub tick : Service → List (Schedule F) → W → (Service × List (Schedule F)) × W
      tick service schedules w =
          let ((count, served), w') = run_due schedules w in
          if service.running
          then (
            (
              record {
                running = true;
                ticks = suc service.ticks;
                last_fired = count;
                total_fired = service.total_fired + count;
              },
              served,
            ),
            w',
          )
          else ((service, schedules), w)
