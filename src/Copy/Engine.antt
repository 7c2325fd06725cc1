-- ===== src/Copy/Engine.antt =====
-- clawmes/commands/copy.py: `_compute_copy_amount`, `_execute_copy`, `_execute_sell` and what
-- `_process_follow` does for one transfer.
use clawmes.Base.{
  ℕ, suc, ◌+◌, String, Bool, true, false, not, ◌&&◌, Option, none, some, List, [], ◌∷◌, leb, ◌==◌,
  if◌then◌else◌, length, all, contains, str_eq,
}
use clawmes.Dca.{Values, or_default}
use clawmes.Dca.Tick.{Swapped, sent, failed, Buy, is_over}
use clawmes.Copy.{
  paused, Result, ok, error, no_wallet, no_balance, daily_capped, total_capped, Outcome,
  blocklisted, bought, sold, Execution, Follow, default_slippage_bps, default_max_failures,
  with_status,
}

-- What the code reads of a transfer, each text "" if it is missing, addresses in lower case;
-- `block_number` is `none` if `int` refuses it.
pub record Tx : Type 0 where
  pub token : String
  pub block_number : Option ℕ
  pub to_address : String
  pub from_address : String
  pub hash : String

-- The outside. `transfers` is the list that the explorer answers for a wallet from a block on, `[]`
-- for any other answer, and `none` if `http_get` raises; `eth_value` is the value of a transaction in
-- wei, 0 on any error, and `balance` that of a token in the own wallet, likewise. `is_address` is
-- `len(token) == 42`, and `scale wei pct` is `wei / 1e18 * (pct / 100.0)`.
pub record Market {ℓ} (F : Type 0) (W : Type ℓ) : Type ℓ where
  pub now : W → ℕ
  pub now_iso : W → String
  pub epoch_of : String → Option ℕ
  pub transfers : String → ℕ → W → Option (List Tx)
  pub eth_value : String → W → ℕ
  pub connected : W → Bool
  pub balance : String → W → ℕ
  pub buy : Buy F → W → Swapped × W
  pub sell : String → ℕ → ℕ → W → Swapped × W
  pub has_length_42 : String → Bool
  pub scale : ℕ → F → F

abbrev pub result_of : Swapped → Result
result_of (sent tx_hash) = ok tx_hash
result_of (failed detail) = error detail

abbrev pub is_ok : Result → Bool
is_ok (ok _) = true
is_ok _ = false

abbrev pub is_failure : Result → Bool
is_failure (ok _) = false
is_failure (error _) = true
is_failure no_wallet = true
is_failure no_balance = false
is_failure daily_capped = true
is_failure total_capped = true

module _ {F : Type 0} where
  abbrev pub has_failed : Outcome F → Bool
  has_failed blocklisted = false
  has_failed (bought _ result) = is_failure result
  has_failed (sold result) = is_failure result

  abbrev pub has_succeeded : Outcome F → Bool
  has_succeeded blocklisted = false
  has_succeeded (bought _ result) = is_ok result
  has_succeeded (sold result) = is_ok result

  -- `runs[-n:]` for `n` of 1 or more
  unfoldable pub last_runs : ℕ → List (Execution F) → List (Execution F)
  last_runs n [] = []
  last_runs n (r ∷ runs) =
      let rest = last_runs n runs in if leb (suc (length runs)) n then r ∷ runs else rest

  abbrev pub max_fails : Follow F → ℕ
  max_fails f = or_default f.max_consecutive_failures default_max_failures

  unfoldable pub is_streak : Follow F → Bool
  is_streak f =
      leb (max_fails f) (length f.executions)
      && all (λ r. has_failed r.outcome) (last_runs (max_fails f) f.executions)

  unfoldable pub maybe_auto_pause : Follow F → Follow F
  maybe_auto_pause f = if is_streak f then with_status paused f else f

  module _ {ℓ} {W : Type ℓ} (values : Values F) (market : Market F W) where
    -- Whether an execution counts as spend of the last day, at a time.
    abbrev pub is_recent : ℕ → Execution F → Bool
    is_recent now r = elim (market.epoch_of r.at) [
      | none ↦ false
      | some ts ↦ has_succeeded r.outcome && leb now (ts + 86_400)
    ]

    unfoldable pub sum_recent : ℕ → F → F → List (Execution F) → F
    sum_recent now eth_per_copy total [] = total
    sum_recent now eth_per_copy total (r ∷ runs) =
        sum_recent now eth_per_copy
          (if is_recent now r then values.plus total eth_per_copy else total) runs

    unfoldable pub spend_in_last_24h : Follow F → W → F
    spend_in_last_24h f w = sum_recent (market.now w) f.eth_per_copy values.zero_eth f.executions

    -- `min(scaled, base)`
    abbrev pub capped : F → F → F
    capped scaled base = if values.exceeds scaled base then base else scaled

    unfoldable pub compute_copy_amount : Follow F → String → W → F
    compute_copy_amount f hash w = elim f.pct [
      | none ↦ f.eth_per_copy
      | some pct ↦
          (let wei = market.eth_value hash w in
            if str_eq hash ""
            then f.eth_per_copy
            else (if wei == 0
                then f.eth_per_copy
                else capped (market.scale wei pct) f.eth_per_copy))
    ]

    abbrev pub buy_of : Follow F → String → F → Buy F
    buy_of f token amount = record {
      buy_token = token;
      sell_amount = amount;
      slippage_bps = or_default f.slippage_bps default_slippage_bps;
    }

    abbrev pub is_over_total : Follow F → F → Bool
    is_over_total f amount = is_over values f.total_eth_spent amount f.max_eth_total

    abbrev pub is_over_daily : Follow F → F → W → Bool
    is_over_daily f amount w = is_over values (spend_in_last_24h f w) amount f.daily_cap_eth

    unfoldable pub execute_copy : Follow F → String → F → W → Result × W
    execute_copy f token amount w =
        let (answer, w') = market.buy (buy_of f token amount) w in
        if is_over_total f amount
        then (total_capped, w)
        else (if is_over_daily f amount w
            then (daily_capped, w)
            else (if market.connected w then (result_of answer, w') else (no_wallet, w)))

    unfoldable pub execute_sell : Follow F → String → W → Result × W
    execute_sell f token w =
        let balance = market.balance token w in
        let (answer, w') =
          market.sell token balance (or_default f.slippage_bps default_slippage_bps) w in
        if market.connected w
        then (if balance == 0 then (no_balance, w) else (result_of answer, w'))
        else (no_wallet, w)

    abbrev pub is_incoming : String → Tx → Bool
    is_incoming wallet t = str_eq t.to_address wallet

    abbrev pub is_outgoing : String → Tx → Bool
    is_outgoing wallet t = str_eq t.from_address wallet && not (str_eq t.to_address wallet)

    -- What is done for a transfer of a watched wallet, `none` for nothing.
    unfoldable pub act : String → Tx → Follow F → W → Option (Outcome F) × W
    act wallet t f w =
        let amount = compute_copy_amount f t.hash w in
        let (copied, w') = execute_copy f t.token amount w in
        let (mirrored, w'') = execute_sell f t.token w in
        if contains t.token f.blocklist
        then (some blocklisted, w)
        else (if is_incoming wallet t
            then (some (bought amount copied), w')
            else (if is_outgoing wallet t && f.invert
                then (some (sold mirrored), w'')
                else (none, w)))
