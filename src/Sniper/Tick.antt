-- ===== src/Sniper/Tick.antt =====
-- clawmes/commands/sniper.py: `_evaluate_auto_sell_watches`, `_submit_token_sell` and
-- `_run_due_with_lines`, which the scheduler calls.
use clawmes.Base.{
  ℕ, suc, ◌+◌, String, Bool, true, false, not, ◌&&◌, ◌||◌, Option, none, some, List, [], ◌∷◌, leb,
  ◌==◌, if◌then◌else◌, is_some, map,
}
use clawmes.Sniper.{
  exhausted, Result, no_wallet, no_balance, WatchStatus, watching, sold, close_failed, Trigger,
  take_profit, trailing_stop, stop_loss, Watch, Config, default_slippage_bps, is_active,
  with_status,
}
use clawmes.Sniper.Engine.{Launch, Market, or_default, result_of, is_ok, max_buys_of, process}

-- What `http_get` and `_extract_launches` make of the feed: an exception, or the launches.
pub data Feed (F : Type 0) : Type 0 where
  fetch_error : Feed F
  launches : List (Launch F) → Feed F

abbrev pub is_watching : WatchStatus → Bool
is_watching watching = true
is_watching sold = false
is_watching close_failed = false

abbrev pub count_if : Bool → ℕ → ℕ
count_if true n = suc n
count_if false n = n

module _ {ℓ} {F : Type 0} {W : Type ℓ} (market : Market F W) where
  -- `_submit_token_sell`
  unfoldable pub submit_sell : Config F → String → W → Result × W
  submit_sell c token w =
      let balance = market.balance token w in
      let (answer, w') =
        market.sell token balance (or_default c.slippage_bps default_slippage_bps) w in
      if market.connected w
      then (if balance == 0 then (no_balance, w) else (result_of answer, w'))
      else (no_wallet, w)

  abbrev pub high_water : F → Watch F → F
  high_water current x =
      if market.exceeds current x.high_water_price_usd then current else x.high_water_price_usd

  -- The drop from the highest price, 0 (no trigger) where that is not above 0.
  abbrev pub is_trailing : F → F → F → Bool
  is_trailing current high trail =
      market.is_above_zero high && market.at_most_minus (market.change_pct current high) trail

  -- The trigger that fires first: take profit, then trailing stop, then stop loss.
  unfoldable pub trigger_of : Config F → F → Watch F → Option Trigger
  trigger_of c current x =
      let delta = market.change_pct current x.buy_price_usd in
      let gains : Bool = (elim c.auto_sell [
        | none ↦ false
        | some s ↦ market.at_least delta s.gain_pct
      ]) in
      let trails : Bool = (elim c.auto_trail_pct [
        | none ↦ false
        | some t ↦ is_trailing current (high_water current x) t
      ]) in
      let loses : Bool = (elim c.auto_sell [
        | none ↦ false
        | some s ↦ market.at_most_minus delta s.loss_pct
      ]) in
      if gains
      then some take_profit
      else (if trails then some trailing_stop else (if loses then some stop_loss else none))

  abbrev pub closed_status : Result → WatchStatus
  closed_status result = if is_ok result then sold else close_failed

  -- A watch at a known price: whether a trigger fired, the watch and the world.
  unfoldable pub judge_watch : Config F → F → Watch F → W → (Bool × Watch F) × W
  judge_watch c current x w =
      let raised : Watch F = record x { high_water_price_usd = high_water current x } in
      let (result, w') = submit_sell c x.token w in
      elim (trigger_of c current x) [
        | none ↦ ((false, raised), w)
        | some reason ↦ (
          (
            true,
            record raised {
              status = closed_status result;
              closing = some (record {
                closed_at = market.now_iso w';
                price_usd = current;
                reason = reason;
                result = result;
              });
            },
          ),
          w',
        )
      ]

  unfoldable pub run_watch : Config F → Watch F → W → (Bool × Watch F) × W
  run_watch c x w =
      let priced : (Bool × Watch F) × W = (elim (market.price x.token w) [
        | none ↦ ((false, x), w)
        | some p ↦
            (let judged = judge_watch c p x w in
              if market.is_at_most_zero p then ((false, x), w) else judged)
      ]) in
      if is_watching x.status then priced else ((false, x), w)

  unfoldable pub run_watches : Config F → List (Watch F) → W → (ℕ × List (Watch F)) × W
  run_watches c [] w = ((0, []), w)
  run_watches c (x ∷ watches) w =
      let ((did, x'), w') = run_watch c x w in
      let ((count, rest), w'') = run_watches c watches w' in ((count_if did count, x' ∷ rest), w'')

  -- `_evaluate_auto_sell_watches`, with the number of lines that it writes
  unfoldable pub evaluate_watches : Config F → W → (ℕ × Config F) × W
  evaluate_watches c w =
      let ((count, watches), w') = run_watches c c.auto_sell_watches w in
      if is_some c.auto_sell || is_some c.auto_trail_pct
      then ((count, record c { auto_sell_watches = watches }), w')
      else ((0, c), w)

  -- After its launches an active configuration has seen them, unless an exception ended them, and
  -- is exhausted with its last buy.
  unfoldable pub after_process : ℕ → Config F → Bool → Config F
  after_process now c fine =
      let seen : Config F = record c { last_seen_epoch = now } in
      if fine
      then (if leb (max_buys_of market c) c.buys_made then with_status exhausted seen else seen)
      else c

  unfoldable pub run_config : ℕ → List (Launch F) → Config F → W → (ℕ × Config F) × W
  run_config now feed c w =
      let (((c', fine), lines), w') = process market now feed c w in
      if is_active c.status then ((lines, after_process now c' fine), w') else ((0, c), w)

  unfoldable pub run_configs : ℕ → List (Launch F) → List (Config F) → W → (ℕ × List (Config F)) × W
  run_configs now feed [] w = ((0, []), w)
  run_configs now feed (c ∷ configs) w =
      let ((lines, c'), w') = run_config now feed c w in
      let ((more, rest), w'') = run_configs now feed configs w' in ((lines + more, c' ∷ rest), w'')

  unfoldable pub close_watches : List (Config F) → W → (ℕ × List (Config F)) × W
  close_watches [] w = ((0, []), w)
  close_watches (c ∷ configs) w =
      let ((lines, c'), w') = evaluate_watches c w in
      let ((more, rest), w'') = close_watches configs w' in ((lines + more, c' ∷ rest), w'')

  abbrev pub mark_seen : ℕ → Config F → Config F
  mark_seen now c = if is_active c.status then record c { last_seen_epoch = now } else c

  abbrev pub none_active : List (Config F) → Bool
  none_active [] = true
  none_active (c ∷ configs) = not (is_active c.status) && none_active configs

  -- The file after a run: the new configurations are saved only if a line was written, as it is for
  -- every fire.
  abbrev pub saved : ℕ → List (Config F) → List (Config F) → List (Config F)
  saved lines old new = if lines == 0 then old else new

  -- `_run_due_with_lines`: the configurations in the file, and the world.
  unfoldable pub run_due : ℕ → Feed F → List (Config F) → W → List (Config F) × W
  run_due now fetch_error configs w = (configs, w)
  run_due now (launches []) configs w = (map (mark_seen now) configs, w)
  run_due now (launches (l ∷ feed)) configs w =
      let ((lines, bought), w') = run_configs now (l ∷ feed) configs w in
      let ((more, closed), w'') = close_watches bought w' in
      if none_active configs then (configs, w) else (saved (lines + more) configs closed, w'')
