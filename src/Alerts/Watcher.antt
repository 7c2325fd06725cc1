-- ===== src/Alerts/Watcher.antt =====
-- clawmes/commands/alerts.py: `_run_due_with_lines` and the checks that it calls. What the checks
-- read of a tool's or a server's answer is a parameter.
use clawmes.Base.{
  ℕ, suc, ◌+◌, String, Bool, true, false, Option, none, some, List, [], ◌∷◌, ◌++◌, ltb,
  if◌then◌else◌, length, str_eq, take,
}
use clawmes.Alerts.{
  Direction, above, below, fired, Watch, price, wallet, Event, crossed, received, quote_error,
  Delivery, Fire, Alert, is_active, with_status,
}
use clawmes.Alerts.Add.{Prices}

-- An answer of `defi_price`: a message for an exception, a text that is not JSON or an error; a
-- value that `float` refuses; no price or an empty one; or a price.
pub data Quote (F : Type 0) : Type 0 where
  failed : (detail : String) → Quote F
  unreadable missing : Quote F
  quoted : F → Quote F

-- A transfer to the wallet, with the block if `int` reads it.
pub record Receipt : Type 0 where
  pub block : Option ℕ
  pub token : String

-- The outside. `none` of `receipts` is an exception; `sorted_set` is `sorted({...})` of the tokens
-- that are not empty.
pub record Outside {ℓ} (F : Type 0) (W : Type ℓ) : Type ℓ where
  pub quote : String → W → Quote F
  pub receipts : String → ℕ → W → Option (List Receipt)
  pub sorted_set : List Receipt → List String
  pub now_iso : W → String
  pub post_webhook : String → Alert F → Event F → W → Delivery × W

abbrev pub max_of : ℕ → ℕ → ℕ
max_of a b = if ltb a b then b else a

-- `max(int(tx.get("blockNumber", 0)) for tx in txs)`
unfoldable pub max_block : List Receipt → Option ℕ
max_block [] = some 0
max_block (r ∷ receipts) = elim r.block [
  | none ↦ none
  | some b ↦ elim (max_block receipts) [ none ↦ none | some m ↦ some (max_of b m) ]
]

-- How the check of an alert ends: nothing, an exception, or an event and the alert's watch.
pub data Checked (F : Type 0) : Type 0 where
  nothing raised : Checked F
  fires_on : Event F → Watch F → Checked F

module _ {F : Type 0} (prices : Prices F) where
  unfoldable pub is_crossed : Direction → F → F → Bool
  is_crossed above price_usd threshold = prices.at_least price_usd threshold
  is_crossed below price_usd threshold = prices.at_least threshold price_usd

  -- `_check_price_alert` after the quote; no price counts as 0.
  unfoldable pub check_price : String → Direction → F → Quote F → Checked F
  check_price token direction threshold (failed detail) =
      fires_on (quote_error detail) (price token direction threshold)
  check_price token direction threshold unreadable = nothing
  check_price token direction threshold missing =
      if is_crossed direction prices.zero_usd threshold
      then fires_on (crossed prices.zero_usd) (price token direction threshold)
      else nothing
  check_price token direction threshold (quoted price_usd) =
      if is_crossed direction price_usd threshold
      then fires_on (crossed price_usd) (price token direction threshold)
      else nothing

  module _ {ℓ} {W : Type ℓ} (outside : Outside F W) where
    -- `_check_wallet_alert` after the poll.
    unfoldable pub check_receipts : String → List Receipt → Checked F
    check_receipts address [] = nothing
    check_receipts address (r ∷ receipts) = elim (max_block (r ∷ receipts)) [
      | none ↦ raised
      | some b ↦
          fires_on (received (length (r ∷ receipts)) (take 5 (outside.sorted_set (r ∷ receipts))))
            (wallet address b)
    ]

    unfoldable pub check_alert : Watch F → W → Checked F
    check_alert (price token direction threshold) w =
        check_price token direction threshold (outside.quote token w)
    check_alert (wallet address last_seen_block) w =
        elim (outside.receipts address (last_seen_block + 1) w) [
          | none ↦ raised
          | some receipts ↦ check_receipts address receipts
        ]

    -- Price alerts are active no more after a fire.
    abbrev pub status_after : Watch F → Alert F → Alert F
    status_after (price _ _ _) a = with_status fired a
    status_after (wallet _ _) a = a

    abbrev pub add_fire : Fire F → Alert F → Alert F
    add_fire fire a = record a { fires = a.fires ++ fire ∷ [] }

    -- The webhook call; an empty URL is none.
    unfoldable pub deliver : Option String → Alert F → Event F → W → Option Delivery × W
    deliver none a event w = (none, w)
    deliver (some url) a event w =
        let (delivery, w') = outside.post_webhook url a event w in
        if str_eq url "" then (none, w) else (some delivery, w')

    -- The alert after an event: the fire is recorded, a price alert is done, the webhook is called.
    unfoldable pub fire_alert : Event F → Watch F → Alert F → W → Alert F × W
    fire_alert event watch a w =
        let done = status_after watch (record a { watch = watch }) in
        let entry : Option Delivery → Fire F =
          λ d. record { at = outside.now_iso w; event = event; webhook = d } in
        let (delivery, w') = deliver a.webhook_url (add_fire (entry none) done) event w in
        (add_fire (entry delivery) done, w')

    -- One alert of the loop: whether it fired, the alert and the world.
    unfoldable pub run_alert : Alert F → W → (Bool × Alert F) × W
    run_alert a w =
        let next : (Bool × Alert F) × W = (elim (check_alert a.watch w) [
          | nothing ↦ ((false, a), w)
          | raised ↦ ((false, a), w)
          | fires_on event watch ↦ (let (a', w') = fire_alert event watch a w in ((true, a'), w'))
        ]) in
        if is_active a.status then next else ((false, a), w)

    -- `_run_due_sync`: the number of fires, and all alerts.
    unfoldable pub run_due : List (Alert F) → W → (ℕ × List (Alert F)) × W
    run_due [] w = ((0, []), w)
    run_due (a ∷ alerts) w =
        let ((did, a'), w') = run_alert a w in
        let ((count, rest), w'') = run_due alerts w' in
        ((if did then suc count else count, a' ∷ rest), w'')
