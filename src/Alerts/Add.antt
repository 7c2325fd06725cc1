-- ===== src/Alerts/Add.antt =====
-- clawmes/commands/alerts.py: `_split_alert_flags`, `_cmd_add` with `_add_price` and `_add_wallet`,
-- and `_cmd_edit`. The new id, the time, the block height and the tier are arguments.
use clawmes.Base.{
  ℕ, ◌-◌, String, Bool, true, false, ◌&&◌, ◌||◌, Option, none, some, List, [], ◌∷◌, ◌++◌, ◌==◌,
  if◌then◌else◌, find_first, update_first, is_some, lookup, insert, str_eq,
}
use clawmes.Base.Check.{Check, bad, good, ◌>>=◌, or_refuse}
use clawmes.Delegation.Hex.{codes}
use clawmes.TokenGate.{Tier, holder, is_tier, is_over_cap_of}
use clawmes.Dca.Add.{flag_name, is_address}
use clawmes.Alerts.{
  Direction, above, below, active, Watch, price, wallet, Alert, Refusal, usage, over_cap,
  needs_holder, bad_url, unknown_kind, bad_direction, not_a_number, not_positive, bad_wallet,
  not_found, not_editable, unknown_field, Answer, refused, changed, is_mine, active_count,
}

-- What the code uses of floats and of `lower`.
pub record Prices (F : Type 0) : Type 0 where
  pub float_of : String → Option F
  pub lower : String → String
  pub zero_usd : F
  -- `not f <= 0`, which holds of NaN, and `a >= b`
  pub is_positive : F → Bool
  pub at_least : F → F → Bool

abbrev pub with_word :
    String → List String × List (String × String) → List String × List (String × String)
with_word tok (positional, flags) = (tok ∷ positional, flags)

abbrev pub with_value :
    String → String → List String × List (String × String) → List String × List (String × String)
with_value name value (positional, flags) =
    (positional, if is_some (lookup name flags) then flags else insert name value flags)

-- A flag takes the next token as its value unless that is a flag.
unfoldable pub split_alert_flags : List String → List String × List (String × String)
split_alert_flags [] = ([], [])
split_alert_flags (tok ∷ []) = elim (flag_name tok) [
  | some name ↦ ([], (name, "") ∷ [])
  | none ↦ (tok ∷ [], [])
]
split_alert_flags (tok ∷ value ∷ rest) =
    let skipped = split_alert_flags rest in
    let next = split_alert_flags (value ∷ rest) in
    elim (flag_name tok) [
      | some name ↦
          if is_some (flag_name value)
          then with_value name "" next
          else with_value name value skipped
      | none ↦ with_word tok next
    ]

abbrev pub starts_with : List ℕ → List ℕ → Bool
starts_with [] s = true
starts_with (c ∷ prefix) [] = false
starts_with (c ∷ prefix) (d ∷ s) = c == d && starts_with prefix s

abbrev pub is_http : String → Bool
is_http url =
    starts_with (codes "http://") (codes url) || starts_with (codes "https://") (codes url)

module _ {F : Type 0} (prices : Prices F) where
  unfoldable pub direction_of : String → Check Refusal Direction
  direction_of text =
      if str_eq (prices.lower text) "above"
      then good above
      else (if str_eq (prices.lower text) "below" then good below else bad bad_direction)

  unfoldable pub threshold_of : String → Check Refusal F
  threshold_of text = do
    f ← or_refuse not_a_number (prices.float_of text)
    if prices.is_positive f then good f else bad not_positive

  -- What `_add_price` watches.
  unfoldable pub price_watch : List String → Check Refusal (Watch F)
  price_watch (token ∷ direction_text ∷ usd ∷ _) = do
    direction ← direction_of direction_text
    threshold ← threshold_of usd
    good (price token direction threshold)
  price_watch [] = bad usage
  price_watch (_ ∷ []) = bad usage
  price_watch (_ ∷ _ ∷ []) = bad usage

  -- What `_add_wallet` watches: from ten blocks before the current one, or from 0.
  unfoldable pub wallet_watch : ℕ → List String → Check Refusal (Watch F)
  wallet_watch height [] = bad usage
  wallet_watch height (address ∷ _) =
      if is_address address
      then good (wallet (prices.lower address) (height - 10))
      else bad bad_wallet

  -- The webhook of a new alert; an empty one is no webhook for the check, and is stored.
  unfoldable pub webhook_of : Tier → Option String → Check Refusal (Option String)
  webhook_of tier none = good none
  webhook_of tier (some url) =
      if str_eq url ""
      then good (some url)
      else (if is_tier holder tier
          then (if is_http url then good (some url) else bad bad_url)
          else bad needs_holder)

  unfoldable pub watch_of : ℕ → String → List String → Check Refusal (Watch F)
  watch_of height kind positional =
      if str_eq (prices.lower kind) "price"
      then price_watch positional
      else (if str_eq (prices.lower kind) "wallet"
          then wallet_watch height positional
          else bad unknown_kind)

  unfoldable pub new_alert :
      Tier → String → List String → (id created_at : String) → ℕ → Check Refusal (Alert F)
  new_alert tier sender [] id created_at height = bad usage
  new_alert tier sender (kind ∷ rest) id created_at height =
      let (positional, flags) = split_alert_flags rest in
      (do
        webhook_url ← webhook_of tier (lookup "webhook" flags)
        watch ← watch_of height kind positional
        good record {
          id = id;
          sender_id = sender;
          watch = watch;
          webhook_url = webhook_url;
          status = active;
          created_at = created_at;
          fires = [];
        })

  unfoldable pub add :
      Tier
      → String
      → List String
      → (id created_at : String) → ℕ
      → List (Alert F)
      → Answer × List (Alert F)
  add tier sender [] id created_at height alerts = (refused usage, alerts)
  add tier sender (word ∷ words) id created_at height alerts =
      let stored : Answer × List (Alert F) =
        (elim (new_alert tier sender (word ∷ words) id created_at height) [
          | bad r ↦ (refused r, alerts)
          | good a ↦ (changed, alerts ++ a ∷ [])
        ]) in
      if is_over_cap_of "alerts" tier (active_count sender alerts)
      then (refused over_cap, alerts)
      else stored

  -- The new watch that `_cmd_edit` makes of a price alert's.
  unfoldable pub edited : (field value : String) → Watch F → Check Refusal (Watch F)
  edited field value (wallet address last_seen_block) = bad not_editable
  edited field value (price token direction threshold_usd) =
      if str_eq field "direction"
      then (do d ← direction_of value; good (price token d threshold_usd))
      else (if str_eq field "threshold_usd"
          then (do f ← threshold_of value; good (price token direction f))
          else (if str_eq field "token"
              then good (price value direction threshold_usd)
              else bad unknown_field))

  unfoldable pub edit_alert :
      (sender aid field value : String) → List (Alert F) → Answer × List (Alert F)
  edit_alert sender aid field value alerts = elim (find_first (is_mine aid sender) alerts) [
    | none ↦ (refused not_found, alerts)
    | some a ↦ elim (edited field value a.watch) [
      | bad r ↦ (refused r, alerts)
      | good w ↦ (changed, update_first (is_mine aid sender) (λ a. record a { watch = w }) alerts)
    ]
  ]

  unfoldable pub edit : String → List String → List (Alert F) → Answer × List (Alert F)
  edit sender (aid ∷ field ∷ value ∷ _) alerts = edit_alert sender aid field value alerts
  edit sender [] alerts = (refused usage, alerts)
  edit sender (_ ∷ []) alerts = (refused usage, alerts)
  edit sender (_ ∷ _ ∷ []) alerts = (refused usage, alerts)
