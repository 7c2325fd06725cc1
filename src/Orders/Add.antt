-- ===== src/Orders/Add.antt =====
-- clawmes/commands/limit_order.py: `_cmd_add` and `_cmd_edit`. The state of a sender's tier, the
-- new id and the time are arguments.
use clawmes.Base.{
  ℕ, String, Bool, true, false, not, ◌&&◌, Option, none, some, List, [], ◌∷◌, ◌++◌, leb,
  if◌then◌else◌, lookup, str_eq, contains,
}
use clawmes.Base.Check.{Check, bad, good, ◌>>=◌, or_refuse, flag_or}
use clawmes.Base.Int.{ℤ, pos, negsuc}
use clawmes.Orders.{
  Floats, Side, buy, sell, Direction, above, below, active, plain, Bracket, Order,
  default_slippage_bps, default_max_attempts, free_tier_cap, Refusal, over_cap, not_a_number,
  not_positive, bad_slippage, bad_max_attempts, needs_holder, bracket_on_sell, bad_bracket,
  unknown_field, not_found, Answer, refused, changed, find, update, active_count,
}

-- `check_cap_or_error("limit_order", ...)`; `holder` says that the wallet's tier is HOLDER or more.
unfoldable pub is_over_cap : Bool → ℕ → Bool
is_over_cap holder count = leb free_tier_cap count && not holder

abbrev is_buy : Side → Bool
is_buy buy = true
is_buy sell = false

abbrev trigger_of : Side → Direction
trigger_of buy = below
trigger_of sell = above

-- A native number between two bounds.
abbrev within : ℕ → ℕ → ℤ → Option ℕ
within low high (pos n) = if leb low n && leb n high then some n else none
within low high (negsuc n) = none

abbrev at_least_one : ℤ → Option ℕ
at_least_one (pos n) = if leb 1 n then some n else none
at_least_one (negsuc n) = none

-- `_EDITABLE`
abbrev editable : List String
editable = "threshold_usd" ∷ "amount" ∷ "slippage_bps" ∷ "max_attempts" ∷ []

module _ {F : Type 0} (floats : Floats F) where
  -- `float(text)`, and not 0 or less
  unfoldable pub positive_float : String → Check Refusal F
  positive_float text = do
    f ← or_refuse not_a_number (floats.float_of text)
    if floats.is_positive f then good f else bad not_positive

  unfoldable pub slippage_of : String → Check Refusal ℕ
  slippage_of text = do
    n ← or_refuse bad_slippage (floats.int_of text)
    or_refuse bad_slippage (within 0 10_000 n)

  unfoldable pub max_attempts_of : String → Check Refusal ℕ
  max_attempts_of text = do
    n ← or_refuse bad_max_attempts (floats.int_of text)
    or_refuse bad_max_attempts (at_least_one n)

  unfoldable pub bracket_parts : List String → Check Refusal (Bracket F)
  bracket_parts (tp ∷ sl ∷ []) = do
    tp_pct ← or_refuse bad_bracket (floats.float_of tp)
    sl_pct ← or_refuse bad_bracket (floats.float_of sl)
    if floats.is_positive tp_pct && floats.is_positive sl_pct
        then good record { tp_pct = tp_pct; sl_pct = sl_pct }
        else bad bad_bracket
  bracket_parts [] = bad bad_bracket
  bracket_parts (_ ∷ []) = bad bad_bracket
  bracket_parts (_ ∷ _ ∷ _ ∷ _) = bad bad_bracket

  unfoldable pub bracket_of : Bool → Side → Option String → Check Refusal (Option (Bracket F))
  bracket_of holder side none = good none
  bracket_of holder side (some raw) =
      let parts : Check Refusal (Option (Bracket F)) = (do
        b ← bracket_parts (floats.split_colon raw)
        good (some b)) in
      if not holder then bad needs_holder else (if is_buy side then parts else bad bracket_on_sell)

  -- `_store_order` up to the order that it appends
  unfoldable pub new_order :
      Bool
      → String
      → Side
      → (token amount usd : String) → List (String × String)
      → (id now : String) → Check Refusal (Order F)
  new_order holder sender side token amount usd flags id now = do
    amount_f ← positive_float amount
    threshold_usd ← positive_float usd
    slippage_bps ← flag_or default_slippage_bps slippage_of (lookup "slippage" flags)
    max_attempts ← flag_or default_max_attempts max_attempts_of (lookup "max-attempts" flags)
    bracket ← bracket_of holder side (lookup "bracket" flags)
    good record {
      id = id;
      sender_id = sender;
      side = side;
      token = token;
      amount = amount_f;
      direction = trigger_of side;
      threshold_usd = threshold_usd;
      slippage_bps = slippage_bps;
      max_attempts = max_attempts;
      bracket = bracket;
      bracket_children = [];
      status = active;
      created_at = now;
      attempts = [];
      parent_order_id = none;
      role = plain;
    }

  -- `_cmd_add`, for a command that names a side, a token, an amount and the side's own trigger
  unfoldable pub add :
      Bool
      → String
      → Side
      → (token amount usd : String) → List (String × String)
      → (id now : String) → List (Order F)
      → Answer × List (Order F)
  add holder sender side token amount usd flags id now orders =
      let stored : Answer × List (Order F) =
        (elim (new_order holder sender side token amount usd flags id now) [
          | bad r ↦ (refused r, orders)
          | good o ↦ (changed, orders ++ o ∷ [])
        ]) in
      if is_over_cap holder (active_count sender orders) then (refused over_cap, orders) else stored

  -- The change that `_cmd_edit` makes of a field.
  unfoldable pub edit_of : (field value : String) → Check Refusal (Order F → Order F)
  edit_of field value =
      if str_eq field "threshold_usd"
      then (do f ← positive_float value; good (λ o. record o { threshold_usd = f }))
      else (if str_eq field "amount"
          then (do f ← positive_float value; good (λ o. record o { amount = f }))
          else (if str_eq field "slippage_bps"
              then (do n ← slippage_of value; good (λ o. record o { slippage_bps = n }))
              else (if str_eq field "max_attempts"
                  then (do n ← max_attempts_of value; good (λ o. record o { max_attempts = n }))
                  else bad unknown_field)))

  unfoldable pub edit : (oid sender field value : String) → List (Order F) → Answer × List (Order F)
  edit oid sender field value orders =
      let known : Answer × List (Order F) = (elim (find oid sender orders) [
        | none ↦ (refused not_found, orders)
        | some _ ↦ elim (edit_of field value) [
          | bad r ↦ (refused r, orders)
          | good change ↦ (changed, update oid sender change orders)
        ]
      ]) in
      if contains field editable then known else (refused unknown_field, orders)
