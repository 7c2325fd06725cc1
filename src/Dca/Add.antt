-- ===== src/Dca/Add.antt =====
-- clawmes/commands/dca.py: `_split_flags`, `_cmd_add` and `_parse_conditional`. The new
-- id, the time and the tier of the active wallet are arguments.
use Prim.Native.Char.{code}
use clawmes.Base.{
  ℕ, ◌+◌, String, Bool, false, not, ◌&&◌, ◌||◌, Option, none, some, List, [], ◌∷◌, ◌++◌, leb, ◌==◌,
  if◌then◌else◌, length, is_some, lookup, insert, str_eq,
}
use clawmes.Base.Check.{Check, bad, good, ◌>>=◌, or_refuse, flag_or}
use clawmes.Base.Int.{ℤ, pos, negsuc}
use clawmes.Delegation.Hex.{codes}
use clawmes.TokenGate.{Tier, holder, unlimited, is_tier, is_over_cap_of}
use clawmes.Dca.Interval.{parse_interval}
use clawmes.Dca.{
  Values, Op, price_above, price_below, Conditional, active, Schedule, default_slippage_bps,
  default_max_failures, Refusal, usage, over_cap, needs_holder, needs_unlimited, bad_token,
  not_a_number, not_positive, bad_interval, bad_slippage, bad_max_failures, bad_conditional, Answer,
  refused, changed, active_count,
}

-- The name after two dashes (code 45).
abbrev pub flag_name : String → Option String
flag_name String.[] = none
flag_name (String.◌∷◌ c String.[]) = none
flag_name (String.◌∷◌ c (String.◌∷◌ d name)) =
    if code c == 45 && code d == 45 then some name else none

abbrev with_positional :
    String → List String × List (String × String) → List String × List (String × String)
with_positional tok (positional, flags) = (tok ∷ positional, flags)

-- A later flag of the same name replaces the value of an earlier one.
abbrev with_flag :
    String → String → List String × List (String × String) → List String × List (String × String)
with_flag name value (positional, flags) =
    (positional, if is_some (lookup name flags) then flags else insert name value flags)

unfoldable pub split_flags : List String → List String × List (String × String)
split_flags [] = ([], [])
split_flags (tok ∷ []) = elim (flag_name tok) [
  | some name ↦ ([], (name, "") ∷ [])
  | none ↦ (tok ∷ [], [])
]
split_flags (tok ∷ value ∷ rest) =
    let skipped = split_flags rest in
    let next = split_flags (value ∷ rest) in
    elim (flag_name tok) [
      | some name ↦ with_flag name value skipped
      | none ↦ with_positional tok next
    ]

abbrev pub starts_0x : List ℕ → Bool
starts_0x [] = false
starts_0x (a ∷ []) = false
starts_0x (a ∷ b ∷ s) = a == 48 && b == 120

-- `token.startswith("0x") and len(token) == 42`
abbrev pub is_address : String → Bool
is_address token = starts_0x (codes token) && length (codes token) == 42

abbrev pub between : ℕ → ℕ → ℤ → Option ℕ
between low high (pos n) = if leb low n && leb n high then some n else none
between low high (negsuc n) = none

abbrev pub one_or_more : ℤ → Option ℕ
one_or_more (pos n) = if leb 1 n then some n else none
one_or_more (negsuc n) = none

abbrev pub op_of : String → Option Op
op_of text =
    if str_eq text "price_above"
    then some price_above
    else (if str_eq text "price_below" then some price_below else none)

abbrev pub used_safeguards : List (String × String) → Bool
used_safeguards flags =
    is_some (lookup "slippage" flags)
    || (is_some (lookup "daily-cap" flags)
        || (is_some (lookup "max-total" flags) || is_some (lookup "max-failures" flags)))

abbrev pub unless : Bool → Refusal → Check {0, 0} Refusal Unit
unless allowed r = if allowed then good tt else bad r

module _ {F : Type 0} (values : Values F) where
  -- `float(text)`, and not 0 or less
  unfoldable pub positive_eth : String → Check Refusal F
  positive_eth text = do
    f ← or_refuse not_a_number (values.float_of text)
    if values.is_positive f then good f else bad not_positive

  unfoldable pub slippage_of : String → Check Refusal ℕ
  slippage_of text = do
    n ← or_refuse bad_slippage (values.int_of text)
    or_refuse bad_slippage (between 0 10_000 n)

  unfoldable pub max_failures_of : String → Check Refusal ℕ
  max_failures_of text = do
    n ← or_refuse bad_max_failures (values.int_of text)
    or_refuse bad_max_failures (one_or_more n)

  unfoldable pub token_of : String → Check Refusal String
  token_of text = if is_address text then good (values.lower text) else bad bad_token

  unfoldable pub interval_of : String → Check Refusal ℕ
  interval_of text = or_refuse bad_interval (parse_interval values.classes (codes text))

  -- A cap, given as a number.
  unfoldable pub cap_of : String → Check Refusal (Option F)
  cap_of text = do f ← positive_eth text; good (some f)

  -- The parts of `_parse_conditional`
  unfoldable pub conditional_of : List String → Check Refusal (Conditional F)
  conditional_of (op_text ∷ token ∷ usd ∷ []) = do
    op ← or_refuse bad_conditional (op_of op_text)
    threshold ← or_refuse bad_conditional (values.float_of usd)
    if values.is_positive threshold
        then good record { op = op; token = token; threshold_usd = threshold }
        else bad bad_conditional
  conditional_of [] = bad bad_conditional
  conditional_of (_ ∷ []) = bad bad_conditional
  conditional_of (_ ∷ _ ∷ []) = bad bad_conditional
  conditional_of (_ ∷ _ ∷ _ ∷ _ ∷ _) = bad bad_conditional

  unfoldable pub conditional_flag : Tier → String → Check Refusal (Option (Conditional F))
  conditional_flag tier raw = do
    _ ← unless (is_tier unlimited tier) needs_unlimited
    c ← conditional_of (values.split_colon raw)
    good (some c)

  -- `_cmd_add` up to the schedule that it appends, for its positional arguments and flags.
  unfoldable pub new_schedule :
      Tier
      → String
      → (token amount interval : String) → List (String × String)
      → (id created_at : String) → ℕ
      → Check Refusal (Schedule F)
  new_schedule tier sender token amount interval flags id created_at now = do
    _ ← unless (not (used_safeguards flags) || is_tier holder tier) needs_holder
    address ← token_of token
    eth_amount ← positive_eth amount
    seconds ← interval_of interval
    slippage_bps ← flag_or default_slippage_bps slippage_of (lookup "slippage" flags)
    daily_cap_eth ← flag_or none cap_of (lookup "daily-cap" flags)
    max_eth_total ← flag_or none cap_of (lookup "max-total" flags)
    max_failures ← flag_or default_max_failures max_failures_of (lookup "max-failures" flags)
    conditional ← flag_or none (conditional_flag tier) (lookup "conditional" flags)
    good record {
      id = id;
      sender_id = sender;
      token = address;
      eth_amount = eth_amount;
      interval_seconds = seconds;
      next_run_epoch = now + seconds;
      status = active;
      created_at = created_at;
      executions = [];
      slippage_bps = slippage_bps;
      daily_cap_eth = daily_cap_eth;
      max_eth_total = max_eth_total;
      max_consecutive_failures = max_failures;
      total_eth_spent = values.zero_eth;
      conditional = conditional;
    }

  -- The checks of `_cmd_add` in their order, for the positional arguments and the flags.
  unfoldable pub checked :
      Tier
      → String
      → List String
      → List (String × String)
      → (id created_at : String) → ℕ
      → List (Schedule F)
      → Check Refusal (Schedule F)
  checked tier sender (token ∷ amount ∷ interval ∷ _) flags id created_at now schedules = do
    _ ← unless (not (is_over_cap_of "dca" tier (active_count sender schedules))) over_cap
    new_schedule tier sender token amount interval flags id created_at now
  checked tier sender [] flags id created_at now schedules = bad usage
  checked tier sender (_ ∷ []) flags id created_at now schedules = bad usage
  checked tier sender (_ ∷ _ ∷ []) flags id created_at now schedules = bad usage

  unfoldable pub add :
      Tier
      → String
      → List String
      → (id created_at : String) → ℕ
      → List (Schedule F)
      → Answer × List (Schedule F)
  add tier sender parts id created_at now schedules =
      let (positional, flags) = split_flags parts in
      elim (checked tier sender positional flags id created_at now schedules) [
        | bad r ↦ (refused r, schedules)
        | good s ↦ (changed, schedules ++ s ∷ [])
      ]
