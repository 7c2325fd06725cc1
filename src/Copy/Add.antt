-- ===== src/Copy/Add.antt =====
-- clawmes/commands/copy.py: `_cmd_add` and `_parse_blocklist`; flags are split as those of the
-- alerts are. The tier, the block height, the new id and the time are arguments.
use clawmes.Base.{
  ℕ, ◌-◌, String, Bool, true, false, not, ◌&&◌, Option, none, some, List, [], ◌∷◌, ◌++◌,
  if◌then◌else◌, lookup, str_eq,
}
use clawmes.Base.Check.{Check, bad, good, ◌>>=◌, or_refuse, flag_or}
use clawmes.TokenGate.{Tier, holder, unlimited, is_tier, is_over_cap_of}
use clawmes.Dca.{Values}
use clawmes.Dca.Add.{is_address, between, one_or_more}
use clawmes.Alerts.Add.{split_alert_flags}
use clawmes.Copy.{
  active, Follow, default_slippage_bps, default_max_failures, Refusal, usage, over_cap,
  needs_holder, needs_unlimited, bad_wallet, not_a_number, not_positive, bad_slippage,
  bad_max_failures, bad_pct, Answer, refused, changed, active_count,
}

-- What the code uses of text methods, and `not pct > 1000`, which holds of NaN.
pub record Texts (F : Type 0) : Type 0 where
  pub strip : String → String
  pub split_comma : String → List String
  pub is_at_most_1000 : F → Bool

abbrev pub unless : Bool → Refusal → Check {0, 0} Refusal Unit
unless allowed r = if allowed then good tt else bad r

-- The entries of a list of addresses in lower case, without those that are none.
unfoldable pub addresses_in : (strip lower : String → String) → List String → List String
addresses_in strip lower [] = []
addresses_in strip lower (tok ∷ toks) =
    let rest = addresses_in strip lower toks in
    if is_address (strip tok) then lower (strip tok) ∷ rest else rest

-- The same, but one that is neither an address nor empty is refused.
unfoldable pub addresses_of :
    (strip lower : String → String) → List String → Check Refusal (List String)
addresses_of strip lower [] = good []
addresses_of strip lower (w ∷ wallets) =
    let rest = addresses_of strip lower wallets in
    let taken : Check Refusal (List String) = (do
      _ ← unless (is_address (strip w)) bad_wallet
      others ← rest
      good (lower (strip w) ∷ others)) in
    if str_eq (strip w) "" then rest else taken

module _ {F : Type 0} (values : Values F) (texts : Texts F) where
  unfoldable pub parse_blocklist : String → List String
  parse_blocklist raw =
      let listed = addresses_in texts.strip values.lower (texts.split_comma raw) in
      if str_eq raw "" then [] else listed

  unfoldable pub positive_eth : String → Check Refusal F
  positive_eth text = do
    f ← or_refuse not_a_number (values.float_of text)
    if values.is_positive f then good f else bad not_positive

  unfoldable pub cap_of : String → Check Refusal (Option F)
  cap_of text = do f ← positive_eth text; good (some f)

  unfoldable pub slippage_of : String → Check Refusal ℕ
  slippage_of text = do
    n ← or_refuse bad_slippage (values.int_of text)
    or_refuse bad_slippage (between 0 10_000 n)

  unfoldable pub max_failures_of : String → Check Refusal ℕ
  max_failures_of text = do
    n ← or_refuse bad_max_failures (values.int_of text)
    or_refuse bad_max_failures (one_or_more n)

  unfoldable pub pct_of : Tier → String → Check Refusal (Option F)
  pct_of tier text = do
    _ ← unless (is_tier holder tier) needs_holder
    pct ← or_refuse bad_pct (values.float_of text)
    if values.is_positive pct && texts.is_at_most_1000 pct then good (some pct) else bad bad_pct

  unfoldable pub invert_of : Tier → String → Check Refusal Bool
  invert_of tier _ = do _ ← unless (is_tier holder tier) needs_holder; good true

  unfoldable pub multi_of : Tier → String → Check Refusal (List String)
  multi_of tier raw = do
    _ ← unless (is_tier unlimited tier) needs_unlimited
    addresses_of texts.strip values.lower (texts.split_comma raw)

  unfoldable pub blocklist_of : Option String → List String
  blocklist_of none = []
  blocklist_of (some raw) = parse_blocklist raw

  unfoldable pub new_follow :
      Tier
      → String
      → (wallet eth_raw : String) → List (String × String)
      → (id created_at : String) → ℕ
      → Check Refusal (Follow F)
  new_follow tier sender wallet eth_raw flags id created_at height = do
    _ ← unless (is_address wallet) bad_wallet
    eth_per_copy ← positive_eth eth_raw
    slippage_bps ← flag_or default_slippage_bps slippage_of (lookup "slippage" flags)
    daily_cap_eth ← flag_or none cap_of (lookup "daily-cap" flags)
    max_eth_total ← flag_or none cap_of (lookup "max-total" flags)
    max_failures ← flag_or default_max_failures max_failures_of (lookup "max-failures" flags)
    pct ← flag_or none (pct_of tier) (lookup "pct" flags)
    invert ← flag_or false (invert_of tier) (lookup "invert" flags)
    extra_wallets ← flag_or [] (multi_of tier) (lookup "multi" flags)
    good record {
      id = id;
      sender_id = sender;
      wallet = values.lower wallet;
      extra_wallets = extra_wallets;
      eth_per_copy = eth_per_copy;
      pct = pct;
      invert = invert;
      slippage_bps = slippage_bps;
      daily_cap_eth = daily_cap_eth;
      max_eth_total = max_eth_total;
      max_consecutive_failures = max_failures;
      blocklist = blocklist_of (lookup "blocklist" flags);
      status = active;
      created_at = created_at;
      last_seen_block = height - 10;
      total_eth_spent = values.zero_eth;
      executions = [];
    }

  unfoldable pub add_checked :
      Tier
      → String
      → List String
      → List (String × String)
      → (id created_at : String) → ℕ
      → List (Follow F)
      → Check Refusal (Follow F)
  add_checked tier sender [] flags id created_at height follows = bad usage
  add_checked tier sender (_ ∷ []) flags id created_at height follows = bad usage
  add_checked tier sender (wallet ∷ eth_raw ∷ _) flags id created_at height follows = do
    _ ← unless (not (is_over_cap_of "copy" tier (active_count sender follows))) over_cap
    new_follow tier sender wallet eth_raw flags id created_at height

  -- `_cmd_add`; the follow begins 10 blocks before the head of the chain, or at block 0.
  unfoldable pub add :
      Tier
      → String
      → List String
      → (id created_at : String) → ℕ
      → List (Follow F)
      → Answer × List (Follow F)
  add tier sender parts id created_at height follows =
      let (positional, flags) = split_alert_flags parts in
      elim (add_checked tier sender positional flags id created_at height follows) [
        | bad r ↦ (refused r, follows)
        | good f ↦ (changed, follows ++ f ∷ [])
      ]
