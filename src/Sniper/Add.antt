-- ===== src/Sniper/Add.antt =====
-- clawmes/commands/sniper.py: `_cmd_add`, whose flags are split as those of the alerts are. The
-- tier, the new id and the time are arguments.
use clawmes.Base.{
  ℕ, String, Bool, ◌&&◌, Option, none, some, List, [], ◌∷◌, ◌++◌, leb, if◌then◌else◌, lookup,
  str_eq,
}
use clawmes.Base.Check.{Check, bad, good, ◌>>=◌, or_refuse, flag_or}
use clawmes.Base.Int.{ℤ, pos, negsuc}
use clawmes.TokenGate.{Tier, unlimited, is_tier}
use clawmes.Alerts.Add.{split_alert_flags}
use clawmes.Sniper.{
  active, AutoSell, Config, default_slippage_bps, default_max_buys, default_max_age_seconds,
  Refusal, usage, needs_unlimited, not_a_number, not_positive, bad_max_buys, bad_slippage,
  bad_max_age, bad_regex, bad_auto_sell, bad_auto_trail, Answer, refused, changed,
}

-- What the code uses of floats, `int`, text methods and `re.compile`.
pub record Reads (F : Type 0) : Type 0 where
  pub float_of : String → Option F
  pub int_of : String → Option ℤ
  pub strip : String → String
  pub split_colon : String → List String
  pub compiles : String → Bool
  -- `not f <= 0`, and `not f >= 100`; both hold of NaN
  pub is_positive : F → Bool
  pub is_below_100 : F → Bool

abbrev pub positive_int : ℤ → Option ℕ
positive_int (pos n) = if leb 1 n then some n else none
positive_int (negsuc n) = none

abbrev pub basis_points : ℤ → Option ℕ
basis_points (pos n) = if leb n 10_000 then some n else none
basis_points (negsuc n) = none

module _ {F : Type 0} (reads : Reads F) where
  unfoldable pub positive_number : String → Check Refusal F
  positive_number text = do
    f ← or_refuse not_a_number (reads.float_of text)
    if reads.is_positive f then good f else bad not_positive

  -- An integer of at least 1.
  unfoldable pub count_of : Refusal → String → Check Refusal ℕ
  count_of r text = do n ← or_refuse r (reads.int_of text); or_refuse r (positive_int n)

  unfoldable pub slippage_of : String → Check Refusal ℕ
  slippage_of text = do
    n ← or_refuse bad_slippage (reads.int_of text)
    or_refuse bad_slippage (basis_points n)

  unfoldable pub mcap_of : String → Check Refusal (Option F)
  mcap_of text = do f ← positive_number text; good (some f)

  -- `flags.get(name, "").strip() or None`
  unfoldable pub stripped : Option String → Option String
  stripped none = none
  stripped (some text) = if str_eq (reads.strip text) "" then none else some (reads.strip text)

  unfoldable pub regex_of : Option String → Check Refusal (Option String)
  regex_of none = good none
  regex_of (some pattern_) = if reads.compiles pattern_ then good (some pattern_) else bad bad_regex

  unfoldable pub auto_sell_parts : List String → Check Refusal (Option (AutoSell F))
  auto_sell_parts (gain ∷ loss ∷ []) = do
    gain_pct ← or_refuse bad_auto_sell (reads.float_of gain)
    loss_pct ← or_refuse bad_auto_sell (reads.float_of loss)
    if reads.is_positive gain_pct && reads.is_positive loss_pct
        then good (some (record { gain_pct = gain_pct; loss_pct = loss_pct }))
        else bad bad_auto_sell
  auto_sell_parts [] = bad bad_auto_sell
  auto_sell_parts (_ ∷ []) = bad bad_auto_sell
  auto_sell_parts (_ ∷ _ ∷ _ ∷ _) = bad bad_auto_sell

  unfoldable pub trail_of : String → Check Refusal (Option F)
  trail_of text = do
    f ← or_refuse bad_auto_trail (reads.float_of text)
    if reads.is_positive f && reads.is_below_100 f then good (some f) else bad bad_auto_trail

  unfoldable pub new_config :
      String
      → String
      → List (String × String)
      → (id created_at : String) → ℕ
      → Check Refusal (Config F)
  new_config sender amount flags id created_at now = do
    eth_amount ← positive_number amount
    max_buys ← flag_or default_max_buys (count_of bad_max_buys) (lookup "max-buys" flags)
    slippage_bps ← flag_or default_slippage_bps slippage_of (lookup "slippage" flags)
    max_age ← flag_or default_max_age_seconds (count_of bad_max_age) (lookup "max-age" flags)
    max_mcap ← flag_or none mcap_of (lookup "max-mcap" flags)
    symbol_filter ← regex_of (stripped (lookup "symbol-filter" flags))
    auto_sell ←
        flag_or none (λ raw. auto_sell_parts (reads.split_colon raw)) (lookup "auto-sell" flags)
    auto_trail_pct ← flag_or none trail_of (lookup "auto-trail" flags)
    good record {
      id = id;
      sender_id = sender;
      eth_amount = eth_amount;
      max_buys = max_buys;
      buys_made = 0;
      auto_trail_pct = auto_trail_pct;
      slippage_bps = slippage_bps;
      source_filter = stripped (lookup "source" flags);
      symbol_filter = symbol_filter;
      max_mcap_usd = max_mcap;
      max_age_seconds = max_age;
      auto_sell = auto_sell;
      auto_sell_watches = [];
      status = active;
      created_at = created_at;
      last_seen_epoch = now;
      snipes = [];
    }

  unfoldable pub checked :
      String
      → List String
      → List (String × String)
      → (id created_at : String) → ℕ
      → Check Refusal (Config F)
  checked sender [] flags id created_at now = bad usage
  checked sender (amount ∷ _) flags id created_at now =
      new_config sender amount flags id created_at now

  -- `_cmd_add`
  unfoldable pub add :
      Tier
      → String
      → List String
      → (id created_at : String) → ℕ
      → List (Config F)
      → Answer × List (Config F)
  add tier sender parts id created_at now configs =
      let (positional, flags) = split_alert_flags parts in
      let stored : Answer × List (Config F) =
        (elim (checked sender positional flags id created_at now) [
          | bad r ↦ (refused r, configs)
          | good c ↦ (changed, configs ++ c ∷ [])
        ]) in
      if is_tier unlimited tier then stored else (refused needs_unlimited, configs)
