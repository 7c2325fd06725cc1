-- ===== src/Sniper/Engine.antt =====
-- clawmes/commands/sniper.py: `_process_config`, `_submit_snipe`, `_evaluate_auto_sell_watches` and
-- `_submit_token_sell`.
use clawmes.Base.{
  ℕ, suc, ◌+◌, String, Bool, true, false, not, ◌&&◌, ◌||◌, Option, none, some, List, [], ◌∷◌, ◌++◌,
  leb, ltb, ◌==◌, if◌then◌else◌, is_some, str_eq,
}
use clawmes.Dca.Tick.{Swapped, sent, failed}
use clawmes.Sniper.{
  Result, ok, error, no_wallet, no_balance, watching, Watch, Config, default_slippage_bps,
  default_max_buys, default_max_age_seconds,
}

-- What the code reads of one entry of the feed: the address if it is a text that begins with "0x",
-- in lower case; the time as `_parse_launch_epoch` gives it, 0 for none or a negative one; the
-- source, `none` if it is no text and `lower` raises; the symbol, `none` if `search` raises, which a
-- snipe then keeps as ""; and
-- the market cap, `none` if `float` refuses it.
pub record Launch (F : Type 0) : Type 0 where
  pub address : Option String
  pub epoch : ℕ
  pub source : Option String
  pub symbol : Option String
  pub mcap : Option F

pub record Trade (F : Type 0) : Type 0 where
  pub token : String
  pub eth_amount : F
  pub slippage_bps : ℕ

-- The outside, and what the code uses of floats and of a compiled filter.
pub record Market {ℓ} (F : Type 0) (W : Type ℓ) : Type ℓ where
  pub now_iso : W → String
  pub connected : W → Bool
  pub price : String → W → Option F
  pub balance : String → W → ℕ
  pub buy : Trade F → W → Swapped × W
  pub sell : String → ℕ → ℕ → W → Swapped × W
  pub matches : String → String → Bool
  pub lower : String → String
  -- `a > b`, `f <= 0` and `f > 0`, and `(a - b) / b * 100`
  pub exceeds : F → F → Bool
  pub is_at_most_zero : F → Bool
  pub is_above_zero : F → Bool
  pub change_pct : F → F → F
  -- `a >= b`, and `a <= -b`
  pub at_least : F → F → Bool
  pub at_most_minus : F → F → Bool

abbrev pub or_default : ℕ → ℕ → ℕ
or_default n default = if n == 0 then default else n

abbrev pub result_of : Swapped → Result
result_of (sent tx_hash) = ok tx_hash
result_of (failed detail) = error detail

abbrev pub is_ok : Result → Bool
is_ok (ok _) = true
is_ok (error _) = false
is_ok no_wallet = false
is_ok no_balance = false

-- How a launch fares with the filters of a configuration.
pub data Fit : Type 0 where
  misses raises : Fit
  hits : (address symbol : String) → Fit

module _ {ℓ} {F : Type 0} {W : Type ℓ} (market : Market F W) where
  abbrev pub max_buys_of : Config F → ℕ
  max_buys_of c = or_default c.max_buys default_max_buys

  -- `now_epoch - launch_epoch > max_age`
  abbrev pub is_stale : ℕ → Config F → ℕ → Bool
  is_stale now c epoch =
      leb epoch c.last_seen_epoch
      || ltb (epoch + or_default c.max_age_seconds default_max_age_seconds) now

  -- Whether the cap on the market value keeps a launch.
  abbrev pub fits_mcap : Option F → Option F → Bool
  fits_mcap none mcap = true
  fits_mcap (some cap) none = true
  fits_mcap (some cap) (some mcap) = not (market.exceeds mcap cap)

  unfoldable pub fit_symbol : Config F → Launch F → String → Fit
  fit_symbol c l address = elim c.symbol_filter [
    | none ↦ elim l.symbol [
      | none ↦ if fits_mcap c.max_mcap_usd l.mcap then hits address "" else misses
      | some symbol ↦ if fits_mcap c.max_mcap_usd l.mcap then hits address symbol else misses
    ]
    | some filter ↦ elim l.symbol [
      | none ↦ raises
      | some symbol ↦
          if market.matches filter symbol && fits_mcap c.max_mcap_usd l.mcap
          then hits address symbol
          else misses
    ]
  ]

  unfoldable pub fit_source : Config F → Launch F → String → Fit
  fit_source c l address =
      let next = fit_symbol c l address in
      elim c.source_filter [
        | none ↦ next
        | some filter ↦ elim l.source [
          | none ↦ raises
          | some source ↦
              if str_eq (market.lower source) (market.lower filter) then next else misses
        ]
      ]

  -- The filters of `_process_config`, in their order.
  unfoldable pub fit : ℕ → Config F → Launch F → Fit
  fit now c l = elim l.address [
    | none ↦ misses
    | some address ↦ if is_stale now c l.epoch then misses else fit_source c l address
  ]

  -- `_submit_snipe`
  unfoldable pub submit_snipe : Config F → String → W → Result × W
  submit_snipe c token w =
      let (answer, w') =
        market.buy
          (record {
            token = token;
            eth_amount = c.eth_amount;
            slippage_bps = or_default c.slippage_bps default_slippage_bps;
          })
          w in
      if market.connected w then (result_of answer, w') else (no_wallet, w)

  abbrev pub new_watch : String → String → F → W → Watch F
  new_watch token symbol buy_price w = record {
    token = token;
    symbol = symbol;
    buy_price_usd = buy_price;
    high_water_price_usd = buy_price;
    created_at = market.now_iso w;
    status = watching;
    closing = none;
  }

  -- The watch that a successful buy registers, if a price is known.
  unfoldable pub add_watch : String → String → W → Config F → Config F
  add_watch token symbol w c =
      let watched : Config F = (elim (market.price token w) [
        | none ↦ c
        | some p ↦
            if market.is_above_zero p
            then record c {
              auto_sell_watches = c.auto_sell_watches ++ new_watch token symbol p w ∷ [];
            }
            else c
      ]) in
      if is_some c.auto_sell || is_some c.auto_trail_pct then watched else c

  -- The configuration after a buy that ended so.
  unfoldable pub record_snipe : String → String → Result → W → Config F → Config F
  record_snipe token symbol result w c =
      let noted : Config F = record c {
        snipes =
            c.snipes
            ++ record { at = market.now_iso w; token = token; symbol = symbol; result = result }
              ∷ [];
      } in
      if is_ok result
      then add_watch token symbol w (record noted { buys_made = c.buys_made + 1 })
      else noted

  -- `_process_config`: the configuration, whether it ended without an exception, and the number of
  -- lines that it and the caller's `except` write.
  unfoldable pub process : ℕ → List (Launch F) → Config F → W → ((Config F × Bool) × ℕ) × W
  process now [] c w = (((c, true), 0), w)
  process now (l ∷ launches) c w =
      let skip = process now launches c w in
      let full = leb (max_buys_of c) c.buys_made in
      elim (fit now c l) [
        | misses ↦ if full then (((c, true), 0), w) else skip
        | raises ↦ if full then (((c, true), 0), w) else (((c, false), 1), w)
        | hits token symbol ↦
            (let (result, w') = submit_snipe c token w in
              let (((c', fine), lines), w'') =
                process now launches (record_snipe token symbol result w' c) w' in
              if full then (((c, true), 0), w) else (((c', fine), suc lines), w''))
      ]
