-- ===== src/TokenGate.antt =====
-- clawmes/services/token_gate.py: the tier of a wallet by its token balance, the cache of the
-- balances read, and the caps of the free tier. The balance that an RPC call reads is an argument,
-- and so is the address of the active wallet.
pub mod Recent
pub mod Tests
use clawmes.Base.{
  ℕ, ◌+◌, ◌*◌, ◌^◌, String, Bool, true, false, not, ◌&&◌, Option, none, some, List, [], ◌∷◌, ltb,
  leb, if◌then◌else◌, str_eq, lookup, insert, erase,
}

pub data Tier : Type 0 where
  free holder unlimited : Tier

-- `Tier.value`
abbrev pub rank : Tier → ℕ
rank free = 0
rank holder = 1
rank unlimited = 2

abbrev pub holder_threshold_wei : ℕ
holder_threshold_wei = 10_000_000 * 10 ^ 18

abbrev pub unlimited_threshold_wei : ℕ
unlimited_threshold_wei = 100_000_000 * 10 ^ 18

abbrev pub cache_ttl_seconds : ℕ
cache_ttl_seconds = 60

-- `FREE_TIER_CAPS.get(command)`
abbrev pub free_tier_cap_of : String → Option ℕ
free_tier_cap_of command =
    lookup command (("dca", 1) ∷ ("copy", 1) ∷ ("alerts", 3) ∷ ("limit_order", 1) ∷ [])

pub record Cached : Type 0 where
  pub tier : Tier
  pub balance : ℕ
  pub expires_at : ℕ

-- `TokenGateService._cache`
abbrev pub Cache : Type 0
Cache = List (String × Cached)

-- The thresholds that `resolve_tier` compares a balance with.
unfoldable pub tier_of : ℕ → Tier
tier_of balance =
    if leb unlimited_threshold_wei balance
    then unlimited
    else (if leb holder_threshold_wei balance then holder else free)

-- `tier.value >= required.value`
abbrev pub is_tier : Tier → Tier → Bool
is_tier required tier = leb (rank required) (rank tier)

-- The address of a connected wallet, in lower case; `if not address` holds of "".
abbrev pub wallet_key : (String → String) → Option String → Option String
wallet_key lower none = none
wallet_key lower (some address) = if str_eq address "" then none else some (lower address)

-- An entry of the cache that has not expired.
unfoldable pub fresh : ℕ → Option Cached → Option Cached
fresh now none = none
fresh now (some c) = if ltb now c.expires_at then some c else none

-- `resolve_tier` for a key; `balance` is what `_read_clawnch_balance` would read now.
unfoldable pub resolve : ℕ → ℕ → Option String → Cache → (Tier × ℕ) × Cache
resolve now balance none cache = ((free, 0), cache)
resolve now balance (some key) cache = elim (fresh now (lookup key cache)) [
  | some c ↦ ((c.tier, c.balance), cache)
  | none ↦ (
    (tier_of balance, balance),
    insert key
        (record { tier = tier_of balance; balance = balance; expires_at = now + cache_ttl_seconds })
        cache,
  )
]

unfoldable pub invalidate : Option String → Cache → Cache
invalidate none cache = cache
invalidate (some key) cache = erase key cache

-- `check_tier_or_error`: whether the feature is allowed.
unfoldable pub check_tier : Tier → ℕ → ℕ → Option String → Cache → Bool × Cache
check_tier free now balance key cache = (true, cache)
check_tier holder now balance key cache =
    let (answer, cache') = resolve now balance key cache in (is_tier holder answer.0, cache')
check_tier unlimited now balance key cache =
    let (answer, cache') = resolve now balance key cache in (is_tier unlimited answer.0, cache')

-- `check_cap_or_error` for a wallet of a tier: whether a command with this many active items is
-- refused.
unfoldable pub is_over_cap_of : String → Tier → ℕ → Bool
is_over_cap_of command tier active_count = elim (free_tier_cap_of command) [
  | none ↦ false
  | some cap ↦ not (ltb active_count cap) && not (is_tier holder tier)
]
