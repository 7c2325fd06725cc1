-- ===== src/TokenGate/Recent.antt =====
-- A feature is allowed on a balance that was read at most a minute ago.
use clawmes.Base.{
  ℕ, ◌+◌, ◌≤◌, ◌<◌, ◌≡◌, refl, sym, inl, inr, String, true, Option, none, some, [], arith, All,
  Option-cases, lookup, lookup-All, All-insert, All-erase,
}
use clawmes.TokenGate.{
  Tier, free, holder, unlimited, holder_threshold_wei, unlimited_threshold_wei, cache_ttl_seconds,
  Cached, Cache, tier_of, is_tier, fresh, resolve, invalidate, check_tier,
}

-- The balance that a tier takes.
unfoldable pub threshold : Tier → ℕ
threshold free = 0
threshold holder = holder_threshold_wei
threshold unlimited = unlimited_threshold_wei

tier_of-threshold :
    (required : Tier) (balance : ℕ)
    → is_tier required (tier_of balance) ≡ true
    → threshold required ≤ balance
unfolding tier_of threshold
tier_of-threshold free balance h = omega arith
tier_of-threshold holder balance h = ground (arith, h)
tier_of-threshold unlimited balance h = ground (arith, h)

-- `Read k t b`: `_read_clawnch_balance` gives `b` for the wallet `k` at time `t`.
module _ (Read : String → ℕ → ℕ → Type 0) where
  -- An entry of the cache comes of one reading.
  IsBacked : String → Cached → Type 0
  IsBacked k c =
      (t : ℕ) × Read k t c.balance
      × (c.expires_at ≡ t + cache_ttl_seconds)
      × (c.tier ≡ tier_of c.balance)

  -- The caches that `resolve_tier` and `invalidate` reach, with readings that `Read` allows.
  pub data Reachable : Cache → Type 0 where
    empty : Reachable []
    resolved :
        (now balance : ℕ) (key : String) {cache : Cache}
        → Read key now balance
        → Reachable cache
        → Reachable (resolve now balance (some key) cache).1
    invalidated :
        (key : Option String) {cache : Cache} → Reachable cache → Reachable (invalidate key cache)

  resolve-IsBacked :
      (now balance : ℕ) (key : String) (cache : Cache)
      → Read key now balance
      → All (λ e. IsBacked e.0 e.1) cache
      → All (λ e. IsBacked e.0 e.1) (resolve now balance (some key) cache).1
  unfolding resolve IsBacked
  resolve-IsBacked now balance key cache read backed =
      elim (Option-cases (fresh now (lookup key cache))) [
        | inr (c, hit) ↦ rw (resolve, hit) backed
        | inl miss ↦
            rw (resolve, miss) (All-insert IsBacked key _ cache (now, read, refl, refl) backed)
      ]

  Reachable-IsBacked : {cache : Cache} → Reachable cache → All (λ e. IsBacked e.0 e.1) cache
  unfolding invalidate
  Reachable-IsBacked empty = tt
  Reachable-IsBacked (resolved now balance key {cache} read r) =
      resolve-IsBacked now balance key cache read (Reachable-IsBacked r)
  Reachable-IsBacked (invalidated none {cache} r) = Reachable-IsBacked r
  Reachable-IsBacked (invalidated (some key) {cache} r) =
      All-erase IsBacked key cache (Reachable-IsBacked r)

  -- A reading of a wallet that is less than a minute old at `now` and suffices for a tier.
  unfoldable pub IsBackedBy : Tier → String → ℕ → Type 0
  IsBackedBy required key now =
      (t : ℕ) × (b : ℕ) × Read key t b × (threshold required ≤ b) × (now < t + cache_ttl_seconds)

  fresh-some :
      (now : ℕ) (o : Option Cached) (c : Cached)
      → fresh now o ≡ some c
      → (o ≡ some c) × (now < c.expires_at)
  unfolding fresh
  fresh-some now none c h = ground arith
  fresh-some now (some d) c h = ground (arith, h)

  resolve-IsBackedBy :
      (required : Tier) (now balance : ℕ) (key : String) (cache : Cache)
      → Read key now balance
      → All (λ e. IsBacked e.0 e.1) cache
      → is_tier required (resolve now balance (some key) cache).0.0 ≡ true
      → IsBackedBy required key now
  unfolding resolve IsBacked IsBackedBy
  resolve-IsBackedBy required now balance key cache read backed h =
      elim (Option-cases (fresh now (lookup key cache))) [
        | inl miss ↦
            let enough = tier_of-threshold required balance (rw (resolve, miss) at h) in
            (now, balance, read, enough, omega arith)
        | inr (c, hit) ↦
            let (found, early) = fresh-some now (lookup key cache) c hit in
            let (t, past, ends, graded) = lookup-All IsBacked key c cache found backed in
            let enough =
              tier_of-threshold required c.balance (rw (sym graded) (rw (resolve, hit) at h)) in
            (t, c.balance, past, enough, omega (arith, early, ends))
      ]

  -- check_tier_or_error allows a feature of a tier only where a reading of the wallet's balance that
  -- is less than a minute old gave at least the tier's tokens, whatever was asked and invalidated
  -- before, if each balance that the cache took was a reading at its time.
  pub check_tier-IsBackedBy :
      (required : Tier) (now balance : ℕ) (key : String) {cache : Cache}
      → Reachable cache
      → Read key now balance
      → (check_tier required now balance (some key) cache).0 ≡ true
      → IsBackedBy required key now
  unfolding check_tier IsBackedBy threshold
  check_tier-IsBackedBy free now balance key r read h =
      (now, balance, read, omega arith, omega arith)
  check_tier-IsBackedBy holder now balance key {cache} r read h =
      resolve-IsBackedBy holder now balance key cache read (Reachable-IsBacked r) h
  check_tier-IsBackedBy unlimited now balance key {cache} r read h =
      resolve-IsBackedBy unlimited now balance key cache read (Reachable-IsBacked r) h
