-- ===== src/TokenDecimals/Strict.antt =====
-- The strict path answers with what was verified.
use clawmes.Base.{
  ℕ, ◌≡◌, ◌⊎◌, refl, ap, ◌∙◌, subst, inl, inr, String, Bool, true, false, not, Option, none, some,
  some_inj, List, [], ◌∷◌, arith, all, All, All-keep_if, Bool-cases, Option-cases, eq_iff, ◌==◌,
}
use clawmes.TokenDecimals.{
  Entry, Tables, seed, initial, has_key, find_decimals, drop_key, put, fetch_and_cache, get_strict,
  get, or_assumed, stop,
}

-- Whether the seed gives the entry's decimals.
abbrev is_seeded : Entry → Bool
is_seeded e = elim (find_decimals e.chain_id e.address seed) [
  | none ↦ false
  | some n ↦ n == e.decimals
]

seeded :
    (e : Entry) → is_seeded e ≡ true → find_decimals e.chain_id e.address seed ≡ some e.decimals
seeded e h = elim (Option-cases (find_decimals e.chain_id e.address seed)) [
  | inl missing ↦ (let never : false ≡ true = rw (is_seeded, missing) at h in ground arith)
  | inr (n, found) ↦
      let same : (n == e.decimals) ≡ true = rw (is_seeded, found) at h in
      found ∙ ap some (ground (arith, same))
]

-- `Read c a n`: a call of `decimals()` of the token `a` on the chain `c` gave `n`.
module _ (Read : ℕ → String → ℕ → Type 0) where
  -- An entry of the seed, or one that a call gave.
  unfoldable pub IsVerified : ℕ → String → ℕ → Type 0
  IsVerified chain_id address n =
      (find_decimals chain_id address seed ≡ some n) ⊎ Read chain_id address n

  -- What a fetch brings is what `decimals()` gives, or a failure.
  pub data Gives (chain_id : ℕ) (address : String) : Option ℕ → Type 0 where
    fails : Gives chain_id address none
    gives : {n : ℕ} → Read chain_id address n → Gives chain_id address (some n)

  -- The tables that the loose and the strict path, a stop and a start of the process reach.
  pub data Reachable : Tables → Type 0 where
    started : Reachable initial
    loose :
        (reading : Option ℕ) (chain_id : ℕ) (address : String) {t : Tables}
        → Gives chain_id address reading
        → Reachable t
        → Reachable (get reading chain_id address t).1
    strict :
        (reading : Option ℕ) (chain_id : ℕ) (address : String) {t : Tables}
        → Gives chain_id address reading
        → Reachable t
        → Reachable (get_strict reading chain_id address t).1
    stopped : {t : Tables} → Reachable t → Reachable (stop t)

  IsTable : List Entry → Type 0
  IsTable table = All (λ e. IsVerified e.chain_id e.address e.decimals) table

  found-IsTable : (table : List Entry) → all is_seeded table ≡ true → IsTable table
  unfolding IsTable IsVerified
  found-IsTable [] h = tt
  found-IsTable (e ∷ table) h =
      let this : is_seeded e ≡ true = ground (arith, h) in
      (inl (seeded e this), found-IsTable table (ground (arith, h)))

  seed-IsTable : IsTable seed
  unfolding find_decimals
  seed-IsTable = found-IsTable seed refl

  find_decimals-IsVerified :
      (c : ℕ) (a : String) (n : ℕ) (table : List Entry)
      → find_decimals c a table ≡ some n
      → IsTable table
      → IsVerified c a n
  unfolding find_decimals IsTable IsVerified
  find_decimals-IsVerified c a n [] h v = ground arith
  find_decimals-IsVerified c a n (e ∷ table) h v = elim (Bool-cases (has_key c a e)) [
    | inl same ↦
        let chain : e.chain_id ≡ c = ground (arith, same) in
        let name : e.address ≡ a = ground (arith, same, eq_iff e.address a) in
        let value : e.decimals ≡ n = some_inj (rw same at h) in
        subst (IsVerified c a) value (
          subst (λ b. IsVerified c b e.decimals) name
            (subst (λ k. IsVerified k e.address e.decimals) chain v.0))
    | inr other ↦ find_decimals-IsVerified c a n table (rw other at h) v.1
  ]

  fetch-IsTable :
      (reading : Option ℕ) (c : ℕ) (a : String) (t : Tables)
      → Gives c a reading
      → IsTable t.cache
      → IsTable (fetch_and_cache reading c a t).1.cache
  unfolding fetch_and_cache put drop_key IsTable IsVerified
  fetch-IsTable _ c a t fails v = v
  fetch-IsTable _ c a t (gives read) v = (
    inr read,
    All-keep_if (λ e. IsVerified e.chain_id e.address e.decimals) (λ e. not (has_key c a e)) t.cache
        v,
  )

  get_strict-IsTable :
      (reading : Option ℕ) (c : ℕ) (a : String) (t : Tables)
      → Gives c a reading
      → IsTable t.cache
      → IsTable (get_strict reading c a t).1.cache
  unfolding get_strict
  get_strict-IsTable reading c a t g v = elim (Option-cases (find_decimals c a t.cache)) [
    | inl new ↦ rw (get_strict, new) (fetch-IsTable reading c a t g v)
    | inr (n, known) ↦ rw (get_strict, known) v
  ]

  or_assumed-cache :
      (c : ℕ) (a : String) (out : Option ℕ × Tables) → (or_assumed c a out).1.cache ≡ out.1.cache
  or_assumed-cache c a (none, t) = refl
  or_assumed-cache c a (some n, t) = refl

  get-IsTable :
      (reading : Option ℕ) (c : ℕ) (a : String) (t : Tables)
      → Gives c a reading
      → IsTable t.cache
      → IsTable (get reading c a t).1.cache
  unfolding get
  get-IsTable reading c a t g v = elim (Option-cases (find_decimals c a t.cache)) [
    | inr (n, known) ↦ rw (get, known) v
    | inl new ↦ elim (Option-cases (find_decimals c a t.fallback)) [
      | inr (n, guessed) ↦ rw (get, new, guessed) v
      | inl unknown ↦
          rw (get, new, unknown, or_assumed-cache c a (fetch_and_cache reading c a t))
            (fetch-IsTable reading c a t g v)
    ]
  ]

  Reachable-IsTable : {t : Tables} → Reachable t → IsTable t.cache
  unfolding IsTable
  Reachable-IsTable started = seed-IsTable
  Reachable-IsTable (loose reading c a {t} g r) = get-IsTable reading c a t g (Reachable-IsTable r)
  Reachable-IsTable (strict reading c a {t} g r) =
      get_strict-IsTable reading c a t g (Reachable-IsTable r)
  Reachable-IsTable (stopped r) = tt

  fetched :
      (reading : Option ℕ) (c : ℕ) (a : String) (n : ℕ) (t : Tables)
      → Gives c a reading
      → (fetch_and_cache reading c a t).0 ≡ some n
      → IsVerified c a n
  unfolding fetch_and_cache IsVerified
  fetched _ c a n t fails h = ground arith
  fetched _ c a n t (gives read) h = inr (subst (Read c a) (some_inj h) read)

  -- Whatever the loose path assumed before, get_strict answers with the seed's decimals of the token
  -- or with what a call of its decimals() gave, and never with an assumed value.
  pub get_strict-IsVerified :
      (reading : Option ℕ) (chain_id : ℕ) (address : String) (n : ℕ) {t : Tables}
      → Reachable t
      → Gives chain_id address reading
      → (get_strict reading chain_id address t).0 ≡ some n
      → IsVerified chain_id address n
  unfolding get_strict
  get_strict-IsVerified reading c a n {t} r g h = elim (Option-cases (find_decimals c a t.cache)) [
    | inr (m, known) ↦
        let value : m ≡ n = some_inj (rw (get_strict, known) at h) in
        subst (IsVerified c a) value
          (find_decimals-IsVerified c a m t.cache known (Reachable-IsTable r))
    | inl new ↦ fetched reading c a n t g (rw (get_strict, new) at h)
  ]
