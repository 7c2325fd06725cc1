-- ===== src/Dca/Valid.antt =====
-- The values that `add` and `edit` store are within their bounds.
pub mod Kept
pub mod Commands
pub mod Reached
use clawmes.Base.{
  ℕ, ◌+◌, ◌≤◌, ◌≡◌, refl, sym, subst, inl, inr, String, Bool, true, false, Option, none, some, List,
  [], ◌∷◌, ◌++◌, arith, Bool-cases, Option-cases, str_eq, lookup, leb, ◌&&◌, if◌then◌else◌, not,
  ◌||◌,
}
use clawmes.Base.Check.{Check, bad, good, ◌>>=◌, or_refuse, flag_or, bind_good, good_inj}
use clawmes.Base.Int.{ℤ, pos, negsuc}
use clawmes.Delegation.Hex.{codes}
use clawmes.TokenGate.{Tier, holder, is_tier}
use clawmes.Dca.Interval.{parse_interval}
use clawmes.Dca.Interval.RoundTrip.{IsInterval, parse_interval-IsInterval}
use clawmes.Dca.{
  Values, Schedule, default_slippage_bps, default_max_failures, Refusal, bad_interval, not_a_number,
  not_positive, bad_slippage, bad_max_failures, needs_holder,
}
use clawmes.Dca.Edit.{cap_or_none}
use clawmes.Dca.Add.{positive_eth, slippage_of, max_failures_of, interval_of, cap_of}

module _ {F : Type 0} (values : Values F) where
  -- An optional cap is positive.
  unfoldable pub IsCap : Option F → Type 0
  IsCap c = (cap : F) → c ≡ some cap → values.is_positive cap ≡ true

  -- The bounds that `_cmd_add` documents.
  unfoldable pub IsValid : Schedule F → Type 0
  IsValid s =
      IsInterval s.interval_seconds
      × (s.slippage_bps ≤ 10_000)
      × (1 ≤ s.max_consecutive_failures)
      × (values.is_positive s.eth_amount ≡ true)
      × IsCap s.daily_cap_eth
      × IsCap s.max_eth_total

  pub positive_eth-good :
      (text : String) (f : F) → positive_eth values text ≡ good f → values.is_positive f ≡ true
  unfolding positive_eth
  positive_eth-good text f h =
      let (g, _, e) = bind_good (or_refuse not_a_number (values.float_of text)) _ h in
      ground (arith, e)

  pub slippage_of-good : (text : String) (n : ℕ) → slippage_of values text ≡ good n → n ≤ 10_000
  unfolding slippage_of
  slippage_of-good text n h =
      let (g, _, e) = bind_good (or_refuse bad_slippage (values.int_of text)) _ h in
      ground (arith, e)

  pub max_failures_of-good : (text : String) (n : ℕ) → max_failures_of values text ≡ good n → 1 ≤ n
  unfolding max_failures_of
  max_failures_of-good text n h =
      let (g, _, e) = bind_good (or_refuse bad_max_failures (values.int_of text)) _ h in
      ground (arith, e)

  pub interval_of-good : (text : String) (n : ℕ) → interval_of values text ≡ good n → IsInterval n
  unfolding interval_of
  interval_of-good text n h = elim (Option-cases (parse_interval values.classes (codes text))) [
    | inl unread ↦ (let never : bad bad_interval ≡ good n = rw unread at h in ground arith)
    | inr (s, e) ↦
        let same : s ≡ n = good_inj s n (rw e at h) in
        subst IsInterval same (parse_interval-IsInterval values.classes (codes text) s e)
  ]

  some-IsCap : (f : F) → values.is_positive f ≡ true → IsCap (some f)
  unfolding IsCap
  some-IsCap f h cap e = let same : f ≡ cap = cc in rw (sym same) h

  pub none-IsCap : IsCap none
  unfolding IsCap
  none-IsCap cap e = ground arith

  pub cap_of-good : (text : String) (c : Option F) → cap_of values text ≡ good c → IsCap c
  unfolding cap_of
  cap_of-good text c h =
      let (f, e, last) = bind_good (positive_eth values text) _ h in
      subst IsCap (good_inj (some f) c last) (some-IsCap f (positive_eth-good text f e))

  pub cap_or_none-good : (text : String) (c : Option F) → cap_or_none values text ≡ good c → IsCap c
  unfolding cap_or_none
  cap_or_none-good text c h = elim (Bool-cases (str_eq (values.lower text) "none")) [
    | inl off ↦
        let same : none ≡ c = good_inj none c (rw (cap_or_none, off) at h) in
        subst IsCap same none-IsCap
    | inr number ↦ cap_of-good text c (rw (cap_or_none, number) at h)
  ]

  -- A flag that keeps a property of its value keeps it with a default that has it.
  pub flag_or-good {ℓ} :
      {A : Type ℓ} (P : A → Type 0) (default : A) (read : String → Check Refusal A)
      (flag : Option String) (a : A)
      → P default
      → ((text : String) (b : A) → read text ≡ good b → P b)
      → flag_or default read flag ≡ good a
      → P a
  flag_or-good P default read none a p q h = subst P (good_inj default a h) p
  flag_or-good P default read (some text) a p q h = q text a h
