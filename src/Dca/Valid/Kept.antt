-- ===== src/Dca/Valid/Kept.antt =====
-- The schedule that `add` appends is valid, and a change of `edit` keeps a schedule valid.
use clawmes.Base.{
  ℕ, ◌≤◌, ◌≡◌, subst, inl, inr, String, none, List, arith, Bool-cases, str_eq, lookup, not, ◌||◌,
}
use clawmes.Base.Check.{Check, good, ◌>>=◌, flag_or, bind_good, good_inj}
use clawmes.TokenGate.{Tier, holder, is_tier}
use clawmes.Dca.{
  Values, Schedule, default_slippage_bps, default_max_failures, Refusal, needs_holder,
}
use clawmes.Dca.Edit.{cap_or_none, edit_of}
use clawmes.Dca.Add.{
  positive_eth, slippage_of, max_failures_of, interval_of, cap_of, token_of, conditional_flag,
  new_schedule, used_safeguards, unless,
}
use clawmes.Dca.Valid.{
  IsCap, IsValid, positive_eth-good, slippage_of-good, max_failures_of-good, interval_of-good,
  cap_of-good, cap_or_none-good, flag_or-good, none-IsCap,
}

module _ {F : Type 0} (values : Values F) where
  pub new_schedule-IsValid :
      (tier : Tier) (sender token amount interval : String) (flags : List (String × String))
      (id created_at : String) (now : ℕ) (s : Schedule F)
      → new_schedule values tier sender token amount interval flags id created_at now ≡ good s
      → IsValid values s
  unfolding new_schedule IsValid
  new_schedule-IsValid tier sender token amount interval flags id created_at now s h0 =
      let (_, _, h1) =
        bind_good (unless (not (used_safeguards flags) || is_tier holder tier) needs_holder) _ h0 in
      let (_, _, h2) = bind_good (token_of values token) _ h1 in
      let (eth, e_eth, h3) = bind_good (positive_eth values amount) _ h2 in
      let (secs, e_secs, h4) = bind_good (interval_of values interval) _ h3 in
      let (bps, e_bps, h5) =
        bind_good (flag_or default_slippage_bps (slippage_of values) (lookup "slippage" flags)) _
          h4 in
      let (daily, e_daily, h6) =
        bind_good (flag_or none (cap_of values) (lookup "daily-cap" flags)) _ h5 in
      let (total, e_total, h7) =
        bind_good (flag_or none (cap_of values) (lookup "max-total" flags)) _ h6 in
      let (fails, e_fails, h8) =
        bind_good
          (flag_or default_max_failures (max_failures_of values) (lookup "max-failures" flags)) _
          h7 in
      let (_, _, h9) =
        bind_good (flag_or none (conditional_flag values tier) (lookup "conditional" flags)) _ h8 in
      subst (IsValid values) (good_inj _ s h9) (
        interval_of-good values interval secs e_secs,
        flag_or-good values (λ n. n ≤ 10_000) default_slippage_bps (slippage_of values)
            (lookup "slippage" flags) bps (omega arith) (slippage_of-good values) e_bps,
        flag_or-good values (λ n. 1 ≤ n) default_max_failures (max_failures_of values)
            (lookup "max-failures" flags) fails (omega arith) (max_failures_of-good values) e_fails,
        positive_eth-good values amount eth e_eth,
        flag_or-good values (IsCap values) none (cap_of values) (lookup "daily-cap" flags) daily
            (none-IsCap values) (cap_of-good values) e_daily,
        flag_or-good values (IsCap values) none (cap_of values) (lookup "max-total" flags) total
            (none-IsCap values) (cap_of-good values) e_total,
      )

  -- A change that stores a value which a check gives.
  stored {ℓ} :
      {A : Type ℓ} (c : Check Refusal A) (set : A → Schedule F → Schedule F)
      (change : Schedule F → Schedule F) (s : Schedule F)
      → (c >>= λ a. good (set a)) ≡ good change
      → ((a : A) → c ≡ good a → IsValid values (set a s))
      → IsValid values (change s)
  stored c set change s h v =
      let (a, e, last) = bind_good c _ h in
      subst (λ f. IsValid values (f s)) (good_inj (set a) change last) (v a e)

  pub edit_of-IsValid :
      (field value : String) (change : Schedule F → Schedule F) (s : Schedule F)
      → edit_of values field value ≡ good change
      → IsValid values s
      → IsValid values (change s)
  unfolding edit_of IsValid
  edit_of-IsValid field value change s h (secs, bps, fails, eth, daily, total) =
      elim (Bool-cases (str_eq field "token")) [
        | inl a ↦
            stored (token_of values value) (λ t s. record s { token = t }) change s
              (rw (edit_of, a) at h) (λ _ _. (secs, bps, fails, eth, daily, total))
        | inr a ↦ elim (Bool-cases (str_eq field "eth_amount")) [
          | inl b ↦
              stored (positive_eth values value) (λ f s. record s { eth_amount = f }) change s
                (rw (edit_of, a, b) at h)
                (λ f e. (secs, bps, fails, positive_eth-good values value f e, daily, total))
          | inr b ↦ elim (Bool-cases (str_eq field "interval")) [
            | inl c ↦
                stored (interval_of values value) (λ n s. record s { interval_seconds = n }) change
                  s (rw (edit_of, a, b, c) at h)
                  (λ n e. (interval_of-good values value n e, bps, fails, eth, daily, total))
            | inr c ↦ elim (Bool-cases (str_eq field "slippage_bps")) [
              | inl d ↦
                  stored (slippage_of values value) (λ n s. record s { slippage_bps = n }) change s
                    (rw (edit_of, a, b, c, d) at h)
                    (λ n e. (secs, slippage_of-good values value n e, fails, eth, daily, total))
              | inr d ↦ elim (Bool-cases (str_eq field "daily_cap_eth")) [
                | inl f ↦
                    stored (cap_or_none values value) (λ k s. record s { daily_cap_eth = k }) change
                      s (rw (edit_of, a, b, c, d, f) at h)
                      (λ k e. (secs, bps, fails, eth, cap_or_none-good values value k e, total))
                | inr f ↦ elim (Bool-cases (str_eq field "max_eth_total")) [
                  | inl g ↦
                      stored (cap_or_none values value) (λ k s. record s { max_eth_total = k })
                        change s (rw (edit_of, a, b, c, d, f, g) at h)
                        (λ k e. (secs, bps, fails, eth, daily, cap_or_none-good values value k e))
                  | inr g ↦
                      stored (max_failures_of values value)
                        (λ n s. record s { max_consecutive_failures = n }) change s
                        (rw (edit_of, a, b, c, d, f, g) at h)
                        (λ n e.
                          (secs, bps, max_failures_of-good values value n e, eth, daily, total))
                ]
              ]
            ]
          ]
        ]
      ]
