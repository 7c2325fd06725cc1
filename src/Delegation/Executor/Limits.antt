-- ===== src/Delegation/Executor/Limits.antt =====
-- The rate limiter: no key ever has more than three attempts on record.
use clawmes.Base.{
  ℕ, ◌+◌, ◌≤◌, ◌<◌, ◌≡◌, refl, sym, ap, ◌∙◌, ◌⊎◌, inl, inr, String, Bool, true, false, some, List,
  [], ◌∷◌, ◌++◌, arith, All, length, ltb, keep_if, length-append, length-keep_if-le, subst, eq_refl,
  lookup-insert, lookup, insert, erase, str_eq, Bool-cases, Option-cases,
}
use clawmes.Base.Int.{ℤ}
use clawmes.Policy.Types.{Args, ActionContext}
use clawmes.Delegation.Types.{DelegationRecord, ExecutionAction}
use clawmes.Delegation.Store.{list_records}
use clawmes.Delegation.Service.{Chain, Refusal, Redemption, redeemed, refused, broken, redeem}
use clawmes.Delegation.Extractors.{Extracted, not_applicable, raised, action}
use clawmes.Delegation.Executor.{
  Attempts, or_empty, recent, rate_limited, record_attempt, clear_attempts, rate_key, rate_window,
  Executor, Env, is_expired, is_plain, chain_of, filled, find_matching, attempt, guarded,
  with_record, with_extractor, try_delegation_execution,
}

-- At most three attempts under every key.
abbrev pub IsBounded : Attempts → Type 0
IsBounded attempts = All (λ e. length e.1 ≤ 3) attempts

insert-IsBounded :
    (key : String) (times : List ℕ) (attempts : Attempts)
    → length times ≤ 3
    → IsBounded attempts
    → IsBounded (insert key times attempts)
insert-IsBounded key times [] le b = (le, tt)
insert-IsBounded key times ((k, old) ∷ attempts) le b = elim (Bool-cases (str_eq k key)) [
  | inl same ↦ rw same (le, b.1)
  | inr other ↦ rw other (b.0, insert-IsBounded key times attempts le b.1)
]

erase-IsBounded :
    (key : String) (attempts : Attempts) → IsBounded attempts → IsBounded (erase key attempts)
erase-IsBounded key [] b = tt
erase-IsBounded key ((k, old) ∷ attempts) b = elim (Bool-cases (str_eq k key)) [
  | inl same ↦ rw same (erase-IsBounded key attempts b.1)
  | inr other ↦ rw other (b.0, erase-IsBounded key attempts b.1)
]

lookup-IsBounded :
    (key : String) (attempts : Attempts)
    → IsBounded attempts
    → length (or_empty (lookup key attempts)) ≤ 3
lookup-IsBounded key [] b = omega arith
lookup-IsBounded key ((k, old) ∷ attempts) b = elim (Bool-cases (str_eq k key)) [
  | inl same ↦ rw same b.0
  | inr other ↦ rw other (lookup-IsBounded key attempts b.1)
]

recent-le :
    (key : String) (now : ℕ) (attempts : Attempts)
    → IsBounded attempts
    → length (recent key now attempts) ≤ 3
unfolding recent
recent-le key now attempts b = omega (
  arith,
  lookup-IsBounded key attempts b,
  length-keep_if-le (λ t. ltb now (t + rate_window)) (or_empty (lookup key attempts)),
)

rate_limited-IsBounded :
    (key : String) (now : ℕ) (attempts : Attempts)
    → IsBounded attempts
    → IsBounded (rate_limited key now attempts).1
unfolding rate_limited
rate_limited-IsBounded key now attempts b =
    insert-IsBounded key (recent key now attempts) attempts (recent-le key now attempts b) b

record_attempt-IsBounded :
    (key : String) (now : ℕ) (attempts : Attempts)
    → length (recent key now attempts) < 3
    → IsBounded attempts
    → IsBounded (record_attempt key now attempts)
unfolding record_attempt
record_attempt-IsBounded key now attempts lt b =
    insert-IsBounded key (recent key now attempts ++ now ∷ []) attempts
      (omega (arith, length-append (recent key now attempts) (now ∷ []))) b

-- Keeping the fresh time stamps twice is keeping them once.
keep_if-keep_if :
    (keep : ℕ → Bool) (times : List ℕ) → keep_if keep (keep_if keep times) ≡ keep_if keep times
keep_if-keep_if keep [] = refl
keep_if-keep_if keep (t ∷ times) = elim (Bool-cases (keep t)) [
  | inl kept ↦ rw (kept, kept) (ap (λ l. t ∷ l) (keep_if-keep_if keep times))
  | inr dropped ↦ rw dropped (keep_if-keep_if keep times)
]

recent-rate_limited :
    (key : String) (now : ℕ) (attempts : Attempts)
    → recent key now (rate_limited key now attempts).1 ≡ recent key now attempts
unfolding recent rate_limited
recent-rate_limited key now attempts =
    let fresh : ℕ → Bool = λ t. ltb now (t + rate_window) in
    let times : List ℕ = or_empty (lookup key attempts) in
    let itself : str_eq key key ≡ true = eq_refl key in
    let found : lookup key (insert key (keep_if fresh times) attempts)
        ≡ some (keep_if fresh times) =
      rw itself at (lookup-insert key key (keep_if fresh times) attempts) in
    ap (λ o. keep_if fresh (or_empty o)) found ∙ keep_if-keep_if fresh times

-- Under the limit there is room for one more.
pub rate_limited_room :
    (key : String) (now : ℕ) (attempts : Attempts)
    → (rate_limited key now attempts).0 ≡ false
    → length (recent key now attempts) < 3
unfolding rate_limited
rate_limited_room key now attempts h = ground arith

-- The limiter's answer and its note keep the bound.
admitted-IsBounded :
    (key : String) (now : ℕ) (attempts : Attempts)
    → (rate_limited key now attempts).0 ≡ false
    → IsBounded attempts
    → IsBounded (record_attempt key now (rate_limited key now attempts).1)
admitted-IsBounded key now attempts h b =
    record_attempt-IsBounded key now (rate_limited key now attempts).1
      (subst (λ l. length l < 3) (sym (recent-rate_limited key now attempts))
        (rate_limited_room key now attempts h))
      (rate_limited-IsBounded key now attempts b)

pub Redemption-cases :
    (x : Redemption)
    → ((t : String) × (c : ℕ) × (x ≡ redeemed t c))
      ⊎ (((f : Refusal) × (x ≡ refused f)) ⊎ (x ≡ broken))
Redemption-cases (redeemed t c) = inl (t, c, refl)
Redemption-cases (refused f) = inr (inl (f, refl))
Redemption-cases broken = inr (inr refl)

pub Extracted-cases :
    (x : Extracted)
    → (x ≡ not_applicable) ⊎ ((x ≡ raised) ⊎ ((a : ExecutionAction) × (x ≡ action a)))
Extracted-cases not_applicable = inl refl
Extracted-cases raised = inr (inl refl)
Extracted-cases (action a) = inr (inr (a, refl))

module _ {ℓ} {W : Type ℓ} (chain : Chain W) (env : Env W) where
  attempt-IsBounded :
      (r : DelegationRecord) (a : ExecutionAction) (key : String) (st : Executor W)
      → IsBounded (record_attempt key (env.monotonic st.world) st.attempts)
      → IsBounded (attempt chain env r a key st).1.attempts
  unfolding attempt clear_attempts
  attempt-IsBounded r a key st b =
      elim (Redemption-cases (redeem chain r a (st.store, st.world)).0) [
        | inl (t, c, e) ↦ rw (attempt, e) (erase-IsBounded key _ b)
        | inr (inl (f, e)) ↦ rw (attempt, e) b
        | inr (inr e) ↦ rw (attempt, e) b
      ]

  guarded-IsBounded :
      (ctx : ActionContext) (r : DelegationRecord) (a : ExecutionAction) (st : Executor W)
      → IsBounded st.attempts
      → IsBounded (guarded chain env ctx r a st).1.attempts
  unfolding guarded
  guarded-IsBounded ctx r a st b =
      let key : String = rate_key ctx.user_id ctx.tool_name in
      let now : ℕ = env.monotonic st.world in
      elim (Bool-cases (is_expired chain env r st.world)) [
        | inl stale ↦ rw (guarded, stale) b
        | inr fresh ↦
            elim (Bool-cases (
              is_plain (
                env.get_code r.delegation.delegator (chain_of ctx.chain_id r.chain_id) st.world))) [
                  | inl plain ↦ rw (guarded, fresh, plain) b
                  | inr smart ↦ elim (Bool-cases (rate_limited key now st.attempts).0) [
                    | inl limited ↦
                        rw (guarded, fresh, smart, limited)
                          (rate_limited-IsBounded key now st.attempts b)
                    | inr admitted ↦
                        rw (guarded, fresh, smart, admitted)
                          (attempt-IsBounded r a key _
                            (admitted-IsBounded key now st.attempts admitted b))
                  ]
                ]
      ]

  with_record-IsBounded :
      (extractor : Args → ℤ → Extracted) (ctx : ActionContext) (args : Args) (r : DelegationRecord)
      (st : Executor W)
      → IsBounded st.attempts
      → IsBounded (with_record chain env extractor ctx args r st).1.attempts
  unfolding with_record
  with_record-IsBounded extractor ctx args r st b =
      elim (Extracted-cases (extractor args (chain_of ctx.chain_id r.chain_id))) [
        | inl e ↦ rw (with_record, e) b
        | inr (inl e) ↦ rw (with_record, e) b
        | inr (inr (a, e)) ↦ rw (with_record, e) (guarded-IsBounded ctx r (filled r a) st b)
      ]

  with_extractor-IsBounded :
      (extractor : Args → ℤ → Extracted) (ctx : ActionContext) (args : Args) (st : Executor W)
      → IsBounded st.attempts
      → IsBounded (with_extractor chain env extractor ctx args st).1.attempts
  unfolding with_extractor
  with_extractor-IsBounded extractor ctx args st b =
      elim (Option-cases (find_matching ctx (list_records chain.python st.store).0)) [
        | inl e ↦ rw (with_extractor, e) b
        | inr (r, e) ↦ rw (with_extractor, e) (with_record-IsBounded extractor ctx args r _ b)
      ]

  -- An execution attempt keeps the number of attempts on record under every key at three or fewer.
  pub try_delegation_execution-IsBounded :
      (extractors : List (String × (Args → ℤ → Extracted))) (ctx : ActionContext) (args : Args)
      (st : Executor W)
      → IsBounded st.attempts
      → IsBounded (try_delegation_execution chain env extractors ctx args st).1.attempts
  unfolding try_delegation_execution
  try_delegation_execution-IsBounded extractors ctx args st b =
      elim (Bool-cases (env.kill_switch st.world)) [
        | inl off ↦ rw (try_delegation_execution, off) b
        | inr on ↦ elim (Option-cases (lookup ctx.tool_name extractors)) [
          | inl e ↦ rw (try_delegation_execution, on, e) b
          | inr (extractor, e) ↦
              rw (try_delegation_execution, on, e)
                (with_extractor-IsBounded extractor ctx args st b)
        ]
      ]
