-- ===== src/Delegation/Compiler/Safety.antt =====
-- The guards of `compile_spec`: what a specification that compiles satisfies, and when the compiled
-- delegation expires.
use clawmes.Base.{
  ℕ, ◌+◌, ◌≡◌, refl, ◌∙◌, Bool, true, false, not, Option, some, List, [], ◌∷◌, arith, all, All, ◌≢◌,
  min, ◌++◌,
}
use clawmes.Base.Int.{ℤ, pos, ◌≤ℤ◌}
use clawmes.Delegation.Hex.{Text}
use clawmes.Delegation.Types.{is_supported_chain, root_authority}
use clawmes.Delegation.Encoding.{Codec}
use clawmes.Delegation.Compiler.{
  Erc20Limit, DelegationSpec, built, Draft, empty_draft, CompiledDelegation, add_caveat, is_address,
  add_per_call, add_native_cap, add_limit, add_erc20, add_calls, add_target_list, add_targets,
  add_expiry, finish, draft_of, compile_spec, unsupported_chain,
}
use clawmes.Delegation.Compiler.Laws.{>>=-eq-built, raise_if-eq-built}

-- The caps of a specification lie in the ranges that `compile_spec` demands.
pub record HasValidLimits (accepts : Text → Bool) (spec : DelegationSpec) : Type 0 where
  pub per_call : {wei : ℤ} → spec.native_per_call_wei ≡ some wei → pos 0 ≤ℤ wei
  pub native_cap : {wei : ℤ} → spec.native_cap_wei ≡ some wei → pos 1 ≤ℤ wei
  pub tokens : All (λ l. pos 1 ≤ℤ l.max_amount) spec.erc20
  pub calls : {n : ℤ} → spec.max_calls ≡ some n → pos 1 ≤ℤ n
  pub targets : all accepts spec.allowed_targets_ ≡ true

module _ (codec : Codec) (accepts_int16 : Text → Bool) (salt_from : Text → Text → ℕ → ℤ) where
  add_per_call_valid :
      (spec : DelegationSpec) (d d' : Draft) (wei : ℤ)
      → add_per_call codec accepts_int16 salt_from spec d ≡ built d'
      → spec.native_per_call_wei ≡ some wei
      → pos 0 ≤ℤ wei
  unfolding add_per_call
  add_per_call_valid spec d d' wei h e = ground arith

  add_native_cap_valid :
      (spec : DelegationSpec) (d d' : Draft) (wei : ℤ)
      → add_native_cap codec accepts_int16 salt_from spec d ≡ built d'
      → spec.native_cap_wei ≡ some wei
      → pos 1 ≤ℤ wei
  unfolding add_native_cap
  add_native_cap_valid spec d d' wei h e = ground arith

  add_limit_valid :
      (limit : Erc20Limit) (d d' : Draft)
      → add_limit codec accepts_int16 salt_from limit d ≡ built d'
      → pos 1 ≤ℤ limit.max_amount
  unfolding add_limit
  add_limit_valid limit d d' h = ground arith

  add_erc20_valid :
      (limits : List Erc20Limit) (d d' : Draft)
      → add_erc20 codec accepts_int16 salt_from limits d ≡ built d'
      → All (λ l. pos 1 ≤ℤ l.max_amount) limits
  unfolding add_erc20
  add_erc20_valid [] d d' h = tt
  add_erc20_valid (limit ∷ limits) d d' h =
      let (d1, first, rest) = >>=-eq-built (add_limit codec accepts_int16 salt_from limit d) _ h in
      (add_limit_valid limit d d1 first, add_erc20_valid limits d1 d' rest)

  add_calls_valid :
      (spec : DelegationSpec) (now : ℕ) (d d' : Draft) (n : ℤ)
      → add_calls codec accepts_int16 salt_from spec now d ≡ built d'
      → spec.max_calls ≡ some n
      → pos 1 ≤ℤ n
  unfolding add_calls
  add_calls_valid spec now d d' n h e = ground arith

  add_target_list_valid :
      (targets : List Text) (d d' : Draft)
      → add_target_list codec accepts_int16 salt_from targets d ≡ built d'
      → all (is_address accepts_int16) targets ≡ true
  unfolding add_target_list
  add_target_list_valid [] d d' h = refl
  add_target_list_valid (t ∷ targets) d d' h = ground arith

  -- A specification that compiles is on a supported chain, its per-call cap is not negative, its
  -- other caps are positive, and its targets are addresses.
  pub compile_spec-HasValidLimits :
      (spec : DelegationSpec) (delegate delegator : Text) (chain_id : ℕ) (salt : Option ℤ) (now : ℕ)
      {c : CompiledDelegation}
      → compile_spec codec accepts_int16 salt_from spec delegate delegator chain_id salt now
        ≡ built c
      → (is_supported_chain chain_id ≡ true) × HasValidLimits (is_address accepts_int16) spec
  unfolding compile_spec draft_of add_targets
  compile_spec-HasValidLimits spec delegate delegator chain_id salt now h =
      let (chain, h0) =
        raise_if-eq-built (not (is_supported_chain chain_id)) unsupported_chain _ h in
      let (d, drafted, _) = >>=-eq-built (draft_of codec accepts_int16 salt_from spec now) _ h0 in
      let (d1, e1, h1) =
        >>=-eq-built (add_per_call codec accepts_int16 salt_from spec empty_draft) _ drafted in
      let (d2, e2, h2) = >>=-eq-built (add_native_cap codec accepts_int16 salt_from spec d1) _ h1 in
      let (d3, e3, h3) =
        >>=-eq-built (add_erc20 codec accepts_int16 salt_from spec.erc20 d2) _ h2 in
      let (d4, e4, h4) = >>=-eq-built (add_calls codec accepts_int16 salt_from spec now d3) _ h3 in
      let (d5, e5, _) =
        >>=-eq-built (add_target_list codec accepts_int16 salt_from spec.allowed_targets_ d4) _
          h4 in
      (
        ground arith,
        record {
          per_call = λ {wei} e. add_per_call_valid spec empty_draft d1 wei e1 e;
          native_cap = λ {wei} e. add_native_cap_valid spec d1 d2 wei e2 e;
          tokens = add_erc20_valid spec.erc20 d2 d3 e3;
          calls = λ {n} e. add_calls_valid spec now d3 d4 n e4 e;
          targets = add_target_list_valid spec.allowed_targets_ d4 d5 e5;
        },
      )

  -- A specification that compiles without the escape hatch gives a delegation with a caveat, and it
  -- is a root delegation between the two given parties.
  pub compile_spec-IsRestricted :
      (spec : DelegationSpec) (delegate delegator : Text) (chain_id : ℕ) (salt : Option ℤ) (now : ℕ)
      {c : CompiledDelegation}
      → compile_spec codec accepts_int16 salt_from spec delegate delegator chain_id salt now
        ≡ built c
      → spec.allow_unrestricted ≡ false
      → (c.delegation.caveats ≢ [])
        × (c.delegation.delegate ≡ delegate)
        × (c.delegation.delegator ≡ delegator)
        × (c.delegation.authority ≡ root_authority)
  unfolding compile_spec finish
  compile_spec-IsRestricted spec delegate delegator chain_id salt now h limited =
      let (_, h') = raise_if-eq-built (not (is_supported_chain chain_id)) unsupported_chain _ h in
      let (d, drafted, _) = >>=-eq-built (draft_of codec accepts_int16 salt_from spec now) _ h' in
      ground arith

  add_per_call_ends :
      (spec : DelegationSpec) (d d' : Draft)
      → add_per_call codec accepts_int16 salt_from spec d ≡ built d'
      → d'.expiry_befores ≡ d.expiry_befores
  unfolding add_per_call add_caveat
  add_per_call_ends spec d d' h = ground arith

  add_native_cap_ends :
      (spec : DelegationSpec) (d d' : Draft)
      → add_native_cap codec accepts_int16 salt_from spec d ≡ built d'
      → d'.expiry_befores ≡ d.expiry_befores
  unfolding add_native_cap add_caveat
  add_native_cap_ends spec d d' h = ground arith

  add_limit_ends :
      (limit : Erc20Limit) (d d' : Draft)
      → add_limit codec accepts_int16 salt_from limit d ≡ built d'
      → d'.expiry_befores ≡ d.expiry_befores
  unfolding add_limit add_caveat
  add_limit_ends limit d d' h = ground arith

  add_erc20_ends :
      (limits : List Erc20Limit) (d d' : Draft)
      → add_erc20 codec accepts_int16 salt_from limits d ≡ built d'
      → d'.expiry_befores ≡ d.expiry_befores
  unfolding add_erc20
  add_erc20_ends [] d d' h = ground arith
  add_erc20_ends (limit ∷ limits) d d' h =
      let (d1, first, rest) = >>=-eq-built (add_limit codec accepts_int16 salt_from limit d) _ h in
      add_erc20_ends limits d1 d' rest ∙ add_limit_ends limit d d1 first

  add_calls_ends :
      (spec : DelegationSpec) (now : ℕ) (d d' : Draft) (n : ℤ)
      → add_calls codec accepts_int16 salt_from spec now d ≡ built d'
      → spec.max_calls ≡ some n
      → spec.calls_window_seconds ≢ 0
      → d'.expiry_befores ≡ d.expiry_befores ++ (now + spec.calls_window_seconds) ∷ []
  unfolding add_calls add_caveat
  add_calls_ends spec now d d' n h e window = ground arith

  add_target_list_ends :
      (targets : List Text) (d d' : Draft)
      → add_target_list codec accepts_int16 salt_from targets d ≡ built d'
      → d'.expiry_befores ≡ d.expiry_befores
  unfolding add_target_list add_caveat
  add_target_list_ends [] d d' h = ground arith
  add_target_list_ends (t ∷ targets) d d' h = ground arith

  add_expiry_ends :
      (spec : DelegationSpec) (now : ℕ) (d d' : Draft)
      → add_expiry codec accepts_int16 salt_from spec now d ≡ built d'
      → spec.expiry_seconds ≢ 0
      → d'.expiry_befores ≡ d.expiry_befores ++ (now + spec.expiry_seconds) ∷ []
  unfolding add_expiry add_caveat
  add_expiry_ends spec now d d' h lifetime = ground arith

  draft_of_ends :
      (spec : DelegationSpec) (now : ℕ) (d : Draft) (n : ℤ)
      → draft_of codec accepts_int16 salt_from spec now ≡ built d
      → spec.max_calls ≡ some n
      → spec.calls_window_seconds ≢ 0
      → spec.expiry_seconds ≢ 0
      → d.expiry_befores ≡ (now + spec.calls_window_seconds) ∷ (now + spec.expiry_seconds) ∷ []
  unfolding draft_of add_targets
  draft_of_ends spec now d n drafted calls window lifetime =
      let (d1, e1, h1) =
        >>=-eq-built (add_per_call codec accepts_int16 salt_from spec empty_draft) _ drafted in
      let (d2, e2, h2) = >>=-eq-built (add_native_cap codec accepts_int16 salt_from spec d1) _ h1 in
      let (d3, e3, h3) =
        >>=-eq-built (add_erc20 codec accepts_int16 salt_from spec.erc20 d2) _ h2 in
      let (d4, e4, h4) = >>=-eq-built (add_calls codec accepts_int16 salt_from spec now d3) _ h3 in
      let (d5, e5, h5) =
        >>=-eq-built (add_target_list codec accepts_int16 salt_from spec.allowed_targets_ d4) _
          h4 in
      rw
        (
          add_expiry_ends spec now d5 d h5 lifetime,
          add_target_list_ends spec.allowed_targets_ d4 d5 e5,
          add_calls_ends spec now d3 d4 n e4 calls window,
          add_erc20_ends spec.erc20 d2 d3 e3,
          add_native_cap_ends spec d1 d2 e2,
          add_per_call_ends spec empty_draft d1 e1,
        )
        refl

  -- A delegation with a call window and a lifetime expires at the earlier of the two ends.
  pub compile_spec-earliest_expiry :
      (spec : DelegationSpec) (delegate delegator : Text) (chain_id : ℕ) (salt : Option ℤ) (now : ℕ)
      (n : ℤ) {c : CompiledDelegation}
      → compile_spec codec accepts_int16 salt_from spec delegate delegator chain_id salt now
        ≡ built c
      → spec.max_calls ≡ some n
      → spec.calls_window_seconds ≢ 0
      → spec.expiry_seconds ≢ 0
      → c.expires_at ≡ some (min (now + spec.calls_window_seconds) (now + spec.expiry_seconds))
  unfolding compile_spec finish
  compile_spec-earliest_expiry spec delegate delegator chain_id salt now n h calls window lifetime =
      let (_, h0) = raise_if-eq-built (not (is_supported_chain chain_id)) unsupported_chain _ h in
      let (d, drafted, _) = >>=-eq-built (draft_of codec accepts_int16 salt_from spec now) _ h0 in
      ground (arith, draft_of_ends spec now d n drafted calls window lifetime)
