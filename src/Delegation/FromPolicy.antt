-- ===== src/Delegation/FromPolicy.antt =====
-- clawmes/delegation/compiler.py: `spec_from_policy`, which seeds a specification from a policy.
pub mod Tests
use clawmes.Base.{
  ℕ, ◌≡◌, refl, Bool, true, false, Option, none, some, List, [], ◌∷◌, ◌++◌, arith, ◌⊎◌, inl, inr,
  Bool-cases, Option-cases, is_some, not, ◌||◌,
}
use clawmes.Base.Int.{ℤ, pos}
use clawmes.Policy.Types.{Policy, has_quantitative_gates}
use clawmes.Delegation.Hex.{Text}
use clawmes.Delegation.Types.{is_supported_chain}
use clawmes.Delegation.Encoding.{Codec}
use clawmes.Delegation.Compiler.{
  DelegationSpec, CompiledDelegation, built, add_per_call, add_native_cap, add_erc20, add_calls,
  add_target_list, add_targets, add_expiry, finish, draft_of, compile_spec, unsupported_chain,
  unrestricted, raise_if,
}
use clawmes.Delegation.Compiler.Laws.{>>=-eq-built, raise_if-eq-built}

pub data Note : Type 0 where
  hourly_window chain_agnostic : Note

-- The calls of a rate gate, over an hour.
abbrev window_of : Option ℤ → ℕ
window_of none = 0
window_of (some _) = 3600

abbrev window_notes : Option ℤ → List Note
window_notes none = []
window_notes (some _) = hourly_window ∷ []

abbrev chain_notes : List ℤ → List Note
chain_notes [] = chain_agnostic ∷ []
chain_notes (_ ∷ _) = []

unfoldable pub spec_from_policy : Policy → ℕ → DelegationSpec × List Note
spec_from_policy p expiry_seconds = (
  record {
    native_per_call_wei = p.max_amount_wei;
    native_cap_wei = none;
    native_period_seconds = pos 0;
    erc20 = [];
    max_calls = p.max_per_hour;
    calls_window_seconds = window_of p.max_per_hour;
    allowed_targets_ = [];
    expiry_seconds = expiry_seconds;
    allow_unrestricted = false;
  },
  window_notes p.max_per_hour ++ chain_notes p.chain_ids,
)

module _ (codec : Codec) (accepts_int16 : Text → Bool) (salt_from : Text → Text → ℕ → ℤ) where
  -- A policy without a gate and without a lifetime gives no delegation: where the specification
  -- that it seeds compiles, the policy has an amount gate or a rate gate.
  pub spec_from_policy-has_gates :
      (p : Policy) (delegate delegator : Text) (chain_id : ℕ) (salt : Option ℤ) (now : ℕ)
      {c : CompiledDelegation}
      → compile_spec codec accepts_int16 salt_from
          (spec_from_policy p 0).0
          delegate
          delegator
          chain_id
          salt
          now
        ≡ built c
      → has_quantitative_gates p ≡ true
  unfolding compile_spec draft_of spec_from_policy has_quantitative_gates add_per_call
      add_native_cap add_erc20 add_calls add_targets add_target_list add_expiry finish
  spec_from_policy-has_gates p delegate delegator chain_id salt now h =
      elim (Option-cases p.max_amount_wei) [
        | inr (wei, amount) ↦ rw amount refl
        | inl no_amount ↦ elim (Option-cases p.max_per_hour) [
          | inr (n, rate) ↦ rw (no_amount, rate) refl
          | inl no_rate ↦
              let (_, rest) =
                raise_if-eq-built (not (is_supported_chain chain_id)) unsupported_chain _ h in
              let h' = rw (no_amount, no_rate) at rest in ground arith
        ]
      ]
