-- ===== src/Delegation/FromPolicy/Tests.antt =====
-- The large-transfer limit as a delegation.
use clawmes.Base.{◌≡◌, refl, true, none, some, [], ◌∷◌}
use clawmes.Base.Int.{pos}
use clawmes.Policy.Types.{Policy, confirm, has_quantitative_gates}
use clawmes.Delegation.Types.{zero_address, root_authority, is_supported_chain}
use clawmes.Delegation.Encoding.{terms_value_lte}
use clawmes.Delegation.Compiler.{
  CompiledDelegation, built, value_lte, native_per_call, add_caveat, add_per_call, add_native_cap,
  add_erc20, add_calls, add_target_list, add_targets, add_expiry, finish, draft_of, compile_spec,
}
use clawmes.Delegation.Tests.{codec, reads, salt_from, caveat}
use clawmes.Delegation.FromPolicy.{spec_from_policy, spec_from_policy-has_gates}

abbrev limit : Policy
limit = record {
  name = "limit";
  decision = confirm;
  applies_to_tools = "transfer" ∷ [];
  chain_ids = [];
  max_amount_wei = some (pos 50);
  max_per_hour = none;
  description = "";
}

abbrev compiled : CompiledDelegation
compiled = record {
  delegation = record {
    delegate = zero_address;
    delegator = zero_address;
    authority = root_authority;
    caveats = caveat value_lte ∷ [];
    salt = pos 7;
  };
  mapped = native_per_call (pos 50) ∷ [];
  warnings = [];
  expires_at = none;
}

limit_compiles :
    compile_spec codec reads salt_from
      (spec_from_policy limit 0).0
      zero_address
      zero_address
      8453
      none
      1000
    ≡ built compiled
unfolding compile_spec draft_of spec_from_policy add_per_call add_native_cap add_erc20 add_calls
    add_targets add_target_list add_expiry add_caveat finish is_supported_chain terms_value_lte
limit_compiles = refl

spec_from_policy-has_gates_example : has_quantitative_gates limit ≡ true
spec_from_policy-has_gates_example =
    spec_from_policy-has_gates codec reads salt_from limit zero_address zero_address 8453 none 1000
      limit_compiles
