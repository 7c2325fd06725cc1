-- ===== src/Delegation/Tests.antt =====
-- The delegation stack on concrete specifications, records and calls.
use clawmes.Base.{
  ℕ, ◌<◌, ◌≡◌, refl, ◌≢◌, Bool, true, false, none, some, [], ◌∷◌, ◌++◌, arith, All, replicate,
}
use clawmes.Base.Int.{ℤ, pos}
use clawmes.Delegation.Hex.{Text, Bytes, codes, from_hex, hex}
use clawmes.Delegation.Types.{Caveat, zero_address, root_authority, is_supported_chain}
use clawmes.Delegation.Encoding.{
  Codec, to_raw, addr_bytes, encode_erc20_approve, terms_value_lte, terms_limited_calls,
  terms_timestamp,
}
use clawmes.Delegation.Fill.{fill_delegator}
use clawmes.Delegation.Fill.Revoke.{from_big_endian, revoke-becomes_approval}
use clawmes.Delegation.Compiler.{
  Enforcer, native_per_call, total_calls, call_window, expires_in, value_lte, limited_calls,
  timestamp, enforcer_address, DelegationSpec, CompiledDelegation, built, add_caveat, is_address,
  add_per_call, add_native_cap, add_erc20, add_calls, add_target_list, add_targets, add_expiry,
  finish, draft_of, compile_spec, window_expires,
}
use clawmes.Delegation.Compiler.Preview.{AllDescribed, compile_spec-lists_caveats}
use clawmes.Delegation.Compiler.Safety.{
  HasValidLimits, compile_spec-HasValidLimits, compile_spec-IsRestricted,
}

abbrev pub codec : Codec
codec = record { abi_encode = λ values. some []; selector = λ signature. codes "0x" }

abbrev pub reads : Text → Bool
reads s = true

abbrev pub salt_from : Text → Text → ℕ → ℤ
salt_from delegate delegator now = pos 7

abbrev spec : DelegationSpec
spec = record {
  native_per_call_wei = some (pos 5);
  native_cap_wei = none;
  native_period_seconds = pos 0;
  erc20 = [];
  max_calls = some (pos 3);
  calls_window_seconds = 100;
  allowed_targets_ = [];
  expiry_seconds = 50;
  allow_unrestricted = false;
}

abbrev pub caveat : Enforcer → Caveat
caveat e = record { enforcer = enforcer_address e; terms = codes "0x"; args = codes "0x" }

abbrev compiled : CompiledDelegation
compiled = record {
  delegation = record {
    delegate = zero_address;
    delegator = zero_address;
    authority = root_authority;
    caveats = caveat value_lte ∷ caveat limited_calls ∷ caveat timestamp ∷ caveat timestamp ∷ [];
    salt = pos 7;
  };
  mapped = native_per_call (pos 5) ∷ total_calls (pos 3) ∷ call_window 100 ∷ expires_in 50 ∷ [];
  warnings = window_expires ∷ [];
  expires_at = some 1050;
}

spec_compiles :
    compile_spec codec reads salt_from spec zero_address zero_address 8453 none 1000
    ≡ built compiled
unfolding compile_spec draft_of add_per_call add_native_cap add_erc20 add_calls add_targets
    add_expiry add_caveat finish is_supported_chain terms_value_lte terms_limited_calls
    terms_timestamp add_target_list
spec_compiles = refl

compile_spec-lists_caveats_example :
    AllDescribed codec [] 1000 compiled.mapped compiled.delegation.caveats
compile_spec-lists_caveats_example =
    compile_spec-lists_caveats codec reads salt_from spec zero_address zero_address 8453 none 1000
      spec_compiles

compile_spec-HasValidLimits_example :
    (is_supported_chain 8453 ≡ true) × HasValidLimits (is_address reads) spec
compile_spec-HasValidLimits_example =
    compile_spec-HasValidLimits codec reads salt_from spec zero_address zero_address 8453 none 1000
      spec_compiles

compile_spec-IsRestricted_example :
    (compiled.delegation.caveats ≢ [])
    × (compiled.delegation.delegate ≡ zero_address)
    × (compiled.delegation.delegator ≡ zero_address)
    × (compiled.delegation.authority ≡ root_authority)
compile_spec-IsRestricted_example =
    compile_spec-IsRestricted codec reads salt_from spec zero_address zero_address 8453 none 1000
      spec_compiles refl

-- A spender whose bytes are all 0x11, and a delegator whose bytes are all 0x22.
abbrev spender : Text
spender = codes "0x1111111111111111111111111111111111111111"

abbrev nineteen : Bytes
nineteen = replicate 19 17

abbrev delegator : Bytes
delegator = replicate 20 34

spender_bytes : addr_bytes spender ≡ some (nineteen ++ 17 ∷ [])
unfolding addr_bytes to_raw from_hex
spender_bytes = refl

in_range : All (λ y. y < 256) delegator
in_range = ground arith

revoke-becomes_approval_example :
    (sent : Text) × (encode_erc20_approve spender (pos 0) ≡ some sent)
    × (encode_erc20_approve spender (pos (from_big_endian 0 delegator))
        ≡ some (fill_delegator sent (codes "0x" ++ hex delegator)))
revoke-becomes_approval_example =
    revoke-becomes_approval spender nineteen delegator 17 spender_bytes (λ e. ground arith) refl
      in_range
