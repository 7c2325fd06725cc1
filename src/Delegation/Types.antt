-- ===== src/Delegation/Types.antt =====
-- clawmes/delegation/types.py: caveats, delegations and the stored record. Addresses, terms and
-- hashes are texts (lists of code points), since the encoder walks them; ids, tool names and time
-- stamps are native texts.
use clawmes.Base.{ℕ, String, Bool, true, false, ◌||◌, List, [], ◌∷◌, ◌++◌, ◌==◌, replicate}
use clawmes.Base.Int.{ℤ}
use clawmes.Delegation.Hex.{Text, codes}

pub data Status : Type 0 where
  unsigned signed active revoked expired : Status

pub data Kind : Type 0 where
  eip7710 eip7715 : Kind

pub record Caveat : Type 0 where
  pub enforcer : Text
  pub terms : Text
  pub args : Text

pub record UnsignedDelegation : Type 0 where
  pub delegate : Text
  pub delegator : Text
  pub authority : Text
  pub caveats : List Caveat
  pub salt : ℤ

pub record SignedDelegation : Type 0 where
  pub delegate : Text
  pub delegator : Text
  pub authority : Text
  pub caveats : List Caveat
  pub salt : ℤ
  pub signature : Text

unfoldable pub from_unsigned : UnsignedDelegation → Text → SignedDelegation
from_unsigned u signature = record {
  delegate = u.delegate;
  delegator = u.delegator;
  authority = u.authority;
  caveats = u.caveats;
  salt = u.salt;
  signature = signature;
}

pub record DelegationRecord : Type 0 where
  pub id : String
  pub chain_id : ℕ
  pub delegation : SignedDelegation
  pub status : Status
  pub hash : Text
  pub policy_name : String
  pub tools : List String
  pub permissions_context : Text
  pub expires_at : String
  pub unmapped : List String
  pub created_at : String
  pub last_checked_at : String
  pub kind : Kind

-- `status in ("signed", "active")`
abbrev pub redeemable_status : Status → Bool
redeemable_status signed = true
redeemable_status active = true
redeemable_status _ = false

unfoldable pub is_redeemable : DelegationRecord → Bool
is_redeemable r = redeemable_status r.status

pub record ExecutionAction : Type 0 where
  pub target : Text
  pub value : ℤ
  pub call_data : Text

-- The chains on which the framework is deployed.
abbrev pub supported_chain_ids : List ℕ
supported_chain_ids = 1 ∷ 8453 ∷ 42161 ∷ 10 ∷ 137 ∷ 59144 ∷ 11155111 ∷ 84532 ∷ []

abbrev pub among : ℕ → List ℕ → Bool
among n [] = false
among n (m ∷ ms) = n == m || among n ms

unfoldable pub is_supported_chain : ℕ → Bool
is_supported_chain chain_id = among chain_id supported_chain_ids

abbrev pub root_authority : Text
root_authority = codes "0x" ++ replicate 64 b'f'

abbrev pub execute_mode_default : Text
execute_mode_default = codes "0x" ++ replicate 64 b'0'

abbrev pub zero_address : Text
zero_address = codes "0x" ++ replicate 40 b'0'

abbrev pub delegation_manager : Text
delegation_manager = codes "0xdb9B1e94B5b69Df7e401DDbedE43491141047dB3"
