-- ===== src/Delegation/Dicts.antt =====
-- clawmes/delegation/store.py: `record_to_dict` and `record_from_dict`. A dict that `json` has read
-- is a record with an optional field for each key that the code reads; a missing key is `none`. Values
-- of other types than `record_to_dict` writes are left out, but for a salt that is a number.
pub mod RoundTrip
use clawmes.Base.{ℕ, String, Bool, Option, none, some, List, [], ◌∷◌, map}
use clawmes.Base.Int.{ℤ}
use clawmes.Delegation.Hex.{Text, codes, ◌>>=◌}
use clawmes.Delegation.Types.{
  Status, signed, Kind, eip7710, Caveat, SignedDelegation, DelegationRecord,
}

-- What the store uses of Python: `c.isalnum()`, `hex(n)`, and `int(s, 16)`, `none` for a ValueError.
pub record Python : Type 0 where
  pub alnum : ℕ → Bool
  pub hex_of : ℤ → Text
  pub int16 : Text → Option ℤ

pub record CaveatDict : Type 0 where
  pub enforcer : Option Text
  pub terms : Option Text
  pub args : Option Text

pub data Salt : Type 0 where
  digits : Text → Salt
  number : ℤ → Salt

pub record DelegationDict : Type 0 where
  pub delegate : Option Text
  pub delegator : Option Text
  pub authority : Option Text
  pub caveats : Option (List CaveatDict)
  pub salt : Option Salt
  pub signature : Option Text

pub record RecordDict : Type 0 where
  pub id : Option String
  pub chain_id : Option ℕ
  pub status : Option Status
  pub hash : Option Text
  pub policy_name : Option String
  pub tools : Option (List String)
  pub permissions_context : Option Text
  pub expires_at : Option String
  pub unmapped : Option (List String)
  pub created_at : Option String
  pub last_checked_at : Option String
  pub kind : Option Kind
  pub delegation : Option DelegationDict

-- `data.get(key, default)`
abbrev pub get_or {ℓ} : {A : Type ℓ} → A → Option A → A
get_or default none = default
get_or default (some a) = a

unfoldable pub caveat_to_dict : Caveat → CaveatDict
caveat_to_dict c = record { enforcer = some c.enforcer; terms = some c.terms; args = some c.args }

unfoldable pub caveat_from_dict : CaveatDict → Option Caveat
caveat_from_dict c = do
  enforcer ← c.enforcer
  terms ← c.terms
  some record { enforcer = enforcer; terms = terms; args = get_or (codes "0x") c.args }

unfoldable pub caveats_from_dicts : List CaveatDict → Option (List Caveat)
caveats_from_dicts [] = some []
caveats_from_dicts (c ∷ dicts) = do
  caveat ← caveat_from_dict c
  caveats ← caveats_from_dicts dicts
  some (caveat ∷ caveats)

unfoldable pub delegation_to_dict : Python → SignedDelegation → DelegationDict
delegation_to_dict py d = record {
  delegate = some d.delegate;
  delegator = some d.delegator;
  authority = some d.authority;
  caveats = some (map caveat_to_dict d.caveats);
  salt = some (digits (py.hex_of d.salt));
  signature = some d.signature;
}

-- `int(d["salt"], 16) if isinstance(d["salt"], str) else int(d["salt"])`
unfoldable pub salt_from : Python → Salt → Option ℤ
salt_from py (digits s) = py.int16 s
salt_from py (number n) = some n

unfoldable pub delegation_from_dict : Python → DelegationDict → Option SignedDelegation
delegation_from_dict py d = do
  delegate ← d.delegate
  delegator ← d.delegator
  authority ← d.authority
  dicts ← d.caveats
  caveats ← caveats_from_dicts dicts
  written ← d.salt
  salt ← salt_from py written
  signature ← d.signature
  some record {
    delegate = delegate;
    delegator = delegator;
    authority = authority;
    caveats = caveats;
    salt = salt;
    signature = signature;
  }

unfoldable pub record_to_dict : Python → DelegationRecord → RecordDict
record_to_dict py r = record {
  id = some r.id;
  chain_id = some r.chain_id;
  status = some r.status;
  hash = some r.hash;
  policy_name = some r.policy_name;
  tools = some r.tools;
  permissions_context = some r.permissions_context;
  expires_at = some r.expires_at;
  unmapped = some r.unmapped;
  created_at = some r.created_at;
  last_checked_at = some r.last_checked_at;
  kind = some r.kind;
  delegation = some (delegation_to_dict py r.delegation);
}

-- `none` is a KeyError or a ValueError.
unfoldable pub record_from_dict : Python → RecordDict → Option DelegationRecord
record_from_dict py data_ = do
  d ← data_.delegation
  delegation ← delegation_from_dict py d
  id ← data_.id
  chain_id ← data_.chain_id
  some record {
    id = id;
    chain_id = chain_id;
    delegation = delegation;
    status = get_or signed data_.status;
    hash = get_or (codes "0x") data_.hash;
    policy_name = get_or "" data_.policy_name;
    tools = get_or [] data_.tools;
    permissions_context = get_or [] data_.permissions_context;
    expires_at = get_or "" data_.expires_at;
    unmapped = get_or [] data_.unmapped;
    created_at = get_or "" data_.created_at;
    last_checked_at = get_or "" data_.last_checked_at;
    kind = get_or eip7710 data_.kind;
  }
