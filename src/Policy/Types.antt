-- ===== src/Policy/Types.antt =====
-- clawmes/policy/types.py: the policy, the action that it judges and the decision. A tool's
-- arguments are a dictionary of Python values.
use clawmes.Base.{
  ℕ, ◌-◌, ◌^◌, String, Bool, true, false, ◌&&◌, ◌||◌, Option, none, some, List, [], ◌∷◌, contains,
  is_some,
}
use clawmes.Base.Int.{ℤ, pos, leb_ℤ}

-- A Python value in a tool's arguments. `other` is one of any further type, with its truth value
-- and its `str`.
pub data Value : Type 0 where
  null : Value
  int : ℤ → Value
  str : String → Value
  other : (is_true : Bool) → (text : String) → Value

abbrev pub Args : Type 0
Args = List (String × Value)

pub record ActionContext : Type 0 where
  pub tool_name : String
  pub args : Args
  pub user_id : String
  pub chain_id : Option ℤ
  pub value_wei : Option ℤ

pub data Kind : Type 0 where
  allow block confirm : Kind

pub record Policy : Type 0 where
  pub name : String
  pub decision : Kind
  pub applies_to_tools : List String
  pub chain_ids : List ℤ
  pub max_amount_wei : Option ℤ
  pub max_per_hour : Option ℤ
  pub description : String

-- Why a policy decided: its description, the gates that it lists, or its name.
pub data Reason : Type 0 where
  none_given : Reason
  described : String → Reason
  gates : Option (ℤ × ℤ) → Option (ℕ × ℤ) → Reason
  matched : String → Reason

pub record Decision : Type 0 where
  pub kind : Kind
  pub policy_name : String
  pub reason : Reason

abbrev pub eq_ℤ : ℤ → ℤ → Bool
eq_ℤ a b = leb_ℤ a b && leb_ℤ b a

-- `chain_id in chain_ids`, where an unknown chain is in no tuple of ids.
abbrev pub chain_in : Option ℤ → List ℤ → Bool
chain_in none ids = false
chain_in (some c) [] = false
chain_in (some c) (i ∷ ids) = eq_ℤ c i || chain_in (some c) ids

abbrev pub tools_match : List String → String → Bool
tools_match [] tool = true
tools_match (t ∷ tools) tool = contains tool (t ∷ tools)

abbrev pub chains_match : List ℤ → Option ℤ → Bool
chains_match [] c = true
chains_match (i ∷ ids) c = chain_in c (i ∷ ids)

unfoldable pub matches_filters : Policy → ActionContext → Bool
matches_filters p ctx =
    tools_match p.applies_to_tools ctx.tool_name && chains_match p.chain_ids ctx.chain_id

unfoldable pub has_quantitative_gates : Policy → Bool
has_quantitative_gates p = is_some p.max_amount_wei || is_some p.max_per_hour

abbrev pub default_policies : List Policy
default_policies =
    record {
      name = "block_unbounded_token_approvals";
      decision = block;
      applies_to_tools = "approvals" ∷ [];
      chain_ids = [];
      max_amount_wei = some (pos (2 ^ 256 - 1));
      max_per_hour = none;
      description = "Block ERC-20 approvals for the maximum uint256 value";
    }
    ∷ record {
      name = "confirm_large_transfers";
      decision = confirm;
      applies_to_tools = "transfer" ∷ [];
      chain_ids = [];
      max_amount_wei = some (pos 50_000_000_000_000_000);
      max_per_hour = none;
      description = "Require user confirmation for transfers above 0.05 ETH";
    }
    ∷ record {
      name = "rate_limit_swaps";
      decision = confirm;
      applies_to_tools = "defi_swap" ∷ [];
      chain_ids = [];
      max_amount_wei = none;
      max_per_hour = some (pos 20);
      description = "Require user confirmation after 20 swaps in the last hour";
    }
    ∷ []
