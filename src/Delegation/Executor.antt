-- ===== src/Delegation/Executor.antt =====
-- clawmes/delegation/executor.py: the rate limiter, the choice of a delegation and
-- `try_delegation_execution`.
pub mod Matching
pub mod Limits
pub mod Closed
pub mod Tests
use Prim.Native.String.{◌++◌ as join}
use clawmes.Base.{
  ℕ, ◌+◌, String, Bool, true, false, not, ◌&&◌, ◌||◌, Option, none, some, List, [], ◌∷◌, ◌++◌, ltb,
  leb, if◌then◌else◌, length, keep_if, contains, lookup, insert, erase, str_eq,
}
use clawmes.Base.Int.{ℤ, pos}
use clawmes.Policy.Types.{Args, ActionContext, eq_ℤ}
use clawmes.Delegation.Hex.{Text, codes}
use clawmes.Delegation.Types.{DelegationRecord, expired, is_redeemable, ExecutionAction}
use clawmes.Delegation.Fill.{fill_delegator}
use clawmes.Delegation.Store.{Store, eq_text, list_records, save}
use clawmes.Delegation.Service.{
  Chain, Refusal, Redemption, redeemed, refused, broken, redeem, with_status,
}
use clawmes.Delegation.Extractors.{Extracted, not_applicable, raised, action}

-- `_attempts`: time stamps of redemptions, oldest first.
abbrev pub Attempts : Type 0
Attempts = List (String × List ℕ)

abbrev pub rate_window : ℕ
rate_window = 60

abbrev pub rate_max : ℕ
rate_max = 3

unfoldable pub rate_key : String → String → String
rate_key user tool = join user (join ":" tool)

abbrev pub or_empty : Option (List ℕ) → List ℕ
or_empty none = []
or_empty (some times) = times

-- `[t for t in _attempts.get(key, []) if now - t < _RATE_WINDOW_S]`
unfoldable pub recent : String → ℕ → Attempts → List ℕ
recent key now attempts = keep_if (λ t. ltb now (t + rate_window)) (or_empty (lookup key attempts))

unfoldable pub rate_limited : String → ℕ → Attempts → Bool × Attempts
rate_limited key now attempts =
    let times = recent key now attempts in (leb rate_max (length times), insert key times attempts)

unfoldable pub record_attempt : String → ℕ → Attempts → Attempts
record_attempt key now attempts = insert key (recent key now attempts ++ now ∷ []) attempts

unfoldable pub clear_attempts : String → Attempts → Attempts
clear_attempts key attempts = erase key attempts

abbrev in_scope : List String → String → Bool
in_scope [] tool = true
in_scope (t ∷ tools) tool = contains tool (t ∷ tools)

unfoldable pub scope_covers : DelegationRecord → String → Bool
scope_covers r tool = in_scope r.tools tool

abbrev pub on_chain : Option ℤ → ℕ → Bool
on_chain none chain_id = true
on_chain (some c) chain_id = eq_ℤ (pos chain_id) c

-- The tests of the loop of `find_matching_delegation`.
unfoldable pub is_match : ActionContext → DelegationRecord → Bool
is_match ctx r =
    is_redeemable r && (scope_covers r ctx.tool_name && on_chain ctx.chain_id r.chain_id)

unfoldable pub find_matching : ActionContext → List DelegationRecord → Option DelegationRecord
find_matching ctx [] = none
find_matching ctx (r ∷ records) = if is_match ctx r then some r else find_matching ctx records

-- `action_ctx.chain_id or record.chain_id`
abbrev pub chain_of : Option ℤ → ℕ → ℤ
chain_of none chain_id = pos chain_id
chain_of (some c) chain_id = if eq_ℤ c (pos 0) then pos chain_id else c

-- The placeholder is looked for when there is more than a selector.
unfoldable pub filled : DelegationRecord → ExecutionAction → ExecutionAction
filled r a = record {
  target = a.target;
  value = a.value;
  call_data =
      (if ltb 10 (length a.call_data)
        then fill_delegator a.call_data r.delegation.delegator
        else a.call_data);
}

-- Why the tool's own handler goes on.
pub data Skip : Type 0 where
  switched_off no_extractor no_delegation no_action plain_account : Skip

-- Why the action is refused.
pub data Error : Type 0 where
  has_expired rate_limit : Error
  by_service : Refusal → Error
  delegation_error : Error

-- `DelegationExecutionResult`; `uncaught` is an exception that leaves the function.
pub data Outcome : Type 0 where
  executed : (tx_hash : String) → (chain_id : ℕ) → Outcome
  skipped : Skip → Outcome
  error : Error → Outcome
  uncaught : Outcome

pub record Executor {ℓ} (W : Type ℓ) : Type ℓ where
  pub attempts : Attempts
  pub store : Store
  pub world : W

-- What the executor asks of its surroundings besides the chain: the two clocks, the time of an
-- ISO text (`none` for a ValueError), and `eth_getCode` (`none` for an exception).
pub record Env {ℓ} (W : Type ℓ) : Type ℓ where
  pub kill_switch : W → Bool
  pub monotonic : W → ℕ
  pub clock : W → ℕ
  pub timestamp : String → Option ℕ
  pub get_code : Text → ℤ → W → Option Text

-- `code in ("", "0x", "0x0")`
abbrev pub is_plain : Option Text → Bool
is_plain none = false
is_plain (some code) = eq_text code [] || (eq_text code (codes "0x") || eq_text code (codes "0x0"))

module _ {ℓ} {W : Type ℓ} (chain : Chain W) (env : Env W) where
  unfoldable pub is_expired : DelegationRecord → W → Bool
  is_expired r w = not (str_eq r.expires_at "") && (elim (env.timestamp r.expires_at) [
    | none ↦ false
    | some expiry ↦ ltb expiry (env.clock w)
  ])

  -- `_record_attempt`, `redeem` and what follows.
  unfoldable pub attempt :
      DelegationRecord → ExecutionAction → String → Executor W → Outcome × Executor W
  attempt r a key st =
      let tried = record_attempt key (env.monotonic st.world) st.attempts in
      let (redemption, after) = redeem chain r a (st.store, st.world) in
      let ended : Attempts → Executor W =
        (λ attempts. record { attempts = attempts; store = after.0; world = after.1 }) in
      elim redemption [
        | redeemed tx_hash chain_id ↦ (executed tx_hash chain_id, ended (clear_attempts key tried))
        | refused refusal ↦ (error (by_service refusal), ended tried)
        | broken ↦ (error delegation_error, ended tried)
      ]

  -- The checks between the extraction and the redemption.
  unfoldable pub guarded :
      ActionContext → DelegationRecord → ExecutionAction → Executor W → Outcome × Executor W
  guarded ctx r a st =
      let key = rate_key ctx.user_id ctx.tool_name in
      let stale : Executor W = record {
        attempts = st.attempts;
        store =
            (let now = r.last_checked_at in
              save chain.python (chain.now_text st.world) (with_status r expired now) st.store);
        world = st.world;
      } in
      let (limited, attempts) = rate_limited key (env.monotonic st.world) st.attempts in
      let asked : Executor W = record { attempts = attempts; store = st.store; world = st.world } in
      let go = attempt r a key asked in
      if is_expired r st.world
      then (error has_expired, stale)
      else (if is_plain
            (env.get_code r.delegation.delegator (chain_of ctx.chain_id r.chain_id) st.world)
          then (skipped plain_account, st)
          else (if limited then (error rate_limit, asked) else go))

  unfoldable pub with_record :
      (Args → ℤ → Extracted)
      → ActionContext
      → Args
      → DelegationRecord
      → Executor W
      → Outcome × Executor W
  with_record extractor ctx args r st = elim (extractor args (chain_of ctx.chain_id r.chain_id)) [
    | not_applicable ↦ (skipped no_action, st)
    | raised ↦ (uncaught, st)
    | action a ↦ guarded ctx r (filled r a) st
  ]

  unfoldable pub with_extractor :
      (Args → ℤ → Extracted) → ActionContext → Args → Executor W → Outcome × Executor W
  with_extractor extractor ctx args st =
      let (records, store) = list_records chain.python st.store in
      let listed : Executor W = record {
        attempts = st.attempts;
        store = store;
        world = st.world;
      } in
      elim (find_matching ctx records) [
        | none ↦ (skipped no_delegation, listed)
        | some r ↦ with_record extractor ctx args r listed
      ]

  unfoldable pub try_delegation_execution :
      List (String × (Args → ℤ → Extracted))
      → ActionContext
      → Args
      → Executor W
      → Outcome × Executor W
  try_delegation_execution extractors ctx args st =
      let found : Outcome × Executor W = (elim (lookup ctx.tool_name extractors) [
        | none ↦ (skipped no_extractor, st)
        | some extractor ↦ with_extractor extractor ctx args st
      ]) in
      if env.kill_switch st.world then (skipped switched_off, st) else found
