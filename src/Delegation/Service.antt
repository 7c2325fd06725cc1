-- ===== src/Delegation/Service.antt =====
-- clawmes/delegation/service.py: redemption, revocation and the status refresh of a stored
-- delegation. The RPC endpoint, the agent key, the wallet and the clock are the record `Chain`
-- over a world.
pub mod Life
pub mod Refresh
pub mod Storing
use clawmes.Base.{
  ℕ, String, Bool, true, false, not, ◌&&◌, ◌||◌, Option, none, some, List, [], ◌∷◌, ◌++◌, ◌==◌,
  if◌then◌else◌,
}
use clawmes.Delegation.Hex.{Text, codes, ◌>>=◌, hex}
use clawmes.Delegation.Dicts.{Python}
use clawmes.Delegation.Types.{
  Status, unsigned, signed, active, revoked, expired, Kind, eip7710, eip7715, DelegationRecord,
  is_redeemable, ExecutionAction, execute_mode_default,
}
use clawmes.Delegation.Encoding.{
  Codec, Abi, to_raw, encode_execution, encode_permission_context, build_redeem_calldata,
  delegation_tuple, bytes32, one,
}
use clawmes.Delegation.Store.{Store, eq_text, save}

-- What a call of the RPC endpoint gives: a text, or the message of the exception.
pub data Reply : Type 0 where
  replied : Text → Reply
  failed : String → Reply

pub data Sent : Type 0 where
  sent : (tx_hash : String) → Sent
  not_sent : String → Sent

pub record Chain {ℓ} (W : Type ℓ) : Type ℓ where
  pub codec : Codec
  pub python : Python
  pub has_endpoint : ℕ → W → Bool
  pub eth_call : Text → ℕ → W → Reply
  -- The message of the AgentKeyError that loading the key raises.
  pub agent_key_error : W → Option String
  -- `_send_agent_tx` to the delegation manager
  pub send_agent_tx : Text → ℕ → W → Sent × W
  -- `mode.send_transaction` of the wallet's active mode, if there is one
  pub wallet : W → Bool
  pub send_transaction : Text → ℕ → W → Sent × W
  -- `datetime.now(tz=UTC).isoformat()`
  pub now_text : W → String
  -- `int(raw, 16)`, `none` for a ValueError
  pub hex_value : Text → Option ℕ

-- Why a redemption was refused: a DelegationError.
pub data Refusal : Type 0 where
  not_redeemable : Status → Refusal
  no_endpoint : ℕ → Refusal
  no_agent_key : String → Refusal
  reverted : String → Refusal
  not_broadcast : String → Refusal

-- `broken` is any other exception.
pub data Redemption : Type 0 where
  redeemed : (tx_hash : String) → (chain_id : ℕ) → Redemption
  refused : Refusal → Redemption
  broken : Redemption

abbrev pub with_status : DelegationRecord → Status → String → DelegationRecord
with_status r status now = record {
  id = r.id;
  chain_id = r.chain_id;
  delegation = r.delegation;
  status = status;
  hash = r.hash;
  policy_name = r.policy_name;
  tools = r.tools;
  permissions_context = r.permissions_context;
  expires_at = r.expires_at;
  unmapped = r.unmapped;
  created_at = r.created_at;
  last_checked_at = now;
  kind = r.kind;
}

abbrev is_eip7715 : Kind → Bool
is_eip7715 eip7715 = true
is_eip7715 _ = false

abbrev is_signed : Status → Bool
is_signed signed = true
is_signed _ = false

module _ {ℓ} {W : Type ℓ} (chain : Chain W) where
  -- The calldata that `redeem` simulates and sends.
  unfoldable pub redeem_calldata : DelegationRecord → ExecutionAction → Option Text
  redeem_calldata r a = do
    context ←
        (if is_eip7715 r.kind && not (eq_text r.permissions_context [])
          then some r.permissions_context
          else encode_permission_context chain.codec r.delegation)
    execution ← encode_execution a.target a.value a.call_data
    build_redeem_calldata chain.codec context execution execute_mode_default

  unfoldable pub broadcast : DelegationRecord → Text → Store × W → Redemption × (Store × W)
  broadcast r data_ (st, w) =
      let (outcome, w') = chain.send_agent_tx data_ r.chain_id w in
      let used =
        save chain.python (chain.now_text w') (with_status r active (chain.now_text w')) st in
      elim outcome [
        | not_sent message ↦ (refused (not_broadcast message), (st, w'))
        | sent tx_hash ↦
            (redeemed tx_hash r.chain_id, (if is_signed r.status then used else st, w'))
      ]

  unfoldable pub simulate : DelegationRecord → Text → Store × W → Redemption × (Store × W)
  simulate r data_ (st, w) = elim (chain.agent_key_error w) [
    | some message ↦ (refused (no_agent_key message), (st, w))
    | none ↦ elim (chain.eth_call data_ r.chain_id w) [
      | failed message ↦ (refused (reverted message), (st, w))
      | replied _ ↦ broadcast r data_ (st, w)
    ]
  ]

  unfoldable pub redeem : DelegationRecord → ExecutionAction → Store × W → Redemption × (Store × W)
  redeem r a (st, w) =
      let go : Redemption × (Store × W) = (elim (redeem_calldata r a) [
        | none ↦ (broken, (st, w))
        | some data_ ↦ simulate r data_ (st, w)
      ]) in
      if not (is_redeemable r)
      then (refused (not_redeemable r.status), (st, w))
      else (if not (chain.has_endpoint r.chain_id w)
          then (refused (no_endpoint r.chain_id), (st, w))
          else go)

  unfoldable pub build_disable_calldata : DelegationRecord → Option Text
  build_disable_calldata r = do
    d ← delegation_tuple r.delegation
    raw ← chain.codec.abi_encode (one d)
    some (
        chain.codec.selector
          "disableDelegation((address,address,bytes32,(address,bytes,bytes)[],uint256,bytes))"
        ++ hex raw)

  unfoldable pub build_disabled_calldata : Text → Option Text
  build_disabled_calldata hash = do
    word ← to_raw hash
    raw ← chain.codec.abi_encode (one (bytes32 word))
    some (chain.codec.selector "disabledDelegations(bytes32)" ++ hex raw)

  -- The wallet's part of `revoke`: every exception degrades to a local revoke.
  unfoldable pub disable : DelegationRecord → W → Option String × W
  disable r w =
      if chain.wallet w
      then (elim (build_disable_calldata r) [
        | none ↦ (none, w)
        | some data_ ↦
            let (outcome, w') = chain.send_transaction data_ r.chain_id w in
            (elim outcome [ sent tx_hash ↦ some tx_hash | not_sent _ ↦ none ], w')
      ])
      else (none, w)

  -- The record is the one that the caller's object has become.
  unfoldable pub revoke :
      DelegationRecord → Store × W → Option String × (DelegationRecord × (Store × W))
  revoke r (st, w) =
      let (tx_hash, w') = disable r w in
      let r' = with_status r revoked (chain.now_text w') in
      (tx_hash, (r', (save chain.python (chain.now_text w') r' st, w')))

  -- `int(raw, 16) != 0 if raw and raw != "0x" else False`; `none` if that raises.
  unfoldable pub disabled_flag : Text → Option Bool
  disabled_flag raw =
      if eq_text raw [] || eq_text raw (codes "0x")
      then some false
      else (elim (chain.hex_value raw) [ none ↦ none | some n ↦ some (not (n == 0)) ])

  abbrev is_revoked : Status → Bool
  is_revoked revoked = true
  is_revoked _ = false

  abbrev read_flag : DelegationRecord → W → Option Bool
  read_flag r w = do
    data_ ← build_disabled_calldata r.hash
    elim (chain.eth_call data_ r.chain_id w) [ failed _ ↦ none | replied raw ↦ disabled_flag raw ]

  unfoldable pub refresh_status : DelegationRecord → Store × W → DelegationRecord × Store
  refresh_status r (st, w) =
      let checked : DelegationRecord × Store = (elim (read_flag r w) [
        | none ↦ (r, st)
        | some disabled ↦
            let r' = with_status r (if disabled then revoked else active) (chain.now_text w) in
            (r', save chain.python (chain.now_text w) r' st)
      ]) in
      if is_revoked r.status || (eq_text r.hash [] || eq_text r.hash (codes "0x"))
      then (r, st)
      else checked
