-- ===== src/Delegation/Service/Life.antt =====
-- The life of a delegation: what `redeem`, `revoke` and `refresh_status` do to its status.
use clawmes.Base.{◌≡◌, refl, ◌⊎◌, inl, inr, String, true, none, some, Bool-cases, Option-cases}
use clawmes.Delegation.Hex.{Text}
use clawmes.Delegation.Types.{DelegationRecord, revoked, is_redeemable, ExecutionAction}
use clawmes.Delegation.Store.{Store}
use clawmes.Delegation.Service.{
  Chain, Reply, replied, failed, Sent, sent, not_sent, not_redeemable, Redemption, redeemed,
  refused, broken, redeem_calldata, broadcast, simulate, redeem, revoke, refresh_status,
}

-- A redemption did not succeed.
abbrev pub IsUnredeemed : Redemption → Type 0
IsUnredeemed (redeemed _ _) = ⊥
IsUnredeemed (refused _) = Unit
IsUnredeemed broken = Unit

module _ {ℓ} {W : Type ℓ} (chain : Chain W) where
  -- What a redemption does to the world: nothing, or it sends the calldata of a live record whose
  -- simulation went through.
  pub data Redeems (r : DelegationRecord) (a : ExecutionAction) (w : W)
      : Redemption → W → Type ℓ where
    stays : (o : Redemption) → IsUnredeemed o → Redeems r a w o w
    sends :
        (o : Redemption) (data_ reply : Text)
        → is_redeemable r ≡ true
        → chain.has_endpoint r.chain_id w ≡ true
        → redeem_calldata chain r a ≡ some data_
        → chain.agent_key_error w ≡ none
        → chain.eth_call data_ r.chain_id w ≡ replied reply
        → Redeems r a w o (chain.send_agent_tx data_ r.chain_id w).1

  pub Reply-cases : (x : Reply) → ((t : Text) × (x ≡ replied t)) ⊎ ((e : String) × (x ≡ failed e))
  Reply-cases (replied t) = inl (t, refl)
  Reply-cases (failed e) = inr (e, refl)

  Sent-cases : (x : Sent) → ((t : String) × (x ≡ sent t)) ⊎ ((e : String) × (x ≡ not_sent e))
  Sent-cases (sent t) = inl (t, refl)
  Sent-cases (not_sent e) = inr (e, refl)

  broadcast_world :
      (r : DelegationRecord) (data_ : Text) (st : Store) (w : W)
      → (broadcast chain r data_ (st, w)).1.1 ≡ (chain.send_agent_tx data_ r.chain_id w).1
  unfolding broadcast
  broadcast_world r data_ st w = elim (Sent-cases (chain.send_agent_tx data_ r.chain_id w).0) [
    | inl (tx_hash, e) ↦ rw (broadcast, e) refl
    | inr (message, e) ↦ rw (broadcast, e) refl
  ]

  -- A redemption leaves the world alone without success, or sends the calldata of its own action
  -- for a record that is signed or active, on a chain with an endpoint, with the agent's key and
  -- after a simulation that went through.
  pub redeem-Redeems :
      (r : DelegationRecord) (a : ExecutionAction) (st : Store) (w : W)
      → Redeems r a w (redeem chain r a (st, w)).0 (redeem chain r a (st, w)).1.1
  unfolding redeem simulate
  redeem-Redeems r a st w = elim (Bool-cases (is_redeemable r)) [
    | inr dead ↦ rw (redeem, dead) (stays _ tt)
    | inl live ↦ elim (Bool-cases (chain.has_endpoint r.chain_id w)) [
      | inr missing ↦ rw (redeem, live, missing) (stays _ tt)
      | inl endpoint ↦ elim (Option-cases (redeem_calldata chain r a)) [
        | inl raises ↦ rw (redeem, live, endpoint, raises) (stays _ tt)
        | inr (data_, encodes) ↦ elim (Option-cases (chain.agent_key_error w)) [
          | inr (e, locked) ↦ rw (redeem, live, endpoint, encodes, simulate, locked) (stays _ tt)
          | inl key ↦ elim (Reply-cases (chain.eth_call data_ r.chain_id w)) [
            | inr (e, reverts) ↦
                rw (redeem, live, endpoint, encodes, simulate, key, reverts) (stays _ tt)
            | inl (reply, passes) ↦
                rw
                  (
                    redeem,
                    live,
                    endpoint,
                    encodes,
                    simulate,
                    key,
                    passes,
                    broadcast_world r data_ st w,
                  )
                  (sends _ data_ reply live endpoint encodes key passes)
          ]
        ]
      ]
    ]
  ]

  -- Revoking is final for the record that it leaves: whatever the chain then says, redeeming it is
  -- refused and a refresh keeps it, and neither changes the store or the world.
  pub revoke-is_final :
      (r : DelegationRecord) (a : ExecutionAction) (st st' : Store) (w w' : W)
      → let r' = (revoke chain r (st, w)).1.0 in
        (redeem chain r' a (st', w') ≡ (refused (not_redeemable revoked), (st', w')))
        × (refresh_status chain r' (st', w') ≡ (r', st'))
  unfolding revoke redeem refresh_status is_redeemable
  revoke-is_final r a st st' w w' = (refl, refl)
