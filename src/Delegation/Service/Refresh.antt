-- ===== src/Delegation/Service/Refresh.antt =====
-- What a refresh of a record's status does, on every reply of the manager.
use clawmes.Base.{◌≡◌, ◌≢◌, ◌⊎◌, String, none, some, [], ℕ, suc}
use clawmes.Delegation.Hex.{Text, codes}
use clawmes.Delegation.Types.{DelegationRecord, Status, active, revoked}
use clawmes.Delegation.Store.{save, Store}
use clawmes.Delegation.Service.{Chain, replied, failed, build_disabled_calldata}

module _ {ℓ} {W : Type ℓ} (chain : Chain W) where
  -- The number that the manager's reply stands for: an empty one is 0.
  pub data Shows : Text → ℕ → Type 0 where
    shows_nothing : Shows [] 0
    shows_bare : Shows (codes "0x") 0
    shows_number :
        {raw : Text} {n : ℕ}
        → raw ≢ []
        → raw ≢ codes "0x"
        → chain.hex_value raw ≡ some n
        → Shows raw n

  abbrev pub checked_record : DelegationRecord → Status → W → DelegationRecord
  checked_record r status w = record r { status = status; last_checked_at = chain.now_text w }

  -- The outcomes of a refresh.
  pub data Refreshes (r : DelegationRecord) (st : Store) (w : W)
      : DelegationRecord × Store → Type ℓ where
    final : r.status ≡ revoked → Refreshes r st w (r, st)
    no_hash : (r.hash ≡ []) ⊎ (r.hash ≡ codes "0x") → Refreshes r st w (r, st)
    no_calldata : build_disabled_calldata chain r.hash ≡ none → Refreshes r st w (r, st)
    no_reply :
        (data_ : Text) (e : String)
        → build_disabled_calldata chain r.hash ≡ some data_
        → chain.eth_call data_ r.chain_id w ≡ failed e
        → Refreshes r st w (r, st)
    no_number :
        (data_ raw : Text)
        → build_disabled_calldata chain r.hash ≡ some data_
        → chain.eth_call data_ r.chain_id w ≡ replied raw
        → chain.hex_value raw ≡ none
        → Refreshes r st w (r, st)
    enabled :
        (data_ raw : Text)
        → r.status ≢ revoked
        → build_disabled_calldata chain r.hash ≡ some data_
        → chain.eth_call data_ r.chain_id w ≡ replied raw
        → Shows raw 0
        → Refreshes r st w (
          checked_record r active w,
          save chain.python (chain.now_text w) (checked_record r active w) st,
        )
    disabled :
        (data_ raw : Text) (n : ℕ)
        → r.status ≢ revoked
        → build_disabled_calldata chain r.hash ≡ some data_
        → chain.eth_call data_ r.chain_id w ≡ replied raw
        → Shows raw (suc n)
        → Refreshes r st w (
          checked_record r revoked w,
          save chain.python (chain.now_text w) (checked_record r revoked w) st,
        )
