-- ===== src/Delegation/Service/Storing.antt =====
-- clawmes/delegation/service.py: `store_delegation` and `_try_get_hash`.
use clawmes.Base.{
  ℕ, ◌≡◌, refl, ap, ◌∙◌, String, Bool, true, false, Option, none, some, List, [], ◌∷◌, ◌++◌, leb,
  if◌then◌else◌, length, not, ◌||◌, ◌&&◌, zero, suc, str_eq,
}
use clawmes.Delegation.Hex.{Text, codes, ◌>>=◌, hex}
use clawmes.Delegation.Types.{SignedDelegation, DelegationRecord, signed, eip7710}
use clawmes.Delegation.Encoding.{delegation_tuple, one}
use clawmes.Delegation.Store.{Store, eq_text, stamped, path_of, save, load}
use clawmes.Delegation.Store.Files.{load-save, restarted, same_file, eq_text_iff}
use clawmes.Delegation.Dicts.RoundTrip.{ReadsHex}
use clawmes.Delegation.Service.{Chain, replied, failed}

-- `raw[:n]`
abbrev first : ℕ → Text → Text
first zero s = []
first (suc n) [] = []
first (suc n) (c ∷ s) = c ∷ first n s

module _ {ℓ} {W : Type ℓ} (chain : Chain W) where
  unfoldable pub build_get_hash_calldata : SignedDelegation → Option Text
  build_get_hash_calldata d = do
    t ← delegation_tuple d
    raw ← chain.codec.abi_encode (one t)
    some (
        chain.codec.selector
          "getDelegationHash((address,address,bytes32,(address,bytes,bytes)[],uint256,bytes))"
        ++ hex raw)

  -- The hash that the manager reports, or "0x" when it cannot be read.
  unfoldable pub hash_of_reply : Text → Text
  hash_of_reply raw =
      if not (eq_text raw [] || eq_text raw (codes "0x")) && leb 66 (length raw)
      then first 66 raw
      else codes "0x"

  unfoldable pub try_get_hash : SignedDelegation → ℕ → W → Text
  try_get_hash d chain_id w = elim (build_get_hash_calldata d) [
    | none ↦ codes "0x"
    | some data_ ↦ elim (chain.eth_call data_ chain_id w) [
      | failed _ ↦ codes "0x"
      | replied raw ↦ hash_of_reply raw
    ]
  ]

  unfoldable pub new_record :
      (record_id : String)
      → SignedDelegation
      → (chain_id : ℕ) → (policy_name : String) → (tools : List String) → (expires_at : String)
      → (unmapped : List String) → W
      → DelegationRecord
  new_record record_id d chain_id policy_name tools expires_at unmapped w = record {
    id = record_id;
    chain_id = chain_id;
    delegation = d;
    status = signed;
    hash = try_get_hash d chain_id w;
    policy_name = policy_name;
    tools = tools;
    permissions_context = [];
    expires_at = expires_at;
    unmapped = unmapped;
    created_at = chain.now_text w;
    last_checked_at = "";
    kind = eip7710;
  }

  unfoldable pub store_delegation :
      (record_id : String)
      → SignedDelegation
      → (chain_id : ℕ) → (policy_name : String) → (tools : List String) → (expires_at : String)
      → (unmapped : List String) → Store × W
      → DelegationRecord × Store
  store_delegation record_id d chain_id policy_name tools expires_at unmapped (st, w) =
      let r = new_record record_id d chain_id policy_name tools expires_at unmapped w in
      (r, save chain.python (chain.now_text w) r st)

  if_same : {A : Type 0} (b : Bool) (a : A) → (if b then a else a) ≡ a
  if_same true a = refl
  if_same false a = refl

  -- What `store_delegation` returns is what its id loads afterwards, while the process runs and, where
  -- `int(s, 16)` reads what `hex` writes, after a restart, from the dict in its file.
  pub store_delegation-load :
      (record_id : String) (d : SignedDelegation) (chain_id : ℕ) (policy_name : String)
      (tools : List String) (expires_at : String) (unmapped : List String) (st : Store) (w : W)
      → ReadsHex chain.python
      → let out =
          store_delegation record_id d chain_id policy_name tools expires_at unmapped (st, w) in
        ((load chain.python record_id out.1).0 ≡ some out.0)
        × ((load chain.python record_id (restarted chain.python out.1)).0 ≡ some out.0)
  unfolding store_delegation new_record
  store_delegation-load record_id d chain_id policy_name tools expires_at unmapped st w reads =
      let r : DelegationRecord =
        new_record record_id d chain_id policy_name tools expires_at unmapped w in
      let now : String = chain.now_text w in
      let same : stamped now r ≡ r = unfold stamped in (rw (if_same (str_eq now "") now) refl) in
      let path = path_of chain.python record_id in
      let itself : same_file chain.python record_id record_id ≡ true =
        (eq_text_iff path path).1 refl in
      let (kept, on_disk) = load-save chain.python now r record_id st reads in
      (kept ∙ ap some same, (rw itself at on_disk) ∙ ap some same)
