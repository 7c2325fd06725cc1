-- ===== src/Delegation/Encoding.antt =====
-- clawmes/delegation/encoding.py. The ABI codec and keccak of the eth packages are the record
-- `Codec`; a raised ValueError or OverflowError is `none`.
use clawmes.Base.{
  ℕ, ◌^◌, ◌||◌, Option, none, some, List, [], ◌∷◌, ◌++◌, ltb, ◌==◌, if◌then◌else◌, length, String,
}
use clawmes.Base.Int.{ℤ, pos, negsuc}
use clawmes.Delegation.Hex.{
  Text, Bytes, codes, ◌>>=◌, from_hex, hex, big_endian, rjust, starts_with,
}
use clawmes.Delegation.Types.{Caveat, SignedDelegation}

-- The values that the encoders hand to `eth_abi.encode`, with their ABI types.
mutual
  pub data Abi : Type 0 where
    uint : (bits : ℕ) → ℤ → Abi
    address : Text → Abi
    address_raw : Bytes → Abi
    bytes : Bytes → Abi
    bytes32 : Bytes → Abi
    array : AbiList → Abi
    tuple : AbiList → Abi

  pub data AbiList : Type 0 where
    nil : AbiList
    cons : Abi → AbiList → AbiList

-- `eth_abi.encode`, and the four-byte selector of a Solidity signature (`eth_utils.keccak`).
pub record Codec : Type 0 where
  pub abi_encode : AbiList → Option Bytes
  pub selector : String → Text

abbrev pub one : Abi → AbiList
one v = cons v nil

abbrev without_prefix : Text → Text
without_prefix (x ∷ y ∷ s) = s
without_prefix s = s

-- `_b`: hex text to bytes; the prefix may be missing.
unfoldable pub to_raw : Text → Option Bytes
to_raw s =
    from_hex
      (if starts_with (codes "0x") s || starts_with (codes "0X") s then without_prefix s else s)

-- `_addr_bytes`
unfoldable pub addr_bytes : Text → Option Bytes
addr_bytes address_ = do raw ← to_raw address_; if length raw == 20 then some raw else none

-- `_hex`
abbrev pub prefixed : Bytes → Text
prefixed raw = codes "0x" ++ hex raw

-- `n.to_bytes(32, "big")`: an OverflowError outside of the 256-bit range.
unfoldable pub to_bytes32 : ℤ → Option Bytes
to_bytes32 (pos n) = if ltb n (2 ^ 256) then some (big_endian 32 n) else none
to_bytes32 (negsuc n) = none

-- `_addr_bytes(a).rjust(32, b"\x00").hex()`
abbrev pub address_word : Bytes → Text
address_word raw = hex (rjust 32 0 raw)

unfoldable pub encode_erc20_transfer : Text → ℤ → Option Text
encode_erc20_transfer to amount = do
  raw ← addr_bytes to
  word ← to_bytes32 amount
  some (codes "0xa9059cbb" ++ (address_word raw ++ hex word))

unfoldable pub encode_erc20_approve : Text → ℤ → Option Text
encode_erc20_approve spender amount = do
  raw ← addr_bytes spender
  word ← to_bytes32 amount
  some (codes "0x095ea7b3" ++ (address_word raw ++ hex word))

unfoldable pub encode_erc721_transfer_from : Text → Text → ℤ → Option Text
encode_erc721_transfer_from from_addr to token_id = do
  source ← addr_bytes from_addr
  raw ← addr_bytes to
  word ← to_bytes32 token_id
  some (codes "0x23b872dd" ++ (address_word source ++ (address_word raw ++ hex word)))

-- ERC-7579 single execution, packed.
unfoldable pub encode_execution : Text → ℤ → Text → Option Text
encode_execution target value call_data = do
  raw ← addr_bytes target
  word ← to_bytes32 value
  payload ← to_raw call_data
  some (prefixed (raw ++ (word ++ payload)))

unfoldable pub encode_caveats : List Caveat → Option AbiList
encode_caveats [] = some nil
encode_caveats (c ∷ caveats) = do
  enforcer ← addr_bytes c.enforcer
  terms ← to_raw c.terms
  args ← to_raw c.args
  rest ← encode_caveats caveats
  some (cons (tuple (cons (address_raw enforcer) (cons (bytes terms) (one (bytes args))))) rest)

unfoldable pub delegation_tuple : SignedDelegation → Option Abi
delegation_tuple d = do
  delegate ← addr_bytes d.delegate
  delegator ← addr_bytes d.delegator
  authority ← to_raw d.authority
  caveats ← encode_caveats d.caveats
  signature ← to_raw d.signature
  some (
      tuple (
        cons (address_raw delegate) (
          cons (address_raw delegator) (
            cons (bytes32 authority)
              (cons (array caveats) (cons (uint 256 d.salt) (one (bytes signature))))))))

module _ (codec : Codec) where
  open codec use {abi_encode, selector}

  abbrev encoded : AbiList → Option Text
  encoded values = do raw ← abi_encode values; some (prefixed raw)

  unfoldable pub terms_value_lte : ℤ → Option Text
  terms_value_lte max_value_wei = encoded (one (uint 256 max_value_wei))

  unfoldable pub terms_native_transfer_amount : ℤ → Option Text
  terms_native_transfer_amount max_wei = encoded (one (uint 256 max_wei))

  unfoldable pub terms_native_period : ℤ → ℤ → ℤ → Option Text
  terms_native_period allowance_wei start_time period_seconds =
      encoded
        (cons (uint 256 allowance_wei) (cons (uint 256 start_time) (one (uint 256 period_seconds))))

  unfoldable pub terms_erc20_period : Text → ℤ → ℤ → ℤ → Option Text
  terms_erc20_period token allowance start_time period_seconds = encoded (
      cons (address token)
        (cons (uint 256 allowance) (cons (uint 256 start_time) (one (uint 256 period_seconds)))))

  unfoldable pub terms_limited_calls : ℤ → Option Text
  terms_limited_calls max_calls = encoded (one (uint 256 max_calls))

  unfoldable pub terms_timestamp : ℤ → ℤ → Option Text
  terms_timestamp execute_after execute_before =
      encoded (cons (uint 128 execute_after) (one (uint 128 execute_before)))

  abbrev addresses : List Text → AbiList
  addresses [] = nil
  addresses (t ∷ targets) = cons (address t) (addresses targets)

  unfoldable pub terms_allowed_targets : List Text → Option Text
  terms_allowed_targets targets = encoded (one (array (addresses targets)))

  -- `encode_permission_context`, for the chain of one delegation that `redeem` passes.
  unfoldable pub encode_permission_context : SignedDelegation → Option Text
  encode_permission_context d = do t ← delegation_tuple d; encoded (one (array (one t)))

  unfoldable pub build_redeem_calldata : Text → Text → Text → Option Text
  build_redeem_calldata permission_context execution_call_data mode = do
    context ← to_raw permission_context
    mode_word ← to_raw mode
    execution ← to_raw execution_call_data
    raw ← abi_encode (
        cons (array (one (bytes context)))
          (cons (array (one (bytes32 mode_word))) (one (array (one (bytes execution))))))
    some (selector "redeemDelegations(bytes[],bytes32[],bytes[])" ++ hex raw)

-- ERC20TransferAmountEnforcer: packed, 52 bytes.
unfoldable pub terms_erc20_transfer_amount : Text → ℤ → Option Text
terms_erc20_transfer_amount token max_amount = do
  raw ← addr_bytes token
  word ← to_bytes32 max_amount
  some (prefixed (raw ++ word))
