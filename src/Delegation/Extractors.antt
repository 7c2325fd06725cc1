-- ===== src/Delegation/Extractors.antt =====
-- clawmes/delegation/executor.py: what action a tool's arguments ask for. Addresses are texts that
-- begin with "0x" and have 42 characters.
use clawmes.Base.{
  ℕ, String, Bool, false, not, ◌&&◌, ◌||◌, Option, none, some, List, [], ◌∷◌, length, ◌==◌,
  if◌then◌else◌, str_eq,
}
use clawmes.Base.Int.{ℤ, pos, ltb_ℤ}
use clawmes.Policy.Types.{Value, null, int, str, other, Args}
use clawmes.Gate.Extract.{Host, is_true, is_none, get}
use clawmes.Delegation.Hex.{Text, codes, starts_with, lower}
use clawmes.Delegation.Types.{ExecutionAction, zero_address}
use clawmes.Delegation.Encoding.{
  encode_erc20_transfer, encode_erc20_approve, encode_erc721_transfer_from,
}
use clawmes.Delegation.Store.{eq_text}

-- `not_applicable` is a None, `raised` an exception of the encoder.
pub data Extracted : Type 0 where
  not_applicable : Extracted
  raised : Extracted
  action : ExecutionAction → Extracted

abbrev without_0x : Text → Text
without_0x (a ∷ b ∷ s) = s
without_0x _ = []

-- `_is_addr`, which gives the address's text; `reads_hex s` says that `int(s, 16)` does not raise.
unfoldable pub address_of : (Text → Bool) → Value → Option Text
address_of reads_hex (str s) =
    let t = codes s in
    if starts_with (codes "0x") t && (length t == 42 && reads_hex (without_0x t))
    then some t
    else none
address_of reads_hex null = none
address_of reads_hex (int _) = none
address_of reads_hex (other _ _) = none

abbrev is_text : Value → String → Bool
is_text (str s) t = str_eq s t
is_text _ t = false

-- The action on a contract with this calldata and no value.
abbrev pub call : Text → Option Text → Extracted
call target none = raised
call target (some data_) = action record { target = target; value = pos 0; call_data = data_ }

module _ (host : Host) (reads_hex : Text → Bool) where
  -- `_parse_amount`
  unfoldable pub parse_amount : Value → ℕ → Option ℤ
  parse_amount amount decimals = elim (host.base_units (str (host.text_of amount)) decimals) [
    | none ↦ none
    | some n ↦ if ltb_ℤ (pos 0) n then some n else none
  ]

  unfoldable pub token_transfer : Text → Value → Value → ℤ → Text → Extracted
  token_transfer to amount token chain_id token_text =
      elim (host.peek (host.text_of token) chain_id) [
        | none ↦ not_applicable
        | some decimals ↦ elim (parse_amount amount decimals) [
          | none ↦ not_applicable
          | some base ↦ call token_text (encode_erc20_transfer to base)
        ]
      ]

  unfoldable pub native_transfer : Text → Value → Value → Extracted
  native_transfer to amount token =
      let name = lower (codes (host.text_of token)) in
      let sends : Extracted = (elim (parse_amount amount 18) [
        | none ↦ not_applicable
        | some wei ↦ action record { target = to; value = wei; call_data = codes "0x" }
      ]) in
      if not (is_true token) || (eq_text name (codes "eth") || eq_text name (codes "native"))
      then sends
      else not_applicable

  unfoldable pub extract_transfer : Args → ℤ → Extracted
  extract_transfer args chain_id =
      let amount = get "amount" args in
      let token = get "token" args in
      let found : Extracted = (elim (address_of reads_hex (get "to" args)) [
        | none ↦ not_applicable
        | some to ↦ elim (address_of reads_hex token) [
          | none ↦ native_transfer to amount token
          | some token_text ↦ token_transfer to amount token chain_id token_text
        ]
      ]) in
      if not (is_text (get "action" args) "send") || is_none amount then not_applicable else found

  unfoldable pub extract_approvals : Args → ℤ → Extracted
  extract_approvals args chain_id =
      let found : Extracted = (elim (address_of reads_hex (get "token" args)) [
        | none ↦ not_applicable
        | some token ↦ elim (address_of reads_hex (get "spender" args)) [
          | none ↦ not_applicable
          | some spender ↦ call token (encode_erc20_approve spender (pos 0))
        ]
      ]) in
      if is_text (get "action" args) "revoke" then found else not_applicable

  unfoldable pub nft_transfer : Text → Text → Value → Extracted
  nft_transfer contract to token_id = elim (host.int_of (str (host.text_of token_id))) [
    | none ↦ not_applicable
    | some n ↦ call contract (encode_erc721_transfer_from zero_address to n)
  ]

  unfoldable pub extract_nft : Args → ℤ → Extracted
  extract_nft args chain_id =
      let token_id = get "token_id" args in
      let found : Extracted = (elim (address_of reads_hex (get "contract" args)) [
        | none ↦ not_applicable
        | some contract ↦ elim (address_of reads_hex (get "to" args)) [
          | none ↦ not_applicable
          | some to ↦ nft_transfer contract to token_id
        ]
      ]) in
      if not (is_text (get "action" args) "transfer") || is_none token_id
      then not_applicable
      else found

  -- `_EXTRACTORS` before any `register_extractor`
  unfoldable pub default_extractors : List (String × (Args → ℤ → Extracted))
  default_extractors =
      ("transfer", extract_transfer) ∷ ("approvals", extract_approvals) ∷ ("nft", extract_nft) ∷ []
