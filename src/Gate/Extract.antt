-- ===== src/Gate/Extract.antt =====
-- clawmes/tools/registry.py: what the gate reads off a tool's arguments (`_extract_chain_id`,
-- `_extract_value_wei`).
use clawmes.Base.{
  ℕ, String, Bool, true, false, not, ◌&&◌, ◌||◌, is_some, Option, none, some, if◌then◌else◌, lookup,
  str_eq,
}
use clawmes.Base.Int.{ℤ, pos}
use clawmes.Policy.Types.{Value, null, int, str, other, Args, eq_ℤ}

-- What the gate asks of Python and of the services: `int(v)` (`none` for TypeError and
-- ValueError, which are caught), whether it raises OverflowError, which is not, `str(v)`, `to_base_units(v, decimals)` on `decimal.Decimal` (`none` for the errors
-- that the gate catches), the non-blocking decimals cache, and the digest of a tool's name and
-- arguments.
pub record Host : Type 0 where
  pub int_of : Value → Option ℤ
  pub overflows : Value → Bool
  pub text_of : Value → String
  pub base_units : Value → ℕ → Option ℤ
  pub peek : String → ℤ → Option ℕ
  pub render : String → Args → String

-- `bool(v)`
abbrev pub is_true : Value → Bool
is_true null = false
is_true (int n) = not (eq_ℤ n (pos 0))
is_true (str s) = not (str_eq s "")
is_true (other truth _) = truth

-- `args.get(key)`, where a missing key is None.
unfoldable pub get : String → Args → Value
get key args = elim (lookup key args) [ none ↦ null | some v ↦ v ]

abbrev pub is_none : Value → Bool
is_none null = true
is_none _ = false

-- `int(raw)`, where None is passed over, for a value that does not overflow.
unfoldable pub int_or_none : Host → Value → Option ℤ
int_or_none host raw = if is_none raw then none else host.int_of raw

abbrev pub raises_overflow : Host → Value → Bool
raises_overflow host raw = not (is_none raw) && host.overflows raw

-- `args.get("chain_id") or args.get("chain")`
abbrev pub raw_chain : Args → Value
raw_chain args =
    let chain_id = get "chain_id" args in if is_true chain_id then chain_id else get "chain" args

unfoldable pub extract_chain_id : Host → Args → Option ℤ
extract_chain_id host args = int_or_none host (raw_chain args)

-- `_extract_chain_id(args) or 8453`
unfoldable pub chain_or_base : Option ℤ → ℤ
chain_or_base none = pos 8453
chain_or_base (some c) = if eq_ℤ c (pos 0) then pos 8453 else c

-- The decimals of the amount: those of the token, if one is named.
unfoldable pub decimals_of : Host → Args → Option ℕ
decimals_of host args =
    let token = get "token" args in
    if is_true token
    then host.peek (host.text_of token) (chain_or_base (extract_chain_id host args))
    else some 18

abbrev is_blank : Value → Bool
is_blank null = true
is_blank (str s) = str_eq s ""
is_blank _ = false

unfoldable pub amount_value : Host → Args → Option ℤ
amount_value host args =
    let amount = get "amount" args in
    if is_blank amount then none else (elim (decimals_of host args) [
      | none ↦ none
      | some decimals ↦ host.base_units amount decimals
    ])

unfoldable pub extract_value_wei : Host → Args → Option ℤ
extract_value_wei host args = elim (int_or_none host (get "value_wei" args)) [
  | some n ↦ some n
  | none ↦ elim (int_or_none host (get "amount_wei" args)) [
    | some n ↦ some n
    | none ↦ amount_value host args
  ]
]

-- Whether an OverflowError ends the extraction; `amount_wei` is only read if `value_wei` gave none.
unfoldable pub extraction_overflows : Host → Args → Bool
extraction_overflows host args =
    raises_overflow host (raw_chain args)
    || (raises_overflow host (get "value_wei" args)
        || (not (is_some (int_or_none host (get "value_wei" args)))
            && raises_overflow host (get "amount_wei" args)))
