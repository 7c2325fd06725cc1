-- ===== src/Delegation/Compiler.antt =====
-- clawmes/delegation/compiler.py. Human-readable lines are kept as what they say: a line of `mapped`
-- as its kind with the numbers that it shows, and a warning as its kind; the time stamp `expires_at` is the number
-- that `datetime.fromtimestamp` renders, and `unmapped`, which is always empty, is left out. The
-- window and the lifetime are natural numbers: the code treats a negative one as 0.
pub mod Laws
pub mod Preview
pub mod Safety
use clawmes.Base.{
  ℕ, ◌+◌, Bool, true, false, not, ◌&&◌, Option, none, some, List, [], ◌∷◌, ◌++◌, if◌then◌else◌, all,
  is_some, length, ◌==◌, leb, String,
}
use clawmes.Base.Int.{ℤ, pos, negsuc, ltb_ℤ, leb_ℤ}
use clawmes.Delegation.Hex.{Text, codes, starts_with}
use clawmes.Delegation.Types.{Caveat, UnsignedDelegation, is_supported_chain, root_authority}
use clawmes.Delegation.Encoding.{
  Codec, terms_value_lte, terms_native_transfer_amount, terms_native_period, terms_erc20_period,
  terms_limited_calls, terms_timestamp, terms_allowed_targets, terms_erc20_transfer_amount,
}

pub data Enforcer : Type 0 where
  value_lte native_period native_total erc20_period erc20_total limited_calls timestamp
        allowed_targets :
      Enforcer

-- The enforcer contracts of clawmes/delegation/types.py.
abbrev pub enforcer_address : Enforcer → Text
enforcer_address value_lte = codes "0x92Bf12322527cAA612fd31a0e810472BBB106A8F"
enforcer_address native_period = codes "0x9BC0FAf4Aca5AE429F4c06aEEaC517520CB16BD9"
enforcer_address native_total = codes "0xF71af580b9c3078fbc2BBF16FbB8EEd82b330320"
enforcer_address erc20_period = codes "0x474e3Ae7E169e940607cC624Da8A15Eb120139aB"
enforcer_address erc20_total = codes "0xf100b0819427117EcF76Ed94B358B1A5b5C6D2Fc"
enforcer_address limited_calls = codes "0x04658B29F6b82ed55274221a06Fc97D318E25416"
enforcer_address timestamp = codes "0x1046bb45C8d673d4ea75321280DB34899413c069"
enforcer_address allowed_targets = codes "0x7F20f61b1f09b08D970938F6fa563634d65c4EeB"

pub record Erc20Limit : Type 0 where
  pub token : Text
  pub max_amount : ℤ
  pub period_seconds : ℤ

pub record DelegationSpec : Type 0 where
  pub native_per_call_wei : Option ℤ
  pub native_cap_wei : Option ℤ
  pub native_period_seconds : ℤ
  pub erc20 : List Erc20Limit
  pub max_calls : Option ℤ
  pub calls_window_seconds : ℕ
  pub allowed_targets_ : List Text
  pub expiry_seconds : ℕ
  pub allow_unrestricted : Bool

-- The messages of `CompileError`; `encoding` is an exception that an encoder raises.
pub data Failure : Type 0 where
  unsupported_chain per_call_negative cap_not_positive erc20_cap_not_positive max_calls_not_positive
        bad_targets unrestricted encoding :
      Failure

pub data Result {ℓ} (D : Type ℓ) : Type ℓ where
  rejected : Failure → Result D
  built : D → Result D

infixl 5 ◌>>=◌
abbrev pub ◌>>=◌ {ℓ κ} : {D : Type ℓ} {E : Type κ} → Result D → (D → Result E) → Result E
rejected failure >>= next = rejected failure
built d >>= next = next d

infixl 5 ◌>>◌
abbrev pub ◌>>◌ {ℓ} : {E : Type ℓ} → Result (Unit {0}) → Result E → Result E
check >> next = check >>= λ _. next

abbrev pub raise_if : Bool → Failure → Result (Unit {0})
raise_if true failure = rejected failure
raise_if false failure = built tt

-- A line of the preview, by what it says; the enforcer that it names follows from its kind.
pub data Line : Type 0 where
  native_per_call : (wei : ℤ) → Line
  native_per_period : (cap_wei period_seconds : ℤ) → Line
  native_lifetime : (cap_wei : ℤ) → Line
  token_per_period : (token : Text) → (max_amount period_seconds : ℤ) → Line
  token_lifetime : (token : Text) → (max_amount : ℤ) → Line
  total_calls : (calls : ℤ) → Line
  call_window : (seconds : ℕ) → Line
  restricted_targets : (targets : ℕ) → Line
  expires_in : (seconds : ℕ) → Line

pub data Warning : Type 0 where
  lifetime_native_cap window_expires : Warning

-- The lists that `compile_spec` builds up.
pub record Draft : Type 0 where
  pub caveats : List Caveat
  pub mapped : List Line
  pub warnings : List Warning
  pub expiry_befores : List ℕ

pub record CompiledDelegation : Type 0 where
  pub delegation : UnsignedDelegation
  pub mapped : List Line
  pub warnings : List Warning
  pub expires_at : Option ℕ

abbrev pub empty_draft : Draft
empty_draft = record { caveats = []; mapped = []; warnings = []; expiry_befores = [] }

-- `caveats.append(Caveat(ENFORCER, terms))`; `none` is an exception of the encoder.
unfoldable pub add_caveat : Enforcer → Option Text → Draft → Result Draft
add_caveat e none d = rejected encoding
add_caveat e (some terms) d = built (record d {
  caveats =
      d.caveats
      ++ (record { enforcer = enforcer_address e; terms = terms; args = codes "0x" }) ∷ [];
})

-- `mapped.append(...)`
abbrev pub add_line : Line → Draft → Draft
add_line line d = record d { mapped = d.mapped ++ line ∷ [] }

abbrev pub warn : Warning → Draft → Draft
warn w d = record d { warnings = d.warnings ++ w ∷ [] }

abbrev pub expire : ℕ → Draft → Draft
expire before d = record d { expiry_befores = d.expiry_befores ++ before ∷ [] }

-- `min(befores)` of a list that is not empty.
abbrev pub minimum : ℕ → List ℕ → ℕ
minimum m [] = m
minimum m (n ∷ ns) = minimum (if leb m n then m else n) ns

abbrev pub earliest : List ℕ → Option ℕ
earliest [] = none
earliest (n ∷ ns) = some (minimum n ns)

-- `_is_address`; `accepts_int16 s` says that `int(s, 16)` does not raise.
unfoldable pub is_address : (Text → Bool) → Text → Bool
is_address accepts_int16 value =
    starts_with (codes "0x") value && (length value == 42 && accepts_int16 value)

-- The codec of the eth packages, `int(s, 16)` accepting a text, and the salt from keccak.
module _ (codec : Codec) (accepts_int16 : Text → Bool) (salt_from : Text → Text → ℕ → ℤ) where
  unfoldable pub add_per_call : DelegationSpec → Draft → Result Draft
  add_per_call spec d = elim spec.native_per_call_wei [
    | none ↦ built d
    | some wei ↦ do
      raise_if (ltb_ℤ wei (pos 0)) per_call_negative
      d' ← add_caveat value_lte (terms_value_lte codec wei) d
      built (add_line (native_per_call wei) d')
  ]

  unfoldable pub add_native_cap : DelegationSpec → Draft → Result Draft
  add_native_cap spec d = elim spec.native_cap_wei [
    | none ↦ built d
    | some cap_wei ↦ do
      raise_if (leb_ℤ cap_wei (pos 0)) cap_not_positive
      (if ltb_ℤ (pos 0) spec.native_period_seconds
          then (do
            d' ←
                add_caveat native_period
                  (terms_native_period codec cap_wei (pos 0) spec.native_period_seconds) d
            built (add_line (native_per_period cap_wei spec.native_period_seconds) d'))
          else (do
            d' ← add_caveat native_total (terms_native_transfer_amount codec cap_wei) d
            built (warn lifetime_native_cap (add_line (native_lifetime cap_wei) d'))))
  ]

  -- One round of the loop over `spec.erc20`.
  unfoldable pub add_limit : Erc20Limit → Draft → Result Draft
  add_limit limit d = do
    raise_if (leb_ℤ limit.max_amount (pos 0)) erc20_cap_not_positive
    (if ltb_ℤ (pos 0) limit.period_seconds
        then (do
          d' ←
              add_caveat erc20_period
                (terms_erc20_period codec limit.token limit.max_amount (pos 0) limit.period_seconds)
                d
          built (add_line (token_per_period limit.token limit.max_amount limit.period_seconds) d'))
        else (do
          d' ← add_caveat erc20_total (terms_erc20_transfer_amount limit.token limit.max_amount) d
          built (add_line (token_lifetime limit.token limit.max_amount) d')))

  unfoldable pub add_erc20 : List Erc20Limit → Draft → Result Draft
  add_erc20 [] d = built d
  add_erc20 (limit ∷ limits) d = do d' ← add_limit limit d; add_erc20 limits d'

  unfoldable pub add_calls : DelegationSpec → ℕ → Draft → Result Draft
  add_calls spec now d = elim spec.max_calls [
    | none ↦ built d
    | some calls ↦ do
      raise_if (leb_ℤ calls (pos 0)) max_calls_not_positive
      d' ← add_caveat limited_calls (terms_limited_calls codec calls) d
      (if spec.calls_window_seconds == 0 then built (add_line (total_calls calls) d') else (do
        let before = now + spec.calls_window_seconds
        d'' ←
            add_caveat timestamp (terms_timestamp codec (pos now) (pos before))
              (add_line (total_calls calls) d')
        built (
            warn window_expires
              (add_line (call_window spec.calls_window_seconds) (expire before d'')))))
  ]

  unfoldable pub add_target_list : List Text → Draft → Result Draft
  add_target_list [] d = built d
  add_target_list (t ∷ targets) d = do
    raise_if (not (all (is_address accepts_int16) (t ∷ targets))) bad_targets
    d' ← add_caveat allowed_targets (terms_allowed_targets codec (t ∷ targets)) d
    built (add_line (restricted_targets (length (t ∷ targets))) d')

  unfoldable pub add_targets : DelegationSpec → Draft → Result Draft
  add_targets spec d = add_target_list spec.allowed_targets_ d

  unfoldable pub add_expiry : DelegationSpec → ℕ → Draft → Result Draft
  add_expiry spec now d = if spec.expiry_seconds == 0 then built d else (do
    let before = now + spec.expiry_seconds
    d' ← add_caveat timestamp (terms_timestamp codec (pos 0) (pos before)) d
    built (add_line (expires_in spec.expiry_seconds) (expire before d')))

  abbrev is_empty : List Caveat → Bool
  is_empty [] = true
  is_empty (c ∷ cs) = false

  unfoldable pub finish :
      DelegationSpec → Text → Text → Option ℤ → ℕ → Draft → Result CompiledDelegation
  finish spec delegate delegator salt now d = do
    raise_if (is_empty d.caveats && not spec.allow_unrestricted) unrestricted
    built (record {
      delegation = record {
        delegate = delegate;
        delegator = delegator;
        authority = root_authority;
        caveats = d.caveats;
        salt = elim salt [ none ↦ salt_from delegate delegator now | some s ↦ s ];
      };
      mapped = d.mapped;
      warnings = d.warnings;
      expires_at = earliest d.expiry_befores;
    })

  unfoldable pub draft_of : DelegationSpec → ℕ → Result Draft
  draft_of spec now = do
    d1 ← add_per_call spec empty_draft
    d2 ← add_native_cap spec d1
    d3 ← add_erc20 spec.erc20 d2
    d4 ← add_calls spec now d3
    d5 ← add_targets spec d4
    add_expiry spec now d5

  unfoldable pub compile_spec :
      DelegationSpec → Text → Text → ℕ → Option ℤ → ℕ → Result CompiledDelegation
  compile_spec spec delegate delegator chain_id salt now = do
    raise_if (not (is_supported_chain chain_id)) unsupported_chain
    d ← draft_of spec now
    finish spec delegate delegator salt now d
