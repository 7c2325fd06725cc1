-- ===== src/Delegation/Compiler/Preview.antt =====
-- The preview of a compiled delegation tells the truth of what is signed.
use clawmes.Base.{
  ℕ, ◌+◌, ◌++◌, length, ◌≡◌, refl, sym, subst, Bool, not, Option, none, some, List, [], ◌∷◌, arith,
  Option-cases, inl, inr,
}
use clawmes.Base.Int.{ℤ, pos}
use clawmes.Delegation.Hex.{Text, codes}
use clawmes.Delegation.Types.{Caveat, is_supported_chain}
use clawmes.Delegation.Encoding.{
  Codec, terms_value_lte, terms_native_transfer_amount, terms_native_period, terms_erc20_period,
  terms_limited_calls, terms_timestamp, terms_allowed_targets, terms_erc20_transfer_amount,
}
use clawmes.Delegation.Compiler.{
  Line, native_per_call, native_per_period, native_lifetime, token_per_period, token_lifetime,
  total_calls, call_window, restricted_targets, expires_in, add_line, Enforcer, enforcer_address,
  Erc20Limit, DelegationSpec, Result, built, Draft, empty_draft, CompiledDelegation, add_caveat,
  unsupported_chain, value_lte, native_period, native_total, erc20_period, erc20_total,
  limited_calls, timestamp, allowed_targets, add_limit, add_per_call, add_native_cap, add_erc20,
  add_calls, add_target_list, add_targets, add_expiry, finish, draft_of, compile_spec, ◌>>=◌,
}
use clawmes.Delegation.Compiler.Laws.{
  >>=-eq-built, raise_if-eq-built, Ensures, returns, fails, Ensures-bind, Ensures-raise_if,
  Ensures-if, Ensures-built,
}

-- A line of the preview tells the truth of a caveat: it names the caveat's enforcer, and the terms
-- are those of the numbers that it shows; the clock says `now`.
unfoldable pub Describes : Codec → List Text → ℕ → Line → Caveat → Type 0
Describes codec targets now (native_per_call wei) c =
    (c.enforcer ≡ enforcer_address value_lte) × (terms_value_lte codec wei ≡ some c.terms)
Describes codec targets now (native_per_period cap period) c =
    (c.enforcer ≡ enforcer_address native_period)
    × (terms_native_period codec cap (pos 0) period ≡ some c.terms)
Describes codec targets now (native_lifetime cap) c =
    (c.enforcer ≡ enforcer_address native_total)
    × (terms_native_transfer_amount codec cap ≡ some c.terms)
Describes codec targets now (token_per_period token amount period) c =
    (c.enforcer ≡ enforcer_address erc20_period)
    × (terms_erc20_period codec token amount (pos 0) period ≡ some c.terms)
Describes codec targets now (token_lifetime token amount) c =
    (c.enforcer ≡ enforcer_address erc20_total)
    × (terms_erc20_transfer_amount token amount ≡ some c.terms)
Describes codec targets now (total_calls calls) c =
    (c.enforcer ≡ enforcer_address limited_calls) × (terms_limited_calls codec calls ≡ some c.terms)
Describes codec targets now (call_window seconds) c =
    (c.enforcer ≡ enforcer_address timestamp)
    × (terms_timestamp codec (pos now) (pos (now + seconds)) ≡ some c.terms)
Describes codec targets now (restricted_targets n) c =
    (c.enforcer ≡ enforcer_address allowed_targets)
    × ((terms_allowed_targets codec targets ≡ some c.terms) × (n ≡ length targets))
Describes codec targets now (expires_in seconds) c =
    (c.enforcer ≡ enforcer_address timestamp)
    × (terms_timestamp codec (pos 0) (pos (now + seconds)) ≡ some c.terms)

-- The lines and the caveats of one number, each line with the caveat at its place.
pub data AllDescribed (codec : Codec) (targets : List Text) (now : ℕ)
    : List Line → List Caveat → Type 0 where
  none_left : AllDescribed codec targets now [] []
  described :
      {line : Line} {c : Caveat} {lines : List Line} {caveats : List Caveat}
      → Describes codec targets now line c
      → AllDescribed codec targets now lines caveats
      → AllDescribed codec targets now (line ∷ lines) (c ∷ caveats)

module _ (codec : Codec) (targets : List Text) (now : ℕ) where
  abbrev pub IsListed : Draft → Type 0
  IsListed d = AllDescribed codec targets now d.mapped d.caveats

  described-append :
      (line : Line) (c : Caveat) {lines : List Line} {caveats : List Caveat}
      → AllDescribed codec targets now lines caveats
      → Describes codec targets now line c
      → AllDescribed codec targets now (lines ++ line ∷ []) (caveats ++ c ∷ [])
  described-append line c none_left h = described h none_left
  described-append line c (described g rest) h = described g (described-append line c rest h)

  -- A caveat that is added with its line, and whatever comes next.
  added-IsListed :
      (e : Enforcer) (terms : Option Text) (line : Line) (d : Draft) (next : Draft → Result Draft)
      → IsListed d
      → ((t : Text)
          → terms ≡ some t
          → Describes codec targets now line
              record { enforcer = enforcer_address e; terms = t; args = codes "0x" })
      → ((d' : Draft) → IsListed (add_line line d') → Ensures IsListed (next d'))
      → Ensures IsListed (add_caveat e terms d >>= next)
  unfolding add_caveat
  added-IsListed e none line d next l true_ k = fails
  added-IsListed e (some terms) line d next l true_ k =
      k _ (described-append line _ l (true_ terms refl))

module _ (codec : Codec) (accepts_int16 : Text → Bool) (salt_from : Text → Text → ℕ → ℤ)
    (all_targets : List Text) (now : ℕ) where
  add_per_call-IsListed :
      (spec : DelegationSpec) (d : Draft)
      → IsListed codec all_targets now d
      → Ensures (IsListed codec all_targets now) (add_per_call codec accepts_int16 salt_from spec d)
  unfolding add_per_call Describes
  add_per_call-IsListed spec d l = elim (Option-cases spec.native_per_call_wei) [
    | inl e ↦ rw (e, add_per_call) (returns l)
    | inr (wei, e) ↦
        rw (e, add_per_call)
          (Ensures-raise_if _ _ (
            added-IsListed codec all_targets now value_lte _ (native_per_call wei) d _ l
              (λ t h. (refl, h)) (λ d' l'. returns l')))
  ]

  add_native_cap-IsListed :
      (spec : DelegationSpec) (d : Draft)
      → IsListed codec all_targets now d
      → Ensures
          (IsListed codec all_targets now)
          (add_native_cap codec accepts_int16 salt_from spec d)
  unfolding add_native_cap Describes
  add_native_cap-IsListed spec d l = elim (Option-cases spec.native_cap_wei) [
    | inl e ↦ rw (e, add_native_cap) (returns l)
    | inr (cap_wei, e) ↦
        let period = native_per_period cap_wei spec.native_period_seconds in
        rw (e, add_native_cap)
          (Ensures-raise_if _ _ (
            Ensures-if _
              (added-IsListed codec all_targets now native_period _ period d _ l (λ t h. (refl, h))
                (λ d' l'. returns l'))
              (added-IsListed codec all_targets now native_total _ (native_lifetime cap_wei) d _ l
                (λ t h. (refl, h)) (λ d' l'. returns l'))))
  ]

  add_limit-IsListed :
      (limit : Erc20Limit) (d : Draft)
      → IsListed codec all_targets now d
      → Ensures (IsListed codec all_targets now) (add_limit codec accepts_int16 salt_from limit d)
  unfolding add_limit Describes
  add_limit-IsListed limit d l =
      let period = token_per_period limit.token limit.max_amount limit.period_seconds in
      let lifetime = token_lifetime limit.token limit.max_amount in
      Ensures-raise_if _ _ (
        Ensures-if _
          (added-IsListed codec all_targets now erc20_period _ period d _ l (λ t h. (refl, h))
            (λ d' l'. returns l'))
          (added-IsListed codec all_targets now erc20_total _ lifetime d _ l (λ t h. (refl, h))
            (λ d' l'. returns l')))

  add_erc20-IsListed :
      (limits : List Erc20Limit) (d : Draft)
      → IsListed codec all_targets now d
      → Ensures (IsListed codec all_targets now) (add_erc20 codec accepts_int16 salt_from limits d)
  unfolding add_erc20
  add_erc20-IsListed [] d l = returns l
  add_erc20-IsListed (limit ∷ limits) d l =
      Ensures-bind (add_limit-IsListed limit d l) (add_erc20-IsListed limits)

  add_calls-IsListed :
      (spec : DelegationSpec) (d : Draft)
      → IsListed codec all_targets now d
      → Ensures
          (IsListed codec all_targets now)
          (add_calls codec accepts_int16 salt_from spec now d)
  unfolding add_calls Describes
  add_calls-IsListed spec d l = elim (Option-cases spec.max_calls) [
    | inl e ↦ rw (e, add_calls) (returns l)
    | inr (calls, e) ↦
        let window = call_window spec.calls_window_seconds in
        rw (e, add_calls)
          (Ensures-raise_if _ _ (
            added-IsListed codec all_targets now limited_calls _ (total_calls calls) d _ l
              (λ t h. (refl, h))
              (λ d' l'. Ensures-if _ (returns l') (
                added-IsListed codec all_targets now timestamp _ window _ _ l' (λ t h. (refl, h))
                  (λ d'' l''. returns l'')))))
  ]

  targets-IsListed :
      (targets : List Text) (d : Draft)
      → targets ≡ all_targets
      → IsListed codec all_targets now d
      → Ensures
          (IsListed codec all_targets now)
          (add_target_list codec accepts_int16 salt_from targets d)
  unfolding add_target_list Describes
  targets-IsListed [] d same l = returns l
  targets-IsListed (t ∷ targets) d same l = Ensures-raise_if _ _ (
      added-IsListed codec all_targets now allowed_targets _
        (restricted_targets (length (t ∷ targets))) d _ l
        (λ s h. (refl, (rw (sym same) h, rw (sym same) refl))) (λ d' l'. returns l'))

  add_expiry-IsListed :
      (spec : DelegationSpec) (d : Draft)
      → IsListed codec all_targets now d
      → Ensures
          (IsListed codec all_targets now)
          (add_expiry codec accepts_int16 salt_from spec now d)
  unfolding add_expiry Describes
  add_expiry-IsListed spec d l = Ensures-if _ (returns l) (
      added-IsListed codec all_targets now timestamp _ (expires_in spec.expiry_seconds) d _ l
        (λ t h. (refl, h)) (λ d' l'. returns l'))

module _ (codec : Codec) (accepts_int16 : Text → Bool) (salt_from : Text → Text → ℕ → ℤ) where
  draft_of-IsListed :
      (spec : DelegationSpec) (now : ℕ)
      → Ensures
          (IsListed codec spec.allowed_targets_ now)
          (draft_of codec accepts_int16 salt_from spec now)
  unfolding draft_of add_targets
  draft_of-IsListed spec now =
      let ts = spec.allowed_targets_ in
      Ensures-bind
        (add_per_call-IsListed codec accepts_int16 salt_from ts now spec empty_draft none_left)
        λ d1 l1.
          Ensures-bind (add_native_cap-IsListed codec accepts_int16 salt_from ts now spec d1 l1)
            λ d2 l2.
              Ensures-bind
                (add_erc20-IsListed codec accepts_int16 salt_from ts now spec.erc20 d2 l2)
                λ d3 l3.
                  Ensures-bind (add_calls-IsListed codec accepts_int16 salt_from ts now spec d3 l3)
                    λ d4 l4.
                      Ensures-bind
                        (targets-IsListed codec accepts_int16 salt_from ts now ts d4 refl l4)
                        (add_expiry-IsListed codec accepts_int16 salt_from ts now spec)

  -- The preview of a compiled delegation has one line for each signed caveat, in order, and each
  -- tells the truth: it names the enforcer of its caveat, and the caveat's terms encode the numbers
  -- that it shows, or, for targets, all the targets of the given number.
  pub compile_spec-lists_caveats :
      (spec : DelegationSpec) (delegate delegator : Text) (chain_id : ℕ) (salt : Option ℤ) (now : ℕ)
      {c : CompiledDelegation}
      → compile_spec codec accepts_int16 salt_from spec delegate delegator chain_id salt now
        ≡ built c
      → AllDescribed codec spec.allowed_targets_ now c.mapped c.delegation.caveats
  unfolding compile_spec finish
  compile_spec-lists_caveats spec delegate delegator chain_id salt now {c} h =
      let (_, h') = raise_if-eq-built (not (is_supported_chain chain_id)) unsupported_chain _ h in
      let (d, drafted, finished) =
        >>=-eq-built (draft_of codec accepts_int16 salt_from spec now) _ h' in
      let listed = Ensures-built d (draft_of-IsListed spec now) drafted in
      let (lines, caveats) : (d.mapped ≡ c.mapped) × (d.caveats ≡ c.delegation.caveats) =
        ground arith in
      subst (λ ls. AllDescribed codec spec.allowed_targets_ now ls c.delegation.caveats) lines
        (subst (λ cs. AllDescribed codec spec.allowed_targets_ now d.mapped cs) caveats listed)
