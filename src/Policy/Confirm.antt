-- ===== src/Policy/Confirm.antt =====
-- clawmes/policy/confirm_store.py: one-time nonces. `secrets.token_urlsafe` and `time.monotonic`
-- are arguments; `_fingerprint` renders the tool and the sorted arguments with `repr`, which is the
-- argument `render`.
pub mod Taken
pub mod SingleUse
use clawmes.Base.{
  ℕ, ◌+◌, String, Bool, true, false, not, ◌&&◌, ◌||◌, Option, none, some, List, [], ◌∷◌, ◌++◌, ltb,
  if◌then◌else◌, keep_if, str_eq,
}
use clawmes.Policy.Types.{Args, ActionContext}

pub record Pending : Type 0 where
  pub nonce : String
  pub fingerprint : String
  pub expires_at : ℕ

abbrev pub Store : Type 0
Store = List Pending

abbrev pub default_ttl_seconds : ℕ
default_ttl_seconds = 600

abbrev pub nonce_key : String
nonce_key = "policyConfirmationNonce"

-- The arguments that the fingerprint covers.
unfoldable pub without_nonce : Args → Args
without_nonce [] = []
without_nonce ((k, v) ∷ args) =
    if str_eq k nonce_key then without_nonce args else (k, v) ∷ without_nonce args

unfoldable pub fingerprint : (String → Args → String) → ActionContext → String
unfolding without_nonce
fingerprint render ctx = render ctx.tool_name (without_nonce ctx.args)

-- `_gc_locked`
unfoldable pub gc : ℕ → Store → Store
gc now pending = keep_if (λ p. ltb now p.expires_at) pending

unfoldable pub issue : (String → Args → String) → ℕ → ActionContext → String → ℕ → Store → Store
issue render ttl ctx nonce now pending =
    gc now pending
    ++ record { nonce = nonce; fingerprint = fingerprint render ctx; expires_at = now + ttl } ∷ []

-- The loop of `consume`: the first entry with the nonce and the fingerprint is taken out.
unfoldable pub take_match : String → String → Store → Option Store
take_match nonce fp [] = none
take_match nonce fp (p ∷ pending) =
    if str_eq p.nonce nonce && str_eq p.fingerprint fp
    then some pending
    else (elim (take_match nonce fp pending) [ none ↦ none | some rest ↦ some (p ∷ rest) ])

unfoldable pub consume :
    (String → Args → String) → ActionContext → String → ℕ → Store → Bool × Store
consume render ctx nonce now pending =
    let live = gc now pending in
    elim (take_match nonce (fingerprint render ctx) live) [
      | none ↦ (false, live)
      | some rest ↦ (true, rest)
    ]
