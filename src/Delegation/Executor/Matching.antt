-- ===== src/Delegation/Executor/Matching.antt =====
-- Which stored delegation an action is redeemed with.
use clawmes.Base.{
  ℕ, ◌≡◌, refl, sym, ap, ◌⊎◌, inl, inr, ◌↔◌, String, true, Option, none, some, List, [], ◌∷◌, arith,
  Bool-cases,
}
use clawmes.Base.Int.{ℤ, pos}
use clawmes.Policy.Types.{ActionContext}
use clawmes.Policy.Evaluator.FirstMatch.{Listed, contains_iff, eq_ℤ_iff}
use clawmes.Delegation.Types.{
  DelegationRecord, Status, unsigned, signed, active, revoked, expired, redeemable_status,
  is_redeemable,
}
use clawmes.Delegation.Executor.{in_scope, scope_covers, on_chain, is_match, find_matching}

-- The record is live, its scope has the tool, and its chain is the action's, if that is known.
abbrev pub Serves : ActionContext → DelegationRecord → Type 0
Serves ctx r =
    ((r.status ≡ signed) ⊎ (r.status ≡ active))
    × ((r.tools ≡ []) ⊎ Listed ctx.tool_name r.tools)
    × ((ctx.chain_id ≡ none) ⊎ (ctx.chain_id ≡ some (pos r.chain_id)))

-- The first record of a listing that serves.
pub data First (ctx : ActionContext)
    : List DelegationRecord → Option DelegationRecord → Type 0 where
  nobody : First ctx [] none
  this :
      (r : DelegationRecord) (records : List DelegationRecord)
      → Serves ctx r
      → First ctx (r ∷ records) (some r)
  later :
      (r : DelegationRecord) {records : List DelegationRecord} {o : Option DelegationRecord}
      → ¬ Serves ctx r
      → First ctx records o
      → First ctx (r ∷ records) o

redeemable_status_iff : (s : Status) → (redeemable_status s ≡ true) ↔ ((s ≡ signed) ⊎ (s ≡ active))
redeemable_status_iff unsigned = ground arith
redeemable_status_iff signed = (λ _. inl refl, λ _. refl)
redeemable_status_iff active = (λ _. inr refl, λ _. refl)
redeemable_status_iff revoked = ground arith
redeemable_status_iff expired = ground arith

in_scope_iff :
    (tools : List String) (tool : String)
    → (in_scope tools tool ≡ true) ↔ ((tools ≡ []) ⊎ Listed tool tools)
in_scope_iff [] tool = ground arith
in_scope_iff (t ∷ tools) tool = ground (arith, contains_iff tool (t ∷ tools))

on_chain_iff : (o : Option ℤ) (c : ℕ) → (on_chain o c ≡ true) ↔ ((o ≡ none) ⊎ (o ≡ some (pos c)))
on_chain_iff none c = ground arith
on_chain_iff (some k) c =
    let e = eq_ℤ_iff (pos c) k in
    (
      λ h. inr (ap some (sym (e.0 h))),
      λ h. elim h [ inl never ↦ ground arith | inr same ↦ e.1 (ground arith) ],
    )

pub is_match_iff :
    (ctx : ActionContext) (r : DelegationRecord) → (is_match ctx r ≡ true) ↔ Serves ctx r
unfolding is_match is_redeemable scope_covers
is_match_iff ctx r = ground (
  arith,
  redeemable_status_iff r.status,
  in_scope_iff r.tools ctx.tool_name,
  on_chain_iff ctx.chain_id r.chain_id,
)

-- The delegation that is chosen is the first of the listing that is signed or active, whose scope
-- is empty or has the tool, and whose chain is the action's where the action names one; none is
-- chosen only if no record of the listing is such.
pub find_matching-First :
    (ctx : ActionContext) (records : List DelegationRecord)
    → First ctx records (find_matching ctx records)
unfolding find_matching
find_matching-First ctx [] = nobody
find_matching-First ctx (r ∷ records) = elim (Bool-cases (is_match ctx r)) [
  | inl hit ↦ rw hit (this r records ((is_match_iff ctx r).0 hit))
  | inr miss ↦
      rw miss
        (later r (λ s. ground (arith, (is_match_iff ctx r).1 s)) (find_matching-First ctx records))
]

pub First-Listed :
    {ctx : ActionContext} {records : List DelegationRecord} (r : DelegationRecord)
    → First ctx records (some r)
    → Listed r records × Serves ctx r
First-Listed r (this q records s) = (inl refl, s)
First-Listed r (later q {records} n f) = let (l, s) = First-Listed r f in (inr l, s)
