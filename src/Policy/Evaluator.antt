-- ===== src/Policy/Evaluator.antt =====
-- clawmes/policy/evaluator.py: the first policy that applies decides. The usage counter is passed
-- through, since `count` evicts old entries.
pub mod FirstMatch
use clawmes.Base.{
  ℕ, String, Bool, true, false, not, ◌&&◌, ◌||◌, Option, none, some, List, [], ◌∷◌, if◌then◌else◌,
  str_eq,
}
use clawmes.Base.Int.{ℤ, pos, leb_ℤ}
use clawmes.Policy.Types.{
  ActionContext, Policy, Decision, Reason, none_given, described, gates, matched, allow,
  matches_filters, has_quantitative_gates,
}
use clawmes.Policy.Usage.{Buckets, window_seconds, count, record_use}

abbrev pub allow_decision : Decision
allow_decision = record { kind = allow; policy_name = ""; reason = none_given }

unfoldable pub amount_triggers : Option ℤ → Option ℤ → Bool
amount_triggers (some threshold) (some value) = leb_ℤ threshold value
amount_triggers _ none = false
amount_triggers none _ = false

-- `_gate_triggers`: the counter is read only if the amount gate has not fired.
unfoldable pub gate_triggers : Policy → ActionContext → ℕ → Buckets → Bool × Buckets
gate_triggers p ctx now st =
    if amount_triggers p.max_amount_wei ctx.value_wei then (true, st) else (elim p.max_per_hour [
      | none ↦ (false, st)
      | some limit ↦
          let (n, st') = count window_seconds ctx.user_id ctx.tool_name now st in
          (leb_ℤ limit (pos n), st')
    ])

abbrev pub amount_part : Option ℤ → Option ℤ → Option (ℤ × ℤ)
amount_part (some threshold) (some value) = some (value, threshold)
amount_part _ none = none
amount_part none _ = none

-- `_default_reason`
unfoldable pub default_reason : Policy → ActionContext → ℕ → Buckets → Reason × Buckets
default_reason p ctx now st =
    let amount = amount_part p.max_amount_wei ctx.value_wei in
    elim p.max_per_hour [
      | none ↦ (elim amount [ none ↦ matched p.name | some a ↦ gates (some a) none ], st)
      | some limit ↦
          let (n, st') = count window_seconds ctx.user_id ctx.tool_name now st in
          (gates amount (some (n, limit)), st')
    ]

-- `policy.description or _default_reason(policy, ctx)`
unfoldable pub decide : Policy → ActionContext → ℕ → Buckets → Decision × Buckets
decide p ctx now st =
    let (reason, st') =
      (if str_eq p.description ""
        then default_reason p ctx now st
        else (described p.description, st)) in
    (record { kind = p.decision; policy_name = p.name; reason = reason }, st')

-- Whether a policy decides, with the counter after asking.
unfoldable pub applies : Policy → ActionContext → ℕ → Buckets → Bool × Buckets
applies p ctx now st =
    if not (matches_filters p ctx)
    then (false, st)
    else (if has_quantitative_gates p then gate_triggers p ctx now st else (true, st))

unfoldable pub evaluate : ActionContext → List Policy → ℕ → Buckets → Decision × Buckets
evaluate ctx [] now st = (allow_decision, st)
evaluate ctx (p ∷ rules) now st =
    let (hit, st') = applies p ctx now st in
    let rest = evaluate ctx rules now st' in if hit then decide p ctx now st' else rest

unfoldable pub record_invocation : ActionContext → ℕ → Buckets → Buckets
record_invocation ctx now st = record_use window_seconds ctx.user_id ctx.tool_name now st
