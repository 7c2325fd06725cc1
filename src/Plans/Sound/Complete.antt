-- ===== src/Plans/Sound/Complete.antt =====
-- A plan of sound steps within positive limits is valid, and no other.
use clawmes.Base.{
  ℕ, suc, ◌≡◌, ◌≢◌, ◌↔◌, refl, inl, inr, Bool, true, false, not, ◌&&◌, Option, none, some, List, [],
  ◌∷◌, ◌++◌, arith, Option-cases, is_some, str_eq, eq_iff,
}
use clawmes.Plans.{
  Step, action, if_, loop, parallel, unknown, Steps, end, step, Branches, no_more, branch, Plan,
  Part, in_then, in_else, in_body, step_at, branch_at, Problem, Error, schema, is_nil, error_list,
  fails_if, is_above_zero, is_no_more, check_step, check_steps, check_branches, pass_schema,
  no_tool, pass_bounded_resources, validate_plan,
}
use clawmes.Plans.Sound.{
  Occurs, here, later, inside, OccursInside, of_then, of_else, of_body, of_branch, OccursAmong,
  of_first, of_rest, IsSound, Occurs-IsSound,
}

some_branch : (branches : Branches) → branches ≢ no_more → is_no_more branches ≡ false
some_branch no_more h = absurd (h refl)
some_branch (branch _ _) h = refl

fails_if-passes :
    (b : Bool) (path : List Part) (problem : Problem) → b ≡ false → fails_if b path problem ≡ none
fails_if-passes b path problem h = rw h refl

mutual
  unfolding check_step check_steps check_branches IsSound

  check_step-none :
      (t : Step) (path : List Part)
      → IsSound t
      → ((s : Step) → OccursInside s t → IsSound s)
      → check_step t path ≡ none
  check_step-none (action tool o r l) path sound all =
      fails_if-passes _ path no_tool (ground (arith, sound, eq_iff tool ""))
  check_step-none (if_ condition t e l) path sound all =
      let named : str_eq condition "" ≡ false = ground (arith, sound, eq_iff condition "") in
      rw
        (
          named,
          check_steps-none t (path ++ in_then ∷ []) 0 (λ s o. all s (of_then o)),
          check_steps-none e (path ++ in_else ∷ []) 0 (λ s o. all s (of_else o)),
        )
        refl
  check_step-none (loop iterations body every until l) path sound all =
      let ends : (not (is_above_zero iterations) && not (is_some until)) ≡ false =
        ground (arith, sound) in
      rw (ends, check_steps-none body (path ++ in_body ∷ []) 0 (λ s o. all s (of_body o))) refl
  check_step-none (parallel branches m l) path sound all =
      rw
        (
          some_branch branches sound,
          check_branches-none branches path 0 (λ s o. all s (of_branch o)),
        )
        refl
  check_step-none (unknown type_name) path sound all = ground (arith, sound)

  check_steps-none :
      (steps : Steps) (prefix : List Part) (i : ℕ)
      → ((s : Step) → Occurs s steps → IsSound s)
      → check_steps steps prefix i ≡ none
  check_steps-none end prefix i all = refl
  check_steps-none (step t rest) prefix i all =
      rw
        (
          check_step-none t (prefix ++ step_at i ∷ []) (all t here) (λ s o. all s (inside o)),
          check_steps-none rest prefix (suc i) (λ s o. all s (later o)),
        )
        refl

  check_branches-none :
      (branches : Branches) (path : List Part) (j : ℕ)
      → ((s : Step) → OccursAmong s branches → IsSound s)
      → check_branches branches path j ≡ none
  check_branches-none no_more path j all = refl
  check_branches-none (branch steps rest) path j all =
      rw
        (
          check_steps-none steps (path ++ branch_at j ∷ []) 0 (λ s o. all s (of_first o)),
          check_branches-none rest path (suc j) (λ s o. all s (of_rest o)),
        )
        refl

-- The limits that the fifth pass looks at.
unfoldable pub HasLimits : Plan → Type 0
HasLimits p =
    (is_above_zero p.max_parallelism ≡ true)
    × (is_above_zero p.max_loop_iterations ≡ true)
    × (is_above_zero p.max_wall_clock_seconds ≡ true)

-- A plan with a step, whose steps at every depth are sound, within positive limits.
unfoldable pub IsAdmissible : Plan → Type 0
IsAdmissible p = (p.steps ≢ end) × ((s : Step) → Occurs s p.steps → IsSound s) × HasLimits p

-- The schema pass of a list of steps fails only where a step does.
schema_free : (steps : Steps) → pass_schema steps ≡ none → check_steps steps [] 0 ≡ none
unfolding pass_schema
schema_free end h = ground arith
schema_free (step t rest) h = elim (Option-cases (check_steps (step t rest) [] 0)) [
  | inl fine ↦ fine
  | inr (f, e) ↦ (let never : some (schema f) ≡ none = rw (pass_schema, e) at h in ground arith)
]

pass_schema-none :
    (steps : Steps)
    → (pass_schema steps ≡ none) ↔ ((steps ≢ end) × ((s : Step) → Occurs s steps → IsSound s))
unfolding pass_schema
pass_schema-none end = (λ h. ground arith, λ (some_, _). absurd (some_ refl))
pass_schema-none (step t rest) = (
  λ h. (λ e. ground arith, λ s o. Occurs-IsSound [] 0 o (schema_free (step t rest) h)),
  λ (_, all). rw (pass_schema, check_steps-none (step t rest) [] 0 all) refl,
)

pass_bounded_resources-none : (p : Plan) → (pass_bounded_resources p ≡ none) ↔ HasLimits p
unfolding pass_bounded_resources HasLimits
pass_bounded_resources-none p = ground arith

no_errors :
    (a b : Option Error) → is_nil (error_list a ++ error_list b) ≡ true → (a ≡ none) × (b ≡ none)
no_errors none none h = (refl, refl)
no_errors none (some e) h = ground arith
no_errors (some e) b h = ground arith

-- A plan is valid exactly where it has a step, every step at any depth has the tool, the condition,
-- the branches or the end that its kind needs, and its three limits are positive.
pub validate_plan-IsAdmissible : (p : Plan) → ((validate_plan p).ok ≡ true) ↔ IsAdmissible p
unfolding validate_plan IsAdmissible
validate_plan-IsAdmissible p =
    let (schema_only, schema_back) = pass_schema-none p.steps in
    let (limits_only, limits_back) = pass_bounded_resources-none p in
    (
      λ h.
          (let (first, second) = no_errors (pass_schema p.steps) (pass_bounded_resources p) h in
            let (some_, all) = schema_only first in (some_, all, limits_only second)),
      λ (some_, all, limits). rw (schema_back (some_, all), limits_back limits) refl,
    )
