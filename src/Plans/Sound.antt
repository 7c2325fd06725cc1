-- ===== src/Plans/Sound.antt =====
-- What a valid plan is, said of every step at any depth.
pub mod Complete
use clawmes.Base.{
  ℕ, suc, ◌≡◌, ◌≢◌, ◌↔◌, ◌⊎◌, refl, inl, inr, String, Bool, true, false, not, ◌&&◌, Option, none,
  some, List, [], ◌∷◌, ◌++◌, arith, Bool-cases, Option-cases, is_some, str_eq, eq_iff,
}
use clawmes.Base.Int.{ℤ, pos, negsuc}
use clawmes.Plans.{
  Step, action, if_, loop, parallel, unknown, Steps, end, step, Branches, no_more, branch, Plan,
  Part, in_then, in_else, in_body, step_at, branch_at, Failure, Problem, Error, or_else, fails_if,
  is_above_zero, is_no_more, check_step, check_steps, check_branches, pass_schema, no_tool,
  no_condition, endless, no_branches, pass_bounded_resources, validate_plan,
}

-- A step stands in a list of steps, in a step or in a list of branches, at any depth.
mutual
  pub data Occurs (s : Step) : Steps → Type 0 where
    here : {rest : Steps} → Occurs s (step s rest)
    later : {t : Step} {rest : Steps} → Occurs s rest → Occurs s (step t rest)
    inside : {t : Step} {rest : Steps} → OccursInside s t → Occurs s (step t rest)

  pub data OccursInside (s : Step) : Step → Type 0 where
    of_then :
        {condition label : String} {then_ else_ : Steps}
        → Occurs s then_
        → OccursInside s (if_ condition then_ else_ label)
    of_else :
        {condition label : String} {then_ else_ : Steps}
        → Occurs s else_
        → OccursInside s (if_ condition then_ else_ label)
    of_body :
        {iterations : ℤ} {body : Steps} {every until : Option String} {label : String}
        → Occurs s body
        → OccursInside s (loop iterations body every until label)
    of_branch :
        {branches : Branches} {max_concurrency : ℤ} {label : String}
        → OccursAmong s branches
        → OccursInside s (parallel branches max_concurrency label)

  pub data OccursAmong (s : Step) : Branches → Type 0 where
    of_first :
        {steps : Steps} {rest : Branches} → Occurs s steps → OccursAmong s (branch steps rest)
    of_rest :
        {steps : Steps} {rest : Branches} → OccursAmong s rest → OccursAmong s (branch steps rest)

-- A step is of a known kind and has what its kind needs; a loop ends by its count or by its `until`.
unfoldable pub IsSound : Step → Type 0
IsSound (action tool _ _ _) = tool ≢ ""
IsSound (if_ condition _ _ _) = condition ≢ ""
IsSound (loop iterations _ _ until _) = (is_above_zero iterations ≡ true) ⊎ (is_some until ≡ true)
IsSound (parallel branches _ _) = branches ≢ no_more
IsSound (unknown _) = ⊥

or_else-none : (a b : Option Failure) → or_else a b ≡ none → (a ≡ none) × (b ≡ none)
or_else-none none b h = (refl, h)
or_else-none (some f) b h = ground arith

fails_if-none :
    (b : Bool) (path : List Part) (problem : Problem) → fails_if b path problem ≡ none → b ≡ false
fails_if-none false path problem h = refl
fails_if-none true path problem h = ground arith

check_step-IsSound : (t : Step) (path : List Part) → check_step t path ≡ none → IsSound t
unfolding check_step IsSound
check_step-IsSound (action tool o r l) path h =
    let named = fails_if-none (str_eq tool "") path no_tool h in
    ground (arith, named, eq_iff tool "")
check_step-IsSound (if_ condition t e l) path h =
    let (given, _) = or_else-none (fails_if (str_eq condition "") path no_condition) _ h in
    let named = fails_if-none (str_eq condition "") path no_condition given in
    ground (arith, named, eq_iff condition "")
check_step-IsSound (loop iterations body every until l) path h =
    let endless_ = not (is_above_zero iterations) && not (is_some until) in
    let (given, _) = or_else-none (fails_if endless_ path endless) _ h in
    let ends = fails_if-none endless_ path endless given in
    elim (Bool-cases (is_above_zero iterations)) [
      | inl counted ↦ inl counted
      | inr uncounted ↦ inr (ground (arith, ends, uncounted))
    ]
check_step-IsSound (parallel no_more m l) path h = ground (arith, h)
check_step-IsSound (parallel (branch s b) m l) path h = λ e. ground (arith, e)
check_step-IsSound (unknown type_name) path h = ground (arith, h)

mutual
  unfolding check_step check_steps check_branches

  pub Occurs-IsSound :
      {s : Step} {steps : Steps} (prefix : List Part) (i : ℕ)
      → Occurs s steps
      → check_steps steps prefix i ≡ none
      → IsSound s
  Occurs-IsSound {s} prefix i (here {rest}) h =
      let (this, _) = or_else-none (check_step s (prefix ++ step_at i ∷ [])) _ h in
      check_step-IsSound s _ this
  Occurs-IsSound prefix i (later {t} {rest} o) h =
      let (_, others) = or_else-none (check_step t (prefix ++ step_at i ∷ [])) _ h in
      Occurs-IsSound prefix (suc i) o others
  Occurs-IsSound prefix i (inside {t} {rest} o) h =
      let (this, _) = or_else-none (check_step t (prefix ++ step_at i ∷ [])) _ h in
      OccursInside-IsSound (prefix ++ step_at i ∷ []) o this

  OccursInside-IsSound :
      {s t : Step} (path : List Part) → OccursInside s t → check_step t path ≡ none → IsSound s
  OccursInside-IsSound path (of_then {condition} {label} {then_} {else_} o) h =
      let (_, parts) = or_else-none (fails_if (str_eq condition "") path no_condition) _ h in
      let (first, _) = or_else-none (check_steps then_ (path ++ in_then ∷ []) 0) _ parts in
      Occurs-IsSound (path ++ in_then ∷ []) 0 o first
  OccursInside-IsSound path (of_else {condition} {label} {then_} {else_} o) h =
      let (_, parts) = or_else-none (fails_if (str_eq condition "") path no_condition) _ h in
      let (_, second) = or_else-none (check_steps then_ (path ++ in_then ∷ []) 0) _ parts in
      Occurs-IsSound (path ++ in_else ∷ []) 0 o second
  OccursInside-IsSound path (of_body {iterations} {body} {every} {until} o) h =
      let (_, rest) =
        or_else-none (fails_if (not (is_above_zero iterations) && not (is_some until)) path endless)
          _ h in
      Occurs-IsSound (path ++ in_body ∷ []) 0 o rest
  OccursInside-IsSound path (of_branch {branches} o) h =
      let (_, rest) = or_else-none (fails_if (is_no_more branches) path no_branches) _ h in
      OccursAmong-IsSound path 0 o rest

  OccursAmong-IsSound :
      {s : Step} {branches : Branches} (path : List Part) (j : ℕ)
      → OccursAmong s branches
      → check_branches branches path j ≡ none
      → IsSound s
  OccursAmong-IsSound path j (of_first {steps} o) h =
      let (this, _) = or_else-none (check_steps steps (path ++ branch_at j ∷ []) 0) _ h in
      Occurs-IsSound (path ++ branch_at j ∷ []) 0 o this
  OccursAmong-IsSound path j (of_rest {steps} o) h =
      let (_, others) = or_else-none (check_steps steps (path ++ branch_at j ∷ []) 0) _ h in
      OccursAmong-IsSound path (suc j) o others
