-- ===== src/Plans.antt =====
-- clawmes/plans/ir.py and validator.py: the steps of a plan and the passes of the validator that
-- are written. The arguments of an action and the triggers, which no pass reads, are left out.
pub mod Sound
pub mod Files
pub mod Tests
use clawmes.Base.{
  ℕ, suc, String, Bool, true, false, not, ◌&&◌, ◌||◌, Option, none, some, List, [], ◌∷◌, ◌++◌, ltb,
  if◌then◌else◌, is_some, str_eq,
}
use clawmes.Base.Int.{ℤ, pos, negsuc}

pub data OnFailure : Type 0 where
  abort skip retry : OnFailure

mutual
  pub data Step : Type 0 where
    action : (tool : String) (on_failure : OnFailure) (retry_max : ℤ) (label : String) → Step
    if_ : (condition : String) → Steps → Steps → (label : String) → Step
    loop :
        (iterations : ℤ)
        → Steps
        → (every : Option String) (until : Option String) (label : String) → Step
    parallel : Branches → (max_concurrency : ℤ) (label : String) → Step
    -- an object of any other class, by the name of its type
    unknown : (type_name : String) → Step

  pub data Steps : Type 0 where
    end : Steps
    step : Step → Steps → Steps

  pub data Branches : Type 0 where
    no_more : Branches
    branch : Steps → Branches → Branches

pub record Plan : Type 0 where
  pub plan_id : String
  pub description : String
  pub steps : Steps
  pub max_parallelism : ℤ
  pub max_loop_iterations : ℤ
  pub max_wall_clock_seconds : ℤ

-- The parts of the path in a message: `step[i]`, `.then.`, `.else.`, `.body.`, `.branch[j].`
pub data Part : Type 0 where
  step_at : ℕ → Part
  in_then in_else in_body : Part
  branch_at : ℕ → Part

pub data Problem : Type 0 where
  no_tool no_condition endless no_branches unknown_kind : Problem

-- A `ValidationError` of the schema pass.
pub record Failure : Type 0 where
  pub path : List Part
  pub problem : Problem

pub data Limit : Type 0 where
  parallelism loop_iterations wall_clock : Limit

pub data Error : Type 0 where
  no_steps : Error
  schema : Failure → Error
  bounded_resources : Limit → Error

abbrev pub or_else : Option Failure → Option Failure → Option Failure
or_else (some f) next = some f
or_else none next = next

abbrev pub fails_if : Bool → List Part → Problem → Option Failure
fails_if true path problem = some record { path = path; problem = problem }
fails_if false path problem = none

abbrev pub is_above_zero : ℤ → Bool
is_above_zero (pos n) = ltb 0 n
is_above_zero (negsuc n) = false

abbrev pub is_no_more : Branches → Bool
is_no_more no_more = true
is_no_more (branch _ _) = false

-- `_check_steps`: the first problem, in the order of the steps.
unfoldable mutual
  pub check_step : Step → List Part → Option Failure
  check_step (action tool on_failure retry_max label) path = fails_if (str_eq tool "") path no_tool
  check_step (if_ condition then_ else_ label) path =
      or_else (fails_if (str_eq condition "") path no_condition) (
        or_else (check_steps then_ (path ++ in_then ∷ []) 0)
          (check_steps else_ (path ++ in_else ∷ []) 0))
  check_step (loop iterations body every until label) path =
      or_else (fails_if (not (is_above_zero iterations) && not (is_some until)) path endless)
        (check_steps body (path ++ in_body ∷ []) 0)
  check_step (parallel branches max_concurrency label) path =
      or_else (fails_if (is_no_more branches) path no_branches) (check_branches branches path 0)
  check_step (unknown type_name) path = fails_if true path unknown_kind

  pub check_steps : Steps → List Part → ℕ → Option Failure
  check_steps end prefix i = none
  check_steps (step s rest) prefix i =
      or_else (check_step s (prefix ++ step_at i ∷ [])) (check_steps rest prefix (suc i))

  pub check_branches : Branches → List Part → ℕ → Option Failure
  check_branches no_more path j = none
  check_branches (branch steps rest) path j =
      or_else (check_steps steps (path ++ branch_at j ∷ []) 0) (check_branches rest path (suc j))

-- `_pass_schema`
unfoldable pub pass_schema : Steps → Option Error
pass_schema end = some no_steps
pass_schema (step s rest) = elim (check_steps (step s rest) [] 0) [
  | none ↦ none
  | some f ↦ some (schema f)
]

unfoldable pub pass_bounded_resources : Plan → Option Error
pass_bounded_resources p =
    if not (is_above_zero p.max_parallelism)
    then some (bounded_resources parallelism)
    else (if not (is_above_zero p.max_loop_iterations)
        then some (bounded_resources loop_iterations)
        else (if not (is_above_zero p.max_wall_clock_seconds)
            then some (bounded_resources wall_clock)
            else none))

pub record ValidationReport : Type 0 where
  pub ok : Bool
  pub errors : List Error

abbrev pub is_nil : List Error → Bool
is_nil [] = true
is_nil (_ ∷ _) = false

abbrev pub error_list : Option Error → List Error
error_list none = []
error_list (some e) = e ∷ []

unfoldable pub validate_plan : Plan → ValidationReport
validate_plan p =
    let errors : List Error =
      error_list (pass_schema p.steps) ++ error_list (pass_bounded_resources p) in
    record { ok = is_nil errors; errors = errors }
