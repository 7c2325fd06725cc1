-- ===== src/Plans/Tests.antt =====
-- A plan with a loop around a swap.
use clawmes.Base.{◌≡◌, ◌↔◌, refl, true, none}
use clawmes.Base.Int.{pos}
use clawmes.Plans.{
  abort, action, loop, end, step, Plan, check_step, check_steps, pass_schema,
  pass_bounded_resources, validate_plan,
}
use clawmes.Plans.Sound.Complete.{IsAdmissible, validate_plan-IsAdmissible}

abbrev plan : Plan
plan = record {
  plan_id = "plan-1";
  description = "buy often";
  steps =
      step
        (loop (pos 1_000_000) (step (action "defi_swap" abort (pos 0) "buy") end) none none "again")
        end;
  max_parallelism = pos 4;
  max_loop_iterations = pos 1;
  max_wall_clock_seconds = pos 60;
}

validate_plan-IsAdmissible_example : ((validate_plan plan).ok ≡ true) ↔ IsAdmissible plan
validate_plan-IsAdmissible_example = validate_plan-IsAdmissible plan

-- A loop of a million rounds passes in a plan that allows one round.
unbounded_loop : (validate_plan plan).ok ≡ true
unfolding validate_plan pass_schema check_steps check_step pass_bounded_resources
unbounded_loop = refl
