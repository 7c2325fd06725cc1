-- ===== src/Plans/Files.antt =====
-- clawmes/plans/scheduler.py: the plans' files, by plan id. `now` is `int(time.time())`, whose text
-- is a parameter; a file that is not JSON is not modelled.
use clawmes.Base.{
  ℕ, ◌≡◌, refl, ◌∙◌, String, Bool, true, false, none, some, List, [], if◌then◌else◌, is_some,
  str_eq, eq_refl, lookup, insert, erase, lookup-insert,
}

pub record PlanFile : Type 0 where
  pub id : String
  pub plan_text : String
  pub created_at : ℕ
  pub status : String
  pub logs : List String

abbrev pub Files : Type 0
Files = List (String × PlanFile)

module _ (digits : ℕ → String) where
  abbrev pub new_file : ℕ → String → PlanFile
  new_file now plan_text = record {
    id = digits now;
    plan_text = plan_text;
    created_at = now;
    status = "pending";
    logs = [];
  }

  -- `create_plan`; `digits now` is `f"plan-{int(time.time())}"`
  unfoldable pub create_plan : ℕ → String → Files → PlanFile × Files
  create_plan now plan_text files =
      (new_file now plan_text, insert (digits now) (new_file now plan_text) files)

-- `validate_plan` of a text
unfoldable pub validate_text : String → Bool
validate_text plan_text = if str_eq plan_text "" then false else true

-- `cancel_plan`: whether it was there, and the files.
unfoldable pub cancel_plan : String → Files → Bool × Files
cancel_plan plan_id files =
    if is_some (lookup plan_id files) then (true, erase plan_id files) else (false, files)

unfoldable pub get_plan_logs : String → Files → List String
get_plan_logs plan_id files = elim (lookup plan_id files) [ none ↦ [] | some f ↦ f.logs ]

-- A second plan that is created in the same second replaces the first in its file.
pub create_plan-replaces :
    (digits : ℕ → String) (now : ℕ) (first second : String) (files : Files)
    → lookup (digits now) (create_plan digits now second (create_plan digits now first files).1).1
      ≡ some (new_file digits now second)
unfolding create_plan
create_plan-replaces digits now first second files =
    lookup-insert (digits now) (digits now) _ _ ∙ rw (eq_refl (digits now)) refl
