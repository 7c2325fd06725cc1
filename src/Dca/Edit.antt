-- ===== src/Dca/Edit.antt =====
-- clawmes/commands/dca.py: `_cmd_edit`, which checks a value as `_cmd_add` does.
use clawmes.Base.{String, Option, none, some, List, [], ◌∷◌, if◌then◌else◌, str_eq, contains}
use clawmes.Base.Check.{Check, bad, good, ◌>>=◌}
use clawmes.Dca.{
  Values, Schedule, Refusal, usage, unknown_field, not_found, Answer, refused, find_sched,
  change_sched,
}
use clawmes.Dca.Add.{token_of, positive_eth, interval_of, slippage_of, max_failures_of, cap_of}

-- `_EDITABLE_FIELDS`
abbrev pub editable_fields : List String
editable_fields =
    "token" ∷ "eth_amount" ∷ "interval" ∷ "slippage_bps" ∷ "daily_cap_eth" ∷ "max_eth_total"
    ∷ "max_consecutive_failures" ∷ []

module _ {F : Type 0} (values : Values F) where
  -- A cap that `_cmd_edit` reads, "none" for no cap.
  unfoldable pub cap_or_none : String → Check Refusal (Option F)
  cap_or_none text = if str_eq (values.lower text) "none" then good none else cap_of values text

  -- The change that `_cmd_edit` makes of a field.
  unfoldable pub edit_of : (field value : String) → Check Refusal (Schedule F → Schedule F)
  edit_of field value =
      if str_eq field "token"
      then (do t ← token_of values value; good (λ s. record s { token = t }))
      else (if str_eq field "eth_amount"
          then (do f ← positive_eth values value; good (λ s. record s { eth_amount = f }))
          else (if str_eq field "interval"
              then (do n ← interval_of values value; good (λ s. record s { interval_seconds = n }))
              else (if str_eq field "slippage_bps"
                  then (do n ← slippage_of values value; good (λ s. record s { slippage_bps = n }))
                  else (if str_eq field "daily_cap_eth"
                      then (do c ← cap_or_none value; good (λ s. record s { daily_cap_eth = c }))
                      else (if str_eq field "max_eth_total"
                          then (do
                            c ← cap_or_none value
                            good (λ s. record s { max_eth_total = c }))
                          else (do
                            n ← max_failures_of values value
                            good (λ s. record s { max_consecutive_failures = n })))))))

  -- A known field of a schedule that is found.
  unfoldable pub edit_field :
      (sender sched_id field value : String) → List (Schedule F) → Answer × List (Schedule F)
  edit_field sender sched_id field value schedules = elim (find_sched sched_id sender schedules) [
    | none ↦ (refused not_found, schedules)
    | some _ ↦ elim (edit_of field value) [
      | bad r ↦ (refused r, schedules)
      | good change ↦ change_sched sender sched_id change schedules
    ]
  ]

  unfoldable pub edit : String → List String → List (Schedule F) → Answer × List (Schedule F)
  edit sender (sched_id ∷ field ∷ value ∷ _) schedules =
      let known = edit_field sender sched_id field value schedules in
      if contains field editable_fields then known else (refused unknown_field, schedules)
  edit sender [] schedules = (refused usage, schedules)
  edit sender (_ ∷ []) schedules = (refused usage, schedules)
  edit sender (_ ∷ _ ∷ []) schedules = (refused usage, schedules)
