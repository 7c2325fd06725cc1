-- ===== src/Dca/Valid/Commands.antt =====
-- The commands keep every schedule within its bounds.
use clawmes.Base.{
  ℕ, ◌≡◌, inl, inr, String, List, [], ◌∷◌, arith, All, All-append, All-keep_if, All-update_first,
  Bool-cases, Option-cases, keep_if, length, ◌==◌, not, contains,
}
use clawmes.Base.Check.{good, bind_good, Check-cases}
use clawmes.TokenGate.{Tier, is_over_cap_of}
use clawmes.Dca.{
  Values, Schedule, Status, is_mine, find_sched, change_sched, mutate, with_status, cancel, skip,
  put_off, active_count, over_cap,
}
use clawmes.Dca.Add.{split_flags, unless, checked, add}
use clawmes.Dca.Edit.{edit_of, edit_field, editable_fields, edit}
use clawmes.Dca.Valid.{IsValid}
use clawmes.Dca.Valid.Kept.{new_schedule-IsValid, edit_of-IsValid}

module _ {F : Type 0} (values : Values F) where
  change_sched-IsValid :
      (sender sched_id : String) (change : Schedule F → Schedule F) (schedules : List (Schedule F))
      → ((s : Schedule F) → IsValid values s → IsValid values (change s))
      → All (IsValid values) schedules
      → All (IsValid values) (change_sched sender sched_id change schedules).1
  unfolding change_sched
  change_sched-IsValid sender sched_id change schedules keeps h =
      elim (Option-cases (find_sched sched_id sender schedules)) [
        | inl missing ↦ rw (change_sched, missing) h
        | inr (s, found) ↦
            rw (change_sched, found)
              (All-update_first (IsValid values) (is_mine sched_id sender) change schedules keeps h)
      ]

  pub mutate-IsValid :
      (status : Status) (sender : String) (parts : List String) (schedules : List (Schedule F))
      → All (IsValid values) schedules
      → All (IsValid values) (mutate status sender parts schedules).1
  unfolding mutate IsValid
  mutate-IsValid status sender [] schedules h = h
  mutate-IsValid status sender (sched_id ∷ _) schedules h =
      change_sched-IsValid sender sched_id (with_status status) schedules (λ s v. v) h

  pub skip-IsValid :
      (now : ℕ) (sender : String) (parts : List String) (schedules : List (Schedule F))
      → All (IsValid values) schedules
      → All (IsValid values) (skip now sender parts schedules).1
  unfolding skip IsValid
  skip-IsValid now sender [] schedules h = h
  skip-IsValid now sender (sched_id ∷ _) schedules h =
      change_sched-IsValid sender sched_id (put_off now) schedules (λ s v. v) h

  pub cancel-IsValid :
      (sender : String) (parts : List String) (schedules : List (Schedule F))
      → All (IsValid values) schedules
      → All (IsValid values) (cancel sender parts schedules).1
  unfolding cancel
  cancel-IsValid sender [] schedules h = h
  cancel-IsValid sender (sched_id ∷ _) schedules h =
      let rest = keep_if (λ s. not (is_mine sched_id sender s)) schedules in
      elim (Bool-cases (length rest == length schedules)) [
        | inl same ↦ rw (cancel, same) h
        | inr fewer ↦
            rw (cancel, fewer)
              (All-keep_if (IsValid values) (λ s. not (is_mine sched_id sender s)) schedules h)
      ]

  edit_field-IsValid :
      (sender sched_id field value : String) (schedules : List (Schedule F))
      → All (IsValid values) schedules
      → All (IsValid values) (edit_field values sender sched_id field value schedules).1
  unfolding edit_field
  edit_field-IsValid sender sched_id field value schedules h =
      elim (Option-cases (find_sched sched_id sender schedules)) [
        | inl missing ↦ rw (edit_field, missing) h
        | inr (s, found) ↦ elim (Check-cases (edit_of values field value)) [
          | inl (r, e) ↦ rw (edit_field, found, e) h
          | inr (change, e) ↦
              rw (edit_field, found, e)
                (change_sched-IsValid sender sched_id change schedules
                  (λ s. edit_of-IsValid values field value change s e) h)
        ]
      ]

  pub edit-IsValid :
      (sender : String) (parts : List String) (schedules : List (Schedule F))
      → All (IsValid values) schedules
      → All (IsValid values) (edit values sender parts schedules).1
  unfolding edit
  edit-IsValid sender [] schedules h = h
  edit-IsValid sender (_ ∷ []) schedules h = h
  edit-IsValid sender (_ ∷ _ ∷ []) schedules h = h
  edit-IsValid sender (sched_id ∷ field ∷ value ∷ _) schedules h =
      elim (Bool-cases (contains field editable_fields)) [
        | inl known ↦ rw (edit, known) (edit_field-IsValid sender sched_id field value schedules h)
        | inr other ↦ rw (edit, other) h
      ]

  checked-IsValid :
      (tier : Tier) (sender : String) (positional : List String) (flags : List (String × String))
      (id created_at : String) (now : ℕ) (schedules : List (Schedule F)) (s : Schedule F)
      → checked values tier sender positional flags id created_at now schedules ≡ good s
      → IsValid values s
  unfolding checked
  checked-IsValid tier sender [] flags id created_at now schedules s h = ground arith
  checked-IsValid tier sender (_ ∷ []) flags id created_at now schedules s h = ground arith
  checked-IsValid tier sender (_ ∷ _ ∷ []) flags id created_at now schedules s h = ground arith
  checked-IsValid tier sender (token ∷ amount ∷ interval ∷ _) flags id created_at now schedules s
        h =
      let (_, _, e) =
        bind_good
          (unless (not (is_over_cap_of "dca" tier (active_count sender schedules))) over_cap) _ h in
      new_schedule-IsValid values tier sender token amount interval flags id created_at now s e

  pub add-IsValid :
      (tier : Tier) (sender : String) (parts : List String) (id created_at : String) (now : ℕ)
      (schedules : List (Schedule F))
      → All (IsValid values) schedules
      → All (IsValid values) (add values tier sender parts id created_at now schedules).1
  unfolding add
  add-IsValid tier sender parts id created_at now schedules h =
      let split = split_flags parts in
      elim (Check-cases (checked values tier sender split.0 split.1 id created_at now schedules)) [
        | inl (r, e) ↦ rw (add, e) h
        | inr (s, e) ↦
            rw (add, e)
              (All-append (IsValid values) schedules (s ∷ []) h
                (checked-IsValid tier sender split.0 split.1 id created_at now schedules s e, tt))
      ]
