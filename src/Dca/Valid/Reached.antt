-- ===== src/Dca/Valid/Reached.antt =====
-- The schedules that the commands and the loop reach stay within their bounds.
use clawmes.Base.{ℕ, inl, inr, String, List, [], ◌∷◌, All, Bool-cases}
use clawmes.TokenGate.{Tier}
use clawmes.Dca.{Values, Schedule, Status, mutate, cancel, skip, Result}
use clawmes.Dca.Add.{add}
use clawmes.Dca.Edit.{edit}
use clawmes.Dca.Tick.{
  Market, settle, maybe_auto_pause, add_spend, run_if_due, run_all, run_due, is_streak, max_fails,
  is_ok,
}
use clawmes.Dca.Tick.Runs.{
  Runs, waits, blocked, total_hit, daily_hit, without_wallet, swaps, run_if_due-Runs,
}
use clawmes.Dca.Valid.{IsValid}
use clawmes.Dca.Valid.Commands.{
  mutate-IsValid, skip-IsValid, cancel-IsValid, edit-IsValid, add-IsValid,
}

module _ {F : Type 0} (values : Values F) where
  module _ {ℓ} {W : Type ℓ} (market : Market F W) where
    maybe_auto_pause-IsValid :
        (s : Schedule F) → IsValid values s → IsValid values (maybe_auto_pause s)
    unfolding maybe_auto_pause IsValid
    maybe_auto_pause-IsValid s v = elim (Bool-cases (is_streak (max_fails s) s.executions)) [
      | inl streak ↦ rw (maybe_auto_pause, streak) v
      | inr spared ↦ rw (maybe_auto_pause, spared) v
    ]

    settle-IsValid :
        (now : ℕ) (s : Schedule F) (result : Result) (w : W)
        → IsValid values s
        → IsValid values (settle values market now s result w)
    unfolding settle add_spend IsValid
    settle-IsValid now s result w v = maybe_auto_pause-IsValid _ (elim (Bool-cases (is_ok result)) [
      | inl fine ↦ rw (add_spend, fine) v
      | inr other ↦ rw (add_spend, other) v
    ])

    Runs-IsValid :
        (now : ℕ) (s : Schedule F) (w : W) (out : Schedule F × W)
        → Runs values market now s w out
        → IsValid values s
        → IsValid values out.0
    unfolding IsValid
    Runs-IsValid now s w _ (waits _) v = v
    Runs-IsValid now s w _ (blocked _ _) v = v
    Runs-IsValid now s w _ (total_hit _ _) v = settle-IsValid now s _ w v
    Runs-IsValid now s w _ (daily_hit _ _ _) v = settle-IsValid now s _ w v
    Runs-IsValid now s w _ (without_wallet _ _ _ _) v = settle-IsValid now s _ w v
    Runs-IsValid now s w _ (swaps _ _ _ _) v = settle-IsValid now s _ _ v

    run_all-IsValid :
        (now : ℕ) (schedules : List (Schedule F)) (w : W)
        → All (IsValid values) schedules
        → All (IsValid values) (run_all values market now schedules w).0.1
    unfolding run_all
    run_all-IsValid now [] w h = tt
    run_all-IsValid now (s ∷ schedules) w h = (
      Runs-IsValid now s w _ (run_if_due-Runs values market now s w) h.0,
      run_all-IsValid now schedules (run_if_due values market now s w).1 h.1,
    )

    -- The states of schedules.json that the commands and the loop reach from the empty one.
    pub data Reachable : List (Schedule F) → Type ℓ where
      empty : Reachable []
      added :
          (tier : Tier) (sender : String) (parts : List String) (id created_at : String) (now : ℕ)
          {schedules : List (Schedule F)}
          → Reachable schedules
          → Reachable (add values tier sender parts id created_at now schedules).1
      mutated :
          (status : Status) (sender : String) (parts : List String) {schedules : List (Schedule F)}
          → Reachable schedules
          → Reachable (mutate status sender parts schedules).1
      cancelled :
          (sender : String) (parts : List String) {schedules : List (Schedule F)}
          → Reachable schedules
          → Reachable (cancel sender parts schedules).1
      skipped :
          (now : ℕ) (sender : String) (parts : List String) {schedules : List (Schedule F)}
          → Reachable schedules
          → Reachable (skip now sender parts schedules).1
      edited :
          (sender : String) (parts : List String) {schedules : List (Schedule F)}
          → Reachable schedules
          → Reachable (edit values sender parts schedules).1
      ran :
          (w : W) {schedules : List (Schedule F)}
          → Reachable schedules
          → Reachable (run_due values market schedules w).0.1

    -- Every schedule that adding, pausing, resuming, cancelling, skipping, editing and the loop reach
    -- has an interval of whole minutes from a minute to a year, a slippage of at most 10,000 basis
    -- points, a failure limit of at least one, and an amount and caps that are not 0 or less.
    pub Reachable-IsValid :
        {schedules : List (Schedule F)} → Reachable schedules → All (IsValid values) schedules
    unfolding run_due
    Reachable-IsValid empty = tt
    Reachable-IsValid (added tier sender parts id created_at now {schedules} r) =
        add-IsValid values tier sender parts id created_at now schedules (Reachable-IsValid r)
    Reachable-IsValid (mutated status sender parts {schedules} r) =
        mutate-IsValid values status sender parts schedules (Reachable-IsValid r)
    Reachable-IsValid (cancelled sender parts {schedules} r) =
        cancel-IsValid values sender parts schedules (Reachable-IsValid r)
    Reachable-IsValid (skipped now sender parts {schedules} r) =
        skip-IsValid values now sender parts schedules (Reachable-IsValid r)
    Reachable-IsValid (edited sender parts {schedules} r) =
        edit-IsValid values sender parts schedules (Reachable-IsValid r)
    Reachable-IsValid (ran w {schedules} r) =
        run_all-IsValid (market.now w) schedules w (Reachable-IsValid r)
