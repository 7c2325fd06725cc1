-- ===== src/Dca/Tick/Capped.antt =====
-- The lifetime cap of a schedule: what it has spent stays within its cap.
use clawmes.Base.{
  ℕ, suc, ◌+◌, ◌≡◌, refl, sym, some, ◌⊎◌, inl, inr, false, List, [], ◌∷◌, ◌++◌, All, Bool-cases,
  arith, if◌then◌else◌, Pairwise, none_left, pair,
}
use clawmes.Dca.{Values, Result, Execution, Schedule, total_capped, conditional_blocked}
use clawmes.Dca.Tick.{
  Market, is_over, is_over_total, settle, maybe_auto_pause, add_spend, run_if_due, run_all, run_due,
  is_streak, max_fails, is_ok,
}
use clawmes.Dca.Tick.Runs.{
  Runs, waits, blocked, total_hit, daily_hit, without_wallet, swaps, run_if_due-Runs,
}

-- The executions whose swap went through.
unfoldable pub ok_runs : List Execution → ℕ
ok_runs [] = 0
ok_runs (r ∷ runs) = (if is_ok r.result then 1 else 0) + ok_runs runs

ok_runs-append :
    (runs : List Execution) (r : Execution)
    → ok_runs (runs ++ r ∷ []) ≡ ok_runs runs + (if is_ok r.result then 1 else 0)
unfolding ok_runs
ok_runs-append [] r = omega arith
ok_runs-append (x ∷ runs) r = omega (arith, ok_runs-append runs r)

module _ {F : Type 0} (values : Values F) where
  -- What a round charges to a schedule: its amount, together with one execution that went through, or
  -- nothing, together with none.
  unfoldable pub IsCharged : Schedule F → Schedule F → Type 0
  IsCharged s s' =
      ((s'.total_eth_spent ≡ s.total_eth_spent) × (ok_runs s'.executions ≡ ok_runs s.executions))
      ⊎ ((s'.total_eth_spent ≡ values.plus s.total_eth_spent s.eth_amount)
          × (ok_runs s'.executions ≡ suc (ok_runs s.executions)))

  maybe_auto_pause-IsCharged : (s x : Schedule F) → IsCharged s x → IsCharged s (maybe_auto_pause x)
  unfolding maybe_auto_pause IsCharged
  maybe_auto_pause-IsCharged s x h = elim (Bool-cases (is_streak (max_fails x) x.executions)) [
    | inl streak ↦ rw (maybe_auto_pause, streak) h
    | inr spared ↦ rw (maybe_auto_pause, spared) h
  ]

  -- The spend that the schedule keeps does not exceed its cap.
  unfoldable pub IsWithinTotal : Schedule F → Type 0
  IsWithinTotal s =
      (cap : F) → s.max_eth_total ≡ some cap → values.exceeds s.total_eth_spent cap ≡ false

  maybe_auto_pause-IsWithinTotal :
      (s : Schedule F) → IsWithinTotal s → IsWithinTotal (maybe_auto_pause s)
  unfolding maybe_auto_pause IsWithinTotal
  maybe_auto_pause-IsWithinTotal s h = elim (Bool-cases (is_streak (max_fails s) s.executions)) [
    | inl streak ↦ rw (maybe_auto_pause, streak) h
    | inr spared ↦ rw (maybe_auto_pause, spared) h
  ]

  module _ {ℓ} {W : Type ℓ} (market : Market F W) where
    fits-IsWithinTotal :
        (now : ℕ) (s : Schedule F) (result : Result) (w : W)
        → is_over_total values s ≡ false
        → IsWithinTotal s
        → IsWithinTotal (settle values market now s result w)
    unfolding settle add_spend IsWithinTotal is_over_total
    fits-IsWithinTotal now s result w fits h =
        maybe_auto_pause-IsWithinTotal _ (elim (Bool-cases (is_ok result)) [
          | inr other ↦ rw (add_spend, other) h
          | inl fine ↦
              rw (add_spend, fine)
                (λ cap e.
                  (let here : is_over values s.total_eth_spent s.eth_amount (some cap) ≡ false =
                      rw (sym e) fits in
                    here))
        ])

    over-IsWithinTotal :
        (now : ℕ) (s : Schedule F) (w : W)
        → IsWithinTotal s
        → IsWithinTotal (settle values market now s total_capped w)
    unfolding settle add_spend IsWithinTotal
    over-IsWithinTotal now s w h = maybe_auto_pause-IsWithinTotal _ h

    Runs-IsWithinTotal :
        (now : ℕ) (s : Schedule F) (w : W) (out : Schedule F × W)
        → Runs values market now s w out
        → IsWithinTotal s
        → IsWithinTotal out.0
    unfolding IsWithinTotal
    Runs-IsWithinTotal now s w _ (waits _) h = h
    Runs-IsWithinTotal now s w _ (blocked _ _) h = h
    Runs-IsWithinTotal now s w _ (total_hit _ _) h = over-IsWithinTotal now s w h
    Runs-IsWithinTotal now s w _ (daily_hit _ fits _) h = fits-IsWithinTotal now s _ w fits h
    Runs-IsWithinTotal now s w _ (without_wallet _ fits _ _) h = fits-IsWithinTotal now s _ w fits h
    Runs-IsWithinTotal now s w _ (swaps _ fits _ _) h = fits-IsWithinTotal now s _ _ fits h

    run_all-IsWithinTotal :
        (now : ℕ) (schedules : List (Schedule F)) (w : W)
        → All IsWithinTotal schedules
        → All IsWithinTotal (run_all values market now schedules w).0.1
    unfolding run_all
    run_all-IsWithinTotal now [] w h = tt
    run_all-IsWithinTotal now (s ∷ schedules) w h = (
      Runs-IsWithinTotal now s w _ (run_if_due-Runs values market now s w) h.0,
      run_all-IsWithinTotal now schedules (run_if_due values market now s w).1 h.1,
    )

    settle-IsCharged :
        (now : ℕ) (s : Schedule F) (result : Result) (w : W)
        → IsCharged s (settle values market now s result w)
    unfolding settle add_spend IsCharged
    settle-IsCharged now s result w =
        let r : Execution = record { at = market.now_iso w; result = result } in
        let counted = ok_runs-append s.executions r in
        maybe_auto_pause-IsCharged s _ (elim (Bool-cases (is_ok result)) [
          | inr other ↦ rw (add_spend, other) (inl (refl, ground (arith, counted, other)))
          | inl fine ↦ rw (add_spend, fine) (inr (refl, ground (arith, counted, fine)))
        ])

    Runs-IsCharged :
        (now : ℕ) (s : Schedule F) (w : W) (out : Schedule F × W)
        → Runs values market now s w out
        → IsCharged s out.0
    unfolding IsCharged ok_runs
    Runs-IsCharged now s w _ (waits _) = inl (refl, refl)
    Runs-IsCharged now s w _ (blocked _ _) =
        let r : Execution = record { at = market.now_iso w; result = conditional_blocked } in
        inl (refl, omega (arith, ok_runs-append s.executions r))
    Runs-IsCharged now s w _ (total_hit _ _) = settle-IsCharged now s total_capped w
    Runs-IsCharged now s w _ (daily_hit _ _ _) = settle-IsCharged now s _ w
    Runs-IsCharged now s w _ (without_wallet _ _ _ _) = settle-IsCharged now s _ w
    Runs-IsCharged now s w _ (swaps _ _ _ _) = settle-IsCharged now s _ _

    run_all-IsCharged :
        (now : ℕ) (schedules : List (Schedule F)) (w : W)
        → Pairwise IsCharged schedules (run_all values market now schedules w).0.1
    unfolding run_all
    run_all-IsCharged now [] w = none_left
    run_all-IsCharged now (s ∷ schedules) w =
        pair (Runs-IsCharged now s w _ (run_if_due-Runs values market now s w))
          (run_all-IsCharged now schedules (run_if_due values market now s w).1)

    -- A run of the loop charges each schedule its amount exactly when it adds an execution that went
    -- through, and otherwise charges nothing and adds none. Where no schedule has spent more than its
    -- lifetime cap, none has after the run, whatever the swaps answer.
    pub run_due-IsWithinTotal :
        (schedules : List (Schedule F)) (w : W)
        → All IsWithinTotal schedules
        → Pairwise IsCharged schedules (run_due values market schedules w).0.1
          × All IsWithinTotal (run_due values market schedules w).0.1
    unfolding run_due
    run_due-IsWithinTotal schedules w h = (
      run_all-IsCharged (market.now w) schedules w,
      run_all-IsWithinTotal (market.now w) schedules w h,
    )
