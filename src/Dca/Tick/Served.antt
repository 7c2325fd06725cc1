-- ===== src/Dca/Tick/Served.antt =====
-- What a run of the loop leaves behind: every due schedule has been served once, and none is due.
use clawmes.Base.{
  String, ℕ, suc, ◌+◌, ◌≤◌, ◌≡◌, refl, inl, inr, true, false, List, [], ◌∷◌, arith, All, Pairwise,
  none_left, pair, Bool-cases, keep_if, length, length-append, leb,
}
use clawmes.Dca.{Values, Result, conditional_blocked, Schedule, put_off}
use clawmes.Dca.Tick.{
  Market, is_due, settle, append_run, maybe_auto_pause, add_spend, run_if_due, run_all, run_due,
  is_streak, max_fails, is_ok,
}
use clawmes.Dca.Tick.Streaks.{IsSpared, settle-IsSpared, blocked-IsSpared}
use clawmes.Dca.Tick.Runs.{
  Runs, waits, blocked, total_hit, daily_hit, without_wallet, swaps, run_if_due-Runs,
}

module _ {F : Type 0} where
  -- A schedule that was due has one more run, its next run is an interval after `now`, and it is
  -- paused if it ends in as many failures as it allows; another schedule is unchanged.
  unfoldable pub IsServed : ℕ → Schedule F → Schedule F → Type 0
  IsServed now s s' =
      (is_due now s ≡ true
        → (length s'.executions ≡ suc (length s.executions))
          × (s'.next_run_epoch ≡ now + s.interval_seconds)
          × IsSpared s')
      × (is_due now s ≡ false → s' ≡ s)

  length-append_run :
      (at : String) (result : Result) (s : Schedule F)
      → length (append_run at result s).executions ≡ suc (length s.executions)
  length-append_run at result s =
      omega (arith, length-append s.executions (record { at = at; result = result } ∷ []))

  pub maybe_auto_pause-kept :
      (s : Schedule F)
      → ((maybe_auto_pause s).executions ≡ s.executions)
        × ((maybe_auto_pause s).next_run_epoch ≡ s.next_run_epoch)
        × ((maybe_auto_pause s).max_consecutive_failures ≡ s.max_consecutive_failures)
  unfolding maybe_auto_pause
  maybe_auto_pause-kept s = elim (Bool-cases (is_streak (max_fails s) s.executions)) [
    | inl streak ↦ rw (maybe_auto_pause, streak) (refl, refl, refl)
    | inr spared ↦ rw (maybe_auto_pause, spared) (refl, refl, refl)
  ]

  module _ {ℓ} {W : Type ℓ} (values : Values F) (market : Market F W) where
    add_spend-kept :
        (result : Result) (s : Schedule F)
        → ((add_spend values result s).executions ≡ s.executions)
          × ((add_spend values result s).next_run_epoch ≡ s.next_run_epoch)
    unfolding add_spend
    add_spend-kept result s = elim (Bool-cases (is_ok result)) [
      | inl fine ↦ rw (add_spend, fine) (refl, refl)
      | inr other ↦ rw (add_spend, other) (refl, refl)
    ]

    served :
        (now : ℕ) (s : Schedule F) (result : Result) (w : W)
        → is_due now s ≡ true
        → IsServed now s (settle values market now s result w)
    unfolding settle IsServed
    served now s result w due =
        let run = put_off now (append_run (market.now_iso w) result s) in
        let (runs, next, _) = maybe_auto_pause-kept (add_spend values result run) in
        let (runs', next') = add_spend-kept result run in
        (
          λ _. (
            rw (runs, runs') (length-append_run (market.now_iso w) result s),
            rw (next, next') refl,
            settle-IsSpared values market now s result w,
          ),
          λ never. ground arith,
        )

    put_off-IsSpared :
        (now : ℕ) (w : W) (s : Schedule F)
        → IsSpared (put_off now (append_run (market.now_iso w) conditional_blocked s))
    unfolding IsSpared
    put_off-IsSpared now w s = blocked-IsSpared (market.now_iso w) s

    Runs-IsServed :
        (now : ℕ) (s : Schedule F) (w : W) (out : Schedule F × W)
        → Runs values market now s w out
        → IsServed now s out.0
    unfolding IsServed
    Runs-IsServed now s w _ (waits resting) = (λ never. ground arith, λ _. refl)
    Runs-IsServed now s w _ (blocked due held) =
        (λ _. (length-append_run _ _ s, refl, put_off-IsSpared now w s), λ never. ground arith)
    Runs-IsServed now s w _ (total_hit (due, _) _) = served now s _ w due
    Runs-IsServed now s w _ (daily_hit (due, _) _ _) = served now s _ w due
    Runs-IsServed now s w _ (without_wallet (due, _) _ _ _) = served now s _ w due
    Runs-IsServed now s w _ (swaps (due, _) _ _ _) = served now s _ _ due

    run_all-IsServed :
        (now : ℕ) (schedules : List (Schedule F)) (w : W)
        → ((run_all values market now schedules w).0.0 ≡ length (keep_if (is_due now) schedules))
          × Pairwise (IsServed now) schedules (run_all values market now schedules w).0.1
    unfolding run_all
    run_all-IsServed now [] w = (refl, none_left)
    run_all-IsServed now (s ∷ schedules) w =
        let (count, rest) = run_all-IsServed now schedules (run_if_due values market now s w).1 in
        (
          ground (arith, count),
          pair (Runs-IsServed now s w _ (run_if_due-Runs values market now s w)) rest,
        )

    -- A run of the loop serves every due schedule once, whatever its swap answers: it counts the due
    -- schedules, each of them has one more run, is next due an interval after the start of the loop
    -- and is paused if it ends in as many failures as it allows, and the others are unchanged.
    pub run_due-IsServed :
        (schedules : List (Schedule F)) (w : W)
        → ((run_due values market schedules w).0.0
            ≡ length (keep_if (is_due (market.now w)) schedules))
          × Pairwise (IsServed (market.now w)) schedules (run_due values market schedules w).0.1
    unfolding run_due
    run_due-IsServed schedules w = run_all-IsServed (market.now w) schedules w

    resting :
        (now : ℕ) (s s' : Schedule F)
        → 1 ≤ s.interval_seconds
        → IsServed now s s'
        → is_due now s' ≡ false
    unfolding IsServed is_due
    resting now s s' long (due, idle) = elim (Bool-cases (is_due now s)) [
      | inl h ↦
          let (_, next, _) = due h in
          let later : leb s'.next_run_epoch now ≡ false = ground (arith, next, long) in
          ground (arith, later)
      | inr h ↦ rw (idle h) h
    ]

    Pairwise-resting :
        (now : ℕ) {schedules served : List (Schedule F)}
        → All (λ s. 1 ≤ s.interval_seconds) schedules
        → Pairwise (IsServed now) schedules served
        → All (λ s. is_due now s ≡ false) served
    Pairwise-resting now long none_left = tt
    Pairwise-resting now long (pair {x} {y} r rs) =
        (resting now x y long.0 r, Pairwise-resting now long.1 rs)

    run_all-resting :
        (now : ℕ) (schedules : List (Schedule F)) (w : W)
        → All (λ s. is_due now s ≡ false) schedules
        → run_all values market now schedules w ≡ ((0, schedules), w)
    unfolding run_all run_if_due
    run_all-resting now [] w idle = refl
    run_all-resting now (s ∷ schedules) w idle =
        rw (run_all, run_if_due, idle.0, run_all-resting now schedules w idle.1) refl

    -- Where every interval is at least a second, a second run of the loop at the same clock time
    -- swaps nothing: it counts no schedule and leaves the schedules and the world.
    pub run_due-settled :
        (schedules : List (Schedule F)) (w w' : W)
        → All (λ s. 1 ≤ s.interval_seconds) schedules
        → market.now w' ≡ market.now w
        → run_due values market (run_due values market schedules w).0.1 w'
          ≡ ((0, (run_due values market schedules w).0.1), w')
    unfolding run_due
    run_due-settled schedules w w' long same =
        let (_, rest) = run_all-IsServed (market.now w) schedules w in
        rw same (run_all-resting (market.now w) _ w' (Pairwise-resting (market.now w) long rest))
