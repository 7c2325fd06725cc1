-- ===== src/Dca/Tick/Streaks.antt =====
-- Schedules that fail too often are paused.
use clawmes.Base.{
  String, ℕ, suc, ◌≤◌, ◌≡◌, refl, inl, inr, true, false, List, [], ◌∷◌, ◌++◌, arith, Bool-cases,
  all, length, leb,
}
use clawmes.Dca.{Values, Result, conditional_blocked, Execution, Schedule, is_active}
use clawmes.Dca.Tick.{
  Market, is_failure, last_runs, is_streak, max_fails, settle, append_run, maybe_auto_pause,
}

all-last :
    (runs : List Execution) (r : Execution)
    → is_failure r.result ≡ false
    → all (λ q. is_failure q.result) (runs ++ r ∷ []) ≡ false
all-last [] r fine = ground (arith, fine)
all-last (q ∷ runs) r fine = ground (arith, all-last runs r fine)

-- A streak does not end in a run that is no failure.
last_runs-broken :
    (n : ℕ) (runs : List Execution) (r : Execution)
    → 1 ≤ n
    → is_failure r.result ≡ false
    → all (λ q. is_failure q.result) (last_runs n (runs ++ r ∷ [])) ≡ false
unfolding last_runs
last_runs-broken n [] r some_ fine = ground (arith, fine, some_)
last_runs-broken n (q ∷ runs) r some_ fine =
    elim (Bool-cases (leb (suc (length (runs ++ r ∷ []))) n)) [
      | inl whole ↦ rw (last_runs, whole) (ground (arith, all-last runs r fine))
      | inr part ↦ rw (last_runs, part) (last_runs-broken n runs r some_ fine)
    ]

is_streak-broken :
    (n : ℕ) (runs : List Execution) (r : Execution)
    → 1 ≤ n
    → is_failure r.result ≡ false
    → is_streak n (runs ++ r ∷ []) ≡ false
unfolding is_streak
is_streak-broken n runs r some_ fine = ground (arith, last_runs-broken n runs r some_ fine)

max_fails-positive : {F : Type 0} (s : Schedule F) → 1 ≤ max_fails s
max_fails-positive s = ground arith

module _ {F : Type 0} where
  -- A schedule that is active does not end in as many failures as it allows.
  unfoldable pub IsSpared : Schedule F → Type 0
  IsSpared s = is_active s.status ≡ true → is_streak (max_fails s) s.executions ≡ false

  maybe_auto_pause-IsSpared : (s : Schedule F) → IsSpared (maybe_auto_pause s)
  unfolding maybe_auto_pause IsSpared
  maybe_auto_pause-IsSpared s = elim (Bool-cases (is_streak (max_fails s) s.executions)) [
    | inl streak ↦ rw (maybe_auto_pause, streak) (λ never. ground arith)
    | inr spared ↦ rw (maybe_auto_pause, spared) (λ _. spared)
  ]

  pub blocked-IsSpared :
      (at : String) (s : Schedule F) → IsSpared (append_run at conditional_blocked s)
  unfolding IsSpared
  blocked-IsSpared at s =
      λ _. is_streak-broken (max_fails s) s.executions _ (max_fails-positive s) refl

  module _ {ℓ} {W : Type ℓ} (values : Values F) (market : Market F W) where
    pub settle-IsSpared :
        (now : ℕ) (s : Schedule F) (result : Result) (w : W)
        → IsSpared (settle values market now s result w)
    unfolding settle IsSpared
    settle-IsSpared now s result w = maybe_auto_pause-IsSpared _
