-- ===== src/Dca/Tick/Runs.antt =====
-- What the loop does with one schedule: when it swaps.
use clawmes.Base.{ℕ, ◌≡◌, refl, inl, inr, true, false, Bool-cases}
use clawmes.Dca.{
  Values, Result, no_wallet, daily_capped, total_capped, conditional_blocked, Schedule, put_off,
}
use clawmes.Dca.Tick.{
  Market, result_of, append_run, is_due, is_over_total, buy_of, is_over_daily, execute, is_blocked,
  settle, run_schedule, run_if_due,
}

module _ {ℓ} {F : Type 0} {W : Type ℓ} (values : Values F) (market : Market F W) where
  -- A schedule that is due and that its condition lets pass.
  abbrev pub Attempts : ℕ → Schedule F → W → Type 0
  Attempts now s w = (is_due now s ≡ true) × (is_blocked values market s w ≡ false)

  -- The outcomes of a round, with what each takes.
  pub data Runs (now : ℕ) (s : Schedule F) (w : W) : Schedule F × W → Type ℓ where
    waits : is_due now s ≡ false → Runs now s w (s, w)
    blocked :
        is_due now s ≡ true
        → is_blocked values market s w ≡ true
        → Runs now s w (put_off now (append_run (market.now_iso w) conditional_blocked s), w)
    total_hit :
        Attempts now s w
        → is_over_total values s ≡ true
        → Runs now s w (settle values market now s total_capped w, w)
    daily_hit :
        Attempts now s w
        → is_over_total values s ≡ false
        → is_over_daily values market s w ≡ true
        → Runs now s w (settle values market now s daily_capped w, w)
    without_wallet :
        Attempts now s w
        → is_over_total values s ≡ false
        → is_over_daily values market s w ≡ false
        → market.connected w ≡ false
        → Runs now s w (settle values market now s no_wallet w, w)
    swaps :
        Attempts now s w
        → is_over_total values s ≡ false
        → is_over_daily values market s w ≡ false
        → market.connected w ≡ true
        → Runs now s w (
          settle values market now s
              (result_of (market.swap (buy_of values s) w).0)
              (market.swap (buy_of values s) w).1,
          (market.swap (buy_of values s) w).1,
        )

  execute-total :
      (s : Schedule F) (w : W)
      → is_over_total values s ≡ true
      → execute values market s w ≡ (total_capped, w)
  unfolding execute
  execute-total s w over = rw (execute, over) refl

  execute-daily :
      (s : Schedule F) (w : W)
      → is_over_total values s ≡ false
      → is_over_daily values market s w ≡ true
      → execute values market s w ≡ (daily_capped, w)
  unfolding execute
  execute-daily s w fits over = rw (execute, fits, over) refl

  execute-alone :
      (s : Schedule F) (w : W)
      → is_over_total values s ≡ false
      → is_over_daily values market s w ≡ false
      → market.connected w ≡ false
      → execute values market s w ≡ (no_wallet, w)
  unfolding execute
  execute-alone s w fits today alone = rw (execute, fits, today, alone) refl

  execute-swap :
      (s : Schedule F) (w : W)
      → is_over_total values s ≡ false
      → is_over_daily values market s w ≡ false
      → market.connected w ≡ true
      → execute values market s w
        ≡ (result_of (market.swap (buy_of values s) w).0, (market.swap (buy_of values s) w).1)
  unfolding execute
  execute-swap s w fits today wallet = rw (execute, fits, today, wallet) refl

  attempted :
      (now : ℕ) (s : Schedule F) (w w' : W) (result : Result)
      → Attempts now s w
      → execute values market s w ≡ (result, w')
      → run_if_due values market now s w ≡ (settle values market now s result w', w')
  unfolding run_if_due run_schedule
  attempted now s w w' result (due, passes) e = rw (run_if_due, due, run_schedule, passes, e) refl

  pub run_if_due-Runs :
      (now : ℕ) (s : Schedule F) (w : W) → Runs now s w (run_if_due values market now s w)
  unfolding run_if_due run_schedule
  run_if_due-Runs now s w = elim (Bool-cases (is_due now s)) [
    | inr resting ↦ rw (run_if_due, resting) (waits resting)
    | inl due ↦ elim (Bool-cases (is_blocked values market s w)) [
      | inl held ↦ rw (run_if_due, due, run_schedule, held) (blocked due held)
      | inr passes ↦ elim (Bool-cases (is_over_total values s)) [
        | inl over ↦
            rw (attempted now s w w total_capped (due, passes) (execute-total s w over))
              (total_hit (due, passes) over)
        | inr fits ↦ elim (Bool-cases (is_over_daily values market s w)) [
          | inl over ↦
              rw (attempted now s w w daily_capped (due, passes) (execute-daily s w fits over))
                (daily_hit (due, passes) fits over)
          | inr today ↦ elim (Bool-cases (market.connected w)) [
            | inr alone ↦
                rw
                  (attempted now s w w no_wallet (due, passes) (execute-alone s w fits today alone))
                  (without_wallet (due, passes) fits today alone)
            | inl wallet ↦
                rw (attempted now s w _ _ (due, passes) (execute-swap s w fits today wallet))
                  (swaps (due, passes) fits today wallet)
          ]
        ]
      ]
    ]
  ]
