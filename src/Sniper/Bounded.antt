-- ===== src/Sniper/Bounded.antt =====
-- How much a configuration buys.
use clawmes.Base.{
  ℕ, ◌+◌, ◌≤◌, ◌≡◌, refl, ◌⊎◌, inl, inr, String, Bool, true, false, List, [], ◌∷◌, ◌++◌, arith, All,
  Bool-cases, Option-cases, leb, is_some, if◌then◌else◌, map, ◌||◌, ◌==◌,
}
use clawmes.Sniper.{Result, Snipe, Config, is_active}
use clawmes.Sniper.Engine.{
  Launch, Market, is_ok, max_buys_of, Fit, misses, raises, hits, fit, submit_snipe, add_watch,
  record_snipe, process,
}
use clawmes.Sniper.Tick.{
  Feed, fetch_error, launches, evaluate_watches, after_process, run_config, run_configs,
  close_watches, mark_seen, none_active, run_due,
}

-- The buys that went through.
unfoldable pub ok_snipes : List Snipe → ℕ
ok_snipes [] = 0
ok_snipes (s ∷ snipes) = (if is_ok s.result then 1 else 0) + ok_snipes snipes

ok_snipes-append : (xs ys : List Snipe) → ok_snipes (xs ++ ys) ≡ ok_snipes xs + ok_snipes ys
unfolding ok_snipes
ok_snipes-append [] ys = omega arith
ok_snipes-append (x ∷ xs) ys = omega (arith, ok_snipes-append xs ys)

Fit-cases :
    (f : Fit)
    → (f ≡ misses)
      ⊎ ((f ≡ raises) ⊎ ((token : String) × (symbol : String) × (f ≡ hits token symbol)))
Fit-cases misses = inl refl
Fit-cases raises = inr (inl refl)
Fit-cases (hits token symbol) = inr (inr (token, symbol, refl))

module _ {ℓ} {F : Type 0} {W : Type ℓ} (market : Market F W) where
  -- The successful buys on record are those that are counted, and no more than allowed.
  unfoldable pub IsBounded : Config F → Type 0
  IsBounded c = (ok_snipes c.snipes ≡ c.buys_made) × (c.buys_made ≤ max_buys_of market c)

  add_watch-kept :
      (token symbol : String) (w : W) (c : Config F)
      → IsBounded c
      → IsBounded (add_watch market token symbol w c)
  unfolding add_watch IsBounded
  add_watch-kept token symbol w c h =
      elim (Bool-cases (is_some c.auto_sell || is_some c.auto_trail_pct)) [
        | inr plain ↦ rw (add_watch, plain) h
        | inl watches ↦ elim (Option-cases (market.price token w)) [
          | inl unknown ↦ rw (add_watch, watches, unknown) h
          | inr (p, known) ↦ elim (Bool-cases (market.is_above_zero p)) [
            | inl worth ↦ rw (add_watch, watches, known, worth) h
            | inr nothing ↦ rw (add_watch, watches, known, nothing) h
          ]
        ]
      ]

  record_snipe-IsBounded :
      (token symbol : String) (result : Result) (w : W) (c : Config F)
      → leb (max_buys_of market c) c.buys_made ≡ false
      → IsBounded c
      → IsBounded (record_snipe market token symbol result w c)
  unfolding record_snipe IsBounded ok_snipes
  record_snipe-IsBounded token symbol result w c room (counted, few) =
      let last : Snipe = record {
        at = market.now_iso w;
        token = token;
        symbol = symbol;
        result = result;
      } in
      let joined = ok_snipes-append c.snipes (last ∷ []) in
      elim (Bool-cases (is_ok result)) [
        | inl fine ↦
            rw (record_snipe, fine)
              (add_watch-kept token symbol w _
                (ground (arith, joined, counted, fine), ground (arith, room)))
        | inr failed ↦ rw (record_snipe, failed) (ground (arith, joined, counted, failed), few)
      ]

  -- What a run of the launches does not change is the number of buys that are allowed.
  process-IsBounded :
      (now : ℕ) (feed : List (Launch F)) (c : Config F) (w : W)
      → IsBounded c
      → IsBounded (process market now feed c w).0.0.0
  unfolding process
  process-IsBounded now [] c w h = h
  process-IsBounded now (l ∷ feed) c w h =
      elim (Bool-cases (leb (max_buys_of market c) c.buys_made)) [
        | inl full ↦ elim (Fit-cases (fit market now c l)) [
          | inl e ↦ rw (process, e, full) h
          | inr (inl e) ↦ rw (process, e, full) h
          | inr (inr (token, symbol, e)) ↦ rw (process, e, full) h
        ]
        | inr room ↦ elim (Fit-cases (fit market now c l)) [
          | inl e ↦ rw (process, e, room) (process-IsBounded now feed c w h)
          | inr (inl e) ↦ rw (process, e, room) h
          | inr (inr (token, symbol, e)) ↦
              let (result, w') = submit_snipe market c token w in
              rw (process, e, room)
                (process-IsBounded now feed (record_snipe market token symbol result w' c) w'
                  (record_snipe-IsBounded token symbol result w' c room h))
        ]
      ]

  after_process-IsBounded :
      (now : ℕ) (c : Config F) (fine : Bool)
      → IsBounded c
      → IsBounded (after_process market now c fine)
  unfolding after_process IsBounded
  after_process-IsBounded now c false h = h
  after_process-IsBounded now c true h =
      elim (Bool-cases (leb (max_buys_of market c) c.buys_made)) [
        | inl full ↦ rw (after_process, full) h
        | inr room ↦ rw (after_process, room) h
      ]

  run_config-IsBounded :
      (now : ℕ) (feed : List (Launch F)) (c : Config F) (w : W)
      → IsBounded c
      → IsBounded (run_config market now feed c w).0.1
  unfolding run_config
  run_config-IsBounded now feed c w h = elim (Bool-cases (is_active c.status)) [
    | inl live ↦
        rw (run_config, live) (after_process-IsBounded now _ _ (process-IsBounded now feed c w h))
    | inr resting ↦ rw (run_config, resting) h
  ]

  run_configs-IsBounded :
      (now : ℕ) (feed : List (Launch F)) (configs : List (Config F)) (w : W)
      → All IsBounded configs
      → All IsBounded (run_configs market now feed configs w).0.1
  unfolding run_configs
  run_configs-IsBounded now feed [] w h = tt
  run_configs-IsBounded now feed (c ∷ configs) w h = (
    run_config-IsBounded now feed c w h.0,
    run_configs-IsBounded now feed configs (run_config market now feed c w).1 h.1,
  )

  evaluate_watches-IsBounded :
      (c : Config F) (w : W) → IsBounded c → IsBounded (evaluate_watches market c w).0.1
  unfolding evaluate_watches IsBounded
  evaluate_watches-IsBounded c w h =
      elim (Bool-cases (is_some c.auto_sell || is_some c.auto_trail_pct)) [
        | inl watches ↦ rw (evaluate_watches, watches) h
        | inr plain ↦ rw (evaluate_watches, plain) h
      ]

  close_watches-IsBounded :
      (configs : List (Config F)) (w : W)
      → All IsBounded configs
      → All IsBounded (close_watches market configs w).0.1
  unfolding close_watches
  close_watches-IsBounded [] w h = tt
  close_watches-IsBounded (c ∷ configs) w h = (
    evaluate_watches-IsBounded c w h.0,
    close_watches-IsBounded configs (evaluate_watches market c w).1 h.1,
  )

  mark_seen-IsBounded :
      (now : ℕ) (configs : List (Config F))
      → All IsBounded configs
      → All IsBounded (map (mark_seen market now) configs)
  unfolding IsBounded
  mark_seen-IsBounded now [] h = tt
  mark_seen-IsBounded now (c ∷ configs) h = elim (Bool-cases (is_active c.status)) [
    | inl live ↦ rw live (h.0, mark_seen-IsBounded now configs h.1)
    | inr resting ↦ rw resting (h.0, mark_seen-IsBounded now configs h.1)
  ]

  -- Where every configuration counts its successful buys and has made no more than it may, so it is
  -- after a run of the engine, whatever the feed holds and the swaps answer.
  pub run_due-IsBounded :
      (now : ℕ) (feed : Feed F) (configs : List (Config F)) (w : W)
      → All IsBounded configs
      → All IsBounded (run_due market now feed configs w).0
  unfolding run_due
  run_due-IsBounded now fetch_error configs w h = h
  run_due-IsBounded now (launches []) configs w h = mark_seen-IsBounded now configs h
  run_due-IsBounded now (launches (l ∷ feed)) configs w h =
      let bought = run_configs market now (l ∷ feed) configs w in
      let closed = close_watches market bought.0.1 bought.1 in
      elim (Bool-cases (none_active market configs)) [
        | inl idle ↦ rw (run_due, idle) h
        | inr live ↦ elim (Bool-cases (bought.0.0 + closed.0.0 == 0)) [
          | inl quiet ↦ rw (run_due, live, quiet) h
          | inr noted ↦
              rw (run_due, live, noted)
                (close_watches-IsBounded bought.0.1 bought.1
                  (run_configs-IsBounded now (l ∷ feed) configs w h))
        ]
      ]
