-- ===== src/Copy/Faithful/Rounds.antt =====
-- Rounds of the copy trader: every execution that one adds is faithful to the settings of its follow.
use clawmes.Base.{
  ℕ, suc, ◌+◌, ◌≡◌, refl, inl, inr, String, Bool, true, false, ◌&&◌, Option, none, some, List, [],
  ◌∷◌, ◌++◌, ◌==◌, Bool-cases, Option-cases, Pairwise, none_left, pair, take, keep_if, contains,
  str_eq,
}
use clawmes.Dca.{Values}
use clawmes.Copy.{paused, Outcome, Follow, max_tx_per_tick, is_active}
use clawmes.Copy.Engine.{
  Tx, Market, is_ok, is_streak, maybe_auto_pause, compute_copy_amount, capped, execute_copy,
  is_over_total, is_incoming, act,
}
use clawmes.Copy.Tick.{
  Round, raise_block, note, process_txs, is_relevant, process_wallets, start, finish,
  all_watched_wallets, process_follow, run_follow, run_follows, run_due,
}
use clawmes.Copy.Faithful.{
  IsSized, advance, Grows, grown, Grows-refl, Acts, ignored, skipped, copied, mirrored, note-Grows,
}

and_right : (a : Bool) {b : Bool} → (a && b) ≡ true → b ≡ true
and_right true h = h
and_right false h = cc

module _ {F : Type 0} (values : Values F) where
  pause-Grows :
      (f g : Follow F) (block_no : ℕ)
      → Grows values f g
      → Grows values f (maybe_auto_pause (record g { last_seen_block = block_no }))
  unfolding maybe_auto_pause
  pause-Grows f _ block_no (grown new total _ status faithful within) =
      let g = advance (f.executions ++ new) total block_no status f in
      elim (Bool-cases (is_streak g)) [
        | inl streak ↦
            rw (maybe_auto_pause, streak) (grown new total block_no paused faithful within)
        | inr spared ↦
            rw (maybe_auto_pause, spared) (grown new total block_no status faithful within)
      ]

  finish-Grows :
      (f : Follow F) (fine : Bool) (r : Round F)
      → Grows values f r.follow
      → Grows values f (finish fine r).1
  unfolding finish
  finish-Grows f true r h = pause-Grows f r.follow r.max_block h
  finish-Grows f false r h = h

  -- The note of an outcome does not look at the block that the round has reached.
  round-Grows :
      (f : Follow F) (at wallet : String) (t : Tx) (outcome : Option (Outcome F)) (block_no : ℕ)
      (r : Round F)
      → Acts values r.follow t.token outcome
      → Grows values f r.follow
      → Grows values f (note values at wallet t outcome (raise_block block_no r)).follow
  unfolding note
  round-Grows f at wallet t none block_no r acts h = h
  round-Grows f at wallet t (some outcome) block_no r acts h =
      note-Grows values f r.follow at wallet t outcome acts h

  module _ {ℓ} {W : Type ℓ} (market : Market F W) where
    capped-IsSized :
        (f : Follow F) (scaled : F) → IsSized values f (capped values market scaled f.eth_per_copy)
    unfolding IsSized
    capped-IsSized f scaled = elim (Bool-cases (values.exceeds scaled f.eth_per_copy)) [
      | inl more ↦ inl (rw more refl)
      | inr fits ↦ inr (rw fits fits)
    ]

    compute_copy_amount-IsSized :
        (f : Follow F) (hash : String) (w : W)
        → IsSized values f (compute_copy_amount values market f hash w)
    unfolding compute_copy_amount IsSized
    compute_copy_amount-IsSized f hash w = elim (Option-cases f.pct) [
      | inl fixed ↦ inl (rw (compute_copy_amount, fixed) refl)
      | inr (pct, given) ↦ elim (Bool-cases (str_eq hash "")) [
        | inl unknown ↦ inl (rw (compute_copy_amount, given, unknown) refl)
        | inr known ↦ elim (Bool-cases (market.eth_value hash w == 0)) [
          | inl nothing ↦ inl (rw (compute_copy_amount, given, known, nothing) refl)
          | inr worth ↦
              rw (compute_copy_amount, given, known, worth)
                (capped-IsSized f (market.scale (market.eth_value hash w) pct))
        ]
      ]
    ]

    execute_copy-fits :
        (f : Follow F) (token : String) (amount : F) (w : W)
        → is_ok (execute_copy values market f token amount w).0 ≡ true
        → is_over_total values market f amount ≡ false
    unfolding execute_copy
    execute_copy-fits f token amount w fine =
        elim (Bool-cases (is_over_total values market f amount)) [
          | inr fits ↦ fits
          | inl over ↦ (let wrong : false ≡ true = rw (execute_copy, over) at fine in cc)
        ]

    act-Acts :
        (wallet : String) (t : Tx) (f : Follow F) (w : W)
        → Acts values f t.token (act values market wallet t f w).0
    unfolding act
    act-Acts wallet t f w =
        let amount = compute_copy_amount values market f t.hash w in
        elim (Bool-cases (contains t.token f.blocklist)) [
          | inl listed ↦ rw (act, listed) (skipped listed)
          | inr clear ↦ elim (Bool-cases (is_incoming values market wallet t)) [
            | inl incoming ↦
                rw (act, clear, incoming)
                  (copied amount _ clear (compute_copy_amount-IsSized f t.hash w)
                    (execute_copy-fits f t.token amount w))
            | inr other ↦
                (let sends : Bool = str_eq t.from_address wallet && true in
                  elim (Bool-cases (sends && f.invert)) [
                    | inr unrelated ↦ rw (act, clear, other, unrelated) ignored
                    | inl selling ↦
                        rw (act, clear, other, selling) (mirrored _ clear (and_right sends selling))
                  ])
          ]
        ]

    process_txs-Grows :
        (f : Follow F) (wallet : String) (txs : List Tx) (r : Round F) (w : W)
        → Grows values f r.follow
        → Grows values f (process_txs values market wallet txs r w).0.1.follow
    unfolding process_txs
    process_txs-Grows f wallet [] r w h = h
    process_txs-Grows f wallet (t ∷ txs) r w h = elim (Bool-cases (market.has_length_42 t.token)) [
      | inr short ↦ elim (Option-cases t.block_number) [
        | inl e ↦ rw (process_txs, e, short) (process_txs-Grows f wallet txs r w h)
        | inr (b, e) ↦ rw (process_txs, e, short) (process_txs-Grows f wallet txs r w h)
      ]
      | inl whole ↦ elim (Option-cases t.block_number) [
        | inl e ↦ rw (process_txs, e, whole) h
        | inr (b, e) ↦
            (let acted = act values market wallet t r.follow w in
              rw (process_txs, e, whole)
                (process_txs-Grows f wallet txs _ acted.1 (
                  round-Grows f (market.now_iso acted.1) wallet t acted.0 b r
                    (act-Acts wallet t r.follow w) h)))
      ]
    ]

    process_wallets-Grows :
        (f : Follow F) (start_block : ℕ) (wallets : List String) (r : Round F) (w : W)
        → Grows values f r.follow
        → Grows values f (process_wallets values market start_block wallets r w).0.1.follow
    unfolding process_wallets
    process_wallets-Grows f start_block [] r w h = h
    process_wallets-Grows f start_block (x ∷ wallets) r w h =
        elim (Option-cases (market.transfers x start_block w)) [
          | inl lost ↦ rw (process_wallets, lost) h
          | inr (all_txs, e) ↦
              (let txs = take max_tx_per_tick (keep_if (is_relevant r.follow.invert x) all_txs) in
                let out = process_txs values market x txs r w in
                let kept = process_txs-Grows f x txs r w h in
                elim (Bool-cases out.0.0) [
                  | inl fine ↦
                      rw (process_wallets, e, fine)
                        (process_wallets-Grows f start_block wallets out.0.1 out.1 kept)
                  | inr raised ↦ rw (process_wallets, e, raised) kept
                ])
        ]

    run_follow-Grows : (f : Follow F) (w : W) → Grows values f (run_follow values market f w).0.1
    unfolding run_follow process_follow
    run_follow-Grows f w = elim (Bool-cases (is_active f.status)) [
      | inr resting ↦ rw (run_follow, resting) (Grows-refl values f)
      | inl live ↦
          (let out =
              process_wallets values market (suc f.last_seen_block)
                (all_watched_wallets values.lower f) (start f) w in
            rw (run_follow, live)
              (finish-Grows f out.0.0 out.0.1 (
                process_wallets-Grows f (suc f.last_seen_block) _ (start f) w
                  (Grows-refl values f))))
    ]

    run_follows-Grows :
        (follows : List (Follow F)) (w : W)
        → Pairwise (Grows values) follows (run_follows values market follows w).0.1
    unfolding run_follows
    run_follows-Grows [] w = none_left
    run_follows-Grows (f ∷ follows) w =
        pair (run_follow-Grows f w) (run_follows-Grows follows (run_follow values market f w).1)

    Pairwise-refl : (follows : List (Follow F)) → Pairwise (Grows values) follows follows
    Pairwise-refl [] = none_left
    Pairwise-refl (f ∷ follows) = pair (Grows-refl values f) (Pairwise-refl follows)

    -- A run of the copy trader keeps every follow with its settings. What it adds to the executions
    -- of one are blocked tokens of its list, buys of other tokens for eth_per_copy or an amount that
    -- does not exceed it, and, with invert, sells of other tokens; and a spend within max_eth_total
    -- stays within it.
    pub run_due-Grows :
        (follows : List (Follow F)) (w : W)
        → Pairwise (Grows values) follows (run_due values market follows w).0.1
    unfolding run_due
    run_due-Grows follows w =
        let out = run_follows values market follows w in
        elim (Bool-cases (out.0.0.0 + out.0.0.1 == 0)) [
          | inl quiet ↦ rw (run_due, quiet) (Pairwise-refl follows)
          | inr noted ↦ rw (run_due, noted) (run_follows-Grows follows w)
        ]
