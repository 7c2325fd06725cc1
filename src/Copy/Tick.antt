-- ===== src/Copy/Tick.antt =====
-- clawmes/commands/copy.py: `_process_follow` and `_run_due_with_lines`, which the copy scheduler
-- calls.
use clawmes.Base.{
  ℕ, suc, ◌+◌, String, Bool, true, false, ◌||◌, Option, none, some, List, [], ◌∷◌, ◌++◌, ltb, ◌==◌,
  if◌then◌else◌, take, keep_if, contains, str_eq,
}
use clawmes.Dca.{Values}
use clawmes.Copy.{Outcome, blocklisted, bought, sold, Follow, max_tx_per_tick, is_active}
use clawmes.Copy.Engine.{Tx, Market, is_ok, has_succeeded, maybe_auto_pause, act}

-- The local variables of `_process_follow`, with the follow that it changes and the number of lines
-- that it has written.
pub record Round (F : Type 0) : Type 0 where
  pub follow : Follow F
  pub max_block : ℕ
  pub count : ℕ
  pub lines : ℕ

-- The wallets that are not yet seen, each once, in lower case.
abbrev pub add_unseen : (String → String) → List String → List String → List String
add_unseen lower seen [] = []
add_unseen lower seen (w ∷ wallets) =
    let kept = add_unseen lower (lower w ∷ seen) wallets in
    let skipped = add_unseen lower seen wallets in
    if contains (lower w) seen then skipped else lower w ∷ kept

-- What the explorer's filters keep: incoming transfers, and the outgoing ones too with `invert`.
abbrev pub is_relevant : Bool → String → Tx → Bool
is_relevant true wallet t = str_eq t.to_address wallet || str_eq t.from_address wallet
is_relevant false wallet t = str_eq t.to_address wallet

module _ {F : Type 0} where
  abbrev pub start : Follow F → Round F
  start f = record { follow = f; max_block = f.last_seen_block; count = 0; lines = 0 }

  -- The end of `_process_follow`. An exception skips it, and writes a line.
  unfoldable pub finish : Bool → Round F → (ℕ × ℕ) × Follow F
  finish true r =
      ((r.count, r.lines), maybe_auto_pause (record r.follow { last_seen_block = r.max_block }))
  finish false r = ((0, suc r.lines), r.follow)

  abbrev pub raise_block : ℕ → Round F → Round F
  raise_block block_no r = record r {
    max_block = if ltb r.max_block block_no then block_no else r.max_block;
  }

  unfoldable pub all_watched_wallets : (String → String) → Follow F → List String
  all_watched_wallets lower f =
      let primary = lower f.wallet in
      let after = add_unseen lower (primary ∷ []) f.extra_wallets in
      let alone = add_unseen lower [] f.extra_wallets in
      if str_eq primary "" then alone else primary ∷ after

  abbrev pub append_run : String → String → Tx → Outcome F → Follow F → Follow F
  append_run at wallet t outcome f = record f {
    executions =
        f.executions
        ++ record {
          at = at;
          tx_seen = t.hash;
          watched_wallet = wallet;
          token = t.token;
          outcome = outcome;
        }
          ∷ [];
  }

  module _ (values : Values F) where
    abbrev pub add_spend : Outcome F → Follow F → Follow F
    add_spend blocklisted f = f
    add_spend (sold result) f = f
    add_spend (bought amount result) f =
        if is_ok result
        then record f { total_eth_spent = values.plus f.total_eth_spent amount }
        else f

    -- The round after something was done for a transfer.
    unfoldable pub note : String → String → Tx → Option (Outcome F) → Round F → Round F
    note at wallet t none r = r
    note at wallet t (some outcome) r = record r {
      follow = add_spend outcome (append_run at wallet t outcome r.follow);
      count = if has_succeeded outcome then suc r.count else r.count;
      lines = suc r.lines;
    }

    module _ {ℓ} {W : Type ℓ} (market : Market F W) where
      -- The loop over the transfers of a wallet, and whether it ended without an exception.
      unfoldable pub process_txs : String → List Tx → Round F → W → (Bool × Round F) × W
      process_txs wallet [] r w = ((true, r), w)
      process_txs wallet (t ∷ txs) r w =
          let skip = process_txs wallet txs r w in
          elim t.block_number [
            | none ↦ if market.has_length_42 t.token then ((false, r), w) else skip
            | some block_no ↦
                (let (outcome, w') = act values market wallet t r.follow w in
                  let go =
                    process_txs wallet txs
                      (note (market.now_iso w') wallet t outcome (raise_block block_no r)) w' in
                  if market.has_length_42 t.token then go else skip)
          ]

      unfoldable pub process_wallets : ℕ → List String → Round F → W → (Bool × Round F) × W
      process_wallets start_block [] r w = ((true, r), w)
      process_wallets start_block (x ∷ wallets) r w = elim (market.transfers x start_block w) [
        | none ↦ ((false, r), w)
        | some txs ↦
            (let ((fine, r'), w') =
                process_txs x (take max_tx_per_tick (keep_if (is_relevant r.follow.invert x) txs)) r
                  w in
              let rest = process_wallets start_block wallets r' w' in
              if fine then rest else ((false, r'), w'))
      ]

      unfoldable pub process_follow : Follow F → W → ((ℕ × ℕ) × Follow F) × W
      process_follow f w =
          let wallets = all_watched_wallets values.lower f in
          let ((fine, r), w') = process_wallets (suc f.last_seen_block) wallets (start f) w in
          (finish fine r, w')

      unfoldable pub run_follow : Follow F → W → ((ℕ × ℕ) × Follow F) × W
      run_follow f w =
          let done = process_follow f w in if is_active f.status then done else (((0, 0), f), w)

      unfoldable pub run_follows : List (Follow F) → W → ((ℕ × ℕ) × List (Follow F)) × W
      run_follows [] w = (((0, 0), []), w)
      run_follows (f ∷ follows) w =
          let (((count, lines), f'), w') = run_follow f w in
          let (((total, more), rest), w'') = run_follows follows w' in
          (((count + total, lines + more), f' ∷ rest), w'')

      -- `_run_due_with_lines`: the number of copies, the follows in the file, which are saved only
      -- if a copy was made or a line written, and the world.
      unfoldable pub run_due : List (Follow F) → W → (ℕ × List (Follow F)) × W
      run_due follows w =
          let (((total, lines), new), w') = run_follows follows w in
          if total + lines == 0 then ((total, follows), w') else ((total, new), w')
