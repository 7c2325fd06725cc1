-- ===== src/Copy/Tests.antt =====
-- One follow of two wallets, with numbers for floats.
use clawmes.Base.{
  ℕ, ◌+◌, ◌≡◌, refl, String, true, false, none, some, List, [], ◌∷◌, Pairwise, map, length, ltb,
  ◌==◌, str_eq, if◌then◌else◌,
}
use clawmes.Base.Int.{pos}
use clawmes.Dca.{Values}
use clawmes.Dca.Tick.{sent}
use clawmes.Copy.{Follow, active}
use clawmes.Copy.Engine.{
  Tx, Market, act, compute_copy_amount, execute_copy, execute_sell, spend_in_last_24h, sum_recent,
  maybe_auto_pause, is_streak, last_runs,
}
use clawmes.Copy.Tick.{
  all_watched_wallets, note, process_txs, process_wallets, finish, process_follow, run_follow,
  run_follows, run_due,
}
use clawmes.Copy.Faithful.{Grows}
use clawmes.Copy.Faithful.Rounds.{run_due-Grows}

abbrev values : Values ℕ
values = record {
  float_of = λ text. some 5;
  int_of = λ text. some (pos 7);
  lower = λ text. text;
  split_colon = λ text. [];
  classes = record { is_space = λ c. c == 32; digit_of = λ c. none };
  zero_eth = 0;
  plus = λ a b. a + b;
  is_positive = λ f. ltb 0 f;
  exceeds = λ a b. ltb b a;
}

abbrev incoming : String → Tx
incoming token = record {
  token = token;
  block_number = some 101;
  to_address = "0xaa";
  from_address = "0xcc";
  hash = "0x11";
}

-- The world counts the swaps. The first wallet receives two tokens, the explorer fails for the
-- second one, and a copy scales to 7.
abbrev market : Market ℕ ℕ
market = record {
  now = λ w. 9000;
  now_iso = λ w. "now";
  epoch_of = λ text. some 9000;
  transfers = λ wallet block_no w.
      if str_eq wallet "0xaa" then some (incoming "0xd1" ∷ incoming "0xd2" ∷ []) else none;
  eth_value = λ hash w. 100;
  connected = λ w. true;
  balance = λ token w. 9;
  buy = λ trade w. (sent "0x01", w + 1);
  sell = λ token amount bps w. (sent "0x02", w + 1);
  has_length_42 = λ token. true;
  scale = λ wei pct. 7;
}

abbrev follow : List String → Follow ℕ
follow extras = record {
  id = "cpy_1";
  sender_id = "ann";
  wallet = "0xaa";
  extra_wallets = extras;
  eth_per_copy = 5;
  pct = some 10;
  invert = false;
  slippage_bps = 100;
  daily_cap_eth = some 100;
  max_eth_total = some 50;
  max_consecutive_failures = 3;
  blocklist = "0xd2" ∷ [];
  status = active;
  created_at = "then";
  last_seen_block = 100;
  total_eth_spent = 0;
  executions = [];
}

run_due-Grows_example :
    Pairwise (Grows values) (follow [] ∷ []) (run_due values market (follow [] ∷ []) 0).0.1
run_due-Grows_example = run_due-Grows values market (follow [] ∷ []) 0

-- What a run leaves: the last block seen, the spend and the number of executions, and the number of
-- swaps.
abbrev summary : List (Follow ℕ) → List (ℕ × (ℕ × ℕ))
summary follows = map (λ f. (f.last_seen_block, (f.total_eth_spent, length f.executions))) follows

abbrev twice : List String → (ℕ × List (Follow ℕ)) × ℕ
twice extras =
    let ((count, follows), w) = run_due values market (follow extras ∷ []) 0 in
    run_due values market follows w

-- One run for one wallet: a buy at the cap of 5, and a token passed over.
one_run : summary (run_due values market (follow [] ∷ []) 0).0.1 ≡ (101, (5, 2)) ∷ []
unfolding run_due run_follows run_follow process_follow process_wallets process_txs act
    compute_copy_amount execute_copy execute_sell spend_in_last_24h sum_recent all_watched_wallets
    note finish maybe_auto_pause is_streak last_runs
one_run = refl

-- With a second wallet for which the explorer fails, two runs buy the token of the same transfer
-- twice, and the last block is not moved.
copied_twice :
    ◌≡◌ {A = List (ℕ × (ℕ × ℕ)) × ℕ}
      (summary (twice ("0xbb" ∷ [])).0.1, (twice ("0xbb" ∷ [])).1)
      ((100, (10, 4)) ∷ [], 2)
unfolding run_due run_follows run_follow process_follow process_wallets process_txs act
    compute_copy_amount execute_copy execute_sell spend_in_last_24h sum_recent all_watched_wallets
    note finish maybe_auto_pause is_streak last_runs
copied_twice = refl
