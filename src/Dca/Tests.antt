-- ===== src/Dca/Tests.antt =====
-- One schedule, with numbers for floats.
use clawmes.Base.{
  ℕ, ◌+◌, ◌≡◌, refl, String, true, none, some, List, [], ◌∷◌, ltb, leb, ◌==◌, ◌&&◌, if◌then◌else◌,
  All, Pairwise, keep_if, length, arith, ◌-◌,
}
use clawmes.Base.Int.{pos}
use clawmes.Delegation.Hex.{codes}
use clawmes.TokenGate.{free, is_over_cap_of}
use clawmes.Dca.Interval.{
  Classes, parse_interval, format_interval, skip_spaces, read_number, read_digits, read_unit,
}
use clawmes.Dca.Interval.RoundTrip.{IsAscii, format_interval-reads_back}
use clawmes.Dca.{Values, Schedule, active, changed, active_count}
use clawmes.Dca.Add.{add, split_flags, checked, new_schedule, token_of, positive_eth, interval_of}
use clawmes.Dca.Tick.{Market, sent, run_due, is_due}
use clawmes.Dca.Tick.Runs.{Runs}
use clawmes.Dca.Tick.Served.{IsServed, run_due-IsServed}
use clawmes.Dca.Tick.Capped.{IsCharged, IsWithinTotal, run_due-IsWithinTotal}
use clawmes.Dca.Valid.{IsValid}
use clawmes.Dca.Valid.Reached.{empty, added, ran, Reachable-IsValid}

abbrev classes : Classes
classes = record {
  is_space = λ c. c == 32;
  digit_of = λ c. if leb 48 c && leb c 57 then some (c - 48) else none;
}

classes-IsAscii : IsAscii classes
classes-IsAscii = record {
  digit = λ d h. ground arith;
  digit_solid = λ d h. ground arith;
  unit = λ c u h. ground arith;
  unit_solid = λ c u h. ground arith;
}

format_interval-reads_back_example : parse_interval classes (format_interval 7200) ≡ some 7200
unfolding parse_interval skip_spaces read_number read_digits read_unit
format_interval-reads_back_example =
    format_interval-reads_back classes classes-IsAscii (codes " 120M ") 7200 refl

abbrev values : Values ℕ
values = record {
  float_of = λ text. some 5;
  int_of = λ text. some (pos 7);
  lower = λ text. text;
  split_colon = λ text. [];
  classes = classes;
  zero_eth = 0;
  plus = λ a b. a + b;
  is_positive = λ f. ltb 0 f;
  exceeds = λ a b. ltb b a;
}

-- The world counts the swaps; the clock stands still.
abbrev market : Market ℕ ℕ
market = record {
  now = λ w. 9000;
  now_iso = λ w. "now";
  epoch_of = λ text. some 9000;
  price_usd = λ token w. some 3;
  connected = λ w. true;
  swap = λ buy w. (sent "0x01", w + 1);
}

abbrev schedule : Schedule ℕ
schedule = record {
  id = "dca_1";
  sender_id = "ann";
  token = "0x4200000000000000000000000000000000000006";
  eth_amount = 5;
  interval_seconds = 3600;
  next_run_epoch = 8000;
  status = active;
  created_at = "then";
  executions = [];
  slippage_bps = 100;
  daily_cap_eth = some 20;
  max_eth_total = some 8;
  max_consecutive_failures = 3;
  total_eth_spent = 0;
  conditional = none;
}

run_due-IsServed_example :
    ((run_due values market (schedule ∷ []) 0).0.0 ≡ length (keep_if (is_due 9000) (schedule ∷ [])))
    × Pairwise (IsServed 9000) (schedule ∷ []) (run_due values market (schedule ∷ []) 0).0.1
run_due-IsServed_example = run_due-IsServed values market (schedule ∷ []) 0

schedule-IsWithinTotal : IsWithinTotal values schedule
unfolding IsWithinTotal
schedule-IsWithinTotal cap h = ground arith

run_due-IsWithinTotal_example :
    Pairwise (IsCharged values) (schedule ∷ []) (run_due values market (schedule ∷ []) 0).0.1
    × All (IsWithinTotal values) (run_due values market (schedule ∷ []) 0).0.1
run_due-IsWithinTotal_example =
    run_due-IsWithinTotal values market (schedule ∷ []) 0 (schedule-IsWithinTotal, tt)

abbrev words : List String
words = "0x4200000000000000000000000000000000000006" ∷ "0.5" ∷ "1h" ∷ []

Reachable-IsValid_example :
    All
      (IsValid values)
      (run_due values market (add values free "ann" words "dca_1" "then" 8000 []).1 0).0.1
Reachable-IsValid_example =
    Reachable-IsValid values market (ran 0 (added free "ann" words "dca_1" "then" 8000 empty))

-- The words are accepted.
add-words : (add values free "ann" words "dca_1" "then" 8000 []).0 ≡ changed
unfolding add split_flags checked new_schedule token_of positive_eth interval_of parse_interval
    skip_spaces read_number read_digits read_unit active_count is_over_cap_of
add-words = refl
