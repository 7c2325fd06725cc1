-- ===== src/CostBasis/Tests.antt =====
-- Two buys and a sell.
use clawmes.Base.{ℕ, ◌-◌, ◌≡◌, refl, some, List, [], ◌∷◌, take, drop}
use clawmes.Base.Int.{pos}
use clawmes.CostBasis.{Lot, Numbers, consume_buys}
use clawmes.CostBasis.Fifo.{units, closed_units, consume_buys-fifo}

abbrev numbers : Numbers ℕ
numbers = record {
  int_of = λ t. some (pos 3);
  float_of = λ a. some 2;
  zero_usd = 0;
  lower = λ t. t;
  profit = λ sell_price buy_price n. sell_price - buy_price;
}

abbrev lots : List (Lot ℕ)
lots =
    record { amount = 2; price = 1; ts = "mon" } ∷ record { amount = 3; price = 5; ts = "tue" } ∷ []

consume_buys-fifo_example :
    (closed_units (consume_buys numbers 4 7 "wed" lots).0 ≡ take 4 (units lots))
    × (units (consume_buys numbers 4 7 "wed" lots).1 ≡ drop 4 (units lots))
consume_buys-fifo_example = consume_buys-fifo numbers 4 7 "wed" lots

-- The sell takes the whole first lot and two units of the second.
consume_buys-lots :
    (consume_buys numbers 4 7 "wed" lots).1 ≡ record { amount = 1; price = 5; ts = "tue" } ∷ []
unfolding consume_buys
consume_buys-lots = refl
