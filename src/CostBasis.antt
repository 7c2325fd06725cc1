-- ===== src/CostBasis.antt =====
-- clawmes/tools/cost_basis.py: the ledger's records matched first in, first out into lots. `int` and
-- `float` of an argument, `lower` and the profit of a match are parameters.
pub mod Fifo
pub mod Balance
pub mod Tests
use clawmes.Base.{
  ℕ, ◌+◌, ◌-◌, String, Bool, true, false, not, ◌&&◌, ◌||◌, Option, none, some, List, [], ◌∷◌, ◌++◌,
  ltb, ◌==◌, if◌then◌else◌, min, str_eq, lookup, insert, map,
}
use clawmes.Base.Int.{ℤ, pos, negsuc}

-- A value of `action_args`: a text, or another value by its truth.
pub data Arg : Type 0 where
  text : String → Arg
  truthy falsy : Arg

-- What `_build_lots` reads of a `TxRecord`.
pub record TxRecord : Type 0 where
  pub ts : String
  pub user_id : String
  pub tool_name : String
  pub action_args : List (String × Arg)
  pub value_wei : Option String
  pub status : String

pub record Lot (F : Type 0) : Type 0 where
  pub amount : ℕ
  pub price : F
  pub ts : String

-- A part of a lot that a sell took.
pub record Match (F : Type 0) : Type 0 where
  pub amount_wei : ℕ
  pub buy_price_usd : F
  pub sell_price_usd : F
  pub pnl_usd : F
  pub buy_ts : String
  pub sell_ts : String

pub record Bucket (F : Type 0) : Type 0 where
  pub open_lots : List (Lot F)
  pub realized : List (Match F)
  pub total_buy_wei : ℕ
  pub total_sell_wei : ℕ
  pub first_seen : Option String

pub record Numbers (F : Type 0) : Type 0 where
  pub int_of : String → Option ℤ
  pub float_of : Arg → Option F
  pub zero_usd : F
  pub lower : String → String
  -- `(sell_price - buy_price) * consumed`
  pub profit : F → F → ℕ → F

abbrev pub is_truthy : Option Arg → Bool
is_truthy none = false
is_truthy (some (text s)) = not (str_eq s "")
is_truthy (some truthy) = true
is_truthy (some falsy) = false

-- `a or b`
abbrev pub or_arg : Option Arg → Option Arg → Option Arg
or_arg a b = if is_truthy a then a else b

-- A truthy text.
abbrev pub text_of : Option Arg → Option String
text_of (some (text s)) = if str_eq s "" then none else some s
text_of (some truthy) = none
text_of (some falsy) = none
text_of none = none

-- `_extract_token`
unfoldable pub extract_token : TxRecord → Option String
extract_token rec_ =
    let args = rec_.action_args in
    let token =
      or_arg (or_arg (lookup "token" args) (lookup "buy_token" args)) (lookup "sell_token" args) in
    elim (text_of token) [
      | some t ↦ some t
      | none ↦ elim rec_.value_wei [
        | none ↦ none
        | some _ ↦ if is_truthy (lookup "token" args) then none else some "native"
      ]
    ]

-- A wei amount above 0.
abbrev pub positive_part : Option ℤ → Option ℕ
positive_part none = none
positive_part (some (pos n)) = if ltb 0 n then some n else none
positive_part (some (negsuc n)) = none

module _ {F : Type 0} where
  abbrev pub with_match : Match F → List (Match F) × List (Lot F) → List (Match F) × List (Lot F)
  with_match m (matches, lots) = (m ∷ matches, lots)

  abbrev pub empty_bucket : Bucket F
  empty_bucket = record {
    open_lots = [];
    realized = [];
    total_buy_wei = 0;
    total_sell_wei = 0;
    first_seen = none;
  }

  unfoldable pub bucket_of : String → List (String × Bucket F) → Bucket F
  bucket_of token by_token = elim (lookup token by_token) [ some b ↦ b | none ↦ empty_bucket ]

  abbrev pub seen : String → Bucket F → Bucket F
  seen ts b = elim b.first_seen [ some _ ↦ b | none ↦ record b { first_seen = some ts } ]

  unfoldable pub buy : ℕ → F → String → Bucket F → Bucket F
  buy amount price ts b = record b {
    open_lots = b.open_lots ++ record { amount = amount; price = price; ts = ts } ∷ [];
    total_buy_wei = b.total_buy_wei + amount;
  }

module _ {F : Type 0} (numbers : Numbers F) where
  -- `_safe_int(rec.value_wei)`, if it is more than 0
  unfoldable pub amount_of : Option String → Option ℕ
  amount_of none = none
  amount_of (some value) = positive_part (numbers.int_of value)

  unfoldable pub extract_price_usd : TxRecord → F
  extract_price_usd rec_ =
      elim (or_arg (lookup "price_usd" rec_.action_args) (lookup "usd_price" rec_.action_args)) [
        | none ↦ numbers.zero_usd
        | some a ↦ elim (numbers.float_of a) [ some f ↦ f | none ↦ numbers.zero_usd ]
      ]

  abbrev pub match_of : F → String → ℕ → Lot F → Match F
  match_of sell_price sell_ts consumed lot = record {
    amount_wei = consumed;
    buy_price_usd = lot.price;
    sell_price_usd = sell_price;
    pnl_usd = numbers.profit sell_price lot.price consumed;
    buy_ts = lot.ts;
    sell_ts = sell_ts;
  }

  -- The loop of `_consume_buys`: what it appends to the matches, and the lots that it leaves.
  unfoldable pub consume_buys : ℕ → F → String → List (Lot F) → List (Match F) × List (Lot F)
  consume_buys remaining sell_price sell_ts [] = ([], [])
  consume_buys remaining sell_price sell_ts (lot ∷ lots) =
      let consumed = min lot.amount remaining in
      let next = consume_buys (remaining - consumed) sell_price sell_ts lots in
      let left = record lot { amount = lot.amount - consumed } ∷ lots in
      if ltb 0 remaining
      then (if consumed == lot.amount
          then with_match (match_of sell_price sell_ts consumed lot) next
          else (match_of sell_price sell_ts consumed lot ∷ [], left))
      else ([], lot ∷ lots)

  unfoldable pub sell : ℕ → F → String → Bucket F → Bucket F
  sell amount price ts b =
      let (matches, lots) = consume_buys amount price ts b.open_lots in
      record b {
        open_lots = lots;
        realized = b.realized ++ matches;
        total_sell_wei = b.total_sell_wei + amount;
      }

  -- What a record does to its token's bucket.
  unfoldable pub apply_record : TxRecord → ℕ → Bucket F → Bucket F
  apply_record rec_ amount b =
      let price = extract_price_usd rec_ in
      if str_eq rec_.tool_name "transfer"
        && (str_eq rec_.status "ok" || str_eq rec_.status "submitted")
      then sell amount price rec_.ts (seen rec_.ts b)
      else (if str_eq rec_.tool_name "defi_swap"
          then buy amount price rec_.ts (seen rec_.ts b)
          else seen rec_.ts b)

  -- Whether `token_filter` keeps a token.
  abbrev pub keeps : Option String → String → Bool
  keeps none token = true
  keeps (some filter) token = str_eq (numbers.lower token) (numbers.lower filter)

  -- One record of the walk.
  unfoldable pub step :
      String → Option String → TxRecord → List (String × Bucket F) → List (String × Bucket F)
  step user_id token_filter rec_ by_token = elim (extract_token rec_) [
    | none ↦ by_token
    | some token ↦ elim (amount_of rec_.value_wei) [
      | none ↦ by_token
      | some amount ↦
          if str_eq rec_.user_id user_id && keeps token_filter token
          then insert token (apply_record rec_ amount (bucket_of token by_token)) by_token
          else by_token
    ]
  ]

  -- The walk of `_build_lots` over the ledger, oldest record first.
  unfoldable pub walk :
      String → Option String → List TxRecord → List (String × Bucket F) → List (String × Bucket F)
  walk user_id token_filter [] by_token = by_token
  walk user_id token_filter (rec_ ∷ records) by_token =
      walk user_id token_filter records (step user_id token_filter rec_ by_token)

  abbrev pub build_lots : String → Option String → List TxRecord → List (String × Bucket F)
  build_lots user_id token_filter records = walk user_id token_filter records []
