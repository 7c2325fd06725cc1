-- ===== src/CostBasis/Balance.antt =====
-- What was bought is open or was matched.
use clawmes.Base.{
  ℕ, ◌+◌, ◌-◌, ◌≤◌, ◌≡◌, inl, inr, String, List, [], ◌∷◌, ◌++◌, arith, Bool-cases, Option-cases,
  Option, All, All-insert, lookup-All, lookup, ltb, ◌==◌, min, ◌&&◌, ◌||◌, str_eq,
}
use clawmes.CostBasis.{
  TxRecord, Lot, Match, Bucket, Numbers, consume_buys, bucket_of, seen, sell, buy, apply_record,
  extract_token, amount_of, extract_price_usd, keeps, step, walk, build_lots,
}

module _ {F : Type 0} where
  -- `sum(amount for amount, _, _ in b["open_lots"])`
  unfoldable pub open_quantity : List (Lot F) → ℕ
  open_quantity [] = 0
  open_quantity (lot ∷ lots) = lot.amount + open_quantity lots

  unfoldable pub matched_quantity : List (Match F) → ℕ
  matched_quantity [] = 0
  matched_quantity (m ∷ matches) = m.amount_wei + matched_quantity matches

  -- The bought amount is what is open and what was matched, and no more was matched than sold.
  unfoldable pub IsBalanced : Bucket F → Type 0
  IsBalanced b =
      (open_quantity b.open_lots + matched_quantity b.realized ≡ b.total_buy_wei)
      × (matched_quantity b.realized ≤ b.total_sell_wei)

  open_quantity-append :
      (xs ys : List (Lot F)) → open_quantity (xs ++ ys) ≡ open_quantity xs + open_quantity ys
  unfolding open_quantity
  open_quantity-append [] ys = omega arith
  open_quantity-append (x ∷ xs) ys = omega (arith, open_quantity-append xs ys)

  matched_quantity-append :
      (xs ys : List (Match F))
      → matched_quantity (xs ++ ys) ≡ matched_quantity xs + matched_quantity ys
  unfolding matched_quantity
  matched_quantity-append [] ys = omega arith
  matched_quantity-append (x ∷ xs) ys = omega (arith, matched_quantity-append xs ys)

  module _ (numbers : Numbers F) where
    consume_buys-quantity :
        (n : ℕ) (price : F) (ts : String) (lots : List (Lot F))
        → (open_quantity (consume_buys numbers n price ts lots).1
              + matched_quantity (consume_buys numbers n price ts lots).0
            ≡ open_quantity lots)
          × (matched_quantity (consume_buys numbers n price ts lots).0 ≤ n)
    unfolding consume_buys open_quantity matched_quantity
    consume_buys-quantity n price ts [] = (omega arith, omega arith)
    consume_buys-quantity n price ts (lot ∷ lots) =
        let a = lot.amount in
        let (sum, few) = consume_buys-quantity (n - min a n) price ts lots in
        elim (Bool-cases (ltb 0 n)) [
          | inr done ↦ rw (consume_buys, done) (omega arith, omega arith)
          | inl more ↦ elim (Bool-cases (min a n == a)) [
            | inl whole ↦
                rw (consume_buys, more, whole) (ground (arith, sum, few), ground (arith, sum, few))
            | inr part ↦ rw (consume_buys, more, part) (ground (arith, part), ground (arith, part))
          ]
        ]

    seen-IsBalanced : (ts : String) (b : Bucket F) → IsBalanced b → IsBalanced (seen ts b)
    unfolding IsBalanced
    seen-IsBalanced ts b h = elim (Option-cases b.first_seen) [
      | inl unseen ↦ rw unseen h
      | inr (t, before) ↦ rw before h
    ]

    sell-IsBalanced :
        (amount : ℕ) (price : F) (ts : String) (b : Bucket F)
        → IsBalanced b
        → IsBalanced (sell numbers amount price ts b)
    unfolding sell IsBalanced
    sell-IsBalanced amount price ts b (bought, sold) =
        let (sum, few) = consume_buys-quantity amount price ts b.open_lots in
        let joined =
          matched_quantity-append b.realized (consume_buys numbers amount price ts b.open_lots).0 in
        (omega (arith, bought, sum, joined), omega (arith, sold, few, joined))

    buy-IsBalanced :
        (amount : ℕ) (price : F) (ts : String) (b : Bucket F)
        → IsBalanced b
        → IsBalanced (buy amount price ts b)
    unfolding buy IsBalanced open_quantity
    buy-IsBalanced amount price ts b (bought, sold) =
        let joined =
          open_quantity-append b.open_lots
            (record { amount = amount; price = price; ts = ts } ∷ []) in
        (omega (arith, bought, joined), sold)

    apply_record-IsBalanced :
        (rec_ : TxRecord) (amount : ℕ) (b : Bucket F)
        → IsBalanced b
        → IsBalanced (apply_record numbers rec_ amount b)
    unfolding apply_record
    apply_record-IsBalanced rec_ amount b h =
        let price = extract_price_usd numbers rec_ in
        let start = seen-IsBalanced rec_.ts b h in
        elim (Bool-cases (
          str_eq rec_.tool_name "transfer"
          && (str_eq rec_.status "ok" || str_eq rec_.status "submitted"))) [
            | inl sells ↦ rw (apply_record, sells) (sell-IsBalanced amount price rec_.ts _ start)
            | inr other ↦ elim (Bool-cases (str_eq rec_.tool_name "defi_swap")) [
              | inl buys ↦
                  rw (apply_record, other, buys) (buy-IsBalanced amount price rec_.ts _ start)
              | inr neither ↦ rw (apply_record, other, neither) start
            ]
          ]

    bucket_of-IsBalanced :
        (token : String) (by_token : List (String × Bucket F))
        → All (λ e. IsBalanced e.1) by_token
        → IsBalanced (bucket_of token by_token)
    unfolding bucket_of IsBalanced open_quantity matched_quantity
    bucket_of-IsBalanced token by_token h = elim (Option-cases (lookup token by_token)) [
      | inl new ↦ rw (bucket_of, new) (omega arith, omega arith)
      | inr (b, old) ↦ rw (bucket_of, old) (lookup-All (λ _ b. IsBalanced b) token b by_token old h)
    ]

    step-IsBalanced :
        (user_id : String) (token_filter : Option String) (rec_ : TxRecord)
        (by_token : List (String × Bucket F))
        → All (λ e. IsBalanced e.1) by_token
        → All (λ e. IsBalanced e.1) (step numbers user_id token_filter rec_ by_token)
    unfolding step
    step-IsBalanced user_id token_filter rec_ by_token h =
        elim (Option-cases (extract_token rec_)) [
          | inl none_named ↦ rw (step, none_named) h
          | inr (token, named) ↦ elim (Option-cases (amount_of numbers rec_.value_wei)) [
            | inl nothing ↦ rw (step, named, nothing) h
            | inr (amount, moved) ↦
                elim (Bool-cases
                  (str_eq rec_.user_id user_id && keeps numbers token_filter token)) [
                    | inr skipped ↦ rw (step, named, moved, skipped) h
                    | inl kept ↦
                        rw (step, named, moved, kept)
                          (All-insert (λ _ b. IsBalanced b) token _ by_token
                            (apply_record-IsBalanced rec_ amount _
                              (bucket_of-IsBalanced token by_token h))
                            h)
                  ]
          ]
        ]

    walk-IsBalanced :
        (user_id : String) (token_filter : Option String) (records : List TxRecord)
        (by_token : List (String × Bucket F))
        → All (λ e. IsBalanced e.1) by_token
        → All (λ e. IsBalanced e.1) (walk numbers user_id token_filter records by_token)
    unfolding walk
    walk-IsBalanced user_id token_filter [] by_token h = h
    walk-IsBalanced user_id token_filter (rec_ ∷ records) by_token h =
        walk-IsBalanced user_id token_filter records _
          (step-IsBalanced user_id token_filter rec_ by_token h)

    -- For every ledger, in each token's bucket the bought amount is the sum of the open and of the
    -- matched amounts, and no more was matched than sold.
    pub build_lots-IsBalanced :
        (user_id : String) (token_filter : Option String) (records : List TxRecord)
        → All (λ e. IsBalanced e.1) (build_lots numbers user_id token_filter records)
    build_lots-IsBalanced user_id token_filter records =
        walk-IsBalanced user_id token_filter records [] tt
