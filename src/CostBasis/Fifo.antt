-- ===== src/CostBasis/Fifo.antt =====
-- A sell takes the oldest units: the lots seen as one list of units, each with what it cost.
use clawmes.Base.{
  ℕ, zero, suc, ◌-◌, ◌≤◌, ◌≡◌, refl, sym, ap, ◌∙◌, inl, inr, String, true, false, List, [], ◌∷◌,
  ◌++◌, arith, Bool-cases, ltb, ◌==◌, min, take, drop, replicate,
}
use clawmes.CostBasis.{Lot, Match, Numbers, consume_buys}

module _ {F : Type 0} where
  -- The units of lots, oldest first: a price and the time of the buy for each wei.
  unfoldable pub units : List (Lot F) → List (F × String)
  units [] = []
  units (lot ∷ lots) = replicate lot.amount (lot.price, lot.ts) ++ units lots

  -- The units that matches closed.
  unfoldable pub closed_units : List (Match F) → List (F × String)
  closed_units [] = []
  closed_units (m ∷ matches) =
      replicate m.amount_wei (m.buy_price_usd, m.buy_ts) ++ closed_units matches

module _ {ℓ} {A : Type ℓ} where
  take_through :
      (k n : ℕ) (a : A) (ys : List A)
      → k ≤ n
      → take n (replicate k a ++ ys) ≡ replicate k a ++ take (n - k) ys
  take_through zero n a ys h = ap (λ m. take m ys) (omega arith)
  take_through (suc k) zero a ys h = absurd (omega (arith, h))
  take_through (suc k) (suc n) a ys h =
      let same : suc n - suc k ≡ n - k = omega arith in
      ap (λ t. a ∷ t)
        (take_through k n a ys (omega (arith, h)) ∙ ap (λ m. replicate k a ++ take m ys) (sym same))

  take_within :
      (k n : ℕ) (a : A) (ys : List A) → n ≤ k → take n (replicate k a ++ ys) ≡ replicate n a
  take_within k zero a ys h = refl
  take_within zero (suc n) a ys h = absurd (omega (arith, h))
  take_within (suc k) (suc n) a ys h = ap (λ t. a ∷ t) (take_within k n a ys (omega (arith, h)))

  drop_through :
      (k n : ℕ) (a : A) (ys : List A) → k ≤ n → drop n (replicate k a ++ ys) ≡ drop (n - k) ys
  drop_through zero n a ys h = ap (λ m. drop m ys) (omega arith)
  drop_through (suc k) zero a ys h = absurd (omega (arith, h))
  drop_through (suc k) (suc n) a ys h =
      drop_through k n a ys (omega (arith, h)) ∙ ap (λ m. drop m ys) (omega arith)

  drop_within :
      (k n : ℕ) (a : A) (ys : List A)
      → n ≤ k
      → drop n (replicate k a ++ ys) ≡ replicate (k - n) a ++ ys
  drop_within k zero a ys h = ap (λ m. replicate m a ++ ys) (omega arith)
  drop_within zero (suc n) a ys h = absurd (omega (arith, h))
  drop_within (suc k) (suc n) a ys h =
      drop_within k n a ys (omega (arith, h)) ∙ ap (λ m. replicate m a ++ ys) (omega arith)

  append_nil : (xs : List A) → xs ++ [] ≡ xs
  append_nil [] = refl
  append_nil (x ∷ xs) = ap (λ t. x ∷ t) (append_nil xs)

module _ {F : Type 0} (numbers : Numbers F) where
  whole_lot : (a n : ℕ) → ltb 0 n ≡ true → (min a n == a) ≡ true → (min a n ≡ a) × (a ≤ n)
  whole_lot a n some_ same = ground (arith, some_, same)

  part_lot : (a n : ℕ) → ltb 0 n ≡ true → (min a n == a) ≡ false → (min a n ≡ n) × (n ≤ a)
  part_lot a n some_ differ = ground (arith, some_, differ)

  none_left_to_take : (n : ℕ) → ltb 0 n ≡ false → n ≡ 0
  none_left_to_take n h = ground (arith, h)

  -- A sell of some units closes exactly the oldest of the open units, or all where there are fewer,
  -- each at the price and the time of its buy, and leaves the others open in their order.
  pub consume_buys-fifo :
      (n : ℕ) (price : F) (ts : String) (lots : List (Lot F))
      → (closed_units (consume_buys numbers n price ts lots).0 ≡ take n (units lots))
        × (units (consume_buys numbers n price ts lots).1 ≡ drop n (units lots))
  unfolding consume_buys units closed_units
  consume_buys-fifo zero price ts [] = (refl, refl)
  consume_buys-fifo (suc n) price ts [] = (refl, refl)
  consume_buys-fifo n price ts (lot ∷ lots) =
      let a = lot.amount in
      let unit : F × String = (lot.price, lot.ts) in
      elim (Bool-cases (ltb 0 n)) [
        | inr done ↦
            let nothing = none_left_to_take n done in rw (consume_buys, done, nothing) (refl, refl)
        | inl more ↦ elim (Bool-cases (min a n == a)) [
          | inl whole ↦
              let (taken, fits) = whole_lot a n more whole in
              let (closed, left) = consume_buys-fifo (n - a) price ts lots in
              rw (consume_buys, more, whole, taken)
                (
                  ap (λ t. replicate a unit ++ t) closed
                      ∙ sym (take_through a n unit (units lots) fits),
                  left ∙ sym (drop_through a n unit (units lots) fits),
                )
          | inr part ↦
              let (taken, fits) = part_lot a n more part in
              rw (consume_buys, more, part, taken)
                (
                  append_nil (replicate n unit) ∙ sym (take_within a n unit (units lots) fits),
                  sym (drop_within a n unit (units lots) fits),
                )
        ]
      ]
