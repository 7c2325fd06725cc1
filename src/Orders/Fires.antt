-- ===== src/Orders/Fires.antt =====
-- When the engine swaps.
use clawmes.Base.{◌≡◌, refl, inl, inr, true, false, none, some, List, [], Bool-cases, Option-cases}
use clawmes.Orders.{Direction, above, below, Floats, no_wallet, Order, is_active}
use clawmes.Orders.Engine.{
  Market, is_crossed, swap_of, submit_swap, evaluate_order, settle, run_order,
}

module _ {ℓ} {F : Type 0} {W : Type ℓ} (floats : Floats F) (market : Market F W) where
  -- A price at or above the threshold, or at or below it, as the direction says, and its negation.
  abbrev pub Crosses : Direction → F → F → Type 0
  Crosses above price threshold = floats.at_least price threshold ≡ true
  Crosses below price threshold = floats.at_least threshold price ≡ true

  abbrev pub Misses : Direction → F → F → Type 0
  Misses above price threshold = floats.at_least price threshold ≡ false
  Misses below price threshold = floats.at_least threshold price ≡ false

  is_crossed-Crosses :
      (d : Direction) (price threshold : F)
      → is_crossed floats d price threshold ≡ true
      → Crosses d price threshold
  unfolding is_crossed
  is_crossed-Crosses above price threshold h = h
  is_crossed-Crosses below price threshold h = h

  is_crossed-Misses :
      (d : Direction) (price threshold : F)
      → is_crossed floats d price threshold ≡ false
      → Misses d price threshold
  unfolding is_crossed
  is_crossed-Misses above price threshold h = h
  is_crossed-Misses below price threshold h = h

  -- What the engine does with one order in a round: it leaves the order and the world, for one of
  -- three reasons, or it settles the order on one attempt, which swaps if a wallet is connected.
  pub data Fires (o : Order F) (w : W) : (Order F × List (Order F)) × W → Type ℓ where
    rests : is_active o.status ≡ false → Fires o w ((o, []), w)
    unpriced : market.price o.token w ≡ none → Fires o w ((o, []), w)
    waits :
        (price : F)
        → market.price o.token w ≡ some price
        → Misses o.direction price o.threshold_usd
        → Fires o w ((o, []), w)
    without_wallet :
        (price : F)
        → is_active o.status ≡ true
        → market.price o.token w ≡ some price
        → Crosses o.direction price o.threshold_usd
        → market.connected w ≡ false
        → Fires o w (settle floats market o price no_wallet w, w)
    swaps :
        (price : F)
        → is_active o.status ≡ true
        → market.price o.token w ≡ some price
        → Crosses o.direction price o.threshold_usd
        → market.connected w ≡ true
        → Fires o w (
          settle floats market o price
              (market.swap (swap_of floats o) w).0
              (market.swap (swap_of floats o) w).1,
          (market.swap (swap_of floats o) w).1,
        )

  evaluate_unpriced :
      (o : Order F) (w : W)
      → market.price o.token w ≡ none
      → evaluate_order floats market o w ≡ (none, w)
  unfolding evaluate_order
  evaluate_unpriced o w unknown = rw (evaluate_order, unknown) refl

  uncrossed :
      (o : Order F) (w : W) (price : F)
      → market.price o.token w ≡ some price
      → is_crossed floats o.direction price o.threshold_usd ≡ false
      → evaluate_order floats market o w ≡ (none, w)
  unfolding evaluate_order
  uncrossed o w price known short = rw (evaluate_order, known, short) refl

  crossed :
      (o : Order F) (w : W) (price : F)
      → market.price o.token w ≡ some price
      → is_crossed floats o.direction price o.threshold_usd ≡ true
      → evaluate_order floats market o w
        ≡ (some (price, (submit_swap floats market o w).0), (submit_swap floats market o w).1)
  unfolding evaluate_order
  crossed o w price known hit = rw (evaluate_order, known, hit) refl

  -- In one round the engine leaves an order and the world as they are, because the order is not
  -- active, no price is known or the price is not yet past the threshold, or the order is active, a
  -- price is known and is at or above its threshold, or at or below it, as its direction says, and
  -- the order is settled on the outcome of one attempt: its own swap if a wallet is connected, and
  -- else none.
  pub run_order-Fires : (o : Order F) (w : W) → Fires o w (run_order floats market o w)
  unfolding run_order
  run_order-Fires o w = elim (Bool-cases (is_active o.status)) [
    | inr resting ↦ rw (run_order, resting) (rests resting)
    | inl live ↦ elim (Option-cases (market.price o.token w)) [
      | inl unknown ↦
          let e : evaluate_order floats market o w ≡ (none, w) = evaluate_unpriced o w unknown in
          rw (run_order, live, e, e) (unpriced unknown)
      | inr (price, known) ↦
          elim (Bool-cases (is_crossed floats o.direction price o.threshold_usd)) [
            | inr short ↦
                let e : evaluate_order floats market o w ≡ (none, w) =
                  uncrossed o w price known short in
                rw (run_order, live, e, e)
                  (waits price known (is_crossed-Misses o.direction price o.threshold_usd short))
            | inl hit ↦
                let e = crossed o w price known hit in
                let past = is_crossed-Crosses o.direction price o.threshold_usd hit in
                elim (Bool-cases (market.connected w)) [
                  | inr alone ↦
                      let no_swap : submit_swap floats market o w ≡ (no_wallet, w) =
                        unfold submit_swap in rw (submit_swap, alone) refl in
                      rw (run_order, live, e, e, no_swap)
                        (without_wallet price live known past alone)
                  | inl wallet ↦
                      let swap : submit_swap floats market o w ≡ market.swap (swap_of floats o) w =
                        unfold submit_swap in rw (submit_swap, wallet) refl in
                      rw (run_order, live, e, e, swap) (swaps price live known past wallet)
                ]
          ]
    ]
  ]
