-- ===== src/Orders/Retries.antt =====
-- An order that is still open has attempts left, and what the engine does to one order.
use clawmes.Base.{
  ◌≡◌, refl, inl, inr, String, Bool, false, List, [], ◌∷◌, arith, All, All-append, Bool-cases,
  List-cases, Option-cases, ◌&&◌, lookup,
}
use clawmes.Base.Check.{good, flag_or, bind_good, Check-cases}
use clawmes.Orders.{
  Floats, Side, filled, Fill, done, error, no_wallet, Order, is_active, is_terminal, pause, resume,
  cancel, default_max_attempts, default_slippage_bps, active_count,
}
use clawmes.Orders.Add.{
  positive_float, slippage_of, max_attempts_of, bracket_of, is_over_cap, new_order, add,
}
use clawmes.Orders.Engine.{
  Market, child, materialize_bracket, evaluate_order, tried_order, settle, run_order, run_orders,
  run_due,
}
use clawmes.Orders.Kept.{
  append-IsRetryable, after_failure-IsRetryable, pause-IsRetryable, resume-IsRetryable,
  cancel-IsRetryable, IsRetryable,
}

module _ {F : Type 0} (floats : Floats F) where
  new_order_untried :
      (holder : Bool) (sender : String) (side : Side) (token amount usd : String)
      (flags : List (String × String)) (id now : String) (o : Order F)
      → new_order floats holder sender side token amount usd flags id now ≡ good o
      → o.attempts ≡ []
  unfolding new_order
  new_order_untried holder sender side token amount usd flags id now o h =
      let (_, _, h1) = bind_good (positive_float floats amount) _ h in
      let (_, _, h2) = bind_good (positive_float floats usd) _ h1 in
      let (_, _, h3) =
        bind_good (flag_or default_slippage_bps (slippage_of floats) (lookup "slippage" flags)) _
          h2 in
      let (_, _, h4) =
        bind_good
          (flag_or default_max_attempts (max_attempts_of floats) (lookup "max-attempts" flags)) _
          h3 in
      let (_, _, h5) = bind_good (bracket_of floats holder side (lookup "bracket" flags)) _ h4 in
      ground arith

  add-IsRetryable :
      (holder : Bool) (sender : String) (side : Side) (token amount usd : String)
      (flags : List (String × String)) (id now : String) (orders : List (Order F))
      → All IsRetryable orders
      → All IsRetryable (add floats holder sender side token amount usd flags id now orders).1
  unfolding add
  add-IsRetryable holder sender side token amount usd flags id now orders a =
      elim (Bool-cases (is_over_cap holder (active_count sender orders))) [
        | inl over ↦ rw (add, over) a
        | inr room ↦
            elim (Check-cases (new_order floats holder sender side token amount usd flags id now)) [
              | inl (r, e) ↦ rw (add, room, e) a
              | inr (o, e) ↦
                  rw (add, room, e)
                    (append-IsRetryable orders o
                      (new_order_untried holder sender side token amount usd flags id now o e) a)
            ]
      ]

  module _ {ℓ} {W : Type ℓ} (market : Market F W) where
    materialize_bracket-IsRetryable :
        (o : Order F) (price : F) (w : W)
        → All IsRetryable (materialize_bracket floats market o price w)
    unfolding materialize_bracket child
    materialize_bracket-IsRetryable o price w = elim (Option-cases o.bracket) [
      | inl plain_ ↦ rw (materialize_bracket, plain_) tt
      | inr (b, e) ↦
          elim (Bool-cases (
            floats.is_positive price
            && (floats.is_positive b.tp_pct && floats.is_positive b.sl_pct))) [
              | inl fits ↦
                  rw (materialize_bracket, e, fits) (λ _. omega arith, (λ _. omega arith, tt))
              | inr unfit ↦ rw (materialize_bracket, e, unfit) tt
            ]
    ]

    -- After a fill the order is filled, with children or without.
    filled_status :
        (o : Order F) (price : F) (t : String) (w : W)
        → (settle floats market o price (done t) w).0.status ≡ filled
    unfolding settle
    filled_status o price t w =
        elim (List-cases (
          materialize_bracket floats market (tried_order floats market o price (done t) w) price
            w)) [
              | inl none_made ↦ rw (settle, none_made) refl
              | inr (c, rest, made) ↦ rw (settle, made) refl
            ]

    settle-IsRetryable :
        (o : Order F) (price : F) (fill : Fill) (w : W)
        → IsRetryable (settle floats market o price fill w).0
          × All IsRetryable (settle floats market o price fill w).1
    unfolding settle
    settle-IsRetryable o price (done t) w = (
      λ still.
          (let never : is_terminal filled ≡ false = rw (filled_status o price t w) at still in
            ground arith),
      materialize_bracket-IsRetryable _ price w,
    )
    settle-IsRetryable o price (error e) w = (after_failure-IsRetryable _, tt)
    settle-IsRetryable o price no_wallet w = (after_failure-IsRetryable _, tt)

    run_order-IsRetryable :
        (o : Order F) (w : W)
        → IsRetryable o
        → IsRetryable (run_order floats market o w).0.0
          × All IsRetryable (run_order floats market o w).0.1
    unfolding run_order
    run_order-IsRetryable o w r = elim (Bool-cases (is_active o.status)) [
      | inr resting ↦ rw (run_order, resting) (r, tt)
      | inl live ↦ elim (Option-cases (evaluate_order floats market o w).0) [
        | inl waits ↦ rw (run_order, live, waits) (r, tt)
        | inr ((price, fill), hit) ↦
            rw (run_order, live, hit)
              (settle-IsRetryable o price fill (evaluate_order floats market o w).1)
      ]
    ]

    run_orders-IsRetryable :
        (orders : List (Order F)) (w : W)
        → All IsRetryable orders
        → All IsRetryable (run_orders floats market orders w).0.0
          × All IsRetryable (run_orders floats market orders w).0.1
    unfolding run_orders
    run_orders-IsRetryable [] w a = (tt, tt)
    run_orders-IsRetryable (o ∷ orders) w a =
        let (this, children) = run_order-IsRetryable o w a.0 in
        let (rest, more) = run_orders-IsRetryable orders (run_order floats market o w).1 a.1 in
        ((this, rest), All-append IsRetryable (run_order floats market o w).0.1 _ children more)

    -- The states of the order book that adding, pausing, resuming, cancelling and the engine reach
    -- from the empty one.
    pub data Reachable : List (Order F) → Type ℓ where
      empty : Reachable []
      added :
          (holder : Bool) (sender : String) (side : Side) (token amount usd : String)
          (flags : List (String × String)) (id now : String) {orders : List (Order F)}
          → Reachable orders
          → Reachable (add floats holder sender side token amount usd flags id now orders).1
      paused_one :
          (oid sender : String) {orders : List (Order F)}
          → Reachable orders
          → Reachable (pause oid sender orders).1
      resumed :
          (oid sender : String) {orders : List (Order F)}
          → Reachable orders
          → Reachable (resume oid sender orders).1
      cancelled :
          (oid sender : String) {orders : List (Order F)}
          → Reachable orders
          → Reachable (cancel oid sender orders).1
      ran :
          (w : W) {orders : List (Order F)}
          → Reachable orders
          → Reachable (run_due floats market orders w).0

    -- In every order book that adding, pausing, resuming, cancelling and the engine reach, an order
    -- that is neither filled nor failed has made fewer attempts than it may make.
    pub Reachable-IsRetryable :
        {orders : List (Order F)} → Reachable orders → All IsRetryable orders
    unfolding run_due
    Reachable-IsRetryable empty = tt
    Reachable-IsRetryable (added holder sender side token amount usd flags id now {orders} r) =
        add-IsRetryable holder sender side token amount usd flags id now orders
          (Reachable-IsRetryable r)
    Reachable-IsRetryable (paused_one oid sender {orders} r) =
        pause-IsRetryable oid sender orders (Reachable-IsRetryable r)
    Reachable-IsRetryable (resumed oid sender {orders} r) =
        resume-IsRetryable oid sender orders (Reachable-IsRetryable r)
    Reachable-IsRetryable (cancelled oid sender {orders} r) =
        cancel-IsRetryable oid sender orders (Reachable-IsRetryable r)
    Reachable-IsRetryable (ran w {orders} r) =
        let (kept, made) = run_orders-IsRetryable orders w (Reachable-IsRetryable r) in
        All-append IsRetryable (run_orders floats market orders w).0.0 _ kept made
