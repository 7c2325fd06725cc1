-- ===== src/Orders/Caps.antt =====
-- The free tier's cap on active orders.
use clawmes.Base.{
  ℕ, ◌+◌, ◌≤◌, ◌≡◌, inl, inr, String, Bool, false, List, [], ◌∷◌, ◌++◌, arith, leb, length, keep_if,
  Bool-cases, str_eq, ◌&&◌,
}
use clawmes.Orders.{
  Floats, Side, Order, changed, refused, over_cap, is_active, active_count, free_tier_cap,
}
use clawmes.Base.Check.{Check-cases}
use clawmes.Orders.Add.{is_over_cap, new_order, add}

module _ {F : Type 0} (floats : Floats F) where
  length-keep_if_last :
      (keep : Order F → Bool) (orders : List (Order F)) (o : Order F)
      → length (keep_if keep (orders ++ o ∷ [])) ≤ length (keep_if keep orders) + 1
  length-keep_if_last keep [] o = ground arith
  length-keep_if_last keep (q ∷ orders) o = ground (arith, length-keep_if_last keep orders o)

  active_count-append :
      (sender : String) (orders : List (Order F)) (o : Order F)
      → active_count sender (orders ++ o ∷ []) ≤ active_count sender orders + 1
  unfolding active_count
  active_count-append sender orders o =
      length-keep_if_last (λ q. str_eq q.sender_id sender && is_active q.status) orders o

  few : {n : ℕ} → leb free_tier_cap n ≡ false → n ≤ 0
  few h = ground arith

  -- A sender below the HOLDER tier who adds an order has at most one active order afterwards.
  pub add-active_count :
      (sender : String) (side : Side) (token amount usd : String) (flags : List (String × String))
      (id now : String) (orders : List (Order F))
      → (add floats false sender side token amount usd flags id now orders).0 ≡ changed
      → active_count sender (add floats false sender side token amount usd flags id now orders).1
        ≤ 1
  unfolding add is_over_cap
  add-active_count sender side token amount usd flags id now orders h =
      elim (Bool-cases (leb free_tier_cap (active_count sender orders))) [
        | inl full ↦ (let never : refused over_cap ≡ changed = rw (add, full) at h in ground arith)
        | inr room ↦
            elim (Check-cases (new_order floats false sender side token amount usd flags id now)) [
              | inl (r, e) ↦
                  (let never : refused r ≡ changed = rw (add, room, e) at h in ground arith)
              | inr (o, e) ↦
                  rw (add, room, e) (omega (arith, active_count-append sender orders o, few room))
            ]
      ]
