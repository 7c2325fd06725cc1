-- ===== src/Orders/Kept.antt =====
-- What the commands of the order book keep: open orders have attempts left.
use clawmes.Base.{
  ℕ, ◌<◌, ◌≡◌, refl, inl, inr, String, true, false, some, List, [], ◌∷◌, ◌++◌, arith, leb, length,
  keep_if, All, All-append, All-keep_if, Bool-cases, Option-cases, subst, sym, not, ◌==◌,
}
use clawmes.Orders.{
  Status, active, paused, filled, failed, Order, is_paused, is_terminal, is_mine, with_status, find,
  update, pause, resume, cancel, default_max_attempts,
}
use clawmes.Orders.Engine.{or_default, after_failure}

-- An order that is not terminal has attempts left.
abbrev pub IsRetryable : {F : Type 0} → Order F → Type 0
IsRetryable o =
    is_terminal o.status ≡ false
    → length o.attempts < or_default o.max_attempts default_max_attempts

below : (m n : ℕ) → leb m n ≡ false → n < m
below m n h = ground arith

or_default_positive : (n : ℕ) → 0 < or_default n default_max_attempts
or_default_positive n = ground arith

paused_open : (s : Status) → is_paused s ≡ true → is_terminal s ≡ false
paused_open active h = ground arith
paused_open paused h = refl
paused_open filled h = ground arith
paused_open failed h = ground arith

some_order : {F : Type 0} (p q : Order F) → some p ≡ some q → p ≡ q
some_order p q h = cc

module _ {F : Type 0} where
  update-IsRetryable :
      (oid sender : String) (f : Order F → Order F) (orders : List (Order F)) (o : Order F)
      → find oid sender orders ≡ some o
      → (IsRetryable o → IsRetryable (f o))
      → All IsRetryable orders
      → All IsRetryable (update oid sender f orders)
  unfolding find update
  update-IsRetryable oid sender f [] o h r a = tt
  update-IsRetryable oid sender f (q ∷ orders) o h r a = elim (Bool-cases (is_mine oid sender q)) [
    | inl mine ↦
        let same : q ≡ o = some_order q o (rw mine at h) in
        rw mine
          (subst (λ x. IsRetryable (f x)) (sym same) (r (subst (λ x. IsRetryable x) same a.0)), a.1)
    | inr other ↦ rw other (a.0, update-IsRetryable oid sender f orders o (rw other at h) r a.1)
  ]

  pub after_failure-IsRetryable : (o : Order F) → IsRetryable (after_failure o)
  unfolding after_failure
  after_failure-IsRetryable o =
      elim (Bool-cases (leb (or_default o.max_attempts default_max_attempts) (length o.attempts))) [
        | inl spent ↦ rw (after_failure, spent) (λ h. ground arith)
        | inr more ↦
            rw (after_failure, more)
              (λ _. below (or_default o.max_attempts default_max_attempts) (length o.attempts) more)
      ]

  pub pause-IsRetryable :
      (oid sender : String) (orders : List (Order F))
      → All IsRetryable orders
      → All IsRetryable (pause oid sender orders).1
  unfolding pause
  pause-IsRetryable oid sender orders a = elim (Option-cases (find oid sender orders)) [
    | inl missing ↦ rw (pause, missing) a
    | inr (o, found) ↦ elim (Bool-cases (is_terminal o.status)) [
      | inl over ↦ rw (pause, found, over) a
      | inr still ↦
          rw (pause, found, still)
            (update-IsRetryable oid sender (with_status paused) orders o found (λ r _. r still) a)
    ]
  ]

  pub resume-IsRetryable :
      (oid sender : String) (orders : List (Order F))
      → All IsRetryable orders
      → All IsRetryable (resume oid sender orders).1
  unfolding resume
  resume-IsRetryable oid sender orders a = elim (Option-cases (find oid sender orders)) [
    | inl missing ↦ rw (resume, missing) a
    | inr (o, found) ↦ elim (Bool-cases (is_paused o.status)) [
      | inr other ↦ rw (resume, found, other) a
      | inl held ↦
          rw (resume, found, held)
            (update-IsRetryable oid sender (with_status active) orders o found
              (λ r _. r (paused_open o.status held)) a)
    ]
  ]

  pub cancel-IsRetryable :
      (oid sender : String) (orders : List (Order F))
      → All IsRetryable orders
      → All IsRetryable (cancel oid sender orders).1
  unfolding cancel
  cancel-IsRetryable oid sender orders a =
      let rest : List (Order F) = keep_if (λ o. not (is_mine oid sender o)) orders in
      elim (Bool-cases (length rest == length orders)) [
        | inl same ↦ rw (cancel, same) a
        | inr fewer ↦
            rw (cancel, fewer) (All-keep_if IsRetryable (λ o. not (is_mine oid sender o)) orders a)
      ]

  pub append-IsRetryable :
      (orders : List (Order F)) (o : Order F)
      → o.attempts ≡ []
      → All IsRetryable orders
      → All IsRetryable (orders ++ o ∷ [])
  append-IsRetryable orders o none_yet a =
      All-append IsRetryable orders (o ∷ []) a
        (λ _. rw none_yet (or_default_positive o.max_attempts), tt)
