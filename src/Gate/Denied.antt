-- ===== src/Gate/Denied.antt =====
-- The gate's promise: without permission a call changes nothing but the gate's own records.
use clawmes.Base.{
  ◌≡◌, refl, ◌≢◌, ◌⊎◌, inl, inr, String, true, false, Option, List, arith, Bool-cases,
}
use clawmes.Policy.Types.{Value, Args, ActionContext, Policy, Decision, Kind, allow, block, confirm}
use clawmes.Policy.Usage.{Buckets}
use clawmes.Policy.Evaluator.{evaluate}
use clawmes.Policy.Confirm.{Store}
use clawmes.Gate.Extract.{Host, extraction_overflows}
use clawmes.Gate.{
  is_readonly, Execution, Run, Result, readonly_mode, uncaught_overflow, policy_block, policy_hold,
  Moment, State, context, perform, confirmed, judged, gated,
}

-- What stops a call before the delegation stage: one of the three denials, or the OverflowError of an
-- infinite number among the arguments.
pub data Denial : Result → Type 0 where
  by_mode : Denial readonly_mode
  by_overflow : Denial uncaught_overflow
  by_policy : (name : String) (reason : _) → Denial (policy_block name reason)
  by_hold : (name : String) (reason : _) (nonce : String) → Denial (policy_hold name reason nonce)

-- The policy decision of a call, and the counter after it.
abbrev pub verdict {ℓ} :
    {W : Type ℓ}
    → Host
    → List Policy
    → String
    → Args
    → Option Value
    → Moment
    → State W
    → Decision × Buckets
verdict host rules tool args user m st =
    evaluate (context host tool args user) rules m.evaluated_at st.usage

pub Kind-cases : (k : Kind) → (k ≡ allow) ⊎ ((k ≡ block) ⊎ (k ≡ confirm))
Kind-cases allow = inl refl
Kind-cases block = inr (inl refl)
Kind-cases confirm = inr (inr refl)

module _ {ℓ} {W : Type ℓ} (host : Host) (rules : List Policy) (tool : String)
    (delegation : ActionContext → Args → W → Option Execution × W)
    (handler : Args → W → Run × W) where
  -- A call may go on: its context is read, the mode is not readonly, and the rules allow it or its nonce confirms it.
  abbrev pub Permitted : Args → Option Value → Moment → State W → Type 0
  Permitted args user m st =
      let kind = (verdict host rules tool args user m st).0.kind in
      (extraction_overflows host args ≡ false)
      × (is_readonly st.mode ≡ false)
      × ((kind ≡ allow)
          ⊎ ((kind ≡ confirm)
              × ((confirmed host (context host tool args user) args m.confirmed_at st.pending).0
                  ≡ true)))

  judged_denied :
      (ctx : ActionContext) (args : Args) (m : Moment) (st : State W) (d : Decision)
      → d.kind ≢ allow
      → ¬ ((d.kind ≡ confirm) × ((confirmed host ctx args m.confirmed_at st.pending).0 ≡ true))
      → let out = judged host rules tool delegation handler ctx args m st d in
        Denial out.0 × (out.1.world ≡ st.world) × (out.1.usage ≡ st.usage) × (out.1.mode ≡ st.mode)
  unfolding judged
  judged_denied ctx args m st d na nc = elim (Kind-cases d.kind) [
    | inl allows ↦ ground (arith, na allows)
    | inr (inl blocks) ↦ rw blocks (by_policy _ _, refl, refl, refl)
    | inr (inr confirms) ↦ elim (Bool-cases (confirmed host ctx args m.confirmed_at st.pending).0) [
      | inl ok ↦ ground (arith, nc (confirms, ok))
      | inr refused ↦ rw (confirms, refused) (by_hold _ _ _, refl, refl, refl)
    ]
  ]

  -- A call that is not permitted is answered by one of the three denials, or ends with the
  -- OverflowError of an infinite number, and leaves the world and the mode as they were, whatever the delegation stage and the handler would do; the counter is
  -- as it was or as the evaluation left it.
  pub gated_denied :
      (args : Args) (user : Option Value) (m : Moment) (st : State W)
      → ¬ Permitted args user m st
      → let out = gated host rules tool delegation handler args user m st in
        Denial out.0
        × (out.1.world ≡ st.world)
        × (out.1.mode ≡ st.mode)
        × ((out.1.usage ≡ st.usage) ⊎ (out.1.usage ≡ (verdict host rules tool args user m st).1))
  unfolding gated
  gated_denied args user m st h = elim (Bool-cases (extraction_overflows host args)) [
    | inl raises ↦ rw (gated, raises) (by_overflow, refl, refl, inl refl)
    | inr reads ↦ elim (Bool-cases (is_readonly st.mode)) [
      | inl stopped ↦ rw (gated, reads, stopped) (by_mode, refl, refl, inl refl)
      | inr free ↦
          let (d, w, u, k) =
            judged_denied (context host tool args user) args m
              record {
                mode = st.mode;
                usage = (verdict host rules tool args user m st).1;
                pending = st.pending;
                world = st.world;
              }
              (verdict host rules tool args user m st).0 (λ a. h (reads, free, inl a))
              (λ c. h (reads, free, inr c)) in
          rw (gated, reads, free) (d, w, k, inr u)
    ]
  ]

  -- A permitted call is what the delegation stage and the handler make of it, at the counter that
  -- the evaluation left and at the pending confirmations, less the one that was used.
  pub gated-Permitted :
      (args : Args) (user : Option Value) (m : Moment) (st : State W)
      → Permitted args user m st
      → (pending : Store) × (gated host rules tool delegation handler args user m st
          ≡ perform host rules tool delegation handler (context host tool args user) args m record {
            mode = st.mode;
            usage = (verdict host rules tool args user m st).1;
            pending = pending;
            world = st.world;
          })
        × ((pending ≡ st.pending)
            ⊎ (pending
                ≡ (confirmed host (context host tool args user) args m.confirmed_at st.pending).1))
  unfolding gated judged
  gated-Permitted args user m st (reads, free, inl allows) =
      (st.pending, rw (gated, reads, free, judged, allows) refl, inl refl)
  gated-Permitted args user m st (reads, free, inr (confirms, ok)) =
      (_, rw (gated, reads, free, judged, confirms, ok) refl, inr refl)
