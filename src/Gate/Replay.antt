-- ===== src/Gate/Replay.antt =====
-- A confirmation is used up by the call that it lets through.
use clawmes.Base.{
  ◌≡◌, refl, sym, ap, ◌∙◌, inl, inr, String, true, false, Option, some, List, arith, Bool-cases,
  Option-cases, lookup,
}
use clawmes.Policy.Types.{Value, Args, ActionContext, Policy, allow, confirm}
use clawmes.Policy.Confirm.{Store, nonce_key, consume}
use clawmes.Policy.Confirm.SingleUse.{Uses, consume-single_use}
use clawmes.Policy.Confirm.Taken.{IsDistinct}
use clawmes.Gate.Extract.{Host, is_true, extraction_overflows}
use clawmes.Gate.{
  is_readonly, Execution, Run, Moment, State, context, terminal, run_handler, perform, confirmed,
  judged, gated,
}
use clawmes.Gate.Counting.{Run-cases}
use clawmes.Gate.Denied.{Denial, verdict, gated_denied}

-- The nonce that a call's arguments carry, as the store is asked for it.
abbrev pub Carries : Host → String → Args → Type 0
Carries host n args = (v : Value) × (lookup nonce_key args ≡ some v) × (host.text_of v ≡ n)

confirmed-consume :
    (host : Host) (ctx : ActionContext) (n : String) (args : Args) (now : _) (st : Store)
    → Carries host n args
    → (confirmed host ctx args now st).0 ≡ true
    → confirmed host ctx args now st ≡ consume host.render ctx n now st
unfolding confirmed
confirmed-consume host ctx n args now st (v, given, reads) ok = elim (Bool-cases (is_true v)) [
  | inl said ↦ rw (confirmed, given, said, reads) refl
  | inr blank ↦
      (let wrong : false ≡ true = rw (confirmed, given, blank) at ok in ground (arith, wrong))
]

confirmed_spent :
    (host : Host) (ctx : ActionContext) (n : String) (args : Args) (now : _) (st : Store)
    → Carries host n args
    → (consume host.render ctx n now st).0 ≡ false
    → (confirmed host ctx args now st).0 ≡ false
unfolding confirmed
confirmed_spent host ctx n args now st (v, given, reads) spent = elim (Bool-cases (is_true v)) [
  | inl said ↦ rw (confirmed, given, said, reads) spent
  | inr blank ↦ rw (confirmed, given, blank) refl
]

module _ {ℓ} {W : Type ℓ} (host : Host) (rules : List Policy) (tool : String)
    (delegation : ActionContext → Args → W → Option Execution × W)
    (handler : Args → W → Run × W) where
  perform_pending :
      (ctx : ActionContext) (args : Args) (m : Moment) (st : State W)
      → (perform host rules tool delegation handler ctx args m st).1.pending ≡ st.pending
  unfolding perform run_handler
  perform_pending ctx args m st =
      let (outcome, w) = delegation ctx args st.world in
      elim (Option-cases (terminal outcome)) [
        | inr (r, ends) ↦ rw (perform, ends) refl
        | inl goes_on ↦ elim (Run-cases (handler args w).0) [
          | inl (text, e) ↦ rw (perform, goes_on, run_handler, e) refl
          | inr (inl (message, e)) ↦ rw (perform, goes_on, run_handler, e) refl
          | inr (inr (message, e)) ↦ rw (perform, goes_on, run_handler, e) refl
        ]
      ]

  confirmed_pending :
      (n : String) (args : Args) (user : Option Value) (m : Moment) (st : State W)
      → extraction_overflows host args ≡ false
      → is_readonly st.mode ≡ false
      → (verdict host rules tool args user m st).0.kind ≡ confirm
      → Carries host n args
      → (confirmed host (context host tool args user) args m.confirmed_at st.pending).0 ≡ true
      → (gated host rules tool delegation handler args user m st).1.pending
        ≡ (consume host.render (context host tool args user) n m.confirmed_at st.pending).1
  unfolding gated judged
  confirmed_pending n args user m st reads free held carries ok =
      let ctx = context host tool args user in
      let asked = confirmed-consume host ctx n args m.confirmed_at st.pending carries ok in
      rw (gated, reads, free, judged, held, ok) (perform_pending ctx args m _ ∙ ap (λ p. p.1) asked)

  -- Where the pending nonces differ, a call that is held but whose nonce confirms it uses the nonce
  -- up, whatever the delegation stage and the handler do: whatever is issued under other nonces or
  -- consumed in between, any later call of the tool that is held and carries the same nonce is
  -- answered by a denial (or ends with the OverflowError of an infinite number), and leaves the
  -- world and the mode as they were.
  pub confirmed_call-no_replay :
      (n : String) (args args' : Args) (user user' : Option Value) (m m' : Moment)
      (st st' : State W)
      → IsDistinct st.pending
      → extraction_overflows host args ≡ false
      → is_readonly st.mode ≡ false
      → (verdict host rules tool args user m st).0.kind ≡ confirm
      → Carries host n args
      → (confirmed host (context host tool args user) args m.confirmed_at st.pending).0 ≡ true
      → Uses host.render n
          (gated host rules tool delegation handler args user m st).1.pending
          st'.pending
      → (verdict host rules tool args' user' m' st').0.kind ≡ confirm
      → Carries host n args'
      → let out = gated host rules tool delegation handler args' user' m' st' in
        Denial out.0 × (out.1.world ≡ st'.world) × (out.1.mode ≡ st'.mode)
  confirmed_call-no_replay n args args' user user' m m' st st' d reads free held carries ok uses
        held' carries' =
      let ctx = context host tool args user in
      let ctx' = context host tool args' user' in
      let asked = confirmed-consume host ctx n args m.confirmed_at st.pending carries ok in
      let used : (consume host.render ctx n m.confirmed_at st.pending).0 ≡ true =
        ap (λ p. p.0) (sym asked) ∙ ok in
      let left = confirmed_pending n args user m st reads free held carries ok in
      let after : Uses host.render n (consume host.render ctx n m.confirmed_at st.pending).1
          st'.pending =
        rw left at uses in
      let spent =
        consume-single_use host.render ctx ctx' n m.confirmed_at m'.confirmed_at st.pending d used
          after in
      let refused = confirmed_spent host ctx' n args' m'.confirmed_at st'.pending carries' spent in
      let (denied, world, mode, _) =
        gated_denied host rules tool delegation handler args' user' m' st' λ (_, _, why). elim why [
          | inl allows ↦ (let clash : allow ≡ confirm = sym allows ∙ held' in ground arith)
          | inr (_, passed) ↦
              (let clash : false ≡ true = sym refused ∙ passed in ground (arith, clash))
        ] in
      (denied, world, mode)
