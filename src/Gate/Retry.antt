-- ===== src/Gate/Retry.antt =====
-- A held call and its retry: the nonce of the hold lets the same call through until it expires.
use clawmes.Base.{
  ℕ, ◌+◌, ◌<◌, ◌≡◌, refl, sym, ap, ◌∙◌, ◌≢◌, inl, inr, ◌↔◌, String, true, false, Option, some, List,
  arith, ltb, ltb→lt, lt→ltb, Bool-cases, Option-cases, str_eq, eq_iff, lookup, insert,
  lookup-insert,
}
use clawmes.Policy.Types.{Value, str, Args, ActionContext, Policy, allow, confirm}
use clawmes.Policy.Confirm.{Store, default_ttl_seconds, nonce_key, fingerprint, issue, consume}
use clawmes.Policy.Confirm.SingleUse.{consume_keeps_IsFresh, issue-consume}
use clawmes.Policy.Confirm.Taken.{IsFresh, without_nonce-insert}
use clawmes.Gate.Extract.{Host, is_true, get, extraction_overflows}
use clawmes.Gate.{
  is_readonly, Execution, Run, policy_hold, Moment, State, context, confirmed, judged, gated,
}
use clawmes.Gate.Denied.{verdict, Permitted}

-- The same arguments with the nonce that the hold names.
abbrev pub with_nonce : String → Args → Args
with_nonce nonce args = insert nonce_key (str nonce) args

fingerprint-with_nonce :
    (host : Host) (tool nonce : String) (args : Args) (user : Option Value)
    → fingerprint host.render (context host tool (with_nonce nonce args) user)
      ≡ fingerprint host.render (context host tool args user)
unfolding fingerprint context
fingerprint-with_nonce host tool nonce args user =
    ap (host.render tool) (without_nonce-insert (str nonce) args)

get-with_nonce :
    (key nonce : String) (args : Args)
    → str_eq nonce_key key ≡ false
    → get key (with_nonce nonce args) ≡ get key args
unfolding get
get-with_nonce key nonce args other =
    let found : lookup key (with_nonce nonce args) ≡ lookup key args =
      rw other at (lookup-insert nonce_key key (str nonce) args) in
    rw (get, found) refl

-- The nonce is none of the arguments that the extraction reads.
overflows-with_nonce :
    (host : Host) (nonce : String) (args : Args)
    → extraction_overflows host (with_nonce nonce args) ≡ extraction_overflows host args
unfolding extraction_overflows
overflows-with_nonce host nonce args =
    let id = get-with_nonce "chain_id" nonce args refl in
    let chain = get-with_nonce "chain" nonce args refl in
    let value = get-with_nonce "value_wei" nonce args refl in
    let amount = get-with_nonce "amount_wei" nonce args refl in
    rw (extraction_overflows, id, chain, value, amount) refl

confirmed_keeps_IsFresh :
    (host : Host) (ctx : ActionContext) (args : Args) (n : String) (now : ℕ) (st : Store)
    → IsFresh n st
    → IsFresh n (confirmed host ctx args now st).1
unfolding confirmed
confirmed_keeps_IsFresh host ctx args n now st h = elim (Option-cases (lookup nonce_key args)) [
  | inl missing ↦ rw (confirmed, missing) h
  | inr (v, given) ↦ elim (Bool-cases (is_true v)) [
    | inl said ↦
        rw (confirmed, given, said)
          (consume_keeps_IsFresh host.render ctx (host.text_of v) n now st h)
    | inr blank ↦ rw (confirmed, given, blank) h
  ]
]

confirmed-with_nonce :
    (host : Host) (ctx : ActionContext) (args : Args) (n : String) (now : ℕ) (st : Store)
    → n ≢ ""
    → host.text_of (str n) ≡ n
    → confirmed host ctx (with_nonce n args) now st ≡ consume host.render ctx n now st
unfolding confirmed
confirmed-with_nonce host ctx args n now st some_text reads =
    let found : lookup nonce_key (with_nonce n args) ≡ some (str n) =
      lookup-insert nonce_key nonce_key (str n) args in
    let said : str_eq n "" ≡ false = ground (arith, eq_iff n "") in
    rw (confirmed, found, said, reads) refl

ltb_iff : (a b : ℕ) → (ltb a b ≡ true) ↔ (a < b)
ltb_iff a b = (ltb→lt a b, lt→ltb a b)

module _ {ℓ} {W : Type ℓ} (host : Host) (rules : List Policy) (tool : String)
    (delegation : ActionContext → Args → W → Option Execution × W)
    (handler : Args → W → Run × W) where
  held_state :
      (args : Args) (user : Option Value) (m : Moment) (st : State W)
      → extraction_overflows host args ≡ false
      → is_readonly st.mode ≡ false
      → (verdict host rules tool args user m st).0.kind ≡ confirm
      → (confirmed host (context host tool args user) args m.confirmed_at st.pending).0 ≡ false
      → let ctx = context host tool args user in
        let d = (verdict host rules tool args user m st).0 in
        let out = gated host rules tool delegation handler args user m st in
        (out.0 ≡ policy_hold d.policy_name d.reason m.nonce)
        × (out.1.mode ≡ st.mode)
        × (out.1.pending
            ≡ issue host.render default_ttl_seconds ctx m.nonce m.held_at
                (confirmed host ctx args m.confirmed_at st.pending).1)
  unfolding gated judged
  held_state args user m st read free held unasked =
      rw (gated, read, free, judged, held, unasked) (refl, refl, refl)

  -- Outside of readonly mode, a call whose context is read, that the rules hold and that no nonce confirms is answered
  -- with the nonce of the hold. If that nonce was not pending and is not empty, and `str` leaves it
  -- as it is, the same call with the nonce among its arguments, where the rules still ask for
  -- confirmation, is permitted exactly before 600 seconds have passed since the hold.
  pub hold_then_retry :
      (args : Args) (user : Option Value) (m m' : Moment) (st : State W)
      → host.text_of (str m.nonce) ≡ m.nonce
      → m.nonce ≢ ""
      → IsFresh m.nonce st.pending
      → extraction_overflows host args ≡ false
      → is_readonly st.mode ≡ false
      → (verdict host rules tool args user m st).0.kind ≡ confirm
      → (confirmed host (context host tool args user) args m.confirmed_at st.pending).0 ≡ false
      → (verdict host rules tool
          (with_nonce m.nonce args)
          user
          m'
          (gated host rules tool delegation handler args user m st).1).0.kind
        ≡ confirm
      → ((gated host rules tool delegation handler args user m st).0
          ≡ policy_hold
              (verdict host rules tool args user m st).0.policy_name
              (verdict host rules tool args user m st).0.reason
              m.nonce)
        × (Permitted host rules tool delegation handler
              (with_nonce m.nonce args)
              user
              m'
              (gated host rules tool delegation handler args user m st).1
            ↔ (m'.confirmed_at < m.held_at + 600))
  hold_then_retry args user m m' st reads some_text fresh read free held unasked still =
      let ctx : ActionContext = context host tool args user in
      let again : Args = with_nonce m.nonce args in
      let ctx' : ActionContext = context host tool again user in
      let (answer, mode, pending) = held_state args user m st read free held unasked in
      let after : Store = (confirmed host ctx args m.confirmed_at st.pending).1 in
      let works : (confirmed host ctx' again m'.confirmed_at
            (gated host rules tool delegation handler args user m st).1.pending).0
          ≡ ltb m'.confirmed_at (m.held_at + 600) =
        ap (λ p. p.0)
          (confirmed-with_nonce host ctx' args m.nonce m'.confirmed_at _ some_text reads)
        ∙ ap (λ s. (consume host.render ctx' m.nonce m'.confirmed_at s).0) pending
        ∙ issue-consume host.render default_ttl_seconds ctx ctx' m.nonce m.held_at m'.confirmed_at
            after (confirmed_keeps_IsFresh host ctx args m.nonce m.confirmed_at st.pending fresh)
            (fingerprint-with_nonce host tool m.nonce args user) in
      let in_time = ltb_iff m'.confirmed_at (m.held_at + 600) in
      (
        answer,
        (
          λ (_, _, p). elim p [
            | inl allows ↦ (let clash : allow ≡ confirm = sym allows ∙ still in ground arith)
            | inr (_, ok) ↦ in_time.0 (sym works ∙ ok)
          ],
          λ lt. (
            overflows-with_nonce host m.nonce args ∙ read,
            ap is_readonly mode ∙ free,
            inr (still, works ∙ in_time.1 lt),
          ),
        ),
      )
