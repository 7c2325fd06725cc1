-- ===== src/Delegation/Executor/Closed.antt =====
-- What an execution attempt can do to the world.
use clawmes.Base.{
  ℕ, ◌<◌, ◌≡◌, inl, inr, String, false, some, List, length, lookup, Bool-cases, Option-cases,
}
use clawmes.Base.Int.{ℤ}
use clawmes.Policy.Types.{Args, ActionContext}
use clawmes.Policy.Evaluator.FirstMatch.{Listed}
use clawmes.Delegation.Hex.{Text}
use clawmes.Delegation.Types.{DelegationRecord, ExecutionAction}
use clawmes.Delegation.Store.{Store, list_records}
use clawmes.Delegation.Service.{Chain, replied, Redemption, redeem_calldata, redeem}
use clawmes.Delegation.Service.Life.{IsUnredeemed, Redeems, stays, sends, redeem-Redeems}
use clawmes.Delegation.Extractors.{Extracted, action}
use clawmes.Delegation.Executor.{
  Attempts, recent, rate_limited, rate_key, Outcome, executed, skipped, error, uncaught, Executor,
  Env, is_expired, is_plain, chain_of, filled, find_matching, attempt, guarded, with_record,
  with_extractor, try_delegation_execution,
}
use clawmes.Delegation.Executor.Matching.{Serves, First-Listed, find_matching-First}
use clawmes.Delegation.Executor.Limits.{rate_limited_room, Redemption-cases, Extracted-cases}

-- The outcome is no execution.
abbrev pub IsUnexecuted : Outcome → Type 0
IsUnexecuted (executed _ _) = ⊥
IsUnexecuted (skipped _) = Unit
IsUnexecuted (error _) = Unit
IsUnexecuted uncaught = Unit

module _ {ℓ} {W : Type ℓ} (chain : Chain W) (env : Env W) where
  -- What an attempt may have done: nothing to the world and no execution; or it sent one
  -- transaction, with everything that this takes.
  pub data Acts (extractors : List (String × (Args → ℤ → Extracted))) (ctx : ActionContext)
      (args : Args) (st : Executor W) : Outcome → W → Type ℓ where
    quiet : (o : Outcome) → IsUnexecuted o → Acts extractors ctx args st o st.world
    acts :
        (o : Outcome) (r : DelegationRecord) (extractor : Args → ℤ → Extracted)
        (a : ExecutionAction) (data_ reply : Text)
        → env.kill_switch st.world ≡ false
        → lookup ctx.tool_name extractors ≡ some extractor
        → Listed r (list_records chain.python st.store).0
        → Serves ctx r
        → extractor args (chain_of ctx.chain_id r.chain_id) ≡ action a
        → is_expired chain env r st.world ≡ false
        → length (recent (rate_key ctx.user_id ctx.tool_name) (env.monotonic st.world) st.attempts)
          < 3
        → redeem_calldata chain r (filled r a) ≡ some data_
        → chain.eth_call data_ r.chain_id st.world ≡ replied reply
        → Acts extractors ctx args st o (chain.send_agent_tx data_ r.chain_id st.world).1

  -- What one redemption inside an attempt did.
  data Attempted (r : DelegationRecord) (a : ExecutionAction) (w : W) : Outcome → W → Type ℓ where
    idle : (o : Outcome) → IsUnexecuted o → Attempted r a w o w
    spent :
        (o : Outcome) (data_ reply : Text)
        → redeem_calldata chain r a ≡ some data_
        → chain.eth_call data_ r.chain_id w ≡ replied reply
        → Attempted r a w o (chain.send_agent_tx data_ r.chain_id w).1

  Redeems-Attempted :
      {r : DelegationRecord} {a : ExecutionAction} {w : W} {x : Redemption} {w' : W} (o : Outcome)
      → Redeems chain r a w x w'
      → (IsUnredeemed x → IsUnexecuted o)
      → Attempted r a w o w'
  Redeems-Attempted o (stays x un) f = idle o (f un)
  Redeems-Attempted o (sends x data_ reply _ _ encodes _ passes) f =
      spent o data_ reply encodes passes

  attempt-Attempted :
      (r : DelegationRecord) (a : ExecutionAction) (key : String) (st : Executor W)
      → Attempted r a st.world
          (attempt chain env r a key st).0
          (attempt chain env r a key st).1.world
  unfolding attempt
  attempt-Attempted r a key st =
      let red = redeem-Redeems chain r a st.store st.world in
      elim (Redemption-cases (redeem chain r a (st.store, st.world)).0) [
        | inl (t, c, e) ↦ rw (attempt, e) (Redeems-Attempted _ (rw e at red) (λ never. never))
        | inr (inl (f, e)) ↦ rw (attempt, e) (Redeems-Attempted _ red (λ _. tt))
        | inr (inr e) ↦ rw (attempt, e) (Redeems-Attempted _ red (λ _. tt))
      ]

  -- What the guarded redemption did.
  data Guarded (ctx : ActionContext) (r : DelegationRecord) (a : ExecutionAction)
      (attempts : Attempts) (w : W) : Outcome → W → Type ℓ where
    idle : (o : Outcome) → IsUnexecuted o → Guarded ctx r a attempts w o w
    spent :
        (o : Outcome) (data_ reply : Text)
        → is_expired chain env r w ≡ false
        → length (recent (rate_key ctx.user_id ctx.tool_name) (env.monotonic w) attempts) < 3
        → redeem_calldata chain r a ≡ some data_
        → chain.eth_call data_ r.chain_id w ≡ replied reply
        → Guarded ctx r a attempts w o (chain.send_agent_tx data_ r.chain_id w).1

  Attempted-Guarded :
      {r : DelegationRecord} {a : ExecutionAction} {w : W} {o : Outcome} {w' : W}
      (ctx : ActionContext) (attempts : Attempts)
      → is_expired chain env r w ≡ false
      → length (recent (rate_key ctx.user_id ctx.tool_name) (env.monotonic w) attempts) < 3
      → Attempted r a w o w'
      → Guarded ctx r a attempts w o w'
  Attempted-Guarded ctx attempts fresh room (idle o un) = idle o un
  Attempted-Guarded ctx attempts fresh room (spent o data_ reply encodes passes) =
      spent o data_ reply fresh room encodes passes

  guarded-Guarded :
      (ctx : ActionContext) (r : DelegationRecord) (a : ExecutionAction) (st : Executor W)
      → Guarded ctx r a st.attempts st.world
          (guarded chain env ctx r a st).0
          (guarded chain env ctx r a st).1.world
  unfolding guarded
  guarded-Guarded ctx r a st =
      let key : String = rate_key ctx.user_id ctx.tool_name in
      let now : ℕ = env.monotonic st.world in
      elim (Bool-cases (is_expired chain env r st.world)) [
        | inl stale ↦ rw (guarded, stale) (idle _ tt)
        | inr fresh ↦
            elim (Bool-cases (
              is_plain (
                env.get_code r.delegation.delegator (chain_of ctx.chain_id r.chain_id) st.world))) [
                  | inl plain ↦ rw (guarded, fresh, plain) (idle _ tt)
                  | inr smart ↦ elim (Bool-cases (rate_limited key now st.attempts).0) [
                    | inl limited ↦ rw (guarded, fresh, smart, limited) (idle _ tt)
                    | inr admitted ↦
                        rw (guarded, fresh, smart, admitted)
                          (Attempted-Guarded ctx st.attempts fresh
                            (rate_limited_room key now st.attempts admitted)
                            (attempt-Attempted r a key _))
                  ]
                ]
      ]

  Guarded-Acts :
      {extractors : List (String × (Args → ℤ → Extracted))} {extractor : Args → ℤ → Extracted}
      {ctx : ActionContext} {args : Args} {r : DelegationRecord} {st : Executor W} {o : Outcome}
      {w' : W} (a : ExecutionAction)
      → env.kill_switch st.world ≡ false
      → lookup ctx.tool_name extractors ≡ some extractor
      → Listed r (list_records chain.python st.store).0
      → Serves ctx r
      → extractor args (chain_of ctx.chain_id r.chain_id) ≡ action a
      → Guarded ctx r (filled r a) st.attempts st.world o w'
      → Acts extractors ctx args st o w'
  Guarded-Acts a on known is_listed serves extracts (idle o un) = quiet o un
  Guarded-Acts {extractor} {r} a on known is_listed serves extracts
        (spent o data_ reply fresh room encodes passes) =
      acts o r extractor a data_ reply on known is_listed serves extracts fresh room encodes passes

  with_record-Acts :
      (extractors : List (String × (Args → ℤ → Extracted))) (extractor : Args → ℤ → Extracted)
      (ctx : ActionContext) (args : Args) (r : DelegationRecord) (st : Executor W) (store : Store)
      → env.kill_switch st.world ≡ false
      → lookup ctx.tool_name extractors ≡ some extractor
      → Listed r (list_records chain.python st.store).0
      → Serves ctx r
      → let out =
          with_record chain env extractor ctx args r
            record { attempts = st.attempts; store = store; world = st.world } in
        Acts extractors ctx args st out.0 out.1.world
  unfolding with_record
  with_record-Acts extractors extractor ctx args r st store on known is_listed serves =
      elim (Extracted-cases (extractor args (chain_of ctx.chain_id r.chain_id))) [
        | inl e ↦ rw (with_record, e) (quiet _ tt)
        | inr (inl e) ↦ rw (with_record, e) (quiet _ tt)
        | inr (inr (a, e)) ↦
            rw (with_record, e)
              (Guarded-Acts a on known is_listed serves e (
                guarded-Guarded ctx r (filled r a)
                  record { attempts = st.attempts; store = store; world = st.world }))
      ]

  -- An execution attempt either leaves the world as it was and executes nothing, or it sent one
  -- transaction: the kill switch is off, the tool has an extractor, a listed record serves the
  -- action and has not expired, fewer than three attempts are on record within the window, and the
  -- calldata that is sent is that of the action which the extractor made, for this record, after
  -- its simulation went through.
  pub try_delegation_execution-Acts :
      (extractors : List (String × (Args → ℤ → Extracted))) (ctx : ActionContext) (args : Args)
      (st : Executor W)
      → Acts extractors ctx args st
          (try_delegation_execution chain env extractors ctx args st).0
          (try_delegation_execution chain env extractors ctx args st).1.world
  unfolding try_delegation_execution with_extractor
  try_delegation_execution-Acts extractors ctx args st =
      elim (Bool-cases (env.kill_switch st.world)) [
        | inl off ↦ rw (try_delegation_execution, off) (quiet _ tt)
        | inr on ↦ elim (Option-cases (lookup ctx.tool_name extractors)) [
          | inl e ↦ rw (try_delegation_execution, on, e) (quiet _ tt)
          | inr (extractor, known) ↦
              elim (Option-cases (find_matching ctx (list_records chain.python st.store).0)) [
                | inl e ↦ rw (try_delegation_execution, on, known, with_extractor, e) (quiet _ tt)
                | inr (r, e) ↦
                    let (is_listed, serves) =
                      First-Listed r (
                        rw e at (find_matching-First ctx (list_records chain.python st.store).0)) in
                    rw (try_delegation_execution, on, known, with_extractor, e)
                      (with_record-Acts extractors extractor ctx args r st
                        (list_records chain.python st.store).1 on known is_listed serves)
              ]
        ]
      ]
