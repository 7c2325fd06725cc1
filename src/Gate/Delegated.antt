-- ===== src/Gate/Delegated.antt =====
-- The gate with the executor as its delegation stage (clawmes/tools/registry.py `_try_delegation`
-- on clawmes/delegation/executor.py): a refused delegation stays refused.
pub mod Tests
use clawmes.Base.{
  ℕ, ◌≡◌, refl, ap, ◌∙◌, ◌≢◌, String, Bool, true, false, Option, none, some, List, arith, str_eq,
  eq_iff, if◌then◌else◌,
}
use clawmes.Base.Int.{ℤ}
use clawmes.Policy.Types.{Args, Value, ActionContext, Policy}
use clawmes.Gate.Extract.{Host}
use clawmes.Gate.{
  Execution, Run, Result, delegated, delegation_refused, Moment, State, context, terminal, perform,
  gated,
}
use clawmes.Gate.Denied.{Permitted, gated-Permitted}
use clawmes.Delegation.Service.{Chain}
use clawmes.Delegation.Extractors.{Extracted}
use clawmes.Delegation.Executor.{
  Skip, Error, Outcome, executed, skipped, error, uncaught, Executor, Env, try_delegation_execution,
}

-- The outcome as the gate reads it; `describe` gives the message of an error.
unfoldable pub to_execution : (Error → String) → Outcome → Option Execution
to_execution describe (executed tx_hash chain_id) = some record {
  executed = true;
  tx_hash = some tx_hash;
  chain_id = some chain_id;
  skip_reason = none;
  error = none;
}
to_execution describe (skipped s) = some record {
  executed = false;
  tx_hash = none;
  chain_id = none;
  skip_reason = some "not applicable";
  error = none;
}
to_execution describe (error e) = some record {
  executed = false;
  tx_hash = none;
  chain_id = none;
  skip_reason = none;
  error = some (describe e);
}
to_execution describe uncaught = none

terminal-error :
    (describe : Error → String) (e : Error)
    → describe e ≢ ""
    → terminal (to_execution describe (error e)) ≡ some (delegation_refused (describe e))
unfolding terminal to_execution
terminal-error describe e said =
    let told : str_eq (describe e) "" ≡ false = ground (arith, eq_iff (describe e) "") in
    rw told refl

module _ {ℓ} {W : Type ℓ} (chain : Chain W) (env : Env W)
    (extractors : List (String × (Args → ℤ → Extracted))) (describe : Error → String) where
  -- The delegation stage that `_try_delegation` runs.
  unfoldable pub stage : ActionContext → Args → Executor W → Option Execution × Executor W
  stage ctx args st =
      let (outcome, st') = try_delegation_execution chain env extractors ctx args st in
      (to_execution describe outcome, st')

  module _ (host : Host) (rules : List Policy) (tool : String)
      (handler : Args → Executor W → Run × Executor W) where
    perform-error :
        (ctx : ActionContext) (args : Args) (m : Moment) (st : State (Executor W)) (e : Error)
        → (try_delegation_execution chain env extractors ctx args st.world).0 ≡ error e
        → describe e ≢ ""
        → let out = perform host rules tool stage handler ctx args m st in
          (out.0 ≡ delegation_refused (describe e))
          × (out.1.world ≡ (try_delegation_execution chain env extractors ctx args st.world).1)
    unfolding perform stage
    perform-error ctx args m st e fails said =
        let ends = terminal-error describe e said in rw (perform, fails, ends) (refl, refl)

    -- When a permitted call's delegation is refused by the executor, with a message that is not
    -- empty, the call is answered with that refusal and the world is as the executor left it: the
    -- tool's own handler is not run instead.
    pub gated-fails_closed :
        (args : Args) (user : Option Value) (m : Moment) (st : State (Executor W)) (e : Error)
        → Permitted host rules tool stage handler args user m st
        → (try_delegation_execution chain env extractors
            (context host tool args user)
            args
            st.world).0
          ≡ error e
        → describe e ≢ ""
        → let out = gated host rules tool stage handler args user m st in
          (out.0 ≡ delegation_refused (describe e))
          × (out.1.world
              ≡ (try_delegation_execution chain env extractors
                  (context host tool args user)
                  args
                  st.world).1)
    gated-fails_closed args user m st e allowed fails said =
        let (pending, same, _) =
          gated-Permitted host rules tool stage handler args user m st allowed in
        rw same (perform-error (context host tool args user) args m _ e fails said)
