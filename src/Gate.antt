-- ===== src/Gate.antt =====
-- clawmes/tools/registry.py and clawmes/services/mode_service.py: the pipeline that `write_tool`
-- puts around a tool's handler. The tool's handler and the delegation stage act on a `World`.
pub mod Extract
pub mod Denied
pub mod Counting
pub mod Retry
pub mod Replay
pub mod Delegated
pub mod Tests
use clawmes.Base.{
  ℕ, String, Bool, true, false, not, Option, none, some, List, [], ◌∷◌, if◌then◌else◌, lookup,
  str_eq,
}
use clawmes.Base.Int.{ℤ}
use clawmes.Policy.Types.{
  Value, Args, ActionContext, Policy, Decision, Reason, Kind, allow, block, confirm,
}
use clawmes.Policy.Usage.{Buckets}
use clawmes.Policy.Evaluator.{evaluate, record_invocation}
use clawmes.Policy.Confirm.{Store, default_ttl_seconds, nonce_key, issue, consume}
use clawmes.Gate.Extract.{Host, is_true, extract_chain_id, extract_value_wei, extraction_overflows}

pub data Mode : Type 0 where
  normal readonly danger : Mode

unfoldable pub is_readonly : Mode → Bool
is_readonly readonly = true
is_readonly _ = false

-- `set_mode`: an unknown text is a ValueError.
unfoldable pub set_mode : String → Option Mode
set_mode name =
    if str_eq name "normal"
    then some normal
    else (if str_eq name "readonly"
        then some readonly
        else (if str_eq name "danger" then some danger else none))

-- `DelegationExecutionResult`
pub record Execution : Type 0 where
  pub executed : Bool
  pub tx_hash : Option String
  pub chain_id : Option ℕ
  pub skip_reason : Option String
  pub error : Option String

-- How a handler ends.
pub data Run : Type 0 where
  returned : String → Run
  raised_param_error : String → Run
  raised : String → Run

-- The tool's result, with the fields that its JSON carries; `uncaught_overflow` is the OverflowError
-- that escapes from the extraction of the context.
pub data Result : Type 0 where
  readonly_mode : Result
  uncaught_overflow : Result
  policy_block : String → Reason → Result
  policy_hold : String → Reason → (nonce : String) → Result
  delegated : Option String → Option ℕ → Result
  delegation_refused : String → Result
  handled : String → Result
  param_error : String → Result
  tool_error : String → Result

-- Clock readings of one call, and the nonce that a hold would issue.
pub record Moment : Type 0 where
  pub evaluated_at : ℕ
  pub confirmed_at : ℕ
  pub held_at : ℕ
  pub recorded_at : ℕ
  pub nonce : String

pub record State {ℓ} (W : Type ℓ) : Type ℓ where
  pub mode : Mode
  pub usage : Buckets
  pub pending : Store
  pub world : W

-- `_try_delegation` on the outcome of the delegation stack, `none` if that raised.
unfoldable pub terminal : Option Execution → Option Result
terminal none = none
terminal (some e) = if e.executed then some (delegated e.tx_hash e.chain_id) else (elim e.error [
  | none ↦ none
  | some message ↦ if str_eq message "" then none else some (delegation_refused message)
])

-- `str(kwargs.get("user_id") or "default")`
unfoldable pub user_of : (Value → String) → Option Value → String
user_of text_of none = "default"
user_of text_of (some v) = if is_true v then text_of v else "default"

unfoldable pub context : Host → String → Args → Option Value → ActionContext
context host tool args user = record {
  tool_name = tool;
  args = args;
  user_id = user_of host.text_of user;
  chain_id = extract_chain_id host args;
  value_wei = extract_value_wei host args;
}

-- `supplied and _confirm_store.consume(action_ctx, str(supplied))`
unfoldable pub confirmed : Host → ActionContext → Args → ℕ → Store → Bool × Store
confirmed host ctx args now pending = elim (lookup nonce_key args) [
  | none ↦ (false, pending)
  | some v ↦
      let asked = consume host.render ctx (host.text_of v) now pending in
      if is_true v then asked else (false, pending)
]

module _ {ℓ} {W : Type ℓ} (host : Host) (rules : List Policy) (tool : String)
    (delegation : ActionContext → Args → W → Option Execution × W)
    (handler : Args → W → Run × W) where
  -- Stages 4 and 5.
  unfoldable pub run_handler : ActionContext → Args → Moment → State W → Result × State W
  run_handler ctx args m st =
      let (run, w) = handler args st.world in
      let failed : State W = record {
        mode = st.mode;
        usage = st.usage;
        pending = st.pending;
        world = w;
      } in
      elim run [
        | returned text ↦ (
          handled text,
          record {
            mode = st.mode;
            usage = record_invocation ctx m.recorded_at st.usage;
            pending = st.pending;
            world = w;
          },
        )
        | raised_param_error message ↦ (param_error message, failed)
        | raised message ↦ (tool_error message, failed)
      ]

  -- Stages 3 to 5.
  unfoldable pub perform : ActionContext → Args → Moment → State W → Result × State W
  perform ctx args m st =
      let (outcome, w) = delegation ctx args st.world in
      elim (terminal outcome) [
        | some result ↦ (
          result,
          record {
            mode = st.mode;
            usage = record_invocation ctx m.recorded_at st.usage;
            pending = st.pending;
            world = w;
          },
        )
        | none ↦
            run_handler ctx args m
              record { mode = st.mode; usage = st.usage; pending = st.pending; world = w }
      ]

  -- Stage 2 on a decision, and what follows.
  unfoldable pub judged : ActionContext → Args → Moment → State W → Decision → Result × State W
  judged ctx args m st d = elim d.kind [
    | allow ↦ perform ctx args m st
    | block ↦ (policy_block d.policy_name d.reason, st)
    | confirm ↦
        let (ok, pending) = confirmed host ctx args m.confirmed_at st.pending in
        let go =
          perform ctx args m
            record { mode = st.mode; usage = st.usage; pending = pending; world = st.world } in
        if ok then go else (
          policy_hold d.policy_name d.reason m.nonce,
          record {
            mode = st.mode;
            usage = st.usage;
            pending = issue host.render default_ttl_seconds ctx m.nonce m.held_at pending;
            world = st.world;
          },
        )
  ]

  unfoldable pub gated : Args → Option Value → Moment → State W → Result × State W
  gated args user m st =
      let ctx = context host tool args user in
      let (d, usage) = evaluate ctx rules m.evaluated_at st.usage in
      let next : State W = record {
        mode = st.mode;
        usage = usage;
        pending = st.pending;
        world = st.world;
      } in
      let out = judged ctx args m next d in
      if extraction_overflows host args
      then (uncaught_overflow, st)
      else (if is_readonly st.mode then (readonly_mode, st) else out)
