-- ===== src/Gate/Counting.antt =====
-- Which calls count against rate gates, and that a delegation outcome keeps the handler out.
use clawmes.Base.{
  ℕ, ◌≡◌, refl, ap, ◌⊎◌, inl, inr, String, Bool, true, false, Option, none, some, List, Bool-cases,
  Option-cases, if◌then◌else◌, str_eq,
}
use clawmes.Policy.Types.{Value, Args, ActionContext, Policy, Decision}
use clawmes.Policy.Usage.{Buckets}
use clawmes.Policy.Evaluator.{record_invocation}
use clawmes.Gate.Extract.{Host, extraction_overflows}
use clawmes.Gate.{
  is_readonly, Execution, Run, returned, raised_param_error, raised, Result, Moment, State, context,
  terminal, run_handler, perform, confirmed, judged, gated,
}
use clawmes.Gate.Denied.{verdict, Kind-cases}

-- The results after which the invocation counts against rate gates.
abbrev pub counted : Result → Bool
counted (Result.delegated _ _) = true
counted (Result.delegation_refused _) = true
counted (Result.handled _) = true
counted _ = false

-- The counter after a call that found it at `usage`.
abbrev usage_after : Result → ActionContext → ℕ → Buckets → Buckets
usage_after r ctx now usage = if counted r then record_invocation ctx now usage else usage

terminal-cases :
    (o : Option Execution)
    → (terminal o ≡ none) ⊎ ((r : Result) × (terminal o ≡ some r) × (counted r ≡ true))
unfolding terminal
terminal-cases none = inl refl
terminal-cases (some e) = elim (Bool-cases e.executed) [
  | inl done ↦ rw done (inr (_, refl, refl))
  | inr skipped ↦ elim (Option-cases e.error) [
    | inl silent ↦ rw (skipped, silent) (inl refl)
    | inr (message, told) ↦ elim (Bool-cases (str_eq message "")) [
      | inl blank ↦ rw (skipped, told, blank) (inl refl)
      | inr said ↦ rw (skipped, told, said) (inr (_, refl, refl))
    ]
  ]
]

pub Run-cases :
    (r : Run)
    → ((text : String) × (r ≡ returned text))
      ⊎ (((message : String) × (r ≡ raised_param_error message))
          ⊎ ((message : String) × (r ≡ raised message)))
Run-cases (returned text) = inl (text, refl)
Run-cases (raised_param_error message) = inr (inl (message, refl))
Run-cases (raised message) = inr (inr (message, refl))

module _ {ℓ} {W : Type ℓ} (host : Host) (rules : List Policy) (tool : String)
    (delegation : ActionContext → Args → W → Option Execution × W)
    (handler : Args → W → Run × W) where
  run_handler_usage :
      (ctx : ActionContext) (args : Args) (m : Moment) (st : State W)
      → let out = run_handler host rules tool delegation handler ctx args m st in
        out.1.usage ≡ usage_after out.0 ctx m.recorded_at st.usage
  unfolding run_handler
  run_handler_usage ctx args m st = elim (Run-cases (handler args st.world).0) [
    | inl (text, e) ↦ rw (run_handler, e) refl
    | inr (inl (message, e)) ↦ rw (run_handler, e) refl
    | inr (inr (message, e)) ↦ rw (run_handler, e) refl
  ]

  perform_usage :
      (ctx : ActionContext) (args : Args) (m : Moment) (st : State W)
      → let out = perform host rules tool delegation handler ctx args m st in
        out.1.usage ≡ usage_after out.0 ctx m.recorded_at st.usage
  unfolding perform
  perform_usage ctx args m st = elim (terminal-cases (delegation ctx args st.world).0) [
    | inl goes_on ↦ rw (perform, goes_on) (run_handler_usage ctx args m _)
    | inr (r, ends, counts) ↦ rw (perform, ends, counts) refl
  ]

  judged_usage :
      (ctx : ActionContext) (args : Args) (m : Moment) (st : State W) (d : Decision)
      → let out = judged host rules tool delegation handler ctx args m st d in
        out.1.usage ≡ usage_after out.0 ctx m.recorded_at st.usage
  unfolding judged
  judged_usage ctx args m st d = elim (Kind-cases d.kind) [
    | inl allows ↦ rw allows (perform_usage ctx args m st)
    | inr (inl blocks) ↦ rw blocks refl
    | inr (inr confirms) ↦ elim (Bool-cases (confirmed host ctx args m.confirmed_at st.pending).0) [
      | inl ok ↦ rw (confirms, ok) (perform_usage ctx args m _)
      | inr refused ↦ rw (confirms, refused) refl
    ]
  ]

  -- A call whose context is read and that passes the readonly check records the invocation exactly when its result is a
  -- handler's, a delegated execution or a refused delegation; otherwise the counter stays as the
  -- evaluation left it.
  pub gated_usage :
      (args : Args) (user : Option Value) (m : Moment) (st : State W)
      → extraction_overflows host args ≡ false
      → is_readonly st.mode ≡ false
      → let out = gated host rules tool delegation handler args user m st in
        out.1.usage ≡ (
          if counted out.0
          then record_invocation
              (context host tool args user)
              m.recorded_at
              (verdict host rules tool args user m st).1
          else (verdict host rules tool args user m st).1)
  unfolding gated
  gated_usage args user m st reads free =
      rw (gated, reads, free)
        (judged_usage (context host tool args user) args m
          record {
            mode = st.mode;
            usage = (verdict host rules tool args user m st).1;
            pending = st.pending;
            world = st.world;
          }
          (verdict host rules tool args user m st).0)

  perform_ignores_handler :
      (other_handler : Args → W → Run × W) (ctx : ActionContext) (args : Args) (m : Moment)
      (st : State W) (r : Result)
      → terminal (delegation ctx args st.world).0 ≡ some r
      → perform host rules tool delegation handler ctx args m st
        ≡ perform host rules tool delegation other_handler ctx args m st
  unfolding perform
  perform_ignores_handler other_handler ctx args m st r ends = rw (perform, ends) refl

  judged_ignores_handler :
      (other_handler : Args → W → Run × W) (ctx : ActionContext) (args : Args) (m : Moment)
      (st : State W) (d : Decision) (r : Result)
      → terminal (delegation ctx args st.world).0 ≡ some r
      → judged host rules tool delegation handler ctx args m st d
        ≡ judged host rules tool delegation other_handler ctx args m st d
  unfolding judged
  judged_ignores_handler other_handler ctx args m st d r ends = elim (Kind-cases d.kind) [
    | inl allows ↦ rw allows (perform_ignores_handler other_handler ctx args m st r ends)
    | inr (inl blocks) ↦ rw blocks refl
    | inr (inr confirms) ↦ elim (Bool-cases (confirmed host ctx args m.confirmed_at st.pending).0) [
      | inl ok ↦ rw (confirms, ok) (perform_ignores_handler other_handler ctx args m _ r ends)
      | inr refused ↦ rw (confirms, refused) refl
    ]
  ]

  -- When the delegation stage has executed or refused the action, what the call gives and leaves
  -- does not depend on the handler: it is not run.
  pub gated_ignores_handler :
      (other_handler : Args → W → Run × W) (args : Args) (user : Option Value) (m : Moment)
      (st : State W) (r : Result)
      → terminal (delegation (context host tool args user) args st.world).0 ≡ some r
      → gated host rules tool delegation handler args user m st
        ≡ gated host rules tool delegation other_handler args user m st
  unfolding gated
  gated_ignores_handler other_handler args user m st r ends =
      ap
        (λ out.
          if extraction_overflows host args
          then (Result.uncaught_overflow, st)
          else (if is_readonly st.mode then (Result.readonly_mode, st) else out))
        (judged_ignores_handler other_handler (context host tool args user) args m _
          (verdict host rules tool args user m st).0 r ends)
