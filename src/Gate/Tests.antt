-- ===== src/Gate/Tests.antt =====
-- The gate on concrete calls.
use clawmes.Base.{
  ℕ, ◌+◌, ◌<◌, ◌≡◌, refl, ◌≢◌, ◌⊎◌, ◌↔◌, String, true, false, Option, none, some, [], ◌∷◌, arith,
  eq_iff, if◌then◌else◌,
}
use clawmes.Policy.Types.{
  Args, Value, null, int, str, other, ActionContext, Policy, Kind, allow, confirm, matches_filters,
  has_quantitative_gates,
}
use clawmes.Policy.Evaluator.{decide, applies, evaluate, record_invocation}
use clawmes.Gate.Extract.{Host, extraction_overflows, get, int_or_none}
use clawmes.Gate.{
  Mode, normal, readonly, is_readonly, Execution, Run, returned, policy_hold, Moment, State,
  context, confirmed, perform, judged, run_handler, terminal, Result, gated,
}
use clawmes.Gate.Denied.{Denial, verdict, Permitted, gated_denied}
use clawmes.Gate.Counting.{counted, gated_usage}
use clawmes.Gate.Replay.{confirmed_call-no_replay}
use clawmes.Policy.Confirm.{consume, gc, take_match, fingerprint, without_nonce}
use clawmes.Policy.Confirm.SingleUse.{done}
use clawmes.Gate.Retry.{with_nonce, hold_then_retry}

abbrev text_of : Value → String
text_of null = "None"
text_of (int _) = "1"
text_of (str s) = s
text_of (other _ s) = s

abbrev pub host : Host
host = record {
  int_of = λ v. none;
  overflows = λ v. false;
  text_of = text_of;
  base_units = λ v d. none;
  peek = λ token chain. none;
  render = λ tool args. tool;
}

abbrev rule : Kind → Policy
rule k = record {
  name = "rule";
  decision = k;
  applies_to_tools = [];
  chain_ids = [];
  max_amount_wei = none;
  max_per_hour = none;
  description = "every call";
}

-- The world counts what was sent.
abbrev redeems : ActionContext → Args → ℕ → Option Execution × ℕ
redeems ctx args w = (
  some record {
    executed = true;
    tx_hash = some "0x01";
    chain_id = some 1;
    skip_reason = none;
    error = none;
  },
  w + 1,
)

abbrev no_delegation : ActionContext → Args → ℕ → Option Execution × ℕ
no_delegation ctx args w = (none, w)

abbrev send : Args → ℕ → Run × ℕ
send args w = (returned "sent", w + 1)

abbrev pub moment : Moment
moment = record { evaluated_at = 1; confirmed_at = 2; held_at = 3; recorded_at = 4; nonce = "n1" }

abbrev later : Moment
later = record {
  evaluated_at = 11;
  confirmed_at = 12;
  held_at = 13;
  recorded_at = 14;
  nonce = "n2";
}

abbrev in_mode : Mode → State ℕ
in_mode mode = record { mode = mode; usage = []; pending = []; world = 0 }

allow-confirm : allow ≢ confirm
allow-confirm e = ground arith

readonly_is_not-Permitted :
    ¬ Permitted host (rule allow ∷ []) "transfer" redeems send [] none moment (in_mode readonly)
unfolding is_readonly
readonly_is_not-Permitted (_, e, _) = ground arith

gated_denied_example :
    let out =
      gated host (rule allow ∷ []) "transfer" redeems send [] none moment (in_mode readonly) in
    Denial out.0
    × (out.1.world ≡ 0)
    × (out.1.mode ≡ readonly)
    × ((out.1.usage ≡ [])
        ⊎ (out.1.usage
            ≡ (verdict host (rule allow ∷ []) "transfer" [] none moment (in_mode readonly)).1))
gated_denied_example =
    gated_denied host (rule allow ∷ []) "transfer" redeems send [] none moment (in_mode readonly)
      readonly_is_not-Permitted

gated_usage_example :
    let out = gated host [] "transfer" redeems send [] none moment (in_mode normal) in
    out.1.usage ≡ (
      if counted out.0
      then record_invocation
          (context host "transfer" [] none)
          4
          (verdict host [] "transfer" [] none moment (in_mode normal)).1
      else (verdict host [] "transfer" [] none moment (in_mode normal)).1)
unfolding is_readonly extraction_overflows get int_or_none
gated_usage_example =
    gated_usage host [] "transfer" redeems send [] none moment (in_mode normal) refl refl

n1_given : ◌≢◌ {A = String} "n1" ""
n1_given e = ground (arith, eq_iff "n1" "")

hold_then_retry_example :
    let st = in_mode normal in
    let out = gated host (rule confirm ∷ []) "transfer" no_delegation send [] none moment st in
    let d = (verdict host (rule confirm ∷ []) "transfer" [] none moment st).0 in
    (out.0 ≡ policy_hold d.policy_name d.reason "n1")
    × (Permitted host
          (rule confirm ∷ [])
          "transfer"
          no_delegation
          send
          (with_nonce "n1" [])
          none
          later
          out.1
        ↔ (12 < 3 + 600))
unfolding is_readonly evaluate applies matches_filters has_quantitative_gates decide confirmed
    extraction_overflows get int_or_none
hold_then_retry_example =
    hold_then_retry host (rule confirm ∷ []) "transfer" no_delegation send [] none moment later
      (in_mode normal) refl n1_given tt refl refl refl refl refl

abbrev confirmable : State ℕ
confirmable = record {
  mode = normal;
  usage = [];
  pending = record { nonce = "n1"; fingerprint = "transfer"; expires_at = 600 } ∷ [];
  world = 0;
}

abbrev first_call : Result × State ℕ
first_call =
    gated host (rule confirm ∷ []) "transfer" no_delegation send (with_nonce "n1" []) none moment
      confirmable

confirmed_call-no_replay_example :
    let out =
      gated host
        (rule confirm ∷ [])
        "transfer"
        no_delegation
        send
        (with_nonce "n1" [])
        none
        later
        first_call.1 in
    Denial out.0 × (out.1.world ≡ first_call.1.world) × (out.1.mode ≡ first_call.1.mode)
unfolding gated judged perform run_handler terminal is_readonly extraction_overflows get int_or_none
    evaluate applies matches_filters has_quantitative_gates decide confirmed consume gc take_match
    fingerprint without_nonce context
confirmed_call-no_replay_example =
    confirmed_call-no_replay host (rule confirm ∷ []) "transfer" no_delegation send "n1"
      (with_nonce "n1" []) (with_nonce "n1" []) none none moment later confirmable first_call.1
      (tt, tt) refl refl refl (str "n1", refl, refl) refl (done _) refl (str "n1", refl, refl)
