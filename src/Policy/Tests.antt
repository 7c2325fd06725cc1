-- ===== src/Policy/Tests.antt =====
-- The policy stack on concrete actions.
use clawmes.Base.{◌≡◌, refl, String, false, some, [], ◌∷◌, arith}
use clawmes.Base.Int.{pos}
use clawmes.Policy.Types.{
  Args, str, ActionContext, confirm, default_policies, matches_filters, has_quantitative_gates,
}
use clawmes.Policy.Usage.{record_use, count}
use clawmes.Policy.Usage.Window.{start, record_step, count_in, count-eq-count_in}
use clawmes.Policy.Evaluator.{amount_triggers, gate_triggers, decide, applies, evaluate}
use clawmes.Policy.Evaluator.FirstMatch.{Decides, uses, evaluate-Decides}
use clawmes.Policy.Confirm.{Store, without_nonce, fingerprint, gc, take_match, consume}
use clawmes.Policy.Confirm.SingleUse.{done, consume-single_use}

abbrev large_transfer : ActionContext
large_transfer = record {
  tool_name = "transfer";
  args = ("to", str "0x01") ∷ [];
  user_id = "ann";
  chain_id = some (pos 8453);
  value_wei = some (pos 60_000_000_000_000_000);
}

abbrev by_tool : String → Args → String
by_tool tool args = tool

abbrev one_hold : Store
one_hold = record { nonce = "n1"; fingerprint = "transfer"; expires_at = 600 } ∷ []

large_transfer_is_held : (evaluate large_transfer default_policies 5 []).0.kind ≡ confirm
unfolding evaluate applies matches_filters has_quantitative_gates gate_triggers amount_triggers
    decide
large_transfer_is_held = refl

evaluate-Decides_example :
    Decides large_transfer
      (uses large_transfer 5 [])
      default_policies
      (evaluate large_transfer default_policies 5 []).0
evaluate-Decides_example = evaluate-Decides large_transfer default_policies 5 []

count-eq-count_in_example :
    (count 3600 "ann" "transfer" 10 (record_use 3600 "ann" "transfer" 5 [])).0
    ≡ count_in 3600 "ann" "transfer" 10 (record { user = "ann"; tool = "transfer"; time = 5 } ∷ [])
count-eq-count_in_example =
    count-eq-count_in 3600 "ann" "transfer" 10 (record_step "ann" "transfer" 5 start (omega arith))
      (omega arith)

consume-single_use_example :
    (consume by_tool large_transfer "n1" 20 (consume by_tool large_transfer "n1" 10 one_hold).1).0
    ≡ false
unfolding consume gc take_match fingerprint without_nonce
consume-single_use_example =
    consume-single_use by_tool large_transfer large_transfer "n1" 10 20 one_hold (tt, tt) refl
      (done _)
