-- ===== src/Gate/Delegated/Tests.antt =====
-- A call whose delegation has expired.
use clawmes.Base.{ℕ, ◌≡◌, refl, ◌≢◌, inl, String, [], ◌∷◌, arith, eq_iff, none, some}
use clawmes.Policy.Types.{Args}
use clawmes.Policy.Evaluator.{evaluate}
use clawmes.Gate.{
  Run, returned, delegation_refused, normal, is_readonly, State, context, user_of, gated,
}
use clawmes.Gate.Tests.{host, moment}
use clawmes.Gate.Extract.{
  extract_chain_id, extract_value_wei, extraction_overflows, get, int_or_none, amount_value,
}
use clawmes.Gate.Delegated.{stage, gated-fails_closed}
use clawmes.Delegation.Types.{DelegationRecord, signed, is_redeemable}
use clawmes.Delegation.Store.{list_records, read_all, record_of}
use clawmes.Delegation.Dicts.{
  record_from_dict, record_to_dict, delegation_from_dict, delegation_to_dict, caveats_from_dicts,
  salt_from,
}
use clawmes.Delegation.Executor.{
  Error, has_expired, Executor, Env, find_matching, is_match, scope_covers, filled, is_expired,
  guarded, with_record, with_extractor, try_delegation_execution,
}
use clawmes.Delegation.Executor.Tests.{chain, env, record_with, pays, file_of}

abbrev after_expiry : Env ℕ
after_expiry = record env { timestamp = λ s. some 5 }

abbrev old : DelegationRecord
old = record (record_with signed) { expires_at = "2020-01-01" }

abbrev old_store : Executor ℕ
old_store = record {
  attempts = [];
  store = record { disk = file_of old ∷ []; cache = [] };
  world = 0;
}

abbrev describe : Error → String
describe e = "delegation has expired"

abbrev send : Args → Executor ℕ → Run × Executor ℕ
send args w = (returned "sent", w)

abbrev before_call : State (Executor ℕ)
before_call = record { mode = normal; usage = []; pending = []; world = old_store }

described : ◌≢◌ {A = String} "delegation has expired" ""
described e = ground (arith, eq_iff "delegation has expired" "")

gated-fails_closed_example :
    let out =
      gated host [] "transfer"
        (stage chain after_expiry pays describe)
        send
        []
        none
        moment
        before_call in
    (out.0 ≡ delegation_refused "delegation has expired")
    × (out.1.world
        ≡ (try_delegation_execution chain after_expiry pays
            (context host "transfer" [] none)
            []
            old_store).1)
unfolding extraction_overflows is_readonly evaluate context extract_chain_id extract_value_wei get
    int_or_none amount_value user_of try_delegation_execution with_extractor list_records read_all
    record_of record_from_dict record_to_dict delegation_from_dict delegation_to_dict
    caveats_from_dicts salt_from find_matching is_match is_redeemable scope_covers with_record
    filled guarded is_expired
gated-fails_closed_example =
    gated-fails_closed chain after_expiry pays describe host [] "transfer" send [] none moment
      before_call has_expired (refl, refl, inl refl) refl described
