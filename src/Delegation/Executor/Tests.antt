-- ===== src/Delegation/Executor/Tests.antt =====
-- The store, the service and the executor on one record.
use clawmes.Base.{
  ℕ, ◌+◌, ◌≡◌, refl, true, false, String, none, some, List, [], ◌∷◌, if◌then◌else◌, ltb, All, ◌==◌,
  length, Option,
}
use clawmes.Base.Int.{ℤ, pos, negsuc}
use clawmes.Policy.Types.{Args, ActionContext}
use clawmes.Delegation.Hex.{Text, codes}
use clawmes.Delegation.Types.{
  DelegationRecord, Status, signed, expired, revoked, eip7710, zero_address, root_authority,
  ExecutionAction,
}
use clawmes.Delegation.Store.{Store, stamped, save, load, file_name, safe_id, Content, dict}
use clawmes.Delegation.Dicts.{Python, record_to_dict, record_from_dict}
use clawmes.Delegation.Dicts.RoundTrip.{ReadsHex, record_from_dict-record_to_dict}
use clawmes.Delegation.Store.Files.{same_file, restarted, load-save, is_safe, safe_id-IsSafe}
use clawmes.Delegation.Service.{
  Chain, replied, sent, not_redeemable, refused, redeem, revoke, refresh_status,
}
use clawmes.Delegation.Service.Storing.{store_delegation, store_delegation-load}
use clawmes.Delegation.Service.Life.{Redeems, redeem-Redeems, revoke-is_final}
use clawmes.Delegation.Extractors.{Extracted, action}
use clawmes.Delegation.Executor.{Executor, Env, find_matching, try_delegation_execution}
use clawmes.Delegation.Executor.Matching.{First, find_matching-First}
use clawmes.Delegation.Executor.Limits.{IsBounded, try_delegation_execution-IsBounded}
use clawmes.Delegation.Executor.Closed.{Acts, try_delegation_execution-Acts}

-- A sign and the number stand for the hexadecimal digits.
abbrev hex_of : ℤ → Text
hex_of (pos n) = 43 ∷ n ∷ []
hex_of (negsuc n) = 45 ∷ n ∷ []

abbrev int16 : Text → Option ℤ
int16 (sign ∷ n ∷ []) = if sign == 45 then some (negsuc n) else some (pos n)
int16 _ = none

abbrev pub python : Python
python = record { alnum = λ c. ltb 47 c; hex_of = hex_of; int16 = int16 }

python-ReadsHex : ReadsHex python
python-ReadsHex (pos n) = refl
python-ReadsHex (negsuc n) = refl

-- The world counts the transactions that were sent.
abbrev pub chain : Chain ℕ
chain = record {
  codec = record { abi_encode = λ values. some []; selector = λ signature. codes "0x" };
  python = python;
  has_endpoint = λ id w. true;
  eth_call = λ data_ id w. replied (codes "0x");
  agent_key_error = λ w. none;
  send_agent_tx = λ data_ id w. (sent "0x01", w + 1);
  wallet = λ w. false;
  send_transaction = λ data_ id w. (sent "0x02", w + 1);
  now_text = λ w. "2026-01-01";
  hex_value = λ s. some 0;
}

abbrev pub env : Env ℕ
env = record {
  kill_switch = λ w. false;
  monotonic = λ w. 100;
  clock = λ w. 1000;
  timestamp = λ s. none;
  get_code = λ a id w. some (codes "0x6001");
}

abbrev pub record_with : Status → DelegationRecord
record_with status = record {
  id = "d1";
  chain_id = 1;
  delegation = record {
    delegate = zero_address;
    delegator = zero_address;
    authority = root_authority;
    caveats = [];
    salt = pos 1;
    signature = codes "0x";
  };
  status = status;
  hash = codes "0xab";
  policy_name = "";
  tools = "transfer" ∷ [];
  permissions_context = [];
  expires_at = "";
  unmapped = [];
  created_at = "";
  last_checked_at = "";
  kind = eip7710;
}

abbrev pay : ExecutionAction
pay = record { target = zero_address; value = pos 1; call_data = codes "0x" }

abbrev transfer : ActionContext
transfer = record {
  tool_name = "transfer";
  args = [];
  user_id = "ann";
  chain_id = some (pos 1);
  value_wei = some (pos 1);
}

abbrev pub pays : List (String × (Args → ℤ → Extracted))
pays = ("transfer", λ args c. action pay) ∷ []

abbrev pub file_of : DelegationRecord → Text × Content
file_of r = (file_name python.alnum r.id, dict (record_to_dict python r))

abbrev one_record : Store
one_record = record { disk = file_of (record_with signed) ∷ []; cache = [] }

abbrev ready : Executor ℕ
ready = record { attempts = []; store = one_record; world = 0 }

find_matching-First_example :
    First transfer
      (record_with expired ∷ record_with signed ∷ [])
      (find_matching transfer (record_with expired ∷ record_with signed ∷ []))
find_matching-First_example =
    find_matching-First transfer (record_with expired ∷ record_with signed ∷ [])

try_delegation_execution-IsBounded_example :
    IsBounded (try_delegation_execution chain env pays transfer [] ready).1.attempts
try_delegation_execution-IsBounded_example =
    try_delegation_execution-IsBounded chain env pays transfer [] ready tt

try_delegation_execution-Acts_example :
    Acts chain env pays transfer [] ready
      (try_delegation_execution chain env pays transfer [] ready).0
      (try_delegation_execution chain env pays transfer [] ready).1.world
try_delegation_execution-Acts_example =
    try_delegation_execution-Acts chain env pays transfer [] ready

redeem-Redeems_example :
    Redeems chain
      (record_with signed)
      pay
      0
      (redeem chain (record_with signed) pay (one_record, 0)).0
      (redeem chain (record_with signed) pay (one_record, 0)).1.1
redeem-Redeems_example = redeem-Redeems chain (record_with signed) pay one_record 0

revoke-is_final_example :
    let r' = (revoke chain (record_with signed) (one_record, 0)).1.0 in
    (redeem chain r' pay (one_record, 5) ≡ (refused (not_redeemable revoked), (one_record, 5)))
    × (refresh_status chain r' (one_record, 5) ≡ (r', one_record))
revoke-is_final_example = revoke-is_final chain (record_with signed) pay one_record one_record 0 5

record_from_dict-record_to_dict_example :
    record_from_dict python (record_to_dict python (record_with signed)) ≡ some (record_with signed)
record_from_dict-record_to_dict_example =
    record_from_dict-record_to_dict python (record_with signed) python-ReadsHex

load-save_example :
    ((load python "d1" (save python "now" (record_with signed) one_record)).0
      ≡ some (stamped "now" (record_with signed)))
    × ((load python "d2" (restarted python (save python "now" (record_with signed) one_record))).0
        ≡ (if same_file python "d2" "d1"
            then some (stamped "now" (record_with signed))
            else (load python "d2" (restarted python one_record)).0))
load-save_example = load-save python "now" (record_with signed) "d2" one_record python-ReadsHex

store_delegation-load_example :
    let out =
      store_delegation chain "d1" (record_with signed).delegation 1 "" [] "" [] (one_record, 0) in
    ((load python "d1" out.1).0 ≡ some out.0)
    × ((load python "d1" (restarted python out.1)).0 ≡ some out.0)
store_delegation-load_example =
    store_delegation-load chain "d1" (record_with signed).delegation 1 "" [] "" [] one_record 0
      python-ReadsHex

safe_id-IsSafe_example :
    let safe = safe_id python.alnum (codes "../d1") in
    All (λ c. is_safe python.alnum c ≡ true) safe
    × ((length safe ≡ 5)
        × (All (λ c. is_safe python.alnum c ≡ true) (codes "../d1") → safe ≡ codes "../d1"))
safe_id-IsSafe_example = safe_id-IsSafe python.alnum (codes "../d1")
