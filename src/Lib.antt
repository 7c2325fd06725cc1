-- ===== src/Lib.antt =====
-- A verification library for clawmes, an agent's toolkit for on-chain actions: every write tool
-- runs behind a gate of policies, confirmations and signed delegations, which is the part that
-- keeps an agent from spending what its user did not allow.
--
-- Parts and files. `Base` holds what the others share: Boolean tests, lists, dictionaries keyed by
-- texts, and unbounded integers over the native numbers.
--   * Policy/Types, Policy/Evaluator: clawmes/policy/types.py and evaluator.py. A policy's filters
--     and gates; `evaluate` walks the rules and passes the usage counter through.
--   * Policy/Usage: clawmes/policy/usage_counter.py, the sliding window of invocations.
--   * Policy/Confirm: clawmes/policy/confirm_store.py, the one-time nonces of held actions.
--   * Gate, Gate/Extract: clawmes/tools/registry.py (`write_tool`) and
--     clawmes/services/mode_service.py. `gated` is the pipeline: mode, policies, confirmation,
--     delegation (`perform`), handler (`run_handler`) and the count. Gate/Delegated puts the
--     executor in as the delegation stage.
--   * Delegation/Types, Delegation/Encoding, Delegation/Compiler: the same files of
--     clawmes/delegation: records, ABI encodings and `compile_spec`.
--     Delegation/FromPolicy is `spec_from_policy` of the compiler.
--   * Delegation/Dicts, Delegation/Store, Delegation/Service: store.py and service.py there: the dict
--     of a record, the files of records, and `store_delegation`, `redeem`, `revoke` and
--     `refresh_status`.
--   * Delegation/Extractors, Delegation/Fill, Delegation/Executor: executor.py there: the action
--     that a call's arguments ask for, the delegator's placeholder, the rate limiter and
--     `try_delegation_execution`.
--   * Orders, Orders/Add, Orders/Engine: clawmes/commands/limit_order.py, the limit orders: their
--     commands, and the engine that swaps when a price crosses a threshold.
--   * TokenGate: clawmes/services/token_gate.py, the tier of a wallet and its cached balance.
--   * Network: clawmes/lib/http.py and clawmes/services/endpoint_allowlist.py, the hosts that a
--     request may go to.
--   * Dca, Dca/Interval, Dca/Add, Dca/Edit, Dca/Tick: clawmes/commands/dca.py, the recurring buys:
--     their commands, and the loop that clawmes/services/dca_scheduler.py ticks.
--   * Alerts, Alerts/Add, Alerts/Watcher: clawmes/commands/alerts.py, price and wallet alerts.
--   * Sniper, Sniper/Add, Sniper/Edit, Sniper/Engine, Sniper/Tick: clawmes/commands/sniper.py, the
--     buys of new launches and the watches that sell them again.
--   * Copy, Copy/Add, Copy/Edit, Copy/Engine, Copy/Tick: clawmes/commands/copy.py, the follows that
--     copy the transfers of other wallets.
--   * TokenDecimals: clawmes/services/token_decimals.py, the verified and the assumed decimals.
--   * CostBasis: clawmes/tools/cost_basis.py, the ledger matched first in, first out.
--   * Plans, Plans/Files: clawmes/plans: the steps of a plan, their validator, and the plans' files.
--
-- The gate calls the evaluator, the confirmation store and the executor; the executor calls the
-- store and the service; the service encodes and hands the calldata to the chain.
--
-- The DCA schedules, the alerts, the sniper and the follows ask TokenGate for caps and tiers and
-- share the reading of their flags; an amount in tokens rests on TokenDecimals.
--
-- State is passed explicitly. The gate, the executor, the service and the loops that swap act on a
-- type of worlds that is a parameter, so that a theorem on the world holds whatever the chain is.
-- Parameters stand for code outside the repository or for input and output: the ABI codec and keccak
-- of the eth packages, `int`, `float` and `str` of Python values, `decimal.Decimal` behind the amount
-- conversion with the decimals cache, the digest of a tool's arguments, clocks, the RPC endpoint, the
-- wallet, a tool's handler, and what a loop reads of the answers of the price and swap tools.
-- Floating-point numbers are a type that is a parameter, with the operations that the code uses.
-- Clock readings are numbers of ticks; the readings of one step that follow each other at once are
-- equal. Python's integers are unbounded, as here; `hex` and `int(s, 16)` are parameters of the store,
-- with the law that one reads what the other writes; where the code converts one to 32 bytes the
-- overflow is a failure. Every loop of the code runs over a list and is structural recursion; only
-- the decimal print of a number takes fuel, one more than the number, which is more than it has
-- digits.
--
-- Not modelled: message texts, logging, locks (each operation is one step), the JSON text of
-- stored records (`json` is taken to give back the dict), the policy parser, the plan compiler and
-- executor (stubs in the source), the listings of the commands, and the tools' own handlers with
-- their HTTP and RPC clients.
pub mod Base
pub mod Policy
pub mod Delegation
pub mod Gate
pub mod TokenGate
pub mod TokenDecimals
pub mod Network
pub mod Orders
pub mod Dca
pub mod CostBasis
pub mod Plans
pub mod Alerts
pub mod Sniper
pub mod Copy
