-- ===== src/Network.antt =====
-- clawmes/lib/http.py and clawmes/services/endpoint_allowlist.py: the hosts that a request may go
-- to, those that the user adds for a session, and the record of blocked requests. `urlparse`,
-- `strip` and `lower` are parameters, and so is the request that httpx sends with its retries.
pub mod Leaves
pub mod Agrees
pub mod Tests
use clawmes.Base.{
  ℕ, String, Bool, true, false, not, ◌&&◌, ◌||◌, Option, none, some, List, [], ◌∷◌, ◌++◌, ltb, leb,
  if◌then◌else◌, length, keep_if, str_eq, contains, take, reverse,
}
use clawmes.Base.Int.{ℤ, pos, negsuc}

-- One blocked request.
pub record Block : Type 0 where
  pub timestamp : ℕ
  pub host : String
  pub url : String

-- `EndpointAllowlistService`: the set of the user's hosts, and the ring, oldest first.
pub record Allowlist : Type 0 where
  pub user_hosts : List String
  pub blocks : List Block

abbrev pub default_ring_size : ℕ
default_ring_size = 100

abbrev pub default_allowlist : List String
default_allowlist =
    "api.0x.org" ∷ "api.1inch.dev" ∷ "li.quest" ∷ "eth-mainnet.g.alchemy.com"
    ∷ "base-mainnet.g.alchemy.com" ∷ "arb-mainnet.g.alchemy.com" ∷ "opt-mainnet.g.alchemy.com"
    ∷ "polygon-mainnet.g.alchemy.com" ∷ "rpc.ankr.com" ∷ "ethereum-rpc.publicnode.com"
    ∷ "mainnet.base.org" ∷ "arb1.arbitrum.io" ∷ "mainnet.optimism.io" ∷ "polygon-rpc.com"
    ∷ "rpc.mainnet.chain.robinhood.com" ∷ "rpc.testnet.chain.robinhood.com" ∷ "api.coingecko.com"
    ∷ "api.dexscreener.com" ∷ "data.chain.link" ∷ "api.defillama.com" ∷ "api.basescan.org"
    ∷ "api.etherscan.io" ∷ "api.arbiscan.io" ∷ "api.optimistic.etherscan.io" ∷ "api.polygonscan.com"
    ∷ "robinhoodchain.blockscout.com" ∷ "robinhoodchain-testnet.blockscout.com" ∷ "bags.fm"
    ∷ "aave-api-v3.aave.com" ∷ "api.lido.fi" ∷ "api.rocketpool.net" ∷ "api.yearn.fi"
    ∷ "api.across.to" ∷ "stargate.finance" ∷ "hub.snapshot.org" ∷ "api.tally.xyz" ∷ "api.neynar.com"
    ∷ "api.reservoir.tools" ∷ "api-base.reservoir.tools" ∷ "api-arbitrum.reservoir.tools"
    ∷ "api-optimism.reservoir.tools" ∷ "api-polygon.reservoir.tools" ∷ "yields.llama.fi"
    ∷ "safe-transaction-mainnet.safe.global" ∷ "safe-transaction-base.safe.global"
    ∷ "safe-transaction-arbitrum.safe.global" ∷ "safe-transaction-optimism.safe.global"
    ∷ "safe-transaction-polygon.safe.global" ∷ "api.bankr.bot" ∷ "llm.bankr.bot"
    ∷ "opengateway.gitlawb.com" ∷ "api.venice.ai" ∷ "bv7x.ai" ∷ "clawn.ch" ∷ "www.clawn.ch"
    ∷ "api.tenderly.co" ∷ "bridge.xyz" ∷ "api.moonpay.com" ∷ "relay.walletconnect.com" ∷ []

-- `deque(maxlen=n).append`
unfoldable pub push_ring : ℕ → Block → List Block → List Block
push_ring n b [] = if leb 1 n then b ∷ [] else []
push_ring n b (old ∷ rest) =
    if ltb (length (old ∷ rest)) n then (old ∷ rest) ++ b ∷ [] else rest ++ b ∷ []

unfoldable pub record_block : ℕ → String → String → Allowlist → Allowlist
record_block timestamp url host a = record a {
  blocks =
      push_ring default_ring_size (record { timestamp = timestamp; host = host; url = url })
        a.blocks;
}

-- The newest blocked requests first.
unfoldable pub recent_blocks : ℤ → Allowlist → List Block
recent_blocks (pos limit) a = take limit (reverse a.blocks)
recent_blocks (negsuc n) a = []

-- `stop`
abbrev pub stop : Allowlist → Allowlist
stop a = record { user_hosts = []; blocks = [] }

abbrev pub no_hosts : Allowlist
no_hosts = record { user_hosts = []; blocks = [] }

-- What the code uses of texts, and of `urlparse(url).hostname` ("" for none).
pub record Hosts : Type 0 where
  pub normalize : String → String
  pub host_of : String → String

-- How `_check_allowlist` ends.
pub data Verdict : Type 0 where
  passes no_host not_allowed : Verdict

module _ (hosts : Hosts) where
  -- `add_host`: `none` is the ValueError for an empty host.
  unfoldable pub add_host : String → Allowlist → Option Bool × Allowlist
  add_host host a =
      let name = hosts.normalize host in
      if str_eq name ""
      then (none, a)
      else (if contains name a.user_hosts
          then (some false, a)
          else (some true, record a { user_hosts = name ∷ a.user_hosts }))

  unfoldable pub remove_host : String → Allowlist → Option Bool × Allowlist
  remove_host host a =
      let name = hosts.normalize host in
      if str_eq name ""
      then (none, a)
      else (if contains name a.user_hosts
          then (
            some true,
            record a { user_hosts = keep_if (λ h. not (str_eq name h)) a.user_hosts },
          )
          else (some false, a))

  unfoldable pub is_allowed : String → Allowlist → Bool
  is_allowed host a =
      let name = hosts.normalize host in
      if str_eq name "" then false else contains name a.user_hosts

  -- `blocked_hosts`, which a service asks at its start about its default endpoints.
  unfoldable pub blocked_hosts : List String → Allowlist → List String
  blocked_hosts [] a = []
  blocked_hosts (host ∷ more) a =
      let rest = blocked_hosts more a in
      let name = hosts.normalize host in
      if str_eq name ""
      then rest
      else (if contains name default_allowlist
          then rest
          else (if is_allowed name a then rest else name ∷ rest))

  -- The checks of `_check_allowlist` for a host, in their order.
  unfoldable pub verdict : List String → String → Allowlist → Verdict
  verdict extra_hosts host a =
      if str_eq host ""
      then no_host
      else (if contains host default_allowlist
          then passes
          else (if contains host extra_hosts
              then passes
              else (if is_allowed host a then passes else not_allowed)))

  -- `_check_allowlist`; `none` for the service is an exception of its import or its constructor, and
  -- then the user has no hosts and nothing is recorded.
  unfoldable pub check_allowlist :
      ℕ → List String → String → Option Allowlist → Verdict × Option Allowlist
  check_allowlist now extra_hosts url none =
      (verdict extra_hosts (hosts.host_of url) no_hosts, none)
  check_allowlist now extra_hosts url (some a) =
      let host = hosts.host_of url in
      elim (verdict extra_hosts host a) [
        | passes ↦ (passes, some a)
        | no_host ↦ (no_host, some a)
        | not_allowed ↦ (not_allowed, some (record_block now url host a))
      ]

  -- `http_get` and `http_post`: an answer, or the NetworkAllowlistError.
  unfoldable pub request {ℓ κ} :
      {W : Type ℓ} {R : Type κ} (send : String → W → R × W)
      → ℕ
      → List String
      → String
      → Option Allowlist
      → W
      → (Option R × Option Allowlist) × W
  request send now extra_hosts url service w =
      let (v, service') = check_allowlist now extra_hosts url service in
      let (answer, w') = send url w in
      elim v [
        | passes ↦ ((some answer, service'), w')
        | no_host ↦ ((none, service'), w)
        | not_allowed ↦ ((none, service'), w)
      ]
