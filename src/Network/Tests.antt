-- ===== src/Network/Tests.antt =====
-- A session with one host of the user.
use clawmes.Base.{ℕ, suc, ◌≡◌, String, some, [], ◌∷◌, map, keep_if}
use clawmes.Network.{Allowlist, Hosts, request, blocked_hosts, verdict}
use clawmes.Network.Leaves.{Leaves, request-Leaves}
use clawmes.Network.Agrees.{is_rejected, blocked_hosts-rejected}

-- A text is its own host.
abbrev hosts : Hosts
hosts = record { normalize = λ t. t; host_of = λ url. url }

abbrev session : Allowlist
session = record { user_hosts = "rpc.example" ∷ []; blocks = [] }

-- The world counts the requests.
abbrev send : String → ℕ → ℕ × ℕ
send url w = (200, suc w)

request-Leaves_example :
    Leaves hosts send 7 [] "evil.example"
      (some session)
      0
      (request hosts send 7 [] "evil.example" (some session) 0)
request-Leaves_example = request-Leaves hosts send 7 [] "evil.example" (some session) 0

blocked_hosts-rejected_example :
    blocked_hosts hosts ("evil.example" ∷ "rpc.example" ∷ []) session
    ≡ keep_if
        (λ h. is_rejected (verdict hosts [] h session))
        (map hosts.normalize ("evil.example" ∷ "rpc.example" ∷ []))
blocked_hosts-rejected_example =
    blocked_hosts-rejected hosts ("evil.example" ∷ "rpc.example" ∷ []) session
