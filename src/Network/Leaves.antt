-- ===== src/Network/Leaves.antt =====
-- Which requests leave the process.
use clawmes.Base.{
  ℕ, ◌≡◌, refl, inl, inr, String, true, false, Option, none, some, List, [], ◌∷◌, ◌++◌, arith,
  Bool-cases, List-cases, str_eq, contains, eq_iff, if◌then◌else◌, ltb, length, drop,
}
use clawmes.Network.{
  Block, Allowlist, no_hosts, push_ring, Hosts, default_allowlist, record_block, is_allowed,
  Verdict, passes, no_host, not_allowed, verdict, check_allowlist, request,
}

-- What the record of the blocked requests is afterwards: the new one is its last entry, and a record
-- of 100 entries has lost its first.
abbrev pub with_block : Block → Allowlist → Allowlist
with_block b a = record {
  user_hosts = a.user_hosts;
  blocks = (if ltb (length a.blocks) 100 then a.blocks else drop 1 a.blocks) ++ b ∷ [];
}

abbrev pub block_of : ℕ → String → String → Block
block_of now url host = record { timestamp = now; host = host; url = url }

record_block-with_block :
    (now : ℕ) (url host : String) (a : Allowlist)
    → record_block now url host a ≡ with_block (block_of now url host) a
unfolding record_block push_ring
record_block-with_block now url host a = elim (List-cases a.blocks) [
  | inl empty ↦ rw (record_block, empty, push_ring) refl
  | inr (old, rest, e) ↦ elim (Bool-cases (ltb (length (old ∷ rest)) 100)) [
    | inl room ↦ rw (record_block, e, push_ring, room) refl
    | inr full ↦ rw (record_block, e, push_ring, full) refl
  ]
]

module _ (hosts : Hosts) where
  -- A host of one of the three layers: the defaults, the call's own and, if the service is there, the
  -- user's.
  pub data IsPermitted (extra_hosts : List String) (host : String) (service : Option Allowlist)
      : Type 0 where
    by_default : contains host default_allowlist ≡ true → IsPermitted extra_hosts host service
    by_call : contains host extra_hosts ≡ true → IsPermitted extra_hosts host service
    by_user :
        (a : Allowlist)
        → service ≡ some a
        → is_allowed hosts host a ≡ true
        → IsPermitted extra_hosts host service

  -- The verdict of a host, with what makes it.
  data Judged (extra_hosts : List String) (host : String) (a : Allowlist) : Verdict → Type 0 where
    empty : host ≡ "" → Judged extra_hosts host a no_host
    known : contains host default_allowlist ≡ true → Judged extra_hosts host a passes
    extra : contains host extra_hosts ≡ true → Judged extra_hosts host a passes
    added : is_allowed hosts host a ≡ true → Judged extra_hosts host a passes
    denied :
        contains host default_allowlist ≡ false
        → contains host extra_hosts ≡ false
        → is_allowed hosts host a ≡ false
        → Judged extra_hosts host a not_allowed

  verdict-Judged :
      (extra_hosts : List String) (host : String) (a : Allowlist)
      → Judged extra_hosts host a (verdict hosts extra_hosts host a)
  unfolding verdict
  verdict-Judged extra_hosts host a = elim (Bool-cases (str_eq host "")) [
    | inl blank ↦ rw (verdict, blank) (empty (ground (arith, eq_iff host "")))
    | inr named ↦ elim (Bool-cases (contains host default_allowlist)) [
      | inl default ↦ rw (verdict, named, default) (known default)
      | inr unknown ↦ elim (Bool-cases (contains host extra_hosts)) [
        | inl given ↦ rw (verdict, named, unknown, given) (extra given)
        | inr foreign ↦ elim (Bool-cases (is_allowed hosts host a)) [
          | inl user ↦ rw (verdict, named, unknown, foreign, user) (added user)
          | inr refused ↦
              rw (verdict, named, unknown, foreign, refused) (denied unknown foreign refused)
        ]
      ]
    ]
  ]

  nobody_allowed : (host : String) → is_allowed hosts host no_hosts ≡ false
  unfolding is_allowed
  nobody_allowed host = elim (Bool-cases (str_eq (hosts.normalize host) "")) [
    | inl blank ↦ rw (is_allowed, blank) refl
    | inr named ↦ rw (is_allowed, named) refl
  ]

  module _ {ℓ κ} {W : Type ℓ} {R : Type κ} (send : String → W → R × W) where
    -- The outcomes of a request.
    pub data Leaves (now : ℕ) (extra_hosts : List String) (url : String)
        (service : Option Allowlist) (w : W)
        : (Option R × Option Allowlist) × W → Type (ℓ ⊔ κ) where
      nowhere : hosts.host_of url ≡ "" → Leaves now extra_hosts url service w ((none, service), w)
      stopped :
          (a : Allowlist)
          → service ≡ some a
          → contains (hosts.host_of url) default_allowlist ≡ false
          → contains (hosts.host_of url) extra_hosts ≡ false
          → is_allowed hosts (hosts.host_of url) a ≡ false
          → Leaves now extra_hosts url service w
              ((none, some (with_block (block_of now url (hosts.host_of url)) a)), w)
      stopped_unrecorded :
          service ≡ none
          → contains (hosts.host_of url) default_allowlist ≡ false
          → contains (hosts.host_of url) extra_hosts ≡ false
          → Leaves now extra_hosts url service w ((none, none), w)
      leaves :
          IsPermitted extra_hosts (hosts.host_of url) service
          → Leaves now extra_hosts url service w ((some (send url w).0, service), (send url w).1)

    passed :
        (now : ℕ) (extra_hosts : List String) (url : String) (a : Allowlist) (w : W)
        → verdict hosts extra_hosts (hosts.host_of url) a ≡ passes
        → IsPermitted extra_hosts (hosts.host_of url) (some a)
        → Leaves now extra_hosts url (some a) w (request hosts send now extra_hosts url (some a) w)
    unfolding request check_allowlist
    passed now extra_hosts url a w e p =
        let check : check_allowlist hosts now extra_hosts url (some a) ≡ (passes, some a) =
          rw (check_allowlist, e) refl in
        rw (request, check, check) (leaves p)

    judged :
        (now : ℕ) (extra_hosts : List String) (url : String) (a : Allowlist) (w : W) (v : Verdict)
        → verdict hosts extra_hosts (hosts.host_of url) a ≡ v
        → Judged extra_hosts (hosts.host_of url) a v
        → Leaves now extra_hosts url (some a) w (request hosts send now extra_hosts url (some a) w)
    unfolding request check_allowlist
    judged now extra_hosts url a w _ e (empty blank) =
        let check : check_allowlist hosts now extra_hosts url (some a) ≡ (no_host, some a) =
          rw (check_allowlist, e) refl in
        rw (request, check, check) (nowhere blank)
    judged now extra_hosts url a w _ e (known h) = passed now extra_hosts url a w e (by_default h)
    judged now extra_hosts url a w _ e (extra h) = passed now extra_hosts url a w e (by_call h)
    judged now extra_hosts url a w _ e (added h) =
        passed now extra_hosts url a w e (by_user a refl h)
    judged now extra_hosts url a w _ e (denied unknown foreign refused) =
        let check : check_allowlist hosts now extra_hosts url (some a)
            ≡ (not_allowed, some (with_block (block_of now url (hosts.host_of url)) a)) =
          rw (check_allowlist, e, record_block-with_block now url (hosts.host_of url) a) refl in
        rw (request, check, check) (stopped a refl unknown foreign refused)

    check_alone :
        (now : ℕ) (extra_hosts : List String) (url : String) (v : Verdict)
        → verdict hosts extra_hosts (hosts.host_of url) no_hosts ≡ v
        → check_allowlist hosts now extra_hosts url none ≡ (v, none)
    unfolding check_allowlist
    check_alone now extra_hosts url v e = rw e refl

    passed_alone :
        (now : ℕ) (extra_hosts : List String) (url : String) (w : W)
        → verdict hosts extra_hosts (hosts.host_of url) no_hosts ≡ passes
        → IsPermitted extra_hosts (hosts.host_of url) none
        → Leaves now extra_hosts url none w (request hosts send now extra_hosts url none w)
    unfolding request
    passed_alone now extra_hosts url w e p =
        let check : check_allowlist hosts now extra_hosts url none ≡ (passes, none) =
          check_alone now extra_hosts url passes e in
        rw (request, check, check) (leaves p)

    judged_alone :
        (now : ℕ) (extra_hosts : List String) (url : String) (w : W) (v : Verdict)
        → verdict hosts extra_hosts (hosts.host_of url) no_hosts ≡ v
        → Judged extra_hosts (hosts.host_of url) no_hosts v
        → Leaves now extra_hosts url none w (request hosts send now extra_hosts url none w)
    unfolding request
    judged_alone now extra_hosts url w _ e (empty blank) =
        let check : check_allowlist hosts now extra_hosts url none ≡ (no_host, none) =
          check_alone now extra_hosts url no_host e in
        rw (request, check, check) (nowhere blank)
    judged_alone now extra_hosts url w _ e (known h) =
        passed_alone now extra_hosts url w e (by_default h)
    judged_alone now extra_hosts url w _ e (extra h) =
        passed_alone now extra_hosts url w e (by_call h)
    judged_alone now extra_hosts url w _ e (added h) =
        let refused = nobody_allowed (hosts.host_of url) in ground (arith, h, refused)
    judged_alone now extra_hosts url w _ e (denied unknown foreign _) =
        let check : check_allowlist hosts now extra_hosts url none ≡ (not_allowed, none) =
          check_alone now extra_hosts url not_allowed e in
        rw (request, check, check) (stopped_unrecorded refl unknown foreign)

    -- A request either raises an error for a URL without a host, or raises one for a host of no layer,
    -- both without touching the network, or its host stands in the defaults, among the hosts that the
    -- call adds or among the user's, and it is sent. Where the allowlist service is there, the host of
    -- no layer is recorded with the time and the URL, as the last entry, and the first entry goes when
    -- there were 100; where it is not, the user has no layer and nothing is recorded.
    pub request-Leaves :
        (now : ℕ) (extra_hosts : List String) (url : String) (service : Option Allowlist) (w : W)
        → Leaves now extra_hosts url service w (request hosts send now extra_hosts url service w)
    request-Leaves now extra_hosts url none w =
        judged_alone now extra_hosts url w _ refl
          (verdict-Judged extra_hosts (hosts.host_of url) no_hosts)
    request-Leaves now extra_hosts url (some a) w =
        judged now extra_hosts url a w _ refl (verdict-Judged extra_hosts (hosts.host_of url) a)
