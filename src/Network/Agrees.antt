-- ===== src/Network/Agrees.antt =====
-- The self-check of the allowlist and the check of a request agree.
use clawmes.Base.{
  ◌≡◌, refl, ap, inl, inr, String, Bool, true, false, List, [], ◌∷◌, map, keep_if, Bool-cases,
  str_eq, contains,
}
use clawmes.Network.{
  Allowlist, Hosts, default_allowlist, is_allowed, blocked_hosts, Verdict, passes, no_host,
  not_allowed, verdict,
}

abbrev pub is_rejected : Verdict → Bool
is_rejected passes = false
is_rejected no_host = false
is_rejected not_allowed = true

module _ (hosts : Hosts) where
  -- blocked_hosts gives, in order, exactly the hosts whose requests _check_allowlist rejects when the
  -- call adds no host of its own.
  pub blocked_hosts-rejected :
      (names : List String) (a : Allowlist)
      → blocked_hosts hosts names a
        ≡ keep_if (λ h. is_rejected (verdict hosts [] h a)) (map hosts.normalize names)
  unfolding blocked_hosts verdict
  blocked_hosts-rejected [] a = refl
  blocked_hosts-rejected (host ∷ names) a =
      let name = hosts.normalize host in
      let ih = blocked_hosts-rejected names a in
      elim (Bool-cases (str_eq name "")) [
        | inl empty ↦ rw (blocked_hosts, verdict, empty) ih
        | inr named ↦ elim (Bool-cases (contains name default_allowlist)) [
          | inl known ↦ rw (blocked_hosts, verdict, named, known) ih
          | inr unknown ↦ elim (Bool-cases (is_allowed hosts name a)) [
            | inl added ↦ rw (blocked_hosts, verdict, named, unknown, added) ih
            | inr denied ↦
                rw (blocked_hosts, verdict, named, unknown, denied)
                  (ap (λ rest. hosts.normalize host ∷ rest) ih)
          ]
        ]
      ]
