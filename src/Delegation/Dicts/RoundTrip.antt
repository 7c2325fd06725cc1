-- ===== src/Delegation/Dicts/RoundTrip.antt =====
-- A record survives its dict.
use clawmes.Base.{◌≡◌, refl, some, List, [], ◌∷◌, map}
use clawmes.Base.Int.{ℤ}
use clawmes.Delegation.Types.{Caveat, SignedDelegation, DelegationRecord}
use clawmes.Delegation.Dicts.{
  Python, caveat_to_dict, caveat_from_dict, caveats_from_dicts, delegation_to_dict, salt_from,
  delegation_from_dict, record_to_dict, record_from_dict,
}

caveats_from_dicts-map :
    (caveats : List Caveat) → caveats_from_dicts (map caveat_to_dict caveats) ≡ some caveats
unfolding caveats_from_dicts caveat_to_dict caveat_from_dict
caveats_from_dicts-map [] = refl
caveats_from_dicts-map (c ∷ caveats) = rw (caveats_from_dicts-map caveats) refl

-- `int(hex(n), 16)` is `n`.
abbrev pub ReadsHex : Python → Type 0
ReadsHex py = (n : ℤ) → py.int16 (py.hex_of n) ≡ some n

delegation_from_dict-delegation_to_dict :
    (py : Python) (d : SignedDelegation)
    → ReadsHex py
    → delegation_from_dict py (delegation_to_dict py d) ≡ some d
unfolding delegation_from_dict delegation_to_dict salt_from
delegation_from_dict-delegation_to_dict py d reads =
    rw (caveats_from_dicts-map d.caveats, reads d.salt) refl

-- A record that is turned into a dict and read back is the same in every field, with all caveats of
-- its delegation, where `int(s, 16)` reads what `hex` writes.
pub record_from_dict-record_to_dict :
    (py : Python) (r : DelegationRecord)
    → ReadsHex py
    → record_from_dict py (record_to_dict py r) ≡ some r
unfolding record_from_dict record_to_dict
record_from_dict-record_to_dict py r reads =
    rw (delegation_from_dict-delegation_to_dict py r.delegation reads) refl
