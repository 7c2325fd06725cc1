-- ===== src/Policy/Confirm/Taken.antt =====
-- Fresh and differing nonces, and what taking an entry out of the store leaves.
use clawmes.Base.{
  ◌≡◌, refl, subst, ◌≢◌, inl, inr, String, Bool, ◌&&◌, none, some, [], ◌∷◌, arith, keep_if, All,
  str_eq, eq_iff, insert, Bool-cases, Option-cases,
}
use clawmes.Policy.Types.{Args, Value}
use clawmes.Policy.Confirm.{Pending, Store, nonce_key, without_nonce, take_match}

-- No entry of the store has this nonce.
abbrev pub IsFresh : String → Store → Type 0
IsFresh n st = All (λ p. p.nonce ≢ n) st

-- The nonces of the store differ.
abbrev pub IsDistinct : Store → Type 0
IsDistinct [] = Unit
IsDistinct (p ∷ st) = IsFresh p.nonce st × IsDistinct st

pub without_nonce-insert :
    (v : Value) (args : Args) → without_nonce (insert nonce_key v args) ≡ without_nonce args
unfolding without_nonce
without_nonce-insert v [] = refl
without_nonce-insert v ((k, w) ∷ args) =
    ground (arith, eq_iff k nonce_key, without_nonce-insert v args)

pub keep_if-IsFresh :
    (keep : Pending → Bool) (n : String) (st : Store) → IsFresh n st → IsFresh n (keep_if keep st)
keep_if-IsFresh keep n [] h = tt
keep_if-IsFresh keep n (p ∷ st) h = elim (Bool-cases (keep p)) [
  | inl kept ↦ rw kept (h.0, keep_if-IsFresh keep n st h.1)
  | inr dropped ↦ rw dropped (keep_if-IsFresh keep n st h.1)
]

pub keep_if-IsDistinct :
    (keep : Pending → Bool) (st : Store) → IsDistinct st → IsDistinct (keep_if keep st)
keep_if-IsDistinct keep [] h = tt
keep_if-IsDistinct keep (p ∷ st) h = elim (Bool-cases (keep p)) [
  | inl kept ↦ rw kept (keep_if-IsFresh keep p.nonce st h.0, keep_if-IsDistinct keep st h.1)
  | inr dropped ↦ rw dropped (keep_if-IsDistinct keep st h.1)
]

pub take_match_fresh : (n fp : String) (st : Store) → IsFresh n st → take_match n fp st ≡ none
unfolding take_match
take_match_fresh n fp [] h = refl
take_match_fresh n fp (p ∷ st) h = ground (arith, eq_iff p.nonce n, take_match_fresh n fp st h.1)

-- What `take_match` leaves: the entries before and after the one that it takes.
pub data Taken (n fp : String) : Store → Store → Type 0 where
  here : (p : Pending) (st : Store) → p.nonce ≡ n → p.fingerprint ≡ fp → Taken n fp (p ∷ st) st
  there : (p : Pending) {st rest : Store} → Taken n fp st rest → Taken n fp (p ∷ st) (p ∷ rest)

some_eq : (a b : Store) → some a ≡ some b → a ≡ b
some_eq a b h = ground arith

pub take_match-Taken :
    (n fp : String) (st rest : Store) → take_match n fp st ≡ some rest → Taken n fp st rest
unfolding take_match
take_match-Taken n fp [] rest h = ground arith
take_match-Taken n fp (p ∷ st) rest h =
    elim (Bool-cases (str_eq p.nonce n && str_eq p.fingerprint fp)) [
      | inl hit ↦
          let same : st ≡ rest = some_eq st rest (rw hit at h) in
          subst (λ r. Taken n fp (p ∷ st) r) same
            (here p st (ground (arith, eq_iff p.nonce n)) (ground (arith, eq_iff p.fingerprint fp)))
      | inr miss ↦ elim (Option-cases (take_match n fp st)) [
        | inl nothing ↦ (let bad : none ≡ some rest = rw (miss, nothing) at h in ground arith)
        | inr (r, found) ↦
            subst (λ x. Taken n fp (p ∷ st) x) (some_eq (p ∷ r) rest (rw (miss, found) at h))
              (there p (take_match-Taken n fp st r found))
      ]
    ]

pub Taken-IsFresh :
    {n fp : String} {st rest : Store} (m : String)
    → Taken n fp st rest
    → IsFresh m st
    → IsFresh m rest
Taken-IsFresh m (here p st e f) h = h.1
Taken-IsFresh m (there p t) h = (h.0, Taken-IsFresh m t h.1)

pub Taken-IsDistinct :
    {n fp : String} {st rest : Store} → Taken n fp st rest → IsDistinct st → IsDistinct rest
Taken-IsDistinct (here p st e f) h = h.1
Taken-IsDistinct (there p t) h = (Taken-IsFresh p.nonce t h.0, Taken-IsDistinct t h.1)

Taken-not-IsFresh : {n fp : String} {st rest : Store} → Taken n fp st rest → ¬ IsFresh n st
Taken-not-IsFresh (here p st e f) h = h.0 e
Taken-not-IsFresh (there p t) h = Taken-not-IsFresh t h.1

-- With differing nonces the taken one is gone.
pub Taken-gone :
    {n fp : String} {st rest : Store} → Taken n fp st rest → IsDistinct st → IsFresh n rest
Taken-gone (here p st e f) h = subst (λ m. IsFresh m st) e h.0
Taken-gone (there p {st} t) h =
    ((λ e. Taken-not-IsFresh t (subst (λ m. IsFresh m st) e h.0)), Taken-gone t h.1)
