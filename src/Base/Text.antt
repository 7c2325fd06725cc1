-- ===== src/Base/Text.antt =====
-- Texts as keys: membership in a tuple of texts, and dictionaries in insertion order. `==` of
-- texts is passed on as `str_eq`.
use Prim.Native.String.{String}
use mathlib.Core.Path.{◌≡◌, refl, sym, subst}
use mathlib.Core.Logic.{inl, inr}
use mathlib.Core.Bool.{Bool, false, ◌||◌}
use mathlib.Core.Option.{Option, none, some}
use mathlib.Core.List.{List, [], ◌∷◌}
use native.Mathlib.Omega.{arith}
use clawmes.Base.Tests.{if◌then◌else◌, Bool-cases, some_inj}
use clawmes.Base.Lists.{All}
pub use text.Mathlib.Text.{◌==◌ as str_eq}
pub use text.Mathlib.TextEquality.{eq_iff}
pub use text.Mathlib.TextPositions.{eq_refl}

-- `t in texts`
abbrev pub contains : String → List String → Bool
contains t [] = false
contains t (s ∷ texts) = str_eq t s || contains t texts

module _ {ℓ} {V : Type ℓ} where
  -- `d.get(k)`
  abbrev pub lookup : String → List (String × V) → Option V
  lookup k [] = none
  lookup k ((j, v) ∷ d) = if str_eq j k then some v else lookup k d

  -- `d[k] = v`
  abbrev pub insert : String → V → List (String × V) → List (String × V)
  insert k v [] = (k, v) ∷ []
  insert k v ((j, w) ∷ d) = if str_eq j k then (j, v) ∷ d else (j, w) ∷ insert k v d

  -- `d.pop(k, None)`
  abbrev pub erase : String → List (String × V) → List (String × V)
  erase k [] = []
  erase k ((j, w) ∷ d) = if str_eq j k then erase k d else (j, w) ∷ erase k d

  pub lookup-insert :
      (k j : String) (v : V) (d : List (String × V))
      → lookup j (insert k v d) ≡ (if str_eq k j then some v else lookup j d)
  lookup-insert k j v [] = refl
  lookup-insert k j v ((i, w) ∷ d) =
      ground (arith, eq_iff k j, eq_iff i k, eq_iff i j, lookup-insert k j v d)

  pub lookup-erase_self : (k : String) (d : List (String × V)) → lookup k (erase k d) ≡ none
  lookup-erase_self k [] = refl
  lookup-erase_self k ((j, w) ∷ d) = ground (arith, lookup-erase_self k d)

  -- A property of every entry holds of the one that a key gives, and what a dictionary's changes keep.
  pub lookup-All {κ} :
      (P : String → V → Type κ) (k : String) (v : V) (d : List (String × V))
      → lookup k d ≡ some v
      → All (λ e. P e.0 e.1) d
      → P k v
  lookup-All P k v [] h a = ground arith
  lookup-All P k v ((j, w) ∷ d) h a = elim (Bool-cases (str_eq j k)) [
    | inl same ↦
        let name : j ≡ k = ground (arith, eq_iff j k) in
        let value : some w ≡ some v = rw same at h in
        subst (λ i. P i v) name (subst (P j) (some_inj value) a.0)
    | inr other ↦ lookup-All P k v d (rw other at h) a.1
  ]

  pub All-insert {κ} :
      (P : String → V → Type κ) (k : String) (v : V) (d : List (String × V))
      → P k v
      → All (λ e. P e.0 e.1) d
      → All (λ e. P e.0 e.1) (insert k v d)
  All-insert P k v [] p a = (p, tt)
  All-insert P k v ((j, w) ∷ d) p a = elim (Bool-cases (str_eq j k)) [
    | inl same ↦
        let name : j ≡ k = ground (arith, eq_iff j k) in
        rw same (subst (λ i. P i v) (sym name) p, a.1)
    | inr other ↦ rw other (a.0, All-insert P k v d p a.1)
  ]

  pub All-erase {κ} :
      (P : String → V → Type κ) (k : String) (d : List (String × V))
      → All (λ e. P e.0 e.1) d
      → All (λ e. P e.0 e.1) (erase k d)
  All-erase P k [] a = tt
  All-erase P k ((j, w) ∷ d) a = elim (Bool-cases (str_eq j k)) [
    | inl same ↦ rw same (All-erase P k d a.1)
    | inr other ↦ rw other (a.0, All-erase P k d a.1)
  ]
