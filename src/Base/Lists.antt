-- ===== src/Base/Lists.antt =====
-- Lists measured by native numbers, predicates on all elements, and filtering by a Boolean test.
use Prim.Native.Nat.{ℕ, zero, suc, ◌+◌, ◌≤◌}
use mathlib.Core.Path.{◌≡◌, refl, ap}
use mathlib.Core.Logic.{◌⊎◌, inl, inr}
use mathlib.Core.Bool.{Bool, true, ◌&&◌}
use mathlib.Core.Option.{Option, none, some}
use mathlib.Core.List.{List, [], ◌∷◌, ◌++◌}
use native.Mathlib.Omega.{arith}
use clawmes.Base.Tests.{if◌then◌else◌, Bool-cases}

module _ {ℓ} {A : Type ℓ} where
  abbrev pub length : List A → ℕ
  length [] = 0
  length (x ∷ xs) = suc (length xs)

  abbrev pub replicate : ℕ → A → List A
  replicate zero a = []
  replicate (suc n) a = a ∷ replicate n a

  -- `[x for x in xs if keep(x)]`
  abbrev pub keep_if : (A → Bool) → List A → List A
  keep_if keep [] = []
  keep_if keep (x ∷ xs) = if keep x then x ∷ keep_if keep xs else keep_if keep xs

  abbrev pub all : (A → Bool) → List A → Bool
  all test [] = true
  all test (x ∷ xs) = test x && all test xs

  abbrev pub take : ℕ → List A → List A
  take zero xs = []
  take (suc n) [] = []
  take (suc n) (x ∷ xs) = x ∷ take n xs

  abbrev pub drop : ℕ → List A → List A
  drop zero xs = xs
  drop (suc n) [] = []
  drop (suc n) (x ∷ xs) = drop n xs

  abbrev pub reverse : List A → List A
  reverse [] = []
  reverse (x ∷ xs) = reverse xs ++ x ∷ []

  -- `next(x for x in xs if test(x))`
  unfoldable pub find_first : (A → Bool) → List A → Option A
  find_first test [] = none
  find_first test (x ∷ xs) = if test x then some x else find_first test xs

  -- The first element that passes, changed in place.
  unfoldable pub update_first : (A → Bool) → (A → A) → List A → List A
  update_first test f [] = []
  update_first test f (x ∷ xs) =
      let rest = update_first test f xs in if test x then f x ∷ xs else x ∷ rest

  pub List-cases : (xs : List A) → (xs ≡ []) ⊎ ((x : A) × (rest : List A) × (xs ≡ x ∷ rest))
  List-cases [] = inl refl
  List-cases (x ∷ rest) = inr (x, rest, refl)

  pub length-append : (xs ys : List A) → length (xs ++ ys) ≡ length xs + length ys
  length-append [] ys = omega arith
  length-append (x ∷ xs) ys = omega (arith, length-append xs ys)

  pub length-replicate : (n : ℕ) (a : A) → length (replicate n a) ≡ n
  length-replicate zero a = refl
  length-replicate (suc n) a = ap suc (length-replicate n a)

  pub length-keep_if-le : (keep : A → Bool) (xs : List A) → length (keep_if keep xs) ≤ length xs
  length-keep_if-le keep [] = omega arith
  length-keep_if-le keep (x ∷ xs) = ground (arith, length-keep_if-le keep xs)

-- A predicate on every element, by recursion.
abbrev pub All {ℓ κ} : {A : Type ℓ} → (A → Type κ) → List A → Type κ
All P [] = Unit
All P (x ∷ xs) = P x × All P xs

pub All-append {ℓ κ} :
    {A : Type ℓ} (P : A → Type κ) (xs ys : List A) → All P xs → All P ys → All P (xs ++ ys)
All-append P [] ys hx hy = hy
All-append P (x ∷ xs) ys hx hy = (hx.0, All-append P xs ys hx.1 hy)

pub All-keep_if {ℓ κ} :
    {A : Type ℓ} (P : A → Type κ) (keep : A → Bool) (xs : List A)
    → All P xs
    → All P (keep_if keep xs)
All-keep_if P keep [] h = tt
All-keep_if P keep (x ∷ xs) h = elim (Bool-cases (keep x)) [
  | inl kept ↦ rw kept (h.0, All-keep_if P keep xs h.1)
  | inr dropped ↦ rw dropped (All-keep_if P keep xs h.1)
]

pub All-update_first {ℓ κ} :
    {A : Type ℓ} (P : A → Type κ) (test : A → Bool) (f : A → A) (xs : List A)
    → ((x : A) → P x → P (f x))
    → All P xs
    → All P (update_first test f xs)
unfolding update_first
All-update_first P test f [] g h = tt
All-update_first P test f (x ∷ xs) g h = elim (Bool-cases (test x)) [
  | inl hit ↦ rw (update_first, hit) (g x h.0, h.1)
  | inr miss ↦ rw (update_first, miss) (h.0, All-update_first P test f xs g h.1)
]

-- Two lists of one length whose elements are related in pairs.
pub data Pairwise {ℓ κ} {A : Type ℓ} (R : A → A → Type κ) : List A → List A → Type (ℓ ⊔ κ) where
  none_left : Pairwise R [] []
  pair : {x y : A} {xs ys : List A} → R x y → Pairwise R xs ys → Pairwise R (x ∷ xs) (y ∷ ys)

pub Pairwise-All {ℓ κ μ} :
    {A : Type ℓ} {R : A → A → Type κ} {P : A → Type μ} {xs ys : List A}
    → ((x y : A) → R x y → P y)
    → Pairwise R xs ys
    → All P ys
Pairwise-All f none_left = tt
Pairwise-All f (pair {x} {y} r rs) = (f x y r, Pairwise-All f rs)
