-- ===== src/Base/Check.antt =====
-- A command's checks: a value, or the refusal that ends the command.
use Prim.Native.String.{String}
use mathlib.Core.Path.{◌≡◌, refl}
use mathlib.Core.Logic.{◌⊎◌, inl, inr}
use mathlib.Core.Option.{Option, none, some}

pub data Check {ℓ κ} (E : Type ℓ) (A : Type κ) : Type (ℓ ⊔ κ) where
  bad : E → Check E A
  good : A → Check E A

infixl 5 ◌>>=◌
abbrev pub ◌>>=◌ {ℓ κ μ} :
    {E : Type ℓ} {A : Type κ} {B : Type μ} → Check E A → (A → Check E B) → Check E B
bad r >>= next = bad r
good a >>= next = next a

abbrev pub or_refuse {ℓ κ} : {E : Type ℓ} {A : Type κ} → E → Option A → Check E A
or_refuse r none = bad r
or_refuse r (some a) = good a

-- An optional flag's value: the default, or what its text reads as.
abbrev pub flag_or {ℓ κ} :
    {E : Type ℓ} {A : Type κ} → A → (String → Check E A) → Option String → Check E A
flag_or default read none = good default
flag_or default read (some text) = read text

pub bind_good {ℓ κ μ} :
    {E : Type ℓ} {A : Type κ} {B : Type μ} (c : Check E A) (next : A → Check E B) {b : B}
    → (c >>= next) ≡ good b
    → (a : A) × (c ≡ good a) × (next a ≡ good b)
bind_good (bad r) next h = cc
bind_good (good a) next h = (a, refl, h)

pub Check-cases {ℓ κ} :
    {E : Type ℓ} {A : Type κ} (c : Check E A) → ((r : E) × (c ≡ bad r)) ⊎ ((a : A) × (c ≡ good a))
Check-cases (bad r) = inl (r, refl)
Check-cases (good a) = inr (a, refl)

pub good_inj {ℓ κ} :
    {E : Type ℓ} {A : Type κ} (a b : A) → ◌≡◌ {A = Check E A} (good a) (good b) → a ≡ b
good_inj a b h = cc
