-- ===== src/Delegation/Compiler/Laws.antt =====
-- What a delegation that `compile_spec` returns is known to satisfy.
use clawmes.Base.{◌≡◌, refl, subst, Bool, true, false, if◌then◌else◌}
use clawmes.Delegation.Compiler.{Result, built, rejected, raise_if, ◌>>◌, Failure, ◌>>=◌}

pub >>=-eq-built {ℓ κ} :
    {D : Type ℓ} {E : Type κ} (r : Result D) (next : D → Result E) {e : E}
    → (r >>= next) ≡ built e
    → (d : D) × (r ≡ built d) × (next d ≡ built e)
>>=-eq-built (rejected failure) next h = cc
>>=-eq-built (built d) next h = (d, refl, h)

pub raise_if-eq-built {ℓ} :
    {E : Type ℓ} (test : Bool) (failure : Failure) (r : Result E) {e : E}
    → (raise_if test failure >> r) ≡ built e
    → (test ≡ false) × (r ≡ built e)
raise_if-eq-built true failure r h = cc
raise_if-eq-built false failure r h = (refl, h)

-- What holds of the value that a call returns, if it returns one.
pub data Ensures {ℓ} {A : Type ℓ} (P : A → Type 0) : Result A → Type ℓ where
  returns : {a : A} → P a → Ensures P (built a)
  fails : {e : Failure} → Ensures P (rejected e)

pub Ensures-bind {ℓ κ} :
    {A : Type ℓ} {B : Type κ} {P : A → Type 0} {Q : B → Type 0} {m : Result A} {f : A → Result B}
    → Ensures P m
    → ((a : A) → P a → Ensures Q (f a))
    → Ensures Q (m >>= f)
Ensures-bind (returns h) k = k _ h
Ensures-bind fails k = fails

pub Ensures-raise_if {ℓ} :
    {B : Type ℓ} {Q : B → Type 0} (test : Bool) (e : Failure) {m : Result B}
    → Ensures Q m
    → Ensures Q (raise_if test e >> m)
Ensures-raise_if true e h = fails
Ensures-raise_if false e h = h

pub Ensures-if {ℓ} :
    {B : Type ℓ} {Q : B → Type 0} (test : Bool) {m n : Result B}
    → Ensures Q m
    → Ensures Q n
    → Ensures Q (if test then m else n)
Ensures-if true h k = h
Ensures-if false h k = k

pub Ensures-built {ℓ} :
    {A : Type ℓ} {P : A → Type 0} {m : Result A} (a : A) → Ensures P m → m ≡ built a → P a
Ensures-built {P} a (returns {a = a'} h) e = let same : a' ≡ a = cc in subst P same h
Ensures-built a fails e = cc
