-- ===== src/Policy/Usage/Evict.antt =====
-- Laws of the buckets and of eviction.
use clawmes.Base.{
  ℕ, ◌≤◌, ◌≡◌, refl, sym, ap, ◌∙◌, String, Bool, true, false, Option, some, List, [], ◌∷◌, ◌++◌,
  arith, if◌then◌else◌, Bool-cases, inl, inr, eq_iff,
}
use clawmes.Policy.Usage.{Buckets, same_key, bucket_of, put_bucket, times_of, or_empty, evict}

bucket_of-put_bucket :
    (user tool u t : String) (times : List ℕ) (st : Buckets)
    → bucket_of u t (put_bucket user tool times st)
      ≡ (if same_key user tool u t then some times else bucket_of u t st)
bucket_of-put_bucket user tool u t times [] = refl
bucket_of-put_bucket user tool u t times ((a, b, old) ∷ rest) = ground (
  arith,
  eq_iff a user,
  eq_iff b tool,
  eq_iff a u,
  eq_iff b t,
  eq_iff user u,
  eq_iff tool t,
  bucket_of-put_bucket user tool u t times rest,
)

or_empty-if :
    (b : Bool) (times : List ℕ) (o : Option (List ℕ))
    → or_empty (if b then some times else o) ≡ (if b then times else or_empty o)
or_empty-if true times o = refl
or_empty-if false times o = refl

pub times_of-put_bucket :
    (user tool u t : String) (times : List ℕ) (st : Buckets)
    → times_of u t (put_bucket user tool times st)
      ≡ (if same_key user tool u t then times else times_of u t st)
times_of-put_bucket user tool u t times st =
    ap or_empty (bucket_of-put_bucket user tool u t times st)
    ∙ or_empty-if (same_key user tool u t) times (bucket_of u t st)

pub same_key_eq : (user tool u t : String) → same_key user tool u t ≡ true → (user ≡ u) × (tool ≡ t)
same_key_eq user tool u t h = (ground (arith, eq_iff user u), ground (arith, eq_iff tool t))

-- What was put under a key is read back there, and the other keys keep what they had.
pub if_same_key :
    (user tool u t : String) (f : String → String → List ℕ) (g : List ℕ → List ℕ)
    → (if same_key user tool u t then g (f user tool) else f u t)
      ≡ (if same_key user tool u t then g (f u t) else f u t)
if_same_key user tool u t f g = elim (Bool-cases (same_key user tool u t)) [
  | inl same ↦ let (e, e') = same_key_eq user tool u t same in rw (same, e, e')
  | inr other ↦ rw other refl
]

module _ (window : ℕ) where
  -- Evicting early does not change what a later eviction leaves.
  evict-append_evict :
      (now later : ℕ) (times more : List ℕ)
      → now ≤ later
      → evict window later (evict window now times ++ more) ≡ evict window later (times ++ more)
  unfolding evict
  evict-append_evict now later [] more h = refl
  evict-append_evict now later (t ∷ times) more h =
      ground (arith, evict-append_evict now later times more h)

  -- What an eviction leaves of a longer list depends on what it leaves of the front.
  pub evict-append :
      (now : ℕ) (times times' more : List ℕ)
      → evict window now times ≡ evict window now times'
      → evict window now (times ++ more) ≡ evict window now (times' ++ more)
  evict-append now times times' more h =
      sym (evict-append_evict now now times more (omega arith))
      ∙ ap (λ (l : List ℕ). evict window now (l ++ more)) h
      ∙ evict-append_evict now now times' more (omega arith)

  pub evict-evict :
      (now later : ℕ) (times : List ℕ)
      → now ≤ later
      → evict window later (evict window now times) ≡ evict window later times
  unfolding evict
  evict-evict now later [] h = refl
  evict-evict now later (t ∷ times) h = ground (arith, evict-evict now later times h)
