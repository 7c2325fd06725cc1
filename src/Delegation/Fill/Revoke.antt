-- ===== src/Delegation/Fill/Revoke.antt =====
-- What the placeholder does to the call data of an ERC-20 revoke, `approve(spender, 0)`.
use clawmes.Base.{
  ℕ, zero, suc, ◌+◌, ◌-◌, ◌*◌, ◌/◌, ◌%◌, ◌^◌, ◌<◌, ◌≡◌, refl, sym, ap, ◌∙◌, ◌≡⟨◌⟩◌, ◌∎, ◌≢◌, Bool,
  true, false, ◌||◌, some, [], ◌∷◌, ◌++◌, arith, lt→ltb, length, replicate, length-append, All,
}
use clawmes.Base.Int.{pos}
use clawmes.Delegation.Hex.{
  Text, Bytes, codes, hex, hex_digit, big_endian, starts_with, has_text, replace_from, replace,
  lower, rjust,
}
use clawmes.Delegation.Encoding.{addr_bytes, to_bytes32, address_word, encode_erc20_approve}
use clawmes.Delegation.Fill.{zero_word, padded, fill_delegator}
use mathlib.Core.List.{append-nil, append_assoc}
use native.Mathlib.Nat.{pow-suc}

-- A run of zeros longer than the distance to a character that is no zero does not match.
starts_with_blocked :
    (n : ℕ) (r rest : Text) (c : ℕ)
    → length r < n
    → c ≢ b'0'
    → starts_with (replicate n b'0') (r ++ c ∷ rest) ≡ false
starts_with_blocked zero r rest c h ne = absurd (omega arith)
starts_with_blocked (suc n) [] rest c h ne = ground arith
starts_with_blocked (suc n) (x ∷ r) rest c h ne = ground (arith, starts_with_blocked n r rest c)

-- Up to such a character nothing is replaced.
replace_from_blocked :
    (r rest new : Text) (c : ℕ)
    → length r < 64
    → c ≢ b'0'
    → replace_from 0 zero_word new (r ++ c ∷ rest) ≡ r ++ c ∷ replace_from 0 zero_word new rest
unfolding replace_from
replace_from_blocked [] rest new c h ne = rw (starts_with_blocked 64 [] rest c h ne)
replace_from_blocked (x ∷ r) rest new c h ne =
    rw (starts_with_blocked 64 (x ∷ r) rest c h ne)
      (ap (◌∷◌ x) (replace_from_blocked r rest new c (omega arith) ne))

replace_from_hit : (new : Text) → replace_from 0 zero_word new zero_word ≡ new
unfolding replace_from
replace_from_hit new = append-nil new

hex_digit-ne-zero : (n : ℕ) → n ≢ 0 → hex_digit n ≢ b'0'
hex_digit-ne-zero n h = ground arith

hex-append : (xs ys : Bytes) → hex (xs ++ ys) ≡ hex xs ++ hex ys
hex-append [] ys = refl
hex-append (x ∷ xs) ys = rw (hex-append xs ys)

length-hex : (xs : Bytes) → length (hex xs) ≡ 2 * length xs
length-hex [] = omega arith
length-hex (x ∷ xs) = omega (arith, length-hex xs)

-- Reading bytes as a number, the most significant first.
abbrev pub from_big_endian : ℕ → Bytes → ℕ
from_big_endian n [] = n
from_big_endian n (x ∷ xs) = from_big_endian (n * 256 + x) xs

big_endian-from :
    (xs : Bytes) (k n : ℕ)
    → All (λ x. x < 256) xs
    → big_endian (length xs + k) (from_big_endian n xs) ≡ big_endian k n ++ xs
unfolding big_endian
big_endian-from [] k n h = let e : 0 + k ≡ k = omega arith in rw e (sym (append-nil _))
big_endian-from (x ∷ xs) k n (hx, h) =
    let shift : suc (length xs) + k ≡ length xs + suc k = omega arith in
    let quotient : (n * 256 + x) / 256 ≡ n = omega arith in
    let rest : (n * 256 + x) % 256 ≡ x = omega arith in
    rw shift (
      big_endian-from xs (suc k) (n * 256 + x) h
      ∙ rw (quotient, rest) (append_assoc (big_endian k n) (x ∷ []) xs))

from_big_endian-lt :
    (xs : Bytes) (n : ℕ) → All (λ x. x < 256) xs → from_big_endian n xs < (n + 1) * 256 ^ length xs
from_big_endian-lt [] n h = omega arith
from_big_endian-lt (x ∷ xs) n (hx, h) =
    rw pow-suc (grind (arith, from_big_endian-lt xs (n * 256 + x) h))

addr_bytes-length : (s : Text) (raw : Bytes) → addr_bytes s ≡ some raw → length raw ≡ 20
unfolding addr_bytes
addr_bytes-length s raw h = ground arith

lower-hex_digit : (n : ℕ) → n < 16 → lower (hex_digit n ∷ []) ≡ hex_digit n ∷ []
unfolding lower
lower-hex_digit n h = ground arith

lower-hex : (xs : Bytes) → All (λ x. x < 256) xs → lower (hex xs) ≡ hex xs
unfolding lower
lower-hex [] h = refl
lower-hex (x ∷ xs) (hx, h) =
    ground (arith, lower-hex_digit (x / 16), lower-hex_digit (x % 16), lower-hex xs h)

or_true : (a : Bool) → (a || true) ≡ true
or_true true = refl
or_true false = refl

has_zero_word : (p : Text) → has_text zero_word (p ++ zero_word) ≡ true
has_zero_word [] = refl
has_zero_word (x ∷ p) = rw (has_zero_word p) (or_true (starts_with zero_word (x ∷ p ++ zero_word)))

-- The part of an address word in front of its last digit.
abbrev word_front : Bytes → ℕ → Text
word_front r x = replicate 24 b'0' ++ (hex r ++ hex_digit (x / 16) ∷ [])

address_word-front :
    (r : Bytes) (x : ℕ)
    → length (r ++ x ∷ []) ≡ 20
    → address_word (r ++ x ∷ []) ≡ word_front r x ++ hex_digit (x % 16) ∷ []
address_word-front r x h =
    let room : 32 - length (r ++ x ∷ []) ≡ 12 = omega arith in
    rw room (
      rw (hex-append r (x ∷ [])) (
        ap (λ (t : Text). replicate 24 b'0' ++ t)
          (sym (append_assoc (hex r) (hex_digit (x / 16) ∷ []) (hex_digit (x % 16) ∷ [])))))

length-word_front : (r : Bytes) (x : ℕ) → length (r ++ x ∷ []) ≡ 20 → length (word_front r x) ≡ 63
length-word_front r x h =
    omega (
      arith,
      length-append r (x ∷ []),
      length-append (hex r) (hex_digit (x / 16) ∷ []),
      length-hex r,
    )

replace_word :
    (r : Bytes) (x : ℕ) (new : Text)
    → length (r ++ x ∷ []) ≡ 20
    → x % 16 ≢ 0
    → replace_from 0 zero_word new (address_word (r ++ x ∷ []) ++ zero_word)
      ≡ address_word (r ++ x ∷ []) ++ new
replace_word r x new h ne =
    let front : Text = word_front r x in
    let c : ℕ = hex_digit (x % 16) in
    let short : length front < 64 = omega (arith, length-word_front r x h) in
    rw (address_word-front r x h) (
      replace_from 0 zero_word new ((front ++ c ∷ []) ++ zero_word)
      ≡⟨ ap (replace_from 0 zero_word new) (append_assoc front (c ∷ []) zero_word) ⟩
        replace_from 0 zero_word new (front ++ c ∷ zero_word)
      ≡⟨ replace_from_blocked front zero_word new c short (hex_digit-ne-zero (x % 16) ne) ⟩
        front ++ c ∷ replace_from 0 zero_word new zero_word
      ≡⟨ ap (λ (t : Text). front ++ c ∷ t) (replace_from_hit new) ⟩ front ++ c ∷ new
      ≡⟨ sym (append_assoc front (c ∷ []) new) ⟩ (front ++ c ∷ []) ++ new ∎)

-- In the call data of `approve(spender, 0)` the placeholder is found at the amount, and nowhere
-- before it.
fill-approve :
    (r : Bytes) (x : ℕ) (delegator : Text)
    → length (r ++ x ∷ []) ≡ 20
    → x % 16 ≢ 0
    → fill_delegator (codes "0x095ea7b3" ++ (address_word (r ++ x ∷ []) ++ zero_word)) delegator
      ≡ codes "0x095ea7b3" ++ (address_word (r ++ x ∷ []) ++ padded delegator)
unfolding fill_delegator replace
fill-approve r x delegator h ne = rw (
  has_zero_word (codes "0x095ea7b3" ++ address_word (r ++ x ∷ [])),
  replace_from_blocked (codes "0x095ea7b") (address_word (r ++ x ∷ []) ++ zero_word)
      (padded delegator) b'3' (omega arith) (omega arith),
  replace_word r x (padded delegator) h ne,
)

padded-hex :
    (d : Bytes)
    → length d ≡ 20
    → All (λ x. x < 256) d
    → padded (codes "0x" ++ hex d) ≡ address_word d
unfolding padded
padded-hex d h hb =
    let room : 32 - length d ≡ 12 = omega arith in
    let gap : 64 - length (hex d) ≡ 24 = omega (arith, length-hex d) in
    rw (lower-hex d hb, gap, room) refl

from_big_endian-lt_word :
    (d : Bytes) → length d ≡ 20 → All (λ x. x < 256) d → from_big_endian 0 d < 2 ^ 256
from_big_endian-lt_word d h hb =
    let bound : from_big_endian 0 d < 1 * 256 ^ 20 = rw h at (from_big_endian-lt d 0 hb) in
    omega arith

big_endian-address :
    (d : Bytes)
    → length d ≡ 20
    → All (λ x. x < 256) d
    → big_endian 32 (from_big_endian 0 d) ≡ rjust 32 0 d
big_endian-address d h hb =
    let room : 32 - length d ≡ 12 = omega arith in
    let zeros : big_endian 12 0 ≡ replicate 12 0 = unfold big_endian in refl in
    rw room (rw h at (big_endian-from d 12 0 hb) ∙ ap (λ (t : Bytes). t ++ d) zeros)

-- The 256-bit word of an address read as a number.
to_bytes32-address :
    (d : Bytes)
    → length d ≡ 20
    → All (λ x. x < 256) d
    → to_bytes32 (pos (from_big_endian 0 d)) ≡ some (rjust 32 0 d)
unfolding to_bytes32
to_bytes32-address d h hb =
    rw (lt→ltb _ _ (from_big_endian-lt_word d h hb)) (ap some (big_endian-address d h hb))

-- A revoke that is redeemed for a delegator at the address `d` is sent as an approval of the number
-- that the address stands for, whatever the spender whose last hexadecimal digit is not 0.
pub revoke-becomes_approval :
    (spender : Text) (r d : Bytes) (x : ℕ)
    → addr_bytes spender ≡ some (r ++ x ∷ [])
    → x % 16 ≢ 0
    → length d ≡ 20
    → All (λ y. y < 256) d
    → (sent : Text) × (encode_erc20_approve spender (pos 0) ≡ some sent)
      × (encode_erc20_approve spender (pos (from_big_endian 0 d))
          ≡ some (fill_delegator sent (codes "0x" ++ hex d)))
unfolding encode_erc20_approve
revoke-becomes_approval spender r d x e ne h hb =
    let size : length (r ++ x ∷ []) ≡ 20 = addr_bytes-length spender (r ++ x ∷ []) e in
    (
      codes "0x095ea7b3" ++ (address_word (r ++ x ∷ []) ++ zero_word),
      rw e (unfold to_bytes32 big_endian in refl),
      rw (
        e,
        to_bytes32-address d h hb,
        fill-approve r x (codes "0x" ++ hex d) size ne,
        padded-hex d h hb,
      ),
    )
