-- ===== src/Delegation/Hex.antt =====
-- Texts of hexadecimal digits as the delegation encoder handles them: what
-- clawmes/delegation/encoding.py uses of `bytes.fromhex`, `bytes.hex`, `int.to_bytes`, `rjust`
-- and `str.replace`. A text is the list of its code points and a byte string that of its bytes.
use Prim.Native.Char.{code}
use clawmes.Base.{
  ℕ, zero, suc, ◌+◌, ◌-◌, ◌*◌, ◌/◌, ◌%◌, String, Bool, true, false, ◌&&◌, ◌||◌, Option, none, some,
  List, [], ◌∷◌, ◌++◌, ltb, leb, ◌==◌, if◌then◌else◌, length, replicate,
}

abbrev pub Text : Type 0
Text = List ℕ

abbrev pub Bytes : Type 0
Bytes = List ℕ

abbrev pub codes : String → Text
codes String.[] = []
codes (String.◌∷◌ c s) = code c ∷ codes s

infixl 5 ◌>>=◌
abbrev pub ◌>>=◌ {ℓ κ} : {A : Type ℓ} {B : Type κ} → Option A → (A → Option B) → Option B
none >>= f = none
some a >>= f = f a

-- ASCII white space, which `bytes.fromhex` skips between two bytes.
abbrev is_space : ℕ → Bool
is_space c = c == 32 || (leb 9 c && leb c 13)

abbrev digit : ℕ → Option ℕ
digit c =
    if leb 48 c && leb c 57
    then some (c - 48)
    else (if leb 97 c && leb c 102
        then some (c - 87)
        else (if leb 65 c && leb c 70 then some (c - 55) else none))

unfoldable pub from_hex : Text → Option Bytes
from_hex [] = some []
from_hex (a ∷ []) = if is_space a then some [] else none
from_hex (a ∷ b ∷ s) =
    let skipped = from_hex (b ∷ s) in
    let rest = from_hex s in
    let pair = (do hi ← digit a; lo ← digit b; raw ← rest; some ((hi * 16 + lo) ∷ raw)) in
    if is_space a then skipped else pair

abbrev pub hex_digit : ℕ → ℕ
hex_digit n = if ltb n 10 then 48 + n else 87 + n

-- `raw.hex()`
abbrev pub hex : Bytes → Text
hex [] = []
hex (b ∷ raw) = hex_digit (b / 16) ∷ hex_digit (b % 16) ∷ hex raw

-- `n.to_bytes(k, "big")` for a number that fits.
unfoldable pub big_endian : ℕ → ℕ → Bytes
big_endian zero n = []
big_endian (suc k) n = big_endian k (n / 256) ++ (n % 256) ∷ []

abbrev pub rjust {ℓ} : {A : Type ℓ} → ℕ → A → List A → List A
rjust k fill xs = replicate (k - length xs) fill ++ xs

abbrev pub starts_with : Text → Text → Bool
starts_with [] s = true
starts_with (p ∷ ps) [] = false
starts_with (p ∷ ps) (c ∷ s) = p == c && starts_with ps s

-- `pat in s`, for a pattern that is not empty
abbrev pub has_text : Text → Text → Bool
has_text pat [] = false
has_text pat (c ∷ s) = starts_with pat (c ∷ s) || has_text pat s

-- `s.replace(pat, new)`, for a pattern that is not empty: from left to right, with no overlap.
-- The first argument counts the characters of a match that are still to be passed over.
unfoldable pub replace_from : ℕ → Text → Text → Text → Text
replace_from k pat new [] = []
replace_from (suc k) pat new (c ∷ s) = replace_from k pat new s
replace_from zero pat new (c ∷ s) =
    let hit = new ++ replace_from (length pat - 1) pat new s in
    let miss = c ∷ replace_from zero pat new s in if starts_with pat (c ∷ s) then hit else miss

unfoldable pub replace : Text → Text → Text → Text
unfolding replace_from
replace s pat new = replace_from 0 pat new s

unfoldable pub lower : Text → Text
lower [] = []
lower (c ∷ s) = (if leb 65 c && leb c 90 then c + 32 else c) ∷ lower s
