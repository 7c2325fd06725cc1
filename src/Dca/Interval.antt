-- ===== src/Dca/Interval.antt =====
-- clawmes/commands/dca.py: `_parse_interval` and `_format_interval`. A text is the list of its code
-- points. The classes `\s` and `\d` of Python's regular expressions are parameters. `int` refuses a
-- text of more than 4300 digits with an exception, which is not modelled.
pub mod RoundTrip
use clawmes.Base.{
  ℕ, zero, suc, ◌+◌, ◌*◌, ◌/◌, ◌%◌, Bool, true, false, ◌&&◌, ◌||◌, Option, none, some, List, [],
  ◌∷◌, ltb, leb, ◌==◌, if◌then◌else◌,
}
use clawmes.Delegation.Hex.{Text, ◌>>=◌}

-- `\s`, and the value that `int` gives a character of `\d`.
pub record Classes : Type 0 where
  pub is_space : ℕ → Bool
  pub digit_of : ℕ → Option ℕ

-- The seconds of a unit letter, `_INTERVAL_UNITS[unit.lower()]`
abbrev pub unit_seconds : ℕ → Option ℕ
unit_seconds c =
    if c == 109 || c == 77
    then some 60
    else (if c == 104 || c == 72
        then some 3600
        else (if c == 100 || c == 68
            then some 86400
            else (if c == 119 || c == 87 then some 604800 else none)))

abbrev pub min_interval_seconds : ℕ
min_interval_seconds = 60

abbrev pub max_interval_seconds : ℕ
max_interval_seconds = 31_536_000

module _ (classes : Classes) where
  unfoldable pub skip_spaces : Text → Text
  skip_spaces [] = []
  skip_spaces (c ∷ s) = let rest = skip_spaces s in if classes.is_space c then rest else c ∷ s

  -- The digits that follow a number read so far, and the rest of the text.
  unfoldable pub read_digits : ℕ → Text → ℕ × Text
  read_digits n [] = (n, [])
  read_digits n (c ∷ s) = elim (classes.digit_of c) [
    | some d ↦ read_digits (n * 10 + d) s
    | none ↦ (n, c ∷ s)
  ]

  -- `(\d+)`
  unfoldable pub read_number : Text → Option (ℕ × Text)
  read_number [] = none
  read_number (c ∷ s) = elim (classes.digit_of c) [ some d ↦ some (read_digits d s) | none ↦ none ]

  -- `\s*([mhdwMHDW])\s*$`
  unfoldable pub read_unit : Text → Option ℕ
  read_unit s = elim (skip_spaces s) [
    | [] ↦ none
    | c ∷ rest ↦ elim (skip_spaces rest) [ [] ↦ unit_seconds c | _ ∷ _ ↦ none ]
  ]

  unfoldable pub parse_interval : Text → Option ℕ
  parse_interval raw = do
    (n, rest) ← read_number (skip_spaces raw)
    unit ← read_unit rest
    let seconds = n * unit
    if ltb seconds min_interval_seconds || ltb max_interval_seconds seconds
        then none
        else some seconds

-- A number in decimal before a text; the fuel bounds its digits.
unfoldable pub decimal : ℕ → ℕ → Text → Text
decimal zero n out = out
decimal (suc fuel) n out =
    let rest = decimal fuel (n / 10) ((48 + n % 10) ∷ out) in
    if ltb n 10 then (48 + n) ∷ out else rest

-- `f"{n}{unit}"`, whose number has at most `n + 1` digits
abbrev pub with_unit : ℕ → ℕ → Text
with_unit n unit = decimal (suc n) n (unit ∷ [])

unfoldable pub format_interval : ℕ → Text
format_interval seconds =
    if seconds % 604800 == 0
    then with_unit (seconds / 604800) 119
    else (if seconds % 86400 == 0
        then with_unit (seconds / 86400) 100
        else (if seconds % 3600 == 0
            then with_unit (seconds / 3600) 104
            else with_unit (seconds / 60) 109))
