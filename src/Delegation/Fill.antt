-- ===== src/Delegation/Fill.antt =====
-- The delegator placeholder of clawmes/delegation/executor.py (`_fill_delegator`).
pub mod Revoke
use clawmes.Base.{ℕ, zero, suc, List, [], ◌∷◌, ◌++◌, if◌then◌else◌, replicate}
use clawmes.Delegation.Hex.{Text, rjust, has_text, replace, lower}

abbrev pub zero_word : Text
zero_word = replicate 64 b'0'

abbrev drop2 : Text → Text
drop2 (x ∷ y ∷ s) = s
drop2 _ = []

-- The delegator address as a 32-byte word.
unfoldable pub padded : Text → Text
padded delegator = rjust 64 b'0' (lower (drop2 delegator))

unfoldable pub fill_delegator : Text → Text → Text
fill_delegator call_data delegator =
    if has_text zero_word call_data
    then replace call_data zero_word (padded delegator)
    else call_data
