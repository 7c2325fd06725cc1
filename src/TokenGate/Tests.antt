-- ===== src/TokenGate/Tests.antt =====
-- A wallet with ten million tokens.
use clawmes.Base.{ℕ, ◌*◌, ◌^◌, ◌≡◌, refl, String}
use clawmes.TokenGate.{holder, tier_of, fresh, resolve, check_tier}
use clawmes.TokenGate.Recent.{empty, resolved, IsBackedBy, check_tier-IsBackedBy}

abbrev wealth : ℕ
wealth = 10_000_000 * 10 ^ 18

-- At every time the wallet has the same balance.
abbrev Steady : String → ℕ → ℕ → Type 0
Steady key t b = b ≡ wealth

check_tier-IsBackedBy_example : IsBackedBy Steady holder "0xab" 120
unfolding check_tier resolve fresh tier_of
check_tier-IsBackedBy_example =
    check_tier-IsBackedBy Steady holder 120 wealth "0xab" (resolved 100 wealth "0xab" refl empty)
      refl refl
