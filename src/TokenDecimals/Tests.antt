-- ===== src/TokenDecimals/Tests.antt =====
-- A token of six decimals whose call fails at first.
use clawmes.Base.{ℕ, ◌≡◌, refl, String, none, some}
use clawmes.TokenDecimals.{find_decimals, fetch_and_cache, get, get_strict}
use clawmes.TokenDecimals.Strict.{fails, gives, started, loose, IsVerified, get_strict-IsVerified}

abbrev Six : ℕ → String → ℕ → Type 0
Six chain_id address n = n ≡ 6

get_strict-IsVerified_example : IsVerified Six 8453 "0xab" 6
unfolding get_strict get find_decimals fetch_and_cache
get_strict-IsVerified_example =
    get_strict-IsVerified Six (some 6) 8453 "0xab" 6 (loose none 8453 "0xab" fails started)
      (gives refl) refl
