-- ===== src/TokenDecimals.antt =====
-- clawmes/services/token_decimals.py: the decimals of tokens, verified and assumed. What the RPC
-- call of `_fetch_and_cache` gives is an argument, `none` for a failure.
pub mod Strict
pub mod Tests
use clawmes.Base.{
  ℕ, String, Bool, true, false, not, ◌&&◌, Option, none, some, List, [], ◌∷◌, ◌==◌, if◌then◌else◌,
  keep_if, str_eq,
}

-- An entry of a table; the address is in lower case.
pub record Entry : Type 0 where
  pub chain_id : ℕ
  pub address : String
  pub decimals : ℕ

-- `_cache` and `_fallback`; the order of a dictionary's entries is not observed.
pub record Tables : Type 0 where
  pub cache : List Entry
  pub fallback : List Entry

abbrev pub seed : List Entry
seed =
    record { chain_id = 1; address = "0xa0b86991c6218b36c1d19d4a2e9eb0ce3606eb48"; decimals = 6 }
    ∷ record {
      chain_id = 8453;
      address = "0x833589fcd6edb6e08f4c7c32d4f71b54bda02913";
      decimals = 6;
    }
    ∷ record {
      chain_id = 42161;
      address = "0xaf88d065e77c8cc2239327c5edb3a432268e5831";
      decimals = 6;
    }
    ∷ record { chain_id = 10; address = "0x0b2c639c533813f4aa9d7837caf62653d097ff85"; decimals = 6 }
    ∷ record {
      chain_id = 137;
      address = "0x3c499c542cef5e3811e1192ce70d8cc03d5c3359";
      decimals = 6;
    }
    ∷ record { chain_id = 1; address = "0xdac17f958d2ee523a2206206994597c13d831ec7"; decimals = 6 }
    ∷ record {
      chain_id = 42161;
      address = "0xfd086bc7cd5c481dcc9c85ebe478a1c0b69fcbb9";
      decimals = 6;
    }
    ∷ record { chain_id = 1; address = "0xc02aaa39b223fe8d0a0e5c4f27ead9083c756cc2"; decimals = 18 }
    ∷ record {
      chain_id = 8453;
      address = "0x4200000000000000000000000000000000000006";
      decimals = 18;
    }
    ∷ record {
      chain_id = 42161;
      address = "0x82af49447d8a07e3bd95bd0d56f35241523fbab1";
      decimals = 18;
    }
    ∷ record {
      chain_id = 10;
      address = "0x4200000000000000000000000000000000000006";
      decimals = 18;
    }
    ∷ record { chain_id = 1; address = "0x6b175474e89094c44da98b954eedeac495271d0f"; decimals = 18 }
    ∷ record {
      chain_id = 8453;
      address = "0x50c5725949a6f0c72e6c4a641f24049a917db0cb";
      decimals = 18;
    }
    ∷ []

abbrev pub initial : Tables
initial = record { cache = seed; fallback = [] }

-- The decimals that the loose path assumes.
abbrev pub assumed : ℕ
assumed = 18

abbrev pub has_key : ℕ → String → Entry → Bool
has_key chain_id address e = e.chain_id == chain_id && str_eq e.address address

unfoldable pub find_decimals : ℕ → String → List Entry → Option ℕ
find_decimals chain_id address [] = none
find_decimals chain_id address (e ∷ table) =
    if has_key chain_id address e then some e.decimals else find_decimals chain_id address table

unfoldable pub drop_key : ℕ → String → List Entry → List Entry
drop_key chain_id address table = keep_if (λ e. not (has_key chain_id address e)) table

unfoldable pub put : ℕ → String → ℕ → List Entry → List Entry
put chain_id address decimals table =
    record { chain_id = chain_id; address = address; decimals = decimals }
    ∷ drop_key chain_id address table

-- `_fetch_and_cache`
unfoldable pub fetch_and_cache : Option ℕ → ℕ → String → Tables → Option ℕ × Tables
fetch_and_cache none chain_id address t = (none, t)
fetch_and_cache (some decimals) chain_id address t = (
  some decimals,
  record {
    cache = put chain_id address decimals t.cache;
    fallback = drop_key chain_id address t.fallback;
  },
)

-- `get_strict`: `none` is the TokenDecimalsError.
unfoldable pub get_strict : Option ℕ → ℕ → String → Tables → Option ℕ × Tables
get_strict reading chain_id address t = elim (find_decimals chain_id address t.cache) [
  | some n ↦ (some n, t)
  | none ↦ fetch_and_cache reading chain_id address t
]

-- `get` on a failed fetch
abbrev pub or_assumed : ℕ → String → Option ℕ × Tables → ℕ × Tables
or_assumed chain_id address (some n, t) = (n, t)
or_assumed chain_id address (none, t) =
    (assumed, record t { fallback = put chain_id address assumed t.fallback })

unfoldable pub get : Option ℕ → ℕ → String → Tables → ℕ × Tables
get reading chain_id address t = elim (find_decimals chain_id address t.cache) [
  | some n ↦ (n, t)
  | none ↦ elim (find_decimals chain_id address t.fallback) [
    | some n ↦ (n, t)
    | none ↦ or_assumed chain_id address (fetch_and_cache reading chain_id address t)
  ]
]

unfoldable pub peek : ℕ → String → Tables → Option ℕ
peek chain_id address t = elim (find_decimals chain_id address t.cache) [
  | some n ↦ some n
  | none ↦ find_decimals chain_id address t.fallback
]

abbrev pub stop : Tables → Tables
stop t = record { cache = []; fallback = [] }
