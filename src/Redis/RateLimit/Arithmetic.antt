-- ===== src/Redis/RateLimit/Arithmetic.antt =====
-- The double arithmetic that the script of packages/redis/src/rate-limit/gcra.ts rests on. Lua
-- keeps numbers as doubles, which hold every whole number up to 2 ^ 53; past that a product is
-- rounded, and a quotient is always an estimate. Only what the script relies on is assumed.
use nxgt_data.Prelude.{ℕ, ◌+◌, ◌*◌, ◌≤◌, ◌<◌, ◌≡◌, inl, inr, arith, ltb, leb, Bool-cases}

-- 2 ^ 53 - 1, the script's `SAFE`.
abbrev pub safe : ℕ
safe = 9007199254740991

pub record Doubles : Type 0 where
  -- `math.ceil(a / b)` and `math.floor(a / b)`
  pub ceil_quot : ℕ → ℕ → ℕ
  pub floor_quot : ℕ → ℕ → ℕ
  -- `a * b`
  pub product : ℕ → ℕ → ℕ
  -- An estimate is within one of the answer.
  pub ceil_quot_low : (a b : ℕ) → a ≤ safe + 1 → 0 < b → b ≤ safe + 1 → a ≤ ceil_quot a b * b + b
  pub ceil_quot_high :
      (a b : ℕ) → a ≤ safe + 1 → 0 < b → b ≤ safe + 1 → ceil_quot a b * b < a + 2 * b
  pub floor_quot_low :
      (a b : ℕ) → a ≤ safe + 1 → 0 < b → b ≤ safe + 1 → a < floor_quot a b * b + 2 * b
  pub floor_quot_high : (a b : ℕ) → a ≤ safe + 1 → 0 < b → b ≤ safe + 1 → floor_quot a b * b ≤ a + b
  -- A product up to 2 ^ 53 is exact, and a larger one is not rounded below it.
  pub product_exact : (a b : ℕ) → a * b ≤ safe + 1 → product a b ≡ a * b
  pub product_large : (a b : ℕ) → safe + 1 < a * b → safe + 1 ≤ product a b

module _ (lua : Doubles) where
  -- A comparison with a number up to 2 ^ 53 is not changed by the rounding.
  pub leb-product : (a x b : ℕ) → a ≤ safe + 1 → leb a (lua.product x b) ≡ leb a (x * b)
  leb-product a x b h = elim (Bool-cases (leb (x * b) (safe + 1))) [
    | inl small ↦ ground (arith, lua.product_exact x b)
    | inr large ↦ ground (arith, lua.product_large x b)
  ]

  pub ltb-product : (a x b : ℕ) → a ≤ safe + 1 → ltb (lua.product x b) a ≡ ltb (x * b) a
  ltb-product a x b h = elim (Bool-cases (leb (x * b) (safe + 1))) [
    | inl small ↦ ground (arith, lua.product_exact x b)
    | inr large ↦ ground (arith, lua.product_large x b)
  ]
