-- ===== src/Redis/RateLimit/Exact.antt =====
-- Exact arithmetic keeps what the script relies on of doubles, so the theorems can be applied.
use nxgt_data.Prelude.{ℕ, ◌+◌, ◌-◌, ◌*◌, ◌/◌, ◌≤◌, ◌<◌, refl, arith}
use nxgt_data.Redis.RateLimit.Arithmetic.{Doubles, safe}

pub exact_ceil_low : (a b : ℕ) → a ≤ safe + 1 → 0 < b → b ≤ safe + 1 → a ≤ (a + b - 1) / b * b + b
exact_ceil_low a b _ h _ = grind arith

pub exact_ceil_high :
    (a b : ℕ) → a ≤ safe + 1 → 0 < b → b ≤ safe + 1 → (a + b - 1) / b * b < a + 2 * b
exact_ceil_high a b _ h _ = grind arith

pub exact_floor_low : (a b : ℕ) → a ≤ safe + 1 → 0 < b → b ≤ safe + 1 → a < a / b * b + 2 * b
exact_floor_low a b _ h _ = grind arith

pub exact_floor_high : (a b : ℕ) → a ≤ safe + 1 → 0 < b → b ≤ safe + 1 → a / b * b ≤ a + b
exact_floor_high a b _ h _ = grind arith

pub exact_large : (a b : ℕ) → safe + 1 < a * b → safe + 1 ≤ a * b
exact_large a b h = omega arith

abbrev pub exact : Doubles
exact = record {
  ceil_quot = λ a b. (a + b - 1) / b;
  floor_quot = λ a b. a / b;
  product = λ a b. a * b;
  ceil_quot_low = exact_ceil_low;
  ceil_quot_high = exact_ceil_high;
  floor_quot_low = exact_floor_low;
  floor_quot_high = exact_floor_high;
  product_exact = λ a b _. refl;
  product_large = exact_large;
}
