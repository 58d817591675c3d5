-- ===== src/Redis/RateLimit/Drain.antt =====
-- How a stored state drains with time, in exact numbers.
use native.Mathlib.Nat.{le_trans}
use nxgt_data.Prelude.{
  ℕ, max, ◌+◌, ◌-◌, ◌*◌, ◌≤◌, ◌≡◌, refl, inl, inr, arith, ltb, leb, Bool-cases, Option, some, none,
  List,
}
use nxgt_data.Redis.RateLimit.Arithmetic.{Doubles, safe}
use nxgt_data.Redis.RateLimit.{Rate, tolerance, ceildiv, state, drain}
use nxgt_data.Redis.RateLimit.Rounding.{IsSound}
use nxgt_data.Redis.RateLimit.Stored.{IsTrusted, state_sound}

-- The ticks still ahead at `now`, with no rounding.
abbrev pub remains : Rate → ℕ → ℕ → ℕ → ℕ
remains r now base ahead = ahead - (now - base) * r.limit

zero_mul : (l : ℕ) → (0 * l) ≡ 0
zero_mul l = omega arith

module _ (lua : Doubles) (r : Rate) where
  -- The base does not go back, and the drain is exact whatever the rounding of the product.
  pub drain_exact :
      (now base ahead : ℕ)
      → ahead ≤ safe
      → drain lua r now (some (base, ahead)) ≡ (max now base, remains r now base ahead)
  unfolding drain
  drain_exact now base ahead small = elim (Bool-cases (ltb now base)) [
    | inl early ↦ rw early (ground (arith, zero_mul r.limit))
    | inr late ↦ elim (Bool-cases (leb ((now - base) * r.limit) (safe + 1))) [
      | inl exact ↦ ground (arith, lua.product_exact (now - base) r.limit)
      | inr large ↦ ground (arith, lua.product_large (now - base) r.limit)
    ]
  ]

  -- The two locals after the drain, whatever the stored text.
  pub record IsDrained (now base d : ℕ) : Type 0 where
    pub d_fits : d ≤ tolerance r
    pub base_late : now ≤ base
    pub base_safe : base ≤ safe
    pub base_near : base ≤ now + ceildiv lua (tolerance r) r.limit

  drain_bounds :
      (now : ℕ) (st : Option (ℕ × ℕ))
      → IsSound r
      → now ≤ safe
      → ((b a : ℕ) → st ≡ some (b, a) → IsTrusted lua r now b a)
      → IsDrained now (drain lua r now st).0 (drain lua r now st).1
  unfolding drain
  drain_bounds now none sound h t = record {
    d_fits = omega arith;
    base_late = omega arith;
    base_safe = h;
    base_near = omega arith;
  }
  drain_bounds now (some (b, a)) sound h t =
      let trust = t b a refl in
      let fits = trust.ahead_fits in
      rw (drain_exact now b a (le_trans fits sound.tolerance_safe)) record {
        d_fits = omega arith;
        base_late = omega arith;
        base_safe = omega (arith, trust.base_safe);
        base_near = omega (arith, trust.base_near);
      }

  pub drain-state-IsDrained :
      (now : ℕ) (stored : Option (List ℕ))
      → IsSound r
      → now ≤ safe
      → IsDrained now
          (drain lua r now (state lua r now stored)).0
          (drain lua r now (state lua r now stored)).1
  drain-state-IsDrained now stored sound h =
      drain_bounds now (state lua r now stored) sound h (λ b a e. state_sound lua r now stored e)
