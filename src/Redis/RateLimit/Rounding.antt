-- ===== src/Redis/RateLimit/Rounding.antt =====
-- The integer divisions of the script are exact, whatever the estimates: `ceildiv` is the rounded
-- up quotient, `ms` the rounded up milliseconds and `left` the largest cost that fits.
use nxgt_data.Prelude.{
  ℕ, zero, suc, ◌+◌, ◌-◌, ◌*◌, ◌≤◌, ◌<◌, ◌≡◌, refl, true, false, ◌&&◌, inl, inr, arith, ltb, leb,
  ◌==◌, Bool-cases, ◌⊎◌,
}
use native.Mathlib.Decide.{dec_le}
use native.Mathlib.Nat.{le_trans, mul-le-mul_right}
use nxgt_data.Redis.RateLimit.Arithmetic.{Doubles, safe, leb-product, ltb-product}
use nxgt_data.Redis.RateLimit.{
  Rate, unit, tolerance, step_down, step_up, ceildiv, ms, fewer, more, cap, left,
}

-- What the checks of a definition establish.
pub record IsSound (r : Rate) : Type 0 where
  pub limit_pos : 0 < r.limit
  pub limit_safe : r.limit ≤ safe
  pub per_pos : 0 < r.per
  pub burst_pos : 0 < r.burst
  pub tolerance_safe : tolerance r ≤ safe

-- `q * b` one step away.
pred_mul : (q b : ℕ) → 0 < q → (q - 1) * b + b ≡ q * b
pred_mul zero b h = elim h [ ]
pred_mul (suc q) b h = grind arith

suc_mul : (q b : ℕ) → (q + 1) * b ≡ q * b + b
suc_mul q b = grind arith

le_of_mul_lt : (c a b : ℕ) → 0 < b → c * b < a + b → c ≤ a
le_of_mul_lt c a b hb h = elim (dec_le c a) [
  | yes p ↦ p
  | no p ↦ absurd (grind (arith, mul-le-mul_right {m = a + 1} {n = c} b (omega arith)))
]

lt_of_scaled : (m c l t : ℕ) → 0 < l → m < c + 1000 → c * l < t + l → m * l < t + 1000 * l
lt_of_scaled m c l t hl hm hc =
    let bound : (m + 1) * l ≤ (c + 1000) * l = mul-le-mul_right l (omega arith) in
    grind (arith, bound)

room_facts :
    (b u free n : ℕ)
    → (ltb n b && leb ((n + 1) * u) free) ≡ true
    → (n + 1 ≤ b) × ((n + 1) * u ≤ free)
room_facts b u free n e = (ground arith, ground arith)

room_above :
    (b u free n : ℕ) → (n ≡ b) ⊎ (free < n * u + 2 * u) → n + 1 ≤ b → free < (n + 1 + 1) * u
room_above b u free n (inl e) h = absurd (omega arith)
room_above b u free n (inr e) h = omega (arith, suc_mul n u, suc_mul (n + 1) u)

full_facts :
    (b u free n : ℕ)
    → n ≤ b
    → (ltb n b && leb ((n + 1) * u) free) ≡ false
    → (n ≡ b) ⊎ (free < (n + 1) * u)
full_facts b u free n h e = elim (Bool-cases (ltb n b)) [
  | inl below ↦ inr (ground arith)
  | inr above ↦ inl (ground arith)
]

pub unit_pos : (r : Rate) → IsSound r → 0 < unit r
unit_pos r s = omega (arith, s.per_pos)

unit-le : (r : Rate) → IsSound r → unit r ≤ safe + 1
unit-le r s =
    let bound : 1 * unit r ≤ r.burst * unit r = mul-le-mul_right (unit r) s.burst_pos in
    omega (arith, bound, s.tolerance_safe)

module _ (lua : Doubles) (r : Rate) (free n : ℕ) where
  cap_bounds :
      free ≤ tolerance r
      → n * unit r ≤ free + unit r
      → free < n * unit r + 2 * unit r
      → (cap lua r n ≤ r.burst)
        × (cap lua r n * unit r ≤ free + unit r)
        × ((cap lua r n ≡ r.burst) ⊎ (free < cap lua r n * unit r + 2 * unit r))
  unfolding cap
  cap_bounds h high low = elim (Bool-cases (ltb r.burst n)) [
    | inl over ↦
        let scaled : (r.burst + 1) * unit r ≤ n * unit r =
          mul-le-mul_right (unit r) (ground arith) in
        rw over (omega arith, omega (arith, suc_mul r.burst (unit r), scaled), inl refl)
    | inr under ↦ rw under (ground arith, high, inr low)
  ]

  fewer_bounds :
      n ≤ r.burst
      → n * unit r ≤ free + unit r
      → (n ≡ r.burst) ⊎ (free < n * unit r + 2 * unit r)
      → (fewer lua r free n ≤ r.burst)
        × (fewer lua r free n * unit r ≤ free)
        × ((fewer lua r free n ≡ r.burst) ⊎ (free < fewer lua r free n * unit r + 2 * unit r))
  unfolding fewer
  fewer_bounds h high low = ground (arith, pred_mul n (unit r))

  more_bounds :
      n ≤ r.burst
      → n * unit r ≤ free
      → (n ≡ r.burst) ⊎ (free < n * unit r + 2 * unit r)
      → (more lua r free n ≤ r.burst)
        × (more lua r free n * unit r ≤ free)
        × ((more lua r free n ≡ r.burst) ⊎ (free < (more lua r free n + 1) * unit r))
  unfolding more
  more_bounds h high low = elim (Bool-cases (ltb n r.burst && leb ((n + 1) * unit r) free)) [
    | inl room ↦
        let (below, fits) = room_facts r.burst (unit r) free n room in
        rw room (below, fits, inr (room_above r.burst (unit r) free n low below))
    | inr full ↦ rw full (h, high, full_facts r.burst (unit r) free n h full)
  ]

module _ (lua : Doubles) where
  step_down_bounds :
      (a b q : ℕ)
      → a ≤ safe + 1
      → a ≤ q * b + b
      → q * b < a + 2 * b
      → (a ≤ step_down lua a b q * b + b) × (step_down lua a b q * b < a + b)
  unfolding step_down
  step_down_bounds a b q h low high = ground (arith, leb-product lua a (q - 1) b, pred_mul q b)

  step_up_bounds :
      (a b q : ℕ)
      → a ≤ safe + 1
      → a ≤ q * b + b
      → q * b < a + b
      → (a ≤ step_up lua a b q * b) × (step_up lua a b q * b < a + b)
  unfolding step_up
  step_up_bounds a b q h low high = ground (arith, ltb-product lua a q b, suc_mul q b)

  -- `ceildiv` is the least whole number that is not below the quotient.
  pub ceildiv_bounds :
      (a b : ℕ)
      → a ≤ safe + 1
      → 0 < b
      → b ≤ safe + 1
      → (a ≤ ceildiv lua a b * b) × (ceildiv lua a b * b < a + b)
  unfolding ceildiv
  ceildiv_bounds a b ha hb hb' =
      let q = lua.ceil_quot a b in
      let (low, high) =
        step_down_bounds a b q ha (lua.ceil_quot_low a b ha hb hb')
          (lua.ceil_quot_high a b ha hb hb') in
      step_up_bounds a b (step_down lua a b q) ha low high

  pub ceildiv-le_self : (a b : ℕ) → a ≤ safe + 1 → 0 < b → b ≤ safe + 1 → ceildiv lua a b ≤ a
  ceildiv-le_self a b ha hb hb' =
      le_of_mul_lt (ceildiv lua a b) a b hb ((ceildiv_bounds a b ha hb hb').1)

  module _ (r : Rate) (sound : IsSound r) where
    -- `ms` rounds up: the milliseconds drain that many ticks, and one fewer does not.
    pub ms_bounds :
        (t : ℕ)
        → t ≤ safe + 1
        → (t ≤ ms lua r t * 1000 * r.limit) × (ms lua r t * 1000 * r.limit < t + 1000 * r.limit)
    unfolding ms
    ms_bounds t h =
        let c = ceildiv lua t r.limit in
        let limit_small : r.limit ≤ safe + 1 = omega (arith, sound.limit_safe) in
        let (c_low, c_high) = ceildiv_bounds t r.limit h sound.limit_pos limit_small in
        let c_le = ceildiv-le_self t r.limit h sound.limit_pos limit_small in
        let (m_low, m_high) = ceildiv_bounds c 1000 (omega arith) (omega arith) (omega arith) in
        (
          le_trans c_low (mul-le-mul_right r.limit m_low),
          lt_of_scaled (ceildiv lua c 1000 * 1000) c r.limit t sound.limit_pos m_high c_high,
        )

    left_none :
        (free : ℕ)
        → free ≡ 0
        → (0 ≤ r.burst) × (0 * unit r ≤ free) × ((0 ≡ r.burst) ⊎ (free < (0 + 1) * unit r))
    left_none free h = (omega arith, omega arith, inr (omega (arith, sound.per_pos)))

    -- `left` is the largest cost, up to the burst, that fits in what is free.
    pub left_bounds :
        (free : ℕ)
        → free ≤ tolerance r
        → (left lua r free ≤ r.burst)
          × (left lua r free * unit r ≤ free)
          × ((left lua r free ≡ r.burst) ⊎ (free < (left lua r free + 1) * unit r))
    unfolding left
    left_bounds free h = elim (Bool-cases (free == 0)) [
      | inl nothing ↦ rw nothing (left_none free (ground arith))
      | inr some_free ↦
          let q = lua.floor_quot free (unit r) in
          let small : free ≤ safe + 1 = omega (arith, sound.tolerance_safe) in
          let u_pos = unit_pos r sound in
          let u_small = unit-le r sound in
          let (a, b, c) =
            cap_bounds lua r free q h (lua.floor_quot_high free (unit r) small u_pos u_small)
              (lua.floor_quot_low free (unit r) small u_pos u_small) in
          let (a', b', c') = fewer_bounds lua r free (cap lua r q) a b c in
          rw some_free (more_bounds lua r free (fewer lua r free (cap lua r q)) a' b' c')
    ]
