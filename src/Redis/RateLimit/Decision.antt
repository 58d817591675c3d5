-- ===== src/Redis/RateLimit/Decision.antt =====
-- What one call of the script decides, replies and writes.
use native.Mathlib.Decide.{dec_le}
use native.Mathlib.Nat.{le_trans, mul-le-mul_right, le_of_mul-le-mul_right}
use nxgt_data.Prelude.{
  ℕ, ◌+◌, ◌-◌, ◌*◌, ◌≤◌, ◌<◌, ◌≡◌, Bool, true, false, inl, inr, arith, ap, ltb, leb, if◌then◌else◌,
  Bool-cases, Option, some, none, List, ◌&&◌,
}
use nxgt_data.Redis.RateLimit.Arithmetic.{Doubles}
use nxgt_data.Redis.RateLimit.{
  Rate, Write, tolerance, unit, ceildiv, ms, left, state, drain, decide, gcra, stored_text,
}
use nxgt_data.Redis.RateLimit.Rounding.{IsSound, unit_pos, left_bounds}

le_of_mul_lt_suc : (c n u : ℕ) → c * u < (n + 1) * u → c ≤ n
le_of_mul_lt_suc c n u h = elim (dec_le c n) [
  | yes p ↦ p
  | no p ↦ absurd (grind (arith, mul-le-mul_right {m = n + 1} {n = c} u (omega arith)))
]

add_mul : (k c u : ℕ) → (k + c) * u ≡ k * u + c * u
add_mul k c u = grind arith

le_lt_trans : {a b c : ℕ} → a ≤ b → b < c → a < c
le_lt_trans h k = omega arith

sub_fits : (n c u free : ℕ) → n * u ≤ free → c ≤ n → (n - c) * u ≤ free - c * u
sub_fits n c u free h le =
    let split : n - c + c ≡ n = omega arith in
    omega (arith, add_mul (n - c) c u, ap (λ (k : ℕ). k * u) split)

-- A cost fits in what is free exactly when it is at most `left`.
module _ (lua : Doubles) (r : Rate) (sound : IsSound r) where
  fits_of_le_left :
      (free cost : ℕ) → free ≤ tolerance r → cost ≤ left lua r free → cost * unit r ≤ free
  fits_of_le_left free cost h le =
      le_trans (mul-le-mul_right (unit r) le) ((left_bounds lua r sound free h).1)

  le_left_of_fits :
      (free cost : ℕ) → free ≤ tolerance r → cost * unit r ≤ free → cost ≤ left lua r free
  le_left_of_fits free cost h fits = elim (left_bounds lua r sound free h).2 [
    | inl all ↦ rw all (le_of_mul-le-mul_right (le_trans fits h) (unit_pos r sound))
    | inr next ↦ le_of_mul_lt_suc cost (left lua r free) (unit r) (le_lt_trans fits next)
  ]

  -- With no cost the whole of what is free is counted.
  left_whole :
      (free : ℕ)
      → left lua r (if leb (0 * unit r) free then free - 0 * unit r else free) ≡ left lua r free
  left_whole free = ap (left lua r) (ground arith)

  leb-left :
      (free cost : ℕ)
      → free ≤ tolerance r
      → leb (cost * unit r) free
        ≡ leb cost (left lua r (if leb (0 * unit r) free then free - 0 * unit r else free))
  leb-left free cost h =
      rw (left_whole free)
        (ground (arith, fits_of_le_left free cost h, le_left_of_fits free cost h))

  -- Spending `cost` of what is free leaves that much less.
  pub left-sub :
      (free cost : ℕ)
      → free ≤ tolerance r
      → cost * unit r ≤ free
      → left lua r (free - cost * unit r) + cost ≡ left lua r free
  left-sub free cost h fits =
      let n = left lua r free in
      let rest = free - cost * unit r in
      let m = left lua r rest in
      let rest_fits : rest ≤ tolerance r = omega (arith, h) in
      let m_fits = fits_of_le_left rest m rest_fits (omega arith) in
      let up : m + cost ≤ n =
        le_left_of_fits free (m + cost) h (omega (arith, add_mul m cost (unit r), m_fits, fits)) in
      let cost_le = le_left_of_fits free cost h fits in
      let n_fits = fits_of_le_left free n h (omega arith) in
      let down : n - cost ≤ m =
        le_left_of_fits rest (n - cost) rest_fits (sub_fits n cost (unit r) free n_fits cost_le) in
      omega (arith, up, down)

  left_after :
      (free cost : ℕ)
      → free ≤ tolerance r
      → left lua r (if leb (cost * unit r) free then free - cost * unit r else free)
        ≡ left lua r (if leb (0 * unit r) free then free - 0 * unit r else free)
          - (if leb (cost * unit r) free then cost else 0)
  left_after free cost h = elim (Bool-cases (leb (cost * unit r) free)) [
    | inl room ↦
        let fits : cost * unit r ≤ free = ground arith in
        rw (room, left_whole free) (omega (arith, left-sub free cost h fits))
    | inr full ↦ rw (full, left_whole free) (omega arith)
  ]

module _ (lua : Doubles) (r : Rate) (now cost : ℕ) (write : Bool) (base d : ℕ) where
  -- The fields of the reply, by the test.
  pub decide-allowed :
      (decide lua r now cost write (base, d)).0.allowed ≡ leb (cost * unit r) (tolerance r - d)
  unfolding decide
  decide-allowed = elim (Bool-cases (ltb (tolerance r - d) (cost * unit r))) [
    | inl over ↦ rw over (ground arith)
    | inr under ↦ rw under (ground arith)
  ]

  pub decide-remaining :
      (decide lua r now cost write (base, d)).0.remaining
      ≡ left lua r (
          if leb (cost * unit r) (tolerance r - d)
          then tolerance r - d - cost * unit r
          else tolerance r - d)
  unfolding decide
  decide-remaining = elim (Bool-cases (ltb (tolerance r - d) (cost * unit r))) [
    | inl over ↦
        let no_room : leb (cost * unit r) (tolerance r - d) ≡ false = ground arith in
        rw (over, no_room)
    | inr under ↦
        let room : leb (cost * unit r) (tolerance r - d) ≡ true = ground arith in rw (under, room)
  ]

  pub decide-retry_after :
      (decide lua r now cost write (base, d)).0.allowed ≡ false
      → (decide lua r now cost write (base, d)).0.retry_after
        ≡ ms lua r (cost * unit r - (tolerance r - d)) + ceildiv lua (base - now) 1000
  unfolding decide
  decide-retry_after denied = elim (Bool-cases (ltb (tolerance r - d) (cost * unit r))) [
    | inl over ↦ rw over
    | inr under ↦ absurd (ground arith)
  ]

  -- A write is that of an allowed, counted call.
  pub decide-write :
      {w : Write}
      → (decide lua r now cost write (base, d)).1 ≡ some w
      → (cost * unit r ≤ tolerance r - d)
        × (write ≡ true)
        × (0 < cost)
        × (w.text ≡ stored_text lua r base (d + cost * unit r))
        × (w.px ≡ ms lua r (d + cost * unit r) + ceildiv lua (base - now) 1000)
  unfolding decide
  decide-write e = elim (Bool-cases (ltb (tolerance r - d) (cost * unit r))) [
    | inl over ↦ absurd (ground arith)
    | inr under ↦ (ground arith, ground arith, ground arith, ground arith, ground arith)
  ]

module _ (lua : Doubles) (r : Rate) (sound : IsSound r) (stored : Option (List ℕ)) (now : ℕ) where
  -- A call is allowed exactly when its cost is at most what a peek says remains.
  pub allowed-eq-le-remaining :
      (cost : ℕ) (write : Bool)
      → (gcra lua r stored now cost write).0.allowed
        ≡ leb cost (gcra lua r stored now 0 false).0.remaining
  unfolding gcra
  allowed-eq-le-remaining cost write =
      let (base, d) = drain lua r now (state lua r now stored) in
      rw (decide-allowed lua r now cost write base d, decide-remaining lua r now 0 false base d)
        (leb-left lua r sound (tolerance r - d) cost (omega arith))

  -- An allowed call leaves what remained less its cost; a denied one leaves what remained.
  pub remaining_after :
      (cost : ℕ) (write : Bool)
      → (gcra lua r stored now cost write).0.remaining
        ≡ (gcra lua r stored now 0 false).0.remaining
          - (if (gcra lua r stored now cost write).0.allowed then cost else 0)
  unfolding gcra
  remaining_after cost write =
      let (base, d) = drain lua r now (state lua r now stored) in
      rw
        (
          decide-allowed lua r now cost write base d,
          decide-remaining lua r now cost write base d,
          decide-remaining lua r now 0 false base d,
        )
        (left_after lua r sound (tolerance r - d) cost (omega arith))

  -- A peek, a denial and a call of cost 0 write nothing; any other call writes the drained state
  -- with its cost added.
  pub written :
      (cost : ℕ) (write : Bool)
      → let (base, d) = drain lua r now (state lua r now stored) in
        let call = gcra lua r stored now cost write in
        call.1 ≡ (
          if call.0.allowed && write && ltb 0 cost
          then some (record {
            text = stored_text lua r base (d + cost * unit r);
            px = call.0.reset_after;
          })
          else none)
  unfolding gcra decide
  written cost write =
      let (base, d) = drain lua r now (state lua r now stored) in
      elim (Bool-cases (ltb (tolerance r - d) (cost * unit r))) [
        | inl over ↦ rw over
        | inr under ↦ rw under
      ]
