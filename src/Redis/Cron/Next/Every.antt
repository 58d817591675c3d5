-- ===== src/Redis/Cron/Next/Every.antt =====
-- The next occurrence of an `every` schedule.
use native.Mathlib.Nat.{mul-le-mul_right, div-lt_iff_lt-mul}
use nxgt_data.Prelude.{
  ℕ, ◌+◌, ◌-◌, ◌*◌, ◌/◌, ◌≤◌, ◌<◌, ◌≡◌, refl, sym, ap, subst, inl, inr, ltb, ltb→lt, max, arith,
  Bool-cases,
}
use nxgt_data.Redis.Cron.Next.{next_every}

-- `nextEvery` keeps the phase of `due`, is after `now`, and no other such tick is earlier.
pub next_every_least :
    (due every now : ℕ)
    → 1 ≤ every
    → ((k : ℕ) × (1 ≤ k) × (next_every due every now ≡ due + k * every))
      × (now < next_every due every now)
      × ((k : ℕ) → 1 ≤ k → now < due + k * every → next_every due every now ≤ due + k * every)
unfolding next_every
next_every_least due every now pos = elim (Bool-cases (ltb now due)) [
  | inl early ↦
      (let lt = ltb→lt now due early in
        let one : next_every due every now ≡ due + 1 * every = rw (next_every, early) refl in
        (
          (1, omega arith, one),
          subst (λ x. now < x) (sym one) (omega (arith, lt)),
          λ k le later.
              subst (λ x. x ≤ due + k * every) (sym one)
                (let m = mul-le-mul_right every le in omega (arith, m)),
        ))
  | inr due_past ↦
      (let q = (now - due) / every in
        let le : due ≤ now = ground arith in
        let next : next_every due every now ≡ due + (q + 1) * every =
          rw (next_every, due_past) (ap (λ k. due + k * every) (one_more q)) in
        let over : now - due < (q + 1) * every = (div-lt_iff_lt-mul pos).0 (omega arith) in
        (
          (q + 1, omega arith, next),
          subst (λ x. now < x) (sym next) (omega (arith, over, le)),
          λ k least later.
              let more : q < k = (div-lt_iff_lt-mul pos).1 (omega (arith, later, le)) in
              let m : (q + 1) * every ≤ k * every = mul-le-mul_right every (omega (arith, more)) in
              subst (λ x. x ≤ due + k * every) (sym next) (omega (arith, m)),
        ))
]
  where
    one_more : (q : ℕ) → max 1 (q + 1) ≡ q + 1
    one_more q = omega arith
