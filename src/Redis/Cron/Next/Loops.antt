-- ===== src/Redis/Cron/Next/Loops.antt =====
-- The loops of `nextAfter`: the turn that they return at.
use nxgt_data.Prelude.{
  ℕ, zero, suc, ◌+◌, ◌≤◌, ◌<◌, ◌≡◌, sym, ap, ◌∙◌, inl, inr, Option, none, some, ltb, ltb→lt, arith,
  Bool-cases, Option-cases,
}
use nxgt_data.Redis.Cron.Next.{first_some}

pub some_eq : {A : Type 0} {a b : A} → some a ≡ some b → a ≡ b
some_eq {a = a} e = ap (λ o. elim o [ none ↦ a | some x ↦ x ]) e

pub not_some : {A : Type 0} {a : A} → ◌≡◌ {A = Option A} none (some a) → ⊥
not_some e = cc

-- The turn that a loop returned at: the first one that gives a value.
pub record Found {A : Type 0} (n k : ℕ) (f : ℕ → Option A) (x : A) : Type 0 where
  pub turn : ℕ
  pub from : k ≤ turn
  pub below : turn < k + n
  pub gives : f turn ≡ some x
  pub before : (j : ℕ) → k ≤ j → j < turn → f j ≡ none

pub first_some-Found :
    {A : Type 0} (n k : ℕ) (f : ℕ → Option A) (x : A) → first_some n k f ≡ some x → Found n k f x
unfolding first_some
first_some-Found zero k f x e = absurd (not_some e)
first_some-Found (suc n) k f x e = elim (Option-cases (f k)) [
  | inr (y, here) ↦
      (let same : some y ≡ some x = rw (first_some, here) at e in
        record {
          turn = k;
          from = omega arith;
          below = omega arith;
          gives = here ∙ same;
          before = λ j a b. absurd (omega (arith, a, b));
        })
  | inl nothing ↦
      (let r = first_some-Found n (suc k) f x (rw (first_some, nothing) at e) in
        record {
          turn = r.turn;
          from = omega (arith, r.from);
          below = omega (arith, r.below);
          gives = r.gives;
          before = λ j a b. elim (Bool-cases (ltb k j)) [
            | inl past ↦ r.before j (ltb→lt k j past) b
            | inr at_k ↦ (let same : k ≡ j = ground arith in ap f (sym same) ∙ nothing)
          ];
        })
]

pub first_some-none :
    {A : Type 0} (n k : ℕ) (f : ℕ → Option A)
    → first_some n k f ≡ none
    → (j : ℕ) → k ≤ j
    → j < k + n
    → f j ≡ none
unfolding first_some
first_some-none zero k f e j a b = absurd (omega (arith, a, b))
first_some-none (suc n) k f e j a b = elim (Option-cases (f k)) [
  | inr (y, here) ↦ (let bad : ◌≡◌ {A = Option _} (some y) none = rw (first_some, here) at e in cc)
  | inl nothing ↦ elim (Bool-cases (ltb k j)) [
    | inl past ↦
        first_some-none n (suc k) f (rw (first_some, nothing) at e) j (ltb→lt k j past)
          (omega (arith, b))
    | inr at_k ↦ (let same : k ≡ j = ground arith in ap f (sym same) ∙ nothing)
  ]
]
