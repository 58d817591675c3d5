-- ===== src/Prelude/Order.antt =====
-- The order of texts, by their characters' codes.
use Prim.Native.Nat.{ℕ, ◌<◌, Ordering, compare as compare_ℕ}
use Prim.Native.Char.{code}
use Prim.Native.String.{String, [], ◌∷◌, compare, then}
use Prim.Native.String.compare.{nil-nil, nil-cons, cons-nil, cons-cons}
use text.Mathlib.Text.{is_lt}
use mathlib.Core.Path.{◌≡◌, sym, ap, ◌∙◌}
use mathlib.Core.Logic.{◌⊎◌, inl, inr}
use mathlib.Core.Bool.{Bool, true}
use native.Mathlib.Omega.{arith}
use nxgt_data.Prelude.Tests.{clash}

abbrev pub older : String → String → Bool
older a b = is_lt (compare a b)

then_lt :
    (x y : ℕ) (o : Ordering)
    → is_lt (then (compare_ℕ x y) o) ≡ true
    → (x < y) ⊎ ((x ≡ y) × (is_lt o ≡ true))
then_lt x y o e = ground arith

lt_then :
    (x y : ℕ) (o : Ordering)
    → (x < y) ⊎ ((x ≡ y) × (is_lt o ≡ true))
    → is_lt (then (compare_ℕ x y) o) ≡ true
lt_then x y o e = ground arith

is_lt_eq : {a b : Ordering} → a ≡ b → is_lt a ≡ is_lt b
is_lt_eq e = ap is_lt e

both :
    {O P Q : Type 0} (x y z : ℕ)
    → (x < y) ⊎ ((x ≡ y) × O)
    → (y < z) ⊎ ((y ≡ z) × P)
    → (O → P → Q)
    → (x < z) ⊎ ((x ≡ z) × Q)
both x y z (inl a) (inl b) f = inl (omega (arith, a, b))
both x y z (inl a) (inr b) f = inl (omega (arith, a, b.0))
both x y z (inr a) (inl b) f = inl (omega (arith, a.0, b))
both x y z (inr a) (inr b) f = inr (a.0 ∙ b.0, f a.1 b.1)

pub older_trans : (a b c : String) → older a b ≡ true → older b c ≡ true → older a c ≡ true
older_trans [] [] c p q = absurd (clash p (is_lt_eq nil-nil))
older_trans [] (d ∷ t) [] p q = absurd (clash q (is_lt_eq (cons-nil d t)))
older_trans [] (d ∷ t) (e ∷ u) p q = is_lt_eq (nil-cons e u)
older_trans (c ∷ s) [] e p q = absurd (clash p (is_lt_eq (cons-nil c s)))
older_trans (c ∷ s) (d ∷ t) [] p q = absurd (clash q (is_lt_eq (cons-nil d t)))
older_trans (c ∷ s) (d ∷ t) (e ∷ u) p q =
    let l = then_lt (code c) (code d) (compare s t) (sym (is_lt_eq (cons-cons c d s t)) ∙ p) in
    let r = then_lt (code d) (code e) (compare t u) (sym (is_lt_eq (cons-cons d e t u)) ∙ q) in
    is_lt_eq (cons-cons c e s u)
    ∙ lt_then (code c) (code e) (compare s u)
        (both (code c) (code d) (code e) l r (older_trans s t u))

pub older_irrefl : (a : String) → older a a ≡ true → ⊥
older_irrefl [] p = clash p (is_lt_eq nil-nil)
older_irrefl (c ∷ s) p =
    elim (then_lt (code c) (code c) (compare s s) (sym (is_lt_eq (cons-cons c c s s)) ∙ p)) [
      | inl x ↦ omega (arith, x)
      | inr x ↦ older_irrefl s x.1
    ]
