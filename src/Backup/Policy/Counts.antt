-- ===== src/Backup/Policy/Counts.antt =====
-- What an added reason and the loop of `withParents` count: kept and unkept backups, by id.
use nxgt_data.Prelude.{
  ℕ, suc, ◌+◌, ◌≤◌, ◌≡◌, refl, sym, ap, ◌∙◌, subst, ◌⊎◌, inl, inr, Bool, true, false, ◌||◌, Option,
  none, some, String, str_eq, eq_iff, List, [], ◌∷◌, length, select, if◌then◌else◌, arith, In,
  Bool-cases, Option-cases,
}
use nxgt_data.Backup.Rules.{Candidate, Reason, Reasons, add, kept_by}
use nxgt_data.Backup.Policy.{by_id, find_parent, reverse_onto}
use nxgt_data.Backup.Rules.Keeps.{nonempty-append, add-keeps, add-itself}

pub some-injective : {A : Type 0} {a b : A} → some a ≡ some b → a ≡ b
some-injective {a = a} e = ap (λ o. elim o [ none ↦ a | some x ↦ x ]) e

pub true-ne-false : {b : Bool} → b ≡ true → b ≡ false → ⊥
true-ne-false p q = cc

or_true : (b : Bool) → (b || true) ≡ true
or_true true = refl
or_true false = refl

or_false : (b : Bool) → (b || false) ≡ b
or_false true = refl
or_false false = refl

pub add-kept_by :
    (id : String) (why : Reason) (m : Reasons) (k : String)
    → kept_by (add id why m) k ≡ (kept_by m k || str_eq k id)
add-kept_by id why m k = elim (Bool-cases (str_eq k id)) [
  | inl same ↦ rw (same, nonempty-append (m k) why, or_true (kept_by m k))
  | inr differs ↦ rw (differs, or_false (kept_by m k))
]

pub by_id-In :
    (cs : List Candidate) (id : String) (c : Candidate)
    → by_id cs id ≡ some c
    → In c cs × (c.id ≡ id)
unfolding by_id
by_id-In [] id c e = cc
by_id-In (d ∷ ds) id c e = elim (Option-cases (by_id ds id)) [
  | inr (x, found) ↦
      (let e' : some x ≡ some c = rw found at e in
        let r = by_id-In ds id c (found ∙ e') in (inr r.0, r.1))
  | inl missing ↦ elim (Bool-cases (str_eq d.id id)) [
    | inl same ↦
        (let e' : some d ≡ some c = rw (missing, same) at e in
          let q = some-injective e' in
          (inl (sym q), sym (ap (λ x. x.id) q) ∙ (eq_iff d.id id).0 same))
    | inr differs ↦
        let e' : ◌≡◌ {A = Option Candidate} none (some c) = rw (missing, differs) at e in cc
  ]
]

pub find_parent-by_id :
    (newest : List Candidate) (o : Option String) (p : Candidate)
    → find_parent newest o ≡ some p
    → (by_id newest p.id ≡ some p) × (o ≡ some p.id)
unfolding find_parent
find_parent-by_id newest none p e = cc
find_parent-by_id newest (some id) p e =
    let q = (by_id-In newest id p e).1 in (ap (by_id newest) q ∙ e, ap some (sym q))

unfoldable pub unkept : List Candidate → Reasons → ℕ
unkept [] m = 0
unkept (c ∷ cs) m = (if kept_by m c.id then 0 else 1) + unkept cs m

pub unkept-add :
    (cs : List Candidate) (id : String) (why : Reason) (m : Reasons)
    → unkept cs (add id why m) ≤ unkept cs m
unfolding unkept
unkept-add [] id why m = omega arith
unkept-add (c ∷ cs) id why m = elim (Bool-cases (kept_by m c.id)) [
  | inl was ↦ rw (was, add-keeps id why m c.id was) (omega (arith, unkept-add cs id why m))
  | inr was_not ↦ rw was_not (at_most (kept_by (add id why m) c.id) (unkept-add cs id why m))
]
  where
    at_most : (b : Bool) {k n : ℕ} → k ≤ n → (if b then 0 else 1) + k ≤ 1 + n
    at_most true h = omega arith
    at_most false h = omega arith

pub unkept-add_new :
    (cs : List Candidate) (p : Candidate) (why : Reason) (m : Reasons)
    → In p cs
    → kept_by m p.id ≡ false
    → suc (unkept cs (add p.id why m)) ≤ unkept cs m
unfolding unkept
unkept-add_new [] p why m i new = absurd i
unkept-add_new (c ∷ cs) p why m (inl e) new =
    let new' : kept_by m c.id ≡ false = ap (λ x. kept_by m x.id) (sym e) ∙ new in
    let now : kept_by (add p.id why m) c.id ≡ true =
      subst (λ x. kept_by (add p.id why m) x.id ≡ true) e (add-itself p.id why m) in
    let rest = unkept-add cs p.id why m in rw (new', now) (omega arith)
unkept-add_new (c ∷ cs) p why m (inr i) new = elim (Bool-cases (kept_by m c.id)) [
  | inl was ↦
      rw (was, add-keeps p.id why m c.id was) (omega (arith, unkept-add_new cs p why m i new))
  | inr was_not ↦
      rw was_not (more (kept_by (add p.id why m) c.id) (unkept-add_new cs p why m i new))
]
  where
    more : (b : Bool) {k n : ℕ} → suc k ≤ n → suc ((if b then 0 else 1) + k) ≤ 1 + n
    more true h = omega arith
    more false h = omega arith

pub length-reverse_onto {ℓ} :
    {A : Type ℓ} (xs ys : List A) → length (reverse_onto xs ys) ≡ length xs + length ys
length-reverse_onto [] ys = omega arith
length-reverse_onto (x ∷ xs) ys = omega (arith, length-reverse_onto xs (x ∷ ys))

pub In-reverse_onto :
    {A : Type 0} (a : A) (xs ys : List A) → In a xs ⊎ In a ys → In a (reverse_onto xs ys)
In-reverse_onto a [] ys (inl i) = absurd i
In-reverse_onto a [] ys (inr i) = i
In-reverse_onto a (x ∷ xs) ys (inl (inl e)) = In-reverse_onto a xs (x ∷ ys) (inr (inl e))
In-reverse_onto a (x ∷ xs) ys (inl (inr i)) = In-reverse_onto a xs (x ∷ ys) (inl i)
In-reverse_onto a (x ∷ xs) ys (inr i) = In-reverse_onto a xs (x ∷ ys) (inr (inr i))

pub reverse_onto-In :
    {A : Type 0} (a : A) (xs ys : List A) → In a (reverse_onto xs ys) → In a xs ⊎ In a ys
reverse_onto-In a [] ys i = inr i
reverse_onto-In a (x ∷ xs) ys i = elim (reverse_onto-In a xs (x ∷ ys) i) [
  | inl j ↦ inl (inr j)
  | inr (inl e) ↦ inl (inl e)
  | inr (inr j) ↦ inr j
]

pub kept-and-unkept :
    (cs : List Candidate) (m : Reasons)
    → length (select (λ c. kept_by m c.id) cs) + unkept cs m ≡ length cs
unfolding unkept
kept-and-unkept [] m = refl
kept-and-unkept (c ∷ cs) m = elim (Bool-cases (kept_by m c.id)) [
  | inl was ↦ rw was (omega (arith, kept-and-unkept cs m))
  | inr was_not ↦ rw was_not (omega (arith, kept-and-unkept cs m))
]
