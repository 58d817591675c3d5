-- ===== src/Backup/Policy/Parents.antt =====
-- The loop of `withParents`: it ends, with the parent of every kept backup kept.
use nxgt_data.Prelude.{
  ℕ, zero, suc, ◌+◌, ◌≤◌, ◌≡◌, refl, sym, ap, ◌∙◌, subst, ◌⊎◌, inl, inr, true, false, ◌||◌, Option,
  none, some, String, str_eq, eq_iff, List, [], ◌∷◌, length, select, if◌then◌else◌, arith, In,
  In-select, Bool-cases,
}
use nxgt_data.Backup.Rules.{Candidate, Reasons, parent_of, add, kept_by}
use nxgt_data.Backup.Policy.{
  has, by_id, find_parent, visit, visit_all, reverse_onto, undropped, with_parents,
}
use nxgt_data.Backup.Rules.Keeps.{add-keeps, add-itself}
use nxgt_data.Backup.Policy.Counts.{
  some-injective, add-kept_by, by_id-In, find_parent-by_id, unkept, unkept-add, unkept-add_new,
  length-reverse_onto, In-reverse_onto, kept-and-unkept,
}

abbrev pub ParentKept : List Candidate → Reasons → Candidate → Type 0
ParentKept newest m c =
    (p : Candidate) → find_parent newest c.parent ≡ some p → kept_by m p.id ≡ true

-- Every kept backup is still on the stack, or its parent is kept.
abbrev Closed : List Candidate → List Candidate → Reasons → Type 0
Closed newest pending m =
    (id : String) (c : Candidate)
    → by_id newest id ≡ some c
    → kept_by m id ≡ true
    → In c pending ⊎ ParentKept newest m c

visit-Closed :
    (newest : List Candidate) (child : Candidate) (pending : List Candidate) (m : Reasons)
    (o : Option Candidate)
    → find_parent newest child.parent ≡ o
    → Closed newest (child ∷ pending) m
    → Closed newest (visit child.id o pending m).0 (visit child.id o pending m).1
unfolding visit
visit-Closed newest child pending m none q closed id c e k = elim (closed id c e k) [
  | inl (inl same) ↦ inr (λ p e'.
      let f : find_parent newest c.parent ≡ none = ap (λ x. find_parent newest x.parent) same ∙ q in
      let bad : ◌≡◌ {A = Option Candidate} none (some p) = sym f ∙ e' in cc)
  | inl (inr i) ↦ inl i
  | inr done ↦ inr done
]
visit-Closed newest child pending m (some p) q closed id c e k = elim (Bool-cases (kept_by m id)) [
  | inl was ↦ elim (closed id c e was) [
    | inl (inl same) ↦ inr (λ p' e'.
        let f : find_parent newest c.parent ≡ some p =
          ap (λ x. find_parent newest x.parent) same ∙ q in
        let g : p ≡ p' = some-injective (sym f ∙ e') in
        subst (λ x. kept_by (add p.id (parent_of child.id) m) x.id ≡ true) g
          (add-itself p.id (parent_of child.id) m))
    | inl (inr i) ↦ inl (below i)
    | inr done ↦ inr (λ p' e'. add-keeps p.id (parent_of child.id) m p'.id (done p' e'))
  ]
  | inr was_not ↦
      (let k' : (kept_by m id || str_eq id p.id) ≡ true =
          sym (add-kept_by p.id (parent_of child.id) m id) ∙ k in
        let same_id : id ≡ p.id = (eq_iff id p.id).0 (rw was_not at k') in
        let e' : some c ≡ some p =
          sym e ∙ (ap (by_id newest) same_id ∙ (find_parent-by_id newest child.parent p q).0) in
        let new : kept_by m p.id ≡ false = ap (kept_by m) (sym same_id) ∙ was_not in
        inl (rw new (inl (some-injective e'))))
]
  where
    below : In c pending → In c (if kept_by m p.id then pending else p ∷ pending)
    below i = elim (Bool-cases (kept_by m p.id)) [ inl t ↦ rw t i | inr f ↦ rw f (inr i) ]

-- A visit takes one from the stack and the unkept together.
visit-unkept :
    (newest : List Candidate) (child : Candidate) (pending : List Candidate) (m : Reasons)
    (o : Option Candidate)
    → find_parent newest child.parent ≡ o
    → length (visit child.id o pending m).0 + unkept newest (visit child.id o pending m).1
      ≤ length pending + unkept newest m
unfolding visit
visit-unkept newest child pending m none q = omega arith
visit-unkept newest child pending m (some p) q =
    let i : In p newest =
      (by_id-In newest p.id p (find_parent-by_id newest child.parent p q).0).0 in
    elim (Bool-cases (kept_by m p.id)) [
      | inl was ↦ rw was (omega (arith, unkept-add newest p.id (parent_of child.id) m))
      | inr was_not ↦
          rw was_not (omega (arith, unkept-add_new newest p (parent_of child.id) m i was_not))
    ]

-- The loop empties its stack within its fuel, and leaves every parent of a kept backup kept.
visit_all-Closed :
    (n : ℕ) (newest pending : List Candidate) (m : Reasons)
    → length pending + unkept newest m ≤ n
    → Closed newest pending m
    → Closed newest [] (visit_all n newest pending m).1
unfolding visit_all
visit_all-Closed zero newest [] m le closed = closed
visit_all-Closed zero newest (c ∷ cs) m le closed = omega arith
visit_all-Closed (suc n) newest [] m le closed = closed
visit_all-Closed (suc n) newest (child ∷ pending) m le closed =
    let o = find_parent newest child.parent in
    let drops = visit-unkept newest child pending m o refl in
    visit_all-Closed n newest (visit child.id o pending m).0 (visit child.id o pending m).1
      (omega arith) (visit-Closed newest child pending m o refl closed)

visit-keeps :
    (child : String) (o : Option Candidate) (pending : List Candidate) (m : Reasons) (k : String)
    → kept_by m k ≡ true
    → kept_by (visit child o pending m).1 k ≡ true
unfolding visit
visit-keeps child none pending m k h = h
visit-keeps child (some p) pending m k h = add-keeps p.id (parent_of child) m k h

visit_all-keeps :
    (n : ℕ) (newest pending : List Candidate) (m : Reasons) (k : String)
    → kept_by m k ≡ true
    → kept_by (visit_all n newest pending m).1 k ≡ true
unfolding visit_all
visit_all-keeps zero newest pending m k h = h
visit_all-keeps (suc n) newest [] m k h = h
visit_all-keeps (suc n) newest (child ∷ pending) m k h =
    let o = find_parent newest child.parent in
    visit_all-keeps n newest (visit child.id o pending m).0 (visit child.id o pending m).1 k
      (visit-keeps child.id o pending m k h)

pub with_parents-keeps :
    (newest : List Candidate) (rule : Reasons) (dropped : List String) (k : String)
    → has dropped k ≡ false
    → kept_by rule k ≡ true
    → kept_by (with_parents newest rule dropped) k ≡ true
unfolding with_parents
with_parents-keeps newest rule dropped k kept h =
    visit_all-keeps (length newest) newest _ (undropped rule dropped) k (rw kept h)

pub with_parents-Closed :
    (newest : List Candidate) (rule : Reasons) (dropped : List String) (id : String) (c : Candidate)
    → by_id newest id ≡ some c
    → kept_by (with_parents newest rule dropped) id ≡ true
    → ParentKept newest (with_parents newest rule dropped) c
unfolding with_parents
with_parents-Closed newest rule dropped id c e k =
    let m = undropped rule dropped in
    let first = select (λ x. kept_by m x.id) newest in
    let start : Closed newest (reverse_onto first []) m = (λ id' c' e' k'.
      let r = by_id-In newest id' c' e' in
      inl (
        In-reverse_onto c' first []
          (inl (In-select (λ x. kept_by m x.id) c' newest r.0 (ap (kept_by m) r.1 ∙ k'))))) in
    let size : length (reverse_onto first []) + unkept newest m ≤ length newest =
      omega (arith, length-reverse_onto first [], kept-and-unkept newest m) in
    elim (visit_all-Closed (length newest) newest (reverse_onto first []) m size start id c e k) [
      | inl i ↦ absurd i
      | inr done ↦ done
    ]
