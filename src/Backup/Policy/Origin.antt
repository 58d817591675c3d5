-- ===== src/Backup/Policy/Origin.antt =====
-- The loop of `withParents` keeps no more than it must: what it keeps is kept by a rule, or is the
-- parent of a kept backup.
use nxgt_data.Prelude.{
  str_eq_refl, ℕ, zero, suc, ◌≡◌, refl, sym, ap, ◌∙◌, subst, ◌⊎◌, inl, inr, Bool, true, false, ◌||◌,
  Option, none, some, String, str_eq, eq_iff, List, [], ◌∷◌, length, select, In, select-In,
  Bool-cases,
}
use nxgt_data.Backup.Rules.{Candidate, Reason, Reasons, parent_of, add, kept_by}
use nxgt_data.Backup.Policy.{
  has, find_parent, visit, visit_all, reverse_onto, undropped, with_parents, is_parent,
}
use nxgt_data.Backup.Rules.Keeps.{add-keeps, add-itself}
use nxgt_data.Backup.Policy.Counts.{add-kept_by, by_id-In, find_parent-by_id, reverse_onto-In}

-- A kept backup builds on `id`.
pub record HasKeptChild (newest : List Candidate) (m : Reasons) (id : String) : Type 0 where
  pub child : Candidate
  pub in_newest : In child newest
  pub is_kept : kept_by m child.id ≡ true
  pub builds_on : is_parent id child ≡ true

abbrev Explained : List Candidate → Reasons → Reasons → Type 0
Explained newest rule m =
    (id : String) → kept_by m id ≡ true → (kept_by rule id ≡ true) ⊎ HasKeptChild newest m id

abbrev Waiting : List Candidate → List Candidate → Reasons → Type 0
Waiting newest pending m = (c : Candidate) → In c pending → In c newest × (kept_by m c.id ≡ true)

is_parent_lem : (k : Candidate) (id : String) → k.parent ≡ some id → is_parent id k ≡ true
is_parent_lem k id e = rw e (str_eq_refl id)

module _ (newest : List Candidate) (rule : Reasons) where
  HasKeptChild-add :
      (m : Reasons) (pid : String) (why : Reason) (id : String)
      → HasKeptChild newest m id
      → HasKeptChild newest (add pid why m) id
  HasKeptChild-add m pid why id h = record {
    child = h.child;
    in_newest = h.in_newest;
    is_kept = add-keeps pid why m h.child.id h.is_kept;
    builds_on = h.builds_on;
  }

  visit-Explained :
      (child : Candidate) (pending : List Candidate) (m : Reasons) (o : Option Candidate)
      → find_parent newest child.parent ≡ o
      → Waiting newest (child ∷ pending) m
      → Explained newest rule m
      → Explained newest rule (visit child.id o pending m).1
  unfolding visit
  visit-Explained child pending m none q wait ex id k = ex id k
  visit-Explained child pending m (some p) q wait ex id k = elim (Bool-cases (kept_by m id)) [
    | inl was ↦ elim (ex id was) [
      | inl r ↦ inl r
      | inr h ↦ inr (HasKeptChild-add m p.id (parent_of child.id) id h)
    ]
    | inr was_not ↦
        (let k' : (kept_by m id || str_eq id p.id) ≡ true =
            sym (add-kept_by p.id (parent_of child.id) m id) ∙ k in
          let same : id ≡ p.id = (eq_iff id p.id).0 (rw was_not at k') in
          let w = wait child (inl refl) in
          inr (record {
            child = child;
            in_newest = w.0;
            is_kept = add-keeps p.id (parent_of child.id) m child.id w.1;
            builds_on =
                is_parent_lem child id
                  ((find_parent-by_id newest child.parent p q).1 ∙ ap some (sym same));
          }))
  ]

  visit-Waiting :
      (child : Candidate) (pending : List Candidate) (m : Reasons) (o : Option Candidate)
      → find_parent newest child.parent ≡ o
      → Waiting newest (child ∷ pending) m
      → Waiting newest (visit child.id o pending m).0 (visit child.id o pending m).1
  unfolding visit
  visit-Waiting child pending m none q wait c i = wait c (inr i)
  visit-Waiting child pending m (some p) q wait c i = elim (Bool-cases (kept_by m p.id)) [
    | inl was ↦ let j : In c pending = rw was at i in old j
    | inr was_not ↦
        (let j : In c (p ∷ pending) = rw was_not at i in
          elim j [
            | inl e ↦
                (let found = (find_parent-by_id newest child.parent p q).0 in
                  (
                    subst (λ x. In x newest) (sym e) (by_id-In newest p.id p found).0,
                    subst (λ x. kept_by (add p.id (parent_of child.id) m) x.id ≡ true) (sym e)
                        (add-itself p.id (parent_of child.id) m),
                  ))
            | inr j' ↦ old j'
          ])
  ]
    where
      old : In c pending → In c newest × (kept_by (add p.id (parent_of child.id) m) c.id ≡ true)
      old j = let w = wait c (inr j) in (w.0, add-keeps p.id (parent_of child.id) m c.id w.1)

  visit_all-Explained :
      (n : ℕ) (pending : List Candidate) (m : Reasons)
      → Waiting newest pending m
      → Explained newest rule m
      → Explained newest rule (visit_all n newest pending m).1
  unfolding visit_all
  visit_all-Explained zero pending m wait ex = ex
  visit_all-Explained (suc n) [] m wait ex = ex
  visit_all-Explained (suc n) (child ∷ pending) m wait ex =
      let o = find_parent newest child.parent in
      visit_all-Explained n (visit child.id o pending m).0 (visit child.id o pending m).1
        (visit-Waiting child pending m o refl wait) (visit-Explained child pending m o refl wait ex)

-- What is kept is kept by a rule and not dropped, or is the parent of a kept backup.
pub with_parents-Explained :
    (newest : List Candidate) (rule : Reasons) (dropped : List String) (id : String)
    → kept_by (with_parents newest rule dropped) id ≡ true
    → ((kept_by rule id ≡ true) × (has dropped id ≡ false))
      ⊎ HasKeptChild newest (with_parents newest rule dropped) id
unfolding with_parents undropped
with_parents-Explained newest rule dropped id k =
    let m = undropped rule dropped in
    let start : Waiting newest (reverse_onto (select (λ c. kept_by m c.id) newest) []) m = (λ c i.
      elim (reverse_onto-In c _ [] i) [
        | inl j ↦ select-In (λ x. kept_by m x.id) c newest j
        | inr j ↦ absurd j
      ]) in
    elim (visit_all-Explained newest m (length newest) _ m start (λ _ h. inl h) id k) [
      | inl h ↦ inl (not_dropped h)
      | inr h ↦ inr h
    ]
  where
    not_dropped :
        kept_by (undropped rule dropped) id ≡ true
        → (kept_by rule id ≡ true) × (has dropped id ≡ false)
    not_dropped h = elim (Bool-cases (has dropped id)) [
      | inl gone ↦ let bad : ◌≡◌ {A = Bool} false true = rw gone at h in cc
      | inr stays ↦ (rw stays at h, stays)
    ]
