-- ===== src/Backup/Policy/Drops.antt =====
-- Which backup the size rule drops next, and which it may not drop.
use nxgt_data.Prelude.{
  ℕ, ◌<◌, ◌≡◌, refl, sym, subst, ◌⊎◌, inl, inr, Bool, true, false, not, ◌&&◌, Option, none, some,
  String, str_eq, eq_iff, List, [], ◌∷◌, any, leb, arith, In, In-any, In-select, select-In,
  Bool-cases, any-In,
}
use nxgt_data.Backup.Rules.{Candidate, KeepPolicy, Reasons, kept_by}
use nxgt_data.Backup.Policy.{
  has, kept_of, may_drop, droppable, find, with_parents, is_parent, floor,
}
use nxgt_data.Backup.Policy.Counts.{some-injective, reverse_onto-In, In-reverse_onto}
use nxgt_data.Backup.Policy.Origin.{with_parents-Explained}

pub over_max : (a b : ℕ) → leb a b ≡ false → b < a
over_max a b e = ground arith

find-some :
    (p : Candidate → Bool) (cs : List Candidate) (c : Candidate)
    → find p cs ≡ some c
    → In c cs × (p c ≡ true)
unfolding find
find-some p [] c e = cc
find-some p (d ∷ ds) c e = elim (Bool-cases (p d)) [
  | inl passes ↦
      (let e' : some d ≡ some c = rw passes at e in
        let q = some-injective e' in (inl (sym q), subst (λ x. p x ≡ true) q passes))
  | inr fails ↦
      (let e' : find p ds ≡ some c = rw fails at e in let r = find-some p ds c e' in (inr r.0, r.1))
]

find-none :
    (p : Candidate → Bool) (cs : List Candidate) (c : Candidate)
    → find p cs ≡ none
    → In c cs
    → p c ≡ false
unfolding find
find-none p [] c e i = absurd i
find-none p (d ∷ ds) c e i = elim (Bool-cases (p d)) [
  | inl passes ↦ let bad : ◌≡◌ {A = Option Candidate} (some d) none = rw passes at e in cc
  | inr fails ↦
      (let e' : find p ds ≡ none = rw fails at e in
        elim i [ inl q ↦ subst (λ x. p x ≡ false) (sym q) fails | inr j ↦ find-none p ds c e' j ])
]

pub droppable-some :
    (newest : List Candidate) (m : Reasons) (policy : KeepPolicy) (now : ℕ) (c : Candidate)
    → droppable newest m policy now ≡ some c
    → In c newest × (kept_by m c.id ≡ true) × (may_drop newest m policy now c ≡ true)
unfolding droppable
droppable-some newest m policy now c e =
    let r = find-some (may_drop newest m policy now) _ c e in
    elim (reverse_onto-In c (kept_of newest m) [] r.0) [
      | inl i ↦ let s = select-In (λ x. kept_by m x.id) c newest i in (s.0, s.1, r.1)
      | inr i ↦ absurd i
    ]

pub droppable-none :
    (newest : List Candidate) (m : Reasons) (policy : KeepPolicy) (now : ℕ) (c : Candidate)
    → droppable newest m policy now ≡ none
    → In c (kept_of newest m)
    → may_drop newest m policy now c ≡ false
unfolding droppable
droppable-none newest m policy now c e i =
    find-none (may_drop newest m policy now) _ c e (In-reverse_onto c (kept_of newest m) [] (inl i))

and-parts :
    (a b c d : Bool)
    → (not a && not b && c && not d) ≡ true
    → (a ≡ false) × (b ≡ false) × (c ≡ true) × (d ≡ false)
and-parts a b c d e = ground arith

-- A backup that the size rule may drop is not of the floor, not held, not newer than now, and no
-- kept one's parent.
pub may_drop-parts :
    (newest : List Candidate) (m : Reasons) (policy : KeepPolicy) (now : ℕ) (c : Candidate)
    → may_drop newest m policy now c ≡ true
    → (has (floor newest policy now) c.id ≡ false)
      × (c.held ≡ false)
      × (leb c.created_at now ≡ true)
      × (any (is_parent c.id) (kept_of newest m) ≡ false)
unfolding may_drop
may_drop-parts newest m policy now c e =
    and-parts (has (floor newest policy now) c.id) c.held (leb c.created_at now)
      (any (is_parent c.id) (kept_of newest m)) e

or-parts :
    (a b c d : Bool)
    → (not a && not b && c && not d) ≡ false
    → (a ≡ true) ⊎ (b ≡ true) ⊎ (c ≡ false) ⊎ (d ≡ true)
or-parts true b c d e = inl refl
or-parts false true c d e = inr (inl refl)
or-parts false false false d e = inr (inr (inl refl))
or-parts false false true true e = inr (inr (inr refl))
or-parts false false true false e = cc

has-In : (ids : List String) (id : String) → has ids id ≡ true → In id ids
has-In ids id h =
    let r = any-In (λ x. str_eq x id) ids h in subst (λ x. In x ids) ((eq_iff r.0 id).0 r.2) r.1

pub may_drop-false :
    (newest : List Candidate) (m : Reasons) (policy : KeepPolicy) (now : ℕ) (c : Candidate)
    → may_drop newest m policy now c ≡ false
    → In c.id (floor newest policy now)
      ⊎ (c.held ≡ true)
      ⊎ (now < c.created_at)
      ⊎ (any (is_parent c.id) (kept_of newest m) ≡ true)
unfolding may_drop
may_drop-false newest m policy now c e =
    elim (or-parts (has (floor newest policy now) c.id) c.held (leb c.created_at now)
      (any (is_parent c.id) (kept_of newest m)) e) [
        | inl f ↦ inl (has-In (floor newest policy now) c.id f)
        | inr (inl h) ↦ inr (inl h)
        | inr (inr (inl n)) ↦ inr (inr (inl (over_max c.created_at now n)))
        | inr (inr (inr b)) ↦ inr (inr (inr b))
      ]

-- So a rule keeps it, and it was not dropped before.
pub droppable-undropped :
    (newest : List Candidate) (rule : Reasons) (dropped : List String) (policy : KeepPolicy)
    (now : ℕ) (c : Candidate)
    → droppable newest (with_parents newest rule dropped) policy now ≡ some c
    → has dropped c.id ≡ false
droppable-undropped newest rule dropped policy now c e =
    let m = with_parents newest rule dropped in
    let r = droppable-some newest m policy now c e in
    elim (with_parents-Explained newest rule dropped c.id r.1) [
      | inl own ↦ own.1
      | inr h ↦
          (let i : In h.child (kept_of newest m) =
              In-select (λ x. kept_by m x.id) h.child newest h.in_newest h.is_kept in
            let t : any (is_parent c.id) (kept_of newest m) ≡ true =
              In-any (is_parent c.id) h.child _ i h.builds_on in
            let f = (may_drop-parts newest m policy now c r.2).3 in cc)
    ]
