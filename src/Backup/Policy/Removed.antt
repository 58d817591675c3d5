-- ===== src/Backup/Policy/Removed.antt =====
-- What `plan` removes, and in which order.
use nxgt_data.Prelude.{
  clash, ◌≤◌, ◌≡◌, refl, sym, ap, ◌∙◌, subst, inl, inr, Bool, true, false, ◌||◌, String, List, [],
  ◌∷◌, ltb, ◌==◌, arith, In, Bool-cases,
}
use nxgt_data.Backup.Rules.{Candidate, Reasons, kept_by, over_size, no_rule_keeps}
use nxgt_data.Backup.Policy.Fates.{In-insert}
use nxgt_data.Backup.Policy.{has, Decision, decision, decide, before, insert, newest_first}

-- Each one is at least as new as those after it.
abbrev pub Newest : List Decision → Type 0
Newest [] = Unit
Newest (d ∷ ds) = ((x : Decision) → In x ds → x.created_at ≤ d.created_at) × Newest ds

abbrev NewestFirst : List Candidate → Type 0
NewestFirst [] = Unit
NewestFirst (c ∷ cs) = ((x : Candidate) → In x cs → x.created_at ≤ c.created_at) × NewestFirst cs

before-le : (c d : Candidate) → before c d ≡ true → d.created_at ≤ c.created_at
unfolding before
before-le c d e = elim (Bool-cases (c.created_at == d.created_at)) [
  | inl same ↦ ground arith
  | inr differs ↦
      (let later : ltb d.created_at c.created_at ≡ true = rw (before, differs) at e in ground arith)
]

not_before-le : (c d : Candidate) → before c d ≡ false → c.created_at ≤ d.created_at
unfolding before
not_before-le c d e = elim (Bool-cases (c.created_at == d.created_at)) [
  | inl same ↦ ground arith
  | inr differs ↦
      (let later : ltb d.created_at c.created_at ≡ false = rw (before, differs) at e in
        ground arith)
]

insert-NewestFirst :
    (c : Candidate) (cs : List Candidate) → NewestFirst cs → NewestFirst (insert c cs)
unfolding insert
insert-NewestFirst c [] s = (λ x i. absurd i, tt)
insert-NewestFirst c (d ∷ ds) s = elim (Bool-cases (before c d)) [
  | inl first ↦
      (let le = before-le c d first in
        rw (insert, first)
          (
            λ x i. elim i [
              | inl e ↦ subst (λ y. y.created_at ≤ c.created_at) (sym e) le
              | inr j ↦ (let l = s.0 x j in omega (arith, l, le))
            ],
            s,
          ))
  | inr after ↦
      (let le = not_before-le c d after in
        rw (insert, after)
          (
            λ x i. elim (In-insert x c ds i) [
              | inl e ↦ subst (λ y. y.created_at ≤ d.created_at) (sym e) le
              | inr j ↦ s.0 x j
            ],
            insert-NewestFirst c ds s.1,
          ))
]

newest_first-NewestFirst : (cs : List Candidate) → NewestFirst (newest_first cs)
unfolding newest_first
newest_first-NewestFirst [] = tt
newest_first-NewestFirst (c ∷ cs) =
    insert-NewestFirst c (newest_first cs) (newest_first-NewestFirst cs)

-- The decision on a candidate.
abbrev pub IsOf : Candidate → Decision → Type 0
IsOf c d = (d.id ≡ c.id) × (d.created_at ≡ c.created_at)

module _ (m rule : Reasons) (dropped : List String) (over : Bool) where
  -- One candidate's fate.
  pub data Fate (c : Candidate) (cs : List Candidate) : Type 0 where
    stays :
        kept_by m c.id ≡ true
        → (decide (c ∷ cs) m rule dropped over).removed ≡ (decide cs m rule dropped over).removed
        → Fate c cs
    goes :
        kept_by m c.id ≡ false
        → (d : Decision) → IsOf c d
        → (decide (c ∷ cs) m rule dropped over).removed
          ≡ d ∷ (decide cs m rule dropped over).removed
        → Fate c cs

  fate : (c : Candidate) (cs : List Candidate) → Fate c cs
  unfolding decide
  fate c cs = elim (Bool-cases (kept_by m c.id)) [
    | inl kept ↦ stays kept (rw (decide, kept) refl)
    | inr lost ↦ elim (Bool-cases (has dropped c.id || kept_by rule c.id)) [
      | inl big ↦ goes lost (decision c (over_size ∷ [])) (refl, refl) (rw (decide, lost, big) refl)
      | inr none_keeps ↦
          goes lost (decision c (no_rule_keeps ∷ [])) (refl, refl)
            (rw (decide, lost, none_keeps) refl)
    ]
  ]

  -- A removed decision is of a candidate that no reason keeps, and each such candidate has one.
  pub removed-decide :
      (d : Decision) (cs : List Candidate)
      → In d (decide cs m rule dropped over).removed
      → (c : Candidate) × In c cs × (kept_by m c.id ≡ false) × IsOf c d
  unfolding decide
  removed-decide d [] i = absurd i
  removed-decide d (c ∷ cs) i = elim (fate c cs) [
    | stays kept e ↦ let r = removed-decide d cs (subst (In d) e i) in (r.0, inr r.1, r.2, r.3)
    | goes lost x own e ↦
        (let j : In d (x ∷ (decide cs m rule dropped over).removed) = subst (In d) e i in
          elim j [
            | inl q ↦
                (c, inl refl, lost, (ap (λ y. y.id) q ∙ own.0, ap (λ y. y.created_at) q ∙ own.1))
            | inr k ↦ (let r = removed-decide d cs k in (r.0, inr r.1, r.2, r.3))
          ])
  ]

  pub decide-removed :
      (c : Candidate) (cs : List Candidate)
      → In c cs
      → kept_by m c.id ≡ false
      → (d : Decision) × In d (decide cs m rule dropped over).removed × IsOf c d
  decide-removed c [] i lost = absurd i
  decide-removed c (x ∷ cs) i lost = elim (fate x cs) [
    | stays kept e ↦ elim i [
      | inl q ↦ absurd (clash kept (ap (λ y. kept_by m y.id) (sym q) ∙ lost))
      | inr j ↦ (let r = decide-removed c cs j lost in (r.0, subst (In r.0) (sym e) r.1, r.2))
    ]
    | goes gone d own e ↦ elim i [
      | inl q ↦ (
        d,
        subst (In d) (sym e) (inl refl),
        (own.0 ∙ ap (λ y. y.id) (sym q), own.1 ∙ ap (λ y. y.created_at) (sym q)),
      )
      | inr j ↦ (let r = decide-removed c cs j lost in (r.0, subst (In r.0) (sym e) (inr r.1), r.2))
    ]
  ]

  decide-Newest :
      (cs : List Candidate) → NewestFirst cs → Newest (decide cs m rule dropped over).removed
  unfolding decide
  decide-Newest [] s = tt
  decide-Newest (c ∷ cs) s = elim (fate c cs) [
    | stays kept e ↦ subst Newest (sym e) (decide-Newest cs s.1)
    | goes lost d own e ↦ subst Newest (sym e) (
      λ x i.
          let r = removed-decide x cs i in let le = s.0 r.0 r.1 in omega (arith, le, own.1, r.3.1),
      decide-Newest cs s.1,
    )
  ]

  -- What the plan removes is listed with the newest first.
  pub removed-Newest :
      (candidates : List Candidate)
      → Newest (decide (newest_first candidates) m rule dropped over).removed
  removed-Newest candidates =
      decide-Newest (newest_first candidates) (newest_first-NewestFirst candidates)
