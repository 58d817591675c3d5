-- ===== src/Backup/Policy/Fates.antt =====
-- The order and the last loop of `plan`: no backup is lost, and each gets the fate of its reasons.
use mathlib.Core.List.{Perm, perm_middle}
use mathlib.Core.List.Perm
use nxgt_data.Prelude.{
  ℕ, ◌+◌, ◌≡◌, refl, sym, ap, ◌∙◌, inl, inr, Bool, true, ◌||◌, String, List, [], ◌∷◌, ◌++◌, map,
  arith, In, Bool-cases,
}
use nxgt_data.Backup.Rules.{Candidate, Reasons, kept_by}
use nxgt_data.Backup.Policy.{
  has, kept_of, total_size, before, insert, newest_first, Decision, decide,
}

abbrev pub ids : List Decision → List String
ids ds = map (λ d. d.id) ds

abbrev pub candidate_ids : List Candidate → List String
candidate_ids cs = map (λ c. c.id) cs

abbrev pub decision_sizes : List Decision → ℕ
decision_sizes [] = 0
decision_sizes (d ∷ ds) = d.stored_size + decision_sizes ds

insert-In : (c d : Candidate) (ds : List Candidate) → In c (d ∷ ds) → In c (insert d ds)
unfolding insert
insert-In c d [] i = i
insert-In c d (e ∷ es) i = elim (Bool-cases (before d e)) [
  | inl first ↦ rw first i
  | inr later ↦ rw later (elim i [
    | inl q ↦ inr (insert-In c d es (inl q))
    | inr (inl q) ↦ inl q
    | inr (inr j) ↦ inr (insert-In c d es (inr j))
  ])
]

pub In-insert : (c d : Candidate) (ds : List Candidate) → In c (insert d ds) → In c (d ∷ ds)
unfolding insert
In-insert c d [] i = i
In-insert c d (e ∷ es) i = elim (Bool-cases (before d e)) [
  | inl first ↦ rw first at i
  | inr later ↦
      (let j : In c (e ∷ insert d es) = rw later at i in
        elim j [
          | inl q ↦ inr (inl q)
          | inr k ↦ elim (In-insert c d es k) [ inl q ↦ inl q | inr l ↦ inr (inr l) ]
        ])
]

pub newest_first-In : (c : Candidate) (cs : List Candidate) → In c cs → In c (newest_first cs)
unfolding newest_first
newest_first-In c [] i = i
newest_first-In c (d ∷ ds) (inl e) = insert-In c d (newest_first ds) (inl e)
newest_first-In c (d ∷ ds) (inr i) = insert-In c d (newest_first ds) (inr (newest_first-In c ds i))

pub In-newest_first : (c : Candidate) (cs : List Candidate) → In c (newest_first cs) → In c cs
unfolding newest_first
In-newest_first c [] i = i
In-newest_first c (d ∷ ds) i = elim (In-insert c d (newest_first ds) i) [
  | inl e ↦ inl e
  | inr j ↦ inr (In-newest_first c ds j)
]

insert-Perm :
    (c : Candidate) (ds : List Candidate)
    → Perm (candidate_ids (insert c ds)) (c.id ∷ candidate_ids ds)
unfolding insert
insert-Perm c [] = Perm.refl _
insert-Perm c (d ∷ ds) = elim (Bool-cases (before c d)) [
  | inl first ↦ rw first (Perm.refl _)
  | inr later ↦ rw later (Perm.trans (Perm.cons d.id (insert-Perm c ds)) (Perm.swap c.id d.id _))
]

pub newest_first-Perm :
    (cs : List Candidate) → Perm (candidate_ids (newest_first cs)) (candidate_ids cs)
unfolding newest_first
newest_first-Perm [] = Perm.refl _
newest_first-Perm (c ∷ cs) =
    Perm.trans (insert-Perm c (newest_first cs)) (Perm.cons c.id (newest_first-Perm cs))

module _ (m rule : Reasons) (dropped : List String) (over : Bool) where
  pub decide-Perm :
      (cs : List Candidate)
      → Perm
          (ids (decide cs m rule dropped over).kept ++ ids (decide cs m rule dropped over).removed)
          (candidate_ids cs)
  unfolding decide
  decide-Perm [] = Perm.refl _
  decide-Perm (c ∷ cs) =
      let rest = decide cs m rule dropped over in
      let moved =
        Perm.trans (perm_middle {a = c.id} (ids rest.kept) (ids rest.removed))
          (Perm.cons c.id (decide-Perm cs)) in
      elim (Bool-cases (kept_by m c.id)) [
        | inl kept ↦ rw kept (Perm.cons c.id (decide-Perm cs))
        | inr not_kept ↦ elim (Bool-cases (has dropped c.id || kept_by rule c.id)) [
          | inl ruled ↦ rw (not_kept, ruled) moved
          | inr unruled ↦ rw (not_kept, unruled) moved
        ]
      ]

  pub decide-kept :
      (cs : List Candidate) (c : Candidate)
      → In c cs
      → kept_by m c.id ≡ true
      → In c.id (ids (decide cs m rule dropped over).kept)
  unfolding decide
  decide-kept [] c i k = absurd i
  decide-kept (d ∷ ds) c (inl e) k =
      let k' : kept_by m d.id ≡ true = ap (λ x. kept_by m x.id) (sym e) ∙ k in
      rw k' (inl (ap (λ x. x.id) e))
  decide-kept (d ∷ ds) c (inr i) k = elim (Bool-cases (kept_by m d.id)) [
    | inl kept ↦ rw kept (inr (decide-kept ds c i k))
    | inr not_kept ↦ elim (Bool-cases (has dropped d.id || kept_by rule d.id)) [
      | inl ruled ↦ rw (not_kept, ruled) (decide-kept ds c i k)
      | inr unruled ↦ rw (not_kept, unruled) (decide-kept ds c i k)
    ]
  ]

  pub kept-decide :
      (cs : List Candidate) (id : String)
      → In id (ids (decide cs m rule dropped over).kept)
      → kept_by m id ≡ true
  unfolding decide
  kept-decide [] id i = absurd i
  kept-decide (d ∷ ds) id i = elim (Bool-cases (kept_by m d.id)) [
    | inl kept ↦
        (let j : In id (d.id ∷ ids (decide ds m rule dropped over).kept) = rw (decide, kept) at i in
          elim j [ inl e ↦ ap (kept_by m) e ∙ kept | inr l ↦ kept-decide ds id l ])
    | inr not_kept ↦ elim (Bool-cases (has dropped d.id || kept_by rule d.id)) [
      | inl ruled ↦ kept-decide ds id (rw (decide, not_kept, ruled) at i)
      | inr unruled ↦ kept-decide ds id (rw (decide, not_kept, unruled) at i)
    ]
  ]

  pub decide-over : (cs : List Candidate) → (decide cs m rule dropped over).over_size ≡ over
  unfolding decide
  decide-over [] = refl
  decide-over (d ∷ ds) = elim (Bool-cases (kept_by m d.id)) [
    | inl kept ↦ rw kept (decide-over ds)
    | inr not_kept ↦ elim (Bool-cases (has dropped d.id || kept_by rule d.id)) [
      | inl ruled ↦ rw (not_kept, ruled) (decide-over ds)
      | inr unruled ↦ rw (not_kept, unruled) (decide-over ds)
    ]
  ]

  pub decide-size :
      (cs : List Candidate)
      → decision_sizes (decide cs m rule dropped over).kept ≡ total_size (kept_of cs m)
  unfolding decide total_size
  decide-size [] = refl
  decide-size (d ∷ ds) = elim (Bool-cases (kept_by m d.id)) [
    | inl kept ↦ rw kept (omega (arith, decide-size ds))
    | inr not_kept ↦ elim (Bool-cases (has dropped d.id || kept_by rule d.id)) [
      | inl ruled ↦ rw (not_kept, ruled) (decide-size ds)
      | inr unruled ↦ rw (not_kept, unruled) (decide-size ds)
    ]
  ]
