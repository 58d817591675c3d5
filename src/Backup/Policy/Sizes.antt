-- ===== src/Backup/Policy/Sizes.antt =====
-- The size loop of `plan`: its fuel suffices, what it drops it may drop, and `overSize` is exact.
use nxgt_data.Prelude.{
  ℕ, zero, suc, ◌+◌, ◌≤◌, ◌<◌, ◌≡◌, refl, sym, ap, ◌∙◌, subst, ◌⊎◌, inl, inr, Bool, true, false,
  ◌||◌, none, some, String, str_eq, eq_iff, List, [], ◌∷◌, length, leb, leb→le, if◌then◌else◌,
  arith, In, Bool-cases, Option-cases,
}
use nxgt_data.Backup.Rules.{Candidate, KeepPolicy, max_total_size, Reasons}
use nxgt_data.Backup.Policy.{
  has, kept_of, may_drop, droppable, shrink, sized, total_size, with_parents,
}
use nxgt_data.Backup.Policy.Counts.{some-injective}
use nxgt_data.Backup.Policy.Drops.{over_max, droppable-some, droppable-none, droppable-undropped}

-- How many backups are not dropped.
left_over : List Candidate → List String → ℕ
left_over [] dropped = 0
left_over (c ∷ cs) dropped = (if has dropped c.id then 0 else 1) + left_over cs dropped

at_most_one : (b : Bool) → (if b then 0 else 1) ≤ 1
at_most_one b = ground arith

left_over-le : (cs : List Candidate) (dropped : List String) → left_over cs dropped ≤ length cs
unfolding left_over
left_over-le [] dropped = omega arith
left_over-le (c ∷ cs) dropped =
    omega (arith, left_over-le cs dropped, at_most_one (has dropped c.id))

either_fewer : (a b : Bool) → (if a || b then 0 else 1) ≤ (if b then 0 else 1)
either_fewer a b = ground arith

left_over-drop :
    (cs : List Candidate) (id : String) (dropped : List String)
    → left_over cs (id ∷ dropped) ≤ left_over cs dropped
unfolding left_over
left_over-drop [] id dropped = omega arith
left_over-drop (c ∷ cs) id dropped =
    omega (arith, left_over-drop cs id dropped, either_fewer (str_eq id c.id) (has dropped c.id))

left_over-drop_new :
    (cs : List Candidate) (c : Candidate) (dropped : List String)
    → In c cs
    → has dropped c.id ≡ false
    → suc (left_over cs (c.id ∷ dropped)) ≤ left_over cs dropped
unfolding left_over
left_over-drop_new [] c dropped i new = absurd i
left_over-drop_new (d ∷ ds) c dropped (inl e) new =
    let id_eq : c.id ≡ d.id = ap (λ x. x.id) e in
    let same : str_eq c.id d.id ≡ true = (eq_iff c.id d.id).1 id_eq in
    let new' : has dropped d.id ≡ false = ap (has dropped) (sym id_eq) ∙ new in
    let rest = left_over-drop ds c.id dropped in rw (same, new') (omega arith)
left_over-drop_new (d ∷ ds) c dropped (inr i) new = omega (
  arith,
  left_over-drop_new ds c dropped i new,
  either_fewer (str_eq c.id d.id) (has dropped d.id),
)

module _ (newest : List Candidate) (rule : Reasons) (policy : KeepPolicy) (now max : ℕ) where
  shrink-some :
      (n : ℕ) (dropped : List String)
      → left_over newest dropped < n
      → (r : List String × Bool) × (shrink n newest rule policy now max dropped ≡ some r)
  unfolding shrink
  shrink-some zero dropped lt = absurd (omega arith)
  shrink-some (suc n) dropped lt =
      elim (Bool-cases (leb (total_size (kept_of newest (with_parents newest rule dropped))) max)) [
        | inl fits ↦ ((dropped, false), rw (shrink, fits))
        | inr over ↦
            (let m = with_parents newest rule dropped in
              elim (Option-cases (droppable newest m policy now)) [
                | inl stuck ↦ ((dropped, true), rw (shrink, over, stuck))
                | inr (c, found) ↦
                    (let i = (droppable-some newest m policy now c found).0 in
                      let new = droppable-undropped newest rule dropped policy now c found in
                      let fewer = left_over-drop_new newest c dropped i new in
                      let r = shrink-some n (c.id ∷ dropped) (omega arith) in
                      (r.0, rw (shrink, over, found) r.1))
              ])
      ]

  -- What the loop ends with: sizes that fit, or nothing more to drop.
  abbrev pub Ended : List String → Bool → Type 0
  Ended dropped over =
      let kept = kept_of newest (with_parents newest rule dropped) in
      ((over ≡ false) × (total_size kept ≤ max))
      ⊎ ((over ≡ true)
          × (max < total_size kept)
          × ((c : Candidate)
              → In c kept
              → may_drop newest (with_parents newest rule dropped) policy now c ≡ false))

  shrink-Ended :
      (n : ℕ) (dropped d : List String) (over : Bool)
      → shrink n newest rule policy now max dropped ≡ some (d, over)
      → Ended d over
  unfolding shrink
  shrink-Ended zero dropped d over e = cc
  shrink-Ended (suc n) dropped d over e =
      elim (Bool-cases (leb (total_size (kept_of newest (with_parents newest rule dropped))) max)) [
        | inl fits ↦
            (let q : (dropped, false) ≡ (d, over) = some-injective (rw (shrink, fits) at e) in
              subst (λ x. Ended x.0 x.1) q (inl (refl, leb→le _ _ fits)))
        | inr big ↦
            (let m = with_parents newest rule dropped in
              elim (Option-cases (droppable newest m policy now)) [
                | inl stuck ↦
                    (let q : (dropped, true) ≡ (d, over) =
                        some-injective (rw (shrink, big, stuck) at e) in
                      subst (λ x. Ended x.0 x.1) q
                        (inr (
                          refl,
                          over_max _ _ big,
                          λ c i. droppable-none newest m policy now c stuck i,
                        )))
                | inr (c, found) ↦
                    shrink-Ended n (c.id ∷ dropped) d over (rw (shrink, big, found) at e)
              ])
      ]

  -- Whatever may not be dropped from any set of kept backups is not dropped.
  shrink-spares :
      (n : ℕ) (dropped d : List String) (over : Bool) (id : String)
      → ((m : Reasons) (c : Candidate)
          → In c newest
          → c.id ≡ id
          → may_drop newest m policy now c ≡ false)
      → has dropped id ≡ false
      → shrink n newest rule policy now max dropped ≡ some (d, over)
      → has d id ≡ false
  unfolding shrink
  shrink-spares zero dropped d over id safe h e = cc
  shrink-spares (suc n) dropped d over id safe h e =
      elim (Bool-cases (leb (total_size (kept_of newest (with_parents newest rule dropped))) max)) [
        | inl fits ↦
            (let q : (dropped, false) ≡ (d, over) = some-injective (rw (shrink, fits) at e) in
              subst (λ x. has x.0 id ≡ false) q h)
        | inr big ↦
            (let m = with_parents newest rule dropped in
              elim (Option-cases (droppable newest m policy now)) [
                | inl stuck ↦
                    (let q : (dropped, true) ≡ (d, over) =
                        some-injective (rw (shrink, big, stuck) at e) in
                      subst (λ x. has x.0 id ≡ false) q h)
                | inr (c, found) ↦
                    shrink-spares n (c.id ∷ dropped) d over id safe (still m c found)
                      (rw (shrink, big, found) at e)
              ])
      ]
    where
      still :
          (m : Reasons) (c : Candidate)
          → droppable newest m policy now ≡ some c
          → has (c.id ∷ dropped) id ≡ false
      still m c found = elim (Bool-cases (str_eq c.id id)) [
        | inl same ↦
            (let r = droppable-some newest m policy now c found in
              let f = safe m c r.0 ((eq_iff c.id id).0 same) in let t = r.2 in cc)
        | inr differs ↦ rw differs h
      ]

-- The fuel suffices.
pub sized-some :
    (newest : List Candidate) (rule : Reasons) (policy : KeepPolicy) (now : ℕ)
    → (r : List String × Bool) × (sized newest rule policy now ≡ some r)
unfolding sized
sized-some newest rule policy now = elim (Option-cases (policy max_total_size)) [
  | inl unset ↦ (([], false), rw (sized, unset))
  | inr (max, set) ↦
      (let le = left_over-le newest [] in
        let r = shrink-some newest rule policy now max (suc (length newest)) [] (omega arith) in
        (r.0, rw (sized, set) r.1))
]

pub sized-Ended :
    (newest : List Candidate) (rule : Reasons) (policy : KeepPolicy) (now max : ℕ) (d : List String)
    (over : Bool)
    → policy max_total_size ≡ some max
    → sized newest rule policy now ≡ some (d, over)
    → Ended newest rule policy now max d over
unfolding sized
sized-Ended newest rule policy now max d over set e =
    shrink-Ended newest rule policy now max (suc (length newest)) [] d over (rw (sized, set) at e)

pub sized-spares :
    (newest : List Candidate) (rule : Reasons) (policy : KeepPolicy) (now : ℕ) (d : List String)
    (over : Bool) (id : String)
    → ((m : Reasons) (c : Candidate)
        → In c newest
        → c.id ≡ id
        → may_drop newest m policy now c ≡ false)
    → sized newest rule policy now ≡ some (d, over)
    → has d id ≡ false
unfolding sized
sized-spares newest rule policy now d over id safe e = elim (Option-cases (policy max_total_size)) [
  | inl unset ↦
      (let q : ([], false) ≡ (d, over) = some-injective (rw (sized, unset) at e) in
        subst (λ x. has x.0 id ≡ false) q refl)
  | inr (max, set) ↦
      shrink-spares newest rule policy now max (suc (length newest)) [] d over id safe refl
        (rw (sized, set) at e)
]

-- Without a limit nothing is dropped.
pub sized-unlimited :
    (newest : List Candidate) (rule : Reasons) (policy : KeepPolicy) (now : ℕ) (d : List String)
    (over : Bool) (id : String)
    → policy max_total_size ≡ none
    → sized newest rule policy now ≡ some (d, over)
    → has d id ≡ false
unfolding sized
sized-unlimited newest rule policy now d over id unset e =
    let q : ([], false) ≡ (d, over) = some-injective (rw (sized, unset) at e) in
    subst (λ x. has x.0 id ≡ false) q refl
