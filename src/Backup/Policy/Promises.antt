-- ===== src/Backup/Policy/Promises.antt =====
-- What `plan` promises of its candidates.
use mathlib.Core.List.{Perm}
use mathlib.Core.List.Perm
use nxgt_data.Prelude.{
  ℕ, ◌≤◌, ◌<◌, ◌≡◌, sym, ap, ◌∙◌, subst, ◌⊎◌, inl, inr, Bool, true, false, ◌||◌, Option, none, some,
  String, str_eq, eq_iff, List, [], ◌∷◌, ◌++◌, take, select, leb, ltb, lt→ltb, arith, In, In-select,
  any-In, select-In, Bool-cases, Option-cases,
}
use nxgt_data.Backup.Rules.{
  Candidate, KeepPolicy, last, max_total_size, Reasons, kept_by, is_past, by_rules, value_or,
}
use nxgt_data.Backup.Rules.Keeps.{by_rules-itself, by_rules-last, by_rules-newest}
use nxgt_data.Backup.Policy.{
  has, by_id, find_parent, kept_of, may_drop, floor, sized, total_size, with_parents, is_parent,
  newest_first, Plan, decide, plan,
}
use nxgt_data.Backup.Policy.Counts.{some-injective, by_id-In}
use nxgt_data.Backup.Policy.Parents.{with_parents-keeps, with_parents-Closed}
use nxgt_data.Backup.Policy.Drops.{may_drop-parts, may_drop-false}
use nxgt_data.Backup.Policy.Sizes.{sized-some, sized-Ended, sized-spares, sized-unlimited}
use nxgt_data.Backup.Policy.Fates.{
  ids, candidate_ids, decision_sizes, newest_first-In, In-newest_first, newest_first-Perm,
  decide-Perm, decide-kept, kept-decide, decide-over, decide-size,
}

-- No two of the candidates have one id.
abbrev pub HasUniqueIds : List Candidate → Type 0
HasUniqueIds cs = (a b : Candidate) → In a cs → In b cs → a.id ≡ b.id → a ≡ b

by_id-ne-none : (cs : List Candidate) (c : Candidate) → In c cs → by_id cs c.id ≡ none → ⊥
unfolding by_id
by_id-ne-none [] c i e = absurd i
by_id-ne-none (d ∷ ds) c i e = elim (Option-cases (by_id ds c.id)) [
  | inr (x, found) ↦
      let bad : ◌≡◌ {A = Option Candidate} (some x) none = rw (by_id, found) at e in cc
  | inl missing ↦ elim i [
    | inl q ↦
        (let same : str_eq d.id c.id ≡ true = (eq_iff d.id c.id).1 (ap (λ x. x.id) (sym q)) in
          let bad : ◌≡◌ {A = Option Candidate} (some d) none = rw (by_id, missing, same) at e in cc)
    | inr j ↦ by_id-ne-none ds c j missing
  ]
]

second_of_three : (a b c : Bool) → b ≡ true → (a || b || c) ≡ true
second_of_three a b c e = ground arith

not_both : (a b : ℕ) → leb a b ≡ true → b < a → ⊥
not_both a b e l = ground arith

has-In : (c : Candidate) (cs : List Candidate) → In c cs → has (candidate_ids cs) c.id ≡ true
has-In c [] i = absurd i
has-In c (d ∷ ds) (inl e) =
    let same : str_eq d.id c.id ≡ true = (eq_iff d.id c.id).1 (ap (λ x. x.id) (sym e)) in rw same
has-In c (d ∷ ds) (inr i) = elim (Bool-cases (str_eq d.id c.id)) [
  | inl same ↦ rw same
  | inr differs ↦ rw differs (has-In c ds i)
]

module _ (candidates : List Candidate) (policy : KeepPolicy) (now : ℕ) where
  abbrev pub newest : List Candidate
  newest = newest_first candidates

  abbrev pub rule : Reasons
  rule = by_rules (newest_first candidates) policy now

  by_id_unique :
      (c : Candidate) → HasUniqueIds candidates → In c candidates → by_id newest c.id ≡ some c
  by_id_unique c unique i = elim (Option-cases (by_id newest c.id)) [
    | inl missing ↦ absurd (by_id-ne-none newest c (newest_first-In c candidates i) missing)
    | inr (d, found) ↦
        (let s = by_id-In newest c.id d found in
          found ∙ ap some (unique d c (In-newest_first d candidates s.0) i s.1))
  ]

  pub record Parts (r : Plan) : Type 0 where
    pub dropped : List String
    pub over : Bool
    pub ended : sized newest rule policy now ≡ some (dropped, over)
    pub result : r ≡ decide newest (with_parents newest rule dropped) rule dropped over

  plan-sized :
      (dropped : List String) (over : Bool)
      → sized newest rule policy now ≡ some (dropped, over)
      → plan candidates policy now
        ≡ some (decide newest (with_parents newest rule dropped) rule dropped over)
  unfolding plan
  plan-sized dropped over e = rw (plan, e)

  -- `plan` returns: the fuel of its size loop suffices.
  pub plan-some : (r : Plan) × (plan candidates policy now ≡ some r)
  plan-some =
      let s = sized-some newest rule policy now in
      (decide newest (with_parents newest rule s.0.0) rule s.0.0 s.0.1, plan-sized s.0.0 s.0.1 s.1)

  -- The backups that count, newest first.
  abbrev pub counted : List Candidate
  counted = select (is_past now) (newest_first candidates)

  -- What no policy removes.
  abbrev pub IsProtected : Candidate → Type 0
  IsProtected c =
      (c.held ≡ true)
      ⊎ (now < c.created_at)
      ⊎ ((n : ℕ) × (policy last ≡ some n) × In c (take n counted))
      ⊎ ((max : ℕ) × (policy max_total_size ≡ some max)
          × (policy last ≡ none)
          × In c (take 1 counted))

  -- Why the size rule leaves a kept backup.
  abbrev pub MustStay : Plan → Candidate → Type 0
  MustStay r c =
      In c.id (floor (newest_first candidates) policy now)
      ⊎ (c.held ≡ true)
      ⊎ (now < c.created_at)
      ⊎ ((k : Candidate) × In k candidates × (is_parent c.id k ≡ true) × In k.id (ids r.kept))

  protected_rule : (c : Candidate) → In c candidates → IsProtected c → kept_by rule c.id ≡ true
  protected_rule c i (inl held) =
      by_rules-itself newest policy now c (newest_first-In c candidates i) (rw held)
  protected_rule c i (inr (inl newer)) =
      by_rules-itself newest policy now c (newest_first-In c candidates i) (
        let t : ltb now c.created_at ≡ true = lt→ltb now c.created_at newer in
        second_of_three c.held (ltb now c.created_at) _ t)
  protected_rule c i (inr (inr (inl (n, set, j)))) = by_rules-last newest policy now n c set j
  protected_rule c i (inr (inr (inr (max, set, unset, j)))) =
      by_rules-newest newest policy now max c set unset j

  floor-In :
      (c : Candidate)
      → In c (take (value_or 1 (policy last)) counted)
      → has (floor newest policy now) c.id ≡ true
  unfolding floor
  floor-In c j = has-In c _ j

  protected_spared :
      (m : Reasons) (d c : Candidate)
      → d ≡ c
      → IsProtected c
      → may_drop newest m policy now d ≡ false
  protected_spared m d c same safe = elim (Bool-cases (may_drop newest m policy now d)) [
    | inr fails ↦ fails
    | inl passes ↦
        absurd (refused (subst (λ x. may_drop newest m policy now x ≡ true) same passes) safe)
  ]
    where
      refused : may_drop newest m policy now c ≡ true → IsProtected c → ⊥
      refused t (inl held) = let free = (may_drop-parts newest m policy now c t).1 in cc
      refused t (inr (inl newer)) = not_both _ _ ((may_drop-parts newest m policy now c t).2) newer
      refused t (inr (inr (inl (n, set, j)))) =
          let f = (may_drop-parts newest m policy now c t).0 in
          let v : value_or 1 (policy last) ≡ n = rw set in
          let h = floor-In c (subst (λ x. In c (take x counted)) (sym v) j) in cc
      refused t (inr (inr (inr (max, set, unset, j)))) =
          let f = (may_drop-parts newest m policy now c t).0 in
          let v : value_or 1 (policy last) ≡ 1 = rw unset in
          let h = floor-In c (subst (λ x. In c (take x counted)) (sym v) j) in cc

  module _ (r : Plan) (e : plan candidates policy now ≡ some r) where
    pub parts : Parts r
    parts =
        let s = sized-some newest rule policy now in
        record {
          dropped = s.0.0;
          over = s.0.1;
          ended = s.1;
          result = some-injective (sym e ∙ plan-sized s.0.0 s.0.1 s.1);
        }

    kept_ids : (p : Parts r) → List String
    kept_ids p = ids (decide newest (with_parents newest rule p.dropped) rule p.dropped p.over).kept

    pub to_kept :
        (c : Candidate)
        → In c candidates
        → kept_by (with_parents newest rule parts.dropped) c.id ≡ true
        → In c.id (ids r.kept)
    to_kept c i k =
        subst (λ x. In c.id (ids x.kept)) (sym parts.result)
          (decide-kept (with_parents newest rule parts.dropped) rule parts.dropped parts.over newest
            c (newest_first-In c candidates i) k)

    pub from_kept :
        (id : String)
        → In id (ids r.kept)
        → kept_by (with_parents newest rule parts.dropped) id ≡ true
    from_kept id i =
        kept-decide (with_parents newest rule parts.dropped) rule parts.dropped parts.over newest id
          (subst (λ x. In id (ids x.kept)) parts.result i)

    -- Each candidate is either kept or removed, and nothing else is.
    pub plan-Perm : Perm (ids r.kept ++ ids r.removed) (candidate_ids candidates)
    plan-Perm =
        Perm.trans
          (subst (λ x. Perm (ids x.kept ++ ids x.removed) (candidate_ids newest)) (sym parts.result)
            (decide-Perm (with_parents newest rule parts.dropped) rule parts.dropped parts.over
              newest))
          (newest_first-Perm candidates)

    -- With ids that are unique, a backup that a kept one builds on is kept.
    pub plan-parent :
        HasUniqueIds candidates
        → (c p : Candidate) → In c candidates
        → In p candidates
        → c.parent ≡ some p.id
        → In c.id (ids r.kept)
        → In p.id (ids r.kept)
    unfolding find_parent
    plan-parent unique c p ic ip builds k =
        let q : find_parent newest c.parent ≡ some p = rw builds (by_id_unique p unique ip) in
        to_kept p ip (
          with_parents-Closed newest rule parts.dropped c.id c (by_id_unique c unique ic)
            (from_kept c.id k) p q)

    rule_keeps :
        (c : Candidate)
        → In c candidates
        → kept_by rule c.id ≡ true
        → has parts.dropped c.id ≡ false
        → In c.id (ids r.kept)
    rule_keeps c i k spared =
        to_kept c i (with_parents-keeps newest rule parts.dropped c.id spared k)

    -- With ids that are unique, `plan` keeps every held backup, every one newer than now, and the
    -- newest `last` of those that count (or the newest, where only sizes are limited).
    pub plan-protected :
        HasUniqueIds candidates
        → (c : Candidate) → In c candidates
        → IsProtected c
        → In c.id (ids r.kept)
    plan-protected unique c i safe = rule_keeps c i (protected_rule c i safe) (
        sized-spares newest rule policy now parts.dropped parts.over c.id
          (λ m d j same.
            protected_spared m d c (unique d c (In-newest_first d candidates j) i same) safe)
          parts.ended)

    -- Where sizes are not limited, whatever a rule keeps is kept.
    pub plan-unlimited :
        policy max_total_size ≡ none
        → (c : Candidate) → In c candidates
        → kept_by (by_rules (newest_first candidates) policy now) c.id ≡ true
        → In c.id (ids r.kept)
    plan-unlimited unset c i k =
        rule_keeps c i k
          (sized-unlimited newest rule policy now parts.dropped parts.over c.id unset parts.ended)

    -- Where sizes are limited to `max`: either what is kept fits and `over_size` is false, or it does
    -- not, `over_size` is true, and each kept backup must stay: it is of the newest `last`, held,
    -- newer than now, or a kept one builds on it.
    pub plan-size :
        (max : ℕ)
        → policy max_total_size ≡ some max
        → ((r.over_size ≡ false) × (decision_sizes r.kept ≤ max))
          ⊎ ((r.over_size ≡ true)
              × (max < decision_sizes r.kept)
              × ((c : Candidate) → In c candidates → In c.id (ids r.kept) → MustStay r c))
    plan-size max set =
        let m = with_parents newest rule parts.dropped in
        let o : r.over_size ≡ parts.over =
          ap (λ x. x.over_size) parts.result ∙ decide-over m rule parts.dropped parts.over newest in
        let z : decision_sizes r.kept ≡ total_size (kept_of newest m) =
          ap (λ x. decision_sizes x.kept) parts.result
          ∙ decide-size m rule parts.dropped parts.over newest in
        elim (sized-Ended newest rule policy now max parts.dropped parts.over set parts.ended) [
          | inl fits ↦ inl (o ∙ fits.0, subst (λ x. x ≤ max) (sym z) fits.1)
          | inr big ↦ inr (
            o ∙ big.0,
            subst (λ x. max < x) (sym z) big.1,
            λ c i k. stays c (
                big.2 c (
                  In-select (λ x. kept_by m x.id) c newest (newest_first-In c candidates i)
                    (from_kept c.id k))),
          )
        ]
      where
        stays :
            (c : Candidate)
            → may_drop newest (with_parents newest rule parts.dropped) policy now c ≡ false
            → MustStay r c
        stays c e =
            elim (may_drop-false newest (with_parents newest rule parts.dropped) policy now c e) [
              | inl f ↦ inl f
              | inr (inl h) ↦ inr (inl h)
              | inr (inr (inl n)) ↦ inr (inr (inl n))
              | inr (inr (inr b)) ↦
                  (let k = any-In (is_parent c.id) _ b in
                    let s =
                      select-In (λ x. kept_by (with_parents newest rule parts.dropped) x.id) k.0
                        newest k.1 in
                    let ic = In-newest_first k.0 candidates s.0 in
                    inr (inr (inr (k.0, ic, k.2, to_kept k.0 ic s.1))))
            ]
