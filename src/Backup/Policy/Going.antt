-- ===== src/Backup/Policy/Going.antt =====
-- What the plan removes of its candidates, and that it removes nothing that it keeps.
use nxgt_data.Prelude.{clash, ℕ, ◌≡◌, sym, subst, ◌⊎◌, inl, inr, some, List, In, Bool-cases}
use nxgt_data.Backup.Rules.{Candidate, KeepPolicy, kept_by}
use nxgt_data.Backup.Policy.{Decision, Plan, plan, with_parents}
use nxgt_data.Backup.Policy.Fates.{ids, In-newest_first, newest_first-In}
use nxgt_data.Backup.Policy.Promises.{newest, rule, Parts, parts, to_kept, from_kept}
use nxgt_data.Backup.Policy.Removed.{Newest, IsOf, removed-decide, decide-removed, removed-Newest}

module _ (candidates : List Candidate) (policy : KeepPolicy) (now : ℕ) (r : Plan)
    (e : plan candidates policy now ≡ some r) where
  abbrev of : Parts candidates policy now r
  of = parts candidates policy now r e

  pub plan-removed :
      (d : Decision)
      → In d r.removed
      → (c : Candidate) × In c candidates × IsOf c d × (In d.id (ids r.kept) → ⊥)
  plan-removed d i =
      let j = subst (λ p. In d p.removed) of.result i in
      let c = removed-decide _ _ of.dropped of.over d (newest candidates policy now) j in
      (
        c.0,
        In-newest_first c.0 candidates c.1,
        c.3,
        λ k.
            clash
              (from_kept candidates policy now r e c.0.id
                (subst (λ x. In x (ids r.kept)) (c.3.0) k))
              c.2,
      )

  pub plan-fate :
      (c : Candidate)
      → In c candidates
      → In c.id (ids r.kept) ⊎ ((d : Decision) × In d r.removed × IsOf c d)
  plan-fate c i =
      elim (Bool-cases (
        kept_by
          (with_parents (newest candidates policy now) (rule candidates policy now) of.dropped)
          c.id)) [
            | inl kept ↦ inl (to_kept candidates policy now r e c i kept)
            | inr lost ↦
                (let d =
                    decide-removed _ (rule candidates policy now) of.dropped of.over c _
                      (newest_first-In c candidates i) lost in
                  inr (d.0, subst (λ p. In d.0 p.removed) (sym of.result) d.1, d.2))
          ]

  pub plan-Newest : Newest r.removed
  plan-Newest =
      subst (λ p. Newest p.removed) (sym of.result)
        (removed-Newest _ (rule candidates policy now) of.dropped of.over candidates)
