-- ===== src/Backup/Prune/Safe.antt =====
-- What `prune` leaves, wherever it stops.
use nxgt_data.Prelude.{
  ℕ, ◌<◌, ◌≡◌, refl, sym, ap, ◌∙◌, subst, ◌⊎◌, inl, inr, Bool, true, false, Option, none, some,
  String, List, ◌++◌, any, select, In, Bool-cases, Option-cases, In-select, select-In, In-append,
  append-In, In-map, clash, arith,
}
use nxgt_data.Backup.Rules.{Candidate, KeepPolicy}
use nxgt_data.Backup.Policy.{has, Decision, Plan, plan}
use nxgt_data.Backup.Policy.Counts.{some-injective}
use nxgt_data.Backup.Policy.Fates.{ids}
use nxgt_data.Backup.Policy.Promises.{HasUniqueIds, plan-protected, plan-parent}
use nxgt_data.Backup.Policy.Going.{plan-removed, plan-fate, plan-Newest}
use nxgt_data.Backup.Prune.{
  Key, same_key, manifest_key, Fetched, remove_all, Decided, shown, of_plan, decided, candidates_of,
  complete_ids, incomplete_ids, prune_backups, removing,
}
use nxgt_data.Backup.Prune.Deletes.{Swept, doomed, remove_all-Swept}
use nxgt_data.Backup.Prune.Order.{In-gone, gone-In, manifest_before}
use nxgt_data.Backup.Prune.Candidates.{
  IsSpared, IsSpared-held, complete_ids-manifest, incomplete_ids-complete_ids, In-has,
  candidates_of-Known, candidates-HasUniqueIds,
}
use nxgt_data.Backup.Prune.Ages.{doomed-id, select-Newest, older_after}

module _ (is_id : String → Bool) (time_of : String → ℕ) (fetch : String → Fetched)
    (held : List String) (keep : KeepPolicy) (now clock after : ℕ) (dry_run free : Bool)
    (lease : ℕ → Bool) (keys : List Key) where
  -- The keys that `prune` leaves.
  abbrev pub left_keys : List Key
  left_keys =
      (prune_backups is_id time_of fetch held keep now clock after dry_run free lease keys).0

  abbrev going : List String → Plan → List String
  going bad p = ids (select (shown bad) p.removed) ++ incomplete_ids is_id time_of clock after keys

  -- A removal under way: what was read and planned, and the deletes.
  record Removal : Type 0 where
    cs : List Candidate
    bad : List String
    p : Plan
    read : candidates_of is_id time_of fetch held (complete_ids is_id keys) ≡ some (cs, bad)
    planned : plan cs keep now ≡ some p
    swept :
        Swept
          (doomed keys (going bad p))
          keys
          (remove_all lease keys (going bad p) (record { turn = 0; keys = keys; going = true }))
    final :
        left_keys
        ≡ (remove_all lease keys
            (going bad p)
            (record { turn = 0; keys = keys; going = true })).keys

  -- What `decide` answers, from what was read and planned.
  record Deciding (d : Decided) : Type 0 where
    cs : List Candidate
    bad : List String
    p : Plan
    read : candidates_of is_id time_of fetch held (complete_ids is_id keys) ≡ some (cs, bad)
    planned : plan cs keep now ≡ some p
    same : d ≡ of_plan is_id time_of fetch held clock after keys bad p

  decided-Deciding :
      (d : Decided)
      → decided is_id time_of fetch held keep now clock after keys ≡ some d
      → Deciding d
  unfolding decided
  decided-Deciding d e =
      elim (Option-cases (candidates_of is_id time_of fetch held (complete_ids is_id keys))) [
        | inl throws ↦
            (let q : ◌≡◌ {A = Option Decided} none (some d) = rw (decided, throws) at e in cc)
        | inr ((cs, bad), read) ↦ elim (Option-cases (plan cs keep now)) [
          | inl fails ↦
              (let q : ◌≡◌ {A = Option Decided} none (some d) = rw (decided, read, fails) at e in
                cc)
          | inr (p, planned) ↦ record {
            cs = cs;
            bad = bad;
            p = p;
            read = read;
            planned = planned;
            same = sym (some-injective (rw (decided, read, planned) at e));
          }
        ]
      ]

  removed_by : (d : Decided) → Deciding d → left_keys ≡ (removing lease keys (some d)).0 → Removal
  unfolding removing
  removed_by d g e = record {
    cs = g.cs;
    bad = g.bad;
    p = g.p;
    read = g.read;
    planned = g.planned;
    swept =
        remove_all-Swept lease keys (going g.bad g.p)
          (record { turn = 0; keys = keys; going = true }) refl;
    final = e ∙ ap (λ x. (removing lease keys (some x)).0) g.same;
  }

  with_lock :
      dry_run ≡ false
      → free ≡ true
      → left_keys
        ≡ (removing lease keys (decided is_id time_of fetch held keep now clock after keys)).0
  unfolding prune_backups
  with_lock wet unlocked = rw (prune_backups, wet, unlocked) refl

  outcome : (left_keys ≡ keys) ⊎ Removal
  unfolding prune_backups removing
  outcome = elim (Bool-cases dry_run) [
    | inl dry ↦ inl (rw (prune_backups, dry) refl)
    | inr wet ↦ elim (Bool-cases free) [
      | inr taken ↦ inl (rw (prune_backups, wet, taken) refl)
      | inl unlocked ↦
          elim (Option-cases (decided is_id time_of fetch held keep now clock after keys)) [
            | inl fails ↦ inl (with_lock wet unlocked ∙ ap (λ o. (removing lease keys o).0) fails)
            | inr (d, e) ↦ inr (
                removed_by d (decided-Deciding d e)
                  (with_lock wet unlocked ∙ ap (λ o. (removing lease keys o).0) e))
          ]
    ]
  ]

  -- Wherever a prune stops, a backup whose manifest is left has all its keys left.
  pub prune_whole : (k : Key) → In k keys → In (manifest_key k.id) left_keys → In k left_keys
  prune_whole k i there = elim outcome [
    | inl same ↦ subst (In k) (sym same) i
    | inr g ↦
        (let m =
            g.swept.left_of (manifest_key k.id) (subst (In (manifest_key k.id)) g.final there) in
          elim (Bool-cases (any (same_key k) g.swept.gone)) [
            | inr safe ↦ subst (In k) (sym g.final) (g.swept.stays k i safe)
            | inl lost ↦
                (let first =
                    manifest_before (going g.bad g.p) keys g.swept.gone g.swept.left k g.swept.split
                      (In-gone k g.swept.gone lost) m.0 in
                  absurd (clash (gone-In (manifest_key k.id) g.swept.gone first) m.1))
          ])
  ]

  -- Why an id is removed: the plan removed its candidate, or it is incomplete.
  going-In :
      (g : Removal) (id : String)
      → In id (going g.bad g.p)
      → ((d : Decision) × In d g.p.removed × (id ≡ d.id))
        ⊎ In id (incomplete_ids is_id time_of clock after keys)
  going-In g id i = elim (In-append id (ids (select (shown g.bad) g.p.removed)) _ i) [
    | inr j ↦ inr j
    | inl j ↦
        (let d = In-map (λ x. x.id) id (select (shown g.bad) g.p.removed) j in
          inl (d.0, (select-In (shown g.bad) d.0 g.p.removed d.1).0, d.2))
  ]

  held_kept : (g : Removal) (c : Candidate) → In c g.cs → c.held ≡ true → In c.id (ids g.p.kept)
  held_kept g c i h =
      plan-protected g.cs keep now g.p g.planned
        (candidates-HasUniqueIds is_id time_of fetch held _ g.cs g.bad g.read) c i (inl h)

  -- Wherever a prune stops, a complete backup that is held, or whose manifest does not read, has all
  -- its keys left.
  pub prune_spares :
      (k : Key)
      → In k keys
      → In k.id (complete_ids is_id keys)
      → IsSpared is_id time_of fetch held k.id
      → In k left_keys
  prune_spares k i complete spared = elim outcome [
    | inl same ↦ subst (In k) (sym same) i
    | inr g ↦ elim (Bool-cases (any (same_key k) g.swept.gone)) [
      | inr safe ↦ subst (In k) (sym g.final) (g.swept.stays k i safe)
      | inl lost ↦
          (let d : In k (doomed keys (going g.bad g.p)) =
              subst (In k) g.swept.split
                (append-In k g.swept.gone g.swept.left (inl (In-gone k g.swept.gone lost))) in
            absurd (elim (going-In g k.id (doomed-id k keys (going g.bad g.p) d)) [
              | inr j ↦ incomplete_ids-complete_ids is_id time_of clock after keys k.id j complete
              | inl (x, j, same) ↦ of_removed g x j same
            ]))
    ]
  ]
    where
      of_removed : (g : Removal) (x : Decision) → In x g.p.removed → k.id ≡ x.id → ⊥
      of_removed g x j same =
          let c = plan-removed g.cs keep now g.p g.planned x j in
          let known = candidates_of-Known is_id time_of fetch held _ g.cs g.bad g.read in
          let e : k.id ≡ c.0.id = same ∙ c.2.0 in
          let h =
            IsSpared-held is_id time_of fetch held c.0 (known.from c.0 c.1).1
              (subst (IsSpared is_id time_of fetch held) e spared) in
          c.3 (subst (λ y. In y (ids g.p.kept)) (sym (c.2.0)) (held_kept g c.0 c.1 h))

  module _ (g : Removal) where
    unique : HasUniqueIds g.cs
    unique = candidates-HasUniqueIds is_id time_of fetch held _ g.cs g.bad g.read

    was_shown : (d : Decision) → In d g.p.removed → shown g.bad d ≡ true
    was_shown d i = elim (Bool-cases (has g.bad d.id)) [
      | inr ok_id ↦ rw ok_id
      | inl bad_id ↦
          (let known = candidates_of-Known is_id time_of fetch held _ g.cs g.bad g.read in
            let c = known.bad_of d.id (In-has d.id g.bad bad_id) in
            let kept = held_kept g c.0 c.1 c.3 in
            absurd (
              (plan-removed g.cs keep now g.p g.planned d i).3
                (subst (λ x. In x (ids g.p.kept)) c.2 kept)))
    ]

    -- A parent that goes, goes after what builds on it.
    child_gone :
        (c p : Candidate)
        → In c g.cs
        → In p g.cs
        → c.parent ≡ some p.id
        → p.created_at < c.created_at
        → In p.id (complete_ids is_id keys)
        → In (manifest_key c.id) keys
        → In (manifest_key p.id) g.swept.gone
        → In (manifest_key c.id) g.swept.gone
    child_gone c p i j builds older complete there gone =
        let planned_delete : In (manifest_key p.id) (doomed keys (going g.bad g.p)) =
          subst (In (manifest_key p.id)) g.swept.split
            (append-In (manifest_key p.id) g.swept.gone g.swept.left (inl gone)) in
        elim (going-In g p.id
          (doomed-id (manifest_key p.id) keys (going g.bad g.p) planned_delete)) [
            | inr k ↦
                absurd (incomplete_ids-complete_ids is_id time_of clock after keys p.id k complete)
            | inl (x, k, same) ↦ elim (plan-fate g.cs keep now g.p g.planned c i) [
              | inl kept ↦
                  (let parent_kept =
                      plan-parent g.cs keep now g.p g.planned unique c p i j builds kept in
                    absurd (
                      (plan-removed g.cs keep now g.p g.planned x k).3
                        (subst (λ y. In y (ids g.p.kept)) same parent_kept)))
              | inr (d, l, of) ↦
                  (let there' = subst (λ y. In (manifest_key y) keys) (sym of.0) there in
                    let lt : p.created_at < d.created_at = omega (arith, older, of.1) in
                    subst (λ y. In (manifest_key y) g.swept.gone) of.0
                      (older_after (select (shown g.bad) g.p.removed)
                        (incomplete_ids is_id time_of clock after keys) keys g.swept.gone
                        g.swept.left d p.id p.created_at g.swept.split
                        (select-Newest (shown g.bad) g.p.removed
                          (plan-Newest g.cs keep now g.p g.planned))
                        (In-select (shown g.bad) d g.p.removed l (was_shown d l)) lt times there'
                        gone))
            ]
          ]
      where
        times :
            (d : Decision)
            → In d (select (shown g.bad) g.p.removed)
            → d.id ≡ p.id
            → d.created_at ≡ p.created_at
        times d l e =
            let q =
              plan-removed g.cs keep now g.p g.planned d
                (select-In (shown g.bad) d g.p.removed l).0 in
            let same = unique q.0 p q.1 j (sym (q.2.0) ∙ e) in q.2.1 ∙ ap (λ x. x.created_at) same

  -- Wherever a prune stops, a backup whose manifest is left has the manifest of the one that it
  -- builds on left, where that one was there and is older.
  pub prune_parent :
      (cs : List Candidate) (bad : List String)
      → candidates_of is_id time_of fetch held (complete_ids is_id keys) ≡ some (cs, bad)
      → (c p : Candidate) → In c cs
      → In p cs
      → c.parent ≡ some p.id
      → p.created_at < c.created_at
      → In (manifest_key c.id) left_keys
      → In (manifest_key p.id) left_keys
  prune_parent cs bad read c p i j builds older there =
      let known =
        candidates_of-Known is_id time_of fetch held (complete_ids is_id keys) cs bad read in
      let complete : In p.id (complete_ids is_id keys) = (known.from p j).0 in
      let here = complete_ids-manifest is_id keys p.id complete in
      elim outcome [
        | inl same ↦ subst (In (manifest_key p.id)) (sym same) here
        | inr g ↦ elim (Bool-cases (any (same_key (manifest_key p.id)) g.swept.gone)) [
          | inr safe ↦
              subst (In (manifest_key p.id)) (sym g.final)
                (g.swept.stays (manifest_key p.id) here safe)
          | inl lost ↦
              (let eq : (g.cs, g.bad) ≡ (cs, bad) = some-injective (sym g.read ∙ read) in
                let m =
                  g.swept.left_of (manifest_key c.id)
                    (subst (In (manifest_key c.id)) g.final there) in
                let first =
                  child_gone g c p (subst (λ x. In c x.0) (sym eq) i)
                    (subst (λ x. In p x.0) (sym eq) j) builds older complete m.0
                    (In-gone (manifest_key p.id) g.swept.gone lost) in
                absurd (clash (gone-In (manifest_key c.id) g.swept.gone first) m.1))
        ]
      ]
