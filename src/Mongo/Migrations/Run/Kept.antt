-- ===== src/Mongo/Migrations/Run/Kept.antt =====
-- What `migrate` and `rollback` leave recorded, however they end.
use nxgt_data.Prelude.{
  ℕ, zero, suc, ◌+◌, ◌-◌, ◌≤◌, ◌≡◌, refl, sym, ap, ◌∙◌, subst, ◌⊎◌, inl, inr, Bool, Option, some,
  String, List, [], ◌∷◌, length, take, drop, arith, Bool-cases, length-drop, length-take, leb,
  leb→le, min, max, reverse, reverse_aux, Option-cases,
}
use nxgt_data.Mongo.Migrations.{
  Step, Migration, MigrationRecord, Reversal, Checked, ok, refused, PlanError, check_list,
  apply_end, revert_start, to_apply, to_revert, with_downs, slice, no_down,
}
use nxgt_data.Mongo.Migrations.Run.{Db, migrate, rollback, applied_from, reverted_from}
use nxgt_data.Mongo.Migrations.Applied.{IsApplied, check_list-Distinct}
use nxgt_data.Mongo.Migrations.Prefix.{check_applied_iff, ok-injective}
use nxgt_data.Mongo.Migrations.Run.Steps.{take_next}
use nxgt_data.Mongo.Migrations.Run.Loops.{apply_all-Advanced, Undoes, revert_all-Undone}

pub Checked-cases :
    {A : Type 0} (c : Checked A) → ((a : A) × (c ≡ ok a)) ⊎ ((e : PlanError) × (c ≡ refused e))
Checked-cases (ok a) = inl (a, refl)
Checked-cases (refused e) = inr (e, refl)

module _ {W : Type 0} (clock : ℕ → ℕ × ℕ) (lost : ℕ → Bool) where
  -- What a plan to apply is, of `n` applied migrations.
  planned :
      (ms : List (Migration W)) (rs : List MigrationRecord) (to : Option String) (n : ℕ)
      → check_list ms ≡ ok tt
      → IsApplied ms rs n
      → ((j : ℕ) × (to_apply ms rs to ≡ ok (take j (drop n ms))))
        ⊎ ((e : PlanError) × (to_apply ms rs to ≡ refused e))
  unfolding to_apply
  planned ms rs to n c a =
      let counted = (check_applied_iff ms rs n c).1 a in
      elim (Checked-cases (apply_end ms to)) [
        | inl (end, e) ↦ inl (max n end - n, rw (to_apply, counted, e) refl)
        | inr (r, e) ↦ inr (r, rw (to_apply, counted, e) refl)
      ]

  -- However `migrate` ends, what is recorded is again a prefix of the list, and no shorter.
  pub migrate-keeps :
      (ms : List (Migration W)) (to : Option String) (dry_run free : Bool) (db : Db W) (n : ℕ)
      → IsApplied ms db.records n
      → (n' : ℕ) × (n ≤ n') × IsApplied ms (migrate clock lost ms to dry_run free db).0.records n'
  unfolding migrate applied_from
  migrate-keeps ms to dry_run free db n a = elim (Checked-cases (check_list ms)) [
    | inr (r, e) ↦ rw (migrate, e) (n, omega arith, a)
    | inl (u, e) ↦ elim (Bool-cases dry_run) [
      | inl dry ↦ rw (migrate, e, dry) (n, omega arith, a)
      | inr wet ↦ elim (Bool-cases free) [
        | inr held ↦ rw (migrate, e, wet, held) (n, omega arith, a)
        | inl unlocked ↦ elim (planned ms db.records to n e a) [
          | inr (r, p) ↦ rw (migrate, e, wet, unlocked, p, applied_from) (n, omega arith, a)
          | inl (j, p) ↦
              (let r = apply_all-Advanced clock lost ms j 0 n (drop n ms) db refl a in
                rw (migrate, e, wet, unlocked, p, applied_from) (r.to, r.grows, r.applied))
        ]
      ]
    ]
  ]

  with_downs-cons :
      (m : Migration W) (acc : List (Migration W)) (ws : List (Reversal W))
      → with_downs (m ∷ acc) ≡ ok ws
      → (down : Step W) × (rs : List (Reversal W)) × (m.down ≡ some down)
        × (with_downs acc ≡ ok rs)
        × (ws ≡ record { migration = m; down = down } ∷ rs)
  unfolding with_downs
  with_downs-cons m acc ws e = elim (Option-cases m.down) [
    | inl absent ↦
        let bad : ◌≡◌ {A = Checked (List (Reversal W))} (refused (no_down m.id)) (ok ws) =
          rw (with_downs, absent) at e in
        cc
    | inr (down, has) ↦ elim (Checked-cases (with_downs acc)) [
      | inr (r, q) ↦
          let bad : ◌≡◌ {A = Checked (List (Reversal W))} (refused r) (ok ws) =
            rw (with_downs, has, q) at e in
          cc
      | inl (rs, q) ↦
          (let same : ok (record { migration = m; down = down } ∷ rs) ≡ ok ws =
              rw (with_downs, has, q) at e in
            (down, rs, has, q, sym (ok-injective same)))
    ]
  ]

  module _ (ms : List (Migration W)) where
    -- The reversals of a stretch, last first, undo it.
    Undoes-with_downs :
        (j n s : ℕ) (l acc : List (Migration W)) (vs : List (Reversal W))
        → drop n ms ≡ l
        → ((ws : List (Reversal W)) → with_downs acc ≡ ok ws → Undoes clock lost ms n s ws)
        → with_downs (reverse_aux (take j l) acc) ≡ ok vs
        → Undoes clock lost ms (n + length (take j l)) s vs
    Undoes-with_downs zero n s l acc vs e f q =
        subst (λ c. Undoes clock lost ms c s vs) (omega arith) (f vs q)
    Undoes-with_downs (suc j) n s [] acc vs e f q =
        subst (λ c. Undoes clock lost ms c s vs) (omega arith) (f vs q)
    Undoes-with_downs (suc j) n s (m ∷ rest) acc vs e f q =
        subst (λ c. Undoes clock lost ms c s vs) (omega arith)
          (Undoes-with_downs j (suc n) s rest (m ∷ acc) vs (take_next n ms m rest e).1
            (λ ws p.
              let r = with_downs-cons m acc ws p in
              subst (λ v. Undoes clock lost ms (suc n) s v) (sym r.4)
                (n, rest, refl, e, r.2, f r.1 r.3))
            q)

    -- What a plan to undo is, of `n` applied migrations.
    planned_down :
        (rs : List MigrationRecord) (to : Option String) (n : ℕ)
        → check_list ms ≡ ok tt
        → IsApplied ms rs n
        → ((until : ℕ) × (vs : List (Reversal W)) × (to_revert ms rs to ≡ ok vs)
            × Undoes clock lost ms n until vs)
          ⊎ ((e : PlanError) × (to_revert ms rs to ≡ refused e))
    unfolding to_revert
    planned_down rs to n c a =
        let counted = (check_applied_iff ms rs n c).1 a in
        elim (Checked-cases (revert_start ms n to)) [
          | inr (r, e) ↦ inr (r, rw (to_revert, counted, e) refl)
          | inl (start, e) ↦
              elim (Checked-cases (with_downs (reverse (slice start (max start n) ms)))) [
                | inr (r, w) ↦ inr (r, rw (to_revert, counted, e, w) refl)
                | inl (vs, w) ↦
                    inl (min start n, vs, rw (to_revert, counted, e, w) refl, within start vs w)
              ]
        ]
      where
        within :
            (start : ℕ) (vs : List (Reversal W))
            → with_downs (reverse (slice start (max start n) ms)) ≡ ok vs
            → Undoes clock lost ms n (min start n) vs
        within start vs w = elim (Bool-cases (leb start n)) [
          | inl below ↦
              (let le : start ≤ n = leb→le start n below in
                let size : length (take (max start n - start) (drop start ms))
                    ≡ min (max start n - start) (length ms - start) =
                  length-take (max start n - start) (drop start ms)
                  ∙ ap (min (max start n - start)) (length-drop start ms) in
                subst (λ c. Undoes clock lost ms c (min start n) vs)
                  (omega (arith, size, le, a.few))
                  (Undoes-with_downs (max start n - start) start (min start n) (drop start ms) [] vs
                    refl
                    (λ ws q.
                      subst (λ v. Undoes clock lost ms start (min start n) v) (ok-injective q)
                        (omega (arith, le)))
                    w))
          | inr above ↦
              (let lt : n ≤ start = ground arith in
                let empty : max start n - start ≡ 0 = omega (arith, lt) in
                let w' : with_downs (reverse (take 0 (drop start ms))) ≡ ok vs = rw empty at w in
                subst (λ v. Undoes clock lost ms n (min start n) v) (ok-injective w')
                  (omega (arith, lt)))
        ]

  -- However `rollback` ends, what is recorded is again a prefix of the list, and no longer.
  pub rollback-keeps :
      (ms : List (Migration W)) (to : Option String) (dry_run free : Bool) (db : Db W) (n : ℕ)
      → IsApplied ms db.records n
      → (n' : ℕ) × (n' ≤ n) × IsApplied ms (rollback clock lost ms to dry_run free db).0.records n'
  unfolding rollback reverted_from
  rollback-keeps ms to dry_run free db n a = elim (Checked-cases (check_list ms)) [
    | inr (r, e) ↦ rw (rollback, e) (n, omega arith, a)
    | inl (u, e) ↦ elim (Bool-cases dry_run) [
      | inl dry ↦ rw (rollback, e, dry) (n, omega arith, a)
      | inr wet ↦ elim (Bool-cases free) [
        | inr held ↦ rw (rollback, e, wet, held) (n, omega arith, a)
        | inl unlocked ↦ elim (planned_down ms db.records to n e a) [
          | inr (r, p) ↦ rw (rollback, e, wet, unlocked, p, reverted_from) (n, omega arith, a)
          | inl (until, vs, p, undoes) ↦
              (let r =
                  revert_all-Undone clock lost ms 0 n until vs db (check_list-Distinct ms e) undoes
                    a in
                rw (rollback, e, wet, unlocked, p, reverted_from) (r.to, r.shrinks, r.applied))
        ]
      ]
    ]
  ]
