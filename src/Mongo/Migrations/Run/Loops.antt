-- ===== src/Mongo/Migrations/Run/Loops.antt =====
-- Wherever a run stops, what is recorded is a prefix of the list.
use nxgt_data.Prelude.{
  ℕ, zero, suc, ◌+◌, ◌≤◌, ◌≡◌, refl, sym, ◌∙◌, subst, inl, inr, Bool, some, String, List, [], ◌∷◌,
  length, take, drop, arith, Bool-cases,
}
use nxgt_data.Mongo.Migrations.{Migration, Reversal}
use nxgt_data.Mongo.Migrations.Run.{
  Db, Ran, done, lock_lost, failed, ran_after, run_step, write_record, remove_record, apply_all,
  revert_all,
}
use nxgt_data.Mongo.Migrations.Applied.{IsApplied, Distinct}
use nxgt_data.Mongo.Migrations.Run.Steps.{
  Recorded, Removed, run_step-Recorded, run_step-Removed, IsApplied-written, IsApplied-erased,
  take_next,
}

ran_after-done :
    (id : String) (r : Ran) (ids : List String)
    → ran_after id r ≡ done ids
    → (rest : List String) × (r ≡ done rest)
ran_after-done id (done rest) ids e = (rest, refl)
ran_after-done id lock_lost ids e = cc
ran_after-done id (failed f) ids e = cc

suc_add : (a b : ℕ) → suc a + b ≡ a + suc b
suc_add a b = omega arith

module _ {W : Type 0} (clock : ℕ → ℕ × ℕ) (lost : ℕ → Bool) (ms : List (Migration W)) where
  -- A run from `n` applied migrations on, over a plan of `size`.
  pub record Advanced (n size : ℕ) (r : Db W × Ran) : Type 0 where
    pub to : ℕ
    pub grows : n ≤ to
    pub applied : IsApplied ms r.0.records to
    pub whole : (ids : List String) → r.1 ≡ done ids → to ≡ n + size

  pub apply_all-Advanced :
      (j k n : ℕ) (l : List (Migration W)) (db : Db W)
      → drop n ms ≡ l
      → IsApplied ms db.records n
      → Advanced n (length (take j l)) (apply_all clock lost k (take j l) db)
  unfolding apply_all
  apply_all-Advanced zero k n l db e a = record {
    to = n;
    grows = omega arith;
    applied = a;
    whole = λ ids q. omega arith;
  }
  apply_all-Advanced (suc j) k n [] db e a = record {
    to = n;
    grows = omega arith;
    applied = a;
    whole = λ ids q. omega arith;
  }
  apply_all-Advanced (suc j) k n (m ∷ rest) db e a = elim (Bool-cases (lost k)) [
    | inl gone ↦
        rw (apply_all, gone)
          (record { to = n; grows = omega arith; applied = a; whole = λ ids q. cc })
    | inr held ↦ elim (run_step-Recorded m m.up m.id (clock k).0 (clock k).1 db) [
      | Recorded.unchanged f same ↦
          rw (apply_all, held, f)
            (record {
              to = n;
              grows = omega arith;
              applied = subst (λ rs. IsApplied ms rs n) (sym same) a;
              whole = λ ids q. cc;
            })
      | Recorded.written t w ↦
          (let next : IsApplied ms
                (run_step m m.up (write_record m.id (clock k).0 (clock k).1) db).0.records (suc n) =
              IsApplied-written ms rest db.records _ n m e a w in
            let r =
              apply_all-Advanced j (k + 1) (suc n) rest
                (run_step m m.up (write_record m.id (clock k).0 (clock k).1) db).0
                (take_next n ms m rest e).1 next in
            rw (apply_all, held, t)
              (record {
                to = r.to;
                grows = omega (arith, r.grows);
                applied = r.applied;
                whole =
                    λ ids q. (let d = ran_after-done m.id _ ids q in r.whole d.0 d.1 ∙ suc_add n _);
              }))
    ]
  ]

  -- A plan that undoes the last of `n` applied migrations, and so on, down to `until`.
  abbrev pub Undoes : ℕ → ℕ → List (Reversal W) → Type 0
  Undoes n until [] = n ≡ until
  Undoes n until (v ∷ vs) =
      (k : ℕ) × (rest : List (Migration W)) × (n ≡ suc k)
      × (drop k ms ≡ v.migration ∷ rest)
      × (v.migration.down ≡ some v.down)
      × Undoes k until vs

  pub record Undone (n until : ℕ) (r : Db W × Ran) : Type 0 where
    pub to : ℕ
    pub shrinks : to ≤ n
    pub applied : IsApplied ms r.0.records to
    pub whole : (ids : List String) → r.1 ≡ done ids → to ≡ until

  pub revert_all-Undone :
      (k n until : ℕ) (vs : List (Reversal W)) (db : Db W)
      → Distinct ms
      → Undoes n until vs
      → IsApplied ms db.records n
      → Undone n until (revert_all clock lost k vs db)
  unfolding revert_all
  revert_all-Undone k n until [] db d u a = record {
    to = n;
    shrinks = omega arith;
    applied = a;
    whole = λ ids q. u;
  }
  revert_all-Undone k n until (v ∷ vs) db d (i, rest, n_eq, e, has_down, u) a =
      elim (Bool-cases (lost k)) [
        | inl gone ↦
            rw (revert_all, gone)
              (record { to = n; shrinks = omega arith; applied = a; whole = λ ids q. cc })
        | inr held ↦ elim (run_step-Removed v.migration v.down v.migration.id db) [
          | Removed.unchanged f same ↦
              rw (revert_all, held, f)
                (record {
                  to = n;
                  shrinks = omega arith;
                  applied = subst (λ rs. IsApplied ms rs n) (sym same) a;
                  whole = λ ids q. cc;
                })
          | Removed.erased t w ↦
              (let next : IsApplied ms
                    (run_step v.migration v.down (remove_record v.migration.id) db).0.records i =
                  IsApplied-erased ms rest db.records _ i v.migration d e
                    (subst (λ c. IsApplied ms db.records c) n_eq a) w in
                let r =
                  revert_all-Undone (k + 1) i until vs
                    (run_step v.migration v.down (remove_record v.migration.id) db).0 d u next in
                rw (revert_all, held, t)
                  (record {
                    to = r.to;
                    shrinks = omega (arith, r.shrinks, n_eq);
                    applied = r.applied;
                    whole =
                        λ ids q. (let z = ran_after-done v.migration.id _ ids q in r.whole z.0 z.1);
                  }))
        ]
      ]
