-- ===== src/Mongo/Migrations/Run/Whole.antt =====
-- A run that nothing stops.
use nxgt_data.Prelude.{
  ℕ, zero, suc, ◌+◌, ◌≤◌, ◌≡◌, refl, sym, ap, ◌∙◌, subst, inl, inr, Bool, true, false, none, List,
  [], ◌∷◌, ◌++◌, length, take, drop, arith, Bool-cases, length-drop, In,
}
use nxgt_data.Mongo.Migrations.{
  Migration, migration_ids, names, record_ids, ok, check_list, check_applied, apply_end, to_apply,
}
use nxgt_data.Mongo.Migrations.Run.{
  Db, Ran, done, ran_after, once, run_step, write_record, apply_all, migrate, ran, applied_from,
}
use nxgt_data.Mongo.Migrations.Applied.{IsApplied, Distinct, check_list-Distinct}
use nxgt_data.Mongo.Migrations.Prefix.{check_applied_iff, drop-In, not_before}
use nxgt_data.Mongo.Migrations.Run.Steps.{take_next, IsApplied-written, write-names}

take_all : {A : Type 0} (n : ℕ) (xs : List A) → length xs ≤ n → take n xs ≡ xs
take_all zero [] le = refl
take_all zero (x ∷ xs) le = absurd (omega (arith, le))
take_all (suc n) [] le = refl
take_all (suc n) (x ∷ xs) le = rw (take_all n xs (omega (arith, le)))

module _ {W : Type 0} where
  -- The data that a list of migrations leaves, each one's step run in order.
  abbrev pub replay : List (Migration W) → W → W
  replay [] w = w
  replay (m ∷ ms) w = replay ms (m.up w).0

  write_step :
      (m : Migration W) (now duration : ℕ) (db : Db W)
      → (m.up db.world).1 ≡ true
      → names (record_ids db.records) m.id ≡ false
      → run_step m m.up (write_record m.id now duration) db ≡ (
        record {
          world = (m.up db.world).0;
          records =
              db.records ++ (record { id = m.id; applied_at = now; duration = duration } ∷ []);
        },
        true,
      )
  unfolding run_step once write_record
  write_step m now duration db returns new = elim (Bool-cases m.transaction) [
    | inl tx ↦ rw (run_step, once, write_record, returns, new, tx) refl
    | inr plain ↦ rw (run_step, once, write_record, returns, new, plain) refl
  ]

  module _ (clock : ℕ → ℕ × ℕ) (lost : ℕ → Bool) (ms : List (Migration W)) where
    pub record Whole (l : List (Migration W)) (w : W) (r : Db W × Ran) : Type 0 where
      pub ended : r.1 ≡ done (migration_ids l)
      pub world : r.0.world ≡ replay l w
      pub applied : IsApplied ms r.0.records (length ms)

    apply_all-Whole :
        (l : List (Migration W)) (k n : ℕ) (db : Db W)
        → drop n ms ≡ l
        → Distinct ms
        → ((i : ℕ) → lost i ≡ false)
        → ((m : Migration W) (w : W) → In m ms → (m.up w).1 ≡ true)
        → IsApplied ms db.records n
        → Whole l db.world (apply_all clock lost k l db)
    unfolding apply_all
    apply_all-Whole [] k n db e d held returns a =
        let all : n ≡ length ms = omega (arith, length-drop n ms, ap length e, a.few) in
        record { ended = refl; world = refl; applied = subst (IsApplied ms db.records) all a }
    apply_all-Whole (m ∷ rest) k n db e d held returns a =
        let i : In m (drop n ms) = subst (In m) (sym e) (inl refl) in
        let new : names (record_ids db.records) m.id ≡ false =
          a.same m.id ∙ not_before n ms m d i in
        let s =
          write_step m (clock k).0 (clock k).1 db (returns m db.world (drop-In m n ms i)) new in
        let next : Db W = record {
          world = (m.up db.world).0;
          records =
              db.records
              ++ (record { id = m.id; applied_at = (clock k).0; duration = (clock k).1 } ∷ []);
        } in
        let r =
          apply_all-Whole rest (k + 1) (suc n) next (take_next n ms m rest e).1 d held returns (
            IsApplied-written ms rest db.records next.records n m e a (write-names db.records _)) in
        rw (apply_all, held k, s)
          (record { ended = ap (ran_after m.id) r.ended; world = r.world; applied = r.applied })

  -- With no lock lost and every step returning, `migrate` runs what was pending, in the list's
  -- order and once each, and leaves the whole list recorded.
  pub migrate_whole :
      (clock : ℕ → ℕ × ℕ) (lost : ℕ → Bool) (ms : List (Migration W)) (db : Db W) (n : ℕ)
      → check_list ms ≡ ok tt
      → IsApplied ms db.records n
      → ((i : ℕ) → lost i ≡ false)
      → ((m : Migration W) (w : W) → In m ms → (m.up w).1 ≡ true)
      → ((migrate clock lost ms none false true db).1 ≡ ran (done (migration_ids (drop n ms))))
        × ((migrate clock lost ms none false true db).0.world ≡ replay (drop n ms) db.world)
        × IsApplied ms (migrate clock lost ms none false true db).0.records (length ms)
  unfolding migrate applied_from to_apply apply_end
  migrate_whole clock lost ms db n c a held returns =
      let counted : check_applied ms db.records ≡ ok n =
        (check_applied_iff ms db.records n c).1 a in
      let plan : to_apply ms db.records none ≡ ok (drop n ms) =
        rw (to_apply, counted, apply_end)
          (ap ok (take_all _ (drop n ms) (omega (arith, length-drop n ms)))) in
      let r =
        apply_all-Whole clock lost ms (drop n ms) 0 n db refl (check_list-Distinct ms c) held
          returns a in
      rw (migrate, c, plan, applied_from) (ap ran r.ended, r.world, r.applied)
