-- ===== src/Mongo/Migrations/Run.antt =====
-- packages/mongo/src/migrations/run.ts and store.ts: applying and undoing a plan, each step with
-- its record. The database is the data that the migrations change and the records. A transaction
-- keeps all of what it wrote or nothing, as MongoDB documents; `clock` gives the time and the
-- duration of the k-th step, `lost` whether the lock was found lost before it.
pub mod Steps
pub mod Loops
pub mod Kept
pub mod Whole
use nxgt_data.Prelude.{
  ℕ, zero, suc, ◌+◌, ◌-◌, Bool, true, false, not, ◌&&◌, ◌||◌, Option, none, some, String, str_eq,
  List, [], ◌∷◌, ◌++◌, map, select, if◌then◌else◌,
}
use nxgt_data.Mongo.Migrations.{
  Step, Migration, MigrationRecord, PlanError, Checked, ok, refused, names, record_ids, Reversal,
  check_list, to_apply, to_revert, migration_ids, status_of, MigrationStatus,
}

pub record Db (W : Type 0) : Type 0 where
  pub world : W
  pub records : List MigrationRecord

-- What a step writes about itself: whether the write was accepted.
abbrev pub Bookkeeping : Type 0
Bookkeeping = List MigrationRecord → List MigrationRecord × Bool

-- `writeRecord`: an id that is there already is refused, since `_id` is unique.
unfoldable pub write_record : String → ℕ → ℕ → Bookkeeping
write_record id now duration rs =
    if names (record_ids rs) id
    then (rs, false)
    else (rs ++ (record { id = id; applied_at = now; duration = duration } ∷ []), true)

-- `removeRecord`: one document at most has the id.
unfoldable pub remove_record : String → Bookkeeping
remove_record id rs = (select (λ r. not (str_eq r.id id)) rs, true)

-- How a run ends: with the ids that it ran, or at a lost lock, or at a step that failed.
pub data Ran : Type 0 where
  done : List String → Ran
  lock_lost : Ran
  failed : String → Ran

abbrev pub ran_after : String → Ran → Ran
ran_after id (done ids) = done (id ∷ ids)
ran_after id lock_lost = lock_lost
ran_after id (failed f) = failed f

-- How `migrate` or `rollback` ends: refused by the plan, by the lock, with the ids of a dry run,
-- or as a run ends.
pub data Ended : Type 0 where
  plan_refused : PlanError → Ended
  locked : Ended
  would_run : List String → Ended
  ran : Ran → Ended

module _ {W : Type 0} where
  -- `once`: the step, then its record.
  unfoldable pub once : Step W → Bookkeeping → Db W → Db W × Bool
  once step bookkeeping db =
      let stepped = step db.world in
      let kept = bookkeeping db.records in
      if stepped.1
      then (record { world = stepped.0; records = kept.0 }, kept.1)
      else (record { world = stepped.0; records = db.records }, false)

  -- `runStep`
  unfoldable pub run_step : Migration W → Step W → Bookkeeping → Db W → Db W × Bool
  unfolding once
  run_step m step bookkeeping db =
      let r = once step bookkeeping db in
      if m.transaction then (if r.1 then r else (db, false)) else r

  module _ (clock : ℕ → ℕ × ℕ) (lost : ℕ → Bool) where
    -- The loop of `migrate`, from the k-th step on.
    unfoldable pub apply_all : ℕ → List (Migration W) → Db W → Db W × Ran
    unfolding run_step
    apply_all k [] db = (db, done [])
    apply_all k (m ∷ ms) db =
        let r = run_step m m.up (write_record m.id (clock k).0 (clock k).1) db in
        let rest = apply_all (k + 1) ms r.0 in
        if lost k
        then (db, lock_lost)
        else if r.1
        then (rest.0, ran_after m.id rest.1)
        else (r.0, failed m.id)

    -- The loop of `rollback`.
    unfoldable pub revert_all : ℕ → List (Reversal W) → Db W → Db W × Ran
    unfolding run_step
    revert_all k [] db = (db, done [])
    revert_all k (v ∷ vs) db =
        let r = run_step v.migration v.down (remove_record v.migration.id) db in
        let rest = revert_all (k + 1) vs r.0 in
        if lost k
        then (db, lock_lost)
        else if r.1
        then (rest.0, ran_after v.migration.id rest.1)
        else (r.0, failed v.migration.id)

    applied_from : Checked (List (Migration W)) → Db W → Db W × Ended
    applied_from (refused e) db = (db, plan_refused e)
    applied_from (ok plan) db = let r = apply_all 0 plan db in (r.0, ran r.1)

    would_apply : Checked (List (Migration W)) → Ended
    would_apply (refused e) = plan_refused e
    would_apply (ok plan) = would_run (migration_ids plan)

    -- `migrate`, where `free` is whether the lock is taken.
    unfoldable pub migrate : List (Migration W) → Option String → Bool → Bool → Db W → Db W × Ended
    unfolding applied_from would_apply
    migrate ms to dry_run free db = elim (check_list ms) [
      | refused e ↦ (db, plan_refused e)
      | ok _ ↦
          if dry_run
          then (db, would_apply (to_apply ms db.records to))
          else if free
          then applied_from (to_apply ms db.records to) db
          else (db, locked)
    ]

    reverted_from : Checked (List (Reversal W)) → Db W → Db W × Ended
    reverted_from (refused e) db = (db, plan_refused e)
    reverted_from (ok plan) db = let r = revert_all 0 plan db in (r.0, ran r.1)

    would_revert : Checked (List (Reversal W)) → Ended
    would_revert (refused e) = plan_refused e
    would_revert (ok plan) = would_run (map (λ v. v.migration.id) plan)

    -- `rollback`
    unfoldable pub rollback : List (Migration W) → Option String → Bool → Bool → Db W → Db W × Ended
    unfolding reverted_from would_revert
    rollback ms to dry_run free db = elim (check_list ms) [
      | refused e ↦ (db, plan_refused e)
      | ok _ ↦
          if dry_run
          then (db, would_revert (to_revert ms db.records to))
          else if free
          then reverted_from (to_revert ms db.records to) db
          else (db, locked)
    ]

  -- `migrationStatus`
  pub migration_status : List (Migration W) → Db W → Checked (List MigrationStatus)
  migration_status ms db = elim (check_list ms) [
    | refused e ↦ refused e
    | ok _ ↦ ok (status_of ms db.records)
  ]
