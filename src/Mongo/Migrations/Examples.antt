-- ===== src/Mongo/Migrations/Examples.antt =====
-- Tests of the migrations, on data that is one number: three migrations, the first one applied.
use nxgt_data.Prelude.{
  ℕ, zero, suc, ◌+◌, ◌*◌, ◌-◌, ◌≤◌, ◌≡◌, ◌↔◌, refl, Bool, true, false, Option, none, some, String,
  List, [], ◌∷◌, drop, length, arith, inl, inr, In, ap,
}
use nxgt_data.Mongo.Migrations.{
  Step, Migration, MigrationRecord, ok, refused, check_list, check_applied, migration_ids,
  status_of, to_apply, with_downs, not_in_list, pending_before_applied, listed_twice, to_revert,
  no_down,
}
use nxgt_data.Mongo.Migrations.Applied.{IsApplied}
use nxgt_data.Mongo.Migrations.Prefix.{check_applied_iff}
use nxgt_data.Mongo.Migrations.Run.{
  Db, apply_all, revert_all, run_step, once, write_record, remove_record, migrate, rollback, ran,
  done, failed, lock_lost,
}
use nxgt_data.Mongo.Migrations.Run.Kept.{migrate-keeps, rollback-keeps}
use nxgt_data.Mongo.Migrations.Run.Whole.{replay, migrate_whole}
use nxgt_data.Mongo.Migrations.Lock.{
  Stored, HeldLock, stamped, insert_lock, take_lapsed, acquire, taken, held_by, renew,
}
use nxgt_data.Mongo.Migrations.Lock.Exclusive.{
  Server, start, next, waits, inserts, takes_over, acquire-exclusive,
}

opened : Unit {0}
unfolding check_list check_applied migrate rollback to_revert status_of to_apply apply_all
    revert_all run_step once write_record remove_record with_downs acquire
opened = tt

abbrev grow : Step ℕ
grow n = (n + 1, true)

abbrev shrink : Step ℕ
shrink n = (n - 1, true)

abbrev double : Step ℕ
double n = (n * 2, true)

abbrev broken : Step ℕ
broken n = (n + 100, false)

abbrev migration : String → Step ℕ → Option (Step ℕ) → Bool → Migration ℕ
migration id up down tx = record { id = id; up = up; down = down; transaction = tx }

abbrev three : List (Migration ℕ)
three =
    migration "a" grow (some shrink) true
    ∷ migration "b" double none false
    ∷ migration "c" grow (some shrink) true
    ∷ []

abbrev recorded_as : String → MigrationRecord
recorded_as id = record { id = id; applied_at = 5; duration = 1 }

abbrev first : Db ℕ
first = record { world = 1; records = recorded_as "a" ∷ [] }

abbrev clock : ℕ → ℕ × ℕ
clock k = (10 + k, 2)

abbrev never : ℕ → Bool
never k = false

abbrev second_time : ℕ → Bool
second_time zero = false
second_time (suc k) = true

counted : check_applied three first.records ≡ ok 1
unfolding opened
counted = refl

unlisted : check_applied three (recorded_as "x" ∷ []) ≡ refused (not_in_list "x")
unfolding opened
unlisted = refl

gap : check_applied three (recorded_as "b" ∷ []) ≡ refused (pending_before_applied "a")
unfolding opened
gap = refl

twice :
    check_list (migration "a" grow none true ∷ migration "a" grow none true ∷ [])
    ≡ refused (listed_twice "a")
unfolding opened
twice = refl

no_way_back : to_revert three (recorded_as "a" ∷ recorded_as "b" ∷ []) none ≡ refused (no_down "b")
unfolding opened
no_way_back = refl

whole_run : (migrate clock never three none false true first).0.world ≡ 3
unfolding opened
whole_run = refl

lost_run : (migrate clock second_time three none false true first).1 ≡ ran lock_lost
unfolding opened
lost_run = refl

plain_failure :
    migrate clock never
      (migration "a" grow none true ∷ migration "b" broken none false ∷ [])
      none
      false
      true
      first
    ≡ (record { world = 101; records = first.records }, ran (failed "b"))
unfolding opened
plain_failure = refl

transaction_failure :
    migrate clock never
      (migration "a" grow none true ∷ migration "b" broken none true ∷ [])
      none
      false
      true
      first
    ≡ (first, ran (failed "b"))
unfolding opened
transaction_failure = refl

undone :
    rollback clock never three none false true first
    ≡ (record { world = 0; records = [] }, ran (done ("a" ∷ [])))
unfolding opened
undone = refl

three_checked : check_list three ≡ ok tt
unfolding opened
three_checked = refl

first-IsApplied : IsApplied three first.records 1
first-IsApplied = (check_applied_iff three first.records 1 three_checked).0 counted

check_applied_iff_example :
    (check_applied three first.records ≡ ok 1) ↔ IsApplied three first.records 1
check_applied_iff_example = check_applied_iff three first.records 1 three_checked

migrate-keeps_example :
    (n : ℕ) × (1 ≤ n)
    × IsApplied three (migrate clock second_time three none false true first).0.records n
migrate-keeps_example =
    migrate-keeps clock second_time three none false true first 1 first-IsApplied

rollback-keeps_example :
    (n : ℕ) × (n ≤ 1)
    × IsApplied three (rollback clock never three none false true first).0.records n
rollback-keeps_example = rollback-keeps clock never three none false true first 1 first-IsApplied

each_returns : (m : Migration ℕ) (w : ℕ) → In m three → (m.up w).1 ≡ true
each_returns m w (inl e) = ap (λ x. (x.up w).1) e
each_returns m w (inr (inl e)) = ap (λ x. (x.up w).1) e
each_returns m w (inr (inr (inl e))) = ap (λ x. (x.up w).1) e
each_returns m w (inr (inr (inr i))) = absurd i

migrate_whole_example :
    ((migrate clock never three none false true first).1
      ≡ ran (done (migration_ids (drop 1 three))))
    × ((migrate clock never three none false true first).0.world ≡ replay (drop 1 three) 1)
    × IsApplied three (migrate clock never three none false true first).0.records (length three)
migrate_whole_example =
    migrate_whole clock never three first 1 three_checked first-IsApplied (λ i. refl) each_returns

abbrev held : Server
held = record { now = 100; stored = some (stamped 30 "a" 100) }

abbrev later : Server
later = record { now = 110; stored = held.stored }

-- Another run's `take`: its insert at 110, and its update at 120.
abbrev attempt : Server
attempt = record { now = 110; stored = (insert_lock 30 "b" 110 held.stored).0 }

abbrev latest : Server
latest = record { now = 120; stored = attempt.stored }

abbrev tried : Server
tried = record { now = 120; stored = (take_lapsed 30 "b" 120 attempt.stored).0 }

acquire-exclusive_example :
    ((by : String)
      → (insert_lock 30 by 120 tried.stored ≡ (tried.stored, false))
        × (take_lapsed 30 by 120 tried.stored ≡ (tried.stored, false))
        × ((acquire 30 by 120 tried.stored).1 ≡ held_by tried.stored))
    × ((lock : HeldLock) → lock.holder ≡ "a" → (renew 30 120 lock tried.stored).1 ≡ lock)
acquire-exclusive_example =
    acquire-exclusive 30 "a" held tried refl
      (next held latest tried
        (next held attempt latest
          (next held later attempt
            (next held held later (start held) (waits held 110 (omega arith))) (inserts later "b"))
          (waits attempt 120 (omega arith)))
        (takes_over latest "b"))
      (omega arith)

abbrev lapsing : Stored
lapsing = some (stamped 30 "a" 100)

lapsed : (acquire 30 "b" 130 lapsing).1 ≡ taken (record { holder = "b"; lost = false })
unfolding opened
lapsed = refl

refused_while_held : (acquire 30 "b" 129 lapsing).1 ≡ held_by lapsing
unfolding opened
refused_while_held = refl
