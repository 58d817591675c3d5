-- ===== src/Mongo/Migrations/Run/Steps.antt =====
-- What one step of a run makes of the records.
use nxgt_data.Prelude.{
  ℕ, zero, suc, ◌≡◌, refl, sym, ap, ◌∙◌, subst, inl, inr, Bool, true, false, not, ◌&&◌, ◌||◌,
  String, str_eq, eq_iff, List, [], ◌∷◌, ◌++◌, length, take, drop, select, arith, In, Bool-cases,
  map-append, length-drop,
}
use nxgt_data.Mongo.Migrations.{Step, Migration, MigrationRecord, names, record_ids, migration_ids}
use nxgt_data.Mongo.Migrations.Run.{Db, write_record, remove_record, once, run_step}
use nxgt_data.Mongo.Migrations.Applied.{IsApplied, names_append, Distinct}
use nxgt_data.Mongo.Migrations.Prefix.{not_before}

or_false : (b : Bool) → (b || false) ≡ b
or_false true = refl
or_false false = refl

pub write-names :
    (rs : List MigrationRecord) (r : MigrationRecord) (x : String)
    → names (record_ids (rs ++ (r ∷ []))) x ≡ (names (record_ids rs) x || str_eq r.id x)
write-names rs r x =
    ap (λ l. names l x) (map-append (λ r. r.id) rs (r ∷ []))
    ∙ names_append (record_ids rs) (r.id ∷ []) x
    ∙ ap (λ b. names (record_ids rs) x || b) (or_false (str_eq r.id x))

remove-names :
    (rs : List MigrationRecord) (id x : String)
    → names (record_ids (select (λ r. not (str_eq r.id id)) rs)) x
      ≡ (names (record_ids rs) x && not (str_eq id x))
remove-names [] id x = refl
remove-names (r ∷ rs) id x = elim (Bool-cases (str_eq r.id id)) [
  | inl same ↦
      (let e : r.id ≡ id = (eq_iff r.id id).0 same in
        rw same (
          remove-names rs id x
          ∙ absorb (str_eq id x) _ (names (record_ids rs) x) (ap (λ y. str_eq y x) e)))
  | inr differs ↦ elim (Bool-cases (str_eq r.id x)) [
    | inl here ↦
        (let e : r.id ≡ x = (eq_iff r.id x).0 here in
          let n : str_eq id x ≡ false = not_sym (ap (λ y. str_eq y id) (sym e) ∙ differs) in
          rw (differs, here, n))
    | inr elsewhere ↦ rw (differs, elsewhere) (remove-names rs id x)
  ]
]
  where
    absorb : (b c d : Bool) → c ≡ b → (d && not b) ≡ ((c || d) && not b)
    absorb true c d e = rw e (zero_and d)
      where
        zero_and : (d : Bool) → (d && false) ≡ false
        zero_and true = refl
        zero_and false = refl
    absorb false c d e = rw e

    not_sym : str_eq x id ≡ false → str_eq id x ≡ false
    not_sym f = elim (Bool-cases (str_eq id x)) [
      | inr g ↦ g
      | inl t ↦
          (let s : str_eq x id ≡ true = (eq_iff x id).1 (sym ((eq_iff id x).0 t)) in
            let bad : ◌≡◌ {A = Bool} true false = sym s ∙ f in cc)
    ]

module _ {W : Type 0} where
  -- A step that returned and was recorded, or one that left the records as they were.
  pub data Recorded (id : String) (db : Db W) (r : Db W × Bool) : Type 0 where
    written :
        r.1 ≡ true
        → ((x : String)
            → names (record_ids r.0.records) x ≡ (names (record_ids db.records) x || str_eq id x))
        → Recorded id db r
    unchanged : r.1 ≡ false → r.0.records ≡ db.records → Recorded id db r

  pub run_step-Recorded :
      (m : Migration W) (step : Step W) (id : String) (now duration : ℕ) (db : Db W)
      → Recorded id db (run_step m step (write_record id now duration) db)
  unfolding run_step once write_record
  run_step-Recorded m step id now duration db = elim (Bool-cases (step db.world).1) [
    | inr threw ↦ elim (Bool-cases m.transaction) [
      | inl tx ↦ rw (run_step, once, write_record, tx, threw) (unchanged refl refl)
      | inr plain ↦ rw (run_step, once, write_record, plain, threw) (unchanged refl refl)
    ]
    | inl returned ↦ elim (Bool-cases (names (record_ids db.records) id)) [
      | inl there ↦ elim (Bool-cases m.transaction) [
        | inl tx ↦ rw (run_step, once, write_record, tx, returned, there) (unchanged refl refl)
        | inr plain ↦
            rw (run_step, once, write_record, plain, returned, there) (unchanged refl refl)
      ]
      | inr new ↦ elim (Bool-cases m.transaction) [
        | inl tx ↦
            rw (run_step, once, write_record, tx, returned, new)
              (written refl (
                write-names db.records (record { id = id; applied_at = now; duration = duration })))
        | inr plain ↦
            rw (run_step, once, write_record, plain, returned, new)
              (written refl (
                write-names db.records (record { id = id; applied_at = now; duration = duration })))
      ]
    ]
  ]

  -- A step that returned and whose record is gone, or one that left the records as they were.
  pub data Removed (id : String) (db : Db W) (r : Db W × Bool) : Type 0 where
    erased :
        r.1 ≡ true
        → ((x : String)
            → names (record_ids r.0.records) x
              ≡ (names (record_ids db.records) x && not (str_eq id x)))
        → Removed id db r
    unchanged : r.1 ≡ false → r.0.records ≡ db.records → Removed id db r

  pub run_step-Removed :
      (m : Migration W) (step : Step W) (id : String) (db : Db W)
      → Removed id db (run_step m step (remove_record id) db)
  unfolding run_step once remove_record
  run_step-Removed m step id db = elim (Bool-cases (step db.world).1) [
    | inr threw ↦ elim (Bool-cases m.transaction) [
      | inl tx ↦ rw (run_step, once, remove_record, tx, threw) (unchanged refl refl)
      | inr plain ↦ rw (run_step, once, remove_record, plain, threw) (unchanged refl refl)
    ]
    | inl returned ↦ elim (Bool-cases m.transaction) [
      | inl tx ↦
          rw (run_step, once, remove_record, tx, returned)
            (erased refl (remove-names db.records id))
      | inr plain ↦
          rw (run_step, once, remove_record, plain, returned)
            (erased refl (remove-names db.records id))
    ]
  ]

  pub take_next :
      (n : ℕ) (ms : List (Migration W)) (m : Migration W) (rest : List (Migration W))
      → drop n ms ≡ m ∷ rest
      → (take (suc n) ms ≡ take n ms ++ (m ∷ [])) × (drop (suc n) ms ≡ rest)
  take_next zero [] m rest e = cc
  take_next zero (x ∷ xs) m rest e =
      (ap (λ l. elim l [ [] ↦ x ∷ [] | y ∷ _ ↦ y ∷ [] ]) e, ap (drop 1) e)
  take_next (suc n) [] m rest e = cc
  take_next (suc n) (x ∷ xs) m rest e =
      let r = take_next n xs m rest e in (ap (λ l. x ∷ l) r.0, r.1)

  pub take_next-names :
      (n : ℕ) (ms : List (Migration W)) (m : Migration W) (rest : List (Migration W)) (x : String)
      → drop n ms ≡ m ∷ rest
      → names (migration_ids (take (suc n) ms)) x
        ≡ (names (migration_ids (take n ms)) x || str_eq m.id x)
  take_next-names n ms m rest x e =
      ap (λ l. names (migration_ids l) x) (take_next n ms m rest e).0
      ∙ ap (λ l. names l x) (map-append (λ y. y.id) (take n ms) (m ∷ []))
      ∙ names_append (migration_ids (take n ms)) (m.id ∷ []) x
      ∙ ap (λ b. names (migration_ids (take n ms)) x || b) (or_false (str_eq m.id x))

  -- One more migration recorded, or one less.
  pub IsApplied-written :
      (ms rest : List (Migration W)) (rs rs' : List MigrationRecord) (n : ℕ) (m : Migration W)
      → drop n ms ≡ m ∷ rest
      → IsApplied ms rs n
      → ((x : String) → names (record_ids rs') x ≡ (names (record_ids rs) x || str_eq m.id x))
      → IsApplied ms rs' (suc n)
  IsApplied-written ms rest rs rs' n m e a w =
      let l : length (drop n ms) ≡ suc (length rest) = ap length e in
      record {
        few = omega (arith, l, length-drop n ms);
        same = λ x.
            w x ∙ ap (λ b. b || str_eq m.id x) (a.same x) ∙ sym (take_next-names n ms m rest x e);
      }

  pub IsApplied-erased :
      (ms rest : List (Migration W)) (rs rs' : List MigrationRecord) (n : ℕ) (m : Migration W)
      → Distinct ms
      → drop n ms ≡ m ∷ rest
      → IsApplied ms rs (suc n)
      → ((x : String) → names (record_ids rs') x ≡ (names (record_ids rs) x && not (str_eq m.id x)))
      → IsApplied ms rs' n
  IsApplied-erased ms rest rs rs' n m d e a w =
      let new : names (migration_ids (take n ms)) m.id ≡ false =
        not_before n ms m d (subst (λ l. In m l) (sym e) (inl refl)) in
      record {
        few = omega (arith, a.few);
        same = λ x.
            w x
            ∙ ap (λ b. b && not (str_eq m.id x)) (a.same x ∙ take_next-names n ms m rest x e)
            ∙ only m.id x (names (migration_ids (take n ms)) x)
                (λ q. ap (names (migration_ids (take n ms))) (sym ((eq_iff m.id x).0 q)) ∙ new);
      }
    where
      only :
          (id x : String) (b : Bool)
          → (str_eq id x ≡ true → b ≡ false)
          → ((b || str_eq id x) && not (str_eq id x)) ≡ b
      only id x b f = elim (Bool-cases (str_eq id x)) [
        | inl same ↦ rw (same, f same)
        | inr differs ↦ rw differs (both b)
      ]
        where
          both : (b : Bool) → ((b || false) && true) ≡ b
          both true = refl
          both false = refl
