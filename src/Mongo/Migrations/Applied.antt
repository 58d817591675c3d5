-- ===== src/Mongo/Migrations/Applied.antt =====
-- What `checkApplied` accepts: records of exactly the first migrations of the list.
use nxgt_data.Prelude.{
  clash, ℕ, ◌+◌, ◌≤◌, ◌≡◌, refl, sym, ap, ◌∙◌, subst, inl, inr, Bool, true, false, not, ◌||◌,
  Option, none, some, String, str_eq, eq_iff, List, [], ◌∷◌, ◌++◌, map, length, take, select,
  if◌then◌else◌, arith, In, In-any, any-In, In-select, Bool-cases, map-In, In-map, append-In,
}
use nxgt_data.Mongo.Migrations.{
  Migration, MigrationRecord, MigrationStatus, is_missing, is_applied, Checked, ok, refused, names,
  record_ids, migration_ids, check_list, check_list_from, listed_status, missing_status, status_of,
  find_status, listed_twice,
}

-- The ids that are recorded are those of the first `n` migrations.
pub record IsApplied {W : Type 0} (ms : List (Migration W)) (rs : List MigrationRecord) (n : ℕ)
    : Type 0 where
  pub few : n ≤ length ms
  pub same : (id : String) → names (record_ids rs) id ≡ names (migration_ids (take n ms)) id

pub names_append :
    (a b : List String) (id : String) → names (a ++ b) id ≡ (names a id || names b id)
names_append [] b id = refl
names_append (x ∷ xs) b id = elim (Bool-cases (str_eq x id)) [
  | inl same ↦ rw same
  | inr differs ↦ rw differs (names_append xs b id)
]

pub names-In : (a : List String) (id : String) → In id a → names a id ≡ true
names-In a id i = In-any (λ x. str_eq x id) id a i ((eq_iff id id).1 refl)

pub In-names : (a : List String) (id : String) → names a id ≡ true → In id a
In-names a id e =
    let r = any-In (λ x. str_eq x id) a e in subst (λ x. In x a) ((eq_iff r.0 id).0 r.2) r.1

pub find_none :
    (p : MigrationStatus → Bool) (ss : List MigrationStatus) (s : MigrationStatus)
    → find_status p ss ≡ none
    → In s ss
    → p s ≡ false
unfolding find_status
find_none p [] s e i = absurd i
find_none p (t ∷ ts) s e i = elim (Bool-cases (p t)) [
  | inl passes ↦
      let bad : ◌≡◌ {A = Option MigrationStatus} (some t) none = rw (find_status, passes) at e in cc
  | inr fails ↦ elim i [
    | inl q ↦ ap p q ∙ fails
    | inr j ↦ find_none p ts s (rw (find_status, fails) at e) j
  ]
]

pub none_find :
    (p : MigrationStatus → Bool) (ss : List MigrationStatus)
    → ((s : MigrationStatus) → In s ss → p s ≡ false)
    → find_status p ss ≡ none
unfolding find_status
none_find p [] f = refl
none_find p (t ∷ ts) f = rw (find_status, f t (inl refl), none_find p ts (λ s i. f s (inr i)))

at_most_one : (b : Bool) → (if b then 1 else 0) ≤ 1
at_most_one b = ground arith

module _ {W : Type 0} where
  -- No id of the list comes again after it.
  abbrev pub Distinct : List (Migration W) → Type 0
  Distinct [] = Unit
  Distinct (m ∷ ms) = (names (migration_ids ms) m.id ≡ false) × Distinct ms

  Fresh : List String → List (Migration W) → Type 0
  Fresh seen ms = (id : String) → names (migration_ids ms) id ≡ true → names seen id ≡ false

  check_list_from-Fresh :
      (seen : List String) (ms : List (Migration W))
      → check_list_from seen ms ≡ ok tt
      → Distinct ms × Fresh seen ms
  unfolding check_list_from Fresh
  check_list_from-Fresh seen [] e = (tt, λ id q. absurd (clash q refl))
  check_list_from-Fresh seen (m ∷ ms) e = elim (Bool-cases (names seen m.id)) [
    | inl again ↦
        let bad : ◌≡◌ {A = Checked Unit} (refused (listed_twice m.id)) (ok tt) =
          rw (check_list_from, again) at e in
        cc
    | inr new ↦
        (let r = check_list_from-Fresh (m.id ∷ seen) ms (rw (check_list_from, new) at e) in
          ((not_later m.id r.1, r.0), λ id q. earlier id new r.1 q))
  ]
    where
      not_later : (id : String) → Fresh (id ∷ seen) ms → names (migration_ids ms) id ≡ false
      not_later id f = elim (Bool-cases (names (migration_ids ms) id)) [
        | inr fails ↦ fails
        | inl later ↦
            (let both = f id later in
              let self : str_eq id id ≡ true = (eq_iff id id).1 refl in
              let bad : ◌≡◌ {A = Bool} true false = rw self at both in cc)
      ]

      earlier :
          (id : String)
          → names seen m.id ≡ false
          → Fresh (m.id ∷ seen) ms
          → names (m.id ∷ migration_ids ms) id ≡ true
          → names seen id ≡ false
      earlier id new f q = elim (Bool-cases (str_eq m.id id)) [
        | inl same ↦ ap (names seen) (sym ((eq_iff m.id id).0 same)) ∙ new
        | inr differs ↦
            (let both : (str_eq m.id id || names seen id) ≡ false = f id (rw differs at q) in
              rw differs at both)
      ]

  pub check_list-Distinct : (ms : List (Migration W)) → check_list ms ≡ ok tt → Distinct ms
  unfolding check_list
  check_list-Distinct ms e = (check_list_from-Fresh [] ms e).0

  -- How many migrations of a list are recorded.
  pub recorded : List MigrationRecord → List (Migration W) → ℕ
  recorded rs [] = 0
  recorded rs (m ∷ ms) = (if names (record_ids rs) m.id then 1 else 0) + recorded rs ms

  pub recorded-append :
      (rs : List MigrationRecord) (a b : List (Migration W))
      → recorded rs (a ++ b) ≡ recorded rs a + recorded rs b
  unfolding recorded
  recorded-append rs [] b = omega arith
  recorded-append rs (m ∷ ms) b = omega (arith, recorded-append rs ms b)

  pub recorded_all :
      (rs : List MigrationRecord) (ms : List (Migration W))
      → ((m : Migration W) → In m ms → names (record_ids rs) m.id ≡ true)
      → recorded rs ms ≡ length ms
  unfolding recorded
  recorded_all rs [] f = refl
  recorded_all rs (m ∷ ms) f =
      let here = f m (inl refl) in
      let rest = recorded_all rs ms (λ x i. f x (inr i)) in rw here (omega (arith, rest))

  pub recorded_no :
      (rs : List MigrationRecord) (ms : List (Migration W))
      → ((m : Migration W) → In m ms → names (record_ids rs) m.id ≡ false)
      → recorded rs ms ≡ 0
  unfolding recorded
  recorded_no rs [] f = refl
  recorded_no rs (m ∷ ms) f =
      let here = f m (inl refl) in
      let rest = recorded_no rs ms (λ x i. f x (inr i)) in rw here (omega (arith, rest))

  pub no_recorded :
      (rs : List MigrationRecord) (ms : List (Migration W)) (m : Migration W)
      → recorded rs ms ≡ 0
      → In m ms
      → names (record_ids rs) m.id ≡ false
  unfolding recorded
  no_recorded rs [] m e i = absurd i
  no_recorded rs (x ∷ xs) m e i = elim (Bool-cases (names (record_ids rs) x.id)) [
    | inl here ↦
        let e' : 1 + recorded rs xs ≡ 0 = rw (recorded, here) at e in absurd (omega (arith, e'))
    | inr absent ↦ elim i [
      | inl q ↦ ap (λ y. names (record_ids rs) y.id) q ∙ absent
      | inr j ↦
          (let e' : 0 + recorded rs xs ≡ 0 = rw (recorded, absent) at e in
            no_recorded rs xs m (omega (arith, e')) j)
    ]
  ]

  pub count_listed :
      (rs : List MigrationRecord) (ms : List (Migration W)) (more : List MigrationRecord)
      → length (select is_applied (map (listed_status rs) ms ++ map missing_status more))
        ≡ recorded rs ms
  unfolding recorded listed_status missing_status
  count_listed rs [] [] = refl
  count_listed rs [] (r ∷ more) = count_listed rs [] more
  count_listed rs (m ∷ ms) more = elim (Bool-cases (names (record_ids rs) m.id)) [
    | inl here ↦ rw here (omega (arith, count_listed rs ms more))
    | inr absent ↦ rw absent (omega (arith, count_listed rs ms more))
  ]

  pub recorded-le :
      (rs : List MigrationRecord) (ms : List (Migration W)) → recorded rs ms ≤ length ms
  unfolding recorded
  recorded-le rs [] = omega arith
  recorded-le rs (m ∷ ms) =
      omega (arith, recorded-le rs ms, at_most_one (names (record_ids rs) m.id))

  pub missing_of :
      (rs : List MigrationRecord) (ms : List (Migration W))
      → find_status is_missing (status_of ms rs) ≡ none
      → (id : String) → names (record_ids rs) id ≡ true
      → names (migration_ids ms) id ≡ true
  unfolding status_of missing_status
  missing_of rs ms e id q = elim (Bool-cases (names (migration_ids ms) id)) [
    | inl listed ↦ listed
    | inr unlisted ↦
        (let r = In-map (λ r. r.id) id rs (In-names (record_ids rs) id q) in
          let gone : not (names (migration_ids ms) r.0.id) ≡ true =
            ap not (ap (names (migration_ids ms)) (sym r.2) ∙ unlisted) in
          let i : In (missing_status r.0) (status_of ms rs) =
            append-In (missing_status r.0) (map (listed_status rs) ms) _ (
              inr (
                map-In missing_status r.0 _
                  (In-select (λ x. not (names (migration_ids ms) x.id)) r.0 rs r.1 gone))) in
          let f = find_none is_missing (status_of ms rs) (missing_status r.0) e i in cc)
  ]
