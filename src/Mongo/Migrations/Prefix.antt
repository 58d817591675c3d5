-- ===== src/Mongo/Migrations/Prefix.antt =====
-- `checkApplied` accepts a prefix of the list, and nothing else.
use nxgt_data.Prelude.{
  clash, ℕ, zero, suc, ◌+◌, ◌≤◌, ◌≡◌, ◌↔◌, refl, sym, ap, ◌∙◌, subst, inl, inr, Bool, true, false,
  not, ◌||◌, none, String, str_eq, eq_iff, List, [], ◌∷◌, map, length, take, drop, select, arith,
  In, select-In, Bool-cases, Option-cases, take-append-drop, map-In, In-map, map-append,
  take-map_append, In-append, length-take,
}
use nxgt_data.Mongo.Migrations.{
  Migration, MigrationRecord, MigrationStatus, is_missing, is_applied, is_pending, Checked, ok,
  refused, names, record_ids, migration_ids, check_list, listed_status, missing_status, status_of,
  find_status, check_applied, not_in_list, pending_before_applied,
}
use nxgt_data.Mongo.Migrations.Applied.{
  IsApplied, names_append, names-In, In-names, Distinct, check_list-Distinct, find_none, none_find,
  recorded, recorded-append, recorded_all, recorded_no, no_recorded, count_listed, recorded-le,
  missing_of,
}

or_left : (a b : Bool) → a ≡ true → (a || b) ≡ true
or_left a b e = rw e

pub ok-injective : {A : Type 0} {a b : A} → ok a ≡ ok b → a ≡ b
ok-injective {a = a} e = ap (λ c. elim c [ ok x ↦ x | refused _ ↦ a ]) e

module _ {W : Type 0} where
  pub split_names :
      (n : ℕ) (ms : List (Migration W)) (id : String)
      → names (migration_ids ms) id
        ≡ (names (migration_ids (take n ms)) id || names (migration_ids (drop n ms)) id)
  split_names n ms id =
      ap (λ l. names (migration_ids l) id) (sym (take-append-drop n ms))
      ∙ ap (λ l. names l id) (map-append (λ m. m.id) (take n ms) (drop n ms))
      ∙ names_append (migration_ids (take n ms)) (migration_ids (drop n ms)) id

  split_recorded :
      (n : ℕ) (rs : List MigrationRecord) (ms : List (Migration W))
      → recorded rs ms ≡ recorded rs (take n ms) + recorded rs (drop n ms)
  split_recorded n rs ms =
      ap (recorded rs) (sym (take-append-drop n ms)) ∙ recorded-append rs (take n ms) (drop n ms)

  take_recorded :
      (rs : List MigrationRecord) (ms : List (Migration W)) (n : ℕ)
      → n ≤ length ms
      → find_status is_pending (take n (status_of ms rs)) ≡ none
      → (m : Migration W) → In m (take n ms)
      → names (record_ids rs) m.id ≡ true
  unfolding status_of listed_status
  take_recorded rs ms n le e m i = elim (Bool-cases (names (record_ids rs) m.id)) [
    | inl here ↦ here
    | inr absent ↦
        (let same = take-map_append (listed_status rs) n ms _ le in
          let j : In (listed_status rs m) (take n (status_of ms rs)) =
            subst (λ l. In (listed_status rs m) l) (sym same)
              (map-In (listed_status rs) m (take n ms) i) in
          let f : is_pending (listed_status rs m) ≡ false =
            find_none is_pending _ (listed_status rs m) e j in
          let bad : ◌≡◌ {A = Bool} true false = rw (listed_status, absent) at f in cc)
  ]

  -- The accepted count, from what `checkApplied` looked at.
  prefix_of :
      (ms : List (Migration W)) (rs : List MigrationRecord) (n : ℕ)
      → recorded rs ms ≡ n
      → find_status is_missing (status_of ms rs) ≡ none
      → find_status is_pending (take n (status_of ms rs)) ≡ none
      → IsApplied ms rs n
  prefix_of ms rs n count no_missing no_pending =
      let le : n ≤ length ms = subst (λ c. c ≤ length ms) count (recorded-le rs ms) in
      let first : recorded rs (take n ms) ≡ n =
        recorded_all rs (take n ms) (take_recorded rs ms n le no_pending)
        ∙ omega (arith, length-take n ms, le) in
      let rest : recorded rs (drop n ms) ≡ 0 =
        omega (arith, split_recorded n rs ms, count, first) in
      record {
        few = le;
        same = λ id. elim (Bool-cases (names (record_ids rs) id)) [
          | inl here ↦ here ∙ sym (in_take le rest id here)
          | inr absent ↦ absent ∙ sym (out_of_take le id absent)
        ];
      }
    where
      in_take :
          n ≤ length ms
          → recorded rs (drop n ms) ≡ 0
          → (id : String) → names (record_ids rs) id ≡ true
          → names (migration_ids (take n ms)) id ≡ true
      in_take le rest id here = elim (Bool-cases (names (migration_ids (take n ms)) id)) [
        | inl first ↦ first
        | inr not_first ↦
            (let all = missing_of rs ms no_missing id here in
              let either : (names (migration_ids (take n ms)) id
                    || names (migration_ids (drop n ms)) id)
                  ≡ true =
                sym (split_names n ms id) ∙ all in
              let later : names (migration_ids (drop n ms)) id ≡ true = rw not_first at either in
              let m = In-map (λ m. m.id) id (drop n ms) (In-names _ id later) in
              let no_m = no_recorded rs (drop n ms) m.0 rest m.1 in
              absurd (clash here (ap (names (record_ids rs)) m.2 ∙ no_m)))
      ]

      out_of_take :
          n ≤ length ms
          → (id : String) → names (record_ids rs) id ≡ false
          → names (migration_ids (take n ms)) id ≡ false
      out_of_take le id absent = elim (Bool-cases (names (migration_ids (take n ms)) id)) [
        | inr out ↦ out
        | inl first ↦
            (let m = In-map (λ m. m.id) id (take n ms) (In-names _ id first) in
              let here = take_recorded rs ms n le no_pending m.0 m.1 in
              absurd (clash (ap (names (record_ids rs)) m.2 ∙ here) absent))
      ]

  count_status :
      (ms : List (Migration W)) (rs : List MigrationRecord)
      → length (select is_applied (status_of ms rs)) ≡ recorded rs ms
  unfolding status_of
  count_status ms rs = count_listed rs ms _

  check_applied-IsApplied :
      (ms : List (Migration W)) (rs : List MigrationRecord) (n : ℕ)
      → check_applied ms rs ≡ ok n
      → IsApplied ms rs n
  unfolding check_applied
  check_applied-IsApplied ms rs n e =
      elim (Option-cases (find_status is_missing (status_of ms rs))) [
        | inr (s, some_missing) ↦
            let bad : ◌≡◌ {A = Checked ℕ} (refused (not_in_list s.id)) (ok n) =
              rw (check_applied, some_missing) at e in
            cc
        | inl no_missing ↦
            elim (Option-cases (
              find_status is_pending
                (take (length (select is_applied (status_of ms rs))) (status_of ms rs)))) [
                  | inr (s, gap) ↦
                      let bad : ◌≡◌ {A = Checked ℕ} (refused (pending_before_applied s.id)) (ok n) =
                        rw (check_applied, no_missing, gap) at e in
                      cc
                  | inl no_gap ↦
                      (let q : length (select is_applied (status_of ms rs)) ≡ n =
                          ok-injective (rw (check_applied, no_missing, no_gap) at e) in
                        prefix_of ms rs n (sym (count_status ms rs) ∙ q) no_missing (
                          subst (λ c. find_status is_pending (take c (status_of ms rs)) ≡ none) q
                            no_gap))
                ]
      ]

  pub drop-In : (m : Migration W) (n : ℕ) (ms : List (Migration W)) → In m (drop n ms) → In m ms
  drop-In m zero ms i = i
  drop-In m (suc n) [] i = absurd i
  drop-In m (suc n) (x ∷ xs) i = inr (drop-In m n xs i)

  pub not_before :
      (n : ℕ) (ms : List (Migration W)) (m : Migration W)
      → Distinct ms
      → In m (drop n ms)
      → names (migration_ids (take n ms)) m.id ≡ false
  not_before zero ms m d i = refl
  not_before (suc n) [] m d i = absurd i
  not_before (suc n) (x ∷ xs) m (new, d) i = elim (Bool-cases (str_eq x.id m.id)) [
    | inr differs ↦ rw differs (not_before n xs m d i)
    | inl same ↦
        (let later =
            names-In (migration_ids xs) m.id (map-In (λ y. y.id) m xs (drop-In m n xs i)) in
          let e : x.id ≡ m.id = (eq_iff x.id m.id).0 same in
          absurd (clash later (ap (names (migration_ids xs)) (sym e) ∙ new)))
  ]

  take-In-names :
      (n : ℕ) (ms : List (Migration W)) (m : Migration W)
      → In m (take n ms)
      → names (migration_ids (take n ms)) m.id ≡ true
  take-In-names n ms m i = names-In _ m.id (map-In (λ y. y.id) m (take n ms) i)

  IsApplied-check_applied :
      (ms : List (Migration W)) (rs : List MigrationRecord) (n : ℕ)
      → Distinct ms
      → IsApplied ms rs n
      → check_applied ms rs ≡ ok n
  unfolding check_applied status_of listed_status missing_status
  IsApplied-check_applied ms rs n d a =
      let here : (m : Migration W) → In m (take n ms) → names (record_ids rs) m.id ≡ true =
        (λ m i. a.same m.id ∙ take-In-names n ms m i) in
      let absent : (m : Migration W) → In m (drop n ms) → names (record_ids rs) m.id ≡ false =
        (λ m i. a.same m.id ∙ not_before n ms m d i) in
      let first : recorded rs (take n ms) ≡ n =
        recorded_all rs (take n ms) here ∙ omega (arith, length-take n ms, a.few) in
      let count : length (select is_applied (status_of ms rs)) ≡ n =
        count_status ms rs
        ∙ omega (arith, split_recorded n rs ms, first, recorded_no rs (drop n ms) absent) in
      let no_missing : find_status is_missing (status_of ms rs) ≡ none =
        none_find is_missing (status_of ms rs) (λ s i.
          elim (In-append s (map (listed_status rs) ms) _ i) [
            | inl j ↦ not_missing s j
            | inr j ↦ absurd (unlisted s j)
          ]) in
      let no_gap : find_status is_pending (take n (status_of ms rs)) ≡ none =
        subst (λ l. find_status is_pending l ≡ none)
          (sym (take-map_append (listed_status rs) n ms _ a.few))
          (none_find is_pending (map (listed_status rs) (take n ms))
            (λ s i. not_pending here s i)) in
      let no_gap' : find_status is_pending
            (take (length (select is_applied (status_of ms rs))) (status_of ms rs))
          ≡ none =
        subst (λ c. find_status is_pending (take c (status_of ms rs)) ≡ none) (sym count) no_gap in
      rw (check_applied, no_missing, no_gap') (ap ok count)
    where
      not_missing : (s : MigrationStatus) → In s (map (listed_status rs) ms) → is_missing s ≡ false
      not_missing s j =
          let m = In-map (listed_status rs) s ms j in
          elim (Bool-cases (names (record_ids rs) m.0.id)) [
            | inl t ↦ ap is_missing m.2 ∙ rw (listed_status, t)
            | inr f ↦ ap is_missing m.2 ∙ rw (listed_status, f)
          ]

      unlisted :
          (s : MigrationStatus)
          → In s (map missing_status (select (λ r. not (names (migration_ids ms) r.id)) rs))
          → ⊥
      unlisted s j =
          let r = In-map missing_status s _ j in
          let q = select-In (λ r. not (names (migration_ids ms) r.id)) r.0 rs r.1 in
          let rec : names (record_ids rs) r.0.id ≡ true =
            names-In _ r.0.id (map-In (λ x. x.id) r.0 rs q.0) in
          let t : names (migration_ids (take n ms)) r.0.id ≡ true = sym (a.same r.0.id) ∙ rec in
          let l : names (migration_ids ms) r.0.id ≡ true =
            split_names n ms r.0.id ∙ or_left _ _ t in
          clash (q.1) (ap not l)

      not_pending :
          ((m : Migration W) → In m (take n ms) → names (record_ids rs) m.id ≡ true)
          → (s : MigrationStatus) → In s (map (listed_status rs) (take n ms))
          → is_pending s ≡ false
      not_pending here s j =
          let m = In-map (listed_status rs) s (take n ms) j in
          ap is_pending m.2 ∙ rw (listed_status, here m.0 m.1)

  -- Of a list whose ids are distinct, `checkApplied` finds `n` applied exactly when the recorded ids
  -- are those of the first `n` migrations.
  pub check_applied_iff :
      (ms : List (Migration W)) (rs : List MigrationRecord) (n : ℕ)
      → check_list ms ≡ ok tt
      → (check_applied ms rs ≡ ok n) ↔ IsApplied ms rs n
  check_applied_iff ms rs n c =
      (check_applied-IsApplied ms rs n, IsApplied-check_applied ms rs n (check_list-Distinct ms c))
