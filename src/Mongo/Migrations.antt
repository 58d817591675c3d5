-- ===== src/Mongo/Migrations.antt =====
-- packages/mongo/src/migrations/plan.ts: where the list of migrations and the records of the
-- database agree, and what a run applies or undoes. A step takes the database's own data to what it
-- leaves, and whether it returned; what a migration is given is in types.ts.
pub mod Run
pub mod Lock
mod Examples
pub mod Applied
pub mod Prefix
use nxgt_data.Prelude.{
  ℕ, zero, suc, ◌+◌, ◌-◌, Bool, true, false, not, ◌&&◌, ◌||◌, Option, none, some, String, str_eq,
  List, [], ◌∷◌, ◌++◌, map, length, take, drop, select, any, if◌then◌else◌, max, reverse,
}

abbrev pub Step : Type 0 → Type 0
Step W = W → W × Bool

pub record Migration (W : Type 0) : Type 0 where
  pub id : String
  pub up : Step W
  pub down : Option (Step W)
  pub transaction : Bool

pub record MigrationRecord : Type 0 where
  pub id : String
  pub applied_at : ℕ
  pub duration : ℕ

-- What a `MigrationError` of plan.ts says, and the id that it names.
pub data PlanError : Type 0 where
  listed_twice not_in_list pending_before_applied unknown_to no_down : String → PlanError

pub data Checked (A : Type 0) : Type 0 where
  ok : A → Checked A
  refused : PlanError → Checked A

infixl 5 ◌>>=◌
abbrev pub ◌>>=◌ : {A B : Type 0} → Checked A → (A → Checked B) → Checked B
ok a >>= k = k a
refused e >>= k = refused e

-- Whether an id is in a list of ids, a `Set` or the keys of a `Map`.
abbrev pub names : List String → String → Bool
names ids id = any (λ x. str_eq x id) ids

abbrev pub record_ids : List MigrationRecord → List String
record_ids rs = map (λ r. r.id) rs

-- `new Map(records.map((r) => [r._id, r])).get(id)`: the last one of an id.
find_record : List MigrationRecord → String → Option MigrationRecord
find_record [] id = none
find_record (r ∷ rs) id = elim (find_record rs id) [
  | some s ↦ some s
  | none ↦ if str_eq r.id id then some r else none
]

pub data MigrationState : Type 0 where
  applied pending missing : MigrationState

pub record MigrationStatus : Type 0 where
  pub id : String
  pub state : MigrationState
  pub applied_at : Option ℕ

abbrev pub is_missing : MigrationStatus → Bool
is_missing s = elim s.state [ missing ↦ true | _ ↦ false ]

abbrev pub is_applied : MigrationStatus → Bool
is_applied s = elim s.state [ applied ↦ true | _ ↦ false ]

abbrev pub is_pending : MigrationStatus → Bool
is_pending s = elim s.state [ pending ↦ true | _ ↦ false ]

pub missing_status : MigrationRecord → MigrationStatus
missing_status r = record { id = r.id; state = missing; applied_at = some r.applied_at }

pub find_status : (MigrationStatus → Bool) → List MigrationStatus → Option MigrationStatus
find_status p [] = none
find_status p (s ∷ ss) = let rest = find_status p ss in if p s then some s else rest

pub record Reversal (W : Type 0) : Type 0 where
  pub migration : Migration W
  pub down : Step W

module _ {W : Type 0} where
  abbrev pub migration_ids : List (Migration W) → List String
  migration_ids ms = map (λ m. m.id) ms

  check_list_from : List String → List (Migration W) → Checked Unit
  check_list_from seen [] = ok tt
  check_list_from seen (m ∷ ms) =
      let rest = check_list_from (m.id ∷ seen) ms in
      if names seen m.id then refused (listed_twice m.id) else rest

  -- `checkList`
  unfoldable pub check_list : List (Migration W) → Checked Unit
  unfolding check_list_from
  check_list ms = check_list_from [] ms

  pub listed_status : List MigrationRecord → Migration W → MigrationStatus
  unfolding find_record
  listed_status rs m = record {
    id = m.id;
    state = if names (record_ids rs) m.id then applied else pending;
    applied_at = elim (find_record rs m.id) [ none ↦ none | some r ↦ some r.applied_at ];
  }

  -- `statusOf`
  unfoldable pub status_of : List (Migration W) → List MigrationRecord → List MigrationStatus
  unfolding listed_status missing_status
  status_of ms rs =
      map (listed_status rs) ms
      ++ map missing_status (select (λ r. not (names (migration_ids ms) r.id)) rs)

  -- `checkApplied`: how many are applied.
  unfoldable pub check_applied : List (Migration W) → List MigrationRecord → Checked ℕ
  unfolding find_status
  check_applied ms rs =
      let status = status_of ms rs in
      let count = length (select is_applied status) in
      elim (find_status is_missing status) [
        | some s ↦ refused (not_in_list s.id)
        | none ↦ elim (find_status is_pending (take count status)) [
          | some s ↦ refused (pending_before_applied s.id)
          | none ↦ ok count
        ]
      ]

  -- `indexOf`
  pub index_of : List (Migration W) → String → Checked ℕ
  index_of [] id = refused (unknown_to id)
  index_of (m ∷ ms) id =
      let rest = index_of ms id >>= λ i. ok (i + 1) in if str_eq m.id id then ok 0 else rest

  apply_end : List (Migration W) → Option String → Checked ℕ
  apply_end ms none = ok (length ms)
  apply_end ms (some to) = index_of ms to >>= λ i. ok (i + 1)

  abbrev pub slice : ℕ → ℕ → List (Migration W) → List (Migration W)
  slice from until ms = take (until - from) (drop from ms)

  -- `toApply`
  unfoldable pub to_apply :
      List (Migration W) → List MigrationRecord → Option String → Checked (List (Migration W))
  unfolding index_of apply_end
  to_apply ms rs to = do
    count ← check_applied ms rs
    end ← apply_end ms to
    ok (slice count (max count end) ms)

  revert_start : List (Migration W) → ℕ → Option String → Checked ℕ
  revert_start ms count none = ok (count - 1)
  revert_start ms count (some to) = index_of ms to >>= λ i. ok (i + 1)

  unfoldable pub with_downs : List (Migration W) → Checked (List (Reversal W))
  with_downs [] = ok []
  with_downs (m ∷ ms) = elim m.down [
    | none ↦ refused (no_down m.id)
    | some down ↦ with_downs ms >>= λ rs. ok (record { migration = m; down = down } ∷ rs)
  ]

  -- `toRevert`
  unfoldable pub to_revert :
      List (Migration W) → List MigrationRecord → Option String → Checked (List (Reversal W))
  unfolding index_of revert_start with_downs
  to_revert ms rs to = do
    count ← check_applied ms rs
    start ← revert_start ms count to
    with_downs (reverse (slice start (max start count) ms))
