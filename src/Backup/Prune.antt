-- ===== src/Backup/Prune.antt =====
-- packages/backup/src/rotation/prune.ts: reading what a repository has, and removing what the plan
-- lets go. A repository is the list of its keys `<backup>/<id>/<path>`; the form of an id and the
-- time in it (format/ids.ts), what reading a manifest gives, and the lease at each delete are
-- arguments.
pub mod Deletes
pub mod Order
pub mod Candidates
pub mod Ages
pub mod Safe
mod Examples
use Prim.Native.String.{compare}
use text.Mathlib.Text.{is_lt}
use nxgt_data.Prelude.{
  ℕ, zero, suc, ◌+◌, ◌*◌, Bool, true, false, not, ◌&&◌, ◌||◌, Option, none, some, String, str_eq,
  List, [], ◌∷◌, ◌++◌, map, select, any, leb, if◌then◌else◌,
}
use nxgt_data.Backup.Rules.{
  Candidate, KeepPolicy, Rule, Value, whole, other, Refusal, check_policy, max_safe,
}
use nxgt_data.Backup.Policy.{has, Decision, Plan, plan}

pub record Key : Type 0 where
  pub id : String
  pub path : String

abbrev pub same_key : Key → Key → Bool
same_key a b = str_eq a.id b.id && str_eq a.path b.path

-- `<backup>/<id>/manifest.json`
abbrev pub manifest_key : String → Key
manifest_key id = record { id = id; path = "manifest.json" }

-- What `fetchManifest` gives: the manifest, NOT_FOUND, INTEGRITY or SIGNATURE with the `parent` that
-- the raw bytes name, or another error.
pub record Manifest : Type 0 where
  pub created_at : ℕ
  pub catalog_size : ℕ
  pub object_sizes : List ℕ
  pub parent : Option String

pub data Fetched : Type 0 where
  found : Manifest → Fetched
  not_found : Fetched
  unread : Option String → Fetched
  failed : Fetched

-- Whether a raw `parent` counts, in `parentOfUnreadable`.
pub parent_of_unreadable : (String → Bool) → String → Option String → Option String
parent_of_unreadable is_id id none = none
parent_of_unreadable is_id id (some p) = if is_id p && is_lt (compare p id) then some p else none

sum : ℕ → List ℕ → ℕ
sum n [] = n
sum n (x ∷ xs) = sum (n + x) xs

pub data Read : Type 0 where
  skipped : Read
  candidate : Candidate → Read
  stand_in : Candidate → Read
  threw : Read

with_read : Read → Option (List Candidate × List String) → Option (List Candidate × List String)
with_read threw rest = none
with_read r none = none
with_read skipped (some rest) = some rest
with_read (candidate c) (some rest) = some (c ∷ rest.0, rest.1)
with_read (stand_in c) (some rest) = some (c ∷ rest.0, c.id ∷ rest.1)

module _ (is_id : String → Bool) (time_of : String → ℕ) (fetch : String → Fetched)
    (held : List String) where
  unfoldable pub of_manifest : String → Manifest → Candidate
  unfolding sum
  of_manifest id m = record {
    id = id;
    created_at = m.created_at;
    stored_size = sum 0 (m.catalog_size ∷ m.object_sizes);
    parent = m.parent;
    held = has held id;
    stand_in = false;
  }

  -- Stands in for a backup that does not read, held, so that the plan keeps its parent.
  unfoldable pub standing_in : String → Option String → Candidate
  unfolding parent_of_unreadable
  standing_in id raw = record {
    id = id;
    created_at = time_of id;
    stored_size = 0;
    parent = parent_of_unreadable is_id id raw;
    held = true;
    stand_in = true;
  }

  -- One turn of the loop of `candidatesOf`.
  unfoldable pub read_one : String → Read
  unfolding of_manifest standing_in
  read_one id = elim (fetch id) [
    | found m ↦ candidate (of_manifest id m)
    | not_found ↦ skipped
    | failed ↦ threw
    | unread raw ↦ stand_in (standing_in id raw)
  ]

  -- `candidatesOf`: the candidates and the ids that do not read, or `none` where it throws.
  unfoldable pub candidates_of : List String → Option (List Candidate × List String)
  unfolding with_read
  candidates_of [] = some ([], [])
  candidates_of (id ∷ ids) = with_read (read_one id) (candidates_of ids)

-- The ids of `scan`'s Map, in the order of the listing.
ids_from : (String → Bool) → List String → List Key → List String
ids_from is_id seen [] = []
ids_from is_id seen (k ∷ ks) =
    let new = ids_from is_id (k.id ∷ seen) ks in
    let old = ids_from is_id seen ks in
    if is_id k.id && not (has seen k.id) then k.id ∷ new else old

-- The keys that `scan` groups under an id.
abbrev pub keys_of : List Key → String → List Key
keys_of keys id = select (λ k. str_eq k.id id) keys

insert_id : String → List String → List String
insert_id id [] = id ∷ []
insert_id id (x ∷ xs) =
    let rest = insert_id id xs in if is_lt (compare x id) then x ∷ rest else (id ∷ x ∷ xs)

sort_ids : List String → List String
unfolding insert_id
sort_ids [] = []
sort_ids (x ∷ xs) = insert_id x (sort_ids xs)

unfoldable pub complete_ids : (String → Bool) → List Key → List String
unfolding ids_from sort_ids
complete_ids is_id keys =
    sort_ids
      (select (λ id. any (same_key (manifest_key id)) (keys_of keys id)) (ids_from is_id [] keys))

unfoldable pub incomplete_ids : (String → Bool) → (String → ℕ) → ℕ → ℕ → List Key → List String
unfolding ids_from sort_ids
incomplete_ids is_id time_of clock after keys = sort_ids (
    select (λ id. leb (time_of id + after) clock)
      (select (λ id. not (has (complete_ids is_id keys) id)) (ids_from is_id [] keys)))

-- What `decide` answers.
pub record Decided : Type 0 where
  pub unreadable : List String
  pub incomplete : List String
  pub kept : List Decision
  pub removed : List Decision
  pub over_size : Bool

abbrev pub shown : List String → Decision → Bool
shown bad d = not (has bad d.id)

-- A state of the removal: the delete that comes next, what the repository has, and whether the
-- lease was held at every delete so far.
pub record Sweep : Type 0 where
  pub turn : ℕ
  pub keys : List Key
  pub going : Bool

abbrev pub delete_key : Key → List Key → List Key
delete_key x keys = select (λ k. not (same_key k x)) keys

pub delete_keys : (ℕ → Bool) → List Key → Sweep → Sweep
delete_keys lease [] s = s
delete_keys lease (x ∷ xs) s =
    let rest =
      delete_keys lease xs
        (record { turn = s.turn + 1; keys = delete_key x s.keys; going = true }) in
    if lease s.turn then rest else record { turn = s.turn; keys = s.keys; going = false }

-- `ordered` of `removeBackup`: the manifest first.
abbrev pub ordered : String → List Key → List Key
ordered id keys =
    select (same_key (manifest_key id)) keys
    ++ select (λ k. not (same_key (manifest_key id) k)) keys

-- `removeBackup`
pub remove_backup : (ℕ → Bool) → String → List Key → Sweep → Sweep
unfolding delete_keys
remove_backup lease id keys s = delete_keys lease (ordered id keys) s

-- The loop of `pruneBackups`.
pub remove_all : (ℕ → Bool) → List Key → List String → Sweep → Sweep
unfolding remove_backup
remove_all lease listed [] s = s
remove_all lease listed (id ∷ ids) s =
    let t = remove_backup lease id (keys_of listed id) s in
    let rest = remove_all lease listed ids t in if t.going then rest else t

-- What `checkOptions` throws, if anything; `incompleteAfter` is a day by default.
pub data OptionsRefused : Type 0 where
  bad_policy : Refusal → OptionsRefused
  bad_incomplete_after : OptionsRefused

abbrev day : ℕ
day = 86400000

unfoldable pub good_after : ℕ → Value → Bool
good_after lease_length (whole n) = leb n max_safe && leb (2 * lease_length) n
good_after lease_length other = false

unfoldable pub check_options : ℕ → (Rule → Option Value) → Option Value → Option OptionsRefused
unfolding good_after
check_options lease_length keep after = elim (check_policy keep) [
  | some e ↦ some (bad_policy e)
  | none ↦ elim after [
    | none ↦ if good_after lease_length (whole day) then none else some bad_incomplete_after
    | some v ↦ if good_after lease_length v then none else some bad_incomplete_after
  ]
]

-- How `pruneBackups` ends after its checks: by an error of the repository, by the lock, at a lease that ran out,
-- or with what it decided.
pub data Pruned : Type 0 where
  read_failed : Pruned
  locked : Pruned
  lease_lost : Pruned
  pruned : Bool → Decided → Pruned

-- What `result` gives of a dry run.
would_remove : Option Decided → Pruned
would_remove none = read_failed
would_remove (some d) = pruned true d

-- The work under the lock.
unfoldable pub removing : (ℕ → Bool) → List Key → Option Decided → List Key × Pruned
unfolding remove_all
removing lease keys none = (keys, read_failed)
removing lease keys (some d) =
    let s =
      remove_all lease keys (map (λ r. r.id) d.removed ++ d.incomplete)
        (record { turn = 0; keys = keys; going = true }) in
    (s.keys, if s.going then pruned false d else lease_lost)

module _ (is_id : String → Bool) (time_of : String → ℕ) (fetch : String → Fetched)
    (held : List String) where
  abbrev pub of_plan : ℕ → ℕ → List Key → List String → Plan → Decided
  of_plan clock after keys bad p = record {
    unreadable = bad;
    incomplete = incomplete_ids is_id time_of clock after keys;
    kept = select (shown bad) p.kept;
    removed = select (shown bad) p.removed;
    over_size = p.over_size;
  }

  -- `decide` of `pruneBackups`.
  unfoldable pub decided : KeepPolicy → ℕ → ℕ → ℕ → List Key → Option Decided
  decided keep now clock after keys =
      elim (candidates_of is_id time_of fetch held (complete_ids is_id keys)) [
        | none ↦ none
        | some read ↦ elim (plan read.0 keep now) [
          | none ↦ none
          | some p ↦ some (of_plan clock after keys read.1 p)
        ]
      ]

  -- `pruneBackups` after its checks, where `free` is whether the lock is taken.
  unfoldable pub prune_backups :
      KeepPolicy → ℕ → ℕ → ℕ → Bool → Bool → (ℕ → Bool) → List Key → List Key × Pruned
  unfolding would_remove removing
  prune_backups keep now clock after dry_run free lease keys =
      if dry_run
      then (keys, would_remove (decided keep now clock after keys))
      else if free
      then removing lease keys (decided keep now clock after keys)
      else (keys, locked)
