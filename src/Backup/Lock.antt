-- ===== src/Backup/Lock.antt =====
-- packages/backup/src/lock/lock.ts: the lock of a definition in one repository. A lock file is known
-- by its id, which no two writers share, so a writer is its id. Reads of the repository and writes
-- that land are single moves, in any order between the writers; a put is listed from the moment
-- that it landed. Times are ms; a writer's wall clock is `skew` ahead of its monotonic one.
pub mod Alive
pub mod Moves
pub mod Exclusive
mod Examples
use nxgt_data.Prelude.{
  ℕ, ◌+◌, ◌≤◌, ◌≡◌, ◌≢◌, Bool, true, false, not, Option, none, some, String, str_eq, List, [], ◌∷◌,
  if◌then◌else◌, leb, ltb, max, In,
}

-- What `readLock` gives of a lock file: when it expires, or nothing.
pub data File : Type 0 where
  expires : ℕ → File
  illegible : File

-- `stillHeld`: whether another writer may still hold the lock of this file.
unfoldable pub still_held : ℕ → ℕ → Option File → Bool
still_held lease now none = false
still_held lease now (some illegible) = true
still_held lease now (some (expires at)) = leb now (at + lease)

-- A renewal under way: the `expiresAt` that it writes, and `next`.
pub record Renewal : Type 0 where
  pub at : ℕ
  pub next : ℕ

-- Where a writer is in `acquireLock` and in its lease: before it, with the put under way, with its
-- lock there, with the keys left to look at, with a stale lock to remove, with the lease, or after.
pub data Phase : Type 0 where
  idle : Phase
  writing : ℕ → ℕ → Phase
  landed : ℕ → Phase
  looking : ℕ → ℕ → List String → Phase
  forgetting : ℕ → ℕ → String → List String → Phase
  holding : ℕ → Option Renewal → Phase
  ended : Phase

-- `held` of a lease: `lost` is a deadline that has passed, since then nothing moves it.
abbrev pub held : ℕ → ℕ → Bool
held time deadline = ltb time deadline

-- The deadline after a renewal that landed.
unfoldable pub renewed : ℕ → ℕ → ℕ → ℕ
renewed time deadline next = if held time deadline then max deadline next else deadline

abbrev pub Files : Type 0
Files = String → Option File

-- What a move does to the files: it leaves them, or puts or deletes one.
pub data Effect : Type 0 where
  nothing : Effect
  sets : String → Option File → Effect

abbrev pub update : {A : Type 0} → String → A → (String → A) → String → A
update id x f y = if str_eq y id then x else f y

unfoldable pub apply : Effect → Files → Files
apply nothing files = files
apply (sets id file) files = update id file files

-- One move of the writer `own`, whose wall clock shows `time + skew`.
pub data Move (lease skew time : ℕ) (files : Files) (own : String)
    : Phase → Phase → Effect → Type 0 where
  -- `acquireLock` up to the put.
  starts :
      Move lease skew time files own idle (writing (time + skew + lease) (time + lease)) nothing
  lands :
      (at deadline : ℕ)
      → Move lease skew time files own
          (writing at deadline)
          (landed deadline)
          (sets own (some (expires at)))
  -- A put that failed, with its lock removed or not there.
  put_fails :
      (at deadline : ℕ) → Move lease skew time files own (writing at deadline) ended (sets own none)
  -- A put that landed and failed, with its lock left there.
  put_fails_late :
      (at deadline : ℕ)
      → Move lease skew time files own (writing at deadline) ended (sets own (some (expires at)))
  -- `refuseOthers`: the clock and the listing, of which every file that is there is a part.
  lists :
      (deadline : ℕ) (keys : List String)
      → ((id : String) → id ≢ own → files id ≢ none → In id keys)
      → Move lease skew time files own
          (landed deadline)
          (looking (time + skew) deadline keys)
          nothing
  skips_own :
      (now deadline : ℕ) (keys : List String)
      → Move lease skew time files own
          (looking now deadline (own ∷ keys))
          (looking now deadline keys)
          nothing
  finds_none :
      (now deadline : ℕ) (id : String) (keys : List String)
      → id ≢ own
      → files id ≡ none
      → Move lease skew time files own
          (looking now deadline (id ∷ keys))
          (looking now deadline keys)
          nothing
  -- LOCKED: its own lock is removed.
  gives_up :
      (now deadline : ℕ) (id : String) (keys : List String)
      → id ≢ own
      → still_held lease now (files id) ≡ true
      → Move lease skew time files own (looking now deadline (id ∷ keys)) ended (sets own none)
  -- LOCKED, or an error of the repository, with its own lock left there.
  gives_up_late :
      (now deadline : ℕ) (keys : List String)
      → Move lease skew time files own (looking now deadline keys) ended nothing
  -- An error of the repository.
  look_fails :
      (now deadline : ℕ) (keys : List String)
      → Move lease skew time files own (looking now deadline keys) ended (sets own none)
  finds_stale :
      (now deadline : ℕ) (id : String) (keys : List String) (file : File)
      → id ≢ own
      → files id ≡ some file
      → still_held lease now (some file) ≡ false
      → Move lease skew time files own
          (looking now deadline (id ∷ keys))
          (forgetting now deadline id keys)
          nothing
  -- `forget`, which may fail.
  forgets :
      (now deadline : ℕ) (id : String) (keys : List String)
      → Move lease skew time files own
          (forgetting now deadline id keys)
          (looking now deadline keys)
          (sets id none)
  forgets_not :
      (now deadline : ℕ) (id : String) (keys : List String)
      → Move lease skew time files own
          (forgetting now deadline id keys)
          (looking now deadline keys)
          nothing
  acquires :
      (now deadline : ℕ)
      → Move lease skew time files own (looking now deadline []) (holding deadline none) nothing
  -- The timer of `renewing`.
  renews :
      (deadline : ℕ)
      → held time deadline ≡ true
      → Move lease skew time files own
          (holding deadline none)
          (holding deadline (some (record { at = time + skew + lease; next = time + lease })))
          nothing
  renewal_lands :
      (deadline : ℕ) (r : Renewal)
      → Move lease skew time files own
          (holding deadline (some r))
          (holding (renewed time deadline r.next) none)
          (sets own (some (expires r.at)))
  -- A renewal that failed, after it landed or not.
  renewal_fails :
      (deadline : ℕ) (r : Renewal)
      → Move lease skew time files own (holding deadline (some r)) (holding deadline none) nothing
  renewal_fails_late :
      (deadline : ℕ) (r : Renewal)
      → Move lease skew time files own
          (holding deadline (some r))
          (holding deadline none)
          (sets own (some (expires r.at)))
  releases :
      (deadline : ℕ) → Move lease skew time files own (holding deadline none) ended (sets own none)
  -- A release that does not reach the repository.
  releases_late :
      (deadline : ℕ) → Move lease skew time files own (holding deadline none) ended nothing

pub record System : Type 0 where
  pub time : ℕ
  pub files : Files
  pub writers : String → Phase

abbrev pub moved : System → String → Phase → Effect → System
moved s own phase e = record {
  time = s.time;
  files = apply e s.files;
  writers = update own phase s.writers;
}

abbrev pub initial : ℕ → System
initial time = record { time = time; files = λ id. none; writers = λ id. idle }

-- The states that any number of writers reach.
pub data Reaches (lease : ℕ) (skew : String → ℕ) : System → Type 0 where
  begins : (time : ℕ) → Reaches lease skew (initial time)
  waits :
      (s : System) (later : ℕ)
      → Reaches lease skew s
      → s.time ≤ later
      → Reaches lease skew (record { time = later; files = s.files; writers = s.writers })
  moves :
      (s : System) (own : String) (phase : Phase) (e : Effect)
      → Reaches lease skew s
      → Move lease (skew own) s.time s.files own (s.writers own) phase e
      → Reaches lease skew (moved s own phase e)
