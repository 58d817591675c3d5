-- ===== src/Backup/Chain.antt =====
-- packages/backup/src/chain/view.ts, `chainOf`: the backups that a backup builds on. What fetching a
-- manifest gives is a parameter.
pub mod Ends
mod Examples
use nxgt_data.Prelude.{ℕ, zero, suc, Option, none, some, String, List, [], ◌∷◌, length}

pub record Link : Type 0 where
  pub id : String
  pub parent : Option String

pub data Fetch : Type 0 where
  got : Link → Fetch
  gone : Fetch
  broken : Fetch

-- How the walk ends: with the manifests, newest first, with INTEGRITY for a parent that is gone, with
-- another error of a fetch, or with its fuel spent.
pub data Walked : Type 0 where
  chain : List Link → Walked
  parent_missing : Walked
  fetch_failed : Walked
  out_of_fuel : Walked

abbrev pub after : Link → Walked → Walked
after m (chain ms) = chain (m ∷ ms)
after m w = w

-- The loop of `chainOf`, from a manifest, on fuel.
walk : (String → Fetch) → ℕ → Link → Walked
walk fetch zero m = out_of_fuel
walk fetch (suc n) m = elim m.parent [
  | none ↦ chain (m ∷ [])
  | some p ↦ elim (fetch p) [
    | gone ↦ parent_missing
    | broken ↦ fetch_failed
    | got parent ↦ after m (walk fetch n parent)
  ]
]

-- `chainOf`, of a repository with these backups: each turn but the last goes on to an older one.
unfoldable pub chain_of : (String → Fetch) → List String → Link → Walked
unfolding walk
chain_of fetch stored m = walk fetch (suc (length stored)) m
