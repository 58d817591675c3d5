-- ===== src/Backup/Chain/Ends.antt =====
-- The walk over the backups that a backup builds on ends, and gives a chain.
use nxgt_data.Prelude.{ℕ, ◌≡◌, true, none, some, String, List, [], ◌∷◌, length, select, In, older}
use nxgt_data.Backup.Chain.{Link, Fetch, got, Walked, chain, parent_missing, fetch_failed}

-- How many of the stored backups are older than an id.
abbrev below : List String → String → ℕ
below stored id = length (select (λ x. older x id) stored)

-- A list of manifests, each the parent of the one before it, up to one without a parent.
abbrev pub IsChain : Link → List Link → Type 0
IsChain m [] = ⊥
IsChain m (x ∷ []) = (x ≡ m) × (m.parent ≡ none)
IsChain m (x ∷ y ∷ ms) = (x ≡ m) × (m.parent ≡ some y.id) × IsChain y (y ∷ ms)

-- A walk that ended: with a chain, or at a parent that does not read or is gone.
pub data HasEnded (m : Link) : Walked → Type 0 where
  whole : (ms : List Link) → IsChain m ms → HasEnded m (chain ms)
  missing : HasEnded m parent_missing
  failing : HasEnded m fetch_failed

-- What a repository of these backups gives: a fetched manifest is of the id asked for, and its
-- parent is older, which reading it checks.
pub record IsRepository (fetch : String → Fetch) (stored : List String) : Type 0 where
  pub known : (p : String) (m : Link) → fetch p ≡ got m → In p stored × (m.id ≡ p)
  pub parent_older :
      (p : String) (m : Link) (q : String)
      → fetch p ≡ got m
      → m.parent ≡ some q
      → older q m.id ≡ true
