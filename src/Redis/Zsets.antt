-- ===== src/Redis/Zsets.antt =====
-- What the queue's scripts of packages/redis rely on of the sorted sets of the Redis server, which
-- is not part of the repository: what `ZSCORE` answers after `ZADD` and `ZREM`, and that
-- `ZRANGE key 0 -1` lists the members, each once. The sorted sets are a parameter; Sorted has lists
-- that can stand for them.
pub mod Sorted
use nxgt_data.Prelude.{
  ℕ, ◌≤◌, ◌≡◌, Bool, true, false, Option, none, some, String, List, [], ◌∷◌, str_eq, In,
  if◌then◌else◌,
}

-- A list that repeats no element.
abbrev pub IsDistinct : List String → Type 0
IsDistinct [] = Unit
IsDistinct (x ∷ xs) = (In x xs → ⊥) × IsDistinct xs

pub record Zsets : Type 1 where
  pub Zset : Type 0
  -- `ZSCORE`
  pub score : Zset → String → Option ℕ
  -- `ZADD key n id` and `ZREM key id`
  pub zadd : ℕ → String → Zset → Zset
  pub zrem : String → Zset → Zset
  -- `ZRANGE key 0 -1`
  pub members : Zset → List String
  pub score-zadd :
      (n : ℕ) (i j : String) (z : Zset)
      → score (zadd n i z) j ≡ (if str_eq i j then some n else score z j)
  pub score-zrem :
      (i j : String) (z : Zset) → score (zrem i z) j ≡ (if str_eq i j then none else score z j)
  pub members-score : (z : Zset) (j : String) → In j (members z) → (n : ℕ) × (score z j ≡ some n)
  pub members-IsDistinct : (z : Zset) → IsDistinct (members z)
