-- ===== src/Mongo/Migrations/Lock.antt =====
-- packages/mongo/src/migrations/lock.ts: the one document that two runs share. Each write is atomic
-- at the server, at the server's time `now`. `take` is two of them, `insert_lock` and `take_lapsed`,
-- with nothing in between where it is run as a whole: Lock/Exclusive has them as two steps, with
-- time and other runs' writes between them; a renewal or a release that does not
-- reach the server is none.
pub mod Exclusive
use nxgt_data.Prelude.{
  ℕ, ◌+◌, Bool, true, false, not, Option, none, some, String, str_eq, if◌then◌else◌, leb, List, [],
  ◌∷◌,
}

pub record LockDocument : Type 0 where
  pub holder : String
  pub acquired_at : ℕ
  pub expires_at : ℕ

-- The lock's collection: the document `_id: 'lock'`, when there is one.
abbrev pub Stored : Type 0
Stored = Option LockDocument

pub record HeldLock : Type 0 where
  pub holder : String
  pub lost : Bool

-- `stamped`
pub stamped : ℕ → String → ℕ → LockDocument
stamped ttl holder now = record { holder = holder; acquired_at = now; expires_at = now + ttl }

-- The first write of `take`, the insert: whether it did, with `false` for a duplicate key.
pub insert_lock : ℕ → String → ℕ → Stored → Stored × Bool
unfolding stamped
insert_lock ttl holder now none = (some (stamped ttl holder now), true)
insert_lock ttl holder now (some current) = (some current, false)

-- The second, the update of a lapsed document: whether it modified one.
pub take_lapsed : ℕ → String → ℕ → Stored → Stored × Bool
unfolding stamped
take_lapsed ttl holder now none = (none, false)
take_lapsed ttl holder now (some current) =
    if leb current.expires_at now
    then (some (stamped ttl holder now), true)
    else (some current, false)

-- `take`
pub take : ℕ → String → ℕ → Stored → Stored × Bool
unfolding insert_lock take_lapsed
take ttl holder now stored =
    let inserted = insert_lock ttl holder now stored in
    if inserted.1 then inserted else take_lapsed ttl holder now inserted.0

-- `acquire`: the lock, or who holds it until when.
pub data Acquired : Type 0 where
  taken : HeldLock → Acquired
  held_by : Stored → Acquired

unfoldable pub acquire : ℕ → String → ℕ → Stored → Stored × Acquired
unfolding take
acquire ttl holder now stored =
    let r = take ttl holder now stored in
    if r.1 then (r.0, taken (record { holder = holder; lost = false })) else (r.0, held_by r.0)

-- `renew`, when it reaches the server.
pub renew : ℕ → ℕ → HeldLock → Stored → Stored × HeldLock
renew ttl now lock none = (none, record { holder = lock.holder; lost = true })
renew ttl now lock (some current) =
    if str_eq current.holder lock.holder
    then (
      some (record {
        holder = current.holder;
        acquired_at = current.acquired_at;
        expires_at = now + ttl;
      }),
      lock,
    )
    else (some current, record { holder = lock.holder; lost = true })

-- `checkLock`: whether the run may go on.
pub check_lock : HeldLock → Bool
check_lock lock = not lock.lost

-- The release at the end of `withLock`.
pub release : HeldLock → Stored → Stored
release lock none = none
release lock (some current) = if str_eq current.holder lock.holder then none else some current
