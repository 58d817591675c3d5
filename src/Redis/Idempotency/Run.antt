-- ===== src/Redis/Idempotency/Run.antt =====
-- `run` of packages/redis/src/idempotency/run.ts, with `toStored` and `fromStored` of result.ts.
-- The schema and JSON are parameters. What others do to the key while `work` runs, this run's own
-- renewals among it, is a list of events; `lost` is what the heartbeat found. A command that fails
-- or times out, and `wait`, are left out.
pub mod Once
use nxgt_data.Prelude.{
  ℕ, zero, suc, ◌+◌, ◌-◌, ◌*◌, ◌≤◌, ◌<◌, ◌≡◌, ◌≢◌, refl, ap, ◌∙◌, sym, Bool, true, false, not, ◌&&◌,
  ◌||◌, Option, none, some, String, List, [], ◌∷◌, ◌++◌, str_eq, eq_iff, ◌==◌, leb, if◌then◌else◌,
  arith, All, Bool-cases, Option-cases, inl, inr,
}
use nxgt_data.Redis.Server.{Hash, Server}
use nxgt_data.Redis.Idempotency.{
  Begun, started, corrupt, mismatch, running, done, begin, complete, release, holds,
}
use nxgt_data.Redis.Idempotency.Events.{
  Event, begins, completes, renews, releases, passes, step, play, IsNotBegin, hash-step, hash-play,
}

-- What `run` asks of the schema and of JSON: `none` is a refusal, or what throws.
pub record Codec : Type 1 where
  pub Value : Type 0
  pub parse : Value → Option Value
  pub stringify : Value → Option String
  pub json_parse : String → Option Value

infixl 5 ◌>>=◌
abbrev ◌>>=◌ {ℓ κ} : {A : Type ℓ} {B : Type κ} → Option A → (A → Option B) → Option B
none >>= k = none
some a >>= k = k a

module _ (codec : Codec) where
  open codec use {Value, parse, stringify, json_parse}

  -- `fromStored`
  pub from_stored : String → Option Value
  from_stored json = do raw ← json_parse json; parse raw

  -- `toStored`: the text to store, and the value read back from it.
  pub to_stored : Value → Option (String × Value)
  to_stored result = do
    parsed ← parse result
    json ← stringify parsed
    raw ← json_parse json
    value ← parse raw
    some (json, value)

  -- What `work` did: it returned, or threw.
  pub data Worked : Type 0 where
    returned : Value → Worked
    threw : Worked

  -- How `run` settles: `value v replayed`, an error with its code, or the error of `work`.
  pub data Outcome : Type 0 where
    value : Value → Bool → Outcome
    in_progress : ℕ → Outcome
    mismatched invalid lease_lost work_failed : Outcome

  replay : Option Value → Outcome
  replay none = invalid
  replay (some v) = value v true

  -- `notStarted`
  not_started : Begun → Outcome
  not_started (done json) = replay (from_stored json)
  not_started (running pttl) = in_progress pttl
  not_started mismatch = mismatched
  not_started corrupt = invalid
  not_started started = invalid

  module _ (server : Server) (token given : String) (lease ttl : ℕ) where
    open server use {Db, hash}

    store : Db → Bool → String → Value → Outcome × Db
    store db lost json v = if lost then (lease_lost, db) else (
      (if (complete (hash db) token json ttl).0 then value v false else lease_lost),
      step server (completes token json ttl) db,
    )

    settle_value : Db → Bool → Option (String × Value) → Outcome × Db
    settle_value db lost none = (invalid, step server (releases token) db)
    settle_value db lost (some (json, v)) = store db lost json v

    settle : Db → Bool → Worked → Outcome × Db
    settle db lost threw = (work_failed, step server (releases token) db)
    settle db lost (returned result) = settle_value db lost (to_stored result)

    run_found : Begun → Db → List Event → Bool → Worked → Outcome × Db
    run_found started db between lost worked = settle (play server between db) lost worked
    run_found found db between lost worked = (not_started found, db)

    unfoldable pub run : Db → List Event → Bool → Worked → Outcome × Db
    unfolding run_found settle settle_value store not_started replay from_stored to_stored
    run db between lost worked =
        run_found (begin (hash db) token given lease).0 (step server (begins token given lease) db)
          between lost worked
