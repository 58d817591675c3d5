-- ===== src/Lib.antt =====
-- A verification library for the TypeScript packages of this repository: stores for applications
-- (Redis, MongoDB, SQL through Drizzle, S3, Meilisearch), images and backups, each package on its own.
-- A package binds a definition, which it checks once, to a connection; the calls then go to a
-- server, which is not part of the repository.
--
-- The files and what they model:
-- - Prelude and its children: tests on numbers and texts, and lists measured by native numbers.
-- - Decimal: whole numbers as decimal text, which the rate limit stores.
-- - Redis/RateLimit: packages/redis/src/rate-limit. `gcra` is the Lua function `gcra` of gcra.ts
--   with its local functions (`state`, `left`, `ceildiv`, `ms`) under their names; `drain` is its
--   `base` and `d`, `decide` its last part. Its result is the reply and the write of one call. The
--   child Definition has `checkRateValues` of define-rate-limit.ts and the bound calls `check`,
--   `consume`, `enforce` and `peek` of bind-rate-limit.ts. Times are whole microseconds of the
--   server's clock, and the bucket's content is counted in ticks. Lua's doubles are a parameter
--   (Doubles in Arithmetic): exact up to 2 ^ 53, and a division within one of the quotient.
-- - Redis/Server: the hash of one key, and what the documented commands make of it; the server is a
--   parameter with laws. A key goes once the clock is past its end, and has 0 ms left at its end.
-- - Redis/Idempotency: packages/redis/src/idempotency. `begin`, `complete`, `renew` and `release`
--   are the four scripts of scripts.ts: what each answers and the commands that it sends. Events
--   are the scripts of any runs and time, in any order. Run has `run` of run.ts with `toStored` and
--   `fromStored` of result.ts; a schema and JSON are parameters.
-- - Redis/Cron: packages/redis/src/queue/schedule/cron.ts, under its names (`parse_cron`, `parse_field`,
--   `bounds`, `field_value` for `value`); Next has `nextAfter` and `nextEvery` of next.ts. A Date and
--   the zone functions are parameters (Zone), with laws (IsZone).
-- - Redis/Zsets: the sorted sets of the server, as a parameter with laws; Sorted has lists that keep
--   them.
-- - Redis/Queue: packages/redis/src/queue/scripts, of an ungrouped queue. `run` has the commands of a
--   script about one job, on the hashes and the five sorted sets, and Edits what `HSET` and `HDEL`
--   make of a hash. Claim has `claim` of
--   claim/body.ts with `refuse`, `admitted` and `begin` (`begin_all`), and `reclaim`, `promote` and
--   `next_wait` of claim/steps.ts; the rate is `gcra` of Redis/RateLimit. Settle has `COMPLETE` and
--   `FAIL` (`complete`, `fail`, with `trim`), `RELEASE`, `RENEW`, `PROGRESS` and the steps of
--   step.ts; Admin has `ADD`, `CANCEL`, `RETRY`, `REMOVE`, `PAUSE`, `RESUME` and `COUNTS`. Calls are
--   the scripts of any clients and workers, in any order. Numbers of a hash are read as whole ones,
--   whatever their size; what the claim reads of the schedules is a parameter.
-- - Backup/Periods, Backup/Rules, Backup/Policy: packages/backup/src/rotation, periods.ts and
--   policy.ts. Rules has `checkPolicy` (`check_policy`) and `byRules` (`by_rules`); Policy has
--   `withParents`, `droppable` and `plan` (`with_parents`, `droppable`, `plan`), with the size loop
--   of `plan` as `shrink`. A Map from ids is a function, a Set is a list, a reason is a constructor.
-- - Backup/Prune: packages/backup/src/rotation/prune.ts. `prune_backups` is `pruneBackups` after
--   `checkOptions` (`check_options`), `decided` its `decide` with `candidates_of`, `remove_backup` is
--   `removeBackup`; the scan is `ids_from` with `keys_of`. The lease is asked before each delete.
-- - Backup/Lock: packages/backup/src/lock/lock.ts. `Move` has the steps of `acquireLock`, `refuseOthers`
--   and `renewing`, each read or write of the repository a step of its own; `still_held` is
--   `stillHeld`. `Reaches` are the states of any number of writers in any order, crashes included.
--   A writer reads its two clocks at one time, and they stay apart by the same offset.
-- - Backup/Chain: packages/backup/src/chain/view.ts. `chain_of` is `chainOf`, with what fetching a
--   manifest gives as a parameter.
-- - Mongo/GridFs: packages/mongo/src/gridfs/chunks.ts. `write_chunks`, `read_chunks` and
--   `drop_chunks` are `writeChunks`, `readChunks` and `dropChunks`, with `flushBatch` and `emit`
--   under their names and the `pull` of the stream as `pull_all`; `write_source` is `writeChunks` with
--   a source that ends or, like `onBytes`, throws after some pieces. The driver is a parameter: the
--   ids it makes, which inserts fail and after how many documents, and the cursor.
-- - Mongo/Migrations: packages/mongo/src/migrations. The module itself has plan.ts, under its names
--   (`check_list`, `status_of`, `check_applied`, `to_apply`, `to_revert`); Run has `migrate`,
--   `rollback` and `migration_status` of run.ts over `run_step`, with the records of store.ts; Lock
--   has lock.ts, each operation as the write that it is, and `take` as its two writes. What a
--   migration does is a function on the data, which says whether it returned.
-- - Image/Filters: packages/image/src/crop/unfilter.ts. `unfilter_row` is `unfilterRow`, with `paeth`;
--   a row is the list of its bytes, and the loop carries the bytes before the current one.
-- - Image/Geometry: packages/image/src/process/geometry.ts. `scaled_dimensions`, `centred_crop` and
--   `scale_crop` are the functions of these names; `crop_refused` is whether `assertCropFits` throws.
--   A side times the scale, rounded, is a parameter.
-- - Image/Assembler: packages/image/src/crop/row-assembler.ts. `feed` is the assembler's `feed`; the
--   caller's `onRow` is a parameter, and the rows given to it are kept in the state.
--
-- Loops and fuel: `visit_all`, the loop of `withParents`, has one turn for each backup, since each
-- enters the stack once; `shrink`, the size loop of `plan`, has one turn more than there are
-- backups, since each turn but the last drops one; `fill`, the loop over one piece of a file, has
-- one turn for each byte, since each takes one at least, and so has `feed_all`, the loop of
-- `feed`; `count_up`, the loop over the values of a cron's range, has one turn for each number up to
-- its end; `walk`, the loop of `chainOf`, has one turn more than there are backups, since each goes
-- on to an older one. All other loops count turns of the source or recurse on a list.
--
-- Numbers: sizes, times and counts are natural numbers, since the code's checks refuse others; a
-- date before 1970 is left out. Sums of sizes in a plan are taken to stay below 2 ^ 53.
--
-- Not modelled: the groups of a queue with their marker, and the firing of schedules; network
-- calls and their failures, timeouts, timers and logging; the servers, JSON and schemas, which are
-- parameters; and the packages and parts that no file above names.
mod Prelude
pub mod Decimal
pub mod Redis
pub mod Backup
pub mod Mongo
pub mod Image
