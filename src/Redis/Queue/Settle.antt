-- ===== src/Redis/Queue/Settle.antt =====
-- packages/redis/src/queue/scripts: what a worker does with a job that it holds, each fenced by
-- the token: `COMPLETE` and `FAIL` of settle.ts, `RELEASE` of release.ts, `RENEW` of renew.ts,
-- `PROGRESS` of progress.ts and the steps of step.ts.
use nxgt_data.Prelude.{
  ℕ, ◌+◌, ◌-◌, min, Bool, true, false, ◌&&◌, not, Option, none, some, String, List, [], ◌∷◌, str_eq,
  ltb, leb, if◌then◌else◌, length, take,
}
use nxgt_data.Redis.Zsets.{Zsets}
use nxgt_data.Redis.RateLimit.Arithmetic.{Doubles}
use nxgt_data.Redis.Queue.Edits.{as_completed, as_delayed, as_failed, given_back, without_token}
use nxgt_data.Redis.Queue.{
  Job, Key, delayed, active, completed, failed, completed_event, failed_event, Queue, is, edit, del,
  zadd, zrem, hash, score_in, in_set, run, run_all, publish, wake_up, poke, card, is_head, number,
  sound,
}
use nxgt_data.Redis.Queue.Claim.{Limit, Schedules, Claimed, passes, range_by, ready_add, claim}

-- A definition's `keepCompleted` and `lease`, the rate limit and what is read of the schedules, as
-- a settle is given them. `claim_next` has the token for one more job, if the worker wants one.
pub record Args : Type 0 where
  pub lease : ℕ
  pub claim_next : Option String
  pub limit : Option Limit
  pub schedules : Schedules

-- The field `step:<name>` of a hash, and `HSET` of it.
abbrev pub step_of : String → List (String × String) → Option String
step_of name [] = none
step_of name ((s, json) ∷ steps) =
    let rest = step_of name steps in if str_eq s name then some json else rest

abbrev pub set_step : String → String → List (String × String) → List (String × String)
set_step name json [] = (name, json) ∷ []
set_step name json ((s, held) ∷ steps) =
    let rest = set_step name json steps in
    if str_eq s name then (s, json) ∷ steps else (s, held) ∷ rest

-- `STEP_BEGIN`'s reply.
pub data Step : Type 0 where
  run_it lost : Step
  already : String → Step

-- Whether `FAIL` retries, where none stands for a `retryIn` of -1. It reads neither the timeout
-- nor the group.
unfoldable pub retries : Option ℕ → Job → Bool
retries none f = false
retries (some _) f =
    sound (record f { timeout = none; group = none }) && ltb (number f.attempt) (number f.attempts)

abbrev pub delay_of : Option ℕ → ℕ
delay_of none = 0
delay_of (some d) = d

module _ {R : Zsets} where
  abbrev pub token_is : Queue R → String → String → Bool
  token_is q id token = is (hash q id).token token

  -- `drop(ids)` of `trim`
  unfoldable pub drop_all : Key → List String → Queue R → Queue R
  drop_all k [] q = q
  drop_all k (id ∷ ids) q = drop_all k ids (run_all id (del ∷ zrem k ∷ []) q)

  -- `trim(zkey, now, age, count)`, where none stands for a `count` of -1.
  unfoldable pub trim_count : Key → ℕ → Option ℕ → Queue R → Queue R
  trim_count k left none q = q
  trim_count k left (some count) q =
      drop_all k (take (min (card q k - count) left) (R.members (q.sets k))) q

  unfoldable pub trim : Key → ℕ → ℕ → Option ℕ → Queue R → Queue R
  unfolding trim_count
  trim k now age count q =
      let old = range_by (λ n. ltb (n + age) now) 100 k q in
      trim_count k (100 - length old) count (drop_all k old q)

  -- The settle of `COMPLETE`. None stands for a `keepAge` of -1.
  unfoldable pub kept_completed : ℕ → String → Option String → Option (ℕ × ℕ) → Queue R → Queue R
  kept_completed now id result none q = trim completed now 0 (some 0) (run id del q)
  kept_completed now id result (some (age, count)) q =
      trim completed now age (some count)
        (run_all id (edit (as_completed now result) ∷ zadd completed now ∷ []) q)

  unfoldable pub complete_job :
      ℕ → String → String → Option String → Option (ℕ × ℕ) → Queue R → Queue R × Bool
  unfolding kept_completed
  complete_job now id token result keep q =
      if token_is q id token
      then (
        publish (completed_event id result)
            (kept_completed now id result keep (run id (zrem active) q)),
        true,
      )
      else (q, false)

  -- The settle of `FAIL`: whether it took and whether it is final, and whether the job became the
  -- head of `delayed`.
  unfoldable pub fail_job :
      ℕ → String → String → String → Option ℕ → ℕ → Queue R → Queue R × Bool × Bool × Bool
  fail_job now id token error retry_in keep q =
      let out = run_all id (zrem active ∷ edit without_token ∷ []) q in
      let at = now + delay_of retry_in in
      if not (token_is q id token)
      then (q, false, false, false)
      else if retries retry_in (hash q id)
      then (
        run_all id (edit (as_delayed at error) ∷ zadd delayed at ∷ []) out,
        true,
        false,
        is_head out at,
      )
      else (
        publish (failed_event id error) (
            trim failed now keep none
              (run_all id (edit (as_failed now error) ∷ zadd failed now ∷ []) out)),
        true,
        true,
        false,
      )

  -- One turn of `RELEASE`: whether the job was given back.
  unfoldable pub release_job : String → String → Queue R → Queue R × Bool
  release_job id token q =
      let f = hash q id in
      if is f.token token && is f.state "active" && sound f && leb 1 (number f.attempt)
      then (
        ready_add id (number f.priority) (run_all id (zrem active ∷ edit given_back ∷ []) q),
        true,
      )
      else (q, false)

  unfoldable pub release_jobs : List (String × String) → Queue R → Queue R × List String
  release_jobs [] q = (q, [])
  release_jobs ((id, token) ∷ jobs) q =
      let one = release_job id token q in
      let rest = release_jobs jobs one.0 in (rest.0, if one.1 then id ∷ rest.1 else rest.1)

  -- `RELEASE`
  unfoldable pub release : List (String × String) → Queue R → Queue R × List String
  unfolding release_jobs
  release jobs q =
      let all = release_jobs jobs q in (if ltb 0 (length all.1) then poke all.0 else all.0, all.1)

  -- `RENEW`: the ids whose token was lost. `ZADD XX` writes only an id that is in the set.
  unfoldable pub renew_job : ℕ → ℕ → String → String → Queue R → Queue R × Bool
  renew_job now lease id token q =
      if token_is q id token
      then ((if in_set q active id then run id (zadd active (now + lease)) q else q), true)
      else (q, false)

  unfoldable pub renew : ℕ → ℕ → List (String × String) → Queue R → Queue R × List String
  renew now lease [] q = (q, [])
  renew now lease ((id, token) ∷ jobs) q =
      let one = renew_job now lease id token q in
      let rest = renew now lease jobs one.0 in (rest.0, if one.1 then rest.1 else id ∷ rest.1)

  -- `PROGRESS`
  unfoldable pub progress : String → String → String → Queue R → Queue R × Bool
  progress id token value q =
      if token_is q id token
      then (run id (edit (λ j. record j { progress = some value })) q, true)
      else (q, false)

  -- `held(key, id, token, now)`
  unfoldable pub holds_lease : ℕ → String → String → Queue R → Bool
  holds_lease now id token q = token_is q id token && passes (λ n. ltb now n) (score_in q active id)

  -- `ZADD XX GT`
  unfoldable pub extend : ℕ → String → Queue R → Queue R
  extend until_ms id q =
      if passes (λ n. ltb n until_ms) (score_in q active id)
      then run id (zadd active until_ms) q
      else q

  unfoldable pub begin_fresh : ℕ → ℕ → String → Option String → Queue R → Queue R × Step
  begin_fresh now lease id (some json) q = (q, already json)
  begin_fresh now lease id none q = (extend (now + lease) id q, run_it)

  -- `STEP_BEGIN` and `STEP_COMMIT`
  unfoldable pub step_begin : ℕ → ℕ → String → String → String → Queue R → Queue R × Step
  unfolding begin_fresh extend
  step_begin now lease id token name q =
      let fresh = begin_fresh now lease id (step_of name (hash q id).steps) q in
      if holds_lease now id token q then fresh else (q, lost)

  unfoldable pub step_commit : ℕ → String → String → String → String → Queue R → Queue R × Bool
  step_commit now id token name json q =
      if holds_lease now id token q
      then (run id (edit (λ j. record j { steps = set_step name json j.steps })) q, true)
      else (q, false)

-- The reply of a settle: whether it took, and whether a failure is final.
pub record Settled (R : Zsets) : Type 0 where
  pub settled : Bool
  pub final : Bool
  pub claimed : Claimed R

abbrev pub nothing_claimed : {R : Zsets} → Queue R → Claimed R
nothing_claimed q = record { queue = q; jobs = []; stalled_ids = []; invalid_ids = []; next = none }

module _ (lua : Doubles) {R : Zsets} where
  unfoldable pub claim_one : ℕ → Args → Option String → Queue R → Claimed R
  claim_one now args none q = nothing_claimed q
  claim_one now args (some token) q =
      claim lua 1 args.lease (token ∷ []) now args.limit args.schedules q

  -- `COMPLETE`
  unfoldable pub complete :
      ℕ → Args → String → String → Option String → Option (ℕ × ℕ) → Queue R → Settled R
  unfolding claim_one
  complete now args id token result keep q =
      let settle = complete_job now id token result keep q in
      record {
        settled = settle.1;
        final = false;
        claimed = claim_one now args args.claim_next settle.0;
      }

  -- `FAIL`
  unfoldable pub fail : ℕ → Args → String → String → String → Option ℕ → ℕ → Queue R → Settled R
  unfolding claim_one
  fail now args id token error retry_in keep q =
      let settle = fail_job now id token error retry_in keep q in
      let claimed = claim_one now args args.claim_next settle.0 in
      record {
        settled = settle.1;
        final = settle.2;
        claimed =
            if settle.3 && in_set claimed.queue delayed id
            then record claimed { queue = wake_up claimed.queue }
            else claimed;
      }
