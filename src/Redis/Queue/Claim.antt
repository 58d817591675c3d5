-- ===== src/Redis/Queue/Claim.antt =====
-- packages/redis/src/queue/scripts/claim: the claim of body.ts and its steps of steps.ts, of an
-- ungrouped queue. The schedules are read only, and stand as what the script reads of them.
use nxgt_data.Prelude.{
  ℕ, suc, ◌+◌, ◌-◌, ◌*◌, min, Bool, true, false, ◌&&◌, not, Option, none, some, String, List, [],
  ◌∷◌, ◌++◌, ltb, leb, if◌then◌else◌, length, take, drop, select, map,
}
use nxgt_data.Decimal.{value}
use nxgt_data.Redis.Zsets.{Zsets}
use nxgt_data.Redis.RateLimit.Arithmetic.{Doubles}
use nxgt_data.Redis.RateLimit.{Rate, Reply, Write, gcra}
use nxgt_data.Redis.Queue.Edits.{as_active, as_failed, as_refused, as_waiting, without_token}
use nxgt_data.Redis.Queue.{
  Job, Key, delayed, ready, active, failed, failed_event, Queue, is_there, edit, zadd, zrem, hash,
  score_in, run, run_all, publish, wake_up, first, card, number, sound,
}

abbrev pub invalid_error : String
invalid_error =
    "{\"name\":\"QueueError\",\"message\":\"INVALID: a stored job this package could not have written\"}"

abbrev pub lapsed_error : String
lapsed_error = "{\"name\":\"LeaseLapsed\",\"message\":\"lease lapsed\"}"

-- What a step did with an id: put it in `stalled`, in `invalid`, or in no reply.
pub data Seen : Type 0 where
  stalled invalid unseen : Seen

-- A job of the reply.
pub record Started : Type 0 where
  pub id : String
  pub data_json : Option String
  pub attempt : ℕ
  pub attempts : ℕ
  pub token : String
  pub timeout : Option ℕ

pub record Limit : Type 0 where
  pub limit : Rate
  pub us : ℕ

-- What the script reads of the schedules: how many it reports as due, and the first score above
-- `now`.
pub record Schedules : Type 0 where
  pub due : ℕ
  pub later : Option ℕ

abbrev pub sooner : Option ℕ → Option ℕ → Option ℕ
sooner none o = o
sooner (some a) none = some a
sooner (some a) (some b) = some (if ltb b a then b else a)

abbrev pub wait_of : ℕ → Option ℕ → Option ℕ
wait_of now none = none
wait_of now (some at) = some (at - now)

-- The token at hand. The caller gives as many as it asks for jobs, so there is one.
abbrev pub token_of : List String → String
token_of [] = ""
token_of (t ∷ _) = t

abbrev pub stored : Option (List ℕ) → Option Write → Option (List ℕ)
stored held none = held
stored held (some w) = some w.text

-- The ids of a step's reply.
abbrev is_stalled : Seen → Bool
is_stalled stalled = true
is_stalled _ = false

abbrev is_invalid : Seen → Bool
is_invalid invalid = true
is_invalid _ = false

abbrev pub ids_of : (Seen → Bool) → List (String × Seen) → List String
ids_of p seen = map (λ s. s.0) (select (λ s. p s.1) seen)

abbrev pub passes : (ℕ → Bool) → Option ℕ → Bool
passes p none = false
passes p (some n) = p n

-- A timeout of the reply, where none stands for -1.
abbrev pub number_of : Option (List ℕ) → Option ℕ
number_of none = none
number_of (some cs) = some (value cs)

abbrev pub started_job : String → String → Job → Started
started_job id token f = record {
  id = id;
  data_json = f.data_json;
  attempt = number f.attempt + 1;
  attempts = number f.attempts;
  token = token;
  timeout = number_of f.timeout;
}

module _ {R : Zsets} where
  -- `ZRANGEBYSCORE key -inf max LIMIT 0 n`, with `p` the test of the score.
  abbrev pub range_by : (ℕ → Bool) → ℕ → Key → Queue R → List String
  range_by p n k q = take n (select (λ id. passes p (score_in q k id)) (R.members (q.sets k)))

  -- `ready_add(id, ready_score(priority), g)`
  unfoldable pub ready_add : String → ℕ → Queue R → Queue R
  ready_add id priority q =
      run id (zadd ready (priority * 1099511627776 + suc q.seq)) (record q { seq = suc q.seq })

  unfoldable pub refuse : ℕ → String → Queue R → Queue R × Seen
  refuse now id q =
      let out = run_all id (zrem delayed ∷ zrem ready ∷ zrem active ∷ []) q in
      if not (is_there (q.jobs id)) then (out, unseen) else (
        publish (failed_event id invalid_error)
            (run_all id (edit (as_refused now invalid_error) ∷ zadd failed now ∷ []) out),
        invalid,
      )

  -- One turn of `reclaim`.
  unfoldable pub reclaim_job : ℕ → String → Queue R → Queue R × Seen
  reclaim_job now id q =
      let f = hash q id in
      let freed = run_all id (zrem active ∷ edit without_token ∷ []) q in
      if not (sound f)
      then refuse now id q
      else if ltb (number f.attempt) (number f.attempts)
      then (ready_add id (number f.priority) (run id (edit as_waiting) freed), stalled)
      else (
        publish (failed_event id lapsed_error)
            (run_all id (edit (as_failed now lapsed_error) ∷ zadd failed now ∷ []) freed),
        stalled,
      )

  -- One turn of `promote`.
  unfoldable pub promote_job : ℕ → String → Queue R → Queue R × Seen
  promote_job now id q =
      let f = hash q id in
      if not (sound f) then refuse now id q else (
        ready_add id (number f.priority) (run_all id (zrem delayed ∷ edit as_waiting ∷ []) q),
        unseen,
      )

  -- `for _, id in ipairs(ids)`
  unfoldable pub each :
      (String → Queue R → Queue R × Seen) → List String → Queue R → Queue R × List (String × Seen)
  each f [] q = (q, [])
  each f (id ∷ ids) q =
      let turn = f id q in let rest = each f ids turn.0 in (rest.0, (id, turn.1) ∷ rest.1)

  unfoldable pub reclaim : ℕ → Queue R → Queue R × List (String × Seen)
  reclaim now q = each (reclaim_job now) (range_by (λ n. ltb n now) 100 active q) q

  unfoldable pub promote : ℕ → Queue R → Queue R × List (String × Seen)
  promote now q = each (promote_job now) (range_by (λ n. leb n now) 1000 delayed q) q

  -- `ZPOPMIN`: the ids are taken out of `ready`.
  unfoldable pub take_out : List String → Queue R → Queue R
  take_out [] q = q
  take_out (id ∷ ids) q = take_out ids (run id (zrem ready) q)

  -- `begin` of a job whose hash is sound: it is active under the token.
  unfoldable pub start : ℕ → ℕ → String → String → Queue R → Queue R
  start now lease token id q =
      run_all id (edit (as_active token) ∷ zadd active (now + lease) ∷ []) q

  -- `begin` of each id that was popped.
  unfoldable pub begin_all :
      ℕ → ℕ → List String → List String → Queue R → Queue R × List Started × List (String × Seen)
  begin_all now lease tokens [] q = (q, [], [])
  begin_all now lease tokens (id ∷ ids) q =
      let f = hash q id in
      let token = token_of tokens in
      let refused = refuse now id q in
      let next = begin_all now lease (drop 1 tokens) ids (start now lease token id q) in
      let skip = begin_all now lease tokens ids refused.0 in
      if sound f
      then (next.0, started_job id token f ∷ next.1, next.2)
      else (skip.0, skip.1, (id, refused.1) ∷ skip.2)

  -- `next_wait(now, backlog, retry)`, where none stands for -1.
  unfoldable pub next_wait : ℕ → Bool → Option ℕ → Option ℕ → Queue R → Option ℕ
  next_wait now backlog retry later q =
      if backlog
      then some 0
      else sooner (sooner (wait_of now (first q delayed)) (wait_of now later)) retry

pub record Claimed (R : Zsets) : Type 0 where
  pub queue : Queue R
  pub jobs : List Started
  pub stalled_ids : List String
  pub invalid_ids : List String
  pub next : Option ℕ

module _ (lua : Doubles) {R : Zsets} where
  unfoldable pub peek : Limit → Queue R → Reply
  peek l q = (gcra lua l.limit q.rate l.us 1 false).0

  -- `admitted(n, paused, rate)`
  unfoldable pub admitted : ℕ → Option Limit → Queue R → ℕ
  admitted n none q = if q.paused then 0 else n
  admitted n (some l) q =
      if q.paused
      then 0
      else if not ((peek l q).allowed)
      then 0
      else min n ((peek l q).remaining + 1)

  -- The charge of the jobs that started.
  unfoldable pub charge : Option Limit → ℕ → Queue R → Queue R
  charge none k q = q
  charge (some l) k q =
      if ltb 0 k
      then record q { rate = stored q.rate (gcra lua l.limit q.rate l.us k true).1 }
      else q

  -- `retry`: how long the rate refuses what is ready; none stands for -1.
  unfoldable pub retry_after : Option Limit → Queue R → Option ℕ
  retry_after none q = none
  retry_after (some l) q =
      if ltb 0 (card q ready) && not q.paused && not ((peek l q).allowed)
      then some (peek l q).retry_after
      else none

  -- The pop of what is admitted, each job of which begins.
  unfoldable pub begin_ready :
      ℕ
      → ℕ
      → List String
      → ℕ
      → Option Limit
      → Queue R
      → Queue R × List Started × List (String × Seen)
  begin_ready n lease tokens now rate q =
      let ids = take (admitted n rate q) (R.members (q.sets ready)) in
      begin_all now lease tokens ids (take_out ids q)

  -- The wake token that a claim leaves, or takes away.
  unfoldable pub pass_on : Option Limit → Queue R → Queue R
  pass_on rate q =
      if not q.paused && ltb 0 (card q ready) && not (is_there (retry_after rate q))
      then wake_up q
      else record q { wake = 0 }

  -- `claim(n, lease, tokens, now, rate, sprefix)`
  unfoldable pub claim : ℕ → ℕ → List String → ℕ → Option Limit → Schedules → Queue R → Claimed R
  claim n lease tokens now rate schedules q =
      let reclaimed = reclaim now q in
      let promoted = promote now reclaimed.0 in
      let begun = begin_ready n lease tokens now rate promoted.0 in
      let charged = charge rate (length begun.1) begun.0 in
      record {
        queue = pass_on rate charged;
        jobs = begun.1;
        stalled_ids = ids_of is_stalled reclaimed.1;
        invalid_ids =
            ids_of is_invalid reclaimed.1
            ++ ids_of is_invalid promoted.1
            ++ ids_of is_invalid begun.2;
        next =
            if charged.paused
            then some 5000
            else next_wait now (leb 20 schedules.due) (retry_after rate charged) schedules.later
                charged;
      }
