-- ===== src/Redis/Queue/Admin.antt =====
-- packages/redis/src/queue/scripts: `ADD` of add.ts, `CANCEL` of cancel.ts, and `RETRY`, `REMOVE`,
-- `PAUSE`, `RESUME` and `COUNTS` of admin.ts.
use Prim.Native.Char.{code}
use nxgt_data.Prelude.{
  ℕ, ◌+◌, Bool, true, false, ◌&&◌, ◌||◌, not, Option, none, some, String, List, [], ◌∷◌, str_eq,
  ltb, leb, ◌==◌, if◌then◌else◌,
}
use nxgt_data.Decimal.{print, value}
use nxgt_data.Redis.Zsets.{Zsets}
use nxgt_data.Redis.Queue.Edits.{as_postponed, as_retried}
use nxgt_data.Redis.Queue.{
  Job, no_fields, Key, delayed, ready, active, completed, failed, canceled_event, Queue, is,
  is_there, edit, del, zadd, zrem, hash, in_set, run, run_all, publish, wake_up, poke, card,
  is_head, number, sound,
}
use nxgt_data.Redis.Queue.Claim.{ready_add}

-- A job of a call of `ADD`. None stands for an `atMs` or a `timeoutMs` of -1.
pub data Mode : Type 0 where
  plain debounce throttle : Mode

pub record NewJob : Type 0 where
  pub id : String
  pub data_json : String
  pub priority : List ℕ
  pub attempts : List ℕ
  pub delay : ℕ
  pub at : Option ℕ
  pub timeout : Option ℕ
  pub mode : Mode
  pub dedupe_key : String

-- The reply about a job: 0, 1, or the id that the dedupe key holds.
pub data Added : Type 0 where
  was_added was_there : Added
  joined : String → Added

-- When a job runs, and whether it is due.
abbrev pub due_at : ℕ → NewJob → ℕ
due_at now j = elim j.at [ none ↦ now + j.delay | some at ↦ at ]

abbrev pub text_of : Option ℕ → Option (List ℕ)
text_of none = none
text_of (some n) = some (print n)

-- The bytes of a text in UTF-8, and `is_id(held)`.
utf8 : ℕ → ℕ
utf8 c = if ltb c 128 then 1 else if ltb c 2048 then 2 else if ltb c 65536 then 3 else 4

bytes : String → ℕ
unfolding utf8
bytes String.[] = 0
bytes (String.◌∷◌ c s) = utf8 (code c) + bytes s

has_brace : String → Bool
has_brace String.[] = false
has_brace (String.◌∷◌ c s) = (code c == b'{') || (code c == b'}') || has_brace s

unfoldable pub is_id : String → Bool
unfolding bytes has_brace
is_id held = leb 1 (bytes held) && leb (bytes held) 256 && not (has_brace held)

-- The id that a dedupe key holds, if `ADD` could have written it.
unfoldable pub held_id : Option String → Option String
held_id none = none
held_id (some held) = if is_id held then some held else none

-- `f == '0'`
abbrev pub is_zero_text : Option (List ℕ) → Bool
is_zero_text (some (c ∷ [])) = c == b'0'
is_zero_text _ = false

-- A text that `tonumber` reads, by that function of Lua.
abbrev pub reads : (List ℕ → Bool) → Option (List ℕ) → Bool
reads is_number none = false
reads is_number (some cs) = is_number cs

-- The dedupe keys, each with the id that it holds.
abbrev pub Keys : Type 0
Keys = String → Option String

abbrev pub set_key : String → String → Keys → Keys
set_key key id keys = λ k. if str_eq key k then some id else keys k

-- The set that a job's state names, for `CANCEL`.
unfoldable pub from : Option String → Option Key
from state =
    if is state "waiting"
    then some ready
    else if is state "delayed"
    then some delayed
    else if is state "active"
    then some active
    else none

-- What `add_job` stores, of a job in this state that runs at `at`.
unfoldable pub new_hash : ℕ → ℕ → String → NewJob → Job
new_hash now at state j = record no_fields {
  data_json = some j.data_json;
  priority = some j.priority;
  attempt = some (print 0);
  attempts = some j.attempts;
  state = some state;
  added = some (print now);
  run_at = some (print at);
  timeout = text_of j.timeout;
}

module _ {R : Zsets} where
  -- `add_job`
  unfoldable pub add_due : ℕ → NewJob → Queue R → Queue R
  unfolding new_hash
  add_due now j q =
      poke
        (ready_add j.id (value j.priority) (run j.id (edit (λ _. new_hash now now "waiting" j)) q))

  unfoldable pub add_later : ℕ → ℕ → NewJob → Queue R → Queue R
  unfolding new_hash
  add_later now at j q =
      let stored = run j.id (edit (λ _. new_hash now at "delayed" j)) q in
      run j.id (zadd delayed at) (if is_head stored at then poke stored else stored)

  unfoldable pub add_job : ℕ → NewJob → Queue R → Queue R × Bool
  add_job now j q =
      if is_there (q.jobs j.id)
      then (q, false)
      else if leb (due_at now j) now
      then (add_due now j q, true)
      else (add_later now (due_at now j) j q, true)

  -- `waiting_job(held)`: whether a debounce moves that job.
  unfoldable pub waits : (List ℕ → Bool) → Queue R → String → Bool
  waits is_number q held =
      let f = hash q held in
      reads is_number f.priority
      && is_zero_text f.attempt
      && not f.retried
      && ((is f.state "waiting" && in_set q ready held)
          || (is f.state "delayed" && in_set q delayed held))

  -- A debounce that found its job.
  unfoldable pub postpone : ℕ → NewJob → String → Queue R → Queue R
  postpone now j held q =
      let at = now + j.delay in
      let moved = run_all held (edit (as_postponed at j.data_json) ∷ zrem ready ∷ []) q in
      run held (zadd delayed at) (if is_head moved at then poke moved else moved)

  unfoldable pub add_new : ℕ → NewJob → Keys → Queue R → Queue R × Keys × Added
  add_new now j keys q =
      let one = add_job now j q in
      if not one.1
      then (one.0, keys, was_there)
      else (one.0, (elim j.mode [ plain ↦ keys | _ ↦ set_key j.dedupe_key j.id keys ]), was_added)

  -- `ADD` of a job whose dedupe key holds an id, by its mode.
  unfoldable pub add_by :
      (List ℕ → Bool) → ℕ → NewJob → String → Keys → Queue R → Mode → Queue R × Keys × Added
  add_by is_number now j held keys q plain = add_new now j keys q
  add_by is_number now j held keys q throttle = (q, keys, joined held)
  add_by is_number now j held keys q debounce =
      if waits is_number q held
      then (postpone now j held q, set_key j.dedupe_key held keys, joined held)
      else add_new now j keys q

  unfoldable pub add_held :
      (List ℕ → Bool) → ℕ → NewJob → Option String → Keys → Queue R → Queue R × Keys × Added
  add_held is_number now j none keys q = add_new now j keys q
  add_held is_number now j (some held) keys q = add_by is_number now j held keys q j.mode

  -- `ADD`
  unfoldable pub add_one : (List ℕ → Bool) → ℕ → NewJob → Keys → Queue R → Queue R × Keys × Added
  unfolding add_held held_id is_id
  add_one is_number now j keys q = add_held is_number now j (held_id (keys j.dedupe_key)) keys q

  unfoldable pub add :
      (List ℕ → Bool) → ℕ → List NewJob → Keys → Queue R → Queue R × Keys × List Added
  add is_number now [] keys q = (q, keys, [])
  add is_number now (j ∷ js) keys q =
      let one = add_one is_number now j keys q in
      let rest = add is_number now js one.1 one.0 in (rest.0, rest.1, one.2 ∷ rest.2)

  unfoldable pub cancel_from : Option Key → String → Queue R → Queue R × Bool
  cancel_from none id q = (q, false)
  cancel_from (some k) id q =
      let f = hash q id in
      if in_set q k id
      then (
        publish (canceled_event id (if is f.state "active" then f.token else none))
            (run_all id (zrem k ∷ del ∷ []) q),
        true,
      )
      else (q, false)

  -- `CANCEL`
  unfoldable pub cancel : String → Queue R → Queue R × Bool
  unfolding cancel_from
  cancel id q = cancel_from (from (hash q id).state) id q

  -- `RETRY`
  unfoldable pub retry : ℕ → String → Bool → Queue R → Queue R × Bool
  retry now id fresh q =
      let f = hash q id in
      if in_set q failed id && is f.state "failed" && sound f
      then (
        poke (
            ready_add id (number f.priority)
              (run_all id (zrem failed ∷ edit (as_retried now fresh) ∷ []) q)),
        true,
      )
      else (q, false)

  -- `REMOVE`: 1, 0 or 2.
  unfoldable pub remove : String → Queue R → Queue R × ℕ
  remove id q = if in_set q active id || is (hash q id).state "active" then (q, 2) else (
    run_all id (zrem ready ∷ zrem delayed ∷ zrem active ∷ zrem completed ∷ zrem failed ∷ del ∷ [])
        q,
    (if is_there (q.jobs id) then 1 else 0),
  )

  -- `PAUSE` and `RESUME`
  unfoldable pub pause : Queue R → Queue R
  pause q = record q { paused = true }

  unfoldable pub resume : Queue R → Queue R
  resume q =
      let on = record q { paused = false } in
      if ltb 0 (card on ready) || ltb 0 (card on delayed) then wake_up on else on

  -- `COUNTS`
  unfoldable pub counts : Queue R → List ℕ
  counts q =
      card q ready
      ∷ card q delayed
      ∷ card q active
      ∷ card q completed
      ∷ card q failed
      ∷ (if q.paused then 1 else 0)
      ∷ []
