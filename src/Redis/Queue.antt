-- ===== src/Redis/Queue.antt =====
-- packages/redis/src/queue/scripts: the state that the scripts of one ungrouped queue share, and
-- the Lua helpers that several of them include (claim/body.ts, groups/groups.ts with `GROUPED`
-- false, wake.ts). Each script is one step on the server. Claim has the claim, Settle the scripts
-- that end a run, Admin those that add, cancel and repair.
pub mod Edits
pub mod Claim
pub mod Settle
pub mod Admin
pub mod Calls
pub mod Commands
pub mod Placed
pub mod Fencing
pub mod Bounds
mod Examples
use nxgt_data.Prelude.{
  ℕ, zero, suc, ◌+◌, ◌*◌, ◌^◌, Bool, true, false, ◌&&◌, ◌||◌, not, Option, none, some, String, List,
  [], ◌∷◌, str_eq, ltb, leb, ◌==◌, if◌then◌else◌, length, all, any,
}
use nxgt_data.Decimal.{is_digit, print, value}
use nxgt_data.Redis.Zsets.{Zsets}

-- A job's hash: the fields that the scripts name, as the server stores them. Numbers and groups
-- are the codes of their characters.
pub record Job : Type 0 where
  pub data_json : Option String
  pub attempt : Option (List ℕ)
  pub attempts : Option (List ℕ)
  pub priority : Option (List ℕ)
  pub timeout : Option (List ℕ)
  pub group : Option (List ℕ)
  pub state : Option String
  pub token : Option String
  pub error : Option String
  pub result : Option String
  pub finished : Option (List ℕ)
  pub added : Option (List ℕ)
  pub run_at : Option (List ℕ)
  pub retried : Bool
  pub progress : Option String
  pub steps : List (String × String)

-- What `HMGET` reads of a key that is not there.
abbrev pub no_fields : Job
no_fields = record {
  data_json = none;
  attempt = none;
  attempts = none;
  priority = none;
  timeout = none;
  group = none;
  state = none;
  token = none;
  error = none;
  result = none;
  finished = none;
  added = none;
  run_at = none;
  retried = false;
  progress = none;
  steps = [];
}

-- The five sorted sets of a queue.
pub data Key : Type 0 where
  delayed ready active completed failed : Key

abbrev index : Key → ℕ
index delayed = 0
index ready = 1
index active = 2
index completed = 3
index failed = 4

abbrev pub same : Key → Key → Bool
same k l = index k == index l

-- A message on the channel `events`: its type, id and the text spliced in, if any.
pub data Event : Type 0 where
  completed_event : (id : String) (result : Option String) → Event
  failed_event : (id error : String) → Event
  canceled_event : (id : String) (token : Option String) → Event

-- The keys of a queue. `wake` is the length of its list, `events` what was published, the last
-- message first.
pub record Queue (R : Zsets) : Type 0 where
  pub jobs : String → Option Job
  pub sets : Key → R.Zset
  pub seq : ℕ
  pub wake : ℕ
  pub paused : Bool
  pub rate : Option (List ℕ)
  pub events : List Event

abbrev pub fields : Option Job → Job
fields none = no_fields
fields (some j) = j

abbrev pub is : Option String → String → Bool
is none s = false
is (some t) s = str_eq t s

abbrev pub is_there {ℓ} : {A : Type ℓ} → Option A → Bool
is_there none = false
is_there (some _) = true

-- A command of a script about one job: `HSET` and `HDEL` of fields, `DEL` of its hash, `ZADD` and
-- `ZREM` of its id.
pub data Command : Type 0 where
  edit : (Job → Job) → Command
  del : Command
  zadd : Key → ℕ → Command
  zrem : Key → Command

abbrev pub before : ℕ → Option ℕ → Bool
before at none = true
before at (some n) = ltb at n

-- The score of the first of some members.
abbrev pub scored : (R : Zsets) → R.Zset → List String → Option ℕ
scored R z [] = none
scored R z (id ∷ _) = R.score z id

module _ {R : Zsets} where
  -- The hash of a job, and the place of its id in a set.
  abbrev pub hash : Queue R → String → Job
  hash q id = fields (q.jobs id)

  abbrev pub score_in : Queue R → Key → String → Option ℕ
  score_in q k id = R.score (q.sets k) id

  abbrev pub in_set : Queue R → Key → String → Bool
  in_set q k id = is_there (score_in q k id)

  unfoldable pub run : String → Command → Queue R → Queue R
  run id (edit f) q = record q {
    jobs = λ j. if str_eq id j then some (f (fields (q.jobs id))) else q.jobs j;
  }
  run id del q = record q { jobs = λ j. if str_eq id j then none else q.jobs j }
  run id (zadd k n) q = record q {
    sets = λ l. if same k l then R.zadd n id (q.sets l) else q.sets l;
  }
  run id (zrem k) q = record q { sets = λ l. if same k l then R.zrem id (q.sets l) else q.sets l }

  abbrev pub run_all : String → List Command → Queue R → Queue R
  run_all id [] q = q
  run_all id (c ∷ cs) q = run_all id cs (run id c q)

  abbrev pub publish : Event → Queue R → Queue R
  publish e q = record q { events = e ∷ q.events }

  -- `wake(key)` and `is_head(delayedKey, runAt)`
  abbrev pub wake_up : Queue R → Queue R
  wake_up q = record q { wake = if q.wake == 0 then 1 else q.wake }

  -- The least score of a set.
  unfoldable pub first : Queue R → Key → Option ℕ
  first q k = scored R (q.sets k) (R.members (q.sets k))

  -- `ZCARD`
  abbrev pub card : Queue R → Key → ℕ
  card q k = length (R.members (q.sets k))

  unfoldable pub is_head : Queue R → ℕ → Bool
  is_head q at = before at (first q delayed)

  -- A wake token, unless the queue is paused.
  abbrev pub poke : Queue R → Queue R
  poke q = if q.paused then q else wake_up q

-- `whole(v)`: decimal digits only.
abbrev pub whole : Option (List ℕ) → Bool
whole none = false
whole (some cs) = not (length cs == 0) && all is_digit cs

-- `tonumber` of a whole number.
abbrev pub number : Option (List ℕ) → ℕ
number none = 0
number (some cs) = value cs

abbrev pub sound_timeout : Option (List ℕ) → Bool
sound_timeout none = true
sound_timeout (some cs) = whole (some cs) && leb (length cs) 15 && leb 1 (value cs)

-- `group_sound(g)`
unfoldable pub sound_group : Option (List ℕ) → Bool
sound_group none = true
sound_group (some g) =
    (length g == 0)
    || (leb (length g) 768 && not (any (λ c. (c == b':') || (c == b'{') || (c == b'}')) g))

-- `sound(f)`
unfoldable pub sound : Job → Bool
sound j =
    is_there j.data_json
    && whole j.attempt
    && whole j.attempts
    && whole j.priority
    && leb 1 (number j.attempts)
    && leb (number j.priority) 1000
    && sound_timeout j.timeout
    && sound_group j.group
