-- ===== src/Redis/Server.antt =====
-- What the idempotency scripts of packages/redis rely on of the Redis server, which is not part of
-- the repository: how the hash of one key reads after each command that they send, and as time
-- passes. The server is a parameter; its laws say what Redis documents of `HSET`, `HDEL`,
-- `PEXPIRE`, `EXPIRE`, `DEL` and of a key whose time to live has passed: a key goes when the clock
-- is past its end, so that it is still there, with 0 ms left, at its end.
use nxgt_data.Prelude.{
  ℕ, ◌+◌, ◌-◌, ◌*◌, ◌≡◌, Option, none, some, String, List, [], ◌∷◌, ltb, ◌==◌, if◌then◌else◌,
}

-- The hash at a key: the fields that the scripts name, how many others it has, and the ms that it
-- has left (`none` for a key that has no expiry). A key that is not there has no field.
pub record Hash : Type 0 where
  pub state : Option String
  pub token : Option String
  pub fp : Option String
  pub value : Option String
  pub others : ℕ
  pub pttl : Option ℕ

abbrev pub no_key : Hash
no_key = record { state = none; token = none; fp = none; value = none; others = 0; pttl = none }

abbrev pub present {ℓ} : {A : Type ℓ} → Option A → ℕ
present none = 0
present (some _) = 1

-- `HLEN`
abbrev pub hlen : Hash → ℕ
hlen h = present h.state + present h.token + present h.fp + present h.value + h.others

pub data Command : Type 0 where
  set_state set_token set_fp set_value : String → Command
  del_token : Command
  pexpire : ℕ → Command
  expire : ℕ → Command
  del : Command

-- What a command makes of a hash. A time to live of 0 deletes the key.
abbrev pub after : Command → Hash → Hash
after (set_state s) h = record h { state = some s }
after (set_token t) h = record h { token = some t }
after (set_fp f) h = record h { fp = some f }
after (set_value v) h = record h { value = some v }
after del_token h = record h { token = none }
after (pexpire ms) h = if ms == 0 then no_key else record h { pttl = some ms }
after (expire s) h = if s == 0 then no_key else record h { pttl = some (s * 1000) }
after del h = no_key

abbrev pub after_all : List Command → Hash → Hash
after_all [] h = h
after_all (c ∷ cs) h = after_all cs (after c h)

-- What `ms` milliseconds make of a hash: a key with no expiry stays, another goes once more ms than
-- it had left have passed.
abbrev pub elapse : ℕ → Hash → Hash
elapse ms h = elim h.pttl [
  | none ↦ h
  | some p ↦ if ltb p ms then no_key else record h { pttl = some (p - ms) }
]

pub record Server : Type 1 where
  pub Db : Type 0
  -- The hash of the key, as a command sent now would find it.
  pub hash : Db → Hash
  -- The commands of one script, run as one step.
  pub exec : List Command → Db → Db
  pub pass : ℕ → Db → Db
  pub hash-exec : (cs : List Command) (db : Db) → hash (exec cs db) ≡ after_all cs (hash db)
  pub hash-pass : (ms : ℕ) (db : Db) → hash (pass ms db) ≡ elapse ms (hash db)
