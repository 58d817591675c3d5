-- ===== src/Redis/Idempotency.antt =====
-- packages/redis/src/idempotency: the four scripts of scripts.ts, each as what it replies and the
-- commands that it sends, by what it reads of the key's hash; and `run` of run.ts.
pub mod Events
pub mod Fencing
pub mod Records
pub mod Run
mod Examples
use Prim.Native.Char.{code}
use nxgt_data.Prelude.{
  ℕ, zero, suc, ◌+◌, ◌≡◌, Bool, true, false, not, ◌&&◌, ◌||◌, Option, none, some, String, List, [],
  ◌∷◌, str_eq, ◌==◌, leb, if◌then◌else◌,
}
use nxgt_data.Redis.Server.{
  Hash, hlen, Command, set_state, set_token, set_fp, set_value, del_token, pexpire, expire, del,
  Server,
}

-- `Begun`: what `BEGIN` found.
pub data Begun : Type 0 where
  started mismatch corrupt : Begun
  running : ℕ → Begun
  done : String → Begun

is_hex : ℕ → Bool
is_hex c = (leb b'0' c && leb c b'9') || (leb b'a' c && leb c b'f')

all_hex : String → Bool
all_hex String.[] = true
all_hex (String.◌∷◌ c s) = is_hex (code c) && all_hex s

count : String → ℕ
count String.[] = 0
count (String.◌∷◌ c s) = suc (count s)

-- `#s == n and string.match(s, '^[0-9a-f]+$')`, for an `n` above 0
unfoldable pub hex_of : ℕ → String → Bool
unfolding is_hex all_hex count
hex_of n s = (count s == n) && all_hex s

-- `f == text` in Lua, where a field that is not there equals no text.
abbrev pub is : Option String → String → Bool
is none s = false
is (some f) s = str_eq f s

abbrev pub absent : Option String → Bool
absent none = true
absent (some _) = false

-- The reply of `PTTL` about a key that is there, as the test `pttl <= 0` reads it: -1, for no expiry,
-- is 0 here.
abbrev pub time_left : Option ℕ → ℕ
time_left none = 0
time_left (some ms) = ms

abbrev pub good_fp : String → Bool
good_fp fp = str_eq fp "" || hex_of 64 fp

hex_token : Option String → Bool
hex_token none = false
hex_token (some t) = hex_of 32 t

-- The answer about a record of three fields with an expiry and this `fp`.
answer_done : String → String → Option String → Begun
answer_done fp given none = corrupt
answer_done fp given (some value) = if str_eq fp given then done value else mismatch

answer : Hash → String → String → Begun
unfolding answer_done
answer h fp given =
    if not (good_fp fp)
    then corrupt
    else if is h.state "running" && absent h.value && hex_token h.token
    then (if str_eq fp given then running (time_left h.pttl) else mismatch)
    else if is h.state "done" && absent h.token
    then answer_done fp given h.value
    else corrupt

answer_fp : Hash → Option String → String → Begun
answer_fp h none given = corrupt
answer_fp h (some fp) given = answer h fp given

-- `BEGIN`, with `token`, `given` (the fingerprint) and `lease` its arguments.
unfoldable pub begin : Hash → String → String → ℕ → Begun × List Command
unfolding answer_fp answer hex_token
begin h token given lease =
    if hlen h == 0
    then (started, set_state "running" ∷ set_token token ∷ set_fp given ∷ pexpire lease ∷ [])
    else if not (hlen h == 3) || (time_left h.pttl == 0)
    then (corrupt, [])
    else (answer_fp h h.fp given, [])

abbrev pub holds : Hash → String → Bool
holds h token = is h.state "running" && is h.token token

-- `COMPLETE`: whether the result was stored.
unfoldable pub complete : Hash → String → String → ℕ → Bool × List Command
complete h token json ttl =
    if holds h token
    then (true, set_state "done" ∷ set_value json ∷ del_token ∷ expire ttl ∷ [])
    else (false, [])

-- `RENEW`: whether the lease was pushed back.
unfoldable pub renew : Hash → String → ℕ → Bool × List Command
renew h token lease = if holds h token then (true, pexpire lease ∷ []) else (false, [])

-- `RELEASE`: whether the marker was deleted.
unfoldable pub release : Hash → String → Bool × List Command
release h token = if holds h token then (true, del ∷ []) else (false, [])
