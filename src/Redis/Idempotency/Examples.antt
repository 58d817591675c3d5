-- ===== src/Redis/Idempotency/Examples.antt =====
-- The idempotent operations on a server whose keys are hashes, at concrete inputs.
use nxgt_data.Prelude.{
  ◌≡◌, ◌≢◌, ◌↔◌, map, refl, true, false, some, String, [], ◌∷◌, str_eq, eq_iff, if◌then◌else◌,
  arith,
}
use nxgt_data.Redis.Server.{Hash, Server, no_key, after_all, elapse}
use nxgt_data.Redis.Idempotency.{
  started, corrupt, mismatch, running, done, begin, complete, renew, release, hex_of,
}
use nxgt_data.Redis.Idempotency.Events.{begins, completes, passes, step, play, after_event}
use nxgt_data.Redis.Idempotency.Fencing.{IsFenced, taken-IsFenced}
use nxgt_data.Redis.Idempotency.Records.{
  IsOurs, free, running_record, done_record, begin-eq-corrupt_iff, begin-complete,
}
use nxgt_data.Redis.Idempotency.Run.{Codec, returned, threw, Outcome, value, run}
use nxgt_data.Redis.Idempotency.Run.Once.{returned_alone, returned_replayed}

abbrev one_key : Server
one_key = record {
  Db = Hash;
  hash = λ h. h;
  exec = after_all;
  pass = elapse;
  hash-exec = λ cs db. refl;
  hash-pass = λ ms db. refl;
}

abbrev texts : Codec
texts = record {
  Value = String;
  parse = λ v. some v;
  stringify = λ v. some v;
  json_parse = λ v. some v;
}

abbrev first : String
first = "0123456789abcdef0123456789abcdef"

abbrev second : String
second = "fedcba9876543210fedcba9876543210"

-- Opens the scripts and `run` in a test.
scripts : Unit {0}
unfolding begin complete renew release hex_of run step after_event
scripts = tt

second_while_first_runs : (begin (running_record first "" 4000) second "" 5000).0 ≡ running 4000
unfolding scripts
second_while_first_runs = refl

other_fingerprint :
    (begin (done_record "" "7" 4000) second (String.◌∷◌ "x" String.[]) 5000).0 ≡ mismatch
unfolding scripts
other_fingerprint = refl

four_fields :
    (begin (record (running_record first "" 4000) { others = 1 }) second "" 5000).0 ≡ corrupt
unfolding scripts
four_fields = refl

-- The first run's lease of 100 ms lapses while it works, and a second run takes the key.
lapsed :
    (run texts one_key first "" 100 60 no_key
      (passes 200 ∷ begins second "" 100 ∷ [])
      false
      (returned "7")).0
    ≡ Outcome.lease_lost
unfolding scripts
lapsed = refl

abbrev after_first : Hash
after_first = done_record "" "7" 60000

first-run :
    run texts one_key first "" 100 60 no_key
      (passes 50 ∷ begins second "" 100 ∷ [])
      false
      (returned "7")
    ≡ (value "7" false, after_first)
unfolding scripts
first-run = refl

second-ne-first : ◌≢◌ {A = String} second first
second-ne-first = ground (arith, eq_iff second first)

taken-IsFenced_example :
    IsFenced (play one_key (passes 5 ∷ []) (step one_key (begins second "" 100) no_key)) first
unfolding scripts
taken-IsFenced_example =
    taken-IsFenced one_key no_key first second "" 100 (passes 5 ∷ []) second-ne-first refl (tt, tt)

begin-eq-corrupt_iff_example :
    ((begin (play one_key (begins first "" 100 ∷ passes 100 ∷ []) no_key) second "" 100).0
      ≡ corrupt)
    ↔ ((play one_key (begins first "" 100 ∷ passes 100 ∷ []) no_key).pttl ≡ some 0)
unfolding scripts
begin-eq-corrupt_iff_example =
    begin-eq-corrupt_iff one_key no_key (begins first "" 100 ∷ passes 100 ∷ []) second "" 100 refl
      ((refl, refl, omega arith), (tt, tt))

-- A lease of 100 ms, after 99, 100 and 101 ms.
last_ms :
    map
      (λ ms. (begin (play one_key (begins first "" 100 ∷ passes ms ∷ []) no_key) second "" 100).0)
      (99 ∷ 100 ∷ 101 ∷ [])
    ≡ running 1 ∷ corrupt ∷ started ∷ []
unfolding scripts
last_ms = refl

begin-complete_example :
    (begin
      (play one_key (completes first "7" 60 ∷ passes 100 ∷ []) (running_record first "" 50))
      second
      ""
      100).0
    ≡ (if str_eq "" "" then done "7" else mismatch)
unfolding scripts
begin-complete_example =
    begin-complete one_key (running_record first "" 50) "" first "7" 60 (passes 100 ∷ []) second ""
      100 (IsOurs.in_flight first "" 50 refl refl refl) refl (omega arith) refl (omega arith)

returned_alone_example :
    (begin
      (play one_key (passes 50 ∷ []) (step one_key (begins first "" 100) no_key))
      second
      ""
      100).0
    ≢ started
returned_alone_example =
    returned_alone texts one_key first "" 100 60 no_key after_first (passes 50 ∷ []) second "" 100
      [] false (returned "7") "7" second-ne-first tt first-run

returned_replayed_example :
    (run texts one_key second "" 100 60
      (play one_key (passes 100 ∷ []) after_first)
      []
      false
      threw).0
    ≡ value "7" true
unfolding scripts
returned_replayed_example =
    returned_replayed texts one_key first "" 100 60 no_key after_first
      (passes 50 ∷ begins second "" 100 ∷ []) false (returned "7") "7" (passes 100 ∷ []) second 100
      60 [] false threw (free refl) (refl, refl, omega arith) (omega arith)
      (tt, ((refl, refl, omega arith), tt)) (tt, (second-ne-first, tt)) first-run (omega arith)
