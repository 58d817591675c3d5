-- ===== src/Redis/Queue/Examples.antt =====
-- A queue of one job from its adding to its end, with sorted lists as its sets, and the theorems
-- at it.
use nxgt_data.Prelude.{
  ℕ, ◌≡◌, refl, true, false, Option, none, some, String, List, [], ◌∷◌, All, arith, map, length,
  ◌≤◌, ◌+◌, if◌then◌else◌,
}
use nxgt_data.Decimal.{print, value}
use nxgt_data.Redis.Zsets.Sorted.{sorted_sets, empty_set}
use nxgt_data.Redis.RateLimit.Exact.{exact}
use nxgt_data.Redis.RateLimit.{gcra}
use nxgt_data.Redis.Queue.Bounds.{claim-bounds}
use nxgt_data.Redis.Queue.{
  Queue, Key, active, is_there, same, in_set, run, sound, sound_group, first, score_in,
}
use nxgt_data.Redis.Queue.Claim.{
  Limit, Schedules, ready_add, reclaim_job, promote_job, each, reclaim, promote, take_out, start,
  begin_all, begin_ready, admitted, charge, pass_on, retry_after, claim, next_wait,
}
use nxgt_data.Redis.Queue.Settle.{
  complete_job, kept_completed, trim, trim_count, drop_all, fail_job, release_job,
}
use nxgt_data.Redis.Queue.Admin.{
  NewJob, plain, add, add_one, add_held, add_new, add_job, add_due, add_later, new_hash, held_id,
  cancel, pause,
}
use nxgt_data.Redis.Queue.Calls.{Call, adds, claims, pauses, call, calls}
use nxgt_data.Redis.Queue.Placed.{IsPlaced, leave}
use nxgt_data.Redis.Queue.Placed.Calls.{calls-IsPlaced, calls-one_set}
use nxgt_data.Redis.Queue.Placed.Leases.{claim-keeps}
use nxgt_data.Redis.Queue.Fencing.Stale.{IsFencedAfter, IsNotGiven, settled-IsFenced}

abbrev idle : Queue sorted_sets
idle = record {
  jobs = λ _. none;
  sets = λ _. empty_set;
  seq = 0;
  wake = 0;
  paused = false;
  rate = none;
  events = [];
}

idle-IsPlaced : IsPlaced idle
idle-IsPlaced = record { at = λ j. leave (λ _. false) (λ _. refl) }

abbrev mail : NewJob
mail = record {
  id = "mail";
  data_json = "{}";
  priority = b'0' ∷ [];
  attempts = b'3' ∷ [];
  delay = 0;
  at = none;
  timeout = none;
  mode = plain;
  dedupe_key = "";
}

abbrev no_schedules : Schedules
no_schedules = record { due = 0; later = none }

abbrev one_run : List Call
one_run = adds 100 (mail ∷ []) (λ _. none) ∷ claims 1 30 ("t1" ∷ []) 110 none no_schedules ∷ []

abbrev running : Queue sorted_sets
running = calls exact (λ _. true) one_run idle

-- Opens the scripts in a test.
scripts : Unit {0}
unfolding call claim reclaim promote each reclaim_job promote_job take_out begin_ready begin_all
    start admitted charge pass_on retry_after add add_one add_held add_new add_job add_due add_later
    new_hash held_id ready_add run print value first next_wait sound sound_group
scripts = tt

held : score_in running active "mail" ≡ some 140
unfolding scripts
held = refl

running-IsPlaced : IsPlaced running
running-IsPlaced = calls-IsPlaced exact (λ _. true) one_run idle idle-IsPlaced

-- The token that the claim gave settles the job, and another does not.
settles : (complete_job 130 "mail" "t1" none (some (1000, 10)) running).1 ≡ true
unfolding scripts complete_job kept_completed trim trim_count drop_all
settles = refl

refused : (complete_job 130 "mail" "t2" none (some (1000, 10)) running).1 ≡ false
unfolding scripts complete_job kept_completed trim trim_count drop_all
refused = refl

-- A claim after the lease takes the job again, as its second attempt.
again :
    map (λ j. j.attempt) (claim exact 1 30 ("t2" ∷ []) 141 none no_schedules running).jobs ≡ 2 ∷ []
unfolding scripts
again = refl

-- While the queue is paused a claim starts nothing.
paused_none :
    (claim exact 1 30
      ("t2" ∷ [])
      141
      none
      no_schedules
      (call exact (λ _. true) pauses running)).jobs
    ≡ []
unfolding scripts pause
paused_none = refl

abbrev later_claim : List Call
later_claim = claims 1 30 ("t2" ∷ []) 200 none no_schedules ∷ []

later_claim-IsNotGiven : All (IsNotGiven "t1") later_claim
later_claim-IsNotGiven = ((refl, (refl, tt)), tt)

calls-one_set_example :
    let r = calls exact (λ _. true) one_run idle in
    (is_there (r.jobs "mail") ≡ true → (k : Key) × ((l : Key) → in_set r l "mail" ≡ same k l))
    × (is_there (r.jobs "mail") ≡ false → (l : Key) → in_set r l "mail" ≡ false)
calls-one_set_example = calls-one_set exact (λ _. true) one_run idle "mail" idle-IsPlaced

claim-keeps_example :
    let r = (claim exact 1 30 ("t2" ∷ []) 120 none no_schedules running).queue in
    (r.jobs "mail" ≡ running.jobs "mail") × (score_in r active "mail" ≡ some 140)
claim-keeps_example =
    claim-keeps exact 1 30 ("t2" ∷ []) 120 none no_schedules running "mail" 140 running-IsPlaced
      held (omega arith)

settled-IsFenced_example :
    ((now : ℕ) (result : Option String) (keep : Option (ℕ × ℕ))
      → IsFencedAfter exact
          (λ _. true)
          "mail"
          "t1"
          later_claim
          (complete_job now "mail" "t1" result keep running).0)
    × ((now : ℕ) (error : String) (retry_in : Option ℕ) (keep : ℕ)
        → IsFencedAfter exact
            (λ _. true)
            "mail"
            "t1"
            later_claim
            (fail_job now "mail" "t1" error retry_in keep running).0)
    × ((release_job "mail" "t1" running).1 ≡ true
        → IsFencedAfter exact
            (λ _. true)
            "mail"
            "t1"
            later_claim
            (release_job "mail" "t1" running).0)
    × ((cancel "mail" running).1 ≡ true
        → IsFencedAfter exact (λ _. true) "mail" "t1" later_claim (cancel "mail" running).0)
settled-IsFenced_example =
    settled-IsFenced exact (λ _. true) "mail" "t1" later_claim running later_claim-IsNotGiven

abbrev slow : Limit
slow = record { limit = record { limit = 5; per = 60000; burst = 5 }; us = 7000000 }

claim-bounds_example :
    let started = length (claim exact 9 30 ("t2" ∷ []) 141 (some slow) no_schedules running).jobs in
    (started ≤ 9)
    × (running.paused ≡ true → started ≡ 0)
    × ((l : Limit)
        → some slow ≡ some l
        → let reply = (gcra exact l.limit running.rate l.us 1 false).0 in
          started ≤ (if reply.allowed then reply.remaining + 1 else 0))
claim-bounds_example = claim-bounds exact 9 30 ("t2" ∷ []) 141 (some slow) no_schedules running
