-- ===== src/Redis/Queue/Calls.antt =====
-- What may happen to one queue: the scripts of any number of clients and workers, each one step on
-- the server, in any order and at any time.
use nxgt_data.Prelude.{ℕ, Bool, Option, String, List, [], ◌∷◌}
use nxgt_data.Redis.Zsets.{Zsets}
use nxgt_data.Redis.RateLimit.Arithmetic.{Doubles}
use nxgt_data.Redis.Queue.{Queue}
use nxgt_data.Redis.Queue.Claim.{Limit, Schedules, claim}
use nxgt_data.Redis.Queue.Settle.{
  Args, complete, fail, release, renew, progress, step_begin, step_commit,
}
use nxgt_data.Redis.Queue.Admin.{NewJob, Keys, add, cancel, retry, remove, pause, resume}

-- One call of a script, with what it reads besides the queue's keys.
pub data Call : Type 0 where
  adds : (now : ℕ) (js : List NewJob) (keys : Keys) → Call
  claims :
      (n lease : ℕ) (tokens : List String) (now : ℕ) (rate : Option Limit) (schedules : Schedules)
      → Call
  completes :
      (now : ℕ) (args : Args) (id token : String) (result : Option String) (keep : Option (ℕ × ℕ))
      → Call
  fails : (now : ℕ) (args : Args) (id token error : String) (retry_in : Option ℕ) (keep : ℕ) → Call
  releases : (jobs : List (String × String)) → Call
  renews : (now lease : ℕ) (jobs : List (String × String)) → Call
  reports : (id token value : String) → Call
  begins_step : (now lease : ℕ) (id token name : String) → Call
  commits_step : (now : ℕ) (id token name json : String) → Call
  cancels : (id : String) → Call
  retries_job : (now : ℕ) (id : String) (fresh : Bool) → Call
  removes : (id : String) → Call
  pauses resumes : Call

module _ (lua : Doubles) (is_number : List ℕ → Bool) {R : Zsets} where
  unfoldable pub call : Call → Queue R → Queue R
  call (adds now js keys) q = (add is_number now js keys q).0
  call (claims n lease tokens now rate schedules) q =
      (claim lua n lease tokens now rate schedules q).queue
  call (completes now args id token result keep) q =
      (complete lua now args id token result keep q).claimed.queue
  call (fails now args id token error retry_in keep) q =
      (fail lua now args id token error retry_in keep q).claimed.queue
  call (releases jobs) q = (release jobs q).0
  call (renews now lease jobs) q = (renew now lease jobs q).0
  call (reports id token value) q = (progress id token value q).0
  call (begins_step now lease id token name) q = (step_begin now lease id token name q).0
  call (commits_step now id token name json) q = (step_commit now id token name json q).0
  call (cancels id) q = (cancel id q).0
  call (retries_job now id fresh) q = (retry now id fresh q).0
  call (removes id) q = (remove id q).0
  call pauses q = pause q
  call resumes q = resume q

  abbrev pub calls : List Call → Queue R → Queue R
  calls [] q = q
  calls (c ∷ cs) q = calls cs (call c q)
