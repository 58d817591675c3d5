-- ===== src/Redis/Queue/Fencing/Stale.antt =====
-- A worker whose token is lost: what it sends is refused and changes nothing, whatever the other
-- clients do; and a token is lost with the first settle.
use nxgt_data.Prelude.{
  ℕ, ◌≡◌, Bool, true, false, ◌&&◌, ◌||◌, Option, none, some, String, List, [], ◌∷◌, All, ltb,
  Bool-cases, inl, inr,
}
use nxgt_data.Redis.Zsets.{Zsets}
use nxgt_data.Redis.RateLimit.Arithmetic.{Doubles}
use nxgt_data.Redis.Queue.{Queue, delayed, ready, card, in_set}
use nxgt_data.Redis.Queue.Settle.{
  Args, lost, token_is, complete_job, fail_job, release_job, renew_job, progress, holds_lease,
  step_begin, step_commit, complete, fail, claim_one,
}
use nxgt_data.Redis.Queue.Admin.{pause, resume, cancel}
use nxgt_data.Redis.Queue.Calls.{
  Call, adds, claims, completes, fails, releases, renews, reports, begins_step, commits_step,
  cancels, retries_job, removes, pauses, resumes, call, calls,
}
use nxgt_data.Redis.Queue.Fencing.Claims.{IsOther, claim-IsLost}
use nxgt_data.Redis.Queue.Fencing.Scripts.{
  release-IsLost, renew-IsLost, progress-IsLost, step_begin-IsLost, step_commit-IsLost,
}
use nxgt_data.Redis.Queue.Fencing.Admins.{add-IsLost, cancel-IsLost, retry-IsLost, remove-IsLost}
use nxgt_data.Redis.Queue.Fencing.{IsLost, complete_job-IsLost, fail_job-IsLost}
use nxgt_data.Redis.Queue.Fencing.Settled.{
  complete_job-loses, fail_job-loses, release_job-loses, cancel-loses,
}

abbrev listed : Option String → List String
listed none = []
listed (some u) = u ∷ []

-- The call does not give the token to a worker.
abbrev pub IsNotGiven : String → Call → Type 0
IsNotGiven t (claims n lease tokens now rate schedules) = IsOther t tokens
IsNotGiven t (completes now args id token result keep) = IsOther t (listed args.claim_next)
IsNotGiven t (fails now args id token error retry_in keep) = IsOther t (listed args.claim_next)
IsNotGiven t _ = Unit

-- Every script that a worker may send with the token is refused, and changes nothing.
pub record IsFenced {R : Zsets} (id t : String) (q : Queue R) : Type 0 where
  pub completes_not :
      (now : ℕ) (result : Option String) (keep : Option (ℕ × ℕ))
      → complete_job now id t result keep q ≡ (q, false)
  pub fails_not :
      (now : ℕ) (error : String) (retry_in : Option ℕ) (keep : ℕ)
      → fail_job now id t error retry_in keep q ≡ (q, false, false, false)
  pub releases_not : release_job id t q ≡ (q, false)
  pub renews_not : (now lease : ℕ) → renew_job now lease id t q ≡ (q, false)
  pub reports_not : (percent : String) → progress id t percent q ≡ (q, false)
  pub begins_not : (now lease : ℕ) (name : String) → step_begin now lease id t name q ≡ (q, lost)
  pub commits_not : (now : ℕ) (name json : String) → step_commit now id t name json q ≡ (q, false)

-- The same, after these calls.
abbrev pub IsFencedAfter :
    (lua : Doubles) (is_number : List ℕ → Bool) {R : Zsets} (id t : String) (cs : List Call)
    → Queue R
    → Type 0
IsFencedAfter lua is_number id t cs q = IsFenced id t (calls lua is_number cs q)

module _ {R : Zsets} where
  fenced : (id t : String) (q : Queue R) → IsLost id t q → IsFenced id t q
  unfolding complete_job fail_job release_job renew_job progress step_begin step_commit holds_lease
  fenced id t q l = record {
    completes_not = λ now result keep. rw l;
    fails_not = λ now error retry_in keep. rw l;
    releases_not = rw l;
    renews_not = λ now lease. rw l;
    reports_not = λ percent. rw l;
    begins_not = λ now lease name. rw l;
    commits_not = λ now name json. rw l;
  }

  claim_one-IsLost :
      (id t : String) (lua : Doubles) (now : ℕ) (args : Args) (o : Option String) (q : Queue R)
      → IsOther t (listed o)
      → IsLost id t q
      → IsLost id t (claim_one lua now args o q).queue
  unfolding claim_one
  claim_one-IsLost id t lua now args none q o l = l
  claim_one-IsLost id t lua now args (some token) q o l =
      claim-IsLost id t lua 1 args.lease (token ∷ []) now args.limit args.schedules q o l

  fail-IsLost :
      (id t : String) (lua : Doubles) (now : ℕ) (args : Args) (i token error : String)
      (retry_in : Option ℕ) (keep : ℕ) (q : Queue R)
      → IsOther t (listed args.claim_next)
      → IsLost id t q
      → IsLost id t (fail lua now args i token error retry_in keep q).claimed.queue
  unfolding fail
  fail-IsLost id t lua now args i token error retry_in keep q o l =
      elim (Bool-cases
          (settle.3 && in_set (claim_one lua now args args.claim_next settle.0).queue delayed i))
        as (λ _. IsLost id t (fail lua now args i token error retry_in keep q).claimed.queue) [
          | inl e ↦ rw e claimed
          | inr e ↦ rw e claimed
        ]
    where
      settle : Queue R × Bool × Bool × Bool
      settle = fail_job now i token error retry_in keep q

      claimed : IsLost id t (claim_one lua now args args.claim_next settle.0).queue
      claimed =
          claim_one-IsLost id t lua now args args.claim_next _ o
            (fail_job-IsLost id t now i token error retry_in keep q l)

  resume-IsLost : (id t : String) (q : Queue R) → IsLost id t q → IsLost id t (resume q)
  unfolding resume
  resume-IsLost id t q l =
      elim (Bool-cases (ltb 0 (card q ready) || ltb 0 (card q delayed)))
        as (λ _. IsLost id t (resume q)) [ inl e ↦ simp e l | inr e ↦ simp e l ]

module _ (lua : Doubles) (is_number : List ℕ → Bool) {R : Zsets} (id t : String) where
  call-IsLost :
      (c : Call) (q : Queue R)
      → IsNotGiven t c
      → IsLost id t q
      → IsLost id t (call lua is_number c q)
  unfolding call complete pause
  call-IsLost (adds now js keys) q g l = add-IsLost id t is_number now js keys q l
  call-IsLost (claims n lease tokens now rate schedules) q g l =
      claim-IsLost id t lua n lease tokens now rate schedules q g l
  call-IsLost (completes now args i token result keep) q g l =
      claim_one-IsLost id t lua now args args.claim_next _ g
        (complete_job-IsLost id t now i token result keep q l)
  call-IsLost (fails now args i token error retry_in keep) q g l =
      fail-IsLost id t lua now args i token error retry_in keep q g l
  call-IsLost (releases jobs) q g l = release-IsLost id t jobs q l
  call-IsLost (renews now lease jobs) q g l = renew-IsLost id t now lease jobs q l
  call-IsLost (reports i token value) q g l = progress-IsLost id t i token value q l
  call-IsLost (begins_step now lease i token name) q g l =
      step_begin-IsLost id t now lease i token name q l
  call-IsLost (commits_step now i token name json) q g l =
      step_commit-IsLost id t now i token name json q l
  call-IsLost (cancels i) q g l = cancel-IsLost id t i q l
  call-IsLost (retries_job now i fresh) q g l = retry-IsLost id t now i fresh q l
  call-IsLost (removes i) q g l = remove-IsLost id t i q l
  call-IsLost pauses q g l = l
  call-IsLost resumes q g l = resume-IsLost id t q l

  calls-IsLost :
      (cs : List Call) (q : Queue R)
      → All (IsNotGiven t) cs
      → IsLost id t q
      → IsLost id t (calls lua is_number cs q)
  calls-IsLost [] q g l = l
  calls-IsLost (c ∷ cs) q g l = calls-IsLost cs (call lua is_number c q) g.1 (call-IsLost c q g.0 l)

  -- A token that a job does not hold stays refused, whatever scripts run, as long as no claim gives
  -- that token to a worker: what is sent with it, of any script of a worker, changes nothing.
  pub stale-IsFenced :
      (cs : List Call) (q : Queue R)
      → All (IsNotGiven t) cs
      → token_is q id t ≡ false
      → IsFenced id t (calls lua is_number cs q)
  stale-IsFenced cs q g l = fenced id t _ (calls-IsLost cs q g l)

-- Once a worker has completed or failed its job, or given it back, or the job was canceled, the
-- token is refused, whatever scripts run, as long as no claim gives that token, which is not the
-- empty text, to a worker again: what is sent with it changes nothing.
pub settled-IsFenced :
    (lua : Doubles) (is_number : List ℕ → Bool) {R : Zsets} (id t : String) (cs : List Call)
    (q : Queue R)
    → All (IsNotGiven t) cs
    → ((now : ℕ) (result : Option String) (keep : Option (ℕ × ℕ))
        → IsFencedAfter lua is_number id t cs (complete_job now id t result keep q).0)
      × ((now : ℕ) (error : String) (retry_in : Option ℕ) (keep : ℕ)
          → IsFencedAfter lua is_number id t cs (fail_job now id t error retry_in keep q).0)
      × ((release_job id t q).1 ≡ true → IsFencedAfter lua is_number id t cs (release_job id t q).0)
      × ((cancel id q).1 ≡ true → IsFencedAfter lua is_number id t cs (cancel id q).0)
settled-IsFenced lua is_number id t cs q g = (
  λ now result keep.
      stale-IsFenced lua is_number id t cs _ g (complete_job-loses id t now result keep q),
  λ now error retry_in keep.
      stale-IsFenced lua is_number id t cs _ g (fail_job-loses id t now error retry_in keep q),
  λ given. stale-IsFenced lua is_number id t cs _ g (release_job-loses id t q given),
  λ gone. stale-IsFenced lua is_number id t cs _ g (cancel-loses id t q gone),
)
