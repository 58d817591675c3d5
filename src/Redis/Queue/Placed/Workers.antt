-- ===== src/Redis/Queue/Placed/Workers.antt =====
-- What else a worker sends, and the scripts of settle.ts with their claim, leave each job in its place.
use nxgt_data.Prelude.{
  ℕ, suc, ◌+◌, ◌*◌, ◌≡◌, refl, true, ◌&&◌, Option, none, some, String, List, [], ◌∷◌, ltb, leb,
  Bool-cases, inl, inr, length,
}
use nxgt_data.Redis.Zsets.{Zsets}
use nxgt_data.Redis.RateLimit.Arithmetic.{Doubles}
use nxgt_data.Redis.Queue.Edits.{given_back}
use nxgt_data.Redis.Queue.{
  Job, delayed, ready, active, same, Queue, is, edit, zadd, zrem, hash, score_in, in_set, run,
  sound, number,
}
use nxgt_data.Redis.Queue.Claim.{passes, ready_add}
use nxgt_data.Redis.Queue.Settle.{
  Args, token_is, fail_job, release_job, release_jobs, release, renew_job, renew, progress,
  holds_lease, extend, begin_fresh, step_of, step_begin, step_commit, claim_one, complete, fail,
}
use nxgt_data.Redis.Queue.Placed.Begins.{claim-IsPlaced}
use nxgt_data.Redis.Queue.Commands.{held_after}
use nxgt_data.Redis.Queue.Placed.{IsPlaced, by_key, moves, stays, poked}
use nxgt_data.Redis.Queue.Placed.Settles.{
  holds-active, holds-there, rescored, complete_job-IsPlaced, fail_job-IsPlaced,
}

module _ {R : Zsets} where
  release_job-IsPlaced :
      (id token : String) (q : Queue R) → IsPlaced q → IsPlaced (release_job id token q).0
  unfolding release_job ready_add run
  release_job-IsPlaced id token q v =
      elim (Bool-cases (is f.token token)) as (λ _. IsPlaced (release_job id token q).0) [
        | inr e ↦ rw e v
        | inl e ↦
            elim (Bool-cases (is f.state "active" && sound f && leb 1 (number f.attempt)))
              as (λ _. IsPlaced (release_job id token q).0) [
                | inr s ↦ rw (e, s) v
                | inl s ↦
                    (let put =
                        moves active ready id (zrem active ∷ edit back ∷ zadd ready score ∷ [])
                          (back f) q v (holds-active id token q v e) refl refl refl
                          (by_key
                            (λ m.
                              held_after m (zrem active ∷ edit back ∷ zadd ready score ∷ [])
                                (same active m)
                              ≡ same ready m)
                            refl refl refl refl refl) in
                      rw (e, s) (record { at = put.at }))
              ]
      ]
    where
      f : Job
      f = hash q id

      score : ℕ
      score = number f.priority * 1099511627776 + suc q.seq

      back : Job → Job
      back = given_back

  release_jobs-IsPlaced :
      (jobs : List (String × String)) (q : Queue R) → IsPlaced q → IsPlaced (release_jobs jobs q).0
  unfolding release_jobs
  release_jobs-IsPlaced [] q v = v
  release_jobs-IsPlaced ((id, token) ∷ jobs) q v =
      release_jobs-IsPlaced jobs _ (release_job-IsPlaced id token q v)

  pub release-IsPlaced :
      (jobs : List (String × String)) (q : Queue R) → IsPlaced q → IsPlaced (release jobs q).0
  unfolding release
  release-IsPlaced jobs q v =
      elim (Bool-cases (ltb 0 (length (release_jobs jobs q).1)))
        as (λ _. IsPlaced (release jobs q).0) [
          | inl e ↦ rw e (poked _ (release_jobs-IsPlaced jobs q v))
          | inr e ↦ rw e (release_jobs-IsPlaced jobs q v)
        ]

  renew_job-IsPlaced :
      (now lease : ℕ) (id token : String) (q : Queue R)
      → IsPlaced q
      → IsPlaced (renew_job now lease id token q).0
  unfolding renew_job
  renew_job-IsPlaced now lease id token q v =
      elim (Bool-cases (token_is q id token))
        as (λ _. IsPlaced (renew_job now lease id token q).0) [
          | inl e ↦
              (let a = holds-active id token q v e in
                rw (e, a) (rescored active (now + lease) id q v a))
          | inr e ↦ rw e v
        ]

  pub renew-IsPlaced :
      (now lease : ℕ) (jobs : List (String × String)) (q : Queue R)
      → IsPlaced q
      → IsPlaced (renew now lease jobs q).0
  unfolding renew
  renew-IsPlaced now lease [] q v = v
  renew-IsPlaced now lease ((id, token) ∷ jobs) q v =
      renew-IsPlaced now lease jobs _ (renew_job-IsPlaced now lease id token q v)

  pub progress-IsPlaced :
      (id token value : String) (q : Queue R) → IsPlaced q → IsPlaced (progress id token value q).0
  unfolding progress
  progress-IsPlaced id token value q v =
      elim (Bool-cases (token_is q id token)) as (λ _. IsPlaced (progress id token value q).0) [
        | inl e ↦ rw e (stays id _ q v (holds-there id token q e) refl refl)
        | inr e ↦ rw e v
      ]

  extend-IsPlaced :
      (until_ms : ℕ) (id : String) (q : Queue R)
      → IsPlaced q
      → in_set q active id ≡ true
      → IsPlaced (extend until_ms id q)
  unfolding extend
  extend-IsPlaced until_ms id q v a =
      elim (Bool-cases (passes (λ n. ltb n until_ms) (score_in q active id)))
        as (λ _. IsPlaced (extend until_ms id q)) [
          | inl e ↦ rw e (rescored active until_ms id q v a)
          | inr e ↦ rw e v
        ]

  begin_fresh-IsPlaced :
      (now lease : ℕ) (id : String) (o : Option String) (q : Queue R)
      → IsPlaced q
      → in_set q active id ≡ true
      → IsPlaced (begin_fresh now lease id o q).0
  unfolding begin_fresh
  begin_fresh-IsPlaced now lease id none q v a = extend-IsPlaced (now + lease) id q v a
  begin_fresh-IsPlaced now lease id (some json) q v a = v

  pub step_begin-IsPlaced :
      (now lease : ℕ) (id token name : String) (q : Queue R)
      → IsPlaced q
      → IsPlaced (step_begin now lease id token name q).0
  unfolding step_begin holds_lease
  step_begin-IsPlaced now lease id token name q v =
      elim (Bool-cases (token_is q id token))
        as (λ _. IsPlaced (step_begin now lease id token name q).0) [
          | inr e ↦ rw e v
          | inl e ↦
              elim (Bool-cases (passes (λ n. ltb now n) (score_in q active id)))
                as (λ _. IsPlaced (step_begin now lease id token name q).0) [
                  | inr l ↦ rw (e, l) v
                  | inl l ↦
                      rw (e, l)
                        (begin_fresh-IsPlaced now lease id (step_of name (hash q id).steps) q v
                          (holds-active id token q v e))
                ]
        ]

  pub step_commit-IsPlaced :
      (now : ℕ) (id token name json : String) (q : Queue R)
      → IsPlaced q
      → IsPlaced (step_commit now id token name json q).0
  unfolding step_commit holds_lease
  step_commit-IsPlaced now id token name json q v =
      elim (Bool-cases (token_is q id token))
        as (λ _. IsPlaced (step_commit now id token name json q).0) [
          | inr e ↦ rw e v
          | inl e ↦
              elim (Bool-cases (passes (λ n. ltb now n) (score_in q active id)))
                as (λ _. IsPlaced (step_commit now id token name json q).0) [
                  | inr l ↦ rw (e, l) v
                  | inl l ↦ rw (e, l) (stays id _ q v (holds-there id token q e) refl refl)
                ]
        ]

  claim_one-IsPlaced :
      (lua : Doubles) (now : ℕ) (args : Args) (o : Option String) (q : Queue R)
      → IsPlaced q
      → IsPlaced (claim_one lua now args o q).queue
  unfolding claim_one
  claim_one-IsPlaced lua now args none q v = v
  claim_one-IsPlaced lua now args (some token) q v =
      claim-IsPlaced lua 1 args.lease (token ∷ []) now args.limit args.schedules q v

  pub complete-IsPlaced :
      (lua : Doubles) (now : ℕ) (args : Args) (id token : String) (result : Option String)
      (keep : Option (ℕ × ℕ)) (q : Queue R)
      → IsPlaced q
      → IsPlaced (complete lua now args id token result keep q).claimed.queue
  unfolding complete
  complete-IsPlaced lua now args id token result keep q v =
      claim_one-IsPlaced lua now args args.claim_next _
        (complete_job-IsPlaced now id token result keep q v)

  pub fail-IsPlaced :
      (lua : Doubles) (now : ℕ) (args : Args) (id token error : String) (retry_in : Option ℕ)
      (keep : ℕ) (q : Queue R)
      → IsPlaced q
      → IsPlaced (fail lua now args id token error retry_in keep q).claimed.queue
  unfolding fail
  fail-IsPlaced lua now args id token error retry_in keep q v =
      elim (Bool-cases (
          (fail_job now id token error retry_in keep q).3
          && in_set
              (claim_one lua now args args.claim_next
                (fail_job now id token error retry_in keep q).0).queue
              delayed id))
        as (λ _. IsPlaced (fail lua now args id token error retry_in keep q).claimed.queue) [
          | inl e ↦ rw e (record { at = claimed.at })
          | inr e ↦ rw e claimed
        ]
    where
      claimed :
          IsPlaced
            (claim_one lua now args args.claim_next
              (fail_job now id token error retry_in keep q).0).queue
      claimed =
          claim_one-IsPlaced lua now args args.claim_next _
            (fail_job-IsPlaced now id token error retry_in keep q v)
