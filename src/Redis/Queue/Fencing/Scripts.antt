-- ===== src/Redis/Queue/Fencing/Scripts.antt =====
-- The scripts of a worker give a job no token.
use nxgt_data.Prelude.{
  ℕ, ◌+◌, refl, Bool, true, false, ◌&&◌, Option, none, some, String, List, [], ◌∷◌, ltb, leb,
  Bool-cases, inl, inr, if◌then◌else◌, length,
}
use nxgt_data.Decimal.{value}
use nxgt_data.Redis.Zsets.{Zsets}
use nxgt_data.Redis.Queue.{
  active, Queue, is, edit, zadd, zrem, hash, in_set, score_in, number, sound, poke,
}
use nxgt_data.Redis.Queue.Claim.{passes}
use nxgt_data.Redis.Queue.Settle.{
  token_is, release_job, release_jobs, release, renew_job, renew, progress, holds_lease, extend,
  begin_fresh, step_of, step_begin, step_commit,
}
use nxgt_data.Redis.Queue.Fencing.{
  IsLost, run-IsLost, run_all-IsLost, ready_add-IsLost, poke-IsLost, choose-IsLost,
}

module _ {R : Zsets} (id t : String) where
  pub poke_if-IsLost :
      (b : Bool) (q : Queue R) → IsLost id t q → IsLost id t (if b then poke q else q)
  poke_if-IsLost true q l = poke-IsLost id t q l
  poke_if-IsLost false q l = l

  release_job-IsLost :
      (i token : String) (q : Queue R) → IsLost id t q → IsLost id t (release_job i token q).0
  unfolding release_job
  release_job-IsLost i token q l =
      let f = hash q i in
      elim (Bool-cases
          (is f.token token && is f.state "active" && sound f && leb 1 (number f.attempt)))
        as (λ _. IsLost id t (release_job i token q).0) [
          | inl e ↦ rw e (
              ready_add-IsLost id t i _ _
                (run_all-IsLost id t i (zrem active ∷ edit _ ∷ []) q (tt, ((λ j _. refl), tt)) l))
          | inr e ↦ rw e l
        ]

  release_jobs-IsLost :
      (jobs : List (String × String)) (q : Queue R)
      → IsLost id t q
      → IsLost id t (release_jobs jobs q).0
  unfolding release_jobs
  release_jobs-IsLost [] q l = l
  release_jobs-IsLost ((i, token) ∷ jobs) q l =
      release_jobs-IsLost jobs _ (release_job-IsLost i token q l)

  pub release-IsLost :
      (jobs : List (String × String)) (q : Queue R) → IsLost id t q → IsLost id t (release jobs q).0
  unfolding release
  release-IsLost jobs q l =
      poke_if-IsLost (ltb 0 (length (release_jobs jobs q).1)) (release_jobs jobs q).0
        (release_jobs-IsLost jobs q l)

  renew_job-IsLost :
      (now lease : ℕ) (i token : String) (q : Queue R)
      → IsLost id t q
      → IsLost id t (renew_job now lease i token q).0
  unfolding renew_job
  renew_job-IsLost now lease i token q l =
      elim (Bool-cases (token_is q i token))
        as (λ _. IsLost id t (renew_job now lease i token q).0) [
          | inl e ↦ rw e (
              choose-IsLost id t (in_set q active i) _ q
                (run-IsLost id t i (zadd active (now + lease)) q tt l) l)
          | inr e ↦ rw e l
        ]

  pub renew-IsLost :
      (now lease : ℕ) (jobs : List (String × String)) (q : Queue R)
      → IsLost id t q
      → IsLost id t (renew now lease jobs q).0
  unfolding renew
  renew-IsLost now lease [] q l = l
  renew-IsLost now lease ((i, token) ∷ jobs) q l =
      renew-IsLost now lease jobs _ (renew_job-IsLost now lease i token q l)

  pub progress-IsLost :
      (i token value : String) (q : Queue R)
      → IsLost id t q
      → IsLost id t (progress i token value q).0
  unfolding progress
  progress-IsLost i token value q l =
      elim (Bool-cases (token_is q i token)) as (λ _. IsLost id t (progress i token value q).0) [
        | inl e ↦ rw e (run-IsLost id t i (edit _) q (λ j m. m) l)
        | inr e ↦ rw e l
      ]

  begin_fresh-IsLost :
      (now lease : ℕ) (i : String) (o : Option String) (q : Queue R)
      → IsLost id t q
      → IsLost id t (begin_fresh now lease i o q).0
  unfolding begin_fresh extend
  begin_fresh-IsLost now lease i none q l =
      choose-IsLost id t (passes (λ n. ltb n (now + lease)) (score_in q active i)) _ q
        (run-IsLost id t i (zadd active (now + lease)) q tt l) l
  begin_fresh-IsLost now lease i (some json) q l = l

  pub step_begin-IsLost :
      (now lease : ℕ) (i token name : String) (q : Queue R)
      → IsLost id t q
      → IsLost id t (step_begin now lease i token name q).0
  unfolding step_begin
  step_begin-IsLost now lease i token name q l =
      elim (Bool-cases (holds_lease now i token q))
        as (λ _. IsLost id t (step_begin now lease i token name q).0) [
          | inl e ↦ rw e (begin_fresh-IsLost now lease i (step_of name (hash q i).steps) q l)
          | inr e ↦ rw e l
        ]

  pub step_commit-IsLost :
      (now : ℕ) (i token name json : String) (q : Queue R)
      → IsLost id t q
      → IsLost id t (step_commit now i token name json q).0
  unfolding step_commit
  step_commit-IsLost now i token name json q l =
      elim (Bool-cases (holds_lease now i token q))
        as (λ _. IsLost id t (step_commit now i token name json q).0) [
          | inl e ↦ rw e (run-IsLost id t i (edit _) q (λ j m. m) l)
          | inr e ↦ rw e l
        ]
