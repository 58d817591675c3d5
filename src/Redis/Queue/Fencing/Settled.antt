-- ===== src/Redis/Queue/Fencing/Settled.antt =====
-- A job lacks the token that it was settled, given back or canceled with.
use nxgt_data.Prelude.{
  ℕ, ◌≡◌, refl, true, false, ◌&&◌, Option, none, some, String, [], ◌∷◌, str_eq_refl, leb,
  Bool-cases, inl, inr,
}
use nxgt_data.Redis.Zsets.{Zsets}
use nxgt_data.Redis.Queue.Edits.{as_completed, without_token}
use nxgt_data.Redis.Queue.{
  Job, Queue, Key, active, completed, failed, is, edit, del, zadd, zrem, hash, run, run_all, sound,
  number, in_set,
}
use nxgt_data.Redis.Queue.Settle.{
  token_is, complete_job, kept_completed, fail_job, retries, release_job,
}
use nxgt_data.Redis.Queue.Admin.{cancel, cancel_from, from}
use nxgt_data.Redis.Queue.Fencing.{
  IsLost, run-IsLost, run_all-IsLost, ready_add-IsLost, trim-IsLost,
}

module _ {R : Zsets} where
  -- What a settle leaves of the token that it was given.
  own_edit :
      (id t : String) (f : Job → Job) (q : Queue R)
      → (f (hash q id)).token ≡ none
      → IsLost id t (run id (edit f) q)
  unfolding run
  own_edit id t f q e = rw (str_eq_refl id, e)

  own_del : (id t : String) (q : Queue R) → IsLost id t (run id del q)
  unfolding run
  own_del id t q = rw (str_eq_refl id)

module _ {R : Zsets} (id t : String) where
  pub complete_job-loses :
      (now : ℕ) (result : Option String) (keep : Option (ℕ × ℕ)) (q : Queue R)
      → IsLost id t (complete_job now id t result keep q).0
  unfolding complete_job kept_completed
  complete_job-loses now result keep q =
      elim (Bool-cases (token_is q id t))
        as (λ _. IsLost id t (complete_job now id t result keep q).0) [
          | inr e ↦ rw e e
          | inl e ↦ rw e (kept keep)
        ]
    where
      kept :
          (k : Option (ℕ × ℕ))
          → IsLost id t (kept_completed now id result k (run id (zrem active) q))
      kept none =
          trim-IsLost id t completed now 0 (some 0) _ (own_del id t (run id (zrem active) q))
      kept (some (age, count)) = trim-IsLost id t completed now age (some count) _ (
          run-IsLost id t id (zadd completed now) _ tt
            (own_edit id t ends (run id (zrem active) q) refl))
        where
          ends : Job → Job
          ends = as_completed now result

  pub fail_job-loses :
      (now : ℕ) (error : String) (retry_in : Option ℕ) (keep : ℕ) (q : Queue R)
      → IsLost id t (fail_job now id t error retry_in keep q).0
  unfolding fail_job
  fail_job-loses now error retry_in keep q =
      elim (Bool-cases (token_is q id t))
        as (λ _. IsLost id t (fail_job now id t error retry_in keep q).0) [
          | inr e ↦ rw e e
          | inl e ↦
              elim (Bool-cases (retries retry_in (hash q id)))
                as (λ _. IsLost id t (fail_job now id t error retry_in keep q).0) [
                  | inl r ↦
                      rw (e, r)
                        (run_all-IsLost id t id (edit _ ∷ zadd _ _ ∷ []) _ ((λ j m. m), (tt, tt))
                          out)
                  | inr r ↦
                      rw (e, r)
                        (trim-IsLost id t failed now keep none _ (
                          run_all-IsLost id t id (edit _ ∷ zadd _ _ ∷ []) _ ((λ j m. m), (tt, tt))
                            out))
                ]
        ]
    where
      untoken : Job → Job
      untoken = without_token

      out : IsLost id t (run_all id (zrem active ∷ edit untoken ∷ []) q)
      out = own_edit id t untoken (run id (zrem active) q) refl

  pub release_job-loses :
      (q : Queue R) → (release_job id t q).1 ≡ true → IsLost id t (release_job id t q).0
  unfolding release_job
  release_job-loses q given =
      let f = hash q id in
      elim (Bool-cases (is f.token t && is f.state "active" && sound f && leb 1 (number f.attempt)))
        as (λ _. IsLost id t (release_job id t q).0) [
          | inl e ↦
              rw e (ready_add-IsLost id t id _ _ (own_edit id t _ (run id (zrem active) q) refl))
          | inr e ↦ (let bad : false ≡ true = rw e at given in cc)
        ]

  cancel_from-loses :
      (o : Option Key) (q : Queue R)
      → (cancel_from o id q).1 ≡ true
      → IsLost id t (cancel_from o id q).0
  unfolding cancel_from
  cancel_from-loses none q gone = cc
  cancel_from-loses (some k) q gone =
      elim (Bool-cases (in_set q k id)) as (λ _. IsLost id t (cancel_from (some k) id q).0) [
        | inl e ↦ rw e (own_del id t (run id (zrem k) q))
        | inr e ↦ (let bad : false ≡ true = rw e at gone in cc)
      ]

  pub cancel-loses : (q : Queue R) → (cancel id q).1 ≡ true → IsLost id t (cancel id q).0
  unfolding cancel
  cancel-loses q gone = cancel_from-loses (from (hash q id).state) q gone
