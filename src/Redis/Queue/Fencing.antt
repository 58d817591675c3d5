-- ===== src/Redis/Queue/Fencing.antt =====
-- A token that a job does not hold is not held again until a claim gives it to a worker, so what a
-- worker that lost its job still sends changes nothing.
pub mod Claims
pub mod Scripts
pub mod Admins
pub mod Settled
pub mod Stale
use nxgt_data.Prelude.{
  ℕ, ◌+◌, ◌≡◌, refl, sym, ap, ◌∙◌, subst, Bool, true, false, not, ◌&&◌, ◌||◌, Option, none, some,
  String, List, [], ◌∷◌, str_eq, eq_iff, All, ltb, leb, Bool-cases, inl, inr, if◌then◌else◌, length,
  min, take,
}
use nxgt_data.Decimal.{print}
use nxgt_data.Redis.Zsets.{Zsets}
use nxgt_data.Redis.Queue.Edits.{as_completed, without_token}
use nxgt_data.Redis.Queue.{
  Job, Key, delayed, active, completed, failed, Queue, fields, is, is_there, Command, edit, del,
  zadd, zrem, hash, score_in, in_set, run, run_all, poke, number, sound, card, is_head,
}
use nxgt_data.Redis.Queue.Claim.{passes, range_by, ready_add}
use nxgt_data.Redis.Queue.Settle.{
  token_is, drop_all, trim, trim_count, complete_job, kept_completed, retries, fail_job,
  release_job, release_jobs, release, renew_job, renew, progress, holds_lease, extend, begin_fresh,
  step_of, step_begin, step_commit,
}
use nxgt_data.Redis.Queue.Admin.{
  NewJob, Mode, plain, debounce, throttle, Keys, due_at, add_due, add_later, add_job, waits,
  postpone, add_new, add_by, add_held, held_id, add, add_one, cancel, cancel_from, retry, remove,
}

-- A command that does not bring the token to a job that lacks it.
abbrev pub IsTokenless : String → Command → Type 0
IsTokenless t (edit f) = (j : Job) → is j.token t ≡ false → is (f j).token t ≡ false
IsTokenless t _ = Unit

-- `IsLost id t q`: the job does not hold the token.
abbrev pub IsLost : {R : Zsets} → String → String → Queue R → Type 0
IsLost id t q = token_is q id t ≡ false

module _ {R : Zsets} (id t : String) where
  pub run-IsLost :
      (i : String) (c : Command) (q : Queue R)
      → IsTokenless t c
      → IsLost id t q
      → IsLost id t (run i c q)
  unfolding run
  run-IsLost i (edit f) q k l = elim (Bool-cases (str_eq i id)) [
    | inl e ↦ rw e (
        k (fields (q.jobs i))
          (subst (λ x. is (fields (q.jobs x)).token t ≡ false) (sym ((eq_iff i id).0 e)) l))
    | inr e ↦ rw e l
  ]
  run-IsLost i del q k l = elim (Bool-cases (str_eq i id)) [ inl e ↦ rw e | inr e ↦ rw e l ]
  run-IsLost i (zadd k n) q u l = l
  run-IsLost i (zrem k) q u l = l

  pub run_all-IsLost :
      (i : String) (cs : List Command) (q : Queue R)
      → All (IsTokenless t) cs
      → IsLost id t q
      → IsLost id t (run_all i cs q)
  run_all-IsLost i [] q k l = l
  run_all-IsLost i (c ∷ cs) q k l = run_all-IsLost i cs (run i c q) k.1 (run-IsLost i c q k.0 l)

  pub poke-IsLost : (q : Queue R) → IsLost id t q → IsLost id t (poke q)
  poke-IsLost q l = elim (Bool-cases q.paused) as (λ _. IsLost id t (poke q)) [
    | inl e ↦ simp e l
    | inr e ↦ simp e l
  ]

  pub ready_add-IsLost :
      (i : String) (p : ℕ) (q : Queue R) → IsLost id t q → IsLost id t (ready_add i p q)
  unfolding ready_add
  ready_add-IsLost i p q l = run-IsLost i (zadd _ _) (record q { seq = _ }) tt l

  -- A script that is one command, or one of two outcomes.
  pub choose-IsLost :
      (b : Bool) (q r : Queue R) → IsLost id t q → IsLost id t r → IsLost id t (if b then q else r)
  choose-IsLost true q r l m = l
  choose-IsLost false q r l m = m

  drop_all-IsLost :
      (k : Key) (ids : List String) (q : Queue R) → IsLost id t q → IsLost id t (drop_all k ids q)
  unfolding drop_all
  drop_all-IsLost k [] q l = l
  drop_all-IsLost k (i ∷ ids) q l =
      drop_all-IsLost k ids _ (run_all-IsLost i (del ∷ zrem k ∷ []) q (tt, (tt, tt)) l)

  trim-IsLost :
      (k : Key) (now age : ℕ) (count : Option ℕ) (q : Queue R)
      → IsLost id t q
      → IsLost id t (trim k now age count q)
  unfolding trim trim_count
  trim-IsLost k now age none q l = drop_all-IsLost k _ q l
  trim-IsLost k now age (some count) q l =
      drop_all-IsLost k _ _ (drop_all-IsLost k (range_by (λ n. ltb (n + age) now) 100 k q) q l)

  kept_completed-IsLost :
      (now : ℕ) (i : String) (result : Option String) (keep : Option (ℕ × ℕ)) (q : Queue R)
      → IsLost id t q
      → IsLost id t (kept_completed now i result keep q)
  unfolding kept_completed
  kept_completed-IsLost now i result none q l =
      trim-IsLost completed now 0 (some 0) _ (run-IsLost i del q tt l)
  kept_completed-IsLost now i result (some (age, count)) q l =
      trim-IsLost completed now age (some count) _
        (run_all-IsLost i (edit ends ∷ zadd completed now ∷ []) q ((λ j _. refl), (tt, tt)) l)
    where
      ends : Job → Job
      ends = as_completed now result

  pub complete_job-IsLost :
      (now : ℕ) (i token : String) (result : Option String) (keep : Option (ℕ × ℕ)) (q : Queue R)
      → IsLost id t q
      → IsLost id t (complete_job now i token result keep q).0
  unfolding complete_job
  complete_job-IsLost now i token result keep q l =
      elim (Bool-cases (token_is q i token))
        as (λ _. IsLost id t (complete_job now i token result keep q).0) [
          | inl e ↦
              rw e (kept_completed-IsLost now i result keep _ (run-IsLost i (zrem active) q tt l))
          | inr e ↦ rw e l
        ]

  pub fail_job-IsLost :
      (now : ℕ) (i token error : String) (retry_in : Option ℕ) (keep : ℕ) (q : Queue R)
      → IsLost id t q
      → IsLost id t (fail_job now i token error retry_in keep q).0
  unfolding fail_job
  fail_job-IsLost now i token error retry_in keep q l =
      elim (Bool-cases (token_is q i token))
        as (λ _. IsLost id t (fail_job now i token error retry_in keep q).0) [
          | inr e ↦ rw e l
          | inl e ↦
              elim (Bool-cases (retries retry_in (hash q i)))
                as (λ _. IsLost id t (fail_job now i token error retry_in keep q).0) [
                  | inl r ↦
                      rw (e, r)
                        (run_all-IsLost i (edit _ ∷ zadd _ _ ∷ []) _ ((λ j m. m), (tt, tt)) out)
                  | inr r ↦
                      rw (e, r)
                        (trim-IsLost failed now keep none _
                          (run_all-IsLost i (edit _ ∷ zadd _ _ ∷ []) _ ((λ j m. m), (tt, tt)) out))
                ]
        ]
    where
      untoken : Job → Job
      untoken = without_token

      out : IsLost id t (run_all i (zrem active ∷ edit untoken ∷ []) q)
      out = run_all-IsLost i (zrem active ∷ edit untoken ∷ []) q (tt, ((λ j _. refl), tt)) l
