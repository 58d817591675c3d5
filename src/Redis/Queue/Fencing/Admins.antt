-- ===== src/Redis/Queue/Fencing/Admins.antt =====
-- Jobs that are added, canceled, retried or removed get no token.
use nxgt_data.Prelude.{
  ℕ, ◌+◌, refl, Bool, ◌&&◌, ◌||◌, Option, none, some, String, List, [], ◌∷◌, leb, Bool-cases, inl,
  inr, if◌then◌else◌,
}
use nxgt_data.Decimal.{value}
use nxgt_data.Redis.Zsets.{Zsets}
use nxgt_data.Redis.Queue.Edits.{as_postponed, as_retried}
use nxgt_data.Redis.Queue.{
  Job, Key, delayed, ready, active, completed, failed, Queue, is, is_there, edit, del, zadd, zrem,
  hash, in_set, run, run_all, number, sound, poke, is_head,
}
use nxgt_data.Redis.Queue.Claim.{ready_add}
use nxgt_data.Redis.Queue.Admin.{
  NewJob, Mode, plain, debounce, throttle, Keys, due_at, add_due, add_later, add_job, waits,
  new_hash, postpone, add_new, add_by, add_held, held_id, add, add_one, cancel, cancel_from, from,
  retry, remove,
}
use nxgt_data.Redis.Queue.Fencing.{
  IsLost, run-IsLost, run_all-IsLost, ready_add-IsLost, poke-IsLost,
}
use nxgt_data.Redis.Queue.Fencing.Scripts.{poke_if-IsLost}

module _ {R : Zsets} (id t : String) where
  add_due-IsLost :
      (now : ℕ) (j : NewJob) (q : Queue R) → IsLost id t q → IsLost id t (add_due now j q)
  unfolding add_due new_hash
  add_due-IsLost now j q l = poke-IsLost id t (ready_add j.id (value j.priority) stored) (
      ready_add-IsLost id t j.id (value j.priority) stored
        (run-IsLost id t j.id (edit (λ _. new_hash now now "waiting" j)) q (λ _ _. refl) l))
    where
      stored : Queue R
      stored = run j.id (edit (λ _. new_hash now now "waiting" j)) q

  add_later-IsLost :
      (now at : ℕ) (j : NewJob) (q : Queue R) → IsLost id t q → IsLost id t (add_later now at j q)
  unfolding add_later new_hash
  add_later-IsLost now at j q l =
      run-IsLost id t j.id (zadd delayed at) (if is_head stored at then poke stored else stored) tt
        (poke_if-IsLost id t (is_head stored at) stored
          (run-IsLost id t j.id (edit (λ _. new_hash now at "delayed" j)) q (λ _ _. refl) l))
    where
      stored : Queue R
      stored = run j.id (edit (λ _. new_hash now at "delayed" j)) q

  add_job-IsLost :
      (now : ℕ) (j : NewJob) (q : Queue R) → IsLost id t q → IsLost id t (add_job now j q).0
  unfolding add_job
  add_job-IsLost now j q l =
      elim (Bool-cases (is_there (q.jobs j.id))) as (λ _. IsLost id t (add_job now j q).0) [
        | inl e ↦ rw e l
        | inr e ↦
            elim (Bool-cases (leb (due_at now j) now)) as (λ _. IsLost id t (add_job now j q).0) [
              | inl d ↦ rw (e, d) (add_due-IsLost now j q l)
              | inr d ↦ rw (e, d) (add_later-IsLost now (due_at now j) j q l)
            ]
      ]

  add_new-IsLost :
      (now : ℕ) (j : NewJob) (keys : Keys) (q : Queue R)
      → IsLost id t q
      → IsLost id t (add_new now j keys q).0
  unfolding add_new
  add_new-IsLost now j keys q l =
      elim (Bool-cases ((add_job now j q).1)) as (λ _. IsLost id t (add_new now j keys q).0) [
        | inl e ↦ rw e (add_job-IsLost now j q l)
        | inr e ↦ rw e (add_job-IsLost now j q l)
      ]

  postpone-IsLost :
      (now : ℕ) (j : NewJob) (held : String) (q : Queue R)
      → IsLost id t q
      → IsLost id t (postpone now j held q)
  unfolding postpone
  postpone-IsLost now j held q l =
      run-IsLost id t held (zadd delayed at) (if is_head moved at then poke moved else moved) tt (
        poke_if-IsLost id t (is_head moved at) moved
          (run_all-IsLost id t held (edit later ∷ zrem ready ∷ []) q ((λ f m. m), (tt, tt)) l))
    where
      at : ℕ
      at = now + j.delay

      later : Job → Job
      later = as_postponed at j.data_json

      moved : Queue R
      moved = run_all held (edit later ∷ zrem ready ∷ []) q

  add_by-IsLost :
      (is_number : List ℕ → Bool) (now : ℕ) (j : NewJob) (held : String) (keys : Keys) (q : Queue R)
      (m : Mode)
      → IsLost id t q
      → IsLost id t (add_by is_number now j held keys q m).0
  unfolding add_by
  add_by-IsLost is_number now j held keys q plain l = add_new-IsLost now j keys q l
  add_by-IsLost is_number now j held keys q throttle l = l
  add_by-IsLost is_number now j held keys q debounce l =
      elim (Bool-cases (waits is_number q held))
        as (λ _. IsLost id t (add_by is_number now j held keys q debounce).0) [
          | inl w ↦ rw w (postpone-IsLost now j held q l)
          | inr w ↦ rw w (add_new-IsLost now j keys q l)
        ]

  add_held-IsLost :
      (is_number : List ℕ → Bool) (now : ℕ) (j : NewJob) (o : Option String) (keys : Keys)
      (q : Queue R)
      → IsLost id t q
      → IsLost id t (add_held is_number now j o keys q).0
  unfolding add_held
  add_held-IsLost is_number now j none keys q l = add_new-IsLost now j keys q l
  add_held-IsLost is_number now j (some held) keys q l =
      add_by-IsLost is_number now j held keys q j.mode l

  pub add-IsLost :
      (is_number : List ℕ → Bool) (now : ℕ) (js : List NewJob) (keys : Keys) (q : Queue R)
      → IsLost id t q
      → IsLost id t (add is_number now js keys q).0
  unfolding add add_one
  add-IsLost is_number now [] keys q l = l
  add-IsLost is_number now (j ∷ js) keys q l =
      add-IsLost is_number now js _ _
        (add_held-IsLost is_number now j (held_id (keys j.dedupe_key)) keys q l)

  cancel_from-IsLost :
      (o : Option Key) (i : String) (q : Queue R)
      → IsLost id t q
      → IsLost id t (cancel_from o i q).0
  unfolding cancel_from
  cancel_from-IsLost none i q l = l
  cancel_from-IsLost (some k) i q l =
      elim (Bool-cases (in_set q k i)) as (λ _. IsLost id t (cancel_from (some k) i q).0) [
        | inl e ↦ rw e (run_all-IsLost id t i (zrem k ∷ del ∷ []) q (tt, (tt, tt)) l)
        | inr e ↦ rw e l
      ]

  pub cancel-IsLost : (i : String) (q : Queue R) → IsLost id t q → IsLost id t (cancel i q).0
  unfolding cancel
  cancel-IsLost i q l = cancel_from-IsLost (from (hash q i).state) i q l

  pub retry-IsLost :
      (now : ℕ) (i : String) (fresh : Bool) (q : Queue R)
      → IsLost id t q
      → IsLost id t (retry now i fresh q).0
  unfolding retry
  retry-IsLost now i fresh q l =
      elim (Bool-cases (in_set q failed i && is (hash q i).state "failed" && sound (hash q i)))
        as (λ _. IsLost id t (retry now i fresh q).0) [
          | inl e ↦ rw e (
              poke-IsLost id t (ready_add i (number (hash q i).priority) back) (
                ready_add-IsLost id t i (number (hash q i).priority) back (
                  run_all-IsLost id t i (zrem failed ∷ edit again ∷ []) q (tt, ((λ j _. refl), tt))
                    l)))
          | inr e ↦ rw e l
        ]
    where
      again : Job → Job
      again = as_retried now fresh

      back : Queue R
      back = run_all i (zrem failed ∷ edit again ∷ []) q

  pub remove-IsLost : (i : String) (q : Queue R) → IsLost id t q → IsLost id t (remove i q).0
  unfolding remove
  remove-IsLost i q l =
      elim (Bool-cases (in_set q active i || is (hash q i).state "active"))
        as (λ _. IsLost id t (remove i q).0) [
          | inl e ↦ rw e l
          | inr e ↦ rw e (
              run_all-IsLost id t i
                (zrem ready ∷ zrem delayed ∷ zrem active ∷ zrem completed ∷ zrem failed ∷ del ∷ [])
                q (tt, (tt, (tt, (tt, (tt, (tt, tt)))))) l)
        ]
