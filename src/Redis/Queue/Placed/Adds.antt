-- ===== src/Redis/Queue/Placed/Adds.antt =====
-- Jobs that are added leave each job in its place.
use nxgt_data.Prelude.{
  ℕ, suc, ◌+◌, ◌*◌, ◌≡◌, refl, sym, ap, ◌∙◌, ◌⊎◌, subst, Bool, true, false, ◌&&◌, ◌||◌, not, Option,
  none, some, String, List, [], ◌∷◌, leb, Bool-cases, inl, inr, if◌then◌else◌,
}
use nxgt_data.Decimal.{value}
use nxgt_data.Redis.Zsets.{Zsets}
use nxgt_data.Redis.Queue.Edits.{as_postponed}
use nxgt_data.Redis.Queue.{
  Job, Key, delayed, ready, active, same, Queue, fields, is, is_there, Command, edit, zadd, zrem,
  hash, in_set, run, run_all, poke, wake_up,
}
use nxgt_data.Redis.Queue.Claim.{ready_add}
use nxgt_data.Redis.Queue.Admin.{
  NewJob, Mode, Added, is_zero_text, plain, debounce, throttle, Keys, due_at, new_hash, add_due,
  add_later, add_job, waits, reads, postpone, add_new, add_by, add_held, held_id, add_one, add,
}
use nxgt_data.Redis.Queue.Commands.{job_after, held_after}
use nxgt_data.Redis.Queue.Placed.{
  IsPlaced, text, by_key, moves, placed_run, respects, arrive, poked, no_job, or_false,
  token_is_there,
}

or_true : (a b : Bool) → (a || b) ≡ true → (a ≡ true) ⊎ (b ≡ true)
or_true true b e = inl refl
or_true false b e = inr e

and_right : (a b : Bool) → (a && b) ≡ true → b ≡ true
and_right true b e = e
and_right false b e = cc

module _ {R : Zsets} where
  -- A wake token does not move a job.
  quiet :
      (b : Bool) (i : String) (k : Key) (n : ℕ) (q : Queue R)
      → IsPlaced (run i (zadd k n) q)
      → IsPlaced (run i (zadd k n) (if b then q else wake_up q))
  unfolding run
  quiet true i k n q v = v
  quiet false i k n q v = record { at = v.at }

  run-poke-IsPlaced :
      (b : Bool) (i : String) (k : Key) (n : ℕ) (q : Queue R)
      → IsPlaced (run i (zadd k n) q)
      → IsPlaced (run i (zadd k n) (if b then poke q else q))
  run-poke-IsPlaced false i k n q v = v
  run-poke-IsPlaced true i k n q v = quiet q.paused i k n q v

  -- A new id comes into a set.
  comes :
      (l : Key) (i : String) (cs : List Command) (j : Job) (q : Queue R)
      → IsPlaced q
      → is_there (q.jobs i) ≡ false
      → job_after cs (q.jobs i) ≡ some j
      → is j.state (text l) ≡ true
      → is_there j.token ≡ same l active
      → ((m : Key) → held_after m cs false ≡ same l m)
      → IsPlaced (run_all i cs q)
  comes l i cs j q v e o s t h =
      placed_run (λ _. false) (λ _. false) i cs q v (λ _ _. refl)
        (respects o (λ m. ap (held_after m cs) (nowhere m) ∙ h m) refl
          (arrive j l (same l) s t (λ m. refl)))
    where
      nowhere : (m : Key) → in_set q m i ≡ false
      nowhere m =
          sym (or_false (in_set q m i))
          ∙ (v.at i).agrees m
          ∙ ap (λ o. is (fields o).state (text m)) (no_job (q.jobs i) e)

  add_due-IsPlaced :
      (now : ℕ) (j : NewJob) (q : Queue R)
      → IsPlaced q
      → is_there (q.jobs j.id) ≡ false
      → IsPlaced (add_due now j q)
  unfolding add_due ready_add run new_hash
  add_due-IsPlaced now j q v e =
      let put =
        comes ready j.id (store ∷ zadd ready score ∷ []) (new_hash now now "waiting" j) q v e refl
          refl refl
          (by_key (λ m. held_after m (store ∷ zadd ready score ∷ []) false ≡ same ready m) refl refl
            refl refl refl) in
      poked _ (record { at = put.at })
    where
      store : Command
      store = edit (λ _. new_hash now now "waiting" j)

      score : ℕ
      score = value j.priority * 1099511627776 + suc q.seq

  add_later-IsPlaced :
      (now at : ℕ) (j : NewJob) (q : Queue R)
      → IsPlaced q
      → is_there (q.jobs j.id) ≡ false
      → IsPlaced (add_later now at j q)
  unfolding add_later new_hash
  add_later-IsPlaced now at j q v e = run-poke-IsPlaced _ j.id delayed at _ (
      comes delayed j.id (store ∷ zadd delayed at ∷ []) (new_hash now at "delayed" j) q v e refl
        refl refl
        (by_key (λ m. held_after m (store ∷ zadd delayed at ∷ []) false ≡ same delayed m) refl refl
          refl refl refl))
    where
      store : Command
      store = edit (λ _. new_hash now at "delayed" j)

  add_job-IsPlaced :
      (now : ℕ) (j : NewJob) (q : Queue R) → IsPlaced q → IsPlaced (add_job now j q).0
  unfolding add_job
  add_job-IsPlaced now j q v =
      elim (Bool-cases (is_there (q.jobs j.id))) as (λ _. IsPlaced (add_job now j q).0) [
        | inl e ↦ rw e v
        | inr e ↦
            elim (Bool-cases (leb (due_at now j) now)) as (λ _. IsPlaced (add_job now j q).0) [
              | inl d ↦ rw (e, d) (add_due-IsPlaced now j q v e)
              | inr d ↦ rw (e, d) (add_later-IsPlaced now (due_at now j) j q v e)
            ]
      ]

  -- A debounce finds its job in `ready` or in `delayed`.
  postpone-IsPlaced :
      (now : ℕ) (j : NewJob) (held : String) (k : Key) (q : Queue R)
      → IsPlaced q
      → in_set q k held ≡ true
      → (k ≡ ready) ⊎ (k ≡ delayed)
      → IsPlaced (postpone now j held q)
  unfolding postpone
  postpone-IsPlaced now j held k q v e w = run-poke-IsPlaced _ held delayed at _ (
      moves k delayed held cs (later (hash q held)) q v e refl refl
        (token_is_there (q.jobs held) (λ l. in_set q l held) k (v.at held) e ∙ waiting w) (there w))
    where
      at : ℕ
      at = now + j.delay

      later : Job → Job
      later = as_postponed at j.data_json

      cs : List Command
      cs = edit later ∷ zrem ready ∷ zadd delayed at ∷ []

      waiting : (k ≡ ready) ⊎ (k ≡ delayed) → same k active ≡ false
      waiting (inl w) = ap (λ l. same l active) w
      waiting (inr w) = ap (λ l. same l active) w

      there : (k ≡ ready) ⊎ (k ≡ delayed) → (m : Key) → held_after m cs (same k m) ≡ same delayed m
      there (inl w) =
          subst (λ l. (m : Key) → held_after m cs (same l m) ≡ same delayed m) (sym w)
            (by_key (λ m. held_after m cs (same ready m) ≡ same delayed m) refl refl refl refl refl)
      there (inr w) =
          subst (λ l. (m : Key) → held_after m cs (same l m) ≡ same delayed m) (sym w)
            (by_key (λ m. held_after m cs (same delayed m) ≡ same delayed m) refl refl refl refl
              refl)

  waits-place :
      (is_number : List ℕ → Bool) (q : Queue R) (held : String)
      → waits is_number q held ≡ true
      → (k : Key) × (in_set q k held ≡ true) × ((k ≡ ready) ⊎ (k ≡ delayed))
  unfolding waits
  waits-place is_number q held e =
      let f = hash q held in
      elim (or_true (is f.state "waiting" && in_set q ready held) _
        (and_right (reads is_number f.priority && is_zero_text f.attempt && not f.retried) _ e)) [
          | inl w ↦ (ready, and_right (is f.state "waiting") _ w, inl refl)
          | inr w ↦ (delayed, and_right (is f.state "delayed") _ w, inr refl)
        ]

  add_new-IsPlaced :
      (now : ℕ) (j : NewJob) (keys : Keys) (q : Queue R)
      → IsPlaced q
      → IsPlaced (add_new now j keys q).0
  unfolding add_new
  add_new-IsPlaced now j keys q v =
      elim (Bool-cases ((add_job now j q).1)) as (λ _. IsPlaced (add_new now j keys q).0) [
        | inl e ↦ rw e (add_job-IsPlaced now j q v)
        | inr e ↦ rw e (add_job-IsPlaced now j q v)
      ]

  add_by-IsPlaced :
      (is_number : List ℕ → Bool) (now : ℕ) (j : NewJob) (held : String) (keys : Keys) (q : Queue R)
      (m : Mode)
      → IsPlaced q
      → IsPlaced (add_by is_number now j held keys q m).0
  unfolding add_by
  add_by-IsPlaced is_number now j held keys q plain v = add_new-IsPlaced now j keys q v
  add_by-IsPlaced is_number now j held keys q throttle v = v
  add_by-IsPlaced is_number now j held keys q debounce v =
      elim (Bool-cases (waits is_number q held))
        as (λ _. IsPlaced (add_by is_number now j held keys q debounce).0) [
          | inl w ↦
              (let p = waits-place is_number q held w in
                rw w (postpone-IsPlaced now j held p.0 q v p.1 p.2))
          | inr w ↦ rw w (add_new-IsPlaced now j keys q v)
        ]

  add_held-IsPlaced :
      (is_number : List ℕ → Bool) (now : ℕ) (j : NewJob) (o : Option String) (keys : Keys)
      (q : Queue R)
      → IsPlaced q
      → IsPlaced (add_held is_number now j o keys q).0
  unfolding add_held
  add_held-IsPlaced is_number now j none keys q v = add_new-IsPlaced now j keys q v
  add_held-IsPlaced is_number now j (some held) keys q v =
      add_by-IsPlaced is_number now j held keys q j.mode v

  pub add-IsPlaced :
      (is_number : List ℕ → Bool) (now : ℕ) (js : List NewJob) (keys : Keys) (q : Queue R)
      → IsPlaced q
      → IsPlaced (add is_number now js keys q).0
  unfolding add add_one
  add-IsPlaced is_number now [] keys q v = v
  add-IsPlaced is_number now (j ∷ js) keys q v =
      add-IsPlaced is_number now js (one.1) (one.0)
        (add_held-IsPlaced is_number now j (held_id (keys j.dedupe_key)) keys q v)
    where
      one : Queue R × Keys × Added
      one = add_one is_number now j keys q
