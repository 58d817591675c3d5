-- ===== src/Redis/Queue/Fencing/Claims.antt =====
-- A claim gives a job no token but its own.
use nxgt_data.Prelude.{
  ℕ, ◌≡◌, refl, false, not, ◌&&◌, Option, none, some, String, List, [], ◌∷◌, str_eq, All, ltb,
  Bool-cases, inl, inr, drop,
}
use nxgt_data.Redis.Zsets.{Zsets}
use nxgt_data.Redis.RateLimit.Arithmetic.{Doubles}
use nxgt_data.Redis.Queue.Edits.{without_token}
use nxgt_data.Redis.Queue.{
  Job, delayed, ready, active, Queue, is_there, edit, zadd, zrem, hash, run, run_all, number, sound,
  card,
}
use nxgt_data.Redis.Queue.Claim.{
  Seen, Limit, Schedules, refuse, reclaim_job, promote_job, each, reclaim, promote, take_out, start,
  begin_all, begin_ready, charge, pass_on, retry_after, claim, token_of,
}
use nxgt_data.Redis.Queue.Fencing.{IsLost, run-IsLost, run_all-IsLost, ready_add-IsLost}

-- None of the tokens is `t`, nor is the text that stands for no token.
abbrev pub IsOther : String → List String → Type 0
IsOther t tokens = (str_eq "" t ≡ false) × All (λ u. str_eq u t ≡ false) tokens

IsOther-drop : (t : String) (tokens : List String) → IsOther t tokens → IsOther t (drop 1 tokens)
IsOther-drop t [] o = o
IsOther-drop t (u ∷ us) o = (o.0, o.1.1)

IsOther-token :
    (t : String) (tokens : List String) → IsOther t tokens → str_eq (token_of tokens) t ≡ false
IsOther-token t [] o = o.0
IsOther-token t (u ∷ us) o = o.1.0

module _ {R : Zsets} (id t : String) where
  refuse-IsLost :
      (now : ℕ) (i : String) (q : Queue R) → IsLost id t q → IsLost id t (refuse now i q).0
  unfolding refuse
  refuse-IsLost now i q l =
      let out =
        run_all-IsLost id t i (zrem delayed ∷ zrem ready ∷ zrem active ∷ []) q (tt, (tt, (tt, tt)))
          l in
      elim (Bool-cases (is_there (q.jobs i))) as (λ _. IsLost id t (refuse now i q).0) [
        | inl e ↦
            rw e (run_all-IsLost id t i (edit _ ∷ zadd _ _ ∷ []) _ ((λ j _. refl), (tt, tt)) out)
        | inr e ↦ rw e out
      ]

  reclaim_job-IsLost :
      (now : ℕ) (i : String) (q : Queue R) → IsLost id t q → IsLost id t (reclaim_job now i q).0
  unfolding reclaim_job
  reclaim_job-IsLost now i q l =
      elim (Bool-cases (sound (hash q i))) as (λ _. IsLost id t (reclaim_job now i q).0) [
        | inr e ↦ rw e (refuse-IsLost now i q l)
        | inl e ↦
            elim (Bool-cases (ltb (number (hash q i).attempt) (number (hash q i).attempts)))
              as (λ _. IsLost id t (reclaim_job now i q).0) [
                | inl s ↦
                    rw (e, s)
                      (ready_add-IsLost id t i _ _ (run-IsLost id t i (edit _) _ (λ j m. m) freed))
                | inr s ↦
                    rw (e, s)
                      (run_all-IsLost id t i (edit _ ∷ zadd _ _ ∷ []) _ ((λ j m. m), (tt, tt))
                        freed)
              ]
      ]
    where
      untoken : Job → Job
      untoken = without_token

      freed : IsLost id t (run_all i (zrem active ∷ edit untoken ∷ []) q)
      freed = run_all-IsLost id t i (zrem active ∷ edit untoken ∷ []) q (tt, ((λ j _. refl), tt)) l

  promote_job-IsLost :
      (now : ℕ) (i : String) (q : Queue R) → IsLost id t q → IsLost id t (promote_job now i q).0
  unfolding promote_job
  promote_job-IsLost now i q l =
      elim (Bool-cases (sound (hash q i))) as (λ _. IsLost id t (promote_job now i q).0) [
        | inr e ↦ rw e (refuse-IsLost now i q l)
        | inl e ↦ rw e (
            ready_add-IsLost id t i _ _
              (run_all-IsLost id t i (zrem delayed ∷ edit _ ∷ []) q (tt, ((λ j m. m), tt)) l))
      ]

  each-IsLost :
      (f : String → Queue R → Queue R × Seen)
      → ((i : String) (q : Queue R) → IsLost id t q → IsLost id t (f i q).0)
      → (ids : List String) (q : Queue R) → IsLost id t q
      → IsLost id t (each f ids q).0
  unfolding each
  each-IsLost f turn [] q l = l
  each-IsLost f turn (i ∷ ids) q l = each-IsLost f turn ids (f i q).0 (turn i q l)

  take_out-IsLost : (ids : List String) (q : Queue R) → IsLost id t q → IsLost id t (take_out ids q)
  unfolding take_out
  take_out-IsLost [] q l = l
  take_out-IsLost (i ∷ ids) q l =
      take_out-IsLost ids (run i (zrem ready) q) (run-IsLost id t i (zrem ready) q tt l)

  start-IsLost :
      (now lease : ℕ) (token i : String) (q : Queue R)
      → str_eq token t ≡ false
      → IsLost id t q
      → IsLost id t (start now lease token i q)
  unfolding start
  start-IsLost now lease token i q o l =
      run_all-IsLost id t i (edit _ ∷ zadd _ _ ∷ []) q ((λ j _. o), (tt, tt)) l

  begin_all-IsLost :
      (now lease : ℕ) (tokens ids : List String) (q : Queue R)
      → IsOther t tokens
      → IsLost id t q
      → IsLost id t (begin_all now lease tokens ids q).0
  unfolding begin_all
  begin_all-IsLost now lease tokens [] q o l = l
  begin_all-IsLost now lease tokens (i ∷ ids) q o l =
      elim (Bool-cases (sound (hash q i)))
        as (λ _. IsLost id t (begin_all now lease tokens (i ∷ ids) q).0) [
          | inl e ↦ rw e (
              begin_all-IsLost now lease (drop 1 tokens) ids _ (IsOther-drop t tokens o)
                (start-IsLost now lease (token_of tokens) i q (IsOther-token t tokens o) l))
          | inr e ↦ rw e (begin_all-IsLost now lease tokens ids _ o (refuse-IsLost now i q l))
        ]

  charge-IsLost :
      (lua : Doubles) (rate : Option Limit) (k : ℕ) (q : Queue R)
      → IsLost id t q
      → IsLost id t (charge lua rate k q)
  unfolding charge
  charge-IsLost lua none k q l = l
  charge-IsLost lua (some r) k q l =
      elim (Bool-cases (ltb 0 k)) as (λ _. IsLost id t (charge lua (some r) k q)) [
        | inl e ↦ simp e l
        | inr e ↦ simp e l
      ]

  pass_on-IsLost :
      (lua : Doubles) (rate : Option Limit) (q : Queue R)
      → IsLost id t q
      → IsLost id t (pass_on lua rate q)
  unfolding pass_on
  pass_on-IsLost lua rate q l =
      elim (Bool-cases
          (not q.paused && ltb 0 (card q ready) && not (is_there (retry_after lua rate q))))
        as (λ _. IsLost id t (pass_on lua rate q)) [ inl e ↦ simp e l | inr e ↦ simp e l ]

  pub claim-IsLost :
      (lua : Doubles) (n lease : ℕ) (tokens : List String) (now : ℕ) (rate : Option Limit)
      (schedules : Schedules) (q : Queue R)
      → IsOther t tokens
      → IsLost id t q
      → IsLost id t (claim lua n lease tokens now rate schedules q).queue
  unfolding claim reclaim promote begin_ready
  claim-IsLost lua n lease tokens now rate schedules q o l = pass_on-IsLost lua rate _ (
      charge-IsLost lua rate _ _ (
        begin_all-IsLost now lease tokens _ _ o (
          take_out-IsLost _ _ (
            each-IsLost (promote_job now) (promote_job-IsLost now) _ _
              (each-IsLost (reclaim_job now) (reclaim_job-IsLost now) _ q l)))))
