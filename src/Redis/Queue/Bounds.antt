-- ===== src/Redis/Queue/Bounds.antt =====
-- How many jobs a claim starts.
use nxgt_data.Prelude.{
  ℕ, ◌+◌, ◌≤◌, ◌≡◌, refl, sym, ◌∙◌, subst, ltb, if◌then◌else◌, Bool, true, false, not, Option, none,
  some, String, List, [], ◌∷◌, length, length-take, take, drop, min, arith, Bool-cases, inl, inr,
}
use nxgt_data.Redis.Zsets.{Zsets}
use nxgt_data.Redis.RateLimit.Arithmetic.{Doubles}
use nxgt_data.Redis.RateLimit.{gcra}
use nxgt_data.Redis.Queue.{Queue, ready, hash, sound, run, is_there, number}
use nxgt_data.Redis.Queue.Claim.{
  Limit, Schedules, refuse, reclaim, promote, take_out, start, begin_all, begin_ready, ready_add,
  reclaim_job, promote_job, each, Seen, token_of, admitted, peek, claim,
}

module _ {R : Zsets} where
  -- What a claim does before it pops leaves the pause and the rate's state.
  abbrev Keeps : Queue R → Queue R → Type 0
  Keeps q r = (r.paused ≡ q.paused) × (r.rate ≡ q.rate)

  refuse-Keeps : (now : ℕ) (id : String) (q : Queue R) → Keeps q (refuse now id q).0
  unfolding refuse run
  refuse-Keeps now id q =
      elim (Bool-cases (is_there (q.jobs id))) as (λ _. Keeps q (refuse now id q).0) [
        | inl e ↦ rw e (refl, refl)
        | inr e ↦ rw e (refl, refl)
      ]

  reclaim_job-Keeps : (now : ℕ) (id : String) (q : Queue R) → Keeps q (reclaim_job now id q).0
  unfolding reclaim_job ready_add run
  reclaim_job-Keeps now id q =
      elim (Bool-cases (sound (hash q id))) as (λ _. Keeps q (reclaim_job now id q).0) [
        | inr e ↦ rw e (refuse-Keeps now id q)
        | inl e ↦
            elim (Bool-cases (ltb (number (hash q id).attempt) (number (hash q id).attempts)))
              as (λ _. Keeps q (reclaim_job now id q).0) [
                | inl l ↦ rw (e, l) (refl, refl)
                | inr l ↦ rw (e, l) (refl, refl)
              ]
      ]

  promote_job-Keeps : (now : ℕ) (id : String) (q : Queue R) → Keeps q (promote_job now id q).0
  unfolding promote_job ready_add run
  promote_job-Keeps now id q =
      elim (Bool-cases (sound (hash q id))) as (λ _. Keeps q (promote_job now id q).0) [
        | inr e ↦ rw e (refuse-Keeps now id q)
        | inl e ↦ rw e (refl, refl)
      ]

  each-Keeps :
      (f : String → Queue R → Queue R × Seen)
      → ((id : String) (q : Queue R) → Keeps q (f id q).0)
      → (ids : List String) (q : Queue R) → Keeps q (each f ids q).0
  unfolding each
  each-Keeps f turn [] q = (refl, refl)
  each-Keeps f turn (id ∷ ids) q =
      let one = turn id q in
      let rest = each-Keeps f turn ids (f id q).0 in (rest.0 ∙ one.0, rest.1 ∙ one.1)

  promoted-Keeps : (now : ℕ) (q : Queue R) → Keeps q (promote now (reclaim now q).0).0
  unfolding promote reclaim
  promoted-Keeps now q =
      let one = each-Keeps (reclaim_job now) (reclaim_job-Keeps now) _ q in
      let two = each-Keeps (promote_job now) (promote_job-Keeps now) _ (reclaim now q).0 in
      (two.0 ∙ one.0, two.1 ∙ one.1)

  begin_all-count :
      (now lease : ℕ) (tokens ids : List String) (q : Queue R)
      → length (begin_all now lease tokens ids q).1 ≤ length ids
  unfolding begin_all
  begin_all-count now lease tokens [] q = omega arith
  begin_all-count now lease tokens (id ∷ ids) q = elim (Bool-cases (sound (hash q id))) [
    | inl e ↦
        (let rest =
            begin_all-count now lease (drop 1 tokens) ids
              (start now lease (token_of tokens) id q) in
          rw e (omega (arith, rest)))
    | inr e ↦
        (let rest = begin_all-count now lease tokens ids (refuse now id q).0 in
          rw e (omega (arith, rest)))
  ]

limit_le :
    (paused allowed : Bool) (n r : ℕ)
    → (if paused then 0 else if not allowed then 0 else min n (r + 1))
      ≤ (if allowed then r + 1 else 0)
limit_le true true n r = omega arith
limit_le true false n r = omega arith
limit_le false true n r = omega arith
limit_le false false n r = omega arith

module _ (lua : Doubles) {R : Zsets} where
  begin_ready-count :
      (n lease : ℕ) (tokens : List String) (now : ℕ) (rate : Option Limit) (q : Queue R)
      → length (begin_ready lua n lease tokens now rate q).1 ≤ admitted lua n rate q
  unfolding begin_ready
  begin_ready-count n lease tokens now rate q =
      let k = admitted lua n rate q in
      let all =
        begin_all-count now lease tokens (take k (R.members (q.sets ready)))
          (take_out (take k (R.members (q.sets ready))) q) in
      omega (arith, all, length-take k (R.members (q.sets ready)))

  -- What a pop may take: never more than asked for, nothing while paused, and under a rate limit
  -- no more than the rate's script says that it admits.
  admitted_le : (n : ℕ) (rate : Option Limit) (q : Queue R) → admitted lua n rate q ≤ n
  unfolding admitted
  admitted_le n none q = ground arith
  admitted_le n (some l) q = ground arith

  admitted-paused :
      (n : ℕ) (rate : Option Limit) (q : Queue R) → q.paused ≡ true → admitted lua n rate q ≡ 0
  unfolding admitted
  admitted-paused n none q p = rw p
  admitted-paused n (some l) q p = rw p

  admitted-rate :
      (n : ℕ) (l : Limit) (q : Queue R)
      → let reply = (gcra lua l.limit q.rate l.us 1 false).0 in
        admitted lua n (some l) q ≤ (if reply.allowed then reply.remaining + 1 else 0)
  unfolding admitted peek
  admitted-rate n l q =
      let reply = (gcra lua l.limit q.rate l.us 1 false).0 in
      limit_le q.paused reply.allowed n reply.remaining

  -- A claim starts no more jobs than it is asked for, none while the queue is paused, and under a
  -- rate limit no more than the limit's script admits at the rate's stored state: none when it
  -- refuses one job, else that job and what remains.
  pub claim-bounds :
      (n lease : ℕ) (tokens : List String) (now : ℕ) (rate : Option Limit) (schedules : Schedules)
      (q : Queue R)
      → let started = length (claim lua n lease tokens now rate schedules q).jobs in
        (started ≤ n)
        × (q.paused ≡ true → started ≡ 0)
        × ((l : Limit)
            → rate ≡ some l
            → let reply = (gcra lua l.limit q.rate l.us 1 false).0 in
              started ≤ (if reply.allowed then reply.remaining + 1 else 0))
  unfolding claim
  claim-bounds n lease tokens now rate schedules q =
      let p = (promote now (reclaim now q).0).0 in
      let k = promoted-Keeps now q in
      let count = begin_ready-count n lease tokens now rate p in
      (
        omega (arith, count, admitted_le n rate p),
        (λ paused. omega (arith, count, admitted-paused n rate p (k.0 ∙ paused))),
        (λ l e.
            let most : admitted lua n rate p ≤ bound l q.rate =
              subst (λ r. admitted lua n r p ≤ bound l q.rate) (sym e)
                (subst (λ s. admitted lua n (some l) p ≤ bound l s) k.1 (admitted-rate n l p)) in
            omega (arith, count, most)),
      )
    where
      bound : Limit → Option (List ℕ) → ℕ
      bound l stored =
          let reply = (gcra lua l.limit stored l.us 1 false).0 in
          if reply.allowed then reply.remaining + 1 else 0
