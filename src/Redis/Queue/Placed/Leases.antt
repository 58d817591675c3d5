-- ===== src/Redis/Queue/Placed/Leases.antt =====
-- A claim takes no job whose lease has not ended.
use nxgt_data.Prelude.{
  ℕ, ◌≤◌, ◌≡◌, refl, sym, ap, ◌∙◌, subst, Bool, true, false, not, ◌&&◌, Option, none, some, String,
  List, [], ◌∷◌, str_eq, eq_iff, ltb, leb, ltb→lt, Bool-cases, inl, inr, clash, In, take, take-In,
  select-In, length, arith,
}
use nxgt_data.Redis.Zsets.{Zsets}
use nxgt_data.Redis.RateLimit.Arithmetic.{Doubles}
use nxgt_data.Redis.Queue.{
  Key, delayed, ready, active, same, Queue, is_there, in_set, score_in, card,
}
use nxgt_data.Redis.Queue.Claim.{
  Limit, Schedules, passes, range_by, reclaim, reclaim_job, promote, promote_job, admitted,
  begin_ready, begin_all, take_out, charge, pass_on, claim, retry_after,
}
use nxgt_data.Redis.Queue.Placed.Untouched.{
  IsUntouched, IsNotIn, and_then, each-IsUntouched, reclaim_job-IsUntouched,
  promote_job-IsUntouched, take_out-IsUntouched, begin_all-IsUntouched,
}
use nxgt_data.Redis.Queue.Placed.Claims.{range-In, reclaim-IsPlaced, promote-IsPlaced}
use nxgt_data.Redis.Queue.Placed.{IsPlaced, where_is}

not_in : (j : String) (ids : List String) → (In j ids → ⊥) → IsNotIn j ids
not_in j [] n = tt
not_in j (i ∷ ids) n = (
  elim (Bool-cases (str_eq i j)) [ inl e ↦ absurd (n (inl (sym ((eq_iff i j).0 e)))) | inr e ↦ e ],
  not_in j ids (λ m. n (inr m)),
)

module _ {R : Zsets} where
  -- A member of what `ZRANGEBYSCORE` answers has a score that passes.
  range-passes :
      (p : ℕ → Bool) (n : ℕ) (k : Key) (q : Queue R) (j : String)
      → In j (range_by p n k q)
      → passes p (score_in q k j) ≡ true
  range-passes p n k q j m =
      (select-In (λ id. passes p (score_in q k id)) j (R.members (q.sets k)) (take-In j n _ m)).1

  not_elsewhere :
      (k : Key) (j : String) (q : Queue R)
      → IsPlaced q
      → in_set q active j ≡ true
      → same active k ≡ false
      → in_set q k j ≡ true
      → ⊥
  not_elsewhere k j q v a ne e =
      clash e (where_is (q.jobs j) (λ l. in_set q l j) active k (v.at j) a ∙ ne)

  pass_on-IsUntouched :
      (lua : Doubles) (rate : Option Limit) (j : String) (q : Queue R)
      → IsUntouched j q (pass_on lua rate q)
  unfolding pass_on
  pass_on-IsUntouched lua rate j q =
      elim (Bool-cases
          (not q.paused && ltb 0 (card q ready) && not (is_there (retry_after lua rate q))))
        as (λ _. IsUntouched j q (pass_on lua rate q)) [
          | inl e ↦ simp e (refl, λ k. refl)
          | inr e ↦ simp e (refl, λ k. refl)
        ]

  charge-IsUntouched :
      (lua : Doubles) (rate : Option Limit) (k : ℕ) (j : String) (q : Queue R)
      → IsUntouched j q (charge lua rate k q)
  unfolding charge
  charge-IsUntouched lua none k j q = (refl, λ l. refl)
  charge-IsUntouched lua (some l) k j q =
      elim (Bool-cases (ltb 0 k)) as (λ _. IsUntouched j q (charge lua (some l) k q)) [
        | inl e ↦ simp e (refl, λ m. refl)
        | inr e ↦ simp e (refl, λ m. refl)
      ]

  reclaim-IsUntouched :
      (now : ℕ) (id : String) (q : Queue R) (until_ms : ℕ)
      → score_in q active id ≡ some until_ms
      → now ≤ until_ms
      → IsUntouched id q (reclaim now q).0
  unfolding reclaim
  reclaim-IsUntouched now id q until_ms s le =
      each-IsUntouched (reclaim_job now) id (λ i r ne. reclaim_job-IsUntouched now i id r ne) _ q
        (not_in id _ λ m.
          let lapsed : passes (λ n. ltb n now) (some until_ms) ≡ true =
            subst (λ o. passes (λ n. ltb n now) o ≡ true) s
              (range-passes (λ n. ltb n now) 100 active q id m) in
          let lt = ltb→lt until_ms now lapsed in omega (arith, lt, le))

  promote-IsUntouched :
      (now : ℕ) (id : String) (q : Queue R)
      → IsPlaced q
      → in_set q active id ≡ true
      → IsUntouched id q (promote now q).0
  unfolding promote
  promote-IsUntouched now id q v a =
      each-IsUntouched (promote_job now) id (λ i r ne. promote_job-IsUntouched now i id r ne) _ q
        (not_in id _
          λ m. not_elsewhere delayed id q v a refl (range-In (λ n. leb n now) 1000 delayed q id m))

  begin_ready-IsUntouched :
      (lua : Doubles) (n lease : ℕ) (tokens : List String) (now : ℕ) (rate : Option Limit)
      (id : String) (q : Queue R)
      → IsPlaced q
      → in_set q active id ≡ true
      → IsUntouched id q (begin_ready lua n lease tokens now rate q).0
  unfolding begin_ready
  begin_ready-IsUntouched lua n lease tokens now rate id q v a =
      and_then id q (take_out ids q) (begin_all now lease tokens ids (take_out ids q)).0
        (take_out-IsUntouched id ids q apart)
        (begin_all-IsUntouched now lease tokens id ids (take_out ids q) apart)
    where
      ids : List String
      ids = take (admitted lua n rate q) (R.members (q.sets ready))

      apart : IsNotIn id ids
      apart = not_in id ids λ m. not_elsewhere ready id q v a refl (
          ap is_there
            (R.members-score (q.sets ready) id (take-In id (admitted lua n rate q) _ m)).1)

  -- While the lease of an active job has not ended, a claim by any worker leaves its hash, so its
  -- token, and its lease as they are, of a queue whose jobs are in their places.
  pub claim-keeps :
      (lua : Doubles) (n lease : ℕ) (tokens : List String) (now : ℕ) (rate : Option Limit)
      (schedules : Schedules) (q : Queue R) (id : String) (until_ms : ℕ)
      → IsPlaced q
      → score_in q active id ≡ some until_ms
      → now ≤ until_ms
      → let r = (claim lua n lease tokens now rate schedules q).queue in
        (r.jobs id ≡ q.jobs id) × (score_in r active id ≡ some until_ms)
  unfolding claim
  claim-keeps lua n lease tokens now rate schedules q id until_ms v s le =
      let u1 = reclaim-IsUntouched now id q until_ms s le in
      let a1 : in_set (reclaim now q).0 active id ≡ true = ap is_there (u1.1 active ∙ s) in
      let v1 = reclaim-IsPlaced now q v in
      let u2 = promote-IsUntouched now id (reclaim now q).0 v1 a1 in
      let p = (promote now (reclaim now q).0).0 in
      let a2 : in_set p active id ≡ true = ap is_there (u2.1 active) ∙ a1 in
      let u3 =
        begin_ready-IsUntouched lua n lease tokens now rate id p (promote-IsPlaced now _ v1) a2 in
      let b = begin_ready lua n lease tokens now rate p in
      let c = charge lua rate (length b.1) b.0 in
      let u4 = charge-IsUntouched lua rate (length b.1) id b.0 in
      let u5 = pass_on-IsUntouched lua rate id c in
      (
        u5.0 ∙ u4.0 ∙ u3.0 ∙ u2.0 ∙ u1.0,
        u5.1 active ∙ u4.1 active ∙ u3.1 active ∙ u2.1 active ∙ u1.1 active ∙ s,
      )
