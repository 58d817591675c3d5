-- ===== src/Redis/Queue/Placed/Claims.antt =====
-- A claim leaves each job in its place: what it reclaims, promotes, refuses and begins.
use nxgt_data.Prelude.{
  ℕ, zero, suc, ◌+◌, ◌*◌, ◌≡◌, refl, sym, ap, ◌∙◌, subst, Bool, true, false, String, List, [], ◌∷◌,
  ◌++◌, str_eq, eq_iff, ltb, Bool-cases, inl, inr, In, take, select, select-In, take-In,
}
use nxgt_data.Redis.Zsets.{Zsets, IsDistinct}
use nxgt_data.Redis.Queue.Edits.{as_failed, as_refused, as_waiting, without_token}
use nxgt_data.Redis.Queue.{
  Job, Key, delayed, ready, active, completed, failed, same, Queue, is_there, Command, edit, zadd,
  zrem, hash, in_set, run, run_all, sound, number,
}
use nxgt_data.Redis.Queue.Claim.{
  Seen, range_by, ready_add, refuse, reclaim_job, promote_job, each, reclaim, promote,
  invalid_error, lapsed_error,
}
use nxgt_data.Redis.Queue.Placed.Untouched.{
  IsUntouched, reclaim_job-IsUntouched, promote_job-IsUntouched,
}
use nxgt_data.Redis.Queue.Commands.{held_after}
use nxgt_data.Redis.Queue.Placed.{
  IsPlacedBut, IsPlaced, arrive, leave, where_is, token_is_there, placed_run, moves, by_key,
  respects, published, no_job,
}

pub differs : (i j : String) (ids : List String) → (In i ids → ⊥) → In j ids → str_eq i j ≡ false
differs i j ids fresh m = elim (Bool-cases (str_eq i j)) [
  | inl e ↦ absurd (fresh (subst (λ x. In x ids) (sym ((eq_iff i j).0 e)) m))
  | inr e ↦ e
]

select-IsDistinct :
    (p : String → Bool) (ids : List String) → IsDistinct ids → IsDistinct (select p ids)
select-IsDistinct p [] d = tt
select-IsDistinct p (i ∷ ids) d = elim (Bool-cases (p i)) [
  | inl e ↦ rw e ((λ m. d.0 (select-In p i ids m).0), select-IsDistinct p ids d.1)
  | inr e ↦ rw e (select-IsDistinct p ids d.1)
]

pub take-IsDistinct : (n : ℕ) (ids : List String) → IsDistinct ids → IsDistinct (take n ids)
take-IsDistinct zero ids d = tt
take-IsDistinct (suc n) [] d = tt
take-IsDistinct (suc n) (i ∷ ids) d = ((λ m. d.0 (take-In i n ids m)), take-IsDistinct n ids d.1)

module _ {R : Zsets} where
  -- A job that is in none of the sets of ended jobs may be refused.
  pub refuse-IsPlacedBut :
      (pend pend' : String → Bool) (now : ℕ) (i : String) (q : Queue R)
      → IsPlacedBut pend q
      → ((j : String) → str_eq i j ≡ false → pend' j ≡ pend j)
      → pend' i ≡ false
      → in_set q completed i ≡ false
      → in_set q failed i ≡ false
      → IsPlacedBut pend' (refuse now i q).0
  unfolding refuse
  refuse-IsPlacedBut pend pend' now i q v w p c f =
      elim (Bool-cases (is_there (q.jobs i))) as (λ _. IsPlacedBut pend' (refuse now i q).0) [
        | inl e ↦
            (let cs : List Command = out ++ edit refused ∷ zadd failed now ∷ [] in
              let put : IsPlacedBut pend' (run_all i cs q) = placed_run pend pend' i cs q v w (
                respects refl
                  (by_key (λ k. held_after k cs (in_set q k i) ≡ same failed k) refl refl refl c
                    refl)
                  p (arrive (refused (hash q i)) failed (same failed) refl refl (λ _. refl))) in
              rw e (published _ _ put))
        | inr e ↦ rw e (
            placed_run pend pend' i out q v w (
              respects (no_job (q.jobs i) e)
                (by_key (λ k. held_after k out (in_set q k i) ≡ false) refl refl refl c f) p
                (leave (λ _. false) (λ _. refl))))
      ]
    where
      out : List Command
      out = zrem delayed ∷ zrem ready ∷ zrem active ∷ []

      refused : Job → Job
      refused = as_refused now invalid_error

  -- So may one that waits for its time or whose lease lapsed.
  refuse-IsPlaced :
      (k : Key) (now : ℕ) (i : String) (q : Queue R)
      → IsPlaced q
      → in_set q k i ≡ true
      → same k completed ≡ false
      → same k failed ≡ false
      → IsPlaced (refuse now i q).0
  refuse-IsPlaced k now i q v e c f =
      let there : (l : Key) → in_set q l i ≡ same k l =
        λ l. where_is (q.jobs i) (λ m. in_set q m i) k l (v.at i) e in
      refuse-IsPlacedBut (λ _. false) (λ _. false) now i q v (λ _ _. refl) refl
        (there completed ∙ c) (there failed ∙ f)

  reclaim_job-IsPlaced :
      (now : ℕ) (i : String) (q : Queue R)
      → IsPlaced q
      → in_set q active i ≡ true
      → IsPlaced (reclaim_job now i q).0
  unfolding reclaim_job ready_add run
  reclaim_job-IsPlaced now i q v a =
      elim (Bool-cases (sound (hash q i))) as (λ _. IsPlaced (reclaim_job now i q).0) [
        | inr e ↦ rw e (refuse-IsPlaced active now i q v a refl refl)
        | inl e ↦
            elim (Bool-cases (ltb (number (hash q i).attempt) (number (hash q i).attempts)))
              as (λ _. IsPlaced (reclaim_job now i q).0) [
                | inl l ↦
                    (let cs : List Command =
                        free ∷ untoken ∷ edit waits ∷ zadd ready (score q) ∷ [] in
                      let put =
                        moves active ready i cs (waits (untokened (hash q i))) q v a refl refl refl
                          (by_key (λ m. held_after m cs (same active m) ≡ same ready m) refl refl
                            refl refl refl) in
                      rw (e, l) (record { at = put.at }))
                | inr l ↦
                    (let cs : List Command = free ∷ untoken ∷ edit lapses ∷ zadd failed now ∷ [] in
                      let put =
                        moves active failed i cs (lapses (untokened (hash q i))) q v a refl refl
                          refl
                          (by_key (λ m. held_after m cs (same active m) ≡ same failed m) refl refl
                            refl refl refl) in
                      rw (e, l) (record { at = put.at }))
              ]
      ]
    where
      free : Command
      free = zrem active

      untokened : Job → Job
      untokened = without_token

      untoken : Command
      untoken = edit untokened

      waits : Job → Job
      waits = as_waiting

      lapses : Job → Job
      lapses = as_failed now lapsed_error

      score : Queue R → ℕ
      score r = number (hash r i).priority * 1099511627776 + suc r.seq

  promote_job-IsPlaced :
      (now : ℕ) (i : String) (q : Queue R)
      → IsPlaced q
      → in_set q delayed i ≡ true
      → IsPlaced (promote_job now i q).0
  unfolding promote_job ready_add run
  promote_job-IsPlaced now i q v a =
      elim (Bool-cases (sound (hash q i))) as (λ _. IsPlaced (promote_job now i q).0) [
        | inr e ↦ rw e (refuse-IsPlaced delayed now i q v a refl refl)
        | inl e ↦
            (let cs : List Command = zrem delayed ∷ edit waits ∷ zadd ready score ∷ [] in
              let t = token_is_there (q.jobs i) (λ k. in_set q k i) delayed (v.at i) a in
              let put = moves delayed ready i cs (waits (hash q i)) q v a refl refl t (
                by_key (λ m. held_after m cs (same delayed m) ≡ same ready m) refl refl refl refl
                  refl) in
              rw e (record { at = put.at }))
      ]
    where
      waits : Job → Job
      waits = as_waiting

      score : ℕ
      score = number (hash q i).priority * 1099511627776 + suc q.seq

  -- A loop over jobs of one set, which each turn may move.
  each-IsPlaced :
      (f : String → Queue R → Queue R × Seen) (k : Key)
      → ((i j : String) (q : Queue R) → str_eq i j ≡ false → IsUntouched j q (f i q).0)
      → ((i : String) (q : Queue R) → IsPlaced q → in_set q k i ≡ true → IsPlaced (f i q).0)
      → (ids : List String) (q : Queue R) → IsDistinct ids
      → ((j : String) → In j ids → in_set q k j ≡ true)
      → IsPlaced q
      → IsPlaced (each f ids q).0
  unfolding each
  each-IsPlaced f k apart turn [] q d h v = v
  each-IsPlaced f k apart turn (i ∷ ids) q d h v =
      each-IsPlaced f k apart turn ids (f i q).0 d.1
        (λ j m. ap is_there ((apart i j q (differs i j ids d.0 m)).1 k) ∙ h j (inr m))
        (turn i q v (h i (inl refl)))

  -- What `ZRANGEBYSCORE` answers is in the set, each id once.
  pub range-In :
      (p : ℕ → Bool) (n : ℕ) (k : Key) (q : Queue R) (j : String)
      → In j (range_by p n k q)
      → in_set q k j ≡ true
  range-In p n k q j m =
      let s = R.members-score (q.sets k) j (select-In _ j _ (take-In j n _ m)).0 in ap is_there s.1

  pub range-IsDistinct :
      (p : ℕ → Bool) (n : ℕ) (k : Key) (q : Queue R) → IsDistinct (range_by p n k q)
  range-IsDistinct p n k q =
      take-IsDistinct n _ (select-IsDistinct _ _ (R.members-IsDistinct (q.sets k)))

  pub reclaim-IsPlaced : (now : ℕ) (q : Queue R) → IsPlaced q → IsPlaced (reclaim now q).0
  unfolding reclaim
  reclaim-IsPlaced now q =
      each-IsPlaced (reclaim_job now) active (reclaim_job-IsUntouched now)
        (reclaim_job-IsPlaced now) _ q (range-IsDistinct _ 100 active q) (range-In _ 100 active q)

  pub promote-IsPlaced : (now : ℕ) (q : Queue R) → IsPlaced q → IsPlaced (promote now q).0
  unfolding promote
  promote-IsPlaced now q =
      each-IsPlaced (promote_job now) delayed (promote_job-IsUntouched now)
        (promote_job-IsPlaced now) _ q (range-IsDistinct _ 1000 delayed q)
        (range-In _ 1000 delayed q)
