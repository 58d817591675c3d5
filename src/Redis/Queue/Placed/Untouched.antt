-- ===== src/Redis/Queue/Placed/Untouched.antt =====
-- The jobs that a step of a claim does not name keep their hash and their places, with the scores.
use nxgt_data.Prelude.{
  ℕ, ◌≡◌, refl, ◌∙◌, false, String, List, [], ◌∷◌, str_eq, ltb, Bool-cases, inl, inr, drop,
}
use nxgt_data.Redis.Zsets.{Zsets}
use nxgt_data.Redis.Queue.{
  Key, delayed, active, Queue, is_there, Command, zrem, ready, hash, score_in, run, number, sound,
}
use nxgt_data.Redis.Queue.Claim.{
  Seen, ready_add, refuse, reclaim_job, promote_job, each, take_out, start, begin_all, token_of,
}
use nxgt_data.Redis.Queue.Commands.{run_all-others}

-- No id of the list is `j`.
abbrev pub IsNotIn : String → List String → Type 0
IsNotIn j [] = Unit
IsNotIn j (i ∷ is) = (str_eq i j ≡ false) × IsNotIn j is

module _ {R : Zsets} where
  abbrev pub IsUntouched : String → Queue R → Queue R → Type 0
  IsUntouched j q r = (r.jobs j ≡ q.jobs j) × ((k : Key) → score_in r k j ≡ score_in q k j)

  -- The same, after one more command about another job.
  pub more :
      (j : String) (q r : Queue R) (i : String) (c : Command)
      → str_eq i j ≡ false
      → IsUntouched j q r
      → IsUntouched j q (run i c r)
  more j q r i c ne u =
      let one = run_all-others i j (c ∷ []) r ne in (one.0 ∙ u.0, λ k. one.1 k ∙ u.1 k)

  pub and_then :
      (j : String) (q r s : Queue R) → IsUntouched j q r → IsUntouched j r s → IsUntouched j q s
  and_then j q r s a b = (b.0 ∙ a.0, λ k. b.1 k ∙ a.1 k)

  pub itself : (j : String) (q : Queue R) → IsUntouched j q q
  itself j q = (refl, λ k. refl)

  pub refuse-IsUntouched :
      (now : ℕ) (i j : String) (q : Queue R)
      → str_eq i j ≡ false
      → IsUntouched j q (refuse now i q).0
  unfolding refuse
  refuse-IsUntouched now i j q ne =
      let out =
        more j q _ i (zrem active) ne
          (more j q _ i (zrem ready) ne (more j q _ i (zrem delayed) ne (itself j q))) in
      elim (Bool-cases (is_there (q.jobs i))) as (λ _. IsUntouched j q (refuse now i q).0) [
        | inl e ↦ rw e (more j q _ i _ ne (more j q _ i _ ne out))
        | inr e ↦ rw e out
      ]

  pub reclaim_job-IsUntouched :
      (now : ℕ) (i j : String) (q : Queue R)
      → str_eq i j ≡ false
      → IsUntouched j q (reclaim_job now i q).0
  unfolding reclaim_job ready_add
  reclaim_job-IsUntouched now i j q ne =
      elim (Bool-cases (sound (hash q i))) as (λ _. IsUntouched j q (reclaim_job now i q).0) [
        | inr e ↦ rw e (refuse-IsUntouched now i j q ne)
        | inl e ↦
            elim (Bool-cases (ltb (number (hash q i).attempt) (number (hash q i).attempts)))
              as (λ _. IsUntouched j q (reclaim_job now i q).0) [
                | inl l ↦
                    rw (e, l)
                      (more j q _ i _ ne
                        (more j q _ i _ ne (more j q _ i _ ne (more j q _ i _ ne (itself j q)))))
                | inr l ↦
                    rw (e, l)
                      (more j q _ i _ ne
                        (more j q _ i _ ne (more j q _ i _ ne (more j q _ i _ ne (itself j q)))))
              ]
      ]

  pub promote_job-IsUntouched :
      (now : ℕ) (i j : String) (q : Queue R)
      → str_eq i j ≡ false
      → IsUntouched j q (promote_job now i q).0
  unfolding promote_job ready_add
  promote_job-IsUntouched now i j q ne =
      elim (Bool-cases (sound (hash q i))) as (λ _. IsUntouched j q (promote_job now i q).0) [
        | inr e ↦ rw e (refuse-IsUntouched now i j q ne)
        | inl e ↦ rw e (more j q _ i _ ne (more j q _ i _ ne (more j q _ i _ ne (itself j q))))
      ]

  pub each-IsUntouched :
      (f : String → Queue R → Queue R × Seen) (j : String)
      → ((i : String) (q : Queue R) → str_eq i j ≡ false → IsUntouched j q (f i q).0)
      → (ids : List String) (q : Queue R) → IsNotIn j ids
      → IsUntouched j q (each f ids q).0
  unfolding each
  each-IsUntouched f j turn [] q n = itself j q
  each-IsUntouched f j turn (i ∷ ids) q n =
      and_then j q (f i q).0 (each f ids (f i q).0).0 (turn i q n.0)
        (each-IsUntouched f j turn ids (f i q).0 n.1)

  pub take_out-IsUntouched :
      (j : String) (ids : List String) (q : Queue R)
      → IsNotIn j ids
      → IsUntouched j q (take_out ids q)
  unfolding take_out
  take_out-IsUntouched j [] q n = itself j q
  take_out-IsUntouched j (i ∷ ids) q n =
      let r = run i (zrem ready) q in
      and_then j q r (take_out ids r) (more j q q i (zrem ready) n.0 (itself j q))
        (take_out-IsUntouched j ids r n.1)

  pub start-IsUntouched :
      (now lease : ℕ) (token i j : String) (q : Queue R)
      → str_eq i j ≡ false
      → IsUntouched j q (start now lease token i q)
  unfolding start
  start-IsUntouched now lease token i j q ne = more j q _ i _ ne (more j q _ i _ ne (itself j q))

  pub begin_all-IsUntouched :
      (now lease : ℕ) (tokens : List String) (j : String) (ids : List String) (q : Queue R)
      → IsNotIn j ids
      → IsUntouched j q (begin_all now lease tokens ids q).0
  unfolding begin_all
  begin_all-IsUntouched now lease tokens j [] q n = itself j q
  begin_all-IsUntouched now lease tokens j (i ∷ ids) q n =
      elim (Bool-cases (sound (hash q i)))
        as (λ _. IsUntouched j q (begin_all now lease tokens (i ∷ ids) q).0) [
          | inl e ↦
              (let r = start now lease (token_of tokens) i q in
                rw e (
                  and_then j q r (begin_all now lease (drop 1 tokens) ids r).0
                    (start-IsUntouched now lease (token_of tokens) i j q n.0)
                    (begin_all-IsUntouched now lease (drop 1 tokens) j ids r n.1)))
          | inr e ↦
              (let r = (refuse now i q).0 in
                rw e (
                  and_then j q r (begin_all now lease tokens ids r).0
                    (refuse-IsUntouched now i j q n.0)
                    (begin_all-IsUntouched now lease tokens j ids r n.1)))
        ]
