-- ===== src/Redis/Queue/Commands.antt =====
-- What the commands of a script about one job make of its hash and its places, and that they leave
-- the other jobs as they are.
use nxgt_data.Prelude.{
  ℕ, ◌≡◌, refl, ap, ◌∙◌, Bool, true, false, ◌&&◌, ◌||◌, not, Option, none, some, String, List, [],
  ◌∷◌, str_eq, str_eq_refl, if◌then◌else◌,
}
use nxgt_data.Redis.Zsets.{Zsets}
use nxgt_data.Redis.Queue.{
  Job, Key, same, Queue, fields, is_there, Command, edit, del, zadd, zrem, score_in, in_set, run,
  run_all,
}

-- What a command makes of the hash of its job, and of its place in a set.
abbrev pub job_after : List Command → Option Job → Option Job
job_after [] o = o
job_after (edit f ∷ cs) o = job_after cs (some (f (fields o)))
job_after (del ∷ cs) o = job_after cs none
job_after (_ ∷ cs) o = job_after cs o

abbrev pub held_after : Key → List Command → Bool → Bool
held_after l [] h = h
held_after l (zadd k n ∷ cs) h = held_after l cs (same k l || h)
held_after l (zrem k ∷ cs) h = held_after l cs (not (same k l) && h)
held_after l (_ ∷ cs) h = held_after l cs h

-- The server's laws, of a set that a command may or may not name.
module _ (R : Zsets) where
  zadd-others :
      (b : Bool) (n : ℕ) (i j : String) (z : R.Zset)
      → str_eq i j ≡ false
      → R.score (if b then R.zadd n i z else z) j ≡ R.score z j
  zadd-others true n i j z ne = R.score-zadd n i j z ∙ rw ne
  zadd-others false n i j z ne = refl

  zrem-others :
      (b : Bool) (i j : String) (z : R.Zset)
      → str_eq i j ≡ false
      → R.score (if b then R.zrem i z else z) j ≡ R.score z j
  zrem-others true i j z ne = R.score-zrem i j z ∙ rw ne
  zrem-others false i j z ne = refl

  zadd-own :
      (b : Bool) (n : ℕ) (i : String) (z : R.Zset)
      → is_there (R.score (if b then R.zadd n i z else z) i) ≡ (b || is_there (R.score z i))
  zadd-own true n i z = rw (R.score-zadd n i i z, str_eq_refl i)
  zadd-own false n i z = refl

  zrem-own :
      (b : Bool) (i : String) (z : R.Zset)
      → is_there (R.score (if b then R.zrem i z else z) i) ≡ (not b && is_there (R.score z i))
  zrem-own true i z = rw (R.score-zrem i i z, str_eq_refl i)
  zrem-own false i z = refl

module _ {R : Zsets} where
  run-others :
      (i j : String) (c : Command) (q : Queue R)
      → str_eq i j ≡ false
      → ((run i c q).jobs j ≡ q.jobs j) × ((k : Key) → score_in (run i c q) k j ≡ score_in q k j)
  unfolding run
  run-others i j (edit f) q ne = (rw ne, λ k. refl)
  run-others i j del q ne = (rw ne, λ k. refl)
  run-others i j (zadd k n) q ne = (refl, λ l. zadd-others R (same k l) n i j (q.sets l) ne)
  run-others i j (zrem k) q ne = (refl, λ l. zrem-others R (same k l) i j (q.sets l) ne)

  pub run_all-others :
      (i j : String) (cs : List Command) (q : Queue R)
      → str_eq i j ≡ false
      → ((run_all i cs q).jobs j ≡ q.jobs j)
        × ((k : Key) → score_in (run_all i cs q) k j ≡ score_in q k j)
  run_all-others i j [] q ne = (refl, λ k. refl)
  run_all-others i j (c ∷ cs) q ne =
      let one = run-others i j c q ne in
      let rest = run_all-others i j cs (run i c q) ne in (rest.0 ∙ one.0, λ k. rest.1 k ∙ one.1 k)

  pub jobs-run_all :
      (i : String) (cs : List Command) (q : Queue R)
      → (run_all i cs q).jobs i ≡ job_after cs (q.jobs i)
  unfolding run
  jobs-run_all i [] q = refl
  jobs-run_all i (edit f ∷ cs) q = jobs-run_all i cs _ ∙ ap (job_after cs) (rw (str_eq_refl i))
  jobs-run_all i (del ∷ cs) q = jobs-run_all i cs _ ∙ ap (job_after cs) (rw (str_eq_refl i))
  jobs-run_all i (zadd k n ∷ cs) q = jobs-run_all i cs _
  jobs-run_all i (zrem k ∷ cs) q = jobs-run_all i cs _

  pub in_set-run_all :
      (i : String) (cs : List Command) (q : Queue R) (l : Key)
      → in_set (run_all i cs q) l i ≡ held_after l cs (in_set q l i)
  unfolding run
  in_set-run_all i [] q l = refl
  in_set-run_all i (edit f ∷ cs) q l = in_set-run_all i cs _ l
  in_set-run_all i (del ∷ cs) q l = in_set-run_all i cs _ l
  in_set-run_all i (zadd k n ∷ cs) q l =
      in_set-run_all i cs _ l ∙ ap (held_after l cs) (zadd-own R (same k l) n i (q.sets l))
  in_set-run_all i (zrem k ∷ cs) q l =
      in_set-run_all i cs _ l ∙ ap (held_after l cs) (zrem-own R (same k l) i (q.sets l))
