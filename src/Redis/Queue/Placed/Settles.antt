-- ===== src/Redis/Queue/Placed/Settles.antt =====
-- The settles of COMPLETE and FAIL leave each job in its place.
use nxgt_data.Prelude.{
  ℕ, ◌+◌, ◌-◌, ◌≡◌, refl, sym, ap, ◌∙◌, Bool, true, false, ◌||◌, Option, none, some, String, List,
  [], ◌∷◌, Bool-cases, inl, inr, min, In, take-In,
}
use nxgt_data.Redis.Zsets.{Zsets, IsDistinct}
use nxgt_data.Redis.Queue.Edits.{as_completed, as_delayed, as_failed, without_token}
use nxgt_data.Redis.Queue.{
  Job, Key, delayed, ready, active, completed, failed, same, Queue, fields, is, is_there, edit, del,
  zadd, zrem, hash, in_set, run, card,
}
use nxgt_data.Redis.Queue.Settle.{
  token_is, drop_all, trim, trim_count, complete_job, kept_completed, retries, delay_of, fail_job,
}
use nxgt_data.Redis.Queue.Placed.Claims.{range-In, range-IsDistinct, take-IsDistinct, differs}
use nxgt_data.Redis.Queue.Commands.{held_after, run_all-others}
use nxgt_data.Redis.Queue.Placed.{
  not_and, IsPlaced, by_key, moves, goes, placed_run, respects, published, or_false,
}

has_token : (o : Option String) (t : String) → is o t ≡ true → is_there o ≡ true
has_token none t e = e
has_token (some x) t e = refl

has_job : (o : Option Job) → is_there (fields o).token ≡ true → is_there o ≡ true
has_job none e = e
has_job (some j) e = refl

same_true : (k l : Key) (held : Key → Bool) → held k ≡ true → (same k l || held l) ≡ held l
same_true delayed l held e =
    by_key (λ l. (same delayed l || held l) ≡ held l) (sym e) refl refl refl refl l
same_true ready l held e =
    by_key (λ l. (same ready l || held l) ≡ held l) refl (sym e) refl refl refl l
same_true active l held e =
    by_key (λ l. (same active l || held l) ≡ held l) refl refl (sym e) refl refl l
same_true completed l held e =
    by_key (λ l. (same completed l || held l) ≡ held l) refl refl refl (sym e) refl l
same_true failed l held e =
    by_key (λ l. (same failed l || held l) ≡ held l) refl refl refl refl (sym e) l

module _ {R : Zsets} where
  -- A job whose token is known is active.
  pub holds-active :
      (id token : String) (q : Queue R)
      → IsPlaced q
      → token_is q id token ≡ true
      → in_set q active id ≡ true
  holds-active id token q v e =
      sym (or_false (in_set q active id))
      ∙ (v.at id).agrees active
      ∙ sym ((v.at id).fenced)
      ∙ has_token _ token e

  pub holds-there :
      (id token : String) (q : Queue R) → token_is q id token ≡ true → is_there (q.jobs id) ≡ true
  holds-there id token q e = has_job (q.jobs id) (has_token _ token e)

  pub rescored :
      (k : Key) (n : ℕ) (id : String) (q : Queue R)
      → IsPlaced q
      → in_set q k id ≡ true
      → IsPlaced (run id (zadd k n) q)
  rescored k n id q v e =
      placed_run (λ _. false) (λ _. false) id (zadd k n ∷ []) q v (λ _ _. refl)
        (respects refl (λ l. same_true k l (λ m. in_set q m id) e) refl (v.at id))

  drop_all-IsPlaced :
      (k : Key) (ids : List String) (q : Queue R)
      → IsDistinct ids
      → ((j : String) → In j ids → in_set q k j ≡ true)
      → IsPlaced q
      → IsPlaced (drop_all k ids q)
  unfolding drop_all
  drop_all-IsPlaced k [] q d h v = v
  drop_all-IsPlaced k (i ∷ ids) q d h v =
      drop_all-IsPlaced k ids _ d.1
        (λ j m.
          ap is_there ((run_all-others i j (del ∷ zrem k ∷ []) q (differs i j ids d.0 m)).1 k)
          ∙ h j (inr m))
        (goes k i (del ∷ zrem k ∷ []) q v (h i (inl refl)) refl (λ m. not_and (same k m)))

  trim_count-IsPlaced :
      (k : Key) (left : ℕ) (count : Option ℕ) (q : Queue R)
      → IsPlaced q
      → IsPlaced (trim_count k left count q)
  unfolding trim_count
  trim_count-IsPlaced k left none q v = v
  trim_count-IsPlaced k left (some count) q v =
      drop_all-IsPlaced k _ q
        (take-IsDistinct (min (card q k - count) left) _ (R.members-IsDistinct (q.sets k)))
        (λ j m.
          ap is_there
            (R.members-score (q.sets k) j (take-In j (min (card q k - count) left) _ m)).1)
        v

  trim-IsPlaced :
      (k : Key) (now age : ℕ) (count : Option ℕ) (q : Queue R)
      → IsPlaced q
      → IsPlaced (trim k now age count q)
  unfolding trim
  trim-IsPlaced k now age count q v =
      trim_count-IsPlaced k _ count _
        (drop_all-IsPlaced k _ q (range-IsDistinct _ 100 k q) (range-In _ 100 k q) v)

  kept_completed-IsPlaced :
      (now : ℕ) (id : String) (result : Option String) (keep : Option (ℕ × ℕ)) (q : Queue R)
      → IsPlaced q
      → in_set q active id ≡ true
      → IsPlaced (kept_completed now id result keep (run id (zrem active) q))
  unfolding kept_completed
  kept_completed-IsPlaced now id result none q v a =
      trim-IsPlaced completed now 0 (some 0) _
        (goes active id (zrem active ∷ del ∷ []) q v a refl (λ m. not_and (same active m)))
  kept_completed-IsPlaced now id result (some (age, count)) q v a =
      trim-IsPlaced completed now age (some count) _ (
        moves active completed id (zrem active ∷ edit ends ∷ zadd completed now ∷ [])
          (ends (hash q id)) q v a refl refl refl
          (by_key
            (λ m.
              held_after m (zrem active ∷ edit ends ∷ zadd completed now ∷ []) (same active m)
              ≡ same completed m)
            refl refl refl refl refl))
    where
      ends : Job → Job
      ends = as_completed now result

  pub complete_job-IsPlaced :
      (now : ℕ) (id token : String) (result : Option String) (keep : Option (ℕ × ℕ)) (q : Queue R)
      → IsPlaced q
      → IsPlaced (complete_job now id token result keep q).0
  unfolding complete_job
  complete_job-IsPlaced now id token result keep q v =
      elim (Bool-cases (token_is q id token))
        as (λ _. IsPlaced (complete_job now id token result keep q).0) [
          | inl e ↦ rw e (
              published _ _
                (kept_completed-IsPlaced now id result keep q v (holds-active id token q v e)))
          | inr e ↦ rw e v
        ]

  pub fail_job-IsPlaced :
      (now : ℕ) (id token error : String) (retry_in : Option ℕ) (keep : ℕ) (q : Queue R)
      → IsPlaced q
      → IsPlaced (fail_job now id token error retry_in keep q).0
  unfolding fail_job
  fail_job-IsPlaced now id token error retry_in keep q v =
      elim (Bool-cases (token_is q id token))
        as (λ _. IsPlaced (fail_job now id token error retry_in keep q).0) [
          | inr e ↦ rw e v
          | inl e ↦
              (let a = holds-active id token q v e in
                elim (Bool-cases (retries retry_in (hash q id)))
                  as (λ _. IsPlaced (fail_job now id token error retry_in keep q).0) [
                    | inl r ↦
                        rw (e, r)
                          (moves active delayed id
                            (zrem active ∷ edit untoken ∷ edit waits ∷ zadd delayed at ∷ [])
                            (waits (untoken (hash q id))) q v a refl refl refl
                            (by_key
                              (λ m.
                                held_after m
                                  (zrem active ∷ edit untoken ∷ edit waits ∷ zadd delayed at ∷ [])
                                  (same active m)
                                ≡ same delayed m)
                              refl refl refl refl refl))
                    | inr r ↦
                        rw (e, r)
                          (published _ _ (
                            trim-IsPlaced failed now keep none _ (
                              moves active failed id
                                (zrem active ∷ edit untoken ∷ edit ends ∷ zadd failed now ∷ [])
                                (ends (untoken (hash q id))) q v a refl refl refl
                                (by_key
                                  (λ m.
                                    held_after m
                                      (zrem active
                                        ∷ edit untoken
                                        ∷ edit ends
                                        ∷ zadd failed now
                                        ∷ [])
                                      (same active m)
                                    ≡ same failed m)
                                  refl refl refl refl refl))))
                  ])
        ]
    where
      at : ℕ
      at = now + delay_of retry_in

      untoken : Job → Job
      untoken = without_token

      waits : Job → Job
      waits = as_delayed at error

      ends : Job → Job
      ends = as_failed now error
