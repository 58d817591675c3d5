-- ===== src/Redis/Queue/Placed/Admins.antt =====
-- Jobs that are canceled, retried or removed leave each job in its place.
use nxgt_data.Prelude.{
  ℕ, suc, ◌+◌, ◌*◌, ◌≡◌, refl, Bool, false, ◌&&◌, ◌||◌, Option, none, some, String, List, [], ◌∷◌,
  Bool-cases, inl, inr,
}
use nxgt_data.Redis.Zsets.{Zsets}
use nxgt_data.Redis.Queue.Edits.{as_retried}
use nxgt_data.Redis.Queue.{
  Job, Key, delayed, ready, active, completed, failed, same, Queue, is, Command, edit, del, zadd,
  zrem, hash, in_set, run, sound, number,
}
use nxgt_data.Redis.Queue.Claim.{ready_add}
use nxgt_data.Redis.Queue.Admin.{cancel_from, cancel, retry, remove}
use nxgt_data.Redis.Queue.Commands.{held_after}
use nxgt_data.Redis.Queue.Placed.{
  not_and, IsPlaced, by_key, moves, goes, placed_run, respects, leave, published, poked,
}

module _ {R : Zsets} where
  cancel_from-IsPlaced :
      (o : Option Key) (id : String) (q : Queue R) → IsPlaced q → IsPlaced (cancel_from o id q).0
  unfolding cancel_from
  cancel_from-IsPlaced none id q v = v
  cancel_from-IsPlaced (some k) id q v =
      elim (Bool-cases (in_set q k id)) as (λ _. IsPlaced (cancel_from (some k) id q).0) [
        | inl e ↦
            rw e
              (published _ _ (goes k id (zrem k ∷ del ∷ []) q v e refl (λ m. not_and (same k m))))
        | inr e ↦ rw e v
      ]

  pub cancel-IsPlaced : (id : String) (q : Queue R) → IsPlaced q → IsPlaced (cancel id q).0
  unfolding cancel
  cancel-IsPlaced id q v = cancel_from-IsPlaced _ id q v

  pub retry-IsPlaced :
      (now : ℕ) (id : String) (fresh : Bool) (q : Queue R)
      → IsPlaced q
      → IsPlaced (retry now id fresh q).0
  unfolding retry ready_add run
  retry-IsPlaced now id fresh q v =
      elim (Bool-cases (in_set q failed id)) as (λ _. IsPlaced (retry now id fresh q).0) [
        | inr e ↦ rw e v
        | inl e ↦
            elim (Bool-cases (is (hash q id).state "failed" && sound (hash q id)))
              as (λ _. IsPlaced (retry now id fresh q).0) [
                | inr s ↦ rw (e, s) v
                | inl s ↦
                    (let put = moves failed ready id cs (again (hash q id)) q v e refl refl refl (
                        by_key (λ m. held_after m cs (same failed m) ≡ same ready m) refl refl refl
                          refl refl) in
                      rw (e, s) (poked _ (record { at = put.at })))
              ]
      ]
    where
      again : Job → Job
      again = as_retried now fresh

      cs : List Command
      cs =
          zrem failed
          ∷ edit again
          ∷ zadd ready (number (hash q id).priority * 1099511627776 + suc q.seq)
          ∷ []

  pub remove-IsPlaced : (id : String) (q : Queue R) → IsPlaced q → IsPlaced (remove id q).0
  unfolding remove
  remove-IsPlaced id q v =
      elim (Bool-cases (in_set q active id || is (hash q id).state "active"))
        as (λ _. IsPlaced (remove id q).0) [
          | inl e ↦ rw e v
          | inr e ↦ rw e (
              placed_run (λ _. false) (λ _. false) id cs q v (λ _ _. refl)
                (respects refl
                  (by_key (λ m. held_after m cs (in_set q m id) ≡ false) refl refl refl refl refl)
                  refl (leave (λ _. false) (λ _. refl))))
        ]
    where
      cs : List Command
      cs = zrem ready ∷ zrem delayed ∷ zrem active ∷ zrem completed ∷ zrem failed ∷ del ∷ []
