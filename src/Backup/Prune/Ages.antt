-- ===== src/Backup/Prune/Ages.antt =====
-- The deletes of a list with the newest first.
use nxgt_data.Prelude.{
  ℕ, ◌≤◌, ◌<◌, ◌≡◌, refl, sym, ap, subst, inl, inr, Bool, String, List, [], ◌∷◌, ◌++◌, select, In,
  Bool-cases, select-In, In-append, append-In, append-split, arith,
}
use nxgt_data.Backup.Policy.{Decision}
use nxgt_data.Backup.Policy.Fates.{ids}
use nxgt_data.Backup.Policy.Removed.{Newest}
use nxgt_data.Backup.Prune.{Key, manifest_key, keys_of, ordered}
use nxgt_data.Backup.Prune.Deletes.{doomed}
use nxgt_data.Backup.Prune.Order.{ordered-id, ordered-manifest}

pub doomed-id : (k : Key) (keys : List Key) (xs : List String) → In k (doomed keys xs) → In k.id xs
unfolding doomed
doomed-id k keys [] i = absurd i
doomed-id k keys (x ∷ xs) i = elim (In-append k (ordered x (keys_of keys x)) (doomed keys xs) i) [
  | inl j ↦ inl (ordered-id k x keys j)
  | inr j ↦ inr (doomed-id k keys xs j)
]

pub select-Newest : (p : Decision → Bool) (ds : List Decision) → Newest ds → Newest (select p ds)
select-Newest p [] n = tt
select-Newest p (d ∷ ds) n = elim (Bool-cases (p d)) [
  | inl passes ↦ rw passes (λ x i. n.0 x (select-In p x ds i).0, select-Newest p ds n.1)
  | inr fails ↦ rw fails (select-Newest p ds n.1)
]

-- Of a list with the newest first, the manifest of an older one goes after that of a newer one.
pub older_after :
    (ds : List Decision) (more : List String) (keys gone left : List Key) (c : Decision)
    (id : String) (at : ℕ)
    → gone ++ left ≡ doomed keys (ids ds ++ more)
    → Newest ds
    → In c ds
    → at < c.created_at
    → ((d : Decision) → In d ds → d.id ≡ id → d.created_at ≡ at)
    → In (manifest_key c.id) keys
    → In (manifest_key id) gone
    → In (manifest_key c.id) gone
unfolding doomed
older_after [] more keys gone left c id at e n i lt times there j = absurd i
older_after (d ∷ ds) more keys gone left c id at e n i lt times there j =
    elim (append-split gone left (ordered d.id (keys_of keys d.id)) (doomed keys (ids ds ++ more))
      e) [
        | inl (r, f) ↦
            absurd (
              not_own (subst (In (manifest_key id)) f (append-In (manifest_key id) gone r (inl j))))
        | inr (q, g, rest) ↦
            elim (In-append (manifest_key id) (ordered d.id (keys_of keys d.id)) q
              (subst (In (manifest_key id)) g j)) [
                | inl own ↦ absurd (not_own own)
                | inr later ↦ subst (In (manifest_key c.id)) (sym g) (
                    append-In (manifest_key c.id) _ q (elim i [
                      | inl same ↦ inl (
                          subst (λ x. In (manifest_key x) (ordered d.id (keys_of keys d.id)))
                            (ap (λ y. y.id) (sym same))
                            (ordered-manifest d.id keys
                              (subst (λ y. In (manifest_key y.id) keys) same there)))
                      | inr k ↦ inr (
                          older_after ds more keys q left c id at rest n.1 k lt
                            (λ x l. times x (inr l)) there later)
                    ]))
              ]
      ]
  where
    newer : In c (d ∷ ds) → c.created_at ≤ d.created_at
    newer (inl same) = subst (λ y. c.created_at ≤ y.created_at) same (omega arith)
    newer (inr k) = n.0 c k

    not_own : In (manifest_key id) (ordered d.id (keys_of keys d.id)) → ⊥
    not_own k =
        let same : id ≡ d.id = ordered-id (manifest_key id) d.id keys k in
        let t = times d (inl refl) (sym same) in let le = newer i in omega (arith, t, le, lt)
