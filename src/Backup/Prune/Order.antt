-- ===== src/Backup/Prune/Order.antt =====
-- What the order of the deletes makes sure of, wherever they stop.
use nxgt_data.Prelude.{
  ◌≡◌, refl, sym, ap, ◌∙◌, subst, inl, inr, true, false, not, String, str_eq, eq_iff, List, [], ◌∷◌,
  ◌++◌, any, select, In, Bool-cases, In-select, select-In, In-any, any-In, In-append, append-In,
  append-split,
}
use nxgt_data.Backup.Prune.{Key, same_key, manifest_key, keys_of, ordered}
use nxgt_data.Backup.Prune.Deletes.{doomed}

same_key-eq : (a b : Key) → same_key a b ≡ true → a ≡ b
same_key-eq a b e = elim (Bool-cases (str_eq a.id b.id)) [
  | inr differs ↦ (let bad : false ≡ true = rw differs at e in cc)
  | inl same ↦
      (let p : str_eq a.path b.path ≡ true = rw same at e in
        joined ((eq_iff a.id b.id).0 same) ((eq_iff a.path b.path).0 p))
]
  where
    joined : a.id ≡ b.id → a.path ≡ b.path → a ≡ b
    joined p q = cc

pub same_key_refl : (a : Key) → same_key a a ≡ true
same_key_refl a =
    let p : str_eq a.id a.id ≡ true = (eq_iff a.id a.id).1 refl in
    let q : str_eq a.path a.path ≡ true = (eq_iff a.path a.path).1 refl in rw (p, q) refl

pub In-gone : (k : Key) (gone : List Key) → any (same_key k) gone ≡ true → In k gone
In-gone k gone e =
    let r = any-In (same_key k) gone e in subst (λ x. In x gone) (sym (same_key-eq k r.0 r.2)) r.1

pub gone-In : (k : Key) (gone : List Key) → In k gone → any (same_key k) gone ≡ true
gone-In k gone i = In-any (same_key k) k gone i (same_key_refl k)

-- The keys that a removal of `id` deletes are keys of `id`.
pub ordered-id :
    (k : Key) (id : String) (keys : List Key) → In k (ordered id (keys_of keys id)) → k.id ≡ id
ordered-id k id keys i =
    elim (In-append k (select (same_key (manifest_key id)) (keys_of keys id)) _ i) [
      | inl j ↦ of (select-In (same_key (manifest_key id)) k (keys_of keys id) j).0
      | inr j ↦ of (select-In (λ x. not (same_key (manifest_key id) x)) k (keys_of keys id) j).0
    ]
  where
    of : In k (keys_of keys id) → k.id ≡ id
    of j = (eq_iff k.id id).0 (select-In (λ x. str_eq x.id id) k keys j).1

manifest_first :
    (id : String) (keys : List Key)
    → In (manifest_key id) keys
    → In (manifest_key id) (select (same_key (manifest_key id)) (keys_of keys id))
manifest_first id keys i =
    In-select (same_key (manifest_key id)) (manifest_key id) (keys_of keys id)
      (In-select (λ x. str_eq x.id id) (manifest_key id) keys i ((eq_iff id id).1 refl))
      (same_key_refl (manifest_key id))

pub ordered-manifest :
    (id : String) (keys : List Key)
    → In (manifest_key id) keys
    → In (manifest_key id) (ordered id (keys_of keys id))
ordered-manifest id keys i =
    append-In (manifest_key id) (select (same_key (manifest_key id)) (keys_of keys id)) _
      (inl (manifest_first id keys i))

-- No key is deleted before the manifest of its backup.
pub manifest_before :
    (ids : List String) (keys gone left : List Key) (k : Key)
    → gone ++ left ≡ doomed keys ids
    → In k gone
    → In (manifest_key k.id) keys
    → In (manifest_key k.id) gone
unfolding doomed
manifest_before [] keys gone left k e i there = absurd (none_in gone e i)
  where
    none_in : (g : List Key) → g ++ left ≡ [] → In k g → ⊥
    none_in [] f j = j
    none_in (x ∷ g) f j = let bad : ◌≡◌ {A = List Key} (x ∷ (g ++ left)) [] = f in cc
manifest_before (id ∷ ids) keys gone left k e i there =
    elim (append-split gone left (ordered id (keys_of keys id)) (doomed keys ids) e) [
      | inr (q, g, rest) ↦ elim (In-append k (ordered id (keys_of keys id)) q (subst (In k) g i)) [
        | inl j ↦
            let same = ordered-id k id keys j in
            let m : In (manifest_key k.id) keys
                → In (manifest_key k.id) (ordered id (keys_of keys id)) =
              subst
                (λ x. In (manifest_key x) keys → In (manifest_key x) (ordered id (keys_of keys id)))
                (sym same) (ordered-manifest id keys) in
            subst (In (manifest_key k.id)) (sym g)
              (append-In (manifest_key k.id) _ q (inl (m there)))
        | inr j ↦ subst (In (manifest_key k.id)) (sym g) (
            append-In (manifest_key k.id) (ordered id (keys_of keys id)) q
              (inr (manifest_before ids keys q left k rest j there)))
      ]
      | inl (r, h) ↦
          let own : In k (ordered id (keys_of keys id)) =
            subst (In k) h (append-In k gone r (inl i)) in
          let same = ordered-id k id keys own in
          within id keys gone r k h i same (subst (λ x. In (manifest_key x) keys) same there)
    ]
  where
    within :
        (id : String) (keys gone r : List Key) (k : Key)
        → gone ++ r ≡ ordered id (keys_of keys id)
        → In k gone
        → k.id ≡ id
        → In (manifest_key id) keys
        → In (manifest_key k.id) gone
    within id keys gone r k h i same there =
        elim (append-split gone r (select (same_key (manifest_key id)) (keys_of keys id)) _ h) [
          | inl (t, f) ↦
              (let j : In k (select (same_key (manifest_key id)) (keys_of keys id)) =
                  subst (In k) f (append-In k gone t (inl i)) in
                let e =
                  same_key-eq (manifest_key id) k
                    (select-In (same_key (manifest_key id)) k (keys_of keys id) j).1 in
                subst (λ x. In x gone) (sym (ap manifest_key same ∙ e)) i)
          | inr (q, f, _) ↦
              subst (λ x. In (manifest_key x) gone) (sym same)
                (subst (In (manifest_key id)) (sym f)
                  (append-In (manifest_key id) _ q (inl (manifest_first id keys there))))
        ]
