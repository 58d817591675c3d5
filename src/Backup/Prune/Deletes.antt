-- ===== src/Backup/Prune/Deletes.antt =====
-- Which deletes were made when the removal ends, whole or at a lease that ran out.
use mathlib.Core.List.{append_assoc, append-nil}
use nxgt_data.Prelude.{
  ℕ, ◌+◌, ◌≡◌, refl, sym, ap, ◌∙◌, inl, inr, Bool, true, false, not, ◌||◌, String, List, [], ◌∷◌,
  ◌++◌, any, In, Bool-cases, In-select, select-In, any-append, clash,
}
use nxgt_data.Backup.Prune.{
  Key, same_key, keys_of, Sweep, delete_key, delete_keys, ordered, remove_backup, remove_all,
}

-- The deletes that were made are the first ones of those planned, and what is left is the rest of
-- the keys.
pub record Swept (planned keys : List Key) (s : Sweep) : Type 0 where
  pub gone : List Key
  pub left : List Key
  pub split : gone ++ left ≡ planned
  pub stays : (k : Key) → In k keys → any (same_key k) gone ≡ false → In k s.keys
  pub left_of : (k : Key) → In k s.keys → In k keys × (any (same_key k) gone ≡ false)
  pub whole : s.going ≡ true → left ≡ []

or_false : {a b : Bool} → (a || b) ≡ false → (a ≡ false) × (b ≡ false)
or_false {a = true} e = cc
or_false {a = false} e = (refl, e)

false_of_not : {b : Bool} → not b ≡ true → b ≡ false
false_of_not {b = true} e = cc
false_of_not {b = false} e = refl

Swept-none :
    (keys : List Key) (turn : ℕ) → Swept [] keys (record { turn = turn; keys = keys; going = true })
Swept-none keys turn = record {
  gone = [];
  left = [];
  split = refl;
  stays = λ k i e. i;
  left_of = λ k i. (i, refl);
  whole = λ e. refl;
}

Swept-append :
    (a b keys : List Key) (s t : Sweep)
    → s.going ≡ true
    → Swept a keys s
    → Swept b s.keys t
    → Swept (a ++ b) keys t
Swept-append a b keys s t e u v = record {
  gone = u.gone ++ v.gone;
  left = v.left;
  split = append_assoc u.gone v.gone v.left ∙ ap (λ l. u.gone ++ l) v.split ∙ ap (λ l. l ++ b) all;
  stays = λ k i f.
      (let both = or_false (sym (any-append (same_key k) u.gone v.gone) ∙ f) in
        v.stays k (u.stays k i both.0) both.1);
  left_of = λ k i.
      (let q = v.left_of k i in
        let p = u.left_of k q.0 in (p.0, any-append (same_key k) u.gone v.gone ∙ rw p.1 q.1));
  whole = v.whole;
}
  where
    all : u.gone ≡ a
    all = sym (append-nil u.gone) ∙ ap (λ l. u.gone ++ l) (sym (u.whole e)) ∙ u.split

Swept-more :
    (a b keys : List Key) (s : Sweep) → s.going ≡ false → Swept a keys s → Swept (a ++ b) keys s
Swept-more a b keys s e u = record {
  gone = u.gone;
  left = u.left ++ b;
  split = sym (append_assoc u.gone u.left b) ∙ ap (λ l. l ++ b) u.split;
  stays = u.stays;
  left_of = u.left_of;
  whole = λ f. absurd (clash f e);
}

pub delete_keys-Swept :
    (lease : ℕ → Bool) (xs : List Key) (s : Sweep)
    → s.going ≡ true
    → Swept xs s.keys (delete_keys lease xs s)
unfolding delete_keys
delete_keys-Swept lease [] s e = record {
  gone = [];
  left = [];
  split = refl;
  stays = λ k i f. i;
  left_of = λ k i. (i, refl);
  whole = λ f. refl;
}
delete_keys-Swept lease (x ∷ xs) s e = elim (Bool-cases (lease s.turn)) [
  | inr lost ↦
      rw (delete_keys, lost)
        (record {
          gone = [];
          left = x ∷ xs;
          split = refl;
          stays = λ k i f. i;
          left_of = λ k i. (i, refl);
          whole = λ f. cc;
        })
  | inl held ↦
      (let next : Sweep = record { turn = s.turn + 1; keys = delete_key x s.keys; going = true } in
        let v = delete_keys-Swept lease xs next refl in
        rw (delete_keys, held)
          (record {
            gone = x ∷ v.gone;
            left = v.left;
            split = ap (λ l. x ∷ l) v.split;
            stays = λ k i f.
                (let both = or_false {a = same_key k x} f in
                  v.stays k (In-select (λ y. not (same_key y x)) k s.keys i (rw both.0)) both.1);
            left_of = λ k i.
                (let q = v.left_of k i in
                  let p = select-In (λ y. not (same_key y x)) k s.keys q.0 in
                  (p.0, rw (false_of_not p.1) q.1));
            whole = v.whole;
          }))
]

-- The deletes that the loop of `pruneBackups` plans.
unfoldable pub doomed : List Key → List String → List Key
doomed listed [] = []
doomed listed (id ∷ ids) = ordered id (keys_of listed id) ++ doomed listed ids

pub remove_all-Swept :
    (lease : ℕ → Bool) (listed : List Key) (ids : List String) (s : Sweep)
    → s.going ≡ true
    → Swept (doomed listed ids) s.keys (remove_all lease listed ids s)
unfolding remove_all remove_backup doomed
remove_all-Swept lease listed [] s e = record {
  gone = [];
  left = [];
  split = refl;
  stays = λ k i f. i;
  left_of = λ k i. (i, refl);
  whole = λ f. refl;
}
remove_all-Swept lease listed (id ∷ ids) s e =
    let t = remove_backup lease id (keys_of listed id) s in
    let u : Swept (ordered id (keys_of listed id)) s.keys t =
      delete_keys-Swept lease (ordered id (keys_of listed id)) s e in
    elim (Bool-cases t.going) [
      | inl going ↦
          rw (remove_all, going)
            (Swept-append _ (doomed listed ids) s.keys t _ going u
              (remove_all-Swept lease listed ids t going))
      | inr stopped ↦ rw (remove_all, stopped) (Swept-more _ (doomed listed ids) s.keys t stopped u)
    ]
