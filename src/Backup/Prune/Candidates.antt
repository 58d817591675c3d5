-- ===== src/Backup/Prune/Candidates.antt =====
-- The candidates that `prune` reads, and the ids that it finds complete or incomplete.
use Prim.Native.String.{compare}
use text.Mathlib.Text.{is_lt}
use nxgt_data.Prelude.{
  ℕ, ◌+◌, ◌≡◌, refl, sym, ap, ◌∙◌, subst, ◌⊎◌, inl, inr, Bool, true, not, Option, none, some,
  String, str_eq, eq_iff, List, [], ◌∷◌, any, leb, In, Bool-cases, Option-cases, select-In, In-any,
  any-In, clash,
}
use nxgt_data.Backup.Rules.{Candidate}
use nxgt_data.Backup.Policy.{has}
use nxgt_data.Backup.Policy.Promises.{HasUniqueIds}
use nxgt_data.Backup.Policy.Counts.{some-injective}
use nxgt_data.Backup.Prune.{
  Key, same_key, manifest_key, keys_of, Fetched, found, not_found, unread, failed, Read, skipped,
  candidate, stand_in, threw, read_one, with_read, of_manifest, standing_in, candidates_of,
  ids_from, insert_id, sort_ids, complete_ids, incomplete_ids,
}
use nxgt_data.Backup.Prune.Order.{In-gone}

abbrev pub of_read : Read → Option Candidate
of_read (candidate c) = some c
of_read (stand_in c) = some c
of_read _ = none

In-insert_id : (x id : String) (xs : List String) → In x (insert_id id xs) → (x ≡ id) ⊎ In x xs
unfolding insert_id
In-insert_id x id [] i = i
In-insert_id x id (y ∷ ys) i = elim (Bool-cases (is_lt (compare y id))) [
  | inl first ↦
      (let j : In x (y ∷ insert_id id ys) = rw (insert_id, first) at i in
        elim j [
          | inl e ↦ inr (inl e)
          | inr k ↦ elim (In-insert_id x id ys k) [ inl e ↦ inl e | inr l ↦ inr (inr l) ]
        ])
  | inr after ↦ (let j : In x (id ∷ y ∷ ys) = rw (insert_id, after) at i in j)
]

In-sort_ids : (x : String) (xs : List String) → In x (sort_ids xs) → In x xs
unfolding sort_ids
In-sort_ids x [] i = i
In-sort_ids x (y ∷ ys) i = elim (In-insert_id x y (sort_ids ys) i) [
  | inl e ↦ inl e
  | inr j ↦ inr (In-sort_ids x ys j)
]

pub has-In : (id : String) (ids : List String) → In id ids → has ids id ≡ true
has-In id ids i = In-any (λ x. str_eq x id) id ids i ((eq_iff id id).1 refl)

pub In-has : (id : String) (ids : List String) → has ids id ≡ true → In id ids
In-has id ids e =
    let r = any-In (λ x. str_eq x id) ids e in subst (λ x. In x ids) ((eq_iff r.0 id).0 r.2) r.1

-- A complete backup has its manifest, and none of them is incomplete.
pub complete_ids-manifest :
    (is_id : String → Bool) (keys : List Key) (id : String)
    → In id (complete_ids is_id keys)
    → In (manifest_key id) keys
unfolding complete_ids
complete_ids-manifest is_id keys id i =
    let q =
      select-In (λ x. any (same_key (manifest_key x)) (keys_of keys x)) id (ids_from is_id [] keys)
        (In-sort_ids id _ i) in
    (select-In (λ k. str_eq k.id id) (manifest_key id) keys
      (In-gone (manifest_key id) (keys_of keys id) q.1)).0

pub incomplete_ids-complete_ids :
    (is_id : String → Bool) (time_of : String → ℕ) (clock after : ℕ) (keys : List Key) (id : String)
    → In id (incomplete_ids is_id time_of clock after keys)
    → In id (complete_ids is_id keys)
    → ⊥
unfolding incomplete_ids
incomplete_ids-complete_ids is_id time_of clock after keys id i c =
    let q = select-In (λ x. leb (time_of x + after) clock) id _ (In-sort_ids id _ i) in
    let r =
      select-In (λ x. not (has (complete_ids is_id keys) x)) id (ids_from is_id [] keys) q.0 in
    let t : not (has (complete_ids is_id keys) id) ≡ true = r.1 in clash t (ap not (has-In id _ c))

module _ (is_id : String → Bool) (time_of : String → ℕ) (fetch : String → Fetched)
    (held : List String) where
  abbrev pub reads : String → Read
  reads = read_one is_id time_of fetch held

  data ReadKind (id : String) : Type 0 where
    as_candidate :
        (c : Candidate) → reads id ≡ candidate c → c.id ≡ id → c.held ≡ has held id → ReadKind id
    as_stand_in : (c : Candidate) → reads id ≡ stand_in c → c.id ≡ id → c.held ≡ true → ReadKind id
    as_skipped : reads id ≡ skipped → ReadKind id
    as_threw : reads id ≡ threw → ReadKind id

  read_kind : (id : String) → ReadKind id
  unfolding read_one of_manifest standing_in
  read_kind id = go (fetch id) refl
    where
      go : (f : Fetched) → fetch id ≡ f → ReadKind id
      go (found m) e =
          as_candidate (of_manifest is_id time_of fetch held id m) (rw (read_one, e) refl) refl refl
      go not_found e = as_skipped (rw (read_one, e) refl)
      go (unread raw) e =
          as_stand_in (standing_in is_id time_of fetch held id raw) (rw (read_one, e) refl) refl
            refl
      go failed e = as_threw (rw (read_one, e) refl)

  abbrev all_read : List String → Option (List Candidate × List String)
  all_read ids = candidates_of is_id time_of fetch held ids

  pub record Known (ids : List String) (cs : List Candidate) (bad : List String) : Type 0 where
    pub from : (c : Candidate) → In c cs → In c.id ids × (of_read (reads c.id) ≡ some c)
    pub to : (id : String) (c : Candidate) → In id ids → of_read (reads id) ≡ some c → In c cs
    pub bad_of :
        (id : String) → In id bad → (c : Candidate) × In c cs × (c.id ≡ id) × (c.held ≡ true)

  module _ (id : String) (ids : List String) (c : Candidate) (read : of_read (reads id) ≡ some c)
      (own : c.id ≡ id) (cs : List Candidate) (bad : List String) (k : Known ids cs bad) where
    from_more :
        (x : Candidate) → In x (c ∷ cs) → In x.id (id ∷ ids) × (of_read (reads x.id) ≡ some x)
    from_more x (inl e) = (
      inl (ap (λ y. y.id) e ∙ own),
      ap (λ y. of_read (reads y)) (ap (λ y. y.id) e ∙ own) ∙ read ∙ ap some (sym e),
    )
    from_more x (inr i) = let z = k.from x i in (inr z.0, z.1)

    to_more :
        (y : String) (x : Candidate) → In y (id ∷ ids) → of_read (reads y) ≡ some x → In x (c ∷ cs)
    to_more y x (inl e) f = inl (some-injective (sym f ∙ ap (λ z. of_read (reads z)) e ∙ read))
    to_more y x (inr i) f = inr (k.to y x i f)

  pub candidates_of-Known :
      (ids : List String) (cs : List Candidate) (bad : List String)
      → all_read ids ≡ some (cs, bad)
      → Known ids cs bad
  unfolding candidates_of with_read
  candidates_of-Known [] cs bad e =
      let q : ([], []) ≡ (cs, bad) = some-injective e in
      subst (λ x. Known [] x.0 x.1) q
        (record { from = λ c i. absurd i; to = λ id c i f. absurd i; bad_of = λ id i. absurd i })
  candidates_of-Known (id ∷ ids) cs bad e = elim (Option-cases (all_read ids)) [
    | inl threw_later ↦ absurd (no_rest (read_kind id) threw_later)
    | inr ((cs', bad'), f) ↦ one_more (read_kind id) cs' bad' f (candidates_of-Known ids cs' bad' f)
  ]
    where
      no_rest : ReadKind id → all_read ids ≡ none → ⊥
      no_rest (as_candidate c r _ _) f =
          let bad_eq : ◌≡◌ {A = Option (List Candidate × List String)} none (some (cs, bad)) =
            rw (candidates_of, r, f) at e in
          cc
      no_rest (as_stand_in c r _ _) f =
          let bad_eq : ◌≡◌ {A = Option (List Candidate × List String)} none (some (cs, bad)) =
            rw (candidates_of, r, f) at e in
          cc
      no_rest (as_skipped r) f =
          let bad_eq : ◌≡◌ {A = Option (List Candidate × List String)} none (some (cs, bad)) =
            rw (candidates_of, r, f) at e in
          cc
      no_rest (as_threw r) f =
          let bad_eq : ◌≡◌ {A = Option (List Candidate × List String)} none (some (cs, bad)) =
            rw (candidates_of, r) at e in
          cc

      one_more :
          ReadKind id
          → (cs' : List Candidate) (bad' : List String) → all_read ids ≡ some (cs', bad')
          → Known ids cs' bad'
          → Known (id ∷ ids) cs bad
      one_more (as_threw r) cs' bad' f k =
          let bad_eq : ◌≡◌ {A = Option (List Candidate × List String)} none (some (cs, bad)) =
            rw (candidates_of, r) at e in
          cc
      one_more (as_skipped r) cs' bad' f k =
          let q : (cs', bad') ≡ (cs, bad) = some-injective (rw (candidates_of, r, f) at e) in
          subst (λ x. Known (id ∷ ids) x.0 x.1) q
            (record {
              from = λ c i. (let z = k.from c i in (inr z.0, z.1));
              to = λ x c i g. elim i [
                | inl same ↦
                    (let h : of_read skipped ≡ some c =
                        ap of_read (sym r) ∙ ap (λ y. of_read (reads y)) (sym same) ∙ g in
                      cc)
                | inr j ↦ k.to x c j g
              ];
              bad_of = k.bad_of;
            })
      one_more (as_candidate c r own h) cs' bad' f k =
          let q : (c ∷ cs', bad') ≡ (cs, bad) = some-injective (rw (candidates_of, r, f) at e) in
          subst (λ x. Known (id ∷ ids) x.0 x.1) q
            (record {
              from = from_more id ids c (ap of_read r) own cs' bad' k;
              to = to_more id ids c (ap of_read r) own cs' bad' k;
              bad_of = λ x i. (let z = k.bad_of x i in (z.0, inr z.1, z.2, z.3));
            })
      one_more (as_stand_in c r own h) cs' bad' f k =
          let q : (c ∷ cs', c.id ∷ bad') ≡ (cs, bad) =
            some-injective (rw (candidates_of, r, f) at e) in
          subst (λ x. Known (id ∷ ids) x.0 x.1) q
            (record {
              from = from_more id ids c (ap of_read r) own cs' bad' k;
              to = to_more id ids c (ap of_read r) own cs' bad' k;
              bad_of = λ x i. elim i [
                | inl same ↦ (c, inl refl, sym same, h)
                | inr j ↦ (let z = k.bad_of x j in (z.0, inr z.1, z.2, z.3))
              ];
            })

  pub candidates-HasUniqueIds :
      (ids : List String) (cs : List Candidate) (bad : List String)
      → all_read ids ≡ some (cs, bad)
      → HasUniqueIds cs
  candidates-HasUniqueIds ids cs bad e a b i j same =
      let k = candidates_of-Known ids cs bad e in
      some-injective (sym (k.from a i).1 ∙ ap (λ y. of_read (reads y)) same ∙ (k.from b j).1)

  -- What `prune` never removes by its rules: a held backup, or one whose manifest does not read.
  abbrev pub IsSpared : String → Type 0
  IsSpared id = (has held id ≡ true) ⊎ ((raw : Option String) × (fetch id ≡ unread raw))

  pub IsSpared-held :
      (c : Candidate) → of_read (reads c.id) ≡ some c → IsSpared c.id → c.held ≡ true
  unfolding read_one of_manifest standing_in
  IsSpared-held c read spared = go (fetch c.id) refl
    where
      go : (f : Fetched) → fetch c.id ≡ f → c.held ≡ true
      go (found m) e =
          let q : some (of_manifest is_id time_of fetch held c.id m) ≡ some c =
            rw (read_one, e) at read in
          let h : has held c.id ≡ c.held = ap (λ x. x.held) (some-injective q) in
          elim spared [
            | inl yes_held ↦ sym h ∙ yes_held
            | inr (raw, f) ↦ (let bad : ◌≡◌ {A = Fetched} (found m) (unread raw) = sym e ∙ f in cc)
          ]
      go (unread raw) e =
          let q : some (standing_in is_id time_of fetch held c.id raw) ≡ some c =
            rw (read_one, e) at read in
          sym (ap (λ x. x.held) (some-injective q))
      go not_found e =
          let q : ◌≡◌ {A = Option Candidate} none (some c) = rw (read_one, e) at read in cc
      go failed e =
          let q : ◌≡◌ {A = Option Candidate} none (some c) = rw (read_one, e) at read in cc
