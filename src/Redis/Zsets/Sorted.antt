-- ===== src/Redis/Zsets/Sorted.antt =====
-- Sorted sets as lists of members with their scores, the least score first, which keep the laws of
-- Zsets.
use nxgt_data.Prelude.{
  ℕ, ◌≡◌, refl, sym, ◌∙◌, subst, true, false, Option, none, some, String, List, [], ◌∷◌, map,
  str_eq, str_eq_refl, eq_iff, ltb, Bool-cases, inl, inr, clash, In, ◌⊎◌, if◌then◌else◌,
}
use nxgt_data.Redis.Zsets.{Zsets, IsDistinct}

abbrev pub Rows : Type 0
Rows = List (String × ℕ)

abbrev pub ids : Rows → List String
ids rows = map (λ r. r.0) rows

abbrev pub score_of : Rows → String → Option ℕ
score_of [] j = none
score_of ((i, n) ∷ rows) j = if str_eq i j then some n else score_of rows j

abbrev pub insert : ℕ → String → Rows → Rows
insert n i [] = (i, n) ∷ []
insert n i ((j, m) ∷ rows) =
    let rest = insert n i rows in if ltb n m then (i, n) ∷ (j, m) ∷ rows else (j, m) ∷ rest

abbrev pub without : String → Rows → Rows
without i [] = []
without i ((j, m) ∷ rows) = let rest = without i rows in if str_eq i j then rest else (j, m) ∷ rest

-- Two texts equal to a third one are equal.
alike : (k i j : String) → str_eq k j ≡ true → str_eq i j ≡ true → str_eq k i ≡ true
alike k i j p q = (eq_iff k i).1 ((eq_iff k j).0 p ∙ sym ((eq_iff i j).0 q))

fresh_head :
    (k i : String) (m : ℕ) (rows : Rows)
    → score_of ((k, m) ∷ rows) i ≡ none
    → (str_eq k i ≡ false) × (score_of rows i ≡ none)
fresh_head k i m rows fresh = elim (Bool-cases (str_eq k i)) [
  | inl e ↦ (let bad : some m ≡ none = rw e at fresh in cc)
  | inr e ↦ (e, rw e at fresh)
]

score_of-insert :
    (n : ℕ) (i j : String) (rows : Rows)
    → score_of rows i ≡ none
    → score_of (insert n i rows) j ≡ (if str_eq i j then some n else score_of rows j)
score_of-insert n i j [] fresh = refl
score_of-insert n i j ((k, m) ∷ rows) fresh =
    let f = fresh_head k i m rows fresh in
    elim (Bool-cases (ltb n m)) [
      | inl first ↦ rw first
      | inr later ↦ (elim (Bool-cases (str_eq k j)) [
        | inl e ↦ elim (Bool-cases (str_eq i j)) [
          | inl same ↦ absurd (clash (alike k i j e same) f.0)
          | inr differs ↦ rw (later, e, differs)
        ]
        | inr e ↦ rw (later, e) (score_of-insert n i j rows f.1)
      ])
    ]

pub score_of-without :
    (i j : String) (rows : Rows)
    → score_of (without i rows) j ≡ (if str_eq i j then none else score_of rows j)
score_of-without i j [] = elim (Bool-cases (str_eq i j)) [ inl e ↦ rw e | inr e ↦ rw e ]
score_of-without i j ((k, m) ∷ rows) = elim (Bool-cases (str_eq i k)) [
  | inl e ↦ elim (Bool-cases (str_eq i j)) [
    | inl same ↦ rw (e, score_of-without i j rows, same)
    | inr differs ↦
        (let k_j : str_eq k j ≡ false =
            subst (λ x. str_eq x j ≡ false) ((eq_iff i k).0 e) differs in
          rw (e, score_of-without i j rows, differs, k_j))
  ]
  | inr e ↦ elim (Bool-cases (str_eq k j)) [
    | inl same ↦
        (let i_j : str_eq i j ≡ false = subst (λ x. str_eq i x ≡ false) ((eq_iff k j).0 same) e in
          rw (e, same, i_j))
    | inr differs ↦ rw (e, differs) (score_of-without i j rows)
  ]
]

pub ids-score : (j : String) (rows : Rows) → In j (ids rows) → (n : ℕ) × (score_of rows j ≡ some n)
ids-score j [] m = absurd m
ids-score j ((k, n) ∷ rows) m = elim (Bool-cases (str_eq k j)) [
  | inl e ↦ (n, rw e)
  | inr e ↦ elim m [
    | inl s ↦ absurd (clash ((eq_iff k j).1 (sym s)) e)
    | inr r ↦ (let f = ids-score j rows r in (f.0, rw e f.1))
  ]
]

In-insert :
    (n : ℕ) (i j : String) (rows : Rows) → In j (ids (insert n i rows)) → (j ≡ i) ⊎ In j (ids rows)
In-insert n i j [] m = m
In-insert n i j ((k, l) ∷ rows) m = elim (Bool-cases (ltb n l)) [
  | inl first ↦ rw first at m
  | inr later ↦
      (let m' : (j ≡ k) ⊎ In j (ids (insert n i rows)) = rw later at m in
        elim m' [
          | inl e ↦ inr (inl e)
          | inr r ↦ elim (In-insert n i j rows r) [ inl e ↦ inl e | inr s ↦ inr (inr s) ]
        ])
]

In-without :
    (i j : String) (rows : Rows)
    → In j (ids (without i rows))
    → (str_eq i j ≡ false) × In j (ids rows)
In-without i j [] m = absurd m
In-without i j ((k, l) ∷ rows) m = elim (Bool-cases (str_eq i k)) [
  | inl e ↦
      (let m' : In j (ids (without i rows)) = rw e at m in
        let r = In-without i j rows m' in (r.0, inr r.1))
  | inr e ↦
      (let m' : (j ≡ k) ⊎ In j (ids (without i rows)) = rw e at m in
        elim m' [
          | inl s ↦ (subst (λ x. str_eq i x ≡ false) (sym s) e, inl s)
          | inr r ↦ (let f = In-without i j rows r in (f.0, inr f.1))
        ])
]

pub insert-IsDistinct :
    (n : ℕ) (i : String) (rows : Rows)
    → (In i (ids rows) → ⊥)
    → IsDistinct (ids rows)
    → IsDistinct (ids (insert n i rows))
insert-IsDistinct n i [] fresh d = ((λ m. m), tt)
insert-IsDistinct n i ((k, l) ∷ rows) fresh d = elim (Bool-cases (ltb n l)) [
  | inl first ↦ rw first (fresh, d)
  | inr later ↦ rw later (
    (λ m. elim (In-insert n i k rows m) [ inl e ↦ fresh (inl (sym e)) | inr r ↦ d.0 r ]),
    insert-IsDistinct n i rows (λ m. fresh (inr m)) d.1,
  )
]

pub without-IsDistinct :
    (i : String) (rows : Rows) → IsDistinct (ids rows) → IsDistinct (ids (without i rows))
without-IsDistinct i [] d = tt
without-IsDistinct i ((k, l) ∷ rows) d = elim (Bool-cases (str_eq i k)) [
  | inl e ↦ rw e (without-IsDistinct i rows d.1)
  | inr e ↦ rw e ((λ m. d.0 (In-without i k rows m).1), without-IsDistinct i rows d.1)
]

pub record Sorted : Type 0 where
  pub rows : Rows
  pub distinct : IsDistinct (ids rows)

pub not_there : (i : String) (rows : Rows) → In i (ids (without i rows)) → ⊥
not_there i rows m = clash (str_eq_refl i) (In-without i i rows m).0

none_there : (i : String) (rows : Rows) → score_of (without i rows) i ≡ none
none_there i rows = score_of-without i i rows ∙ rw (str_eq_refl i)

pub score_of-put :
    (n : ℕ) (i j : String) (rows : Rows)
    → score_of (insert n i (without i rows)) j ≡ (if str_eq i j then some n else score_of rows j)
score_of-put n i j rows =
    score_of-insert n i j (without i rows) (none_there i rows) ∙ (elim (Bool-cases (str_eq i j)) [
      | inl e ↦ rw e
      | inr e ↦ rw (e, score_of-without i j rows, e)
    ])

abbrev pub sorted_sets : Zsets
sorted_sets = record {
  Zset = Sorted;
  score = λ z j. score_of z.rows j;
  zadd = λ n i z. record {
    rows = insert n i (without i z.rows);
    distinct =
        insert-IsDistinct n i (without i z.rows) (not_there i z.rows)
          (without-IsDistinct i z.rows z.distinct);
  };
  zrem =
      λ i z. record { rows = without i z.rows; distinct = without-IsDistinct i z.rows z.distinct };
  members = λ z. ids z.rows;
  score-zadd = λ n i j z. score_of-put n i j z.rows;
  score-zrem = λ i j z. score_of-without i j z.rows;
  members-score = λ z j m. ids-score j z.rows m;
  members-IsDistinct = λ z. z.distinct;
}

abbrev pub empty_set : Sorted
empty_set = record { rows = []; distinct = tt }
