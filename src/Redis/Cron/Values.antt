-- ===== src/Redis/Cron/Values.antt =====
-- The values that a parsed cron allows.
use nxgt_data.Prelude.{
  ℕ, zero, suc, ◌+◌, ◌≤◌, ◌<◌, ◌≡◌, refl, subst, ◌⊎◌, inl, inr, true, not, List, [], ◌∷◌, select,
  ◌==◌, arith, In, In-any, select-In, Bool-cases, clash,
}
use nxgt_data.Redis.Cron.{
  Text, Cron, minute_field, hour_field, day_field, month_field, weekday_field, CronError, Parsed,
  ok, refused, parse_field, has_value, fold_sunday, matches_day, Day, cycle_days, reaches,
  check_reachable, parse_fields, parse_cron, words,
}
use nxgt_data.Redis.Cron.Ranges.{AllIn, from_ok, not_refused, parse_field-AllIn}

fold_sunday-le : (vs : List ℕ) → AllIn weekday_field vs → (v : ℕ) → In v (fold_sunday vs) → v ≤ 6
fold_sunday-le vs all_in v i = elim (Bool-cases (has_value vs 7)) [
  | inl sunday ↦
      (let j : In v (0 ∷ select (λ x. not (x == 7)) vs) = rw sunday at i in
        elim j [
          | inl e ↦ omega (arith, e)
          | inr k ↦ (let r = select-In (λ x. not (x == 7)) v vs k in below v (all_in v r.0).1 r.1)
        ])
  | inr none_of ↦
      (let j : In v vs = rw none_of at i in
        elim (Bool-cases (v == 7)) [
          | inl seven ↦ absurd (clash (In-any (λ x. x == 7) v vs j seven) none_of)
          | inr other ↦ below v (all_in v j).1 (rw other)
        ])
]
  where
    below : (v : ℕ) → v ≤ 7 → not (v == 7) ≡ true → v ≤ 6
    below v le n = ground arith

reaches-day :
    (date : ℕ → Day) (cron : Cron) (n i : ℕ)
    → reaches date cron n i ≡ true
    → (d : ℕ) × (d < i + n) × (matches_day cron (date d).month (date d).day (date d).weekday ≡ true)
unfolding reaches
reaches-day date cron zero i e = cc
reaches-day date cron (suc n) i e =
    elim (Bool-cases (matches_day cron (date i).month (date i).day (date i).weekday)) [
      | inl here ↦ (i, omega arith, here)
      | inr later ↦
          (let r = reaches-day date cron n (suc i) (rw (reaches, later) at e) in
            (r.0, omega (arith, r.1), r.2))
    ]

-- What the fields of a `Cron` say: the values that each may hold, and a day that matches.
pub record IsCron (date : ℕ → Day) (cron : Cron) : Type 0 where
  pub minutes : (v : ℕ) → In v cron.minutes → v ≤ 59
  pub hours : (v : ℕ) → In v cron.hours → v ≤ 23
  pub days : (v : ℕ) → In v cron.days → (1 ≤ v) × (v ≤ 31)
  pub months : (v : ℕ) → In v cron.months → (1 ≤ v) × (v ≤ 12)
  pub weekdays : (v : ℕ) → In v cron.weekdays → v ≤ 6
  pub matches :
      (d : ℕ) × (d < cycle_days)
      × (matches_day cron (date d).month (date d).day (date d).weekday ≡ true)

Parsed-cases :
    {A : Type 0} (x : Parsed A) → ((a : A) × (x ≡ ok a)) ⊎ ((r : CronError) × (x ≡ refused r))
Parsed-cases (ok a) = inl (a, refl)
Parsed-cases (refused r) = inr (r, refl)

check_reachable-day :
    (date : ℕ → Day) (cron result : Cron)
    → check_reachable date cron ≡ ok result
    → (cron ≡ result) × (reaches date cron cycle_days 0 ≡ true)
unfolding check_reachable
check_reachable-day date cron result e = elim (Bool-cases (reaches date cron cycle_days 0)) [
  | inl some_day ↦ (from_ok (rw (check_reachable, some_day) at e), some_day)
  | inr never ↦ absurd (not_refused (rw (check_reachable, never) at e))
]

-- A cron that `parseCron` accepts has its values in their ranges (7 folded into 0 for Sunday), and
-- some day of the cycle of 400 years matches it.
pub parse_cron-IsCron :
    (date : ℕ → Day) (text : Text) (cron : Cron) → parse_cron date text ≡ ok cron → IsCron date cron
unfolding parse_cron parse_fields
parse_cron-IsCron date text cron e = of_parts (words text) e
  where
    of_five :
        (a b c d f : Text) → parse_fields date (a ∷ b ∷ c ∷ d ∷ f ∷ []) ≡ ok cron → IsCron date cron
    of_five a b c d f q = elim (Parsed-cases (parse_field a minute_field)) [
      | inr (r, x) ↦ absurd (not_refused (rw (parse_fields, x) at q))
      | inl (minutes, e1) ↦ elim (Parsed-cases (parse_field b hour_field)) [
        | inr (r, x) ↦ absurd (not_refused (rw (parse_fields, e1, x) at q))
        | inl (hours, e2) ↦ elim (Parsed-cases (parse_field c day_field)) [
          | inr (r, x) ↦ absurd (not_refused (rw (parse_fields, e1, e2, x) at q))
          | inl (days, e3) ↦ elim (Parsed-cases (parse_field d month_field)) [
            | inr (r, x) ↦ absurd (not_refused (rw (parse_fields, e1, e2, e3, x) at q))
            | inl (months, e4) ↦ elim (Parsed-cases (parse_field f weekday_field)) [
              | inr (r, x) ↦ absurd (not_refused (rw (parse_fields, e1, e2, e3, e4, x) at q))
              | inl (weekdays, e5) ↦
                  (let z =
                      check_reachable-day date _ cron
                        (rw (parse_fields, e1, e2, e3, e4, e5) at q) in
                    subst (IsCron date) z.0 (record {
                      minutes = λ v i. (parse_field-AllIn a minute_field minutes e1 v i).1;
                      hours = λ v i. (parse_field-AllIn b hour_field hours e2 v i).1;
                      days = parse_field-AllIn c day_field days e3;
                      months = parse_field-AllIn d month_field months e4;
                      weekdays =
                          fold_sunday-le weekdays (parse_field-AllIn f weekday_field weekdays e5);
                      matches =
                          (let y = reaches-day date _ cycle_days 0 z.1 in
                            (y.0, omega (arith, y.1), y.2));
                    }))
            ]
          ]
        ]
      ]
    ]

    of_parts : (parts : List Text) → parse_fields date parts ≡ ok cron → IsCron date cron
    of_parts [] q = absurd (not_refused q)
    of_parts (a ∷ []) q = absurd (not_refused q)
    of_parts (a ∷ b ∷ []) q = absurd (not_refused q)
    of_parts (a ∷ b ∷ c ∷ []) q = absurd (not_refused q)
    of_parts (a ∷ b ∷ c ∷ d ∷ []) q = absurd (not_refused q)
    of_parts (a ∷ b ∷ c ∷ d ∷ f ∷ []) q = of_five a b c d f q
    of_parts (a ∷ b ∷ c ∷ d ∷ f ∷ g ∷ more) q = absurd (not_refused q)
