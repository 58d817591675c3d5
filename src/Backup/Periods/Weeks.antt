-- ===== src/Backup/Periods/Weeks.antt =====
-- The weekly rule: what `isoWeek` tells apart.
use nxgt_data.Prelude.{
  ℕ, ◌+◌, ◌-◌, ◌*◌, ◌/◌, ◌%◌, ◌≤◌, ◌<◌, ◌≡◌, ◌↔◌, refl, ◌∙◌, sym, ap, subst, true, List, [], ◌∷◌,
  leb, ltb, if◌then◌else◌, arith, Bool-cases, inl, inr,
}
use nxgt_data.Backup.Periods.{weekly, civil, new_year, weekday, thursday, iso_week, period_of}

thursday_lem : (days : ℕ) → thursday days ≡ (days + 3) / 7 * 7
unfolding thursday weekday
thursday_lem days = ground arith

-- A year that starts in March starts no later than a day of it, counted in its cycle.
era_start :
    (d q c e y : ℕ)
    → d < 146097
    → q ≡ d / 1460
    → c ≡ d / 36524
    → e ≡ d / 146096
    → y ≡ (d - q + c - e) / 365
    → 365 * y + y / 4 - y / 100 ≤ d
era_start d q c e y lt hq hc he hy = omega arith

-- January 1 of the calendar year of a day from January on, and of a day before.
start_year :
    (d e y : ℕ)
    → d < 146097
    → y < 400
    → 365 * y + y / 4 - y / 100 ≤ d
    → 719468 ≤ d + e * 146097
    → 306 ≤ d - (365 * y + y / 4 - y / 100)
    → new_year (y + e * 400 + 1) ≤ d + e * 146097 - 719468
unfolding new_year
start_year d e y lt ly le h m = omega arith

start_year_early :
    (d e y : ℕ)
    → d < 146097
    → y < 400
    → 365 * y + y / 4 - y / 100 ≤ d
    → 719468 ≤ d + e * 146097
    → new_year (y + e * 400 + 0) ≤ d + e * 146097 - 719468
unfolding new_year
start_year_early d e y lt ly le h = omega arith

late_march :
    (day : ℕ)
    → leb
        (if ltb ((5 * day + 2) / 153) 10 then (5 * day + 2) / 153 + 3 else (5 * day + 2) / 153 - 9)
        2
      ≡ true
    → 306 ≤ day
late_march day e = ground arith

new_year-civil : (t : ℕ) → new_year (civil t).year ≤ t
unfolding civil
new_year-civil t =
    let z = t + 719468 in
    let d = z % 146097 in
    let e = z / 146097 in
    let y = (d - d / 1460 + d / 36524 - d / 146096) / 365 in
    let lt : d < 146097 = omega arith in
    let few : y < 400 = omega arith in
    let starts = era_start d (d / 1460) (d / 36524) (d / 146096) y lt refl refl refl refl in
    let past : 719468 ≤ d + e * 146097 = omega arith in
    let day = d - (365 * y + y / 4 - y / 100) in
    let march = (5 * day + 2) / 153 in
    let month = if ltb march 10 then march + 3 else march - 9 in
    let now : d + e * 146097 - 719468 ≡ t = omega arith in
    elim (Bool-cases (leb month 2)) [
      | inl late ↦ rw late (
          subst (λ n. new_year (y + e * 400 + 1) ≤ n) now
            (start_year d e y lt few starts past (late_march day late)))
      | inr early ↦ rw early (
          subst (λ n. new_year (y + e * 400 + 0) ≤ n) now
            (start_year_early d e y lt few starts past))
    ]

same_run : (a b y : ℕ) → y ≤ a * 7 → y ≤ b * 7 → (a * 7 - y + 7) / 7 ≡ (b * 7 - y + 7) / 7 → a ≡ b
same_run a b y la lb e = omega arith

-- The year and the number of the week of a day, by its Thursday.
abbrev numbered : ℕ → List ℕ
numbered t = (civil t).year ∷ (t - new_year (civil t).year + 7) / 7 ∷ []

head_of : List ℕ → ℕ
head_of [] = 0
head_of (x ∷ xs) = x

second_of : List ℕ → ℕ
unfolding head_of
second_of [] = 0
second_of (x ∷ xs) = head_of xs

numbered_same : (a b : ℕ) → numbered (a * 7) ≡ numbered (b * 7) → a ≡ b
unfolding head_of second_of
numbered_same a b e =
    let year : (civil (a * 7)).year ≡ (civil (b * 7)).year = ap head_of e in
    let week : (a * 7 - new_year (civil (a * 7)).year + 7) / 7
        ≡ (b * 7 - new_year (civil (b * 7)).year + 7) / 7 =
      ap second_of e in
    same_run a b (new_year (civil (a * 7)).year) (new_year-civil (a * 7))
      (subst (λ y. new_year y ≤ b * 7) (sym year) (new_year-civil (b * 7)))
      (week ∙ ap (λ y. (b * 7 - new_year y + 7) / 7) (sym year))

period-numbered : (a : ℕ) → period_of weekly a ≡ numbered ((a / 86400000 + 3) / 7 * 7)
unfolding period_of iso_week
period-numbered a = ap numbered (thursday_lem (a / 86400000))

-- The weekly rule counts from Monday to Sunday: two dates have the same period exactly when their
-- days fall in the same of the runs of seven days from Monday 1969-12-29 on.
pub week-period_of_iff :
    (a b : ℕ)
    → (period_of weekly a ≡ period_of weekly b) ↔ ((a / 86400000 + 3) / 7 ≡ (b / 86400000 + 3) / 7)
week-period_of_iff a b = (
  λ e. numbered_same _ _ (sym (period-numbered a) ∙ e ∙ period-numbered b),
  λ e. period-numbered a ∙ ap (λ q. numbered (q * 7)) e ∙ sym (period-numbered b),
)
