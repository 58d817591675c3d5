-- ===== src/Backup/Periods.antt =====
-- packages/backup/src/rotation/periods.ts: the calendar rules and the period of a date for each, in
-- UTC. A date is its whole ms since 1970; the fields of a `Date` are what ECMAScript says of UTC
-- time. A period is the list of the numbers that its text joins: `2026-10-03` is 2026, 10, 3.
pub mod Weeks
use nxgt_data.Prelude.{
  ℕ, ◌+◌, ◌-◌, ◌*◌, ◌/◌, ◌%◌, ◌≡◌, ◌∙◌, sym, ap, Bool, true, false, ◌&&◌, List, [], ◌∷◌, leb, ltb,
  ◌==◌, if◌then◌else◌, arith,
}

pub data Calendar : Type 0 where
  hourly daily weekly monthly yearly : Calendar

-- `CALENDAR`: finest first.
abbrev pub calendar : List Calendar
calendar = hourly ∷ daily ∷ weekly ∷ monthly ∷ yearly ∷ []

abbrev ms_per_day : ℕ
ms_per_day = 86400000

pub record Civil : Type 0 where
  pub year : ℕ
  pub month : ℕ
  pub day : ℕ

-- The date of a day, counted from 1970-01-01: in cycles of 400 years that start in March.
pub civil : ℕ → Civil
civil days =
    let z = days + 719468 in
    let day_of_era = z % 146097 in
    let year_of_era =
      (day_of_era - day_of_era / 1460 + day_of_era / 36524 - day_of_era / 146096) / 365 in
    let day_of_year = day_of_era - (365 * year_of_era + year_of_era / 4 - year_of_era / 100) in
    let march = (5 * day_of_year + 2) / 153 in
    let month = if ltb march 10 then march + 3 else march - 9 in
    record {
      year = year_of_era + z / 146097 * 400 + (if leb month 2 then 1 else 0);
      month = month;
      day = day_of_year - (153 * march + 2) / 5 + 1;
    }

-- The day of January 1 of a year from 1970 on.
pub new_year : ℕ → ℕ
new_year y = 365 * (y - 1970) + ((y - 1) / 4 - (y - 1) / 100 + (y - 1) / 400) - 477

-- `getUTCDay`, Sunday 0, with 7 for Sunday.
pub weekday : ℕ → ℕ
weekday days = let d = (days + 4) % 7 in if d == 0 then 7 else d

-- The Thursday of the week.
pub thursday : ℕ → ℕ
thursday days = days + 4 - weekday days

-- `isoWeek`
pub iso_week : ℕ → List ℕ
iso_week days =
    let day = thursday days in let y = (civil day).year in y ∷ (day - new_year y + 7) / 7 ∷ []

-- `periodOf`
unfoldable pub period_of : Calendar → ℕ → List ℕ
unfolding civil new_year weekday thursday iso_week
period_of hourly date =
    let c = civil (date / ms_per_day) in c.year ∷ c.month ∷ c.day ∷ date / 3600000 % 24 ∷ []
period_of daily date = let c = civil (date / ms_per_day) in c.year ∷ c.month ∷ c.day ∷ []
period_of weekly date = iso_week (date / ms_per_day)
period_of monthly date = let c = civil (date / ms_per_day) in c.year ∷ c.month ∷ []
period_of yearly date = let c = civil (date / ms_per_day) in c.year ∷ []

-- `===` of two periods of one rule.
abbrev pub same_period : List ℕ → List ℕ → Bool
same_period [] [] = true
same_period [] (q ∷ qs) = false
same_period (p ∷ ps) [] = false
same_period (p ∷ ps) (q ∷ qs) = (p == q) && same_period ps qs
