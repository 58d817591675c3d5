-- ===== src/Redis/Cron/Examples.antt =====
-- Tests of the schedules, in a zone whose wall time is UTC.
use nxgt_data.Prelude.{
  ℕ, ◌+◌, ◌*◌, ◌/◌, ◌%◌, ◌≤◌, ◌<◌, ◌≡◌, refl, ◌⊎◌, true, false, none, some, List, [], ◌∷◌, arith,
}
use nxgt_data.Decimal.{value}
use nxgt_data.Redis.Cron.{
  Text, Cron, Day, ok, refused, reversed, field_count, parse_cron, parse_fields, parse_field,
  field_value, bounds, weekday_field, matches_day, reaches, check_reachable,
}
use nxgt_data.Redis.Cron.Values.{IsCron, parse_cron-IsCron}
use nxgt_data.Redis.Cron.Next.{
  Zone, utc, first_some, next_after, next_every, at_minute, at_hour, at_day,
}
use nxgt_data.Redis.Cron.Next.Every.{next_every_least}
use nxgt_data.Redis.Cron.Next.First.{IsZone, Runs, occurs_at, next_after_first}

opened : Unit {0}
unfolding parse_cron parse_fields parse_field field_value bounds matches_day reaches check_reachable
    first_some next_after next_every at_minute at_hour at_day value
opened = tt

abbrev sundays : ℕ → Day
sundays i = record { year = 2000; month = 1; day = 1; weekday = 0 }

-- `*/30 7 * jan 7`
abbrev half_hours : Text
half_hours =
    b'*' ∷ b'/' ∷ b'3' ∷ b'0' ∷ b' ' ∷ b'7' ∷ b' ' ∷ b'*' ∷ b' ' ∷ b'J' ∷ b'a' ∷ b'n' ∷ b' ' ∷ b'7'
    ∷ []

-- `0 0 5-3 * *`
abbrev backwards : Text
backwards = b'0' ∷ b' ' ∷ b'0' ∷ b' ' ∷ b'5' ∷ b'-' ∷ b'3' ∷ b' ' ∷ b'*' ∷ b' ' ∷ b'*' ∷ []

abbrev days_1_to_31 : List ℕ
days_1_to_31 =
    1 ∷ 2 ∷ 3 ∷ 4 ∷ 5 ∷ 6 ∷ 7 ∷ 8 ∷ 9 ∷ 10 ∷ 11 ∷ 12 ∷ 13 ∷ 14 ∷ 15 ∷ 16 ∷ 17 ∷ 18 ∷ 19 ∷ 20 ∷ 21
    ∷ 22 ∷ 23 ∷ 24 ∷ 25 ∷ 26 ∷ 27 ∷ 28 ∷ 29 ∷ 30 ∷ 31 ∷ []

abbrev sunday_cron : Cron
sunday_cron = record {
  minutes = 0 ∷ 30 ∷ [];
  hours = 7 ∷ [];
  days = days_1_to_31;
  months = 1 ∷ [];
  weekdays = 0 ∷ [];
  days_star = true;
  weekdays_star = false;
}

parsed : parse_cron sundays half_hours ≡ ok sunday_cron
unfolding opened
parsed = refl

reversed_range : parse_cron sundays backwards ≡ refused reversed
unfolding opened
reversed_range = refl

too_few : parse_cron sundays (b'*' ∷ []) ≡ refused (field_count 1)
unfolding opened
too_few = refl

-- `7/2` and `0/2` of the days of the week: 7 is Sunday, and a step from it lists nothing.
step_from_seven : parse_field (b'7' ∷ b'/' ∷ b'2' ∷ []) weekday_field ≡ ok []
unfolding opened
step_from_seven = refl

step_from_zero : parse_field (b'0' ∷ b'/' ∷ b'2' ∷ []) weekday_field ≡ ok (0 ∷ 2 ∷ 4 ∷ 6 ∷ [])
unfolding opened
step_from_zero = refl

parse_cron-IsCron_example : IsCron sundays sunday_cron
parse_cron-IsCron_example = parse_cron-IsCron sundays half_hours sunday_cron parsed

next_every_least_example :
    ((k : ℕ) × (1 ≤ k) × (next_every 1000 60 1130 ≡ 1000 + k * 60))
    × (1130 < next_every 1000 60 1130)
    × ((k : ℕ) → 1 ≤ k → 1130 < 1000 + k * 60 → next_every 1000 60 1130 ≤ 1000 + k * 60)
next_every_least_example = next_every_least 1000 60 1130 (omega arith)

ticks : next_every 1000 60 1130 ≡ 1180
unfolding opened
ticks = refl

-- Days with their number as their date, and wall times that are UTC.
abbrev plain : Zone
plain = record {
  date = λ n. record { year = 0; month = 1; day = n; weekday = n % 7 };
  day_of = λ y m d. d;
  wall_of = λ t. record {
    year = 0;
    month = 1;
    day = t / 86400000;
    hour = t % 86400000 / 3600000;
    minute = t % 3600000 / 60000;
    second = t % 60000 / 1000;
  };
  first_of = λ w. utc w.day w.hour w.minute w.second;
}

plain-IsZone : IsZone plain
plain-IsZone = record {
  day_of_date = λ n. refl;
  ordered = λ n n' h h' m m' le. le;
  begun = λ t n h m lt. omega (arith, lt);
}

abbrev early_cron : Cron
early_cron = record {
  minutes = 30 ∷ [];
  hours = 1 ∷ [];
  days = 0 ∷ 1 ∷ 2 ∷ [];
  months = 1 ∷ [];
  weekdays = 0 ∷ 1 ∷ 2 ∷ [];
  days_star = true;
  weekdays_star = true;
}

tomorrow : next_after plain early_cron 5400000 ≡ some 91800000
unfolding opened
tomorrow = refl

next_after_first_example :
    ((x : ℕ) × (next_after plain early_cron 5400000 ≡ some x)
      × (5400000 < x)
      × ((i : ℕ) × (h : ℕ) × (m : ℕ) × Runs plain plain-IsZone early_cron 5400000 i h m
          × (x ≡ occurs_at plain plain-IsZone early_cron 5400000 i h m))
      × ((i h m : ℕ)
          → Runs plain plain-IsZone early_cron 5400000 i h m
          → 5400000 < occurs_at plain plain-IsZone early_cron 5400000 i h m
          → x ≤ occurs_at plain plain-IsZone early_cron 5400000 i h m))
    ⊎ ((next_after plain early_cron 5400000 ≡ none)
        × ((i h m : ℕ)
            → Runs plain plain-IsZone early_cron 5400000 i h m
            → occurs_at plain plain-IsZone early_cron 5400000 i h m ≤ 5400000))
next_after_first_example = next_after_first plain plain-IsZone early_cron 5400000
