-- ===== src/Redis/Cron/Next.antt =====
-- packages/redis/src/queue/schedule/next.ts: when a schedule runs next. `Date` and the time zone
-- are parameters: the date of a day since 1970 and back, the wall time of an instant, and the first
-- instant of a wall time, of which a Date or zone.ts makes a number of ms.
pub mod Loops
pub mod Every
pub mod First
use nxgt_data.Prelude.{
  ℕ, zero, suc, ◌+◌, ◌-◌, ◌*◌, ◌/◌, Bool, true, false, not, ◌&&◌, Option, none, some, if◌then◌else◌,
  ltb, max,
}
use nxgt_data.Redis.Cron.{Cron, Day, matches_day, matches_time, cycle_days}

pub record Wall : Type 0 where
  pub year : ℕ
  pub month : ℕ
  pub day : ℕ
  pub hour : ℕ
  pub minute : ℕ
  pub second : ℕ

pub record Zone : Type 0 where
  pub date : ℕ → Day
  pub day_of : ℕ → ℕ → ℕ → ℕ
  pub wall_of : ℕ → Wall
  pub first_of : Wall → ℕ

abbrev pub day_ms : ℕ
day_ms = 86400000

-- `Date.UTC`, of a day since 1970.
abbrev pub utc : ℕ → ℕ → ℕ → ℕ → ℕ
utc day hour minute second = day * day_ms + (hour * 3600000 + (minute * 60000 + second * 1000))

abbrev pub max_days : ℕ
max_days = cycle_days + 366

-- A `for` loop that returns at the first turn that gives a value.
unfoldable pub first_some : {A : Type 0} → ℕ → ℕ → (ℕ → Option A) → Option A
first_some zero k f = none
first_some (suc n) k f = elim (f k) [ some x ↦ some x | none ↦ first_some n (suc k) f ]

module _ (z : Zone) (cron : Cron) (t : ℕ) where
  abbrev pub start : Wall
  start = z.wall_of t

  abbrev pub start_day : ℕ
  start_day = z.day_of start.year start.month start.day

  abbrev pub start_utc : ℕ
  start_utc = utc start_day start.hour start.minute start.second

  abbrev pub date_at : ℕ → Day
  date_at i = z.date (start_day + i)

  abbrev pub wall_at : Day → ℕ → ℕ → Wall
  wall_at d hour minute = record {
    year = d.year;
    month = d.month;
    day = d.day;
    hour = hour;
    minute = minute;
    second = 0;
  }

  abbrev pub utc_at : Day → ℕ → ℕ → ℕ
  utc_at d hour minute = utc (z.day_of d.year d.month d.day) hour minute 0

  -- One turn of each loop of `nextAfter`.
  unfoldable pub at_minute : Day → ℕ → ℕ → Option ℕ
  at_minute d hour minute =
      if not (matches_time cron hour minute)
      then none
      else if ltb (utc_at d hour minute) start_utc
      then none
      else if ltb t (z.first_of (wall_at d hour minute))
      then some (z.first_of (wall_at d hour minute))
      else none

  unfoldable pub at_hour : Day → ℕ → Option ℕ
  unfolding at_minute first_some
  at_hour d hour = first_some 60 0 (at_minute d hour)

  unfoldable pub at_day : ℕ → Option ℕ
  unfolding at_hour first_some
  at_day i =
      if not (matches_day cron (date_at i).month (date_at i).day (date_at i).weekday)
      then none
      else first_some 24 0 (at_hour (date_at i))

  -- `nextAfter`; `none` where it throws.
  unfoldable pub next_after : Option ℕ
  next_after = first_some max_days 0 at_day

-- `nextEvery`; where `now` is before `due`, the quotient is negative and the `Math.max` gives 1.
unfoldable pub next_every : ℕ → ℕ → ℕ → ℕ
next_every due every now =
    let k = max 1 (if ltb now due then 0 else (now - due) / every + 1) in due + k * every
