-- ===== src/Redis/Cron/Next/First.antt =====
-- The next run is the first one.
use nxgt_data.Prelude.{
  ℕ, ◌+◌, ◌≤◌, ◌<◌, ◌≡◌, sym, ap, subst, ◌⊎◌, inl, inr, true, Option, none, some, ltb, ltb→lt,
  arith, Bool-cases, Option-cases,
}
use nxgt_data.Redis.Cron.{Cron, matches_day, matches_time}
use nxgt_data.Redis.Cron.Next.{
  Zone, utc, max_days, first_some, start_day, start_utc, date_at, wall_at, utc_at, at_minute,
  at_hour, at_day, next_after,
}
use nxgt_data.Redis.Cron.Next.Loops.{some_eq, not_some, first_some-Found, first_some-none}

-- What `nextAfter` relies on of dates and time zones: a day is the day of its date, a later wall
-- time has no earlier first instant, and a wall time before that of an instant began by then.
pub record IsZone (z : Zone) : Type 0 where
  pub day_of_date : (n : ℕ) → z.day_of (z.date n).year (z.date n).month (z.date n).day ≡ n
  pub ordered :
      (n n' h h' m m' : ℕ)
      → utc n h m 0 ≤ utc n' h' m' 0
      → z.first_of (record {
        year = (z.date n).year;
        month = (z.date n).month;
        day = (z.date n).day;
        hour = h;
        minute = m;
        second = 0;
      })
        ≤ z.first_of (record {
          year = (z.date n').year;
          month = (z.date n').month;
          day = (z.date n').day;
          hour = h';
          minute = m';
          second = 0;
        })
  pub begun :
      (t n h m : ℕ)
      → utc n h m 0
        < utc
            (z.day_of (z.wall_of t).year (z.wall_of t).month (z.wall_of t).day)
            (z.wall_of t).hour
            (z.wall_of t).minute
            (z.wall_of t).second
      → z.first_of (record {
        year = (z.date n).year;
        month = (z.date n).month;
        day = (z.date n).day;
        hour = h;
        minute = m;
        second = 0;
      })
        ≤ t

module _ (z : Zone) (zone : IsZone z) (cron : Cron) (t : ℕ) where
  -- The first instant of a minute of the i-th day.
  abbrev pub occurs_at : ℕ → ℕ → ℕ → ℕ
  occurs_at i h m = z.first_of (wall_at z cron t (date_at z cron t i) h m)

  -- A minute that the search walks and that the cron matches.
  pub record Runs (i h m : ℕ) : Type 0 where
    pub in_range : i < max_days
    pub hour : h < 24
    pub minute : m < 60
    pub on_day :
        matches_day cron
          (date_at z cron t i).month
          (date_at z cron t i).day
          (date_at z cron t i).weekday
        ≡ true
    pub at_time : matches_time cron h m ≡ true

  utc_day :
      (i h m : ℕ) → utc_at z cron t (date_at z cron t i) h m ≡ utc (start_day z cron t + i) h m 0
  utc_day i h m = ap (λ n. utc n h m 0) (zone.day_of_date (start_day z cron t + i))

  at_minute-none :
      (i h m : ℕ)
      → at_minute z cron t (date_at z cron t i) h m ≡ none
      → matches_time cron h m ≡ true
      → occurs_at i h m ≤ t
  unfolding at_minute
  at_minute-none i h m e on =
      elim (Bool-cases (ltb (utc_at z cron t (date_at z cron t i) h m) (start_utc z cron t))) [
        | inl skipped ↦
            zone.begun t (start_day z cron t + i) h m
              (subst (λ x. x < start_utc z cron t) (utc_day i h m) (ltb→lt _ _ skipped))
        | inr asked ↦ elim (Bool-cases (ltb t (occurs_at i h m))) [
          | inr past ↦ ground arith
          | inl later ↦
              (let bad : ◌≡◌ {A = Option ℕ} (some (occurs_at i h m)) none =
                  rw (at_minute, on, asked, later) at e in
                cc)
        ]
      ]

  at_minute-some :
      (i h m x : ℕ)
      → at_minute z cron t (date_at z cron t i) h m ≡ some x
      → (matches_time cron h m ≡ true) × (x ≡ occurs_at i h m) × (t < x)
  unfolding at_minute
  at_minute-some i h m x e = elim (Bool-cases (matches_time cron h m)) [
    | inr off ↦ absurd (not_some (rw (at_minute, off) at e))
    | inl on ↦
        elim (Bool-cases (ltb (utc_at z cron t (date_at z cron t i) h m) (start_utc z cron t))) [
          | inl skipped ↦ absurd (not_some (rw (at_minute, on, skipped) at e))
          | inr asked ↦ elim (Bool-cases (ltb t (occurs_at i h m))) [
            | inr past ↦ absurd (not_some (rw (at_minute, on, asked, past) at e))
            | inl later ↦
                (let same : occurs_at i h m ≡ x = some_eq (rw (at_minute, on, asked, later) at e) in
                  (on, sym same, subst (λ y. t < y) same (ltb→lt _ _ later)))
          ]
        ]
  ]

  -- What an hour, and a day, that give nothing hold.
  at_hour-none :
      (i h m : ℕ)
      → at_hour z cron t (date_at z cron t i) h ≡ none
      → m < 60
      → matches_time cron h m ≡ true
      → occurs_at i h m ≤ t
  unfolding at_hour
  at_hour-none i h m e lt on =
      at_minute-none i h m
        (first_some-none 60 0 (at_minute z cron t (date_at z cron t i) h) e m (omega arith)
          (omega (arith, lt)))
        on

  at_day-none : (i h m : ℕ) → at_day z cron t i ≡ none → Runs i h m → occurs_at i h m ≤ t
  unfolding at_day
  at_day-none i h m e r =
      let e' : first_some 24 0 (at_hour z cron t (date_at z cron t i)) ≡ none =
        rw (at_day, r.on_day) at e in
      at_hour-none i h m
        (first_some-none 24 0 (at_hour z cron t (date_at z cron t i)) e' h (omega arith)
          (omega (arith, r.hour)))
        r.minute r.at_time

  -- The turns of the three loops at which the search returned.
  record Stopped (x : ℕ) : Type 0 where
    i : ℕ
    h : ℕ
    m : ℕ
    runs : Runs i h m
    at_x : x ≡ occurs_at i h m
    later : t < x
    days_before : (j : ℕ) → j < i → at_day z cron t j ≡ none
    hours_before : (j : ℕ) → j < h → at_hour z cron t (date_at z cron t i) j ≡ none
    minutes_before : (j : ℕ) → j < m → at_minute z cron t (date_at z cron t i) h j ≡ none

  stopped : (x : ℕ) → next_after z cron t ≡ some x → Stopped x
  unfolding next_after at_day at_hour
  stopped x e =
      let d = first_some-Found max_days 0 (at_day z cron t) x e in
      elim (Bool-cases (
        matches_day cron (date_at z cron t d.turn).month (date_at z cron t d.turn).day
          (date_at z cron t d.turn).weekday)) [
            | inr off ↦ absurd (not_some (rw (at_day, off) at d.gives))
            | inl on ↦
                (let h =
                    first_some-Found 24 0 (at_hour z cron t (date_at z cron t d.turn)) x
                      (rw (at_day, on) at d.gives) in
                  let m =
                    first_some-Found 60 0 (at_minute z cron t (date_at z cron t d.turn) h.turn) x
                      h.gives in
                  let s = at_minute-some d.turn h.turn m.turn x m.gives in
                  record {
                    i = d.turn;
                    h = h.turn;
                    m = m.turn;
                    runs = record {
                      in_range = omega (arith, d.below);
                      hour = omega (arith, h.below);
                      minute = omega (arith, m.below);
                      on_day = on;
                      at_time = s.0;
                    };
                    at_x = s.1;
                    later = s.2;
                    days_before = λ j lt. d.before j (omega arith) lt;
                    hours_before = λ j lt. h.before j (omega arith) lt;
                    minutes_before = λ j lt. m.before j (omega arith) lt;
                  })
          ]

  in_order :
      (i h m i' h' m' : ℕ)
      → utc (start_day z cron t + i) h m 0 ≤ utc (start_day z cron t + i') h' m' 0
      → occurs_at i h m ≤ occurs_at i' h' m'
  in_order i h m i' h' m' le =
      zone.ordered (start_day z cron t + i) (start_day z cron t + i') h h' m m' le

  tri : (a b : ℕ) → (a < b) ⊎ (a ≡ b) ⊎ (b < a)
  tri a b = elim (Bool-cases (ltb a b)) [
    | inl below ↦ inl (ltb→lt a b below)
    | inr p ↦ elim (Bool-cases (ltb b a)) [
      | inl above ↦ inr (inr (ltb→lt b a above))
      | inr q ↦ inr (inl (ground arith))
    ]
  ]

  not_yet : {a : ℕ} → a ≤ t → t < a → ⊥
  not_yet le lt = omega (arith, le, lt)

  no_earlier :
      (x : ℕ) → Stopped x → (i h m : ℕ) → Runs i h m → t < occurs_at i h m → x ≤ occurs_at i h m
  no_earlier x s i h m r lt = elim (tri i s.i) [
    | inl earlier_day ↦ absurd (not_yet (at_day-none i h m (s.days_before i earlier_day) r) lt)
    | inr (inr later_day) ↦ ordered_from i h m (
        in_order s.i s.h s.m i h m
          (days_apart s.i s.h s.m i h m later_day s.runs.hour s.runs.minute))
    | inr (inl same_day) ↦
        subst (λ j. Runs j h m → t < occurs_at j h m → x ≤ occurs_at j h m) (sym same_day)
          (on_day h m) r lt
  ]
    where
      ordered_from : (i h m : ℕ) → occurs_at s.i s.h s.m ≤ occurs_at i h m → x ≤ occurs_at i h m
      ordered_from i h m le = subst (λ y. y ≤ occurs_at i h m) (sym s.at_x) le

      days_apart :
          (i h m i' h' m' : ℕ)
          → i < i'
          → h < 24
          → m < 60
          → utc (start_day z cron t + i) h m 0 ≤ utc (start_day z cron t + i') h' m' 0
      days_apart i h m i' h' m' a b c = omega (arith, a, b, c)

      hours_apart : (n h m h' m' : ℕ) → h < h' → m < 60 → utc n h m 0 ≤ utc n h' m' 0
      hours_apart n h m h' m' a b = omega (arith, a, b)

      minutes_apart : (n h m m' : ℕ) → m ≤ m' → utc n h m 0 ≤ utc n h m' 0
      minutes_apart n h m m' a = omega (arith, a)

      in_hour : (m : ℕ) → Runs s.i s.h m → t < occurs_at s.i s.h m → x ≤ occurs_at s.i s.h m
      in_hour m r lt = elim (Bool-cases (ltb m s.m)) [
        | inl earlier ↦ absurd (
            not_yet (at_minute-none s.i s.h m (s.minutes_before m (ltb→lt m s.m earlier)) r.at_time)
              lt)
        | inr q ↦
            let le : s.m ≤ m = ground arith in
            ordered_from s.i s.h m (
              in_order s.i s.h s.m s.i s.h m
                (minutes_apart (start_day z cron t + s.i) s.h s.m m le))
      ]

      on_day : (h m : ℕ) → Runs s.i h m → t < occurs_at s.i h m → x ≤ occurs_at s.i h m
      on_day h m r lt = elim (tri h s.h) [
        | inl earlier ↦
            absurd (not_yet (at_hour-none s.i h m (s.hours_before h earlier) r.minute r.at_time) lt)
        | inr (inr later) ↦ ordered_from s.i h m (
            in_order s.i s.h s.m s.i h m
              (hours_apart (start_day z cron t + s.i) s.h s.m h m later s.runs.minute))
        | inr (inl same) ↦
            subst (λ j. Runs s.i j m → t < occurs_at s.i j m → x ≤ occurs_at s.i j m) (sym same)
              (in_hour m) r lt
      ]

  -- Where `first_of` and the dates are as documented: `nextAfter` gives an instant after `t` at which
  -- the cron runs, and none that the search walks is earlier; or it gives nothing, and none that the
  -- search walks is after `t`.
  pub next_after_first :
      ((x : ℕ) × (next_after z cron t ≡ some x)
        × (t < x)
        × ((i : ℕ) × (h : ℕ) × (m : ℕ) × Runs i h m × (x ≡ occurs_at i h m))
        × ((i h m : ℕ) → Runs i h m → t < occurs_at i h m → x ≤ occurs_at i h m))
      ⊎ ((next_after z cron t ≡ none) × ((i h m : ℕ) → Runs i h m → occurs_at i h m ≤ t))
  unfolding next_after
  next_after_first = elim (Option-cases (next_after z cron t)) [
    | inr (x, e) ↦
        (let s = stopped x e in
          inl (x, e, s.later, (s.i, s.h, s.m, s.runs, s.at_x), no_earlier x s))
    | inl e ↦ inr (
      e,
      λ i h m r.
          at_day-none i h m
            (first_some-none max_days 0 (at_day z cron t) e i (omega arith)
              (omega (arith, r.in_range)))
            r,
    )
  ]
