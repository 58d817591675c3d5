-- ===== src/Redis/Cron.antt =====
-- packages/redis/src/queue/schedule/cron.ts: a five-field cron, from its text. A text is the list of
-- its UTF-16 codes, a set of values the list of what was added to it.
pub mod Ranges
pub mod Values
pub mod Next
mod Examples
use nxgt_data.Prelude.{
  ℕ, zero, suc, ◌+◌, Bool, true, false, not, ◌&&◌, ◌||◌, Option, none, some, List, [], ◌∷◌, ◌++◌,
  length, select, any, all, ltb, leb, ◌==◌, if◌then◌else◌,
}
use nxgt_data.Decimal.{is_digit, value}

abbrev pub Text : Type 0
Text = List ℕ

pub record Cron : Type 0 where
  pub minutes : List ℕ
  pub hours : List ℕ
  pub days : List ℕ
  pub months : List ℕ
  pub weekdays : List ℕ
  pub days_star : Bool
  pub weekdays_star : Bool

-- A `Field`, with the names of its values from `name_base` on.
pub record Field : Type 0 where
  pub min_value : ℕ
  pub max_value : ℕ
  pub value_names : List Text
  pub name_base : ℕ

abbrev months_names : List Text
months_names =
    (b'j' ∷ b'a' ∷ b'n' ∷ [])
    ∷ (b'f' ∷ b'e' ∷ b'b' ∷ [])
    ∷ (b'm' ∷ b'a' ∷ b'r' ∷ [])
    ∷ (b'a' ∷ b'p' ∷ b'r' ∷ [])
    ∷ (b'm' ∷ b'a' ∷ b'y' ∷ [])
    ∷ (b'j' ∷ b'u' ∷ b'n' ∷ [])
    ∷ (b'j' ∷ b'u' ∷ b'l' ∷ [])
    ∷ (b'a' ∷ b'u' ∷ b'g' ∷ [])
    ∷ (b's' ∷ b'e' ∷ b'p' ∷ [])
    ∷ (b'o' ∷ b'c' ∷ b't' ∷ [])
    ∷ (b'n' ∷ b'o' ∷ b'v' ∷ [])
    ∷ (b'd' ∷ b'e' ∷ b'c' ∷ [])
    ∷ []

abbrev weekdays_names : List Text
weekdays_names =
    (b's' ∷ b'u' ∷ b'n' ∷ [])
    ∷ (b'm' ∷ b'o' ∷ b'n' ∷ [])
    ∷ (b't' ∷ b'u' ∷ b'e' ∷ [])
    ∷ (b'w' ∷ b'e' ∷ b'd' ∷ [])
    ∷ (b't' ∷ b'h' ∷ b'u' ∷ [])
    ∷ (b'f' ∷ b'r' ∷ b'i' ∷ [])
    ∷ (b's' ∷ b'a' ∷ b't' ∷ [])
    ∷ []

-- `FIELDS`
abbrev pub minute_field : Field
minute_field = record { min_value = 0; max_value = 59; value_names = []; name_base = 0 }

abbrev pub hour_field : Field
hour_field = record { min_value = 0; max_value = 23; value_names = []; name_base = 0 }

abbrev pub day_field : Field
day_field = record { min_value = 1; max_value = 31; value_names = []; name_base = 0 }

abbrev pub month_field : Field
month_field = record { min_value = 1; max_value = 12; value_names = months_names; name_base = 1 }

abbrev pub weekday_field : Field
weekday_field = record { min_value = 0; max_value = 7; value_names = weekdays_names; name_base = 0 }

-- What a `refusal` says.
pub data CronError : Type 0 where
  field_count : ℕ → CronError
  many_slashes zero_step not_range not_a_step not_a_value out_of_range reversed never_matches :
      CronError

pub data Parsed (A : Type 0) : Type 0 where
  ok : A → Parsed A
  refused : CronError → Parsed A

infixl 5 ◌>>=◌
abbrev pub ◌>>=◌ : {A B : Type 0} → Parsed A → (A → Parsed B) → Parsed B
ok a >>= k = k a
refused e >>= k = refused e

abbrev same_text : Text → Text → Bool
same_text [] [] = true
same_text [] (d ∷ ds) = false
same_text (c ∷ cs) [] = false
same_text (c ∷ cs) (d ∷ ds) = (c == d) && same_text cs ds

abbrev onto : ℕ → List Text → List Text
onto c [] = (c ∷ []) ∷ []
onto c (p ∷ ps) = (c ∷ p) ∷ ps

-- `text.split(sep)`, by the characters that pass a test.
split : (ℕ → Bool) → Text → List Text
split sep [] = [] ∷ []
split sep (c ∷ cs) = let rest = split sep cs in if sep c then [] ∷ rest else onto c rest

-- White space, for `trim` and `\s`.
is_space : ℕ → Bool
is_space c =
    (leb 9 c && leb c 13)
    || (c == 32)
    || (c == 160)
    || (c == 5760)
    || (leb 8192 c && leb c 8202)
    || (c == 8232)
    || (c == 8233)
    || (c == 8239)
    || (c == 8287)
    || (c == 12288)
    || (c == 65279)

abbrev nonempty : Text → Bool
nonempty [] = false
nonempty (c ∷ cs) = true

-- `text.trim().split(/\s+/)`
words : Text → List Text
unfolding split is_space
words text = elim (select nonempty (split is_space text)) [ [] ↦ [] ∷ [] | w ∷ ws ↦ w ∷ ws ]

-- `toLowerCase`, as far as a name of a value can tell.
lower : ℕ → ℕ
lower c = if leb b'A' c && leb c b'Z' then c + 32 else c

lowered : Text → Text
unfolding lower
lowered [] = []
lowered (c ∷ cs) = lower c ∷ lowered cs

index_of : List Text → Text → Option ℕ
index_of [] text = none
index_of (n ∷ ns) text =
    let rest = index_of ns text in
    if same_text n text then some 0 else elim rest [ none ↦ none | some i ↦ some (suc i) ]

-- `number`, which refuses with what it was to be.
number : CronError → Text → Parsed ℕ
number what text = if nonempty text && all is_digit text then ok (value text) else refused what

-- `value`
unfoldable pub field_value : Field → Text → Parsed ℕ
unfolding lowered index_of number
field_value field text = do
  v ← elim (index_of field.value_names (lowered text)) [
    | some i ↦ ok (i + field.name_base)
    | none ↦ number not_a_value text
  ]
  if ltb v field.min_value || ltb field.max_value v then refused out_of_range else ok v

-- A star never reaches 7.
abbrev pub star_end : Field → ℕ
star_end field = if field.max_value == 7 then 6 else field.max_value

abbrev pub is_star : Text → Bool
is_star text = same_text text (b'*' ∷ [])

ends : Bool → Field → List Text → Parsed (ℕ × ℕ)
unfolding field_value
ends stepped field [] = refused not_range
ends stepped field (a ∷ []) = do
  from ← field_value field a
  ok (from, if stepped then star_end field else from)
ends stepped field (a ∷ b ∷ []) = do
  from ← field_value field a
  until ← field_value field b
  if ltb until from then refused reversed else ok (from, until)
ends stepped field (a ∷ b ∷ extra ∷ more) = refused not_range

-- `bounds`
unfoldable pub bounds : Text → Bool → Field → Parsed (ℕ × ℕ)
unfolding ends split
bounds range stepped field =
    if is_star range
    then ok (field.min_value, star_end field)
    else ends stepped field (split (λ c. c == b'-') range)

-- The loop of `parseField` over one item, on fuel.
pub count_up : ℕ → ℕ → ℕ → ℕ → List ℕ
count_up zero v until stride = []
count_up (suc n) v until stride =
    let rest = count_up n (v + stride) until stride in if leb v until then v ∷ rest else []

abbrev pub values_of : ℕ × ℕ → ℕ → List ℕ
values_of ends stride = count_up (suc ends.1) ends.0 ends.1 stride

-- The item of a field: its range, and its step, if it has one.
ranged : Field → Text → Bool → ℕ → Parsed (List ℕ)
unfolding bounds count_up
ranged field range stepped stride =
    if ltb stride 1
    then refused zero_step
    else (bounds range stepped field >>= λ e. ok (values_of e stride))

item_values : Field → List Text → Parsed (List ℕ)
unfolding ranged number
item_values field [] = refused many_slashes
item_values field (range ∷ []) = ranged field range false 1
item_values field (range ∷ step ∷ []) =
    number not_a_step step >>= λ stride. ranged field range true stride
item_values field (range ∷ step ∷ extra ∷ more) = refused many_slashes

items_values : Field → List Text → Parsed (List ℕ)
unfolding item_values split
items_values field [] = ok []
items_values field (item ∷ items) = do
  vs ← item_values field (split (λ c. c == b'/') item)
  rest ← items_values field items
  ok (vs ++ rest)

-- `parseField`
unfoldable pub parse_field : Text → Field → Parsed (List ℕ)
unfolding items_values split
parse_field text field = items_values field (split (λ c. c == b',') text)

abbrev pub has_value : List ℕ → ℕ → Bool
has_value vs v = any (λ x. x == v) vs

-- `weekdays.delete(7)` and `weekdays.add(0)`.
abbrev pub fold_sunday : List ℕ → List ℕ
fold_sunday vs = if has_value vs 7 then 0 ∷ select (λ x. not (x == 7)) vs else vs

abbrev pub starts_with_star : Text → Bool
starts_with_star [] = false
starts_with_star (c ∷ cs) = c == b'*'

-- `matchesDay`
unfoldable pub matches_day : Cron → ℕ → ℕ → ℕ → Bool
matches_day cron month day weekday =
    if not (has_value cron.months month)
    then false
    else if cron.days_star || cron.weekdays_star
    then has_value cron.days day && has_value cron.weekdays weekday
    else has_value cron.days day || has_value cron.weekdays weekday

-- `matchesTime`
abbrev pub matches_time : Cron → ℕ → ℕ → Bool
matches_time cron hour minute = has_value cron.hours hour && has_value cron.minutes minute

-- The date of a day, which a `Date` gives in UTC.
pub record Day : Type 0 where
  pub year : ℕ
  pub month : ℕ
  pub day : ℕ
  pub weekday : ℕ

abbrev pub cycle_days : ℕ
cycle_days = 146097

-- The loop of `checkReachable`, from the i-th day on.
unfoldable pub reaches : (ℕ → Day) → Cron → ℕ → ℕ → Bool
unfolding matches_day
reaches date cron zero i = false
reaches date cron (suc n) i =
    let rest = reaches date cron n (suc i) in
    if matches_day cron (date i).month (date i).day (date i).weekday then true else rest

-- `checkReachable`
unfoldable pub check_reachable : (ℕ → Day) → Cron → Parsed Cron
unfolding reaches
check_reachable date cron =
    if reaches date cron cycle_days 0 then ok cron else refused never_matches

unfoldable pub parse_fields : (ℕ → Day) → List Text → Parsed Cron
unfolding parse_field
parse_fields date (a ∷ b ∷ c ∷ d ∷ e ∷ []) = do
  minutes ← parse_field a minute_field
  hours ← parse_field b hour_field
  days ← parse_field c day_field
  months ← parse_field d month_field
  weekdays ← parse_field e weekday_field
  check_reachable date (record {
    minutes = minutes;
    hours = hours;
    days = days;
    months = months;
    weekdays = fold_sunday weekdays;
    days_star = starts_with_star c;
    weekdays_star = starts_with_star e;
  })
parse_fields date parts = refused (field_count (length parts))

-- `parseCron`; `date` gives the days from 2000-01-01 on.
unfoldable pub parse_cron : (ℕ → Day) → Text → Parsed Cron
unfolding parse_fields words
parse_cron date text = parse_fields date (words text)
