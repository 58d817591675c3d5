-- ===== src/Backup/Rules.antt =====
-- packages/backup/src/rotation/policy.ts, up to `byRules`: the policy, its checks, and why the
-- rules alone keep a backup. Times are ms since 1970, sizes are
-- bytes. The Map of reasons is a function from ids, with no reason for an id that it does not have;
-- a Set is the list of what was added. A reason is a constructor in place of its text.
pub mod Keeps
pub mod Checks
use Prim.Native.String.{compare}
use text.Mathlib.Text.{is_lt}
use nxgt_data.Prelude.{
  ℕ, zero, suc, ◌+◌, ◌-◌, ◌≡◌, Bool, true, false, not, ◌&&◌, ◌||◌, Option, none, some, String,
  str_eq, List, [], ◌∷◌, ◌++◌, map, length, take, select, any, leb, ltb, ◌==◌, if◌then◌else◌,
}
use nxgt_data.Backup.Periods.{
  Calendar, hourly, daily, weekly, monthly, yearly, calendar, period_of, same_period,
}

-- The rules of a `KeepPolicy`, which is what each is set to.
pub data Rule : Type 0 where
  last : Rule
  of_calendar : Calendar → Rule
  within max_total_size : Rule

-- `RULES`
abbrev pub rules : List Rule
rules = last ∷ (map of_calendar calendar ++ (within ∷ max_total_size ∷ []))

abbrev pub KeepPolicy : Type 0
KeepPolicy = Rule → Option ℕ

-- A value that a caller gives: a whole number, or anything else.
pub data Value : Type 0 where
  whole : ℕ → Value
  other : Value

pub data Refusal : Type 0 where
  bad_rule : Rule → Refusal
  no_rule : Refusal

abbrev pub max_safe : ℕ
max_safe = 9007199254740991

-- `Number.isSafeInteger(value) && value >= 1`
unfoldable pub good : Value → Bool
good (whole n) = leb n max_safe && leb 1 n
good other = false

check_rules : List Rule → (Rule → Option Value) → Bool → Option Refusal
check_rules [] policy seen = if seen then none else some no_rule
check_rules (r ∷ rs) policy seen = elim (policy r) [
  | none ↦ check_rules rs policy seen
  | some v ↦ elim (good v) [ false ↦ some (bad_rule r) | true ↦ check_rules rs policy true ]
]

-- `checkPolicy`: what it throws, if anything.
unfoldable pub check_policy : (Rule → Option Value) → Option Refusal
unfolding check_rules
check_policy policy = check_rules rules policy false

pub record Candidate : Type 0 where
  pub id : String
  pub created_at : ℕ
  pub stored_size : ℕ
  pub parent : Option String
  pub held : Bool
  pub stand_in : Bool

pub data Reason : Type 0 where
  last_of : ℕ → ℕ → Reason
  newest_one newer_than_now within_it is_held over_size no_rule_keeps : Reason
  period : Calendar → List ℕ → Reason
  parent_of : String → Reason

abbrev pub Reasons : Type 0
Reasons = String → List Reason

-- `reasons.get(id)?.push(why)`
abbrev pub add : String → Reason → Reasons → Reasons
add id why m k = if str_eq k id then m k ++ (why ∷ []) else m k

abbrev pub nonempty {ℓ} : {A : Type ℓ} → List A → Bool
nonempty [] = false
nonempty (_ ∷ _) = true

-- `reasons.get(id)?.length`
abbrev pub kept_by : Reasons → String → Bool
kept_by m id = nonempty (m id)

abbrev pub value_or : ℕ → Option ℕ → ℕ
value_or d none = d
value_or d (some n) = n

-- A backup that the rules count: not newer than `now`, and no stand-in.
abbrev pub is_past : ℕ → Candidate → Bool
is_past now c = not c.stand_in && leb c.created_at now

add_last : ℕ → ℕ → List Candidate → Reasons → Reasons
add_last of i [] m = m
add_last of i (c ∷ cs) m = add_last of (i + 1) cs (add c.id (last_of (i + 1) of) m)

add_newest : KeepPolicy → List Candidate → Reasons → Reasons
add_newest policy past m = elim (policy max_total_size) [
  | none ↦ m
  | some _ ↦ elim (policy last) [
    | some _ ↦ m
    | none ↦ elim past [ [] ↦ m | c ∷ _ ↦ add c.id newest_one m ]
  ]
]

-- `period === previous`
same_as : Option (List ℕ) → List ℕ → Bool
same_as none p = false
same_as (some q) p = same_period p q

add_calendar : Calendar → ℕ → Option (List ℕ) → List Candidate → Reasons → Reasons
unfolding same_as
add_calendar rule left previous [] m = m
add_calendar rule zero previous (c ∷ cs) m = m
add_calendar rule (suc left) previous (c ∷ cs) m =
    elim (same_as previous (period_of rule c.created_at)) [
      | true ↦ add_calendar rule (suc left) previous cs m
      | false ↦
          add_calendar rule left (some (period_of rule c.created_at)) cs
            (add c.id (period rule (period_of rule c.created_at)) m)
    ]

add_calendars : List Calendar → KeepPolicy → List Candidate → Reasons → Reasons
add_calendars [] policy past m = m
add_calendars (rule ∷ rs) policy past m =
    add_calendars rs policy past
      (add_calendar rule (value_or 0 (policy (of_calendar rule))) none past m)

add_if : Bool → String → Reason → Reasons → Reasons
add_if true id why m = add id why m
add_if false id why m = m

-- `age >= 0 && age <= policy.within`, where `within` is set.
pub is_within : Option ℕ → ℕ → Candidate → Bool
is_within none now c = false
is_within (some w) now c = leb c.created_at now && leb (now - c.created_at) w

add_own : KeepPolicy → ℕ → Candidate → Reasons → Reasons
unfolding add_if is_within
add_own policy now c m = add_if c.held c.id is_held (
    add_if (ltb now c.created_at) c.id newer_than_now
      (add_if (is_within (policy within) now c) c.id within_it m))

add_owns : KeepPolicy → ℕ → List Candidate → Reasons → Reasons
add_owns policy now [] m = m
add_owns policy now (c ∷ cs) m = add_owns policy now cs (add_own policy now c m)

no_reasons : Reasons
no_reasons _ = []

-- `byRules`
unfoldable pub by_rules : List Candidate → KeepPolicy → ℕ → Reasons
unfolding add_last add_newest add_calendar add_calendars add_own add_owns no_reasons
by_rules newest policy now =
    let past = select (is_past now) newest in
    add_owns policy now newest (
      add_calendars calendar policy past (
        add_newest policy past
          (let n = value_or 0 (policy last) in add_last n 0 (take n past) no_reasons)))
