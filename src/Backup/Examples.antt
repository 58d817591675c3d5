-- ===== src/Backup/Examples.antt =====
-- Tests of the backup rotation, and what its properties say of a small repository.
use mathlib.Core.List.{Perm}
use nxgt_data.Prelude.{
  ◌+◌, ◌/◌, ◌≡◌, ◌↔◌, refl, sym, ap, ◌∙◌, str_eq, eq_iff, ◌≤◌, ◌<◌, ◌⊎◌, inl, inr, true, false,
  Option, none, some, String, List, [], ◌∷◌, ◌++◌, In,
}
use nxgt_data.Backup.Periods.{hourly, daily, weekly, monthly, yearly, period_of}
use nxgt_data.Backup.Periods.Weeks.{week-period_of_iff}
use nxgt_data.Backup.Rules.{
  Candidate, KeepPolicy, Rule, last, of_calendar, within, max_total_size, Value, whole,
  check_policy, by_rules,
}
use nxgt_data.Backup.Rules.Checks.{IsCount, check_policy_iff}
use nxgt_data.Backup.Policy.{
  Plan, plan, total_size, newest_first, sized, with_parents, by_id, may_drop, droppable,
}
use nxgt_data.Backup.Policy.Fates.{ids, candidate_ids, decision_sizes}
use nxgt_data.Backup.Policy.Promises.{
  HasUniqueIds, plan-some, plan-Perm, plan-parent, plan-protected, plan-size, MustStay,
}

abbrev base_backup : Candidate
base_backup = record {
  id = "a";
  created_at = 1000;
  stored_size = 10;
  parent = none;
  held = false;
  stand_in = false;
}

abbrev middle_backup : Candidate
middle_backup = record {
  id = "b";
  created_at = 2000;
  stored_size = 3;
  parent = none;
  held = false;
  stand_in = false;
}

abbrev child_backup : Candidate
child_backup = record {
  id = "c";
  created_at = 3000;
  stored_size = 4;
  parent = some "a";
  held = true;
  stand_in = false;
}

abbrev backups : List Candidate
backups = base_backup ∷ middle_backup ∷ child_backup ∷ []

-- `{ last: 2, maxTotalSize: 5 }`
abbrev two_small : KeepPolicy
two_small last = some 2
two_small (of_calendar _) = none
two_small within = none
two_small max_total_size = some 5

-- `{ last: 1 }`
abbrev only_last : KeepPolicy
only_last last = some 1
only_last (of_calendar _) = none
only_last within = none
only_last max_total_size = none

abbrev plan_of : Option Plan → Plan
plan_of none = record { kept = []; removed = []; over_size = false }
plan_of (some p) = p

differ : (s t : String) → str_eq s t ≡ false → s ≡ t → ⊥
differ s t e q = let same = (eq_iff s t).1 q in cc

opened : Unit {0}
unfolding plan total_size newest_first by_rules sized with_parents by_id may_drop droppable
    period_of
opened = tt

weekly_period : period_of weekly 1790985600000 ≡ 2026 ∷ 40 ∷ []
unfolding period_of
weekly_period = refl

daily_period : period_of daily 1790985600000 ≡ 2026 ∷ 10 ∷ 3 ∷ []
unfolding period_of
daily_period = refl

week-period_of_iff_example :
    (period_of weekly 1790985600000 ≡ period_of weekly 1790899200000)
    ↔ ((1790985600000 / 86400000 + 3) / 7 ≡ (1790899200000 / 86400000 + 3) / 7)
week-period_of_iff_example = week-period_of_iff 1790985600000 1790899200000

abbrev kept_last : Plan
kept_last = plan_of (plan backups only_last 5000)

plan_last : ids kept_last.kept ≡ "c" ∷ "a" ∷ []
unfolding opened
plan_last = refl

abbrev small : Plan
small = plan_of (plan backups two_small 5000)

plan_small : small.over_size ≡ true
unfolding opened
plan_small = refl

kept_small : ids small.kept ≡ "c" ∷ "b" ∷ "a" ∷ []
unfolding opened
kept_small = refl

found_last : plan backups only_last 5000 ≡ some kept_last
unfolding opened
found_last = refl

found_small : plan backups two_small 5000 ≡ some small
unfolding opened
found_small = refl

-- The three ids differ.
backups-HasUniqueIds : HasUniqueIds backups
backups-HasUniqueIds a b (inl p) (inl q) e = p ∙ sym q
backups-HasUniqueIds a b (inl p) (inr (inl q)) e =
    absurd (differ "a" "b" refl (sym (ap (λ x. x.id) p) ∙ (e ∙ ap (λ x. x.id) q)))
backups-HasUniqueIds a b (inl p) (inr (inr (inl q))) e =
    absurd (differ "a" "c" refl (sym (ap (λ x. x.id) p) ∙ (e ∙ ap (λ x. x.id) q)))
backups-HasUniqueIds a b (inr (inl p)) (inl q) e =
    absurd (differ "b" "a" refl (sym (ap (λ x. x.id) p) ∙ (e ∙ ap (λ x. x.id) q)))
backups-HasUniqueIds a b (inr (inl p)) (inr (inl q)) e = p ∙ sym q
backups-HasUniqueIds a b (inr (inl p)) (inr (inr (inl q))) e =
    absurd (differ "b" "c" refl (sym (ap (λ x. x.id) p) ∙ (e ∙ ap (λ x. x.id) q)))
backups-HasUniqueIds a b (inr (inr (inl p))) (inl q) e =
    absurd (differ "c" "a" refl (sym (ap (λ x. x.id) p) ∙ (e ∙ ap (λ x. x.id) q)))
backups-HasUniqueIds a b (inr (inr (inl p))) (inr (inl q)) e =
    absurd (differ "c" "b" refl (sym (ap (λ x. x.id) p) ∙ (e ∙ ap (λ x. x.id) q)))
backups-HasUniqueIds a b (inr (inr (inl p))) (inr (inr (inl q))) e = p ∙ sym q
backups-HasUniqueIds a b (inr (inr (inr p))) j e = absurd p
backups-HasUniqueIds a b (inl p) (inr (inr (inr q))) e = absurd q
backups-HasUniqueIds a b (inr (inl p)) (inr (inr (inr q))) e = absurd q
backups-HasUniqueIds a b (inr (inr (inl p))) (inr (inr (inr q))) e = absurd q

plan-some_example : (r : Plan) × (plan backups two_small 5000 ≡ some r)
plan-some_example = plan-some backups two_small 5000

plan-Perm_example : Perm (ids small.kept ++ ids small.removed) (candidate_ids backups)
plan-Perm_example = plan-Perm backups two_small 5000 small found_small

plan-parent_example : In "a" (ids kept_last.kept)
unfolding opened
plan-parent_example =
    plan-parent backups only_last 5000 kept_last found_last backups-HasUniqueIds child_backup
      base_backup (inr (inr (inl refl))) (inl refl) refl (inl refl)

plan-protected_example : In "c" (ids kept_last.kept)
plan-protected_example =
    plan-protected backups only_last 5000 kept_last found_last backups-HasUniqueIds child_backup
      (inr (inr (inl refl))) (inl refl)

plan-size_example :
    ((small.over_size ≡ false) × (decision_sizes small.kept ≤ 5))
    ⊎ ((small.over_size ≡ true)
        × (5 < decision_sizes small.kept)
        × ((c : Candidate)
            → In c backups
            → In c.id (ids small.kept)
            → MustStay backups two_small 5000 small c))
plan-size_example = plan-size backups two_small 5000 small found_small 5 refl

-- `{ daily: 7 }`, as a caller gives it.
abbrev one_week : Rule → Option Value
one_week last = none
one_week (of_calendar hourly) = none
one_week (of_calendar daily) = some (whole 7)
one_week (of_calendar weekly) = none
one_week (of_calendar monthly) = none
one_week (of_calendar yearly) = none
one_week within = none
one_week max_total_size = none

check_policy_iff_example : (check_policy one_week ≡ none) ↔ (
    ((r : Rule) × (v : Value) × (one_week r ≡ some v))
    × ((r : Rule) (v : Value) → one_week r ≡ some v → IsCount v))
check_policy_iff_example = check_policy_iff one_week
