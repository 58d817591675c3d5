-- ===== src/Backup/Rules/Checks.antt =====
-- What `checkPolicy` accepts.
use nxgt_data.Prelude.{
  ℕ, ◌≤◌, ◌≡◌, ◌≢◌, ◌↔◌, refl, ap, arith, ◌⊎◌, inl, inr, Bool, true, false, Option, none, some,
  List, [], ◌∷◌, In, Bool-cases, Option-cases,
}
use nxgt_data.Backup.Periods.{hourly, daily, weekly, monthly, yearly}
use nxgt_data.Backup.Rules.{
  Rule, last, of_calendar, within, max_total_size, rules, Value, whole, other, Refusal, bad_rule,
  good, check_rules, check_policy,
}

abbrev Policy : Type 0
Policy = Rule → Option Value

rules-In : (r : Rule) → In r rules
rules-In last = inl refl
rules-In (of_calendar hourly) = inr (inl refl)
rules-In (of_calendar daily) = inr (inr (inl refl))
rules-In (of_calendar weekly) = inr (inr (inr (inl refl)))
rules-In (of_calendar monthly) = inr (inr (inr (inr (inl refl))))
rules-In (of_calendar yearly) = inr (inr (inr (inr (inr (inl refl)))))
rules-In within = inr (inr (inr (inr (inr (inr (inl refl))))))
rules-In max_total_size = inr (inr (inr (inr (inr (inr (inr (inl refl)))))))

record Accepted (rs : List Rule) (policy : Policy) (seen : Bool) : Type 0 where
  any_set : (seen ≡ true) ⊎ ((r : Rule) × (v : Value) × (policy r ≡ some v))
  all_good : (r : Rule) (v : Value) → In r rs → policy r ≡ some v → good v ≡ true

-- A whole number from 1 to the largest safe integer.
abbrev pub IsCount : Value → Type 0
IsCount v = (n : ℕ) × (v ≡ whole n) × (1 ≤ n) × (n ≤ 9007199254740991)

other-ne-whole : (n : ℕ) → ◌≢◌ {A = Value} other (whole n)
other-ne-whole n e = cc

good_iff : (v : Value) → (good v ≡ true) ↔ IsCount v
unfolding good
good_iff other = (λ e. cc, λ (n, e, _, _). absurd (other-ne-whole n e))
good_iff (whole n) = (
  λ e. (n, refl, ground arith, ground arith),
  λ (m, e, low, high).
      let same : n ≡ m = ap (λ v. elim v [ other ↦ 0 | whole k ↦ k ]) e in ground arith,
)

check_rules-accepts :
    (rs : List Rule) (policy : Policy) (seen : Bool)
    → check_rules rs policy seen ≡ none
    → Accepted rs policy seen
unfolding check_rules
check_rules-accepts [] policy true e = record { any_set = inl refl; all_good = λ r v i. absurd i }
check_rules-accepts [] policy false e = cc
check_rules-accepts (r ∷ rs) policy seen e = elim (Option-cases (policy r)) [
  | inl unset ↦
      (let rest = check_rules-accepts rs policy seen (rw (check_rules, unset) at e) in
        record {
          any_set = rest.any_set;
          all_good = λ q v i set. elim i [ inl same ↦ cc | inr j ↦ rest.all_good q v j set ];
        })
  | inr (v, set) ↦ elim (Bool-cases (good v)) [
    | inr bad ↦
        let no : ◌≡◌ {A = Option Refusal} (some (bad_rule r)) none =
          rw (check_rules, set, bad) at e in
        cc
    | inl fine ↦
        (let rest = check_rules-accepts rs policy true (rw (check_rules, set, fine) at e) in
          record {
            any_set = inr (r, v, set);
            all_good = λ q w i set'. elim i [ inl same ↦ cc | inr j ↦ rest.all_good q w j set' ];
          })
  ]
]

check_rules-good :
    (rs : List Rule) (policy : Policy) (seen : Bool)
    → (seen ≡ true) ⊎ ((r : Rule) × (v : Value) × In r rs × (policy r ≡ some v))
    → ((r : Rule) (v : Value) → policy r ≡ some v → good v ≡ true)
    → check_rules rs policy seen ≡ none
unfolding check_rules
check_rules-good [] policy true s g = refl
check_rules-good [] policy false (inl e) g = cc
check_rules-good [] policy false (inr (r, v, i, e)) g = absurd i
check_rules-good (r ∷ rs) policy seen s g = elim (Option-cases (policy r)) [
  | inr (v, set) ↦ rw (check_rules, set, g r v set) (check_rules-good rs policy true (inl refl) g)
  | inl unset ↦
      rw (check_rules, unset)
        (check_rules-good rs policy seen
          (elim s [
            | inl e ↦ inl e
            | inr (q, v, inl same, set) ↦ cc
            | inr (q, v, inr j, set) ↦ inr (q, v, j, set)
          ])
          g)
]

-- A policy is accepted exactly when it sets a rule, and each rule that it sets is a whole number
-- from 1 to 9007199254740991, the largest safe integer.
pub check_policy_iff :
    (policy : Rule → Option Value)
    → (check_policy policy ≡ none) ↔ (
        ((r : Rule) × (v : Value) × (policy r ≡ some v))
        × ((r : Rule) (v : Value) → policy r ≡ some v → IsCount v))
unfolding check_policy
check_policy_iff policy = (to, from)
  where
    to :
        check_policy policy ≡ none
        → ((r : Rule) × (v : Value) × (policy r ≡ some v))
          × ((r : Rule) (v : Value) → policy r ≡ some v → IsCount v)
    to e =
        let a = check_rules-accepts rules policy false e in
        (
          elim a.any_set [ inl bad ↦ cc | inr s ↦ s ],
          λ r v set. (good_iff v).0 (a.all_good r v (rules-In r) set),
        )

    from :
        ((r : Rule) × (v : Value) × (policy r ≡ some v))
          × ((r : Rule) (v : Value) → policy r ≡ some v → IsCount v)
        → check_policy policy ≡ none
    from (s, g) =
        check_rules-good rules policy false (inr (s.0, s.1, rules-In s.0, s.2))
          (λ r v set. (good_iff v).1 (g r v set))
