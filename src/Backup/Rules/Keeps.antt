-- ===== src/Backup/Rules/Keeps.antt =====
-- What `byRules` keeps: the newest `last`, what is newer than now or within the age, and what is held.
use nxgt_data.Prelude.{
  ℕ, zero, suc, ◌+◌, ◌≡◌, refl, sym, subst, inl, inr, Bool, true, false, ◌||◌, Option, none, some,
  String, str_eq, eq_iff, List, [], ◌∷◌, ◌++◌, take, select, ltb, arith, In, Bool-cases,
  Option-cases,
}
use nxgt_data.Backup.Periods.{Calendar, calendar, period_of}
use nxgt_data.Backup.Rules.{
  Candidate, KeepPolicy, last, within, max_total_size, Reason, Reasons, newest_one, last_of, period,
  nonempty, is_held, newer_than_now, within_it, add, kept_by, value_or, is_past, add_last,
  add_newest, same_as, add_calendar, add_calendars, add_if, is_within, add_own, add_owns,
  no_reasons, by_rules, of_calendar,
}

pub nonempty-append : (xs : List Reason) (why : Reason) → nonempty (xs ++ (why ∷ [])) ≡ true
nonempty-append [] why = refl
nonempty-append (x ∷ xs) why = refl

pub add-keeps :
    (id : String) (why : Reason) (m : Reasons) (k : String)
    → kept_by m k ≡ true
    → kept_by (add id why m) k ≡ true
add-keeps id why m k h = elim (Bool-cases (str_eq k id)) [
  | inl same ↦ rw same (nonempty-append (m k) why)
  | inr differs ↦ rw differs h
]

pub add-itself : (id : String) (why : Reason) (m : Reasons) → kept_by (add id why m) id ≡ true
add-itself id why m =
    let same : str_eq id id ≡ true = (eq_iff id id).1 refl in rw same (nonempty-append (m id) why)

add_if-keeps :
    (b : Bool) (id : String) (why : Reason) (m : Reasons) (k : String)
    → kept_by m k ≡ true
    → kept_by (add_if b id why m) k ≡ true
unfolding add_if
add_if-keeps true id why m k h = add-keeps id why m k h
add_if-keeps false id why m k h = h

add_last-keeps :
    (of i : ℕ) (cs : List Candidate) (m : Reasons) (k : String)
    → kept_by m k ≡ true
    → kept_by (add_last of i cs m) k ≡ true
unfolding add_last
add_last-keeps of i [] m k h = h
add_last-keeps of i (c ∷ cs) m k h =
    add_last-keeps of (i + 1) cs _ k (add-keeps c.id (last_of (i + 1) of) m k h)

add_last-In :
    (of i : ℕ) (cs : List Candidate) (m : Reasons) (c : Candidate)
    → In c cs
    → kept_by (add_last of i cs m) c.id ≡ true
unfolding add_last
add_last-In of i [] m c j = absurd j
add_last-In of i (d ∷ ds) m c (inl e) =
    subst (λ x. kept_by (add_last of (i + 1) ds (add d.id (last_of (i + 1) of) m)) x.id ≡ true)
      (sym e) (add_last-keeps of (i + 1) ds _ d.id (add-itself d.id (last_of (i + 1) of) m))
add_last-In of i (d ∷ ds) m c (inr j) = add_last-In of (i + 1) ds _ c j

add_calendar-keeps :
    (rule : Calendar) (left : ℕ) (previous : Option (List ℕ)) (cs : List Candidate) (m : Reasons)
    (k : String)
    → kept_by m k ≡ true
    → kept_by (add_calendar rule left previous cs m) k ≡ true
unfolding add_calendar
add_calendar-keeps rule left previous [] m k h = h
add_calendar-keeps rule zero previous (c ∷ cs) m k h = h
add_calendar-keeps rule (suc left) previous (c ∷ cs) m k h =
    elim (Bool-cases (same_as previous (period_of rule c.created_at))) [
      | inl same ↦ rw (add_calendar, same) (add_calendar-keeps rule (suc left) previous cs m k h)
      | inr new ↦
          rw (add_calendar, new)
            (add_calendar-keeps rule left _ cs _ k
              (add-keeps c.id (period rule (period_of rule c.created_at)) m k h))
    ]

add_calendars-keeps :
    (rs : List Calendar) (policy : KeepPolicy) (past : List Candidate) (m : Reasons) (k : String)
    → kept_by m k ≡ true
    → kept_by (add_calendars rs policy past m) k ≡ true
unfolding add_calendars
add_calendars-keeps [] policy past m k h = h
add_calendars-keeps (r ∷ rs) policy past m k h =
    add_calendars-keeps rs policy past _ k
      (add_calendar-keeps r (value_or 0 (policy (of_calendar r))) none past m k h)

add_own-keeps :
    (policy : KeepPolicy) (now : ℕ) (c : Candidate) (m : Reasons) (k : String)
    → kept_by m k ≡ true
    → kept_by (add_own policy now c m) k ≡ true
unfolding add_own
add_own-keeps policy now c m k h = add_if-keeps c.held c.id is_held _ k (
    add_if-keeps (ltb now c.created_at) c.id newer_than_now _ k
      (add_if-keeps (is_within (policy within) now c) c.id within_it m k h))

add_owns-keeps :
    (policy : KeepPolicy) (now : ℕ) (cs : List Candidate) (m : Reasons) (k : String)
    → kept_by m k ≡ true
    → kept_by (add_owns policy now cs m) k ≡ true
unfolding add_owns
add_owns-keeps policy now [] m k h = h
add_owns-keeps policy now (c ∷ cs) m k h =
    add_owns-keeps policy now cs _ k (add_own-keeps policy now c m k h)

-- What a backup's own mark and age keep: it is held, or newer than now, or within the age.
abbrev pub keeps_itself : KeepPolicy → ℕ → Candidate → Bool
keeps_itself policy now c = c.held || ltb now c.created_at || is_within (policy within) now c

add_if-itself :
    (b : Bool) (id : String) (why : Reason) (m : Reasons)
    → b ≡ true
    → kept_by (add_if b id why m) id ≡ true
unfolding add_if
add_if-itself true id why m e = add-itself id why m
add_if-itself false id why m e = cc

third_of_three : (a b c : Bool) → a ≡ false → b ≡ false → (a || b || c) ≡ true → c ≡ true
third_of_three a b c na nb h = ground arith

add_own-itself :
    (policy : KeepPolicy) (now : ℕ) (c : Candidate) (m : Reasons)
    → keeps_itself policy now c ≡ true
    → kept_by (add_own policy now c m) c.id ≡ true
unfolding add_own
add_own-itself policy now c m h = elim (Bool-cases c.held) [
  | inl held ↦ add_if-itself c.held c.id is_held _ held
  | inr free ↦ add_if-keeps c.held c.id is_held _ c.id (elim (Bool-cases (ltb now c.created_at)) [
    | inl newer ↦ add_if-itself (ltb now c.created_at) c.id newer_than_now _ newer
    | inr past ↦ add_if-keeps (ltb now c.created_at) c.id newer_than_now _ c.id (
        let young : is_within (policy within) now c ≡ true =
          third_of_three c.held (ltb now c.created_at) (is_within (policy within) now c) free past
            h in
        add_if-itself (is_within (policy within) now c) c.id within_it m young)
  ])
]

add_owns-In :
    (policy : KeepPolicy) (now : ℕ) (cs : List Candidate) (m : Reasons) (c : Candidate)
    → In c cs
    → keeps_itself policy now c ≡ true
    → kept_by (add_owns policy now cs m) c.id ≡ true
unfolding add_owns
add_owns-In policy now [] m c i h = absurd i
add_owns-In policy now (d ∷ ds) m c (inl e) h =
    add_owns-keeps policy now ds _ c.id (
      subst (λ x. kept_by (add_own policy now x m) c.id ≡ true) e (add_own-itself policy now c m h))
add_owns-In policy now (d ∷ ds) m c (inr i) h = add_owns-In policy now ds _ c i h

-- The rules keep a backup that is held, newer than now, or within the age.
pub by_rules-itself :
    (newest : List Candidate) (policy : KeepPolicy) (now : ℕ) (c : Candidate)
    → In c newest
    → keeps_itself policy now c ≡ true
    → kept_by (by_rules newest policy now) c.id ≡ true
unfolding by_rules
by_rules-itself newest policy now c i h = add_owns-In policy now newest _ c i h

add_newest-keeps :
    (policy : KeepPolicy) (past : List Candidate) (m : Reasons) (k : String)
    → kept_by m k ≡ true
    → kept_by (add_newest policy past m) k ≡ true
unfolding add_newest
add_newest-keeps policy past m k h = elim (Option-cases (policy max_total_size)) [
  | inl unset ↦ rw (add_newest, unset) h
  | inr (max, set) ↦ elim (Option-cases (policy last)) [
    | inr (n, counted) ↦ rw (add_newest, set, counted) h
    | inl uncounted ↦ rw (add_newest, set, uncounted) (first past)
  ]
]
  where
    first :
        (cs : List Candidate)
        → kept_by (elim cs [ [] ↦ m | c ∷ _ ↦ add c.id newest_one m ]) k ≡ true
    first [] = h
    first (c ∷ cs) = add-keeps c.id newest_one m k h

-- The rules keep the newest `last` that count.
pub by_rules-last :
    (newest : List Candidate) (policy : KeepPolicy) (now n : ℕ) (c : Candidate)
    → policy last ≡ some n
    → In c (take n (select (is_past now) newest))
    → kept_by (by_rules newest policy now) c.id ≡ true
unfolding by_rules
by_rules-last newest policy now n c set i =
    let past = select (is_past now) newest in
    let v : value_or 0 (policy last) ≡ n = rw set in
    let i' : In c (take (value_or 0 (policy last)) past) =
      subst (λ x. In c (take x past)) (sym v) i in
    add_owns-keeps policy now newest _ c.id (
      add_calendars-keeps calendar policy past _ c.id (
        add_newest-keeps policy past _ c.id
          (add_last-In (value_or 0 (policy last)) 0 _ no_reasons c i')))

add_newest-In :
    (policy : KeepPolicy) (past : List Candidate) (m : Reasons) (max : ℕ) (c : Candidate)
    → policy max_total_size ≡ some max
    → policy last ≡ none
    → In c (take 1 past)
    → kept_by (add_newest policy past m) c.id ≡ true
unfolding add_newest
add_newest-In policy [] m max c set unset i = absurd i
add_newest-In policy (d ∷ ds) m max c set unset (inr i) = absurd i
add_newest-In policy (d ∷ ds) m max c set unset (inl e) =
    rw (add_newest, set, unset)
      (subst (λ x. kept_by (add x.id newest_one m) c.id ≡ true) e (add-itself c.id newest_one m))

-- Where sizes are limited and `last` is not set, the rules keep the newest that counts.
pub by_rules-newest :
    (newest : List Candidate) (policy : KeepPolicy) (now max : ℕ) (c : Candidate)
    → policy max_total_size ≡ some max
    → policy last ≡ none
    → In c (take 1 (select (is_past now) newest))
    → kept_by (by_rules newest policy now) c.id ≡ true
unfolding by_rules
by_rules-newest newest policy now max c set unset i =
    let past = select (is_past now) newest in
    add_owns-keeps policy now newest _ c.id (
      add_calendars-keeps calendar policy past _ c.id
        (add_newest-In policy past _ max c set unset i))
