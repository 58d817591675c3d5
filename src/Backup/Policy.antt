-- ===== src/Backup/Policy.antt =====
-- packages/backup/src/rotation/policy.ts from `withParents` on: which backups the plan keeps. A Set
-- is the list of what was added to it, a stack has its top first.
pub mod Counts
pub mod Parents
pub mod Origin
pub mod Drops
pub mod Sizes
pub mod Fates
pub mod Removed
pub mod Promises
pub mod Going
use Prim.Native.String.{compare}
use text.Mathlib.Text.{is_lt}
use nxgt_data.Prelude.{
  ℕ, zero, suc, ◌+◌, ◌-◌, ◌≡◌, Bool, true, false, not, ◌&&◌, ◌||◌, Option, none, some, String,
  str_eq, List, [], ◌∷◌, ◌++◌, map, length, take, select, any, leb, ltb, ◌==◌, if◌then◌else◌,
}
use nxgt_data.Backup.Rules.{
  Candidate, KeepPolicy, Rule, last, max_total_size, Reason, Reasons, parent_of, over_size,
  no_rule_keeps, add, kept_by, value_or, is_past, by_rules,
}

abbrev pub has : List String → String → Bool
has ids id = any (λ x. str_eq x id) ids

-- `new Map(newest.map((c) => [c.id, c])).get(id)`: a later one replaces an earlier one.
unfoldable pub by_id : List Candidate → String → Option Candidate
by_id [] id = none
by_id (c ∷ cs) id = elim (by_id cs id) [
  | some d ↦ some d
  | none ↦ if str_eq c.id id then some c else none
]

pub find_parent : List Candidate → Option String → Option Candidate
find_parent newest none = none
find_parent newest (some id) = by_id newest id

-- What the parent of `child` does to the stack `pending`, its top first, and to the reasons.
visit : String → Option Candidate → List Candidate → Reasons → List Candidate × Reasons
visit child none pending m = (pending, m)
visit child (some p) pending m =
    ((if kept_by m p.id then pending else p ∷ pending), add p.id (parent_of child) m)

-- The loop of `withParents`, on fuel.
visit_all : ℕ → List Candidate → List Candidate → Reasons → List Candidate × Reasons
unfolding visit find_parent
visit_all zero newest pending m = (pending, m)
visit_all (suc n) newest [] m = ([], m)
visit_all (suc n) newest (child ∷ pending) m =
    let next = visit child.id (find_parent newest child.parent) pending m in
    visit_all n newest next.0 next.1

abbrev pub reverse_onto {ℓ} : {A : Type ℓ} → List A → List A → List A
reverse_onto [] ys = ys
reverse_onto (x ∷ xs) ys = reverse_onto xs (x ∷ ys)

-- The reasons of the rules, without those of what was dropped.
undropped : Reasons → List String → Reasons
undropped rule dropped id = if has dropped id then [] else rule id

-- `withParents`
unfoldable pub with_parents : List Candidate → Reasons → List String → Reasons
unfolding visit_all undropped
with_parents newest rule dropped =
    let m = undropped rule dropped in
    (visit_all (length newest) newest (reverse_onto (select (λ c. kept_by m c.id) newest) []) m).1

abbrev pub is_parent : String → Candidate → Bool
is_parent id k = elim k.parent [ none ↦ false | some p ↦ str_eq p id ]

find : (Candidate → Bool) → List Candidate → Option Candidate
find p [] = none
find p (c ∷ cs) = if p c then some c else find p cs

-- The ids that the size rule never drops.
pub floor : List Candidate → KeepPolicy → ℕ → List String
floor newest policy now =
    map (λ c. c.id) (take (value_or 1 (policy last)) (select (is_past now) newest))

abbrev pub kept_of : List Candidate → Reasons → List Candidate
kept_of newest m = select (λ c. kept_by m c.id) newest

unfoldable pub may_drop : List Candidate → Reasons → KeepPolicy → ℕ → Candidate → Bool
unfolding floor
may_drop newest m policy now c =
    not (has (floor newest policy now) c.id)
    && not c.held
    && leb c.created_at now
    && not (any (is_parent c.id) (kept_of newest m))

-- `droppable`
unfoldable pub droppable : List Candidate → Reasons → KeepPolicy → ℕ → Option Candidate
unfolding find
droppable newest m policy now =
    find (may_drop newest m policy now) (reverse_onto (kept_of newest m) [])

unfoldable pub total_size : List Candidate → ℕ
total_size [] = 0
total_size (c ∷ cs) = c.stored_size + total_size cs

-- The size loop, on fuel: what it dropped, and `overSize`.
shrink :
    ℕ → List Candidate → Reasons → KeepPolicy → ℕ → ℕ → List String → Option (List String × Bool)
shrink zero newest rule policy now max dropped = none
shrink (suc n) newest rule policy now max dropped =
    elim (leb (total_size (kept_of newest (with_parents newest rule dropped))) max) [
      | true ↦ some (dropped, false)
      | false ↦ elim (droppable newest (with_parents newest rule dropped) policy now) [
        | none ↦ some (dropped, true)
        | some c ↦ shrink n newest rule policy now max (c.id ∷ dropped)
      ]
    ]

unfoldable pub sized : List Candidate → Reasons → KeepPolicy → ℕ → Option (List String × Bool)
unfolding shrink
sized newest rule policy now = elim (policy max_total_size) [
  | none ↦ some ([], false)
  | some max ↦ shrink (suc (length newest)) newest rule policy now max []
]

-- The comparator of `sort`: whether `a` stands before `b`.
before : Candidate → Candidate → Bool
before a b =
    if a.created_at == b.created_at
    then not (is_lt (compare a.id b.id))
    else ltb b.created_at a.created_at

pub insert : Candidate → List Candidate → List Candidate
unfolding before
insert c [] = c ∷ []
insert c (d ∷ ds) = if before c d then c ∷ d ∷ ds else (d ∷ insert c ds)

unfoldable pub newest_first : List Candidate → List Candidate
unfolding insert
newest_first [] = []
newest_first (c ∷ cs) = insert c (newest_first cs)

pub record Decision : Type 0 where
  pub id : String
  pub created_at : ℕ
  pub stored_size : ℕ
  pub reasons : List Reason

pub record Plan : Type 0 where
  pub kept : List Decision
  pub removed : List Decision
  pub over_size : Bool

abbrev pub decision : Candidate → List Reason → Decision
decision c why = record {
  id = c.id;
  created_at = c.created_at;
  stored_size = c.stored_size;
  reasons = why;
}

-- The last loop of `plan`, from its end: each backup's fate, and why.
pub decide : List Candidate → Reasons → Reasons → List String → Bool → Plan
decide [] m rule dropped over = record { kept = []; removed = []; over_size = over }
decide (c ∷ cs) m rule dropped over =
    let rest = decide cs m rule dropped over in
    if kept_by m c.id
    then record rest { kept = decision c (m c.id) ∷ rest.kept }
    else if has dropped c.id || kept_by rule c.id
    then record rest { removed = decision c (over_size ∷ []) ∷ rest.removed }
    else record rest { removed = decision c (no_rule_keeps ∷ []) ∷ rest.removed }

-- `plan`; `none` where the fuel of the size loop is spent, which it never is.
unfoldable pub plan : List Candidate → KeepPolicy → ℕ → Option Plan
unfolding decide
plan candidates policy now =
    let newest = newest_first candidates in
    let rule = by_rules newest policy now in
    elim (sized newest rule policy now) [
      | none ↦ none
      | some done ↦ some (decide newest (with_parents newest rule done.0) rule done.0 done.1)
    ]
