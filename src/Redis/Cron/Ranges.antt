-- ===== src/Redis/Cron/Ranges.antt =====
-- The values that a field of a cron lists.
use nxgt_data.Prelude.{
  ℕ, zero, suc, ◌+◌, ◌*◌, ◌≤◌, ◌<◌, ◌≡◌, refl, sym, ap, subst, inl, inr, Bool, true, false, ◌||◌,
  List, [], ◌∷◌, ◌++◌, ltb, leb, leb→le, le→leb, ◌==◌, if◌then◌else◌, arith, In, In-append,
  Bool-cases,
}
use nxgt_data.Redis.Cron.{
  Text, Field, CronError, out_of_range, reversed, not_a_step, Parsed, ok, refused, ◌>>=◌, split,
  number, field_value, star_end, is_star, ends, bounds, count_up, values_of, ranged, item_values,
  items_values, parse_field,
}

abbrev pub IsIn : Field → ℕ → Type 0
IsIn field v = (field.min_value ≤ v) × (v ≤ field.max_value)

bind_ok :
    {A B : Type 0} (x : Parsed A) (k : A → Parsed B) (b : B)
    → (x >>= k) ≡ ok b
    → (a : A) × (x ≡ ok a) × (k a ≡ ok b)
bind_ok (ok a) k b e = (a, refl, e)
bind_ok (refused r) k b e = cc

pub from_ok : {A : Type 0} {a b : A} → ok a ≡ ok b → a ≡ b
from_ok {a = a} e = ap (λ x. elim x [ ok y ↦ y | refused _ ↦ a ]) e

pub not_refused : {A : Type 0} {r : CronError} {a : A} → ◌≡◌ {A = Parsed A} (refused r) (ok a) → ⊥
not_refused e = cc

or_parts : (a b : Bool) → (a || b) ≡ false → (a ≡ false) × (b ≡ false)
or_parts true b e = cc
or_parts false b e = (refl, e)

within_range : (v low high : ℕ) → (ltb v low || ltb high v) ≡ false → (low ≤ v) × (v ≤ high)
within_range v low high e =
    let p = or_parts (ltb v low) (ltb high v) e in
    let a : ltb v low ≡ false = p.0 in
    let b : ltb high v ≡ false = p.1 in (ground arith, ground arith)

field_value-IsIn :
    (field : Field) (text : Text) (v : ℕ) → field_value field text ≡ ok v → IsIn field v
unfolding field_value
field_value-IsIn field text v e =
    let r =
      bind_ok _
        (λ x. if ltb x field.min_value || ltb field.max_value x then refused out_of_range else ok x)
        v e in
    elim (Bool-cases (ltb r.0 field.min_value || ltb field.max_value r.0)) [
      | inl outside ↦ absurd (not_refused (rw outside at r.2))
      | inr inside ↦
          (let same : ok r.0 ≡ ok v = rw inside at r.2 in
            subst (IsIn field) (from_ok same)
              (within_range r.0 field.min_value field.max_value inside))
    ]

star_end-le : (field : Field) → star_end field ≤ field.max_value
star_end-le field = ground arith

-- The two ends of a range, which the values lie between.
abbrev IsRange : Field → ℕ × ℕ → Type 0
IsRange field e = (field.min_value ≤ e.0) × (e.1 ≤ field.max_value)

ends-IsRange :
    (stepped : Bool) (field : Field) (parts : List Text) (e : ℕ × ℕ)
    → ends stepped field parts ≡ ok e
    → IsRange field e
unfolding ends
ends-IsRange stepped field [] e q = absurd (not_refused q)
ends-IsRange stepped field (a ∷ []) e q =
    let r =
      bind_ok (field_value field a) (λ x. ok (x, if stepped then star_end field else x)) e q in
    let i = field_value-IsIn field a r.0 r.1 in
    subst (IsRange field) (from_ok r.2) (i.0, last stepped r.0 i.1)
  where
    last :
        (b : Bool) (x : ℕ)
        → x ≤ field.max_value
        → (if b then star_end field else x) ≤ field.max_value
    last true x le = star_end-le field
    last false x le = le
ends-IsRange stepped field (a ∷ b ∷ []) e q =
    let r = bind_ok (field_value field a) _ e q in
    let t =
      bind_ok (field_value field b) (λ y. if ltb y r.0 then refused reversed else ok (r.0, y)) e
        r.2 in
    elim (Bool-cases (ltb t.0 r.0)) [
      | inl back ↦ absurd (not_refused (rw back at t.2))
      | inr forth ↦
          (let same : ok (r.0, t.0) ≡ ok e = rw forth at t.2 in
            subst (IsRange field) (from_ok same)
              ((field_value-IsIn field a r.0 r.1).0, (field_value-IsIn field b t.0 t.1).1))
    ]
ends-IsRange stepped field (a ∷ b ∷ extra ∷ more) e q = absurd (not_refused q)

bounds-IsRange :
    (text : Text) (stepped : Bool) (field : Field) (e : ℕ × ℕ)
    → bounds text stepped field ≡ ok e
    → IsRange field e
unfolding bounds
bounds-IsRange text stepped field e q = elim (Bool-cases (is_star text)) [
  | inl star ↦
      (let same : ok (field.min_value, star_end field) ≡ ok e = rw (bounds, star) at q in
        subst (IsRange field) (from_ok same) (omega arith, star_end-le field))
  | inr other ↦ ends-IsRange stepped field _ e (rw (bounds, other) at q)
]

pub count_up-In :
    (n a until stride v : ℕ) → In v (count_up n a until stride) → (a ≤ v) × (v ≤ until)
unfolding count_up
count_up-In zero a until stride v i = absurd i
count_up-In (suc n) a until stride v i = elim (Bool-cases (leb a until)) [
  | inr past ↦ (let none_left : In v [] = rw (count_up, past) at i in absurd none_left)
  | inl more ↦
      (let le = leb→le a until more in
        let j : In v (a ∷ count_up n (a + stride) until stride) = rw (count_up, more) at i in
        elim j [
          | inl e ↦ (omega (arith, e), omega (arith, e, le))
          | inr k ↦
              (let r = count_up-In n (a + stride) until stride v k in (omega (arith, r.0), r.1))
        ])
]

abbrev pub AllIn : Field → List ℕ → Type 0
AllIn field vs = (v : ℕ) → In v vs → IsIn field v

ranged-AllIn :
    (field : Field) (range : Text) (stepped : Bool) (stride : ℕ) (vs : List ℕ)
    → ranged field range stepped stride ≡ ok vs
    → AllIn field vs
unfolding ranged
ranged-AllIn field range stepped stride vs e = elim (Bool-cases (ltb stride 1)) [
  | inl still ↦ absurd (not_refused (rw (ranged, still) at e))
  | inr moves ↦
      (let e' : (bounds range stepped field >>= λ x. ok (values_of x stride)) ≡ ok vs =
          rw (ranged, moves) at e in
        let r = bind_ok (bounds range stepped field) (λ x. ok (values_of x stride)) vs e' in
        let q = bounds-IsRange range stepped field r.0 r.1 in
        subst (AllIn field) (from_ok r.2) (λ v i.
          let w = count_up-In (suc r.0.1) r.0.0 r.0.1 stride v i in
          (omega (arith, w.0, q.0), omega (arith, w.1, q.1))))
]

item_values-AllIn :
    (field : Field) (parts : List Text) (vs : List ℕ)
    → item_values field parts ≡ ok vs
    → AllIn field vs
unfolding item_values
item_values-AllIn field [] vs e = absurd (not_refused e)
item_values-AllIn field (range ∷ []) vs e = ranged-AllIn field range false 1 vs e
item_values-AllIn field (range ∷ step ∷ []) vs e =
    let r = bind_ok (number not_a_step step) (λ stride. ranged field range true stride) vs e in
    ranged-AllIn field range true r.0 vs r.2
item_values-AllIn field (range ∷ step ∷ extra ∷ more) vs e = absurd (not_refused e)

items_values-AllIn :
    (field : Field) (items : List Text) (vs : List ℕ)
    → items_values field items ≡ ok vs
    → AllIn field vs
unfolding items_values
items_values-AllIn field [] vs e = subst (AllIn field) (from_ok e) (λ v i. absurd i)
items_values-AllIn field (item ∷ items) vs e =
    let parts = split (λ c. c == b'/') item in
    let r =
      bind_ok (item_values field parts) (λ x. items_values field items >>= λ rest. ok (x ++ rest))
        vs e in
    let t = bind_ok (items_values field items) (λ rest. ok (r.0 ++ rest)) vs r.2 in
    subst (AllIn field) (from_ok t.2) (λ v i. elim (In-append v r.0 t.0 i) [
      | inl j ↦ item_values-AllIn field parts r.0 r.1 v j
      | inr j ↦ items_values-AllIn field items t.0 t.1 v j
    ])

pub parse_field-AllIn :
    (text : Text) (field : Field) (vs : List ℕ) → parse_field text field ≡ ok vs → AllIn field vs
unfolding parse_field
parse_field-AllIn text field vs e = items_values-AllIn field (split (λ c. c == b',') text) vs e

next_multiple : (a k stride : ℕ) → a + suc k * stride ≡ a + stride + k * stride
next_multiple a k stride = grind arith

-- The fuel of the loop suffices: it lists every value that is a whole number of strides from the
-- first one and not past the end.
pub count_up_all :
    (n a until stride k : ℕ)
    → 1 ≤ stride
    → until < a + n
    → a + k * stride ≤ until
    → In (a + k * stride) (count_up n a until stride)
unfolding count_up
count_up_all zero a until stride k pos fuel le = absurd (omega (arith, fuel, le))
count_up_all (suc n) a until stride zero pos fuel le =
    let first : leb a until ≡ true = le→leb a until (omega (arith, le)) in
    rw (count_up, first) (inl (omega arith))
count_up_all (suc n) a until stride (suc k) pos fuel le =
    let e = next_multiple a k stride in
    let le' : a + stride + k * stride ≤ until = subst (λ x. x ≤ until) e le in
    let first : leb a until ≡ true = le→leb a until (omega (arith, le')) in
    let rest = count_up_all n (a + stride) until stride k pos (omega (arith, fuel, pos)) le' in
    rw (count_up, first)
      (inr (subst (λ x. In x (count_up n (a + stride) until stride)) (sym e) rest))
