-- ===== src/Prelude/Lists.antt =====
-- Lists measured by native numbers, under the library's names.
use Prim.Native.Nat.{ℕ, zero, suc, ◌+◌, ◌-◌, ◌≤◌, min}
use mathlib.Core.Path.{◌≡◌, refl, sym, ap, subst}
use mathlib.Core.Bool.{Bool, true, false, ◌&&◌, ◌||◌}
use mathlib.Core.List.{List, [], ◌∷◌, ◌++◌, map}
use mathlib.Core.Option.{Option, none, some}
use native.Mathlib.Omega.{arith}
use mathlib.Core.Logic.{◌⊎◌, inl, inr}
use nxgt_data.Prelude.Tests.{if◌then◌else◌, Bool-cases}

module _ {ℓ} {A : Type ℓ} where
  abbrev pub length : List A → ℕ
  length [] = 0
  length (x ∷ xs) = suc (length xs)

  abbrev pub get_elem? : List A → ℕ → Option A
  get_elem? [] i = none
  get_elem? (x ∷ xs) zero = some x
  get_elem? (x ∷ xs) (suc i) = get_elem? xs i

  abbrev pub take : ℕ → List A → List A
  take zero xs = []
  take (suc n) [] = []
  take (suc n) (x ∷ xs) = x ∷ take n xs

  abbrev pub drop : ℕ → List A → List A
  drop zero xs = xs
  drop (suc n) [] = []
  drop (suc n) (x ∷ xs) = drop n xs

  abbrev pub replicate : ℕ → A → List A
  replicate zero a = []
  replicate (suc n) a = a ∷ replicate n a

  -- `xs.filter(p)` with a Boolean test.
  abbrev pub select : (A → Bool) → List A → List A
  select p [] = []
  select p (x ∷ xs) = if p x then x ∷ select p xs else select p xs

  -- `xs.some(p)` and `xs.every(p)`.
  abbrev pub any : (A → Bool) → List A → Bool
  any p [] = false
  any p (x ∷ xs) = p x || any p xs

  abbrev pub all : (A → Bool) → List A → Bool
  all p [] = true
  all p (x ∷ xs) = p x && all p xs

  pub length-append : (xs ys : List A) → length (xs ++ ys) ≡ length xs + length ys
  length-append [] ys = omega arith
  length-append (x ∷ xs) ys = omega (arith, length-append xs ys)

  pub any-append : (p : A → Bool) (xs ys : List A) → any p (xs ++ ys) ≡ (any p xs || any p ys)
  any-append p [] ys = refl
  any-append p (x ∷ xs) ys = elim (Bool-cases (p x)) [
    | inl passes ↦ rw passes
    | inr fails ↦ rw fails (any-append p xs ys)
  ]

  pub take-append-drop : (n : ℕ) (xs : List A) → take n xs ++ drop n xs ≡ xs
  take-append-drop zero xs = refl
  take-append-drop (suc n) [] = refl
  take-append-drop (suc n) (x ∷ xs) = rw (take-append-drop n xs)

  pub length-take : (n : ℕ) (xs : List A) → length (take n xs) ≡ min n (length xs)
  length-take zero xs = omega arith
  length-take (suc n) [] = omega arith
  length-take (suc n) (x ∷ xs) = omega (arith, length-take n xs)

  pub length-drop : (n : ℕ) (xs : List A) → length (drop n xs) ≡ length xs - n
  length-drop zero xs = omega arith
  length-drop (suc n) [] = omega arith
  length-drop (suc n) (x ∷ xs) = omega (arith, length-drop n xs)

module _ {ℓ κ} {A : Type ℓ} where
  -- A predicate of every element, which computes to tuples.
  abbrev pub All : (A → Type κ) → List A → Type κ
  All P [] = Unit
  All P (x ∷ xs) = P x × All P xs

module _ {A : Type 0} where
  -- Being an element, which computes to a sum of equations.
  abbrev pub In : A → List A → Type 0
  In a [] = ⊥
  In a (x ∷ xs) = (a ≡ x) ⊎ In a xs

  pub In-select : (p : A → Bool) (a : A) (xs : List A) → In a xs → p a ≡ true → In a (select p xs)
  In-select p a [] i h = absurd i
  In-select p a (x ∷ xs) (inl e) h =
      let h' : p x ≡ true = subst (λ y. p y ≡ true) e h in rw h' (inl e)
  In-select p a (x ∷ xs) (inr i) h = elim (Bool-cases (p x)) [
    | inl passes ↦ rw passes (inr (In-select p a xs i h))
    | inr fails ↦ rw fails (In-select p a xs i h)
  ]

  pub select-In : (p : A → Bool) (a : A) (xs : List A) → In a (select p xs) → In a xs × (p a ≡ true)
  select-In p a [] i = absurd i
  select-In p a (x ∷ xs) i = elim (Bool-cases (p x)) [
    | inl passes ↦
        (let j : In a (x ∷ select p xs) = rw passes at i in
          elim j [
            | inl e ↦ (inl e, subst (λ y. p y ≡ true) (sym e) passes)
            | inr k ↦ let r = select-In p a xs k in (inr r.0, r.1)
          ])
    | inr fails ↦
        (let j : In a (select p xs) = rw fails at i in let r = select-In p a xs j in (inr r.0, r.1))
  ]

  pub In-any : (p : A → Bool) (a : A) (xs : List A) → In a xs → p a ≡ true → any p xs ≡ true
  In-any p a [] i h = absurd i
  In-any p a (x ∷ xs) (inl e) h = let h' : p x ≡ true = subst (λ y. p y ≡ true) e h in rw h'
  In-any p a (x ∷ xs) (inr i) h = elim (Bool-cases (p x)) [
    | inl passes ↦ rw passes
    | inr fails ↦ rw fails (In-any p a xs i h)
  ]

  pub any-In : (p : A → Bool) (xs : List A) → any p xs ≡ true → (a : A) × In a xs × (p a ≡ true)
  any-In p [] h = cc
  any-In p (x ∷ xs) h = elim (Bool-cases (p x)) [
    | inl passes ↦ (x, inl refl, passes)
    | inr fails ↦
        (let h' : any p xs ≡ true = rw fails at h in let r = any-In p xs h' in (r.0, inr r.1, r.2))
  ]

  pub In-append : (a : A) (xs ys : List A) → In a (xs ++ ys) → In a xs ⊎ In a ys
  In-append a [] ys i = inr i
  In-append a (x ∷ xs) ys (inl e) = inl (inl e)
  In-append a (x ∷ xs) ys (inr i) = elim (In-append a xs ys i) [
    | inl j ↦ inl (inr j)
    | inr j ↦ inr j
  ]

  pub append-In : (a : A) (xs ys : List A) → In a xs ⊎ In a ys → In a (xs ++ ys)
  append-In a [] ys (inl i) = absurd i
  append-In a [] ys (inr i) = i
  append-In a (x ∷ xs) ys (inl (inl e)) = inl e
  append-In a (x ∷ xs) ys (inl (inr i)) = inr (append-In a xs ys (inl i))
  append-In a (x ∷ xs) ys (inr i) = inr (append-In a xs ys (inr i))

  -- A first part of two lists joined ends in the first one, or holds it whole.
  pub append-split :
      (p q a b : List A)
      → p ++ q ≡ a ++ b
      → ((r : List A) × (p ++ r ≡ a)) ⊎ ((r : List A) × (p ≡ a ++ r) × (r ++ q ≡ b))
  append-split [] q a b e = inl (a, refl)
  append-split (x ∷ p) q [] b e = inr (x ∷ p, refl, e)
  append-split (x ∷ p) q (y ∷ a) b e =
      let h : x ≡ y = ap (λ l. elim l [ [] ↦ x | z ∷ _ ↦ z ]) e in
      let t : p ++ q ≡ a ++ b = ap (drop 1) e in
      elim (append-split p q a b t) [ inl (r, f) ↦ inl (r, cc) | inr (r, f, g) ↦ inr (r, cc, g) ]

  pub take-In : (a : A) (n : ℕ) (xs : List A) → In a (take n xs) → In a xs
  take-In a zero xs i = absurd i
  take-In a (suc n) [] i = absurd i
  take-In a (suc n) (x ∷ xs) (inl e) = inl e
  take-In a (suc n) (x ∷ xs) (inr i) = inr (take-In a n xs i)

module _ {A B : Type 0} (f : A → B) where
  pub map-In : (a : A) (xs : List A) → In a xs → In (f a) (map f xs)
  map-In a [] i = absurd i
  map-In a (x ∷ xs) (inl e) = inl (ap f e)
  map-In a (x ∷ xs) (inr i) = inr (map-In a xs i)

  pub In-map : (b : B) (xs : List A) → In b (map f xs) → (a : A) × In a xs × (b ≡ f a)
  In-map b [] i = absurd i
  In-map b (x ∷ xs) (inl e) = (x, inl refl, e)
  In-map b (x ∷ xs) (inr i) = let r = In-map b xs i in (r.0, inr r.1, r.2)

  pub map-append : (xs ys : List A) → map f (xs ++ ys) ≡ map f xs ++ map f ys
  map-append [] ys = refl
  map-append (x ∷ xs) ys = rw (map-append xs ys)

  pub take-map_append :
      (n : ℕ) (xs : List A) (ys : List B)
      → n ≤ length xs
      → take n (map f xs ++ ys) ≡ map f (take n xs)
  take-map_append zero xs ys le = refl
  take-map_append (suc n) [] ys le = absurd (omega (arith, le))
  take-map_append (suc n) (x ∷ xs) ys le = rw (take-map_append n xs ys (omega (arith, le)))
