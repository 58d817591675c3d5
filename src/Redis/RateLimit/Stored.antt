-- ===== src/Redis/RateLimit/Stored.antt =====
-- What the script stores and what it trusts: a text that it wrote is read back as the two numbers
-- written, and a text that it trusts holds numbers within its bounds.
use nxgt_data.Prelude.{
  ℕ, ◌+◌, ◌^◌, ◌≤◌, ◌<◌, ◌≡◌, refl, false, ◌||◌, inl, inr, arith, ◌∙◌, ltb, Bool-cases, Option,
  some, none, List, [], ◌∷◌, ◌++◌, length,
}
use nxgt_data.Decimal.{
  is_digit, AllDigits, print, value, value-print, AllDigits-print, length-print,
}
use nxgt_data.Redis.RateLimit.Arithmetic.{Doubles, safe}
use nxgt_data.Redis.RateLimit.{
  Rate, tolerance, span_digits, match_pair, ceildiv, trusted, parsed, state, stored_text,
}

span_digits-end : (ds : List ℕ) → AllDigits ds → span_digits ds ≡ (ds, [])
unfolding span_digits
span_digits-end [] h = refl
span_digits-end (d ∷ ds) h = ground (arith, span_digits-end ds)

span_digits-stop :
    (ds : List ℕ) (c : ℕ) (rest : List ℕ)
    → AllDigits ds
    → is_digit c ≡ false
    → span_digits (ds ++ c ∷ rest) ≡ (ds, c ∷ rest)
unfolding span_digits
span_digits-stop [] c rest h e = rw e
span_digits-stop (d ∷ ds) c rest h e = ground (arith, span_digits-stop ds c rest)

match_pair-join :
    (b a : List ℕ)
    → AllDigits b
    → AllDigits a
    → 0 < length b
    → 0 < length a
    → match_pair (b ++ b' ' ∷ a) ≡ some (b, a)
unfolding match_pair
match_pair-join b a hb ha lb la =
    rw (span_digits-stop b b' ' a hb refl, span_digits-end a ha) (ground arith)

-- What the script relies on in a stored state.
pub record IsTrusted (lua : Doubles) (r : Rate) (now base ahead : ℕ) : Type 0 where
  pub base_safe : base ≤ safe
  pub ahead_fits : ahead ≤ tolerance r
  pub base_near : base ≤ now + ceildiv lua (tolerance r) r.limit

module _ (lua : Doubles) (r : Rate) where
  trusted_of : (now b a : ℕ) → IsTrusted lua r now b a → trusted lua r now b a ≡ some (b, a)
  unfolding trusted
  trusted_of now b a t = ground arith

  trusted_later :
      (now later b a : ℕ) {x y : ℕ}
      → now ≤ later
      → trusted lua r now b a ≡ some (x, y)
      → trusted lua r later b a ≡ some (x, y)
  unfolding trusted
  trusted_later now later b a h e = ground arith

  trusted_sound :
      (now b a : ℕ) {x y : ℕ} → trusted lua r now b a ≡ some (x, y) → IsTrusted lua r now x y
  unfolding trusted
  trusted_sound now b a e = ground arith

  parsed-print :
      (now b a : ℕ)
      → b < 10 ^ 16
      → a < 10 ^ 16
      → parsed lua r now (some (print b, print a)) ≡ trusted lua r now b a
  unfolding parsed
  parsed-print now b a hb ha =
      rw (value-print b hb, value-print a ha) (ground (arith, length-print b, length-print a))

  parsed_sound :
      (now : ℕ) (pair : Option (List ℕ × List ℕ)) {x y : ℕ}
      → parsed lua r now pair ≡ some (x, y)
      → IsTrusted lua r now x y
  unfolding parsed
  parsed_sound now none e = cc
  parsed_sound now (some (b, a)) e = elim (Bool-cases (ltb 16 (length b) || ltb 16 (length a))) [
    | inl long ↦ absurd (ground arith)
    | inr short ↦ trusted_sound now (value b) (value a) (ground arith)
  ]

  -- A stored text that holds trusted numbers is read back as these numbers.
  pub state-stored_text :
      (now b a : ℕ)
      → IsTrusted lua r now b a
      → tolerance r ≤ safe
      → state lua r now (some (stored_text lua r b a)) ≡ some (b, a)
  unfolding state
  state-stored_text now b a t h =
      let b_small : b < 10 ^ 16 = omega (arith, t.base_safe) in
      let a_small : a < 10 ^ 16 = omega (arith, t.ahead_fits) in
      let joined =
        match_pair-join (print b) (print a) (AllDigits-print b b_small) (AllDigits-print a a_small)
          (length-print b).0 (length-print a).0 in
      rw joined (parsed-print now b a b_small a_small ∙ trusted_of now b a t)

  -- Whatever the text, a state that is used is within the bounds.
  pub state_sound :
      (now : ℕ) (stored : Option (List ℕ)) {b a : ℕ}
      → state lua r now stored ≡ some (b, a)
      → IsTrusted lua r now b a
  unfolding state
  state_sound now none e = cc
  state_sound now (some text) e = parsed_sound now (match_pair text) e

  -- A state that is trusted at one time is read alike at any later one.
  pub state_later :
      (now later : ℕ) (stored : Option (List ℕ)) {b a : ℕ}
      → now ≤ later
      → state lua r now stored ≡ some (b, a)
      → state lua r later stored ≡ some (b, a)
  unfolding state
  state_later now later none h e = cc
  state_later now later (some text) h e = parsed_later (match_pair text) e
    where
      parsed_later :
          (pair : Option (List ℕ × List ℕ)) {x y : ℕ}
          → parsed lua r now pair ≡ some (x, y)
          → parsed lua r later pair ≡ some (x, y)
      parsed_later none e = cc
      parsed_later (some (b, a)) e = elim (Bool-cases (ltb 16 (length b) || ltb 16 (length a))) [
        | inl long ↦ absurd (ground arith)
        | inr short ↦ rw short (trusted_later now later (value b) (value a) h (ground arith))
      ]
