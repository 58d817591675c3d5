-- ===== src/Decimal.antt =====
-- Whole numbers as decimal text, over character codes: what `string.format('%.0f', n)` writes of a
-- whole number in the Lua scripts of packages/redis/src, and what `tonumber` reads of a run of
-- digits.
use native.Mathlib.Nat.{pow-suc}
use nxgt_data.Prelude.{
  ℕ, zero, suc, ◌+◌, ◌-◌, ◌*◌, ◌/◌, ◌%◌, ◌^◌, ◌≤◌, ◌<◌, ◌≡◌, refl, Bool, true, ◌&&◌, List, [], ◌∷◌,
  arith, ap, ◌∙◌, ltb, leb, if◌then◌else◌, all, inl, inr, Bool-cases, length,
}

abbrev pub is_digit : ℕ → Bool
is_digit c = leb b'0' c && leb c b'9'

-- The digits of `n` in front of `acc`, the last one first.
digits_onto : ℕ → ℕ → List ℕ → List ℕ
digits_onto zero n acc = (n + b'0') ∷ acc
digits_onto (suc k) n acc =
    let more = digits_onto k (n / 10) ((n % 10 + b'0') ∷ acc) in
    if ltb n 10 then (n + b'0') ∷ acc else more

-- The text of a number below 10 ^ 16, which every number that the scripts write is.
unfoldable pub print : ℕ → List ℕ
unfolding digits_onto
print n = digits_onto 15 n []

-- `tonumber` of a text of digits.
unfoldable pub value_from : ℕ → List ℕ → ℕ
value_from acc [] = acc
value_from acc (c ∷ cs) = value_from (acc * 10 + (c - b'0')) cs

unfoldable pub value : List ℕ → ℕ
unfolding value_from
value cs = value_from 0 cs

abbrev pub AllDigits : List ℕ → Type 0
AllDigits cs = all is_digit cs ≡ true

-- Below 10 ^ (k + 1) the digits fit, and reading them goes on with what follows.
value_from-digits_onto :
    (k n : ℕ) (acc : List ℕ)
    → n < 10 ^ suc k
    → value_from 0 (digits_onto k n acc) ≡ value_from n acc
unfolding value_from digits_onto
value_from-digits_onto zero n acc h =
    let e : 0 * 10 + (n + b'0' - b'0') ≡ n = omega arith in ap (λ m. value_from m acc) e
value_from-digits_onto (suc k) n acc h = elim (Bool-cases (ltb n 10)) [
  | inl last ↦
      let e : 0 * 10 + (n + b'0' - b'0') ≡ n = omega arith in rw last (ap (λ m. value_from m acc) e)
  | inr longer ↦
      let fits : n / 10 < 10 ^ suc k = omega (arith, pow-suc 10 (suc k)) in
      let e : n / 10 * 10 + (n % 10 + b'0' - b'0') ≡ n = omega arith in
      rw longer (
        value_from-digits_onto k (n / 10) ((n % 10 + b'0') ∷ acc) fits
        ∙ ap (λ m. value_from m acc) e)
]

AllDigits-digits_onto :
    (k n : ℕ) (acc : List ℕ) → n < 10 ^ suc k → AllDigits acc → AllDigits (digits_onto k n acc)
unfolding digits_onto
AllDigits-digits_onto zero n acc h d = ground arith
AllDigits-digits_onto (suc k) n acc h d =
    ground (arith, pow-suc 10 (suc k), AllDigits-digits_onto k (n / 10) ((n % 10 + b'0') ∷ acc))

length-digits_onto :
    (k n : ℕ) (acc : List ℕ)
    → (0 < length (digits_onto k n acc)) × (length (digits_onto k n acc) ≤ suc k + length acc)
unfolding digits_onto
length-digits_onto zero n acc = omega arith
length-digits_onto (suc k) n acc =
    ground (arith, length-digits_onto k (n / 10) ((n % 10 + b'0') ∷ acc))

pub value-print : (n : ℕ) → n < 10 ^ 16 → value (print n) ≡ n
unfolding value print value_from
value-print n h = value_from-digits_onto 15 n [] h

pub AllDigits-print : (n : ℕ) → n < 10 ^ 16 → AllDigits (print n)
unfolding print
AllDigits-print n h = AllDigits-digits_onto 15 n [] h refl

pub length-print : (n : ℕ) → (0 < length (print n)) × (length (print n) ≤ 16)
unfolding print
length-print n = length-digits_onto 15 n []
