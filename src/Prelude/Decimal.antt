-- ===== src/Prelude/Decimal.antt =====
-- `std::to_string` of an unsigned integer, and the value of decimal digits.
use cget.Prelude.Tests.{ltb, if◌then◌else◌, Bool-cases, ltb→lt, ltb-false}
use cget.Prelude.Bytes.{Text}
use cget.Prelude.Lists.{All}
use Prim.Native.Nat.{ℕ, zero, suc, ◌+◌, ◌-◌, ◌*◌, ◌/◌, ◌%◌, ◌<◌, ◌≤◌}
use mathlib.Core.Path.{◌≡◌, refl, ap}
use mathlib.Core.Logic.{◌≢◌, ◌⊎◌, inl, inr}
use mathlib.Core.List.{[], ◌∷◌}
use native.Mathlib.Omega.{arith}

-- The digits of `n` in front of `acc`; `n + 1` rounds are enough.
unfoldable pub digits : ℕ → ℕ → Text → Text
digits zero n acc = acc
digits (suc fuel) n acc =
    let rest = digits fuel (n / 10) ((48 + n % 10) ∷ acc) in
    if ltb n 10 then (48 + n) ∷ acc else rest

unfoldable pub to_string : ℕ → Text
unfolding digits
to_string n = digits (suc n) n []

-- The value of decimal digits read from the left, after `acc`.
unfoldable pub value_from : ℕ → Text → ℕ
value_from acc [] = acc
value_from acc (c ∷ cs) = value_from (acc * 10 + (c - 48)) cs

value_from-digits :
    (fuel n : ℕ) (rest : Text) → n < fuel → value_from 0 (digits fuel n rest) ≡ value_from n rest
unfolding digits value_from
value_from-digits zero n rest h = elim h [ ]
value_from-digits (suc fuel) n rest h = elim (Bool-cases (ltb n 10)) [
  | inl small ↦ rw small (ap (λ k. value_from k rest) (omega arith))
  | inr large ↦ rw large (
      rw
        (value_from-digits fuel (n / 10) ((48 + n % 10) ∷ rest)
          (omega (arith, ltb-false n 10 large)))
        (ap (λ k. value_from k rest) (omega arith)))
]

-- The printed digits have the value of the number.
pub value_from-to_string : (n : ℕ) → value_from 0 (to_string n) ≡ n
unfolding to_string value_from
value_from-to_string n = value_from-digits (suc n) n [] (omega arith)

pub to_string-injective : (m n : ℕ) → to_string m ≡ to_string n → m ≡ n
to_string-injective m n e = cc (value_from-to_string m, value_from-to_string n)

abbrev pub IsDigit : ℕ → Type 0
IsDigit c = (48 ≤ c) × (c ≤ 57)

digits-IsDigit :
    (fuel n : ℕ) (rest : Text) → n < fuel → All IsDigit rest → All IsDigit (digits fuel n rest)
unfolding digits
digits-IsDigit zero n rest h d = elim h [ ]
digits-IsDigit (suc fuel) n rest h d = elim (Bool-cases (ltb n 10)) [
  | inl small ↦ rw small ((omega arith, omega (arith, ltb→lt n 10 small)), d)
  | inr large ↦ rw large (
      digits-IsDigit fuel (n / 10) ((48 + n % 10) ∷ rest) (omega (arith, ltb-false n 10 large))
        ((omega arith, omega arith), d))
]

pub to_string-IsDigit : (n : ℕ) → All IsDigit (to_string n)
unfolding to_string
to_string-IsDigit n = digits-IsDigit (suc n) n [] (omega arith) tt

digits_nonempty : (fuel n : ℕ) (rest : Text) → n < fuel → digits fuel n rest ≢ []
unfolding digits
digits_nonempty zero n rest h e = elim h [ ]
digits_nonempty (suc fuel) n rest h e = elim (Bool-cases (ltb n 10)) [
  | inl small ↦ cc
  | inr large ↦
      digits_nonempty fuel (n / 10) ((48 + n % 10) ∷ rest) (omega (arith, ltb-false n 10 large))
        (rw large at e)
]

pub to_string_nonempty : (n : ℕ) → to_string n ≢ []
unfolding to_string
to_string_nonempty n = digits_nonempty (suc n) n [] (omega arith)

digits_head :
    (fuel n : ℕ) (rest : Text)
    → n < fuel
    → 0 < n
    → (c : ℕ) × (cs : Text) × (digits fuel n rest ≡ c ∷ cs) × (c ≢ 48)
unfolding digits
digits_head zero n rest h pos = elim h [ ]
digits_head (suc fuel) n rest h pos = elim (Bool-cases (ltb n 10)) [
  | inl small ↦ (48 + n, rest, rw small refl, λ e. absurd (omega arith))
  | inr large ↦
      let (c, cs, e, ne) =
        digits_head fuel (n / 10) ((48 + n % 10) ∷ rest) (omega (arith, ltb-false n 10 large))
          (omega (arith, ltb-false n 10 large)) in
      (c, cs, rw large e, ne)
]

zero_text : digits 1 0 [] ≡ 48 ∷ []
unfolding digits
zero_text = refl

-- Only zero is printed with a leading zero.
pub to_string_head :
    (n : ℕ) → (to_string n ≡ 48 ∷ []) ⊎ ((c : ℕ) × (cs : Text) × (to_string n ≡ c ∷ cs) × (c ≢ 48))
unfolding to_string
to_string_head zero = inl zero_text
to_string_head (suc n) = inr (digits_head (suc (suc n)) (suc n) [] (omega arith) (omega arith))
