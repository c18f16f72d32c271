-- ===== src/Config/Parse/Numbers.antt =====
-- The numbers that the parsers accept.
use cget.Prelude.{
  ℕ, ◌+◌, ◌-◌, ◌*◌, ◌/◌, ◌≡◌, ◌≢◌, refl, sym, ◌↔◌, ◌∙◌, ap, inl, inr, ◌≤◌, ◌<◌, true, false, some,
  [], ◌∷◌, Text, text_eq, text_eq_iff, arith, Bool-cases, ltb, leb, ◌==◌, ◌||◌, ltb→lt, ltb-false,
  All, u64, u64_mod, u32_mod,
}
use cget.Prelude.Decimal.{
  to_string, value_from, IsDigit, value_from-to_string, to_string-IsDigit, to_string_nonempty,
}
use cget.Core.Errors.{ok, ok-injective}
use cget.Config.Bandwidth.{is_digit}
use cget.Config.Parse.{
  scan_wrapping, positive_in_range, parse_positive_uint, scan_checked, parse_uint64,
}

is_digit-IsDigit : (c : ℕ) → IsDigit c → is_digit c ≡ true
unfolding is_digit
is_digit-IsDigit c (low, high) = ground arith

value_from_le : (acc : ℕ) (cs : Text) → acc ≤ value_from acc cs
unfolding value_from
value_from_le acc [] = omega arith
value_from_le acc (c ∷ cs) = omega (arith, value_from_le (acc * 10 + (c - 48)) cs)

scan_checked-digits :
    (key : Text) (acc : ℕ) (cs : Text)
    → All IsDigit cs
    → value_from acc cs < u64_mod
    → scan_checked key acc cs ≡ ok (value_from acc cs)
unfolding scan_checked value_from
scan_checked-digits key acc [] d h = refl
scan_checked-digits key acc (c ∷ cs) (digit, d) h =
    let le = value_from_le (acc * 10 + (c - 48)) cs in
    elim (Bool-cases (ltb ((u64_mod - 1 - (c - 48)) / 10) acc)) [
      | inl over ↦ absurd (omega (arith, ltb→lt _ _ over))
      | inr fits ↦
          rw (is_digit-IsDigit c digit, fits) (scan_checked-digits key (acc * 10 + (c - 48)) cs d h)
    ]

scan_checked_over :
    (key : Text) (acc : ℕ) (cs : Text)
    → All IsDigit cs
    → acc < u64_mod
    → u64_mod ≤ value_from acc cs
    → (n : ℕ) → scan_checked key acc cs ≢ ok n
unfolding scan_checked value_from
scan_checked_over key acc [] d h over n = absurd (omega arith)
scan_checked_over key acc (c ∷ cs) (digit, d) h over n =
    elim (Bool-cases (ltb ((u64_mod - 1 - (c - 48)) / 10) acc)) [
      | inl large ↦ rw (is_digit-IsDigit c digit, large) (λ e. absurd (cc))
      | inr fits ↦
          rw (is_digit-IsDigit c digit, fits)
            (scan_checked_over key (acc * 10 + (c - 48)) cs d (omega (arith, ltb-false _ _ fits))
              over n)
    ]

scan_wrapping-digits :
    (acc a : ℕ) (cs : Text)
    → All IsDigit cs
    → acc ≡ u64 a
    → scan_wrapping acc cs ≡ some (u64 (value_from a cs))
unfolding scan_wrapping value_from
scan_wrapping-digits acc a [] d e = ap some e
scan_wrapping-digits acc a (c ∷ cs) (digit, d) e =
    rw (is_digit-IsDigit c digit)
      (scan_wrapping-digits (u64 (acc * 10 + (c - 48))) (a * 10 + (c - 48)) cs d (omega arith))

nonempty-text_eq : (cs : Text) → cs ≢ [] → text_eq cs [] ≡ false
nonempty-text_eq cs h = elim (Bool-cases (text_eq cs [])) [
  | inl same ↦ absurd (h ((text_eq_iff cs []).0 same))
  | inr other ↦ other
]

-- For a text of decimal digits that is not empty, `parseUint64Local` gives the number that it stands
-- for exactly when that number fits in 64 bits.
pub parse_uint64-value :
    (key value : Text)
    → All IsDigit value
    → value ≢ []
    → (n : ℕ) → (parse_uint64 key value ≡ ok n) ↔ ((value_from 0 value ≡ n) × (n < u64_mod))
unfolding parse_uint64
parse_uint64-value key value d full n =
    let start = nonempty-text_eq value full in
    elim (Bool-cases (ltb (value_from 0 value) u64_mod)) [
      | inl fits ↦
          let done = scan_checked-digits key 0 value d (ltb→lt _ _ fits) in
          (
            λ e.
                let same = ok-injective (sym done ∙ (rw start at e)) in
                (same, omega (arith, ltb→lt _ _ fits)),
            λ (e, small). rw start (done ∙ ap ok e),
          )
      | inr over ↦ (
        λ e. absurd (
            (scan_checked_over key 0 value d (omega arith) (ltb-false _ _ over) n) (rw start at e)),
        λ (e, small). absurd (omega (arith, ltb-false _ _ over)),
      )
    ]

-- A number of 64 bits that is printed is read back by `parseUint64Local`.
pub parse_uint64-to_string :
    (key : Text) (n : ℕ) → n < u64_mod → parse_uint64 key (to_string n) ≡ ok n
parse_uint64-to_string key n small =
    (parse_uint64-value key (to_string n) (to_string-IsDigit n) (to_string_nonempty n) n).1
      (value_from-to_string n, small)

positive_in_range-ok :
    (key : Text) (m n : ℕ)
    → (positive_in_range key (some m) ≡ ok n) ↔ ((m ≡ n) × (0 < n) × (n < u32_mod))
unfolding positive_in_range
positive_in_range-ok key m n = elim (Bool-cases (m == 0 || leb u32_mod m)) [
  | inl out ↦ rw out (λ e. absurd (cc), λ (e, pos, small). absurd (ground arith))
  | inr fine ↦ rw fine (
    λ e. let same = ok-injective e in (same, ground arith, ground arith),
    λ (e, pos, small). ap ok e,
  )
]

-- `parsePositiveUintLocal` has no test inside its loop: from a text of digits that is not empty it
-- takes the number modulo 2^64, and it gives `n` exactly when `n` is this remainder and is from 1
-- to 2^32 - 1. So it also accepts numbers that are far too large.
pub parse_positive_uint_wraps :
    (key value : Text)
    → All IsDigit value
    → value ≢ []
    → (n : ℕ)
    → (parse_positive_uint key value ≡ ok n)
      ↔ ((u64 (value_from 0 value) ≡ n) × (0 < n) × (n < u32_mod))
unfolding parse_positive_uint
parse_positive_uint_wraps key value d full n =
    rw (nonempty-text_eq value full, scan_wrapping-digits 0 0 value d (omega arith))
      (positive_in_range-ok key (u64 (value_from 0 value)) n)
