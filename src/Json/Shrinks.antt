-- ===== src/Json/Shrinks.antt =====
-- How much the scanner of src/persistence/json.cpp takes of its input.
use cget.Prelude.{
  ℕ, suc, ◌≤◌, ◌<◌, ◌≡◌, ◌⊎◌, Option-cases, true, false, Bool-cases, [], ◌∷◌, Text, arith, ◌==◌,
  length, length-drop, inl, inr,
}
use cget.Config.Bandwidth.{is_digit}
use cget.Json.Syntax.{Numbers}
use cget.Network.Scheme.{starts_with}
use cget.Json.Scan.{
  Read, thrown, out_of_fuel, read, ◌>>=◌, fail, peek, rest_of, skip_whitespace, parse_literal,
  cons_read, string_byte, quote, backslash, plain, unescape, scan_string, parse_string, span_digits,
  scan_fraction, scan_sign, scan_exponent, scan_integer, scan_number,
}
use cget.Json.Parser.{start_of, starts_number, parse_number}

-- The call came to an end, and if it read something, less than `bound` bytes are left.
abbrev pub Ends {ℓ} : {V : Type ℓ} → ℕ → Read (V × Text) → Type 0
Ends bound (thrown message) = Unit
Ends bound out_of_fuel = ⊥
Ends bound (read (v, rest)) = length rest < bound

pub >>=-Ends {ℓ μ} :
    {V : Type ℓ} {W : Type μ} (a b : ℕ) (first : Read (V × Text))
    (next : V × Text → Read (W × Text))
    → Ends a first
    → ((v : V) (rest : Text) → length rest < a → Ends b (next (v, rest)))
    → Ends b (first >>= next)
>>=-Ends a b (thrown message) next e h = tt
>>=-Ends a b out_of_fuel next e h = absurd e
>>=-Ends a b (read (v, rest)) next e h = h v rest e

pub skip_shrinks : (t : Text) → length (skip_whitespace t) ≤ length t
unfolding skip_whitespace
skip_shrinks [] = omega arith
skip_shrinks (c ∷ cs) = ground (arith, skip_shrinks cs)

pub rest_shrinks :
    (t : Text) (c : ℕ) → (peek t == c) ≡ true → 0 < c → suc (length (rest_of t)) ≡ length t
rest_shrinks [] c e h = ground arith
rest_shrinks (x ∷ xs) c e h = omega arith

cons_read-Ends : (a b c : ℕ) (r : Read (Text × Text)) → a ≤ b → Ends a r → Ends b (cons_read c r)
cons_read-Ends a b c (thrown message) h e = tt
cons_read-Ends a b c out_of_fuel h e = absurd e
cons_read-Ends a b c (read (text, rest)) h e = omega (arith, h, e)

prefix_nonempty : (p : ℕ) (ps t : Text) → starts_with (p ∷ ps) t ≡ true → 0 < length t
unfolding starts_with
prefix_nonempty p ps [] h = cc
prefix_nonempty p ps (c ∷ cs) h = omega arith

pub parse_literal-Ends {ℓ} :
    {V : Type ℓ} (b size p : ℕ) (ps input : Text) (v : V)
    → length input ≤ b
    → Ends b (parse_literal size (p ∷ ps) input >>= λ rest. read (v, rest))
unfolding parse_literal fail
parse_literal-Ends b size p ps input v h = elim (Bool-cases (starts_with (p ∷ ps) input)) [
  | inl there ↦
      rw there
        (omega (arith, length-drop (suc (length ps)) input, prefix_nonempty p ps input there))
  | inr other ↦ rw other tt
]

byte_cases :
    (c : ℕ) → (string_byte c ≡ quote) ⊎ ((string_byte c ≡ backslash) ⊎ (string_byte c ≡ plain))
unfolding string_byte
byte_cases c = ground arith

scan_string-Ends : (size : ℕ) (input : Text) → Ends (suc (length input)) (scan_string size input)
unfolding scan_string fail
scan_string-Ends size [] = tt
scan_string-Ends size (c ∷ []) = elim (byte_cases c) [
  | inl quotes ↦ rw (quotes, Ends) (omega arith)
  | inr (inl escapes) ↦ rw (escapes, Ends) tt
  | inr (inr stays) ↦ rw (stays, Ends) tt
]
scan_string-Ends size (c ∷ (e ∷ es)) = elim (byte_cases c) [
  | inl quotes ↦ rw (quotes, Ends) (omega arith)
  | inr (inl escapes) ↦
      rw (escapes, Ends)
        (elim (Option-cases (unescape e)) [
          | inl unknown ↦ rw (unknown, Ends) tt
          | inr (x, known) ↦
              rw (known, Ends)
                (cons_read-Ends (suc (length es)) (suc (length (c ∷ (e ∷ es)))) x
                  (scan_string size es) (omega arith) (scan_string-Ends size es))
        ])
  | inr (inr stays) ↦
      rw (stays, Ends)
        (cons_read-Ends (suc (length (e ∷ es))) (suc (length (c ∷ (e ∷ es)))) c
          (scan_string size (e ∷ es)) (omega arith) (scan_string-Ends size (e ∷ es)))
]

weaken-Ends {ℓ} : {V : Type ℓ} (a b : ℕ) (r : Read (V × Text)) → a ≤ b → Ends a r → Ends b r
weaken-Ends a b (thrown message) h e = tt
weaken-Ends a b out_of_fuel h e = absurd e
weaken-Ends a b (read (v, rest)) h e = omega arith

-- A string literal takes a byte at least.
pub parse_string-Ends :
    (b size : ℕ) (input : Text) → length input ≤ b → Ends b (parse_string size input)
unfolding parse_string fail
parse_string-Ends b size input h = elim (Bool-cases (peek input == 34)) [
  | inl found ↦ rw found (
      let shorter = rest_shrinks input 34 found (omega arith) in
      weaken-Ends (suc (length (rest_of input))) b (scan_string size (rest_of input)) (omega arith)
        (scan_string-Ends size (rest_of input)))
  | inr other ↦ rw other tt
]

span_shrinks : (t : Text) → length (span_digits t).1 ≤ length t
unfolding span_digits
span_shrinks [] = omega arith
span_shrinks (c ∷ cs) = ground (arith, span_shrinks cs)

rest_of_shrinks : (t : Text) → length (rest_of t) ≤ length t
rest_of_shrinks [] = omega arith
rest_of_shrinks (c ∷ cs) = omega arith

fraction_shrinks : (t : Text) → length (scan_fraction t).1 ≤ length t
unfolding scan_fraction
fraction_shrinks t = ground (arith, rest_of_shrinks t, span_shrinks (rest_of t))

sign_shrinks : (t : Text) → length (scan_sign t).1 ≤ length t
unfolding scan_sign
sign_shrinks t = ground (arith, rest_of_shrinks t, span_shrinks (rest_of t), span_shrinks t)

exponent_shrinks : (t : Text) → length (scan_exponent t).1 ≤ length t
unfolding scan_exponent
exponent_shrinks t = ground (arith, rest_of_shrinks t, sign_shrinks (rest_of t))

integer_shrinks : (t : Text) → length (scan_integer t).1 ≤ length t
unfolding scan_integer
integer_shrinks t = ground (arith, rest_of_shrinks t, span_shrinks t)

span_takes : (t : Text) → is_digit (peek t) ≡ true → length (span_digits t).1 < length t
unfolding span_digits is_digit
span_takes [] h = ground arith
span_takes (c ∷ cs) h = ground (arith, span_shrinks cs)

integer_takes : (t : Text) → is_digit (peek t) ≡ true → length (scan_integer t).1 < length t
unfolding scan_integer
integer_takes t h = elim (Bool-cases (peek t == b'0')) [
  | inl zero_digit ↦ rw zero_digit (omega (arith, rest_shrinks t 48 zero_digit (omega arith)))
  | inr other ↦ rw other (span_takes t h)
]

unsigned_shrinks :
    (t : Text)
    → length (scan_exponent (scan_fraction (scan_integer t).1).1).1 ≤ length (scan_integer t).1
unsigned_shrinks t = omega (
  arith,
  exponent_shrinks (scan_fraction (scan_integer t).1).1,
  fraction_shrinks (scan_integer t).1,
)

number_digit : (c : ℕ) → start_of c ≡ starts_number → (c == b'-') ≡ false → is_digit c ≡ true
unfolding start_of
number_digit c h other = ground arith

-- A number takes a byte at least.
number_takes : (t : Text) → start_of (peek t) ≡ starts_number → length (scan_number t).1 < length t
unfolding scan_number
number_takes t h = elim (Bool-cases (peek t == b'-')) [
  | inl minus ↦ rw minus (
      omega (
        arith,
        rest_shrinks t 45 minus (omega arith),
        unsigned_shrinks (rest_of t),
        integer_shrinks (rest_of t),
      ))
  | inr digit ↦
      rw digit (omega (arith, unsigned_shrinks t, integer_takes t (number_digit (peek t) h digit)))
]

pub parse_number-Ends :
    (n : Numbers) (size b : ℕ) (t : Text)
    → start_of (peek t) ≡ starts_number
    → length t ≤ b
    → Ends b (parse_number n size t)
unfolding parse_number
parse_number-Ends n size b t h l = elim (Option-cases (n.stod (scan_number t).0)) [
  | inl none_read ↦ rw (none_read, Ends) tt
  | inr (x, some_read) ↦ rw (some_read, Ends) (omega (arith, number_takes t h))
]
