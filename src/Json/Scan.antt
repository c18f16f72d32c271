-- ===== src/Json/Scan.antt =====
-- The parts of the parser of src/persistence/json.cpp that do not call themselves through a value. The
-- input is what is left of it; only the byte position of a message needs the size of the whole.
use cget.Prelude.{
  ℕ, ◌-◌, Bool, ◌||◌, Option, none, some, [], ◌∷◌, ◌++◌, Text, str, ◌==◌, if◌then◌else◌, length,
  drop,
}
use cget.Prelude.Decimal.{to_string}
use cget.Config.Bandwidth.{is_digit}
use cget.Network.Scheme.{starts_with}

-- The end of a call of the parser: what it read, or the exception. `out_of_fuel` has no counterpart
-- in the program.
pub data Read {ℓ} (V : Type ℓ) : Type ℓ where
  thrown : Text → Read V
  out_of_fuel : Read V
  read : V → Read V

infixl 5 ◌>>=◌
abbrev pub ◌>>=◌ {ℓ μ} : {V : Type ℓ} {W : Type μ} → Read V → (V → Read W) → Read W
thrown message >>= next = thrown message
out_of_fuel >>= next = out_of_fuel
read v >>= next = next v

-- `fail`, when `rest` is left of an input of `size` bytes.
unfoldable pub fail {ℓ} : {V : Type ℓ} → ℕ → Text → Text → Read V
fail size rest message =
    thrown
      (str "json parse error at byte " ++ (to_string (size - length rest) ++ (str ": " ++ message)))

-- `peek`: 0 at the end.
abbrev pub peek : Text → ℕ
peek [] = 0
peek (c ∷ cs) = c

abbrev pub rest_of : Text → Text
rest_of [] = []
rest_of (c ∷ cs) = cs

unfoldable pub is_json_space : ℕ → Bool
is_json_space c = c == 32 || c == 10 || c == 13 || c == 9

unfoldable pub skip_whitespace : Text → Text
skip_whitespace [] = []
skip_whitespace (c ∷ cs) = let rest = skip_whitespace cs in if is_json_space c then rest else c ∷ cs

-- `parseLiteral`: what is left after the literal.
unfoldable pub parse_literal : ℕ → Text → Text → Read Text
parse_literal size literal input =
    if starts_with literal input
    then read (drop (length literal) input)
    else fail size input (str "expected " ++ literal)

-- The escapes that are known.
unfoldable pub unescape : ℕ → Option ℕ
unescape c =
    if c == 34 || c == 92 || c == b'/'
    then some c
    else if c == b'b'
    then some 8
    else if c == b'f'
    then some 12
    else if c == b'n'
    then some 10
    else if c == b'r'
    then some 13
    else if c == b't'
    then some 9
    else none

abbrev pub cons_read : ℕ → Read (Text × Text) → Read (Text × Text)
cons_read c (read (text, rest)) = read (c ∷ text, rest)
cons_read c (thrown message) = thrown message
cons_read c out_of_fuel = out_of_fuel

-- What a byte of a string literal means: its end, an escape, or itself.
pub data StringByte : Type 0 where
  quote backslash plain : StringByte

unfoldable pub string_byte : ℕ → StringByte
string_byte c = if c == 34 then quote else if c == 92 then backslash else plain

-- The loop of `parseString`, after the opening quote.
unfoldable pub scan_string : ℕ → Text → Read (Text × Text)
scan_string size [] = fail size [] (str "unterminated string")
scan_string size (c ∷ []) = elim (string_byte c) [
  | quote ↦ read ([], [])
  | backslash ↦ fail size [] (str "unexpected end of input")
  | plain ↦ fail size [] (str "unterminated string")
]
scan_string size (c ∷ (e ∷ es)) = elim (string_byte c) [
  | quote ↦ read ([], e ∷ es)
  | backslash ↦ elim (unescape e) [
    | none ↦ fail size es (str "unsupported escape sequence")
    | some x ↦ cons_read x (scan_string size es)
  ]
  | plain ↦ cons_read c (scan_string size (e ∷ es))
]

-- `parseString`.
unfoldable pub parse_string : ℕ → Text → Read (Text × Text)
parse_string size input =
    if peek input == 34
    then scan_string size (rest_of input)
    else fail size input (str "expected string")

-- Digits at the front, and what follows them.
unfoldable pub span_digits : Text → Text × Text
span_digits [] = ([], [])
span_digits (c ∷ cs) =
    let (digits, rest) = span_digits cs in if is_digit c then (c ∷ digits, rest) else ([], c ∷ cs)

abbrev pub then_span : Text → (Text → Text × Text) → Text → Text × Text
then_span front next input = let (more, rest) = next input in (front ++ more, rest)

-- `if (peek() == c) ++pos_;` and then `next`; `other` is what comes when it is not `c`.
unfoldable pub scan_fraction : Text → Text × Text
scan_fraction input =
    if peek input == b'.' then then_span (b'.' ∷ []) span_digits (rest_of input) else ([], input)

unfoldable pub scan_sign : Text → Text × Text
scan_sign input =
    if peek input == b'+' || peek input == b'-'
    then then_span (peek input ∷ []) span_digits (rest_of input)
    else span_digits input

unfoldable pub scan_exponent : Text → Text × Text
scan_exponent input =
    if peek input == b'e' || peek input == b'E'
    then then_span (peek input ∷ []) scan_sign (rest_of input)
    else ([], input)

unfoldable pub scan_integer : Text → Text × Text
scan_integer input = if peek input == b'0' then (b'0' ∷ [], rest_of input) else span_digits input

abbrev pub and_then : Text × Text → (Text → Text × Text) → Text × Text
and_then (front, rest) next = then_span front next rest

-- The text of a number: `parseNumber` before `std::stod`.
unfoldable pub scan_number : Text → Text × Text
scan_number input =
    let unsigned = λ (t : Text). and_then (and_then (scan_integer t) scan_fraction) scan_exponent in
    if peek input == b'-' then then_span (b'-' ∷ []) unsigned (rest_of input) else unsigned input
