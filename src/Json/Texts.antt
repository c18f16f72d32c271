-- ===== src/Json/Texts.antt =====
-- Reading back the printed texts inside a value: string literals, space and whole numbers.
use cget.Prelude.{
  ℕ, zero, suc, ◌≡◌, ◌≢◌, refl, sym, ◌∙◌, ◌⊎◌, inl, inr, true, false, some, [], ◌∷◌, ◌++◌, Text,
  arith, ◌==◌, All, subst,
}
use cget.Prelude.Decimal.{to_string, IsDigit, to_string_head, to_string-IsDigit}
use mathlib.Core.List.{append_assoc, append-nil}
use cget.Core.Types.{Double}
use cget.Config.Bandwidth.{is_digit}
use cget.Json.Syntax.{Numbers}
use cget.Json.Scan.{
  read, cons_read, peek, is_json_space, skip_whitespace, string_byte, unescape, scan_string,
  parse_string, span_digits, scan_fraction, scan_exponent, scan_integer, scan_number,
}
use cget.Json.Parser.{start_of, starts_number}
use cget.Json.Printer.{escape_byte, escape_string, quoted, indent_text, number_text}

pub skip_stops : (t : Text) → is_json_space (peek t) ≡ false → skip_whitespace t ≡ t
unfolding skip_whitespace
skip_stops [] h = refl
skip_stops (c ∷ cs) h = rw h refl

pub skip_space :
    (c : ℕ) (t : Text) → is_json_space c ≡ true → skip_whitespace (c ∷ t) ≡ skip_whitespace t
unfolding skip_whitespace
skip_space c t h = rw h refl

blank-space : is_json_space 32 ≡ true
unfolding is_json_space
blank-space = refl

pub skip_indent : (k : ℕ) (t : Text) → skip_whitespace (indent_text k ++ t) ≡ skip_whitespace t
unfolding indent_text
skip_indent zero t = refl
skip_indent (suc k) t = skip_space 32 (indent_text k ++ t) blank-space ∙ skip_indent k t

scan_string-escape :
    (size c x : ℕ) (xs : Text)
    → scan_string size (escape_byte c ++ x ∷ xs) ≡ cons_read c (scan_string size (x ∷ xs))
unfolding scan_string escape_byte string_byte unescape
scan_string-escape size c x xs = ground arith

scan_quote : (size : ℕ) (rest : Text) → scan_string size (34 ∷ rest) ≡ read ([], rest)
unfolding scan_string string_byte
scan_quote size [] = refl
scan_quote size (c ∷ cs) = refl

escape_byte_nonempty : (c : ℕ) → escape_byte c ≢ []
unfolding escape_byte
escape_byte_nonempty c = ground arith

cons_of : (a : Text) → a ≢ [] → (b c : Text) → (x : ℕ) × (xs : Text) × ((a ++ b) ++ c ≡ x ∷ xs)
cons_of [] h b c = absurd (h refl)
cons_of (x ∷ xs) h b c = (x, (xs ++ b) ++ c, refl)

escape_string_nonempty :
    (s rest : Text) → (x : ℕ) × (xs : Text) × (escape_string s ++ 34 ∷ rest ≡ x ∷ xs)
unfolding escape_string escape_byte
escape_string_nonempty [] rest = (34, rest, refl)
escape_string_nonempty (c ∷ cs) rest =
    cons_of (escape_byte c) (escape_byte_nonempty c) (escape_string cs) (34 ∷ rest)

-- The loop over a printed string literal gives the string back.
scan_string-escape_string :
    (size : ℕ) (s rest : Text) → scan_string size (escape_string s ++ 34 ∷ rest) ≡ read (s, rest)
unfolding escape_string
scan_string-escape_string size [] rest = scan_quote size rest
scan_string-escape_string size (c ∷ cs) rest =
    let (x, xs, e) = escape_string_nonempty cs rest in
    rw
      (
        append_assoc (escape_byte c) (escape_string cs) (34 ∷ rest),
        e,
        scan_string-escape size c x xs,
        sym e,
      )
      (rw (scan_string-escape_string size cs rest) refl)

pub parse_string-quoted :
    (size : ℕ) (s rest : Text) → parse_string size (quoted s ++ rest) ≡ read (s, rest)
unfolding parse_string quoted
parse_string-quoted size s rest =
    rw (append_assoc (escape_string s) (34 ∷ []) rest) (scan_string-escape_string size s rest)

span_digits-append :
    (ds rest : Text)
    → All IsDigit ds
    → is_digit (peek rest) ≡ false
    → span_digits (ds ++ rest) ≡ (ds, rest)
unfolding span_digits is_digit
span_digits-append [] [] d h = refl
span_digits-append [] (c ∷ cs) d h = rw h refl
span_digits-append (x ∷ xs) rest ((low, high), d) h =
    rw (span_digits-append xs rest d h) (ground arith)

-- A byte that can follow a number: a comma or a line feed.
abbrev pub Stops : Text → Type 0
Stops rest = (peek rest ≡ 44) ⊎ (peek rest ≡ 10)

no_more :
    (rest : Text)
    → Stops rest
    → (scan_fraction rest ≡ ([], rest)) × (scan_exponent rest ≡ ([], rest))
unfolding scan_fraction scan_exponent
no_more rest (inl comma) = rw comma (refl, refl)
no_more rest (inr line) = rw line (refl, refl)

stop_no_digit : (rest : Text) → Stops rest → is_digit (peek rest) ≡ false
unfolding is_digit
stop_no_digit rest h = ground arith

not_minus : (c : ℕ) → IsDigit c → (c == 45) ≡ false
not_minus c (low, high) = ground arith

not_zero : (c : ℕ) → c ≢ 48 → (c == 48) ≡ false
not_zero c h = ground arith

scan_digits :
    (c : ℕ) (cs rest : Text)
    → c ≢ 48
    → All IsDigit (c ∷ cs)
    → Stops rest
    → scan_number (c ∷ (cs ++ rest)) ≡ (c ∷ cs, rest)
unfolding scan_number scan_integer
scan_digits c cs rest nonzero digits stops =
    let spanned = span_digits-append (c ∷ cs) rest digits (stop_no_digit rest stops) in
    let (f, e) = no_more rest stops in
    rw (not_minus c digits.0, not_zero c nonzero, spanned, f, e, append-nil cs, append-nil cs) refl

scan_zero : (rest : Text) → Stops rest → scan_number (48 ∷ rest) ≡ (48 ∷ [], rest)
unfolding scan_number scan_integer
scan_zero rest stops = let (f, e) = no_more rest stops in rw (f, e) refl

-- The printed form of a whole number is scanned as one number.
pub scan_number-to_string :
    (k : ℕ) (rest : Text) → Stops rest → scan_number (to_string k ++ rest) ≡ (to_string k, rest)
scan_number-to_string k rest stops = elim (to_string_head k) [
  | inl z ↦ rw z (scan_zero rest stops)
  | inr (c, cs, e, nonzero) ↦
      rw e (scan_digits c cs rest nonzero (subst (All IsDigit) e (to_string-IsDigit k)) stops)
]

-- The printed form of the number is a numeral of JSON that `std::stod` reads back.
pub record IsReadable (n : Numbers) (x : Double) : Type 0 where
  pub scanned :
      (rest : Text) → Stops rest → scan_number (number_text n x ++ rest) ≡ (number_text n x, rest)
  pub stored : n.stod (number_text n x) ≡ some x
  pub begins : (c : ℕ) × (cs : Text) × (number_text n x ≡ c ∷ cs) × (start_of c ≡ starts_number)

digit_starts : (c : ℕ) → IsDigit c → start_of c ≡ starts_number
unfolding start_of is_digit
digit_starts c (low, high) = ground arith

to_string_starts :
    (k : ℕ) → (c : ℕ) × (cs : Text) × (to_string k ≡ c ∷ cs) × (start_of c ≡ starts_number)
to_string_starts k = elim (to_string_head k) [
  | inl z ↦ (48, [], z, digit_starts 48 (omega arith, omega arith))
  | inr (c, cs, e, nonzero) ↦
      (c, cs, e, digit_starts c (subst (All IsDigit) e (to_string-IsDigit k)).0)
]

-- A whole number of which `std::stod` reads the decimal form back.
pub whole-IsReadable :
    (n : Numbers) (x : Double)
    → n.is_whole x ≡ true
    → n.stod (to_string (n.to_u64 x)) ≡ some x
    → IsReadable n x
unfolding number_text
whole-IsReadable n x whole back = record {
  scanned = λ rest stops. rw whole (scan_number-to_string (n.to_u64 x) rest stops);
  stored = rw whole back;
  begins = rw whole (to_string_starts (n.to_u64 x));
}
