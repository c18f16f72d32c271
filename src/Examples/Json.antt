-- ===== src/Examples/Json.antt =====
-- The theorems on JSON at concrete inputs.
use cget.Prelude.{
  ℕ, ◌+◌, ◌*◌, ◌≡◌, ◌≢◌, refl, ap, ◌∙◌, true, false, Option, none, some, [], ◌∷◌, Text, str, inl,
  inr, length,
}
use cget.Prelude.Decimal.{to_string, to_string_head, value_from, value_from-to_string}
use cget.Core.Errors.{ok}
use cget.Json.Syntax.{
  Members, number, string, array, object, no_items, item, no_members, member, Numbers, text_less,
}
use cget.Json.Scan.{out_of_fuel}
use cget.Json.Parser.{parse_fuel, parse_json}
use cget.Json.Printer.{stringify}
use cget.Json.Texts.{IsReadable, whole-IsReadable}
use cget.Json.Maps.{IsOrdered, are_ordered-IsOrdered}
use cget.Json.Termination.{parse_fuel_ends}
use cget.Json.RoundTrip.{parse_json-stringify}

abbrev pub read_whole : Text → Option ℕ
read_whole [] = none
read_whole (c ∷ cs) = some (value_from 0 (c ∷ cs))

-- Numbers without a fraction and without a sign.
abbrev pub whole_numbers : Numbers
whole_numbers = record {
  stod = read_whole;
  of_u64 = λ x. x;
  to_u64 = λ x. x;
  is_whole = λ x. true;
  is_negative = λ x. false;
  print_17 = to_string;
}

read_whole_nonempty : (c : ℕ) (t cs : Text) → t ≡ c ∷ cs → read_whole t ≡ some (value_from 0 t)
read_whole_nonempty c t cs e = rw e refl

pub read_whole-to_string : (x : ℕ) → read_whole (to_string x) ≡ some x
read_whole-to_string x = elim (to_string_head x) [
  | inl z ↦ read_whole_nonempty 48 (to_string x) [] z ∙ ap some (value_from-to_string x)
  | inr (c, cs, e, nonzero) ↦
      read_whole_nonempty c (to_string x) cs e ∙ ap some (value_from-to_string x)
]

pub whole_numbers-IsReadable : (x : ℕ) → IsReadable whole_numbers x
whole_numbers-IsReadable x = whole-IsReadable whole_numbers x refl (read_whole-to_string x)

abbrev two_entries : Members
two_entries =
    member (str "a") (array (item (number 12) (item (string (34 ∷ 10 ∷ [])) no_items)))
      (member (str "b") (object no_members) no_members)

two_entries-IsOrdered : IsOrdered two_entries
unfolding text_less str
two_entries-IsOrdered = are_ordered-IsOrdered two_entries refl

parse_json-stringify_example :
    parse_json whole_numbers (stringify whole_numbers 2 (object two_entries))
    ≡ ok (object two_entries)
parse_json-stringify_example =
    parse_json-stringify whole_numbers 2 (object two_entries)
      (two_entries-IsOrdered, ((whole_numbers-IsReadable 12, (tt, tt)), ((tt, tt), tt)))

parse_fuel_ends_example :
    parse_fuel whole_numbers (3 * length (str "[1,{") + 3) (str "[1,{") ≢ out_of_fuel
parse_fuel_ends_example = parse_fuel_ends whole_numbers (str "[1,{")
