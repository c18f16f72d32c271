-- ===== src/Json/Reading.antt =====
-- The values whose printed text is read back, and where the parser finds their first byte.
use cget.Prelude.{ℕ, zero, suc, ◌≡◌, refl, ap, true, false, ◌∷◌, ◌++◌, Text, str, arith, ◌==◌}
use mathlib.Core.List.{append_assoc}
use cget.Config.Bandwidth.{is_digit}
use cget.Json.Syntax.{
  Value, Items, Members, null, bool, number, string, array, object, no_items, item, no_members,
  member, Numbers,
}
use cget.Json.Scan.{
  Read, read, fail, ◌>>=◌, peek, rest_of, is_json_space, skip_whitespace, parse_literal,
  parse_string,
}
use cget.Json.Parser.{
  start_of, starts_null, starts_true, starts_false, starts_string, starts_array, starts_object,
  starts_nothing, starts_number, parse_number, parse_value, parse_array, parse_items, parse_object,
  parse_members,
}
use cget.Json.Printer.{
  quoted, indent_text, comma_items, comma_members, print_value, print_items, print_members,
}
use cget.Json.Texts.{IsReadable}
use cget.Json.Maps.{IsOrdered}

-- Values that are printed whole: numbers that are read back, objects in the order of their keys.
abbrev mutual
  pub IsPrintable : Numbers → Value → Type 0
  IsPrintable n null = Unit
  IsPrintable n (bool b) = Unit
  IsPrintable n (number x) = IsReadable n x
  IsPrintable n (string s) = Unit
  IsPrintable n (array vs) = ItemsPrintable n vs
  IsPrintable n (object ms) = IsOrdered ms × MembersPrintable n ms

  pub ItemsPrintable : Numbers → Items → Type 0
  ItemsPrintable n no_items = Unit
  ItemsPrintable n (item v vs) = IsPrintable n v × ItemsPrintable n vs

  pub MembersPrintable : Numbers → Members → Type 0
  MembersPrintable n no_members = Unit
  MembersPrintable n (member k v ms) = IsPrintable n v × MembersPrintable n ms

abbrev pub Opens : Text → Type 0
Opens t = (is_json_space (peek t) ≡ false) × ((peek t == b']') ≡ false)

number-Opens : (c : ℕ) (cs : Text) → start_of c ≡ starts_number → Opens (c ∷ cs)
unfolding start_of is_digit is_json_space
number-Opens c cs h = (ground arith, ground arith)

pub print_value-Opens :
    (n : Numbers) (indent level : ℕ) (v : Value) (rest : Text)
    → IsPrintable n v
    → Opens (print_value n indent level v ++ rest)
unfolding print_value quoted is_json_space str
print_value-Opens n indent level null rest p = (refl, refl)
print_value-Opens n indent level (bool true) rest p = (refl, refl)
print_value-Opens n indent level (bool false) rest p = (refl, refl)
print_value-Opens n indent level (number x) rest p =
    let (c, cs, e, starts) = p.begins in rw e (number-Opens c (cs ++ rest) starts)
print_value-Opens n indent level (string s) rest p = (refl, refl)
print_value-Opens n indent level (array no_items) rest p = (refl, refl)
print_value-Opens n indent level (array (item v vs)) rest p = (refl, refl)
print_value-Opens n indent level (object no_members) rest p = (refl, refl)
print_value-Opens n indent level (object (member k v ms)) rest p = (refl, refl)

-- The parser looks at a value from its first byte on.
pub value_skips :
    (n : Numbers) (size f : ℕ) (t u : Text)
    → skip_whitespace t ≡ skip_whitespace u
    → parse_value n size f t ≡ parse_value n size f u
unfolding parse_value
value_skips n size zero t u e = refl
value_skips n size (suc f) t u e =
    ap
      (λ (ready : Text). elim (start_of (peek ready)) as (λ x. Read (Value × Text)) [
        | starts_null ↦ parse_literal size (str "null") ready >>= λ rest. read (null, rest)
        | starts_true ↦ parse_literal size (str "true") ready >>= λ rest. read (bool true, rest)
        | starts_false ↦ parse_literal size (str "false") ready >>= λ rest. read (bool false, rest)
        | starts_string ↦ parse_string size ready >>= λ r. read (string r.0, r.1)
        | starts_array ↦ parse_array n size f (skip_whitespace (rest_of ready))
        | starts_object ↦ parse_object n size f (skip_whitespace (rest_of ready))
        | starts_number ↦ parse_number n size ready
        | starts_nothing ↦ fail size ready (str "expected value")
      ])
      e

pub items_skip :
    (n : Numbers) (size f : ℕ) (t u : Text)
    → skip_whitespace t ≡ skip_whitespace u
    → parse_items n size f t ≡ parse_items n size f u
unfolding parse_items
items_skip n size zero t u e = refl
items_skip n size (suc f) t u e = rw (value_skips n size f t u e) refl

pub members_skip :
    (n : Numbers) (size f : ℕ) (t u : Text)
    → skip_whitespace t ≡ skip_whitespace u
    → parse_members n size f t ≡ parse_members n size f u
unfolding parse_members
members_skip n size zero t u e = refl
members_skip n size (suc f) t u e = rw e refl

pub items_split :
    (n : Numbers) (indent level : ℕ) (v : Value) (vs : Items) (x : Text)
    → print_items n indent level (item v vs) ++ x
      ≡ indent_text level
        ++ (print_value n indent level v
            ++ (comma_items vs ++ (10 ∷ (print_items n indent level vs ++ x))))
unfolding print_items
items_split n indent level v vs x =
    rw
      (
        append_assoc (indent_text level)
            (print_value n indent level v
              ++ (comma_items vs ++ (10 ∷ print_items n indent level vs)))
            x,
        append_assoc (print_value n indent level v)
            (comma_items vs ++ (10 ∷ print_items n indent level vs)) x,
        append_assoc (comma_items vs) (10 ∷ print_items n indent level vs) x,
      )
      refl

pub members_split :
    (n : Numbers) (indent level : ℕ) (k : Text) (v : Value) (ms : Members) (x : Text)
    → print_members n indent level (member k v ms) ++ x
      ≡ indent_text level
        ++ (quoted k
            ++ (b':'
                ∷ (32
                    ∷ (print_value n indent level v
                        ++ (comma_members ms ++ (10 ∷ (print_members n indent level ms ++ x)))))))
unfolding print_members
members_split n indent level k v ms x =
    rw
      (
        append_assoc (indent_text level)
            (quoted k
              ++ (b':'
                  ∷ (32
                      ∷ (print_value n indent level v
                          ++ (comma_members ms ++ (10 ∷ print_members n indent level ms))))))
            x,
        append_assoc (quoted k)
            (b':'
              ∷ (32
                  ∷ (print_value n indent level v
                      ++ (comma_members ms ++ (10 ∷ print_members n indent level ms)))))
            x,
        append_assoc (print_value n indent level v)
            (comma_members ms ++ (10 ∷ print_members n indent level ms)) x,
        append_assoc (comma_members ms) (10 ∷ print_members n indent level ms) x,
      )
      refl
