-- ===== src/Json/Leaves.antt =====
-- How the parser reads a printed value without entries, and how it enters an array or an object.
use cget.Prelude.{
  ℕ, suc, ◌+◌, ◌≡◌, refl, ◌∙◌, ap, Bool, true, false, some, [], ◌∷◌, ◌++◌, Text, str, arith, ◌==◌,
}
use mathlib.Core.List.{append_assoc}
use cget.Core.Types.{Double}
use cget.Network.Scheme.{starts_with}
use cget.Json.Syntax.{
  Value, Items, Members, null, bool, number, string, array, object, no_items, item, no_members,
  member, Numbers,
}
use cget.Json.Scan.{read, peek, is_json_space, skip_whitespace, parse_literal, scan_number}
use cget.Json.Parser.{
  start_of, starts_number, parse_number, parse_value, parse_array, parse_items, parse_object,
  parse_members,
}
use cget.Json.Printer.{
  quoted, indent_text, number_text, comma_items, comma_members, print_value, print_items,
  print_members,
}
use cget.Json.Texts.{IsReadable, Stops, skip_stops, skip_space, skip_indent, parse_string-quoted}
use cget.Json.Maps.{IsOrdered, collect_ordered}
use cget.Json.Reading.{
  IsPrintable, print_value-Opens, items_skip, members_skip, items_split, members_split,
}

-- What stands behind the last entry: the indentation and the closing byte.
abbrev pub closing : ℕ → ℕ → Text → Text
closing level close rest = indent_text level ++ close ∷ rest

pub skip_to_close :
    (level close : ℕ) (rest : Text)
    → is_json_space close ≡ false
    → skip_whitespace (10 ∷ closing level close rest) ≡ close ∷ rest
unfolding is_json_space
skip_to_close level close rest h =
    skip_space 10 (closing level close rest) refl
    ∙ (skip_indent level (close ∷ rest) ∙ skip_stops (close ∷ rest) h)

pub read_null :
    (n : Numbers) (size indent level f : ℕ) (rest : Text)
    → parse_value n size (suc f) (print_value n indent level null ++ rest) ≡ read (null, rest)
unfolding parse_value parse_literal skip_whitespace is_json_space starts_with start_of str
    print_value
read_null n size indent level f rest = refl

pub read_bool :
    (n : Numbers) (size indent level f : ℕ) (b : Bool) (rest : Text)
    → parse_value n size (suc f) (print_value n indent level (bool b) ++ rest) ≡ read (bool b, rest)
unfolding parse_value parse_literal skip_whitespace is_json_space starts_with start_of str
    print_value
read_bool n size indent level f true rest = refl
read_bool n size indent level f false rest = refl

pub read_string :
    (n : Numbers) (size indent level f : ℕ) (s rest : Text)
    → parse_value n size (suc f) (print_value n indent level (string s) ++ rest)
      ≡ read (string s, rest)
unfolding parse_value skip_whitespace is_json_space start_of quoted print_value
read_string n size indent level f s rest = rw (parse_string-quoted size s rest) refl

at_number :
    (n : Numbers) (size f : ℕ) (t : Text)
    → start_of (peek (skip_whitespace t)) ≡ starts_number
    → parse_value n size (suc f) t ≡ parse_number n size (skip_whitespace t)
unfolding parse_value
at_number n size f t e = rw (e, parse_value) refl

number_parsed :
    (n : Numbers) (size : ℕ) (x : Double) (t text rest : Text)
    → scan_number t ≡ (text, rest)
    → n.stod text ≡ some x
    → parse_number n size t ≡ read (number x, rest)
unfolding parse_number
number_parsed n size x t text rest scanned stored =
    rw (scanned, stored, parse_number) (ap (λ r. read (number x, r.1)) scanned)

pub read_number :
    (n : Numbers) (size indent level f : ℕ) (x : Double) (rest : Text)
    → IsReadable n x
    → Stops rest
    → parse_value n size (suc f) (print_value n indent level (number x) ++ rest)
      ≡ read (number x, rest)
unfolding print_value
read_number n size indent level f x rest p stops =
    let (c, cs, e, starts) = p.begins in
    let skip : skip_whitespace (number_text n x ++ rest) ≡ number_text n x ++ rest =
      skip_stops (number_text n x ++ rest) (print_value-Opens n 0 0 (number x) rest p).0 in
    let first : start_of (peek (number_text n x ++ rest)) ≡ starts_number = rw e starts in
    at_number n size f (number_text n x ++ rest) (ap (λ t. start_of (peek t)) skip ∙ first)
    ∙ (ap (parse_number n size) skip
        ∙ number_parsed n size x (number_text n x ++ rest) (number_text n x) rest
            (p.scanned rest stops) p.stored)

pub read_nothing :
    (n : Numbers) (size indent level f : ℕ) (rest : Text)
    → (parse_value n size (suc (suc f)) (print_value n indent level (array no_items) ++ rest)
        ≡ read (array no_items, rest))
      × (parse_value n size (suc (suc f)) (print_value n indent level (object no_members) ++ rest)
          ≡ read (object no_members, rest))
unfolding parse_value parse_array parse_object skip_whitespace is_json_space start_of print_value
read_nothing n size indent level f rest = (refl, refl)

skip_twice : (t : Text) → skip_whitespace (skip_whitespace t) ≡ skip_whitespace t
unfolding skip_whitespace
skip_twice [] = refl
skip_twice (c ∷ cs) = ground (arith, skip_twice cs)

pub read_array :
    (n : Numbers) (size f : ℕ) (t : Text) (vs : Items) (rest : Text)
    → (peek (skip_whitespace t) == b']') ≡ false
    → parse_items n size f t ≡ read (vs, rest)
    → parse_value n size (suc (suc f)) (b'[' ∷ t) ≡ read (array vs, rest)
unfolding parse_value parse_array skip_whitespace is_json_space start_of
read_array n size f t vs rest inside e =
    rw (inside, items_skip n size f (skip_whitespace t) t (skip_twice t), e) refl

pub read_object :
    (n : Numbers) (size f : ℕ) (t : Text) (ms : Members) (rest : Text)
    → (peek (skip_whitespace t) == b'}') ≡ false
    → parse_members n size f t ≡ read (ms, rest)
    → IsOrdered ms
    → parse_value n size (suc (suc f)) (b'{' ∷ t) ≡ read (object ms, rest)
unfolding parse_value parse_object skip_whitespace is_json_space start_of
read_object n size f t ms rest inside e ordered =
    rw
      (
        inside,
        members_skip n size f (skip_whitespace t) t (skip_twice t),
        e,
        collect_ordered ms ordered,
      )
      refl

pub array_split :
    (n : Numbers) (indent level : ℕ) (v : Value) (vs : Items) (rest : Text)
    → print_value n indent level (array (item v vs)) ++ rest
      ≡ b'[' ∷ (10 ∷ (print_items n indent (level + indent) (item v vs) ++ closing level b']' rest))
unfolding print_value
array_split n indent level v vs rest =
    ap (λ t. b'[' ∷ (10 ∷ t))
      (append_assoc (print_items n indent (level + indent) (item v vs))
          (indent_text level ++ b']' ∷ []) rest
        ∙ ap (λ t. print_items n indent (level + indent) (item v vs) ++ t)
            (append_assoc (indent_text level) (b']' ∷ []) rest))

pub object_split :
    (n : Numbers) (indent level : ℕ) (k : Text) (v : Value) (ms : Members) (rest : Text)
    → print_value n indent level (object (member k v ms)) ++ rest
      ≡ b'{'
        ∷ (10
            ∷ (print_members n indent (level + indent) (member k v ms) ++ closing level b'}' rest))
unfolding print_value
object_split n indent level k v ms rest =
    ap (λ t. b'{' ∷ (10 ∷ t))
      (append_assoc (print_members n indent (level + indent) (member k v ms))
          (indent_text level ++ b'}' ∷ []) rest
        ∙ ap (λ t. print_members n indent (level + indent) (member k v ms) ++ t)
            (append_assoc (indent_text level) (b'}' ∷ []) rest))

-- A key stands at its opening quote.
pub skip_quoted :
    (level : ℕ) (k t : Text)
    → skip_whitespace (indent_text level ++ (quoted k ++ t)) ≡ quoted k ++ t
unfolding quoted is_json_space
skip_quoted level k t = skip_indent level (quoted k ++ t) ∙ skip_stops (quoted k ++ t) refl

quoted_first : (k t : Text) → (peek (quoted k ++ t) == b'}') ≡ false
unfolding quoted
quoted_first k t = refl

pub no_space :
    (is_json_space 10 ≡ true)
    × ((is_json_space b']' ≡ false) × ((is_json_space b'}' ≡ false) × (is_json_space 32 ≡ true)))
unfolding is_json_space
no_space = (refl, (refl, (refl, refl)))

pub array_inside :
    (n : Numbers) (indent level : ℕ) (v : Value) (vs : Items) (x : Text)
    → IsPrintable n v
    → (peek (skip_whitespace (10 ∷ (print_items n indent level (item v vs) ++ x))) == b']') ≡ false
array_inside n indent level v vs x p =
    let text =
      print_value n indent level v
      ++ (comma_items vs ++ (10 ∷ (print_items n indent level vs ++ x))) in
    let (first, open_) =
      print_value-Opens n indent level v
        (comma_items vs ++ (10 ∷ (print_items n indent level vs ++ x))) p in
    let skipped : skip_whitespace (10 ∷ (indent_text level ++ text)) ≡ text =
      skip_space 10 (indent_text level ++ text) no_space.0
      ∙ (skip_indent level text ∙ skip_stops text first) in
    rw (items_split n indent level v vs x, skipped) open_

pub object_inside :
    (n : Numbers) (indent level : ℕ) (k : Text) (v : Value) (ms : Members) (x : Text)
    → (peek (skip_whitespace (10 ∷ (print_members n indent level (member k v ms) ++ x))) == b'}')
      ≡ false
object_inside n indent level k v ms x =
    let behind =
      b':'
      ∷ (32
          ∷ (print_value n indent level v
              ++ (comma_members ms ++ (10 ∷ (print_members n indent level ms ++ x))))) in
    let skipped : skip_whitespace (10 ∷ (indent_text level ++ (quoted k ++ behind)))
        ≡ quoted k ++ behind =
      skip_space 10 (indent_text level ++ (quoted k ++ behind)) no_space.0
      ∙ skip_quoted level k behind in
    rw (members_split n indent level k v ms x, skipped) (quoted_first k behind)
