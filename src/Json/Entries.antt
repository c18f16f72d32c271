-- ===== src/Json/Entries.antt =====
-- What stands around the entries of a printed array or object, and how long their text is.
use cget.Prelude.{
  ℕ, suc, ◌+◌, ◌≤◌, ◌<◌, ◌≡◌, refl, inl, inr, true, false, [], ◌∷◌, ◌++◌, Text, str, arith, length,
  length-append,
}
use cget.Json.Syntax.{
  Value, Items, Members, null, bool, number, string, array, object, no_items, item, no_members,
  member, Numbers,
}
use cget.Json.Scan.{is_json_space, skip_whitespace}
use cget.Json.Printer.{
  quoted, indent_text, comma_items, comma_members, print_value, print_items, print_members,
}
use cget.Json.Texts.{Stops}
use cget.Json.Reading.{IsPrintable}
use cget.Json.Leaves.{closing, skip_to_close}

-- What is behind an entry, and how it stops a number.
pub items_stop :
    (n : Numbers) (indent level : ℕ) (vs : Items) (x : Text)
    → Stops (comma_items vs ++ (10 ∷ (print_items n indent level vs ++ x)))
items_stop n indent level no_items x = inr refl
items_stop n indent level (item v vs) x = inl refl

pub members_stop :
    (n : Numbers) (indent level : ℕ) (ms : Members) (x : Text)
    → Stops (comma_members ms ++ (10 ∷ (print_members n indent level ms ++ x)))
members_stop n indent level no_members x = inr refl
members_stop n indent level (member k v ms) x = inl refl

pub skip_colon : (t : Text) → skip_whitespace (b':' ∷ t) ≡ b':' ∷ t
unfolding skip_whitespace is_json_space
skip_colon t = refl

pub skip_comma : (t : Text) → skip_whitespace (b',' ∷ t) ≡ b',' ∷ t
unfolding skip_whitespace is_json_space
skip_comma t = refl

pub last_item :
    (n : Numbers) (indent level k close : ℕ) (rest : Text)
    → is_json_space close ≡ false
    → skip_whitespace (10 ∷ (print_items n indent level no_items ++ closing k close rest))
      ≡ close ∷ rest
unfolding print_items
last_item n indent level k close rest h = skip_to_close k close rest h

pub last_member :
    (n : Numbers) (indent level k close : ℕ) (rest : Text)
    → is_json_space close ≡ false
    → skip_whitespace (10 ∷ (print_members n indent level no_members ++ closing k close rest))
      ≡ close ∷ rest
unfolding print_members
last_member n indent level k close rest h = skip_to_close k close rest h

pub length-members :
    (n : Numbers) (indent level : ℕ) (k : Text) (v : Value) (ms : Members)
    → length (print_members n indent level (member k v ms))
      ≡ length (indent_text level)
        + (length (quoted k)
            + suc (
                suc (
                  length (print_value n indent level v)
                  + (length (comma_members ms) + suc (length (print_members n indent level ms))))))
unfolding print_members
length-members n indent level k v ms =
    rw
      (
        length-append (indent_text level) (
            quoted k
            ++ (b':'
                ∷ (32
                    ∷ (print_value n indent level v
                        ++ (comma_members ms ++ (10 ∷ print_members n indent level ms)))))),
        length-append (quoted k) (
            b':'
            ∷ (32
                ∷ (print_value n indent level v
                    ++ (comma_members ms ++ (10 ∷ print_members n indent level ms))))),
        length-append (print_value n indent level v)
            (comma_members ms ++ (10 ∷ print_members n indent level ms)),
        length-append (comma_members ms) (10 ∷ print_members n indent level ms),
      )
      refl

pub length-array :
    (n : Numbers) (indent level : ℕ) (v : Value) (vs : Items)
    → length (print_items n indent (level + indent) (item v vs)) + 3
      ≤ length (print_value n indent level (array (item v vs)))
unfolding print_value
length-array n indent level v vs = omega (
  arith,
  length-append (print_items n indent (level + indent) (item v vs))
      (indent_text level ++ b']' ∷ []),
  length-append (indent_text level) (b']' ∷ []),
)

pub length-object :
    (n : Numbers) (indent level : ℕ) (k : Text) (v : Value) (ms : Members)
    → length (print_members n indent (level + indent) (member k v ms)) + 3
      ≤ length (print_value n indent level (object (member k v ms)))
unfolding print_value
length-object n indent level k v ms = omega (
  arith,
  length-append (print_members n indent (level + indent) (member k v ms))
      (indent_text level ++ b'}' ∷ []),
  length-append (indent_text level) (b'}' ∷ []),
)

pub length-value :
    (n : Numbers) (indent level : ℕ) (v : Value)
    → IsPrintable n v
    → 0 < length (print_value n indent level v)
unfolding print_value quoted str
length-value n indent level null p = omega arith
length-value n indent level (bool true) p = omega arith
length-value n indent level (bool false) p = omega arith
length-value n indent level (number x) p = let (c, cs, e, starts) = p.begins in rw e (omega arith)
length-value n indent level (string s) p = omega arith
length-value n indent level (array no_items) p = omega arith
length-value n indent level (array (item v vs)) p = omega arith
length-value n indent level (object no_members) p = omega arith
length-value n indent level (object (member k v ms)) p = omega arith

pub length-items :
    (n : Numbers) (indent level : ℕ) (v : Value) (vs : Items)
    → length (print_items n indent level (item v vs))
      ≡ length (indent_text level)
        + (length (print_value n indent level v)
            + (length (comma_items vs) + suc (length (print_items n indent level vs))))
unfolding print_items
length-items n indent level v vs =
    rw
      (
        length-append (indent_text level) (
            print_value n indent level v
            ++ (comma_items vs ++ (10 ∷ print_items n indent level vs))),
        length-append (print_value n indent level v)
            (comma_items vs ++ (10 ∷ print_items n indent level vs)),
        length-append (comma_items vs) (10 ∷ print_items n indent level vs),
      )
      refl
