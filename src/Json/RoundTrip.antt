-- ===== src/Json/RoundTrip.antt =====
-- What json::stringify prints, json::parse reads back.
use cget.Prelude.{
  ℕ, zero, suc, ◌+◌, ◌*◌, ◌≤◌, ◌≡◌, refl, ◌∙◌, inl, inr, [], ◌∷◌, ◌++◌, Text, text_eq, arith,
  length, length-append,
}
use cget.Core.Errors.{ok}
use cget.Json.Syntax.{
  Value, Items, Members, null, bool, number, string, array, object, no_items, item, no_members,
  member, Numbers,
}
use cget.Json.Scan.{read, is_json_space, skip_whitespace}
use cget.Json.Parser.{
  parse_value, parse_array, parse_items, parse_object, parse_members, finish_parse, parse_fuel,
  result_of, parse_json,
}
use cget.Json.Printer.{indent_text, print_value, print_items, print_members, stringify}
use cget.Json.Texts.{Stops, skip_space, skip_indent, parse_string-quoted}
use cget.Json.Reading.{
  IsPrintable, ItemsPrintable, MembersPrintable, value_skips, items_skip, members_skip, items_split,
  members_split,
}
use cget.Json.Leaves.{
  closing, read_null, read_bool, read_string, read_number, read_nothing, read_array, read_object,
  array_split, object_split, array_inside, object_inside, no_space, skip_quoted,
}
use cget.Json.Entries.{
  items_stop, skip_colon, skip_comma, last_item, last_member, length-members, length-array,
  length-object, length-value, length-items,
}

module _ (n : Numbers) (size indent : ℕ) where
  mutual
    unfolding parse_value parse_array parse_items parse_object parse_members

    read_value :
        (f level : ℕ) (v : Value) (rest : Text)
        → IsPrintable n v
        → 3 * length (print_value n indent level v) ≤ f
        → Stops rest
        → parse_value n size f (print_value n indent level v ++ rest) ≡ read (v, rest)
    read_value zero level v rest p h stops =
        absurd (omega (arith, length-value n indent level v p, h))
    read_value (suc zero) level v rest p h stops =
        absurd (omega (arith, length-value n indent level v p, h))
    read_value (suc (suc f)) level null rest p h stops = read_null n size indent level (suc f) rest
    read_value (suc (suc f)) level (bool b) rest p h stops =
        read_bool n size indent level (suc f) b rest
    read_value (suc (suc f)) level (number x) rest p h stops =
        read_number n size indent level (suc f) x rest p stops
    read_value (suc (suc f)) level (string s) rest p h stops =
        read_string n size indent level (suc f) s rest
    read_value (suc (suc f)) level (array no_items) rest p h stops =
        (read_nothing n size indent level f rest).0
    read_value (suc (suc f)) level (array (item v vs)) rest p h stops =
        rw (array_split n indent level v vs rest) (
          read_array n size f
            (10 ∷ (print_items n indent (level + indent) (item v vs) ++ closing level b']' rest))
            (item v vs) rest
            (array_inside n indent (level + indent) v vs (closing level b']' rest) p.0)
            (items_skip n size f
                (10
                  ∷ (print_items n indent (level + indent) (item v vs) ++ closing level b']' rest))
                (print_items n indent (level + indent) (item v vs) ++ closing level b']' rest)
                (skip_space 10
                  (print_items n indent (level + indent) (item v vs) ++ closing level b']' rest)
                  no_space.0)
              ∙ read_items f (level + indent) level v vs rest p.0 p.1
                  (omega (arith, length-array n indent level v vs, h))))
    read_value (suc (suc f)) level (object no_members) rest p h stops =
        (read_nothing n size indent level f rest).1
    read_value (suc (suc f)) level (object (member k v ms)) rest p h stops =
        rw (object_split n indent level k v ms rest) (
          read_object n size f
            (10
              ∷ (print_members n indent (level + indent) (member k v ms)
                  ++ closing level b'}' rest))
            (member k v ms) rest
            (object_inside n indent (level + indent) k v ms (closing level b'}' rest))
            (members_skip n size f
                (10
                  ∷ (print_members n indent (level + indent) (member k v ms)
                      ++ closing level b'}' rest))
                (print_members n indent (level + indent) (member k v ms) ++ closing level b'}' rest)
                (skip_space 10
                  (print_members n indent (level + indent) (member k v ms)
                    ++ closing level b'}' rest)
                  no_space.0)
              ∙ read_members f (level + indent) level k v ms rest p.1.0 p.1.1
                  (omega (arith, length-object n indent level k v ms, h)))
            p.0)

    read_items :
        (f level k : ℕ) (v : Value) (vs : Items) (rest : Text)
        → IsPrintable n v
        → ItemsPrintable n vs
        → 3 * length (print_items n indent level (item v vs)) ≤ f
        → parse_items n size f (print_items n indent level (item v vs) ++ closing k b']' rest)
          ≡ read (item v vs, rest)
    read_items zero level k v vs rest p ps h =
        absurd (omega (arith, length-items n indent level v vs, h))
    read_items (suc f) level k v no_items rest p ps h =
        let x = closing k b']' rest in
        let after = 10 ∷ (print_items n indent level no_items ++ x) in
        rw
          (
            items_split n indent level v no_items x,
            value_skips n size f (indent_text level ++ (print_value n indent level v ++ after))
                (print_value n indent level v ++ after)
                (skip_indent level (print_value n indent level v ++ after)),
            read_value f level v after p (omega (arith, length-items n indent level v no_items, h))
                (items_stop n indent level no_items x),
            last_item n indent level k b']' rest no_space.1.0,
          )
          refl
    read_items (suc f) level k v (item w ws) rest p (q, qs) h =
        let x = closing k b']' rest in
        let more = print_items n indent level (item w ws) ++ x in
        let after = b',' ∷ (10 ∷ more) in
        rw
          (
            items_split n indent level v (item w ws) x,
            value_skips n size f (indent_text level ++ (print_value n indent level v ++ after))
                (print_value n indent level v ++ after)
                (skip_indent level (print_value n indent level v ++ after)),
            read_value f level v after p
                (omega (arith, length-items n indent level v (item w ws), h)) (inl refl),
            skip_comma (10 ∷ more),
            items_skip n size f (10 ∷ more) more (skip_space 10 more no_space.0),
            read_items f level k w ws rest q qs
                (omega (arith, length-items n indent level v (item w ws), h)),
          )
          refl

    read_members :
        (f level i : ℕ) (k : Text) (v : Value) (ms : Members) (rest : Text)
        → IsPrintable n v
        → MembersPrintable n ms
        → 3 * length (print_members n indent level (member k v ms)) ≤ f
        → parse_members n size f
            (print_members n indent level (member k v ms) ++ closing i b'}' rest)
          ≡ read (member k v ms, rest)
    read_members zero level i k v ms rest p ps h =
        absurd (omega (arith, length-members n indent level k v ms, h))
    read_members (suc f) level i k v no_members rest p ps h =
        let x = closing i b'}' rest in
        let after = 10 ∷ (print_members n indent level no_members ++ x) in
        let value = print_value n indent level v ++ after in
        rw
          (
            members_split n indent level k v no_members x,
            skip_quoted level k (b':' ∷ (32 ∷ value)),
            parse_string-quoted size k (b':' ∷ (32 ∷ value)),
            skip_colon (32 ∷ value),
            value_skips n size f (32 ∷ value) value (skip_space 32 value no_space.1.1.1),
            read_value f level v after p
                (omega (arith, length-members n indent level k v no_members, h)) (inr refl),
            last_member n indent level i b'}' rest no_space.1.1.0,
          )
          refl
    read_members (suc f) level i k v (member j w ms) rest p (q, qs) h =
        let x = closing i b'}' rest in
        let more = print_members n indent level (member j w ms) ++ x in
        let after = b',' ∷ (10 ∷ more) in
        let value = print_value n indent level v ++ after in
        rw
          (
            members_split n indent level k v (member j w ms) x,
            skip_quoted level k (b':' ∷ (32 ∷ value)),
            parse_string-quoted size k (b':' ∷ (32 ∷ value)),
            skip_colon (32 ∷ value),
            value_skips n size f (32 ∷ value) value (skip_space 32 value no_space.1.1.1),
            read_value f level v after p
                (omega (arith, length-members n indent level k v (member j w ms), h)) (inl refl),
            skip_comma (10 ∷ more),
            members_skip n size f (10 ∷ more) more (skip_space 10 more no_space.0),
            read_members f level i j w ms rest q qs
                (omega (arith, length-members n indent level k v (member j w ms), h)),
          )
          refl

finish_line : (size : ℕ) (v : Value) → finish_parse size (v, 10 ∷ []) ≡ read v
unfolding finish_parse skip_whitespace is_json_space text_eq
finish_line size v = refl

-- A value that is printed whole is what json::parse returns for the text that json::stringify prints:
-- whole numbers and others that std::stod reads back, objects in the order of their keys.
pub parse_json-stringify :
    (n : Numbers) (indent : ℕ) (v : Value)
    → IsPrintable n v
    → parse_json n (stringify n indent v) ≡ ok v
unfolding parse_json parse_fuel stringify result_of
parse_json-stringify n indent v p =
    let text = print_value n indent 0 v ++ 10 ∷ [] in
    let enough : 3 * length (print_value n indent 0 v) ≤ 3 * length text + 3 =
      omega (arith, length-append (print_value n indent 0 v) (10 ∷ [])) in
    rw
      (
        read_value n (length text) indent (3 * length text + 3) 0 v (10 ∷ []) p enough (inr refl),
        finish_line (length text) v,
      )
      refl
