-- ===== src/Json/Printer.antt =====
-- The printer of src/persistence/json.cpp. The stream is the text that is printed.
use cget.Prelude.{
  ℕ, zero, suc, ◌+◌, Bool, true, false, [], ◌∷◌, ◌++◌, Text, str, ◌==◌, if◌then◌else◌,
}
use cget.Prelude.Decimal.{to_string}
use cget.Core.Types.{Double}
use cget.Json.Syntax.{
  Value, Items, Members, null, bool, number, string, array, object, no_items, item, no_members,
  member, Numbers,
}

-- The text of one byte in `escapeString`.
unfoldable pub escape_byte : ℕ → Text
escape_byte c =
    if c == 34
    then 92 ∷ (34 ∷ [])
    else if c == 92
    then 92 ∷ (92 ∷ [])
    else if c == 8
    then 92 ∷ (b'b' ∷ [])
    else if c == 12
    then 92 ∷ (b'f' ∷ [])
    else if c == 10
    then 92 ∷ (b'n' ∷ [])
    else if c == 13
    then 92 ∷ (b'r' ∷ [])
    else if c == 9
    then 92 ∷ (b't' ∷ [])
    else c ∷ []

-- `escapeString`.
unfoldable pub escape_string : Text → Text
escape_string [] = []
escape_string (c ∷ cs) = escape_byte c ++ escape_string cs

unfoldable pub quoted : Text → Text
quoted s = 34 ∷ (escape_string s ++ 34 ∷ [])

-- `appendIndent`.
unfoldable pub indent_text : ℕ → Text
indent_text zero = []
indent_text (suc count) = 32 ∷ indent_text count

unfoldable pub number_text : Numbers → Double → Text
number_text n x = if n.is_whole x then to_string (n.to_u64 x) else n.print_17 x

abbrev pub bool_json : Bool → Text
bool_json true = str "true"
bool_json false = str "false"

-- A comma after every entry but the last.
abbrev pub comma_items : Items → Text
comma_items no_items = []
comma_items (item v vs) = b',' ∷ []

abbrev pub comma_members : Members → Text
comma_members no_members = []
comma_members (member k v ms) = b',' ∷ []

module _ (n : Numbers) (indent : ℕ) where
  unfoldable mutual
    -- `stringifyInto` at the level `level`.
    pub print_value : ℕ → Value → Text
    print_value level null = str "null"
    print_value level (bool b) = bool_json b
    print_value level (number x) = number_text n x
    print_value level (string s) = quoted s
    print_value level (array no_items) = b'[' ∷ (b']' ∷ [])
    print_value level (array (item v vs)) =
        b'[' ∷ (10 ∷ (print_items (level + indent) (item v vs) ++ (indent_text level ++ b']' ∷ [])))
    print_value level (object no_members) = b'{' ∷ (b'}' ∷ [])
    print_value level (object (member k v ms)) =
        b'{'
        ∷ (10
            ∷ (print_members (level + indent) (member k v ms) ++ (indent_text level ++ b'}' ∷ [])))

    -- The loop over an array, at the level of its entries.
    pub print_items : ℕ → Items → Text
    print_items level no_items = []
    print_items level (item v vs) =
        indent_text level
        ++ (print_value level v ++ (comma_items vs ++ (10 ∷ print_items level vs)))

    -- The loop over an object.
    pub print_members : ℕ → Members → Text
    print_members level no_members = []
    print_members level (member k v ms) =
        indent_text level
        ++ (quoted k
            ++ (b':'
                ∷ (32
                    ∷ (print_value level v
                        ++ (comma_members ms ++ (10 ∷ print_members level ms))))))

-- `json::stringify`.
unfoldable pub stringify : Numbers → ℕ → Value → Text
stringify n indent v = print_value n indent 0 v ++ 10 ∷ []
