-- ===== src/Json/Parser.antt =====
-- The parser of src/persistence/json.cpp, by recursive descent. Each call costs a unit of fuel.
use cget.Prelude.{
  ℕ, zero, suc, ◌+◌, ◌*◌, true, false, ◌||◌, none, some, [], Text, str, text_eq, ◌==◌,
  if◌then◌else◌, length,
}
use cget.Core.Errors.{Result, ok}
use cget.Config.Bandwidth.{is_digit}
use cget.Json.Syntax.{
  Value, Items, Members, null, bool, number, string, array, object, no_items, item, no_members,
  member, Numbers, emplace, throw_runtime,
}
use cget.Json.Scan.{
  Read, thrown, out_of_fuel, read, ◌>>=◌, fail, peek, rest_of, skip_whitespace, parse_literal,
  parse_string, scan_number,
}

-- The members in the order in which they were read, put into a map one after the other.
unfoldable pub collect : Members → Members → Members
collect map no_members = map
collect map (member k v rest) = collect (emplace k v map) rest

-- The kinds of value that the first byte tells apart.
pub data Start : Type 0 where
  starts_null starts_true starts_false starts_string starts_array starts_object : Start
  starts_number starts_nothing : Start

unfoldable pub start_of : ℕ → Start
start_of c =
    if c == b'n'
    then starts_null
    else if c == b't'
    then starts_true
    else if c == b'f'
    then starts_false
    else if c == 34
    then starts_string
    else if c == b'['
    then starts_array
    else if c == b'{'
    then starts_object
    else if c == b'-' || is_digit c
    then starts_number
    else starts_nothing

module _ (n : Numbers) (size : ℕ) where
  -- `parseNumber`; `std::stod` throws when there is no number.
  unfoldable pub parse_number : Text → Read (Value × Text)
  parse_number input =
      let (text, rest) = scan_number input in
      elim (n.stod text) [ none ↦ thrown (str "stod") | some x ↦ read (number x, rest) ]

  unfoldable mutual
    -- `parseValue`.
    pub parse_value : ℕ → Text → Read (Value × Text)
    parse_value zero input = out_of_fuel
    parse_value (suc f) input =
        let ready = skip_whitespace input in
        elim (start_of (peek ready)) [
          | starts_null ↦ parse_literal size (str "null") ready >>= λ rest. read (null, rest)
          | starts_true ↦ parse_literal size (str "true") ready >>= λ rest. read (bool true, rest)
          | starts_false ↦
              parse_literal size (str "false") ready >>= λ rest. read (bool false, rest)
          | starts_string ↦ parse_string size ready >>= λ r. read (string r.0, r.1)
          | starts_array ↦ parse_array f (skip_whitespace (rest_of ready))
          | starts_object ↦ parse_object f (skip_whitespace (rest_of ready))
          | starts_number ↦ parse_number ready
          | starts_nothing ↦ fail size ready (str "expected value")
        ]

    -- `parseArray` after the bracket and the space behind it.
    pub parse_array : ℕ → Text → Read (Value × Text)
    parse_array zero input = out_of_fuel
    parse_array (suc f) input =
        let more = parse_items f input >>= λ r. read (array r.0, r.1) in
        if peek input == b']' then read (array no_items, rest_of input) else more

    -- The loop of `parseArray`.
    pub parse_items : ℕ → Text → Read (Items × Text)
    parse_items zero input = out_of_fuel
    parse_items (suc f) input = parse_value f input >>= λ r.
        (let after = skip_whitespace r.1 in
          let more = parse_items f (rest_of after) >>= λ q. read (item r.0 q.0, q.1) in
          if peek after == b']'
          then read (item r.0 no_items, rest_of after)
          else if peek after == b','
          then more
          else fail size after (str "expected ',' or ']'"))

    -- `parseObject` after the brace and the space behind it.
    pub parse_object : ℕ → Text → Read (Value × Text)
    parse_object zero input = out_of_fuel
    parse_object (suc f) input =
        let more = parse_members f input >>= λ r. read (object (collect no_members r.0), r.1) in
        if peek input == b'}' then read (object no_members, rest_of input) else more

    -- The loop of `parseObject`.
    pub parse_members : ℕ → Text → Read (Members × Text)
    parse_members zero input = out_of_fuel
    parse_members (suc f) input = parse_string size (skip_whitespace input) >>= λ k.
        (let colon = skip_whitespace k.1 in
          let value = parse_value f (rest_of colon) >>= λ r.
          (let after = skip_whitespace r.1 in
            let more = parse_members f (rest_of after) >>= λ q. read (member k.0 r.0 q.0, q.1) in
            if peek after == b'}'
            then read (member k.0 r.0 no_members, rest_of after)
            else if peek after == b','
            then more
            else fail size after (str "expected ',' or '}'")) in
          if peek colon == b':' then value else fail size colon (str "expected ':'"))

-- `Parser::parse`: nothing but space may follow.
unfoldable pub finish_parse : ℕ → Value × Text → Read Value
finish_parse size (v, rest) =
    if text_eq (skip_whitespace rest) []
    then read v
    else fail size (skip_whitespace rest) (str "unexpected trailing input")

unfoldable pub parse_fuel : Numbers → ℕ → Text → Read Value
parse_fuel n f input = parse_value n (length input) f input >>= λ r. finish_parse (length input) r

unfoldable pub result_of : Read Value → Result Value
result_of (read v) = ok v
result_of (thrown message) = throw_runtime message
result_of out_of_fuel = throw_runtime (str "out of fuel")

-- `json::parse`.
unfoldable pub parse_json : Numbers → Text → Result Value
parse_json n input = result_of (parse_fuel n (3 * length input + 3) input)
