-- ===== src/Cli/Parser.antt =====
-- src/cli/cli_parser.cpp: the parser of the command line. `tokens` are the arguments without the name of
-- the program. The map of options is a list of keys and values, of which the newest one counts.
use cget.Prelude.{
  Bool, true, false, ◌&&◌, ◌||◌, not, Option, none, some, List, [], ◌∷◌, ◌++◌, Text, str, text_eq,
  ltb, if◌then◌else◌, all_of, u32_mod,
}
use cget.Prelude.Decimal.{value_from}
use cget.Core.Errors.{Result, ok, ◌>>=◌, throw, ErrorCode}
use cget.Config.Bandwidth.{is_digit}

pub data CommandType : Type 0 where
  add pause resume remove run list stats status : CommandType
  config_get config_set protocols recover version help : CommandType

abbrev pub Options : Type 0
Options = List (Text × Text)

pub record Command : Type 0 where
  pub type : CommandType
  pub args : List Text
  pub options : Options

-- `options.find(key)`.
unfoldable pub find_option : Text → Options → Option Text
find_option key [] = none
find_option key ((k, v) ∷ rest) = if text_eq k key then some v else find_option key rest

abbrev pub simple : CommandType → Command
simple type = record { type = type; args = []; options = [] }

abbrev pub invalid : {A : Type 0} → Text → Result A
invalid message = throw ErrorCode.invalid_command_error message

-- `std::from_chars` to `unsigned` takes decimal digits only, and fails above 2^32 - 1.
unfoldable pub is_unsigned_integer : Text → Bool
is_unsigned_integer value =
    not (text_eq value [])
    && all_of is_digit value
    && ltb (value_from 0 value) u32_mod
    && ltb 0 (value_from 0 value)

-- What an option of `add` is: its key in the map, and whether it takes a value.
pub data AddOption : Type 0 where
  valued : Text → Text → AddOption
  number : AddOption
  flag : Text → AddOption
  unknown : AddOption

-- The chain of tests of `parseAdd`; the second text of `valued` is the message for a missing value.
unfoldable pub add_option : Text → AddOption
add_option token =
    if text_eq token (str "-o") || text_eq token (str "--output")
    then valued (str "output") (token ++ str " requires a path")
    else if text_eq token (str "--threads")
    then number
    else if text_eq token (str "--sha256")
    then valued (str "sha256") (str "--sha256 requires a 64-character hex digest")
    else if text_eq token (str "--limit")
    then valued (str "limit") (str "--limit requires a bandwidth value")
    else if text_eq token (str "--force")
    then flag (str "force")
    else if text_eq token (str "--queue")
    then flag (str "queue")
    else unknown

abbrev pub threads_message : Text
threads_message = str "--threads requires a positive integer"

-- The loop of `parseAdd`.
unfoldable pub parse_add_options : List Text → Options → Result Options
parse_add_options [] options = ok options
parse_add_options (token ∷ []) options = elim (add_option token) [
  | valued key message ↦ invalid message
  | number ↦ invalid threads_message
  | flag key ↦ ok ((key, str "true") ∷ options)
  | unknown ↦ invalid (str "unknown add option: " ++ token)
]
parse_add_options (token ∷ (value ∷ rest)) options = elim (add_option token) [
  | valued key message ↦ parse_add_options rest ((key, value) ∷ options)
  | number ↦ elim (is_unsigned_integer value) [
    | true ↦ parse_add_options rest ((str "threads", value) ∷ options)
    | false ↦ invalid threads_message
  ]
  | flag key ↦ parse_add_options (value ∷ rest) ((key, str "true") ∷ options)
  | unknown ↦ invalid (str "unknown add option: " ++ token)
]

-- `parseAdd`, on the tokens after `add`.
unfoldable pub parse_add : List Text → Result Command
parse_add [] = invalid (str "add requires a URL")
parse_add (url ∷ rest) = parse_add_options rest [] >>= λ options.
    ok (record { type = CommandType.add; args = url ∷ []; options = options })

-- `parseOneId`, on the tokens after the name of the command.
unfoldable pub parse_one_id : CommandType → List Text → Text → Result Command
parse_one_id type (id ∷ []) name = ok (record { type = type; args = id ∷ []; options = [] })
parse_one_id type [] name = invalid (name ++ str " requires a task id")
parse_one_id type (a ∷ (b ∷ cs)) name = invalid (name ++ str " requires a task id")

unfoldable pub config_get_args : List Text → Result Command
config_get_args [] = ok (simple CommandType.config_get)
config_get_args (key ∷ []) =
    ok (record { type = CommandType.config_get; args = key ∷ []; options = [] })
config_get_args (a ∷ (b ∷ cs)) = invalid (str "config get accepts at most one key")

unfoldable pub config_set_args : List Text → Result Command
config_set_args (key ∷ (value ∷ [])) =
    ok (record { type = CommandType.config_set; args = key ∷ (value ∷ []); options = [] })
config_set_args [] = invalid (str "config set requires a key and value")
config_set_args (a ∷ []) = invalid (str "config set requires a key and value")
config_set_args (a ∷ (b ∷ (c ∷ ds))) = invalid (str "config set requires a key and value")

-- `parseConfig`, on the tokens after `config`.
unfoldable pub parse_config : List Text → Result Command
parse_config [] = invalid (str "config requires get or set")
parse_config (verb ∷ rest) =
    if text_eq verb (str "get")
    then config_get_args rest
    else if text_eq verb (str "set")
    then config_set_args rest
    else invalid (str "unknown config command: " ++ verb)

-- A command without arguments.
unfoldable pub parse_alone : CommandType → List Text → Text → Result Command
parse_alone type [] name = ok (simple type)
parse_alone type (a ∷ more) name = invalid (name ++ str " does not accept positional arguments")

unfoldable pub parse : List Text → Result Command
parse [] = ok (simple CommandType.help)
parse (token ∷ rest) =
    if text_eq token (str "help") || text_eq token (str "-h") || text_eq token (str "--help")
    then ok (simple CommandType.help)
    else if text_eq token (str "version")
        || text_eq token (str "--version")
        || text_eq token (str "-V")
    then ok (simple CommandType.version)
    else if text_eq token (str "add")
    then parse_add rest
    else if text_eq token (str "pause")
    then parse_one_id CommandType.pause rest (str "pause")
    else if text_eq token (str "resume")
    then parse_one_id CommandType.resume rest (str "resume")
    else if text_eq token (str "remove")
    then parse_one_id CommandType.remove rest (str "remove")
    else if text_eq token (str "run")
    then parse_alone CommandType.run rest (str "run")
    else if text_eq token (str "list")
    then parse_alone CommandType.list rest (str "list")
    else if text_eq token (str "stats")
    then parse_alone CommandType.stats rest (str "stats")
    else if text_eq token (str "status")
    then parse_one_id CommandType.status rest (str "status")
    else if text_eq token (str "recover")
    then parse_alone CommandType.recover rest (str "recover")
    else if text_eq token (str "config")
    then parse_config rest
    else if text_eq token (str "protocols")
    then parse_alone CommandType.protocols rest (str "protocols")
    else invalid (str "unknown command: " ++ token)
