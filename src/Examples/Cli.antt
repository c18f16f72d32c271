-- ===== src/Examples/Cli.antt =====
-- The theorem on the command line at a concrete input.
use cget.Prelude.{◌<◌, ◌^◌, List, [], ◌∷◌, Text, str, text_eq, All}
use cget.Prelude.Decimal.{value_from, IsDigit}
use cget.Config.Bandwidth.{is_digit}
use cget.Cli.Parser.{
  find_option, is_unsigned_integer, add_option, parse_add_options, parse_add, parse,
}
use cget.Cli.Accepts.{parse-GoodThreads}

-- `add u --threads 8`
abbrev eight_threads : List Text
eight_threads = str "add" ∷ (str "u" ∷ (str "--threads" ∷ (str "8" ∷ [])))

parse-GoodThreads_example :
    All IsDigit (str "8") × (0 < value_from 0 (str "8")) × (value_from 0 (str "8") < 2 ^ 32)
unfolding parse parse_add parse_add_options add_option is_unsigned_integer is_digit find_option str
    text_eq value_from
parse-GoodThreads_example = parse-GoodThreads eight_threads
