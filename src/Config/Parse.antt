-- ===== src/Config/Parse.antt =====
-- The parsing of values in src/config/config_manager.cpp.
pub mod Numbers
use cget.Prelude.{
  ℕ, ◌+◌, ◌-◌, ◌*◌, ◌/◌, Bool, true, false, ◌&&◌, ◌||◌, not, Option, none, some, List, [], ◌∷◌,
  ◌++◌, Text, str, text_eq, ltb, leb, ◌==◌, if◌then◌else◌, u64, u64_mod, u32_mod,
}
use cget.Core.Errors.{Result, ok, err, ◌>>=◌, throw, ErrorCode}
use cget.Network.Scheme.{lower}
use cget.Scheduler.Defs.{SchedulingPolicyType}
use cget.Config.Bandwidth.{is_digit}

-- The loop of `parsePositiveUintLocal`: the sum is kept in 64 bits, and none is a byte that is no digit.
unfoldable pub scan_wrapping : ℕ → Text → Option ℕ
scan_wrapping parsed [] = some parsed
scan_wrapping parsed (c ∷ cs) =
    let rest = scan_wrapping (u64 (parsed * 10 + (c - b'0'))) cs in
    if is_digit c then rest else none

unfoldable pub positive_in_range : Text → Option ℕ → Result ℕ
positive_in_range key none =
    throw ErrorCode.invalid_command_error (key ++ str " requires a positive integer")
positive_in_range key (some parsed) =
    if parsed == 0 || leb u32_mod parsed
    then throw ErrorCode.invalid_command_error (key ++ str " is out of range")
    else ok parsed

unfoldable pub parse_positive_uint : Text → Text → Result ℕ
parse_positive_uint key value =
    if text_eq value []
    then throw ErrorCode.invalid_command_error (key ++ str " requires a positive integer")
    else positive_in_range key (scan_wrapping 0 value)

-- The loop of `parseUint64Local`, with its test before each digit is added.
unfoldable pub scan_checked : Text → ℕ → Text → Result ℕ
scan_checked key parsed [] = ok parsed
scan_checked key parsed (c ∷ cs) =
    let digit = c - b'0' in
    let rest = scan_checked key (parsed * 10 + digit) cs in
    if is_digit c
    then if ltb ((u64_mod - 1 - digit) / 10) parsed
      then throw ErrorCode.invalid_command_error (key ++ str " is out of range")
      else rest
    else throw ErrorCode.invalid_command_error (key ++ str " requires an integer")

unfoldable pub parse_uint64 : Text → Text → Result ℕ
parse_uint64 key value =
    if text_eq value []
    then throw ErrorCode.invalid_command_error (key ++ str " requires an integer")
    else scan_checked key 0 value

unfoldable pub is_valid_log_level_name : Text → Bool
is_valid_log_level_name value =
    let normalized = lower value in
    text_eq normalized (str "trace")
    || text_eq normalized (str "debug")
    || text_eq normalized (str "info")
    || text_eq normalized (str "warn")
    || text_eq normalized (str "warning")
    || text_eq normalized (str "error")
    || text_eq normalized (str "fatal")
    || text_eq normalized (str "off")
    || text_eq normalized (str "none")

unfoldable pub parse_bool_value : Text → Option Bool
parse_bool_value value =
    let normalized = lower value in
    if text_eq normalized (str "1")
      || text_eq normalized (str "true")
      || text_eq normalized (str "yes")
      || text_eq normalized (str "on")
    then some true
    else if text_eq normalized (str "0")
        || text_eq normalized (str "false")
        || text_eq normalized (str "no")
        || text_eq normalized (str "off")
    then some false
    else none

-- `ConfigManager::parseBool`.
unfoldable pub parse_bool : Text → Text → Result Bool
parse_bool key value = elim (parse_bool_value value) [
  | some parsed ↦ ok parsed
  | none ↦ throw ErrorCode.invalid_command_error (key ++ str " requires true or false")
]

unfoldable pub policy_to_string : SchedulingPolicyType → Text
policy_to_string SchedulingPolicyType.fifo = str "fifo"
policy_to_string SchedulingPolicyType.small_task_first = str "small_task_first"

unfoldable pub scheduling_policy_from_string : Text → Result SchedulingPolicyType
scheduling_policy_from_string value =
    let normalized = lower value in
    if text_eq normalized (str "fifo")
    then ok SchedulingPolicyType.fifo
    else if text_eq normalized (str "small_task_first")
        || text_eq normalized (str "small-task-first")
    then ok SchedulingPolicyType.small_task_first
    else throw ErrorCode.invalid_command_error
        (str "scheduler.policy must be fifo or small_task_first")
