-- ===== src/Config/Keys.antt =====
-- The keys of src/config/config_manager.cpp, and reading and setting the value of one.
use cget.Prelude.{
  ℕ, Bool, true, false, ◌&&◌, ◌||◌, Option, none, some, ◌++◌, Text, str, text_eq, leb, ◌==◌,
  if◌then◌else◌,
}
use cget.Prelude.Decimal.{to_string}
use cget.Core.Errors.{Result, ok, ◌>>=◌, throw, ErrorCode}
use cget.Network.Scheme.{lower, starts_with}
use cget.Config.Defs.{Config}
use cget.Config.Bandwidth.{Doubles, parse_bandwidth_limit}
use cget.Config.Parse.{
  parse_positive_uint, parse_uint64, parse_bool, is_valid_log_level_name, policy_to_string,
  scheduling_policy_from_string,
}
use cget.Config.Normalize.{normalize, apply_env}

-- `canonicalKeyName`.
unfoldable pub canonical_key_name : Text → Result Text
canonical_key_name key =
    if text_eq key (str "max_threads") || text_eq key (str "download.max_threads")
    then ok (str "download.max_threads")
    else if text_eq key (str "max_active_tasks") || text_eq key (str "download.max_active_tasks")
    then ok (str "download.max_active_tasks")
    else if text_eq key (str "max_download_rate_bytes_per_sec")
        || text_eq key (str "download.max_download_rate_bytes_per_sec")
    then ok (str "download.max_download_rate_bytes_per_sec")
    else if text_eq key (str "scheduler.max_global_workers")
    then ok (str "scheduler.max_global_workers")
    else if text_eq key (str "scheduler.max_concurrent_tasks")
    then ok (str "scheduler.max_concurrent_tasks")
    else if text_eq key (str "scheduler.max_chunks_per_task")
    then ok (str "scheduler.max_chunks_per_task")
    else if text_eq key (str "scheduler.max_chunk_queue_size")
    then ok (str "scheduler.max_chunk_queue_size")
    else if text_eq key (str "scheduler.policy")
    then ok (str "scheduler.policy")
    else if text_eq key (str "metrics.enabled")
    then ok (str "metrics.enabled")
    else if text_eq key (str "metrics.sample_interval_ms")
    then ok (str "metrics.sample_interval_ms")
    else if text_eq key (str "global_rate_limit") || text_eq key (str "rate_limit.global")
    then ok (str "rate_limit.global")
    else if text_eq key (str "task_default_rate_limit")
        || text_eq key (str "rate_limit.default_per_task")
    then ok (str "rate_limit.default_per_task")
    else if text_eq key (str "max_retries") || text_eq key (str "network.max_retries")
    then ok (str "network.max_retries")
    else if text_eq key (str "retry_base_delay_ms")
        || text_eq key (str "network.retry_base_delay_ms")
    then ok (str "network.retry_base_delay_ms")
    else if text_eq key (str "proxy") || text_eq key (str "network.proxy")
    then ok (str "network.proxy")
    else if text_eq key (str "persistence.flush_interval_ms")
    then ok (str "persistence.flush_interval_ms")
    else if text_eq key (str "logging.level")
    then ok (str "logging.level")
    else if text_eq key (str "logging.console")
    then ok (str "logging.console")
    else if text_eq key (str "logging.max_file_bytes")
    then ok (str "logging.max_file_bytes")
    else if text_eq key (str "logging.max_rotated_files")
    then ok (str "logging.max_rotated_files")
    else throw ErrorCode.invalid_command_error (str "unknown config key: " ++ key)

abbrev pub bool_text : Bool → Text
bool_text true = str "true"
bool_text false = str "false"

abbrev pub value_or_none : Option Text → Text
value_or_none none = str "none"
value_or_none (some value) = value

-- `formatRateLimit`; `format_bytes` prints with the library's `double`.
unfoldable pub format_rate_limit : (ℕ → Text) → Option ℕ → Text
format_rate_limit format_bytes none = str "unlimited"
format_rate_limit format_bytes (some n) =
    if n == 0 then str "unlimited" else format_bytes n ++ str "/s"

-- `valueForKey`, for a canonical key.
unfoldable pub value_for_canonical : (ℕ → Text) → Config → Text → Result Text
value_for_canonical format_bytes config canonical =
    if text_eq canonical (str "download.max_threads")
    then ok (to_string config.download.max_threads)
    else if text_eq canonical (str "download.max_active_tasks")
    then ok (to_string config.download.max_active_tasks)
    else if text_eq canonical (str "download.max_download_rate_bytes_per_sec")
    then ok (to_string config.download.max_download_rate_bytes_per_sec)
    else if text_eq canonical (str "scheduler.max_global_workers")
    then ok (to_string config.scheduler.max_global_workers)
    else if text_eq canonical (str "scheduler.max_concurrent_tasks")
    then ok (to_string config.scheduler.max_concurrent_tasks)
    else if text_eq canonical (str "scheduler.max_chunks_per_task")
    then ok (to_string config.scheduler.max_chunks_per_task)
    else if text_eq canonical (str "scheduler.max_chunk_queue_size")
    then ok (to_string config.scheduler.max_chunk_queue_size)
    else if text_eq canonical (str "scheduler.policy")
    then ok (policy_to_string config.scheduler.policy)
    else if text_eq canonical (str "metrics.enabled")
    then ok (bool_text config.metrics.enabled)
    else if text_eq canonical (str "metrics.sample_interval_ms")
    then ok (to_string config.metrics.sample_interval_ms)
    else if text_eq canonical (str "rate_limit.global")
    then ok (format_rate_limit format_bytes config.rate_limit.global_bytes_per_sec)
    else if text_eq canonical (str "rate_limit.default_per_task")
    then ok (format_rate_limit format_bytes config.rate_limit.default_per_task_bytes_per_sec)
    else if text_eq canonical (str "network.max_retries")
    then ok (to_string config.network.max_retries)
    else if text_eq canonical (str "network.retry_base_delay_ms")
    then ok (to_string config.network.retry_base_delay_ms)
    else if text_eq canonical (str "network.proxy")
    then ok (value_or_none config.network.proxy_url)
    else if text_eq canonical (str "persistence.flush_interval_ms")
    then ok (to_string config.persistence.flush_interval_ms)
    else if text_eq canonical (str "logging.level")
    then ok config.logging.level
    else if text_eq canonical (str "logging.console")
    then ok (bool_text config.logging.console)
    else if text_eq canonical (str "logging.max_file_bytes")
    then ok (to_string config.logging.max_file_bytes)
    else if text_eq canonical (str "logging.max_rotated_files")
    then ok (to_string config.logging.max_rotated_files)
    else throw ErrorCode.invalid_command_error (str "unknown config key: " ++ canonical)

unfoldable pub value_for_key : (ℕ → Text) → Config → Text → Result Text
value_for_key format_bytes config key =
    canonical_key_name key >>= λ canonical. value_for_canonical format_bytes config canonical

-- A positive number of which `ok_range` holds.
unfoldable pub ranged : (ℕ → Bool) → Text → Text → Text → Result ℕ
ranged in_range message key value = parse_positive_uint key value >>= λ parsed.
    if in_range parsed then ok parsed else throw ErrorCode.invalid_command_error message

unfoldable pub set_proxy : Text → Config → Result Config
set_proxy value config =
    if text_eq value (str "none")
      || text_eq value (str "off")
      || text_eq value (str "disable")
      || text_eq value (str "disabled")
    then ok (record config { network = record config.network { proxy_url = none } })
    else if starts_with (str "http://") value
        || starts_with (str "https://") value
        || starts_with (str "socks5://") value
    then ok (record config { network = record config.network { proxy_url = some value } })
    else throw ErrorCode.invalid_command_error
        (str "proxy must be none, http://..., https://..., or socks5://...")

unfoldable pub set_level : Text → Config → Result Config
set_level value config =
    if is_valid_log_level_name value
    then ok (record config { logging = record config.logging { level = lower value } })
    else throw ErrorCode.invalid_command_error
        (str "logging.level must be trace, debug, info, warn, error, fatal, or off")

-- The chain of `ConfigManager::set`: the configuration with the new value.
unfoldable pub set_value : Doubles → Text → Text → Text → Config → Result Config
set_value d canonical key value config =
    if text_eq canonical (str "download.max_threads")
    then ranged (λ n. leb n 32) (str "max_threads must be <= 32") key value
      >>= (λ n. ok (record config { download = record config.download { max_threads = n } }))
    else if text_eq canonical (str "download.max_active_tasks")
    then ranged (λ n. leb n 16) (str "max_active_tasks must be <= 16") key value
      >>= (λ n. ok (record config { download = record config.download { max_active_tasks = n } }))
    else if text_eq canonical (str "download.max_download_rate_bytes_per_sec")
    then parse_uint64 key value >>= (λ n.
      ok (record config {
        download = record config.download { max_download_rate_bytes_per_sec = n };
      }))
    else if text_eq canonical (str "scheduler.max_global_workers")
    then parse_positive_uint key value >>= (λ n.
      ok (record config { scheduler = record config.scheduler { max_global_workers = n } }))
    else if text_eq canonical (str "scheduler.max_concurrent_tasks")
    then parse_positive_uint key value >>= (λ n.
      ok (record config { scheduler = record config.scheduler { max_concurrent_tasks = n } }))
    else if text_eq canonical (str "scheduler.max_chunks_per_task")
    then parse_positive_uint key value >>= (λ n.
      ok (record config { scheduler = record config.scheduler { max_chunks_per_task = n } }))
    else if text_eq canonical (str "scheduler.max_chunk_queue_size")
    then parse_positive_uint key value >>= (λ n.
      ok (record config { scheduler = record config.scheduler { max_chunk_queue_size = n } }))
    else if text_eq canonical (str "scheduler.policy")
    then scheduling_policy_from_string value
      >>= (λ n. ok (record config { scheduler = record config.scheduler { policy = n } }))
    else if text_eq canonical (str "metrics.enabled")
    then parse_bool key value
      >>= (λ n. ok (record config { metrics = record config.metrics { enabled = n } }))
    else if text_eq canonical (str "metrics.sample_interval_ms")
    then ranged (λ n. leb 100 n && leb n 60000)
        (str "metrics.sample_interval_ms must be between 100 and 60000") key value
      >>= (λ n. ok (record config { metrics = record config.metrics { sample_interval_ms = n } }))
    else if text_eq canonical (str "rate_limit.global")
    then parse_bandwidth_limit d value >>= (λ n.
      ok (record config { rate_limit = record config.rate_limit { global_bytes_per_sec = n } }))
    else if text_eq canonical (str "rate_limit.default_per_task")
    then parse_bandwidth_limit d value >>= (λ n. ok (record config {
      rate_limit = record config.rate_limit { default_per_task_bytes_per_sec = n };
    }))
    else if text_eq canonical (str "network.max_retries")
    then ranged (λ n. leb n 10) (str "max_retries must be <= 10") key value
      >>= (λ n. ok (record config { network = record config.network { max_retries = n } }))
    else if text_eq canonical (str "network.retry_base_delay_ms")
    then ranged (λ n. leb 100 n && leb n 60000)
        (str "retry_base_delay_ms must be between 100 and 60000") key value
      >>= (λ n. ok (record config { network = record config.network { retry_base_delay_ms = n } }))
    else if text_eq canonical (str "network.proxy")
    then set_proxy value config
    else if text_eq canonical (str "persistence.flush_interval_ms")
    then ranged (λ n. leb 100 n && leb n 60000)
        (str "flush_interval_ms must be between 100 and 60000") key value
      >>= (λ n.
          ok (record config { persistence = record config.persistence { flush_interval_ms = n } }))
    else if text_eq canonical (str "logging.level")
    then set_level value config
    else if text_eq canonical (str "logging.console")
    then parse_bool key value
      >>= (λ n. ok (record config { logging = record config.logging { console = n } }))
    else if text_eq canonical (str "logging.max_file_bytes")
    then parse_uint64 key value
      >>= (λ n. ok (record config { logging = record config.logging { max_file_bytes = n } }))
    else if text_eq canonical (str "logging.max_rotated_files")
    then ranged (λ n. leb n 16) (str "logging.max_rotated_files must be <= 16") key value
      >>= (λ n. ok (record config { logging = record config.logging { max_rotated_files = n } }))
    else ok config

-- `ConfigManager::load` of the configuration that the file holds, or of the defaults, after parsing:
-- the environment goes over it, and then the limits.
unfoldable pub load_config : Doubles → (Text → Option Text) → Config → Result Config
load_config d getenv stored = apply_env d getenv stored >>= λ config. ok (normalize config)

-- `ConfigManager::set`: what is written to the file.
unfoldable pub set_config : Doubles → (Text → Option Text) → Text → Text → Config → Result Config
set_config d getenv key value stored = do
  canonical ← canonical_key_name key
  config ← load_config d getenv stored
  changed ← set_value d canonical key value config
  ok (normalize changed)
