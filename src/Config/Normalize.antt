-- ===== src/Config/Normalize.antt =====
-- `normalize` and `applyEnv` of src/config/config_manager.cpp.
pub mod Bounds
use cget.Prelude.{
  ℕ, Bool, true, false, ◌||◌, Option, none, some, [], Text, str, text_eq, if◌then◌else◌, min, max,
}
use cget.Core.Errors.{Result, ok, err, ◌>>=◌}
use cget.Network.Scheme.{lower}
use cget.Scheduler.Defs.{SchedulerConfig}
use cget.Config.Defs.{Config}
use cget.Config.Bandwidth.{Doubles, parse_bandwidth_limit}
use cget.Config.Parse.{parse_positive_uint, parse_uint64, is_valid_log_level_name, parse_bool_value}

-- `std::max(low, std::min(value, high))`.
unfoldable pub clamp : ℕ → ℕ → ℕ → ℕ
clamp low high value = max low (min value high)

unfoldable pub normalize_level : Text → Text
normalize_level level = if is_valid_log_level_name level then lower level else str "info"

unfoldable pub normalize : Config → Config
normalize config = record config {
  download = record config.download {
    max_threads = clamp 1 32 config.download.max_threads;
    max_active_tasks = clamp 1 16 config.download.max_active_tasks;
  };
  scheduler = record config.scheduler {
    max_global_workers = clamp 1 128 config.scheduler.max_global_workers;
    max_concurrent_tasks = clamp 1 64 config.scheduler.max_concurrent_tasks;
    max_chunks_per_task = clamp 1 64 config.scheduler.max_chunks_per_task;
    max_chunk_queue_size = clamp 1 65536 config.scheduler.max_chunk_queue_size;
  };
  metrics = record config.metrics {
    sample_interval_ms = clamp 100 60000 config.metrics.sample_interval_ms;
  };
  network = record config.network {
    max_retries = min config.network.max_retries 10;
    retry_base_delay_ms = clamp 100 60000 config.network.retry_base_delay_ms;
  };
  persistence = record config.persistence {
    flush_interval_ms = clamp 100 60000 config.persistence.flush_interval_ms;
  };
  logging = record config.logging {
    level = normalize_level config.logging.level;
    max_rotated_files = min config.logging.max_rotated_files 16;
  };
}

-- One variable of the environment: `change` is what follows when it is set.
abbrev pub with_env : Option Text → (Text → Config → Result Config) → Config → Result Config
with_env none change config = ok config
with_env (some value) change config = change value config

abbrev pub set_console : Option Bool → Config → Config
set_console none config = config
set_console (some parsed) config = record config {
  logging = record config.logging { console = parsed };
}

-- `applyEnv`; `getenv` is the environment.
unfoldable pub apply_env : Doubles → (Text → Option Text) → Config → Result Config
apply_env d getenv config = do
  c1 ←
      with_env (getenv (str "CGET_MAX_THREADS"))
        (λ v c. do
          n ← parse_positive_uint (str "CGET_MAX_THREADS") v
          ok (record c { download = record c.download { max_threads = n } }))
        config
  c2 ←
      with_env (getenv (str "CGET_MAX_ACTIVE_TASKS"))
        (λ v c. do
          n ← parse_positive_uint (str "CGET_MAX_ACTIVE_TASKS") v
          ok (record c { download = record c.download { max_active_tasks = n } }))
        c1
  c3 ←
      with_env (getenv (str "CGET_MAX_RETRIES"))
        (λ v c. do
          n ← parse_positive_uint (str "CGET_MAX_RETRIES") v
          ok (record c { network = record c.network { max_retries = n } }))
        c2
  c4 ←
      with_env (getenv (str "CGET_RETRY_BASE_DELAY_MS"))
        (λ v c. do
          n ← parse_positive_uint (str "CGET_RETRY_BASE_DELAY_MS") v
          ok (record c { network = record c.network { retry_base_delay_ms = n } }))
        c3
  c5 ←
      with_env (getenv (str "CGET_MAX_DOWNLOAD_RATE_BYTES_PER_SEC"))
        (λ v c. do
          n ← parse_uint64 (str "CGET_MAX_DOWNLOAD_RATE_BYTES_PER_SEC") v
          ok (record c { download = record c.download { max_download_rate_bytes_per_sec = n } }))
        c4
  c6 ←
      with_env (getenv (str "CGET_MAX_GLOBAL_WORKERS"))
        (λ v c. do
          n ← parse_positive_uint (str "CGET_MAX_GLOBAL_WORKERS") v
          ok (record c { scheduler = record c.scheduler { max_global_workers = n } }))
        c5
  c7 ←
      with_env (getenv (str "CGET_MAX_CHUNKS_PER_TASK"))
        (λ v c. do
          n ← parse_positive_uint (str "CGET_MAX_CHUNKS_PER_TASK") v
          ok (record c { scheduler = record c.scheduler { max_chunks_per_task = n } }))
        c6
  c8 ←
      with_env (getenv (str "CGET_GLOBAL_RATE_LIMIT"))
        (λ v c. do
          n ← parse_bandwidth_limit d v
          ok (record c { rate_limit = record c.rate_limit { global_bytes_per_sec = n } }))
        c7
  c9 ←
      with_env (getenv (str "CGET_TASK_DEFAULT_RATE_LIMIT"))
        (λ v c. do
          n ← parse_bandwidth_limit d v
          ok (record c { rate_limit = record c.rate_limit { default_per_task_bytes_per_sec = n } }))
        c8
  c10 ←
      with_env (getenv (str "CGET_PROXY"))
        (λ v c. ok (record c {
          network = record c.network {
            proxy_url = if text_eq v [] || text_eq v (str "none") then none else some v;
          };
        }))
        c9
  c11 ←
      with_env (getenv (str "CGET_LOG_LEVEL"))
        (λ v c. ok (
          if is_valid_log_level_name v
          then record c { logging = record c.logging { level = lower v } }
          else c))
        c10
  with_env (getenv (str "CGET_LOG_CONSOLE")) (λ v c. ok (set_console (parse_bool_value v) c)) c11
