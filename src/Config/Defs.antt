-- ===== src/Config/Defs.antt =====
-- include/cget/config/config_manager.h: the configuration and its defaults.
use cget.Prelude.{ℕ, Bool, true, false, Option, none, Text, str}
use cget.Scheduler.Defs.{SchedulerConfig, SchedulingPolicyType}

pub record DownloadConfig : Type 0 where
  pub max_threads : ℕ
  pub max_active_tasks : ℕ
  pub max_download_rate_bytes_per_sec : ℕ

pub record MetricsConfig : Type 0 where
  pub enabled : Bool
  pub sample_interval_ms : ℕ

pub record RateLimitConfig : Type 0 where
  pub global_bytes_per_sec : Option ℕ
  pub default_per_task_bytes_per_sec : Option ℕ

pub record NetworkConfig : Type 0 where
  pub max_retries : ℕ
  pub retry_base_delay_ms : ℕ
  pub proxy_url : Option Text

pub record PersistenceConfig : Type 0 where
  pub flush_interval_ms : ℕ

pub record LoggingConfig : Type 0 where
  pub level : Text
  pub console : Bool
  pub max_file_bytes : ℕ
  pub max_rotated_files : ℕ

pub record Config : Type 0 where
  pub download : DownloadConfig
  pub scheduler : SchedulerConfig
  pub metrics : MetricsConfig
  pub rate_limit : RateLimitConfig
  pub network : NetworkConfig
  pub persistence : PersistenceConfig
  pub logging : LoggingConfig

unfoldable pub default_config : Config
default_config = record {
  download = record { max_threads = 8; max_active_tasks = 2; max_download_rate_bytes_per_sec = 0 };
  scheduler = record {
    max_global_workers = 16;
    max_concurrent_tasks = 4;
    max_chunks_per_task = 4;
    max_chunk_queue_size = 1024;
    policy = SchedulingPolicyType.fifo;
  };
  metrics = record { enabled = true; sample_interval_ms = 1000 };
  rate_limit = record { global_bytes_per_sec = none; default_per_task_bytes_per_sec = none };
  network = record { max_retries = 3; retry_base_delay_ms = 1000; proxy_url = none };
  persistence = record { flush_interval_ms = 1000 };
  logging = record {
    level = str "info";
    console = false;
    max_file_bytes = 1048576;
    max_rotated_files = 3;
  };
}
