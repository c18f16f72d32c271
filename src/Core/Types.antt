-- ===== src/Core/Types.antt =====
-- include/cget/core/types.h and src/core/types.cpp: tasks, chunks and their statuses. Paths, URLs
-- and messages are byte strings, a `time_point` is a number of ticks since the epoch, and the
-- `double` of a task's peak speed is carried as its 64 bits. The mutex and the atomics have no field:
-- each step of the model is one critical section.
pub mod Names
use cget.Prelude.{
  ℕ, ◌+◌, ◌-◌, ◌<◌, Bool, true, false, Option, none, List, [], ◌∷◌, Text, ltb, u32, u64, u64_mod,
  if◌then◌else◌, length,
}

pub data TaskStatus : Type 0 where
  created pending queued downloading paused retrying failed completed cancelled removed : TaskStatus
  corrupted pending_recovery metadata_mismatch : TaskStatus

pub TaskStatus-discrete : Discrete TaskStatus
TaskStatus-discrete = hlevel

pub data ChunkStatus : Type 0 where
  pending downloading paused completed failed : ChunkStatus

pub ChunkStatus-discrete : Discrete ChunkStatus
ChunkStatus-discrete = hlevel

abbrev pub Double : Type 0
Double = ℕ

pub record RemoteFileInfo : Type 0 where
  pub file_size : ℕ
  pub supports_range : Bool
  pub etag : Option Text
  pub last_modified : Option Text
  pub final_url : Text

pub record CreateTaskRequest : Type 0 where
  pub url : Text
  pub output_path : Option Text
  pub file_name : Option Text
  pub expected_sha256 : Option Text
  pub task_rate_limit_bytes_per_sec : Option ℕ
  pub task_rate_limit_override : Bool
  pub requested_threads : ℕ
  pub force_overwrite : Bool
  pub queue_only : Bool

-- The bytes `start` to `end` of the file, both included.
pub record Chunk : Type 0 where
  pub index : ℕ
  pub start : ℕ
  pub end : ℕ
  pub downloaded : ℕ
  pub status : ChunkStatus
  pub retry_count : ℕ
  pub temp_path : Text

-- `Chunk::size`, in `std::uint64_t`.
unfoldable pub chunk_size : Chunk → ℕ
chunk_size c = if ltb c.end c.start then 0 else u64 (c.end - c.start + 1)

pub record DownloadTask : Type 0 where
  pub id : Text
  pub url : Text
  pub file_name : Text
  pub target_path : Text
  pub temp_dir : Text
  pub status : TaskStatus
  pub file_size : ℕ
  pub downloaded : ℕ
  pub chunks : List Chunk
  pub created_at : ℕ
  pub updated_at : ℕ
  pub started_at : Option ℕ
  pub last_error : Option Text
  pub expected_sha256 : Option Text
  pub remote_etag : Option Text
  pub remote_last_modified : Option Text
  pub final_url : Option Text
  pub task_rate_limit_bytes_per_sec : Option ℕ
  pub scheduler_max_chunks : ℕ
  pub scheduler_priority : ℕ
  pub peak_speed_bytes_per_sec : Double
  pub failed_chunks : ℕ
  pub persisted_retry_count : ℕ
  pub requested_threads : ℕ

-- `DownloadTask()`: both times are the `now` of the call; the bits of `0.0` are 0.
unfoldable pub new_task : ℕ → DownloadTask
new_task now = record {
  id = [];
  url = [];
  file_name = [];
  target_path = [];
  temp_dir = [];
  status = TaskStatus.created;
  file_size = 0;
  downloaded = 0;
  chunks = [];
  created_at = now;
  updated_at = now;
  started_at = none;
  last_error = none;
  expected_sha256 = none;
  remote_etag = none;
  remote_last_modified = none;
  final_url = none;
  task_rate_limit_bytes_per_sec = none;
  scheduler_max_chunks = 0;
  scheduler_priority = 0;
  peak_speed_bytes_per_sec = 0;
  failed_chunks = 0;
  persisted_retry_count = 0;
  requested_threads = 0;
}
