-- ===== src/Examples/Data.antt =====
-- A small download: a file of four bytes in two chunks.
use cget.Prelude.{ℕ, false, none, some, List, [], ◌∷◌, Text, text_eq, if◌then◌else◌}
use cget.Core.Types.{TaskStatus, ChunkStatus, Chunk, DownloadTask}
use cget.Filesystem.Disk.{Content, Disk}

abbrev pub one_chunk : ℕ → ℕ → ℕ → ChunkStatus → Text → Chunk
one_chunk start end downloaded status temp_path = record {
  index = 0;
  start = start;
  end = end;
  downloaded = downloaded;
  status = status;
  retry_count = 0;
  temp_path = temp_path;
}

-- The task `t` with the temp directory `d` and the target `o`.
abbrev pub one_task : TaskStatus → ℕ → List Chunk → DownloadTask
one_task status file_size chunks = record {
  id = b't' ∷ [];
  url = b'u' ∷ [];
  file_name = b'o' ∷ [];
  target_path = b'o' ∷ [];
  temp_dir = b'd' ∷ [];
  status = status;
  file_size = file_size;
  downloaded = 0;
  chunks = chunks;
  created_at = 0;
  updated_at = 0;
  started_at = none;
  last_error = none;
  expected_sha256 = none;
  remote_etag = none;
  remote_last_modified = none;
  final_url = none;
  task_rate_limit_bytes_per_sec = none;
  scheduler_max_chunks = 0;
  scheduler_priority = 0;
  peak_speed_bytes_per_sec = 0;
  failed_chunks = 0;
  persisted_retry_count = 0;
  requested_threads = 0;
}

abbrev pub four_bytes : Content
four_bytes = 10 ∷ 11 ∷ 12 ∷ 13 ∷ []

abbrev pub part_a : Text
part_a = b'a' ∷ []

abbrev pub part_b : Text
part_b = b'b' ∷ []

abbrev pub path_a : Text
path_a = b'd' ∷ b'/' ∷ b'a' ∷ []

abbrev pub path_b : Text
path_b = b'd' ∷ b'/' ∷ b'b' ∷ []

abbrev pub two_chunks : List Chunk
two_chunks =
    one_chunk 0 1 0 ChunkStatus.pending part_a ∷ one_chunk 2 3 0 ChunkStatus.pending part_b ∷ []

-- The disk holds both part files, and refuses nothing.
abbrev pub full_disk : Disk
full_disk = record {
  files = λ p.
      if text_eq p path_a
      then some (10 ∷ 11 ∷ [])
      else if text_eq p path_b
      then some (12 ∷ 13 ∷ [])
      else none;
  denied = λ p. false;
  refuses = λ p there. false;
  breaks_off = λ p text. none;
}

abbrev pub empty_disk : Disk
empty_disk = record {
  files = λ p. none;
  denied = λ p. false;
  refuses = λ p there. false;
  breaks_off = λ p text. none;
}
