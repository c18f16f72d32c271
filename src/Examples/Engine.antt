-- ===== src/Examples/Engine.antt =====
-- The theorems on the engine at concrete inputs.
use cget.Persistence.Store.{write_then_commit}
use cget.Prelude.{
  ℕ, zero, suc, refl, ◌≡◌, ◌≢◌, ◌≤◌, true, false, [], ◌∷◌, some, none, Text, str, text_eq, arith,
}
use cget.Prelude.Decimal.{to_string, digits}
use cget.Core.Types.{TaskStatus, ChunkStatus, chunk_size, RemoteFileInfo}
use cget.Core.Errors.{ok}
use cget.Filesystem.Disk.{remove_file, Content, content_of, put_file, file_size, file_exists}
use cget.Filesystem.Paths.{
  chunk_path, part_path, is_path_traversal, is_absolute, components, join_path,
}
use cget.Filesystem.Merge.Assemble.{slice_of}
use cget.Network.Scheme.{
  before, scheme_of, starts_with, lower, to_lower, is_http_url,
  range_can_use_success_without_http206,
}
use cget.Network.Http.{
  Transfer, curl_ok, curl_timed_out, perform, range_result, throw_for_curl, throw_for_http_status,
  download_range,
}
use cget.Persistence.Store.{
  task_file, save_task, save_text, backup_then_commit, back_up, copy_to_backup, commit_save,
}
use cget.Config.Defs.{default_config}
use cget.Engine.Metadata.{normalized_thread_count, normalized_thread_count_bounds}
use cget.Engine.Session.{Session, Context, persist_task}
use cget.Engine.Retry.{
  measure_part, complete_chunk, append_file, deliver_block, mark_downloading, check_part,
  fetch_rest, attempt_chunk, gives_up, fail_chunk, note_retry, retry_chunk,
  download_chunk_with_retry,
}
use cget.Engine.Retry.Part.{Begins}
use cget.Engine.Retry.Whole.{
  Honest, download_chunk_with_retry-Begins, download_chunk_with_retry-Holds,
}
use cget.Engine.Retry.ErrorBody.{download_range_error_body}
use cget.Examples.Data.{one_chunk, one_task, part_a, path_a, empty_disk}
use cget.Examples.Persistence.{two_tasks, tasks_dir}

abbrev context : Context
context = record { codec = two_tasks; tasks_dir = tasks_dir; now = 7 }

-- A file of one byte, and the worker at its only chunk.
abbrev small_file : Content
small_file = 10 ∷ []

abbrev worker : Session
worker = record {
  task = one_task TaskStatus.downloading 1 [];
  earlier = [];
  chunk = one_chunk 0 0 0 ChunkStatus.pending part_a;
  later = [];
  disk = empty_disk;
  store = empty_disk;
}

-- The first attempt times out without a byte, and every later one gets the file.
abbrev second_try : ℕ → Text → Text → Transfer
second_try zero url range = record {
  header_status = 206;
  blocks = [];
  result = curl_timed_out [];
  response_code = 206;
}
second_try (suc n) url range = record {
  header_status = 206;
  blocks = record { bytes = small_file; flush = true } ∷ [];
  result = curl_ok;
  response_code = 206;
}

second_try-Honest : Honest second_try worker.task.url worker.chunk small_file
second_try-Honest zero zero low high = (small_file, refl)
second_try-Honest (suc n) zero low high = ([], refl)
second_try-Honest n (suc a) low high = absurd (omega arith)

download_chunk_with_retry-Begins_example :
    Begins
      (content_of ((download_chunk_with_retry context second_try 1 worker).0.disk.files path_a))
      (slice_of small_file worker.chunk)
unfolding chunk_path part_path is_path_traversal is_absolute components join_path text_eq str
download_chunk_with_retry-Begins_example =
    download_chunk_with_retry-Begins context second_try 1 worker path_a small_file (omega arith)
      (omega arith) (omega arith) second_try-Honest refl (small_file, refl)

download_chunk_with_retry-Holds_example :
    let after = (download_chunk_with_retry context second_try 1 worker).0 in
    (after.disk.files path_a ≡ some (slice_of small_file worker.chunk))
    × (after.chunk.status ≡ ChunkStatus.completed)
    × (after.chunk.downloaded ≡ chunk_size worker.chunk)
unfolding write_then_commit chunk_path part_path is_path_traversal is_absolute components join_path
    text_eq str download_chunk_with_retry retry_chunk attempt_chunk measure_part file_size
    fetch_rest persist_task save_task save_text backup_then_commit back_up copy_to_backup
    commit_save remove_file put_file file_exists append_file mark_downloading download_range perform
    range_result throw_for_curl deliver_block check_part complete_chunk note_retry fail_chunk
    gives_up chunk_size scheme_of before starts_with lower to_lower is_http_url
    range_can_use_success_without_http206 to_string digits task_file
download_chunk_with_retry-Holds_example =
    download_chunk_with_retry-Holds context second_try 1 worker path_a small_file (omega arith)
      (omega arith) (omega arith) second_try-Honest refl (small_file, refl) refl

-- A reply with the status 500 and a body of two bytes.
abbrev broken_server : Transfer
broken_server = record {
  header_status = 500;
  blocks = record { bytes = 60 ∷ 62 ∷ []; flush = false } ∷ [];
  result = curl_ok;
  response_code = 500;
}

abbrev http_url : Text
http_url = b'h' ∷ b't' ∷ b't' ∷ b'p' ∷ b':' ∷ b'/' ∷ b'/' ∷ b'h' ∷ []

download_range_error_body_example :
    let (after, done) =
      download_range (deliver_block context path_a) http_url broken_server worker in
    (done ≡ throw_for_http_status 500)
    × (done ≢ ok tt)
    × (content_of (after.disk.files path_a) ≡ 60 ∷ 62 ∷ [])
unfolding is_http_url scheme_of before starts_with lower to_lower text_eq str
download_range_error_body_example =
    download_range_error_body context path_a http_url broken_server worker (omega arith) refl refl
      refl (refl, tt)

abbrev remote : RemoteFileInfo
remote = record {
  file_size = 9;
  supports_range = true;
  etag = some (b'e' ∷ []);
  last_modified = none;
  final_url = [];
}

normalized_thread_count_bounds_example :
    (1 ≤ normalized_thread_count default_config (one_task TaskStatus.queued 4 []))
    × (normalized_thread_count default_config (one_task TaskStatus.queued 4 []) ≤ 32)
normalized_thread_count_bounds_example =
    normalized_thread_count_bounds default_config (one_task TaskStatus.queued 4 [])
