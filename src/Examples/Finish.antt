-- ===== src/Examples/Finish.antt =====
-- The theorems on the end of a task at concrete inputs.
use cget.Prelude.{refl, ◌≡◌, List, [], ◌∷◌, some, Text, str, text_eq, arith}
use cget.Core.Types.{TaskStatus, ChunkStatus, Chunk, chunk_size}
use cget.Filesystem.Disk.{Content, put_file, remove_file, file_exists}
use cget.Filesystem.Paths.{part_path, is_path_traversal, is_absolute, components, join_path}
use cget.Filesystem.Merge.{merge_chunks, append_parts, read_part, finish_merge, commit_merge}
use cget.Engine.Session.{Context}
use cget.Crypto.Hex.{lowercase_hex}
use cget.Engine.Finish.{
  Job, save_job, checksum_of, is_settled, is_complete_chunk, complete_job, verify_then_complete,
  after_merge, finalize_prepared_task,
}
use cget.Engine.Finish.Verdict.{
  Delivered, finalize_prepared_task-Delivered, finalize_prepared_task-whole,
}
use cget.Examples.Data.{
  one_chunk, one_task, four_bytes, part_a, part_b, path_a, path_b, full_disk, empty_disk,
}
use cget.Examples.Filesystem.{other_path}
use cget.Examples.Persistence.{two_tasks, tasks_dir}

abbrev pub context : Context
context = record { codec = two_tasks; tasks_dir = tasks_dir; now = 7 }

abbrev complete_chunks : List Chunk
complete_chunks =
    one_chunk 0 1 2 ChunkStatus.completed part_a ∷ one_chunk 2 3 2 ChunkStatus.completed part_b ∷ []

-- A hash that gives the letter `e` for every content; `E` is expected.
abbrev pub hash : Content → Text
hash content = b'e' ∷ []

abbrev job : Job
job = record {
  task = record (one_task TaskStatus.downloading 4 complete_chunks) {
    expected_sha256 = some (b'E' ∷ []);
  };
  disk = full_disk;
  store = empty_disk;
}

finalize_prepared_task-whole_example :
    let after = (finalize_prepared_task context hash job).0 in
    (after.task.status ≡ TaskStatus.completed) × (after.disk.files (b'o' ∷ []) ≡ some four_bytes)
unfolding is_settled is_complete_chunk chunk_size lowercase_hex part_path is_path_traversal
    is_absolute components join_path text_eq str
finalize_prepared_task-whole_example =
    finalize_prepared_task-whole context hash job four_bytes refl refl
      (refl, omega arith, (refl, omega arith, refl))
      ((path_a, refl, refl), ((path_b, refl, refl), tt))
      (((λ p e. other_path path_a p refl e), ((λ p e. other_path path_b p refl e), tt))) refl refl
      refl (λ there. refl)

finalize_prepared_task-Delivered_example :
    Delivered hash (finalize_prepared_task context hash job).0
unfolding file_exists finalize_prepared_task after_merge verify_then_complete complete_job save_job
    checksum_of merge_chunks append_parts read_part finish_merge commit_merge remove_file put_file
    is_settled is_complete_chunk chunk_size lowercase_hex part_path is_path_traversal is_absolute
    components join_path text_eq str
finalize_prepared_task-Delivered_example =
    finalize_prepared_task-Delivered context hash job (λ e. absurd (cc)) refl
