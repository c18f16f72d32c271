-- ===== src/Examples/Persistence.antt =====
-- The theorems on stored tasks at concrete inputs.
use cget.Prelude.{
  zero, suc, refl, ◌≡◌, sym, ap, ◌⊎◌, false, [], ◌∷◌, ◌++◌, some, none, Text, str, text_eq, arith,
  get_elem?, All,
}
use cget.Core.Types.{TaskStatus, ChunkStatus, DownloadTask, chunk_size}
use cget.Core.Errors.{Result, ok, ok-injective, throw, ErrorCode}
use cget.Filesystem.Disk.{Content, Disk, put_file, file_size}
use cget.Filesystem.Paths.{
  chunk_path, part_path, is_path_traversal, is_absolute, components, join_path,
}
use cget.Persistence.Repair.{
  repair_from_disk, repair_chunks, repair_chunk, set_progress, repaired_status, repaired_task,
  downloaded_total, is_unfinished_status,
}
use cget.Persistence.Repair.Rounds.{Agrees}
use cget.Persistence.Repair.Progress.{repair_from_disk-Agrees, repair_from_disk_unmerged}
use cget.Persistence.Store.{TaskCodec, task_file, save_task, load_task, load_path, decode_file}
use cget.Persistence.Store.Crash.{save_task_crash}
use cget.Persistence.Store.Saved.{save_task_window}
use cget.Examples.Data.{
  one_chunk, one_task, part_a, part_b, path_a, path_b, two_chunks, full_disk, empty_disk,
}

abbrev old_task : DownloadTask
old_task = one_task TaskStatus.queued 4 []

abbrev pub started_task : DownloadTask
started_task = one_task TaskStatus.downloading 4 []

-- A codec for these two tasks.
abbrev decode_two : Content → Result DownloadTask
decode_two [] = throw ErrorCode.json_corrupted_error []
decode_two (zero ∷ rest) = ok old_task
decode_two (suc n ∷ rest) = ok started_task

abbrev pub two_tasks : TaskCodec
two_tasks = record {
  encode = λ t. 1 ∷ [];
  decode = decode_two;
  IsStorable = λ t. started_task ≡ t;
  decode-encode = λ t same. ap ok same;
}

abbrev pub tasks_dir : Text
tasks_dir = b's' ∷ []

abbrev pub stored : Content → Disk
stored text = put_file (task_file tasks_dir (b't' ∷ [])) (some text) empty_disk

-- A system that renames to no file that is there.
abbrev strict_disk : Disk
strict_disk = record (stored (0 ∷ [])) { refuses = λ p there. there }

save_task_crash_example :
    All
      (λ d.
        (load_path two_tasks (task_file tasks_dir (b't' ∷ [])) d ≡ some old_task)
        ⊎ (load_path two_tasks (task_file tasks_dir (b't' ∷ [])) d ≡ some started_task))
      (save_task two_tasks tasks_dir started_task strict_disk).0
unfolding put_file decode_file task_file join_path is_absolute text_eq str
save_task_crash_example =
    save_task_crash two_tasks tasks_dir old_task started_task strict_disk refl refl

-- The task file is spoilt, and its backup holds the old task.
abbrev spoilt_disk : Disk
spoilt_disk = put_file (task_file tasks_dir (b't' ∷ []) ++ str ".bak") (some (0 ∷ [])) (stored [])

save_task_window_example :
    (lost : Disk) × (get_elem? (save_task two_tasks tasks_dir started_task spoilt_disk).0 1
      ≡ some lost)
    × (load_path two_tasks (task_file tasks_dir (b't' ∷ [])) lost ≡ none)
unfolding put_file decode_file load_task load_path task_file join_path is_absolute text_eq str
save_task_window_example =
    save_task_window two_tasks tasks_dir old_task started_task [] spoilt_disk refl refl refl
      (record { denied = λ p. refl; refuses = λ p there. refl; breaks_off = λ p text. refl })

-- Two paths that differ, however they are named.
other_paths :
    (a b p q : Text)
    → text_eq b a ≡ false
    → ◌≡◌ {A = Result Text} (ok a) (ok p)
    → ◌≡◌ {A = Result Text} (ok b) (ok q)
    → text_eq q p ≡ false
other_paths a b p q apart same_p same_q =
    rw (sym (ok-injective same_p), sym (ok-injective same_q)) apart

abbrev interrupted : DownloadTask
interrupted = one_task TaskStatus.downloading 4 two_chunks

abbrev resumed : DownloadTask
resumed = record interrupted {
  chunks =
      one_chunk 0 1 2 ChunkStatus.completed part_a
      ∷ one_chunk 2 3 2 ChunkStatus.completed part_b
      ∷ [];
  downloaded = 4;
  status = TaskStatus.completed;
}

repair_from_disk-Agrees_example :
    All (Agrees interrupted full_disk) resumed.chunks
    × (resumed.downloaded ≡ downloaded_total resumed.chunks)
    × (resumed.temp_dir ≡ interrupted.temp_dir)
unfolding repair_from_disk repair_chunks repair_chunk set_progress repaired_status repaired_task
    downloaded_total is_unfinished_status file_size chunk_size chunk_path part_path
    is_path_traversal is_absolute components join_path text_eq str
repair_from_disk-Agrees_example =
    repair_from_disk-Agrees 0 interrupted full_disk (resumed, full_disk) refl (λ e. absurd (cc))
      ((λ p q h k. other_paths path_a path_b p q refl h k, tt), (tt, tt))

repair_from_disk_unmerged_example :
    (resumed.status ≡ TaskStatus.completed) × (full_disk.files (b'o' ∷ []) ≡ none)
unfolding repair_from_disk repair_chunks repair_chunk set_progress repaired_status repaired_task
    downloaded_total is_unfinished_status file_size chunk_size chunk_path part_path
    is_path_traversal is_absolute components join_path text_eq str
repair_from_disk_unmerged_example =
    repair_from_disk_unmerged 0 interrupted full_disk (resumed, full_disk) refl (λ e. absurd (cc))
      refl refl (omega arith)
      (
        λ p h. other_paths (b'o' ∷ []) path_a (b'o' ∷ []) p refl refl h,
        (λ p h. other_paths (b'o' ∷ []) path_b (b'o' ∷ []) p refl refl h, tt),
      )
      refl
