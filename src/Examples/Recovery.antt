-- ===== src/Examples/Recovery.antt =====
-- The theorems on recovery at a concrete input.
use cget.Persistence.Store.{write_then_commit}
use cget.Persistence.Store.{save_text}
use cget.Persistence.Store.{copy_to_backup}
use cget.Persistence.Store.{commit_save}
use cget.Persistence.Store.{backup_then_commit}
use cget.Persistence.Store.{back_up}
use cget.Persistence.Repair.{set_progress}
use cget.Persistence.Repair.{repaired_task}
use cget.Persistence.Repair.{repaired_status}
use cget.Persistence.Repair.{repair_from_disk}
use cget.Persistence.Repair.{repair_empty}
use cget.Persistence.Repair.{repair_chunks}
use cget.Persistence.Repair.{repair_chunk}
use cget.Persistence.Repair.{is_unfinished_status}
use cget.Persistence.Repair.{downloaded_total}
use cget.Persistence.Recovery.{id_of_name}
use cget.Persistence.Recovery.{corrupted_task}
use cget.Filesystem.Paths.{part_path}
use cget.Filesystem.Paths.{is_path_traversal}
use cget.Filesystem.Paths.{components}
use cget.Filesystem.Paths.{chunk_path}
use cget.Filesystem.Disk.{truncate_file}
use cget.Filesystem.Disk.{truncate_content}
use cget.Filesystem.Disk.{resize}
use cget.Filesystem.Disk.{remove_file}
use cget.Filesystem.Disk.{file_size}
use cget.Filesystem.Disk.{file_exists}
use cget.Core.Types.{new_task}
use cget.Core.Types.{chunk_size}
use cget.Filesystem.Paths.{is_absolute}
use cget.Filesystem.Paths.{join_path}
use cget.Persistence.Store.{task_file}
use cget.Filesystem.Disk.{put_file}
use cget.Persistence.Store.{decode_file}
use cget.Persistence.Store.{load_path}
use cget.Persistence.Store.{load_task}
use cget.Persistence.Recovery.{load_or_corrupted}
use cget.Persistence.Recovery.{insert_by_created}
use cget.Prelude.{text_eq}
use cget.Network.Scheme.{starts_with}
use cget.Persistence.Recovery.{is_task_json_file}
use cget.Persistence.Recovery.{load_names}
use cget.Persistence.Recovery.{sort_by_created}
use cget.Persistence.Recovery.{load_all_tasks}
use cget.Persistence.Recovery.{recover_each}
use cget.Prelude.{refl, ◌≡◌, [], ◌∷◌, some, str, All}
use cget.Core.Types.{TaskStatus, DownloadTask}
use cget.Core.Errors.{ok}
use cget.Filesystem.Disk.{Disk}
use cget.Persistence.Store.{last_disk, save_task}
use cget.Persistence.Recovery.{recover_tasks}
use cget.Persistence.Recovery.Settled.{IsIdle, recover_tasks-IsIdle}
use cget.Examples.Data.{empty_disk}
use cget.Examples.Persistence.{two_tasks, tasks_dir, stored, started_task}

-- A task that was interrupted before it had chunks.
abbrev store : Disk
store = stored (1 ∷ [])

abbrev interrupted : DownloadTask
interrupted = record started_task {
  status = TaskStatus.pending_recovery;
  last_error = some (str "task was interrupted before chunk state was available");
}

recovers :
    recover_tasks two_tasks tasks_dir 7 (str "task_t.json" ∷ []) empty_disk store
    ≡ ok (
      interrupted ∷ [],
      (empty_disk, last_disk store (save_task two_tasks tasks_dir interrupted store).0),
    )
unfolding write_then_commit recover_tasks recover_each load_all_tasks sort_by_created load_names
    is_task_json_file starts_with text_eq insert_by_created load_or_corrupted load_task load_path
    decode_file put_file task_file join_path is_absolute chunk_size new_task file_exists file_size
    remove_file resize truncate_content truncate_file chunk_path components is_path_traversal
    part_path corrupted_task id_of_name downloaded_total is_unfinished_status repair_chunk
    repair_chunks repair_empty repair_from_disk repaired_status repaired_task set_progress back_up
    backup_then_commit commit_save copy_to_backup save_text str save_task
recovers = refl

recover_tasks-IsIdle_example : All IsIdle (interrupted ∷ [])
recover_tasks-IsIdle_example =
    recover_tasks-IsIdle two_tasks tasks_dir 7 (str "task_t.json" ∷ []) empty_disk store recovers
