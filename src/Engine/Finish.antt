-- ===== src/Engine/Finish.antt =====
-- `finalizePreparedTask` with `setFailure` and `verifyChecksum` of src/engine/download_engine.cpp: the end
-- of a task whose chunks the scheduler has downloaded. `sha256` is the hash of a file's content, as
-- `sha256File` gives it in hexadecimal.
pub mod Verdict
use cget.Prelude.{
  ℕ, Bool, true, false, ◌&&◌, ◌||◌, not, Option, none, some, List, [], ◌∷◌, ◌++◌, Text, str,
  text_eq, ◌==◌, ◌+◌, leb, map, if◌then◌else◌, all_of,
}
use cget.Crypto.Hex.{lowercase_hex}
use cget.Core.Types.{TaskStatus, ChunkStatus, Chunk, DownloadTask, chunk_size}
use cget.Core.Types.Names.{task_status_eq, chunk_status_eq}
use cget.Core.Errors.{Result, ok, err, ◌>>=◌, throw, ErrorCode}
use cget.Filesystem.Disk.{Content, Disk}
use cget.Filesystem.Merge.{merge_chunks}
use cget.Persistence.Store.{last_disk, save_task}
use cget.Engine.Session.{Context}

-- A task with the disk of its files and the disk of the task files.
pub record Job : Type 0 where
  pub task : DownloadTask
  pub disk : Disk
  pub store : Disk

abbrev pub JobOutcome : Type 0
JobOutcome = Job × Result (Unit {0})

-- The task is stamped and saved, as in `persistTask` and at the end of `setFailure`.
unfoldable pub save_job : Context → Job → JobOutcome
save_job ctx j =
    let task = record j.task { updated_at = ctx.now } in
    let (disks, saved) = save_task ctx.codec ctx.tasks_dir task j.store in
    (record j { task = task; store = last_disk j.store disks }, saved)

unfoldable pub set_failure : Context → TaskStatus → Text → Job → JobOutcome
set_failure ctx status message j =
    save_job ctx (record j { task = record j.task { status = status; last_error = some message } })

-- The checksum of the target, by what the path holds. A missing file throws a `std::runtime_error`,
-- which has no code of its own.
unfoldable pub checksum_of : (Content → Text) → Text → Option Content → Result Text
checksum_of sha256 path none =
    throw ErrorCode.internal_error (str "failed to open file for SHA256: " ++ path)
checksum_of sha256 path (some content) = ok (sha256 content)

-- The statuses with which the end of a task only saves it.
unfoldable pub is_settled : TaskStatus → Bool
is_settled s =
    task_status_eq s TaskStatus.failed
    || task_status_eq s TaskStatus.metadata_mismatch
    || task_status_eq s TaskStatus.corrupted
    || task_status_eq s TaskStatus.pending_recovery

unfoldable pub is_complete_chunk : Chunk → Bool
is_complete_chunk c = chunk_status_eq c.status ChunkStatus.completed && c.downloaded == chunk_size c

module _ (ctx : Context) (sha256 : Content → Text) where
  -- The task is done.
  unfoldable pub complete_job : Job → JobOutcome
  complete_job j = save_job ctx (record j {
    task = record j.task {
      downloaded = j.task.file_size;
      status = TaskStatus.completed;
      last_error = none;
    };
  })

  -- `verifyChecksum` and what follows it, by the expected checksum.
  unfoldable pub verify_then_complete : Option Text → Job → JobOutcome
  verify_then_complete none j = complete_job j
  verify_then_complete (some expected) j =
      elim (checksum_of sha256 j.task.target_path (j.disk.files j.task.target_path)) [
        | err e ↦ (j, err e)
        | ok actual ↦
            if text_eq actual (lowercase_hex expected)
            then complete_job j
            else set_failure ctx TaskStatus.failed
                (str "SHA256 mismatch: expected "
                  ++ (lowercase_hex expected ++ (str ", got " ++ actual)))
                j
      ]

  -- What follows `mergeChunks`.
  unfoldable pub after_merge : Job → Result (Unit {0}) × Disk → JobOutcome
  after_merge j (err e, disk) = (record j { disk = disk }, err e)
  after_merge j (ok _, disk) =
      verify_then_complete j.task.expected_sha256 (record j { disk = disk })

  unfoldable pub finalize_prepared_task : Job → JobOutcome
  finalize_prepared_task j =
      if is_settled j.task.status
      then save_job ctx j
      else if all_of is_complete_chunk j.task.chunks
      then after_merge j
          (merge_chunks j.disk j.task.chunks j.task.temp_dir j.task.target_path j.task.file_size)
      else set_failure ctx TaskStatus.failed (str "not all scheduled chunks completed") j
