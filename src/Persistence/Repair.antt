-- ===== src/Persistence/Repair.antt =====
-- `PersistenceStore::repairFromDisk` of src/persistence/persistence_store.cpp: the progress of a task
-- is taken from the sizes of its part files.
pub mod Rounds
pub mod Progress
use cget.Prelude.{
  ℕ, ◌+◌, Bool, true, false, ◌&&◌, ◌||◌, not, some, List, [], ◌∷◌, Text, str, ltb, ◌==◌,
  if◌then◌else◌, u64,
}
use cget.Core.Types.{TaskStatus, ChunkStatus, Chunk, DownloadTask, chunk_size}
use cget.Core.Types.Names.{task_status_eq}
use cget.Core.Errors.{Result, ok, err, ◌>>=◌}
use cget.Filesystem.Paths.{chunk_path}
use cget.Filesystem.Disk.{Disk, file_size, truncate_file}

-- The status of a chunk of which `actual` bytes are on the disk.
unfoldable pub repaired_status : ℕ → ℕ → ChunkStatus
repaired_status actual size =
    if actual == size
    then ChunkStatus.completed
    else if actual == 0
    then ChunkStatus.pending
    else ChunkStatus.paused

unfoldable pub set_progress : Chunk → ℕ → Chunk
unfolding repaired_status
set_progress c actual = record c {
  downloaded = actual;
  status = repaired_status actual (chunk_size c);
}

-- One round of the loop: the chunk's progress, and its part file cut to the chunk's size.
unfoldable pub repair_chunk : DownloadTask → Disk → Chunk → Result (Chunk × Disk)
unfolding set_progress
repair_chunk task disk c = do
  path ← chunk_path task c
  if ltb (chunk_size c) (file_size disk path)
      then (do
        cut ← truncate_file disk path (chunk_size c)
        ok (set_progress c (chunk_size c), cut))
      else ok (set_progress c (file_size disk path), disk)

-- The loop; the task is only read for its temp directory.
unfoldable pub repair_chunks : DownloadTask → Disk → List Chunk → Result (List Chunk × Disk)
repair_chunks task disk [] = ok ([], disk)
repair_chunks task disk (c ∷ cs) = do
  first ← repair_chunk task disk c
  rest ← repair_chunks task first.1 cs
  ok (first.0 ∷ rest.0, rest.1)

-- The sum that the loop keeps in `total`, in 64 bits.
unfoldable pub downloaded_total : List Chunk → ℕ
downloaded_total [] = 0
downloaded_total (c ∷ cs) = u64 (c.downloaded + downloaded_total cs)

-- A task without chunks that was interrupted.
unfoldable pub repair_empty : DownloadTask → DownloadTask
repair_empty task =
    if task_status_eq task.status TaskStatus.downloading
      || task_status_eq task.status TaskStatus.retrying
    then if task.file_size == 0 then record task { status = TaskStatus.paused } else record task {
      status = TaskStatus.pending_recovery;
      last_error = some (str "task was interrupted before chunk state was available");
    }
    else task

unfoldable pub is_unfinished_status : TaskStatus → Bool
is_unfinished_status s =
    task_status_eq s TaskStatus.downloading
    || task_status_eq s TaskStatus.queued
    || task_status_eq s TaskStatus.retrying
    || task_status_eq s TaskStatus.pending

-- The task with the repaired chunks.
unfoldable pub repaired_task : ℕ → DownloadTask → List Chunk → DownloadTask
unfolding is_unfinished_status
repaired_task now task chunks =
    let total = downloaded_total chunks in
    record task {
      chunks = chunks;
      downloaded = total;
      status =
          if is_unfinished_status task.status
          then if total == task.file_size && not (task.file_size == 0)
            then TaskStatus.completed
            else TaskStatus.paused
          else task.status;
      updated_at = now;
    }

abbrev pub is_empty : List Chunk → Bool
is_empty [] = true
is_empty (c ∷ cs) = false

unfoldable pub repair_from_disk : ℕ → DownloadTask → Disk → Result (DownloadTask × Disk)
repair_from_disk now task disk =
    if is_empty task.chunks
    then ok (repair_empty task, disk)
    else do done ← repair_chunks task disk task.chunks; ok (repaired_task now task done.0, done.1)
