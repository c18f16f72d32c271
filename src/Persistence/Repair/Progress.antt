-- ===== src/Persistence/Repair/Progress.antt =====
-- After a repair the recorded progress is what the part files hold.
use cget.Prelude.{
  ℕ, ◌<◌, ◌≡◌, ◌≢◌, refl, sym, ◌∙◌, ap, true, false, none, List, [], ◌∷◌, Text, text_eq, arith, All,
  subst,
}
use cget.Core.Types.{TaskStatus, Chunk, DownloadTask}
use cget.Core.Errors.{ok, >>=-eq-ok, ok-injective}
use cget.Filesystem.Paths.{chunk_path}
use cget.Filesystem.Disk.{Disk}
use cget.Persistence.Repair.{
  repair_chunks, repair_from_disk, repaired_task, is_empty, is_unfinished_status, downloaded_total,
}
use cget.Persistence.Repair.Rounds.{
  Agrees, DistinctPaths, repair_chunks_frame, repair_chunks-Agrees,
}

is_empty-false : (cs : List Chunk) → cs ≢ [] → is_empty cs ≡ false
is_empty-false [] h = absurd (h refl)
is_empty-false (c ∷ cs) h = refl

-- A repair of a task with chunks is a repair of the chunks.
repair_from_disk-run :
    (now : ℕ) (task : DownloadTask) (disk : Disk) (r : DownloadTask × Disk)
    → repair_from_disk now task disk ≡ ok r
    → task.chunks ≢ []
    → (done : List Chunk × Disk) × (repair_chunks task disk task.chunks ≡ ok done)
      × (◌≡◌ {A = DownloadTask × Disk} (repaired_task now task (done.0), done.1) r)
unfolding repair_from_disk
repair_from_disk-run now task disk r h full =
    let (done, ran, last) =
      >>=-eq-ok (repair_chunks task disk task.chunks) _
        (rw (is_empty-false task.chunks full) at h) in
    (done, ran, ok-injective last)

-- When a repair of a task with chunks returns, and its part files have different paths, then each chunk
-- of the new task agrees with its part file on the new disk: it counts as many bytes as the file
-- has, not more than its own size, and it is Completed when these are all of its bytes, Pending when
-- they are none of them, and Paused otherwise. The task counts the sum, and keeps its directory.
pub repair_from_disk-Agrees :
    (now : ℕ) (task : DownloadTask) (disk : Disk) (r : DownloadTask × Disk)
    → repair_from_disk now task disk ≡ ok r
    → task.chunks ≢ []
    → DistinctPaths task task.chunks
    → All (Agrees task (r.1)) ((r.0).chunks)
      × ((r.0).downloaded ≡ downloaded_total ((r.0).chunks))
      × ((r.0).temp_dir ≡ task.temp_dir)
unfolding repaired_task
repair_from_disk-Agrees now task disk r h full distinct =
    let (done, ran, same) = repair_from_disk-run now task disk r h full in
    subst
      (λ (x : DownloadTask × Disk).
        All (Agrees task (x.1)) ((x.0).chunks)
        × ((x.0).downloaded ≡ downloaded_total ((x.0).chunks))
        × ((x.0).temp_dir ≡ task.temp_dir))
      same (repair_chunks-Agrees task disk task.chunks done ran distinct, refl, refl)

repaired_task_completed :
    (now : ℕ) (task : DownloadTask) (cs : List Chunk)
    → is_unfinished_status task.status ≡ true
    → downloaded_total ((repaired_task now task cs).chunks) ≡ task.file_size
    → 0 < task.file_size
    → (repaired_task now task cs).status ≡ TaskStatus.completed
unfolding repaired_task
repaired_task_completed now task cs open_status all known = ground arith

-- When a repair returns for an unfinished task with chunks, all of whose bytes are in its part files
-- and whose size is known, the task becomes Completed; but the output is not made: where there was
-- no file at the target path, which is no part file, there is none afterwards.
pub repair_from_disk_unmerged :
    (now : ℕ) (task : DownloadTask) (disk : Disk) (r : DownloadTask × Disk)
    → repair_from_disk now task disk ≡ ok r
    → task.chunks ≢ []
    → is_unfinished_status task.status ≡ true
    → downloaded_total ((r.0).chunks) ≡ task.file_size
    → 0 < task.file_size
    → All
        (λ d. (p : Text) → chunk_path task d ≡ ok p → text_eq p task.target_path ≡ false)
        task.chunks
    → disk.files task.target_path ≡ none
    → ((r.0).status ≡ TaskStatus.completed) × ((r.1).files task.target_path ≡ none)
repair_from_disk_unmerged now task disk r h full open_status all known apart missing =
    let (done, ran, same) = repair_from_disk-run now task disk r h full in
    let frame = repair_chunks_frame task disk task.chunks done task.target_path ran apart in
    let total = ap (λ (x : DownloadTask × Disk). downloaded_total ((x.0).chunks)) same ∙ all in
    (
      ap (λ (x : DownloadTask × Disk). (x.0).status) (sym same)
          ∙ repaired_task_completed now task done.0 open_status total known,
      ap (λ (x : DownloadTask × Disk). (x.1).files task.target_path) (sym same) ∙ (frame ∙ missing),
    )
