-- ===== src/Engine/Session.antt =====
-- The state that a worker of the engine works on, and `persistTask`. A worker gets a reference to one
-- chunk of its task, so the chunk stands apart from the chunks before and after it. The task files
-- are kept on a disk of their own, since they are in another directory than the part files.
use cget.Prelude.{ℕ, ◌+◌, List, [], ◌∷◌, ◌++◌, Text, u64}
use cget.Core.Types.{Chunk, DownloadTask}
use cget.Core.Errors.{Result, ok, err}
use cget.Filesystem.Disk.{Disk}
use cget.Persistence.Store.{TaskCodec, last_disk, save_task}

pub record Session : Type 0 where
  pub task : DownloadTask
  pub earlier : List Chunk
  pub chunk : Chunk
  pub later : List Chunk
  pub disk : Disk
  pub store : Disk

-- The task with the chunks as they are now.
abbrev pub whole_task : Session → DownloadTask
whole_task s = record s.task { chunks = s.earlier ++ s.chunk ∷ s.later }

abbrev pub Outcome : Type 0
Outcome = Session × Result (Unit {0})

-- What follows is left out after an exception; the state stays as the exception found it.
abbrev pub continue_with : Outcome → (Session → Outcome) → Outcome
continue_with (s, ok _) next = next s
continue_with (s, err e) next = (s, err e)

-- `recomputeDownloaded`, a sum in 64 bits.
unfoldable pub recompute_downloaded : ℕ → List Chunk → ℕ
recompute_downloaded total [] = total
recompute_downloaded total (c ∷ cs) = recompute_downloaded (u64 (total + c.downloaded)) cs

-- What a call of the engine reads from outside: the store of the tasks and the clock.
pub record Context : Type 1 where
  pub codec : TaskCodec
  pub tasks_dir : Text
  pub now : ℕ

-- `persistTask`; the metrics that it refreshes are not modelled.
unfoldable pub persist_task : Context → Session → Outcome
persist_task ctx s =
    let task = record s.task { updated_at = ctx.now } in
    let stamped = record s { task = task } in
    let (disks, saved) = save_task ctx.codec ctx.tasks_dir (whole_task stamped) s.store in
    (record stamped { store = last_disk s.store disks }, saved)
