-- ===== src/Manager/Pause.antt =====
-- What `pauseTask` leaves in the task file.
use cget.Prelude.{
  ℕ, ◌≡◌, ◌≢◌, refl, inl, inr, false, ◌||◌, List, [], ◌∷◌, Text, map, All, Bool-cases,
}
use cget.Core.Types.{TaskStatus, ChunkStatus, Chunk, DownloadTask}
use cget.Core.Types.Names.{chunk_status_eq}
use cget.Core.Errors.{ok}
use cget.Filesystem.Disk.{Disk}
use cget.Persistence.Store.{load_task}
use cget.Persistence.Store.Saved.{save_task_loads}
use cget.Engine.Session.{Context}
use cget.Manager.{refuses_pause, pause_chunk, paused_task, pause_loaded, pause_task}

-- A chunk that no worker has, and that did not fail.
abbrev pub IsAtRest : Chunk → Type 0
IsAtRest c = (c.status ≢ ChunkStatus.downloading) × (c.status ≢ ChunkStatus.failed)

paused_status_rests :
    (s : ChunkStatus)
    → (chunk_status_eq s ChunkStatus.downloading || chunk_status_eq s ChunkStatus.failed) ≡ false
    → (s ≢ ChunkStatus.downloading) × (s ≢ ChunkStatus.failed)
paused_status_rests ChunkStatus.pending h = ((λ e. cc), (λ e. cc))
paused_status_rests ChunkStatus.downloading h = absurd cc
paused_status_rests ChunkStatus.paused h = ((λ e. cc), (λ e. cc))
paused_status_rests ChunkStatus.completed h = ((λ e. cc), (λ e. cc))
paused_status_rests ChunkStatus.failed h = absurd cc

pause_chunk-IsAtRest : (c : Chunk) → IsAtRest (pause_chunk c)
unfolding pause_chunk
pause_chunk-IsAtRest c =
    elim (Bool-cases (
      chunk_status_eq c.status ChunkStatus.downloading
      || chunk_status_eq c.status ChunkStatus.failed)) [
        | inl busy ↦ rw busy (paused_status_rests ChunkStatus.paused refl)
        | inr rests ↦ rw rests (paused_status_rests c.status rests)
      ]

pause_chunks-IsAtRest : (cs : List Chunk) → All IsAtRest (map pause_chunk cs)
pause_chunks-IsAtRest [] = tt
pause_chunks-IsAtRest (c ∷ cs) = (pause_chunk-IsAtRest c, pause_chunks-IsAtRest cs)

paused_task_rests :
    (now : ℕ) (task : DownloadTask)
    → ((paused_task now task).status ≡ TaskStatus.paused)
      × All IsAtRest (paused_task now task).chunks
unfolding paused_task
paused_task_rests now task = (refl, pause_chunks-IsAtRest task.chunks)

module _ (ctx : Context) where
  pause_loaded_ok :
      (task : DownloadTask) (store : Disk)
      → ctx.codec.IsStorable (paused_task ctx.now task)
      → (pause_loaded ctx (ok task) store).1 ≡ ok tt
      → load_task ctx.codec ctx.tasks_dir task.id (pause_loaded ctx (ok task) store).0
        ≡ ok (paused_task ctx.now task)
  unfolding pause_loaded paused_task
  pause_loaded_ok task store storable done = elim (Bool-cases (refuses_pause task.status)) [
    | inl refused ↦ absurd (let failed = rw (pause_loaded, refused) at done in cc)
    | inr paused ↦
        rw (pause_loaded, paused)
          (save_task_loads ctx.codec ctx.tasks_dir (paused_task ctx.now task) store storable
            (rw (pause_loaded, paused) at done))
  ]

  -- When pauseTask returns and the paused task can be stored, the task file is read back as a task that is
  -- Paused, and none of its chunks is Downloading or Failed.
  pub pause_task-IsAtRest :
      (id : Text) (store : Disk) (task : DownloadTask)
      → load_task ctx.codec ctx.tasks_dir id store ≡ ok task
      → ctx.codec.IsStorable (paused_task ctx.now task)
      → (pause_task ctx id store).1 ≡ ok tt
      → (paused : DownloadTask) × (load_task ctx.codec ctx.tasks_dir task.id
            (pause_task ctx id store).0
          ≡ ok paused)
        × (paused.status ≡ TaskStatus.paused)
        × All IsAtRest paused.chunks
  unfolding pause_task
  pause_task-IsAtRest id store task loaded storable done = (
    paused_task ctx.now task,
    rw loaded (pause_loaded_ok task store storable (rw loaded at done)),
    (paused_task_rests ctx.now task).0,
    (paused_task_rests ctx.now task).1,
  )
