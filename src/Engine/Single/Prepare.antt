-- ===== src/Engine/Single/Prepare.antt =====
-- The chunks of a task that `prepareTask` leaves.
use cget.Prelude.{
  ℕ, ◌<◌, ◌≡◌, refl, ◌⊎◌, inl, inr, ◌&&◌, not, [], Text, ltb, ◌==◌, Bool-cases, arith, u64_mod,
}
use cget.Core.Types.{TaskStatus, DownloadTask, RemoteFileInfo}
use cget.Core.Errors.{ok, err}
use cget.Core.ChunkPlanner.Cover.{Tiles, plan-Tiles}
use cget.Config.Defs.{Config}
use cget.Engine.Session.{Context}
use cget.Engine.Metadata.{metadata_changed, remember_metadata, normalized_thread_count}
use cget.Engine.Finish.{Job, JobOutcome, save_job, set_failure}
use cget.Engine.Single.{
  then_job, failure_status, catch_job, begin_task, plan_task, prepare_begun, prepare_task,
}

-- A task without chunks, or with chunks that tile the file of its size.
abbrev pub IsPlanned : DownloadTask → Type 0
IsPlanned t = (t.chunks ≡ []) ⊎ Tiles 0 t.chunks t.file_size

save_job-IsPlanned :
    (ctx : Context) (j : Job) → IsPlanned j.task → IsPlanned (save_job ctx j).0.task
unfolding save_job
save_job-IsPlanned ctx j h = h

set_failure-IsPlanned :
    (ctx : Context) (status : TaskStatus) (message : Text) (j : Job)
    → IsPlanned j.task
    → IsPlanned (set_failure ctx status message j).0.task
unfolding set_failure
set_failure-IsPlanned ctx status message j h = save_job-IsPlanned ctx _ h

catch_job-IsPlanned :
    (ctx : Context) (o : JobOutcome) → IsPlanned o.0.task → IsPlanned (catch_job ctx o).0.task
unfolding catch_job
catch_job-IsPlanned ctx (j, ok _) h = h
catch_job-IsPlanned ctx (j, err e) h =
    set_failure-IsPlanned ctx (failure_status e.code) e.message j h

then_job-IsPlanned :
    (o : JobOutcome) (next : Job → JobOutcome)
    → IsPlanned o.0.task
    → (o.1 ≡ ok tt → IsPlanned (next o.0).0.task)
    → IsPlanned (then_job o next).0.task
then_job-IsPlanned (j, ok _) next h k = k refl
then_job-IsPlanned (j, err e) next h k = h

plan_task-IsPlanned :
    (config : Config) (hardware : ℕ) (info : RemoteFileInfo) (t : DownloadTask)
    → t.chunks ≡ []
    → t.file_size < u64_mod
    → IsPlanned (plan_task config hardware info t)
unfolding plan_task
plan_task-IsPlanned config hardware info t fresh small =
    let threads = normalized_thread_count config t in
    elim (Bool-cases (not (t.file_size == 0) && info.supports_range && ltb 1 threads)) [
      | inr single ↦ rw (plan_task, single) (inl fresh)
      | inl ranged ↦
          rw (plan_task, ranged, fresh)
            (inr (
              plan-Tiles t.file_size (normalized_thread_count config (record t { chunks = [] }))
                hardware small))
    ]

remembered_size :
    (t : DownloadTask) (info : RemoteFileInfo)
    → t.file_size < u64_mod
    → info.file_size < u64_mod
    → (remember_metadata t info).file_size < u64_mod
unfolding remember_metadata
remembered_size t info h k = ground arith

kept_chunks :
    (t : DownloadTask) (info : RemoteFileInfo)
    → t.chunks ≡ []
    → (remember_metadata t info).chunks ≡ []
unfolding remember_metadata
kept_chunks t info h = h

module _ (ctx : Context) (config : Config) (hardware : ℕ) (info : RemoteFileInfo) where
  prepare_begun-IsPlanned :
      (j : Job)
      → j.task.chunks ≡ []
      → j.task.file_size < u64_mod
      → info.file_size < u64_mod
      → IsPlanned (prepare_begun ctx config hardware (ok info) j).0.task
  unfolding prepare_begun
  prepare_begun-IsPlanned j fresh small k = elim (Bool-cases (metadata_changed j.task info)) [
    | inl changed ↦
        rw changed (set_failure-IsPlanned ctx TaskStatus.metadata_mismatch _ j (inl fresh))
    | inr same ↦ rw same (
        save_job-IsPlanned ctx _ (
          plan_task-IsPlanned config hardware info (remember_metadata j.task info)
            (kept_chunks j.task info fresh) (remembered_size j.task info small k)))
  ]

  -- When the metadata of the remote file are there, a task without chunks that prepareTask prepares has no
  -- chunks afterwards, or chunks that cover the file of the size that it has then, without gap or
  -- overlap; sizes have 64 bits. This holds whether or not the calls in between throw.
  pub prepare_task-IsPlanned :
      (j : Job)
      → j.task.chunks ≡ []
      → j.task.file_size < u64_mod
      → info.file_size < u64_mod
      → IsPlanned (prepare_task ctx config hardware (ok info) j).0.task
  unfolding prepare_task begin_task save_job
  prepare_task-IsPlanned j fresh small k = catch_job-IsPlanned ctx _ (
      then_job-IsPlanned (save_job ctx (begin_task ctx j))
        (prepare_begun ctx config hardware (ok info))
        (save_job-IsPlanned ctx (begin_task ctx j) (inl fresh))
        (λ returned. prepare_begun-IsPlanned (save_job ctx (begin_task ctx j)).0 fresh small k))
