-- ===== src/Engine/Single.antt =====
-- `downloadSingleStream` and `prepareTask` of src/engine/download_engine.cpp: a download in one
-- piece, and what is done with a task before the scheduler runs its chunks. The transfer of the
-- request is a parameter; the rate limiter only delays, and is left out.
pub mod Delivery
pub mod Prepare
pub mod Range
use cget.Prelude.{
  ℕ, ◌+◌, ◌-◌, Bool, true, false, ◌&&◌, ◌||◌, not, Option, none, some, List, [], ◌∷◌, ◌++◌, Text,
  str, ltb, ◌==◌, if◌then◌else◌, length, u64,
}
use cget.Prelude.Decimal.{to_string}
use cget.Core.Types.{TaskStatus, ChunkStatus, Chunk, DownloadTask, RemoteFileInfo}
use cget.Core.Errors.{Result, ok, err, throw, ErrorCode, CgetError}
use cget.Core.ChunkPlanner.{plan}
use cget.Config.Defs.{Config}
use cget.Filesystem.Disk.{Content, Disk, put_file, file_size, truncate_file}
use cget.Filesystem.Paths.{join_path}
use cget.Filesystem.Merge.{merge_chunks}
use cget.Network.Http.{Block, Transfer, download_single}
use cget.Engine.Session.{Context, recompute_downloaded}
use cget.Engine.Metadata.{metadata_changed, remember_metadata, normalized_thread_count}
use cget.Engine.Retry.{append_file}
use cget.Engine.Finish.{Job, JobOutcome, save_job, set_failure, after_merge}

-- What follows is left out after an exception.
abbrev pub then_job : JobOutcome → (Job → JobOutcome) → JobOutcome
then_job (j, ok _) next = next j
then_job (j, err e) next = (j, err e)

abbrev pub single_path : Job → Text
single_path j = join_path j.task.temp_dir (str "single.part")

-- The chunk that the task has during the download.
abbrev pub single_chunk : ℕ → ℕ → ChunkStatus → Chunk
single_chunk size downloaded status = record {
  index = 0;
  start = 0;
  end = size - 1;
  downloaded = downloaded;
  status = status;
  retry_count = 0;
  temp_path = str "single.part";
}

-- The task forgets its progress.
unfoldable pub reset_single : RemoteFileInfo → Job → Job
reset_single info j = record j {
  task = record j.task {
    chunks =
        if info.file_size == 0
        then []
        else single_chunk info.file_size 0 ChunkStatus.downloading ∷ [];
    downloaded = 0;
  };
}

-- `task.chunks[0].downloaded.fetch_add(bytes)` when there is a chunk.
unfoldable pub count_first : ℕ → List Chunk → List Chunk
count_first bytes [] = []
count_first bytes (c ∷ cs) = record c { downloaded = u64 (c.downloaded + bytes) } ∷ cs

-- The two callbacks on a block.
unfoldable pub deliver_single : Context → Text → Block → Job → JobOutcome
deliver_single ctx path b j =
    let written = record j {
      disk = append_file path b.bytes j.disk;
      task = record j.task {
        chunks = count_first (length b.bytes) j.task.chunks;
        downloaded = u64 (j.task.downloaded + length b.bytes);
      };
    } in
    if b.flush then save_job ctx written else (written, ok tt)

-- The chunk of a download of which `downloaded` bytes arrived.
unfoldable pub settle_chunks : ℕ → List Chunk → List Chunk
settle_chunks downloaded [] =
    if downloaded == 0 then [] else single_chunk downloaded downloaded ChunkStatus.completed ∷ []
settle_chunks downloaded (c ∷ cs) =
    record c { downloaded = downloaded; status = ChunkStatus.completed } ∷ cs

-- The task knows its size and its progress.
unfoldable pub settle_single : RemoteFileInfo → ℕ → Job → Job
settle_single info downloaded j =
    let size = if info.file_size == 0 then downloaded else info.file_size in
    record j {
      task = record j.task {
        chunks = settle_chunks downloaded j.task.chunks;
        file_size = size;
        downloaded = size;
      };
    }

module _ (ctx : Context) (sha256 : Content → Text) where
  -- The size check, and what follows it.
  unfoldable pub finish_single : RemoteFileInfo → Job → JobOutcome
  finish_single info j =
      let downloaded = file_size j.disk (single_path j) in
      let done = settle_single info downloaded j in
      if not (info.file_size == 0) && not (downloaded == info.file_size)
      then (
        j,
        throw ErrorCode.file_system_error (
            str "downloaded file size mismatch: expected "
            ++ (to_string info.file_size ++ (str ", got " ++ to_string downloaded))),
      )
      else after_merge ctx sha256 done (
          merge_chunks done.disk done.task.chunks done.task.temp_dir done.task.target_path
            done.task.file_size)

  -- The transfer into the empty file.
  unfoldable pub stream_single : RemoteFileInfo → Transfer → Job → JobOutcome
  stream_single info transfer j =
      let opened = record j { disk = put_file (single_path j) (some []) j.disk } in
      if j.disk.denied (single_path j)
      then (
        j,
        throw ErrorCode.permission_denied_error (str "failed to open temp file: " ++ single_path j),
      )
      else then_job (download_single (deliver_single ctx (single_path j)) transfer opened)
          (finish_single info)

  -- `downloadSingleStream`.
  unfoldable pub download_single_stream : RemoteFileInfo → Transfer → Job → JobOutcome
  download_single_stream info transfer j = elim (truncate_file j.disk (single_path j) 0) [
    | err e ↦ (j, err e)
    | ok cut ↦
        then_job (save_job ctx (reset_single info (record j { disk = cut })))
          (stream_single info transfer)
  ]

-- The status with which an exception ends a task.
unfoldable pub failure_status : ErrorCode → TaskStatus
failure_status ErrorCode.metadata_mismatch_error = TaskStatus.metadata_mismatch
failure_status _ = TaskStatus.failed

-- The `catch` of `download` and of `prepareTask`.
unfoldable pub catch_job : Context → JobOutcome → JobOutcome
catch_job ctx (j, ok _) = (j, ok tt)
catch_job ctx (j, err e) = set_failure ctx (failure_status e.code) e.message j

-- The task begins.
unfoldable pub begin_task : Context → Job → Job
begin_task ctx j = record j {
  task = record j.task {
    status = TaskStatus.downloading;
    started_at = elim j.task.started_at [ none ↦ some ctx.now | some time ↦ some time ];
    last_error = none;
  };
}

abbrev or_planned : List Chunk → List Chunk → List Chunk
or_planned planned [] = planned
or_planned planned (c ∷ cs) = c ∷ cs

-- The chunks of a task that can be downloaded in ranges.
unfoldable pub plan_task : Config → ℕ → RemoteFileInfo → DownloadTask → DownloadTask
plan_task config hardware info task =
    let threads = normalized_thread_count config task in
    let chunks = or_planned (plan task.file_size threads hardware) task.chunks in
    if not (task.file_size == 0) && info.supports_range && ltb 1 threads
    then record task { chunks = chunks; downloaded = recompute_downloaded 0 chunks }
    else task

module _ (ctx : Context) (config : Config) (hardware : ℕ) (metadata : Result RemoteFileInfo) where
  -- The body of `prepareTask` after the task began; `metadata` is the answer of `fetchMetadata`.
  unfoldable pub prepare_begun : Job → JobOutcome
  prepare_begun j = elim metadata [
    | err e ↦ (j, err e)
    | ok info ↦
        if metadata_changed j.task info
        then set_failure ctx TaskStatus.metadata_mismatch (str "remote file metadata changed") j
        else save_job ctx
            (record j { task = plan_task config hardware info (remember_metadata j.task info) })
  ]

  -- `prepareTask`.
  unfoldable pub prepare_task : Job → JobOutcome
  prepare_task j = catch_job ctx (then_job (save_job ctx (begin_task ctx j)) prepare_begun)
