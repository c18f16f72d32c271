-- ===== src/Manager.antt =====
-- src/core/download_manager.cpp: what the manager does with the task of one command. The identifier
-- that `generateTaskId` draws, the clock and the configuration are arguments.
pub mod Url
pub mod Pause
use cget.Prelude.{
  ℕ, ◌+◌, Bool, true, false, ◌&&◌, ◌||◌, not, Option, none, some, List, [], ◌∷◌, ◌++◌, Text, str,
  text_eq, ◌==◌, if◌then◌else◌, length, drop, map,
}
use cget.Core.Types.{TaskStatus, ChunkStatus, Chunk, DownloadTask, CreateTaskRequest, new_task}
use cget.Core.Types.Names.{task_status_eq, chunk_status_eq, task_status_to_string}
use cget.Core.Errors.{Result, ok, err, ◌>>=◌, ◌>>◌, throw, ErrorCode}
use cget.Config.Defs.{Config}
use cget.Crypto.Hex.{is_sha256_hex, lowercase_hex}
use cget.Filesystem.Disk.{Disk}
use cget.Filesystem.Names.{file_name_from_url}
use cget.Filesystem.Paths.{join_path, is_path_traversal}
use cget.Filesystem.Output.{PathLibrary, resolve_output_path, output_or}
use cget.Network.Scheme.{before, starts_with, is_supported_scheme}
use cget.Persistence.Store.{last_disk, save_task, load_task, remove_task}
use cget.Engine.Session.{Context}

-- `url.find_first_of("/?#", start)`: what is in front of it.
unfoldable pub host_of : Text → Text
host_of [] = []
host_of (c ∷ cs) =
    let rest = host_of cs in if c == b'/' || c == b'?' || c == b'#' then [] else c ∷ rest

-- `validateUrl`; `supported` is the text of the supported schemes.
unfoldable pub validate_url : List Text → Text → Text → Result (Unit {0})
validate_url curl_protocols supported url = elim (before (str "://") url) [
  | none ↦ throw ErrorCode.invalid_url_error (str "URL must include a supported scheme")
  | some scheme ↦
      if not (is_supported_scheme curl_protocols scheme)
      then throw ErrorCode.invalid_url_error (
          str "unsupported or unavailable URL scheme: "
          ++ (scheme ++ (str "; supported here: " ++ supported)))
      else if text_eq (host_of (drop (length scheme + 3) url)) []
      then throw ErrorCode.invalid_url_error (str "URL host is required")
      else ok tt
]

-- The checksum of a request, in lower case.
unfoldable pub checked_sha256 : Option Text → Result (Option Text)
checked_sha256 none = ok none
checked_sha256 (some expected) =
    if is_sha256_hex expected
    then ok (some (lowercase_hex expected))
    else throw ErrorCode.invalid_command_error
        (str "SHA256 must be exactly 64 hexadecimal characters")

module _ (ctx : Context) (lib : PathLibrary) (app_home : Text) where
  -- The task of a request; `files` is the disk of the downloads.
  unfoldable pub task_of_request : Config → Text → CreateTaskRequest → Disk → Result DownloadTask
  task_of_request config id request files = do
    let file_name = output_or (file_name_from_url request.url) request.file_name
    expected ← checked_sha256 request.expected_sha256
    target ←
        resolve_output_path lib files (join_path app_home (str "downloads")) request.output_path
          file_name request.force_overwrite
    ok (record (new_task ctx.now) {
      id = id;
      url = request.url;
      file_name = file_name;
      expected_sha256 = expected;
      target_path = target;
      temp_dir = join_path (join_path app_home (str "temp")) id;
      status = if request.queue_only then TaskStatus.queued else TaskStatus.pending;
      requested_threads = request.requested_threads;
      task_rate_limit_bytes_per_sec =
          if request.task_rate_limit_override
          then request.task_rate_limit_bytes_per_sec
          else config.rate_limit.default_per_task_bytes_per_sec;
    })

  -- The end of `createTask`.
  unfoldable pub save_created : Disk → Result DownloadTask → Disk × Result DownloadTask
  save_created store (err e) = (store, err e)
  save_created store (ok task) =
      let (disks, saved) = save_task ctx.codec ctx.tasks_dir task store in
      (last_disk store disks, saved >> ok task)

  -- `createTask`.
  unfoldable pub create_task :
      List Text
      → Text
      → Config
      → Text
      → CreateTaskRequest
      → Disk
      → Disk
      → Disk × Result DownloadTask
  create_task curl_protocols supported config id request files store =
      save_created store (
        validate_url curl_protocols supported request.url
        >> task_of_request config id request files)

-- The statuses in which a task is not paused.
unfoldable pub refuses_pause : TaskStatus → Bool
refuses_pause s =
    task_status_eq s TaskStatus.completed
    || task_status_eq s TaskStatus.removed
    || task_status_eq s TaskStatus.corrupted
    || task_status_eq s TaskStatus.pending_recovery
    || task_status_eq s TaskStatus.metadata_mismatch

unfoldable pub pause_chunk : Chunk → Chunk
pause_chunk c =
    if chunk_status_eq c.status ChunkStatus.downloading
      || chunk_status_eq c.status ChunkStatus.failed
    then record c { status = ChunkStatus.paused }
    else c

unfoldable pub paused_task : ℕ → DownloadTask → DownloadTask
paused_task now task = record task {
  status = TaskStatus.paused;
  last_error = none;
  chunks = map pause_chunk task.chunks;
  updated_at = now;
}

module _ (ctx : Context) where
  unfoldable pub pause_loaded : Result DownloadTask → Disk → Disk × Result (Unit {0})
  pause_loaded (err e) store = (store, err e)
  pause_loaded (ok task) store =
      let (disks, saved) = save_task ctx.codec ctx.tasks_dir (paused_task ctx.now task) store in
      if refuses_pause task.status
      then (
        store,
        throw ErrorCode.invalid_state_transition_error
            (str "cannot pause task in state " ++ task_status_to_string task.status),
      )
      else (last_disk store disks, saved)

  -- `pauseTask`.
  unfoldable pub pause_task : Text → Disk → Disk × Result (Unit {0})
  pause_task id store = pause_loaded (load_task ctx.codec ctx.tasks_dir id store) store

-- Every file of the directory `dir` goes; directories are not modelled, and this never fails here.
unfoldable pub remove_tree : Text → Disk → Disk
remove_tree dir files = record files {
  files = λ p. if starts_with (dir ++ b'/' ∷ []) p then none else files.files p;
}

-- `FileSystemService::removeTaskTempDir`.
unfoldable pub remove_task_temp_dir : Text → Text → Disk → Disk × Result (Unit {0})
remove_task_temp_dir app_home id files =
    if is_path_traversal id
    then (files, throw ErrorCode.path_traversal_error (str "unsafe task id: " ++ id))
    else (remove_tree (join_path (join_path app_home (str "temp")) id) files, ok tt)

module _ (ctx : Context) (app_home : Text) where
  -- `DownloadManager::removeTask` of a task that was loaded: the disk of the downloads, that of the task
  -- files, and how it ended.
  unfoldable pub remove_loaded :
      Text → Result DownloadTask → Disk → Disk → Disk × (Disk × Result (Unit {0}))
  remove_loaded id (err e) files store = (files, (store, err e))
  remove_loaded id (ok task) files store =
      let marked = record task { status = TaskStatus.removed; updated_at = ctx.now } in
      let (disks, saved) = save_task ctx.codec ctx.tasks_dir marked store in
      let after = last_disk store disks in
      elim saved [
        | err e ↦ (files, (after, err e))
        | ok _ ↦
            (let (left, removed) = remove_task_temp_dir app_home id files in
              (left, (remove_task ctx.tasks_dir id after, removed)))
      ]

  unfoldable pub remove_managed : Text → Disk → Disk → Disk × (Disk × Result (Unit {0}))
  remove_managed id files store =
      remove_loaded id (load_task ctx.codec ctx.tasks_dir id store) files store

-- The tasks that `runQueuedTasks` takes.
unfoldable pub is_runnable : TaskStatus → Bool
is_runnable s =
    task_status_eq s TaskStatus.pending
    || task_status_eq s TaskStatus.queued
    || task_status_eq s TaskStatus.retrying
    || task_status_eq s TaskStatus.failed

-- The loop of `runQueuedTasks` that chooses the tasks.
unfoldable pub runnable_tasks : List DownloadTask → List DownloadTask
runnable_tasks [] = []
runnable_tasks (t ∷ ts) =
    let rest = runnable_tasks ts in if is_runnable t.status then t ∷ rest else rest
