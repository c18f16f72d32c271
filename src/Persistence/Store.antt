-- ===== src/Persistence/Store.antt =====
-- `saveTask`, `loadTask` and `removeTask` of src/persistence/persistence_store.cpp. A call that
-- writes gives the list of the disks that it goes through, one after each call of the file system, so
-- that a crash between two of them can be asked about; the last one is the disk that it leaves.
pub mod Crash
pub mod Saved
use cget.Prelude.{
  ℕ, ◌≡◌, Bool, true, false, Option, none, some, List, [], ◌∷◌, ◌++◌, Text, str, is_some,
  if◌then◌else◌, ℕ, take,
}
use cget.Core.Types.{DownloadTask}
use cget.Core.Errors.{Result, ok, err, throw, ErrorCode}
use cget.Filesystem.Paths.{join_path}
use cget.Filesystem.Disk.{Content, Disk, remove_file, put_file, file_exists}

-- `taskToJson` and `taskFromJson`: a task that can be stored is read back as it was.
pub record TaskCodec : Type 1 where
  pub encode : DownloadTask → Content
  pub decode : Content → Result DownloadTask
  pub IsStorable : DownloadTask → Type 0
  pub decode-encode : (t : DownloadTask) → IsStorable t → decode (encode t) ≡ ok t

-- `taskFile`; `dir` is `fileSystem_.tasksDir()`.
unfoldable pub task_file : Text → Text → Text
task_file dir id = join_path dir (str "task_" ++ (id ++ str ".json"))

abbrev pub bak_of : Text → Text
bak_of path = path ++ str ".bak"

abbrev pub tmp_of : Text → Text
tmp_of path = path ++ str ".tmp"

-- The disks of a run so far, newest first, and how it ended.
abbrev pub Run : Type 0
Run = List Disk × Result (Unit {0})

-- The disk after a run that began with `disk`.
abbrev pub last_disk : Disk → List Disk → Disk
last_disk disk [] = disk
last_disk disk (d ∷ ds) = d

-- `copy_file(path, bak)`; the `.bak` file was removed before, so it is not there.
unfoldable pub copy_to_backup : Text → Disk → Result Disk
copy_to_backup path disk =
    if disk.denied (bak_of path)
    then throw ErrorCode.file_system_error (str "failed to create task backup")
    else ok (put_file (bak_of path) (disk.files path) disk)

-- `rename(tmp, path)`, when it succeeds.
unfoldable pub rename_tmp : Text → Disk → Disk
rename_tmp path disk = put_file (tmp_of path) none (put_file path (disk.files (tmp_of path)) disk)

-- The second renaming, on the disk from which the task file was removed.
unfoldable pub retry_commit : Text → List Disk → Disk → Run
unfolding rename_tmp
retry_commit path past removed =
    if removed.refuses path (file_exists removed path)
    then (past, throw ErrorCode.file_system_error (str "failed to commit task file"))
    else (rename_tmp path removed ∷ past, ok tt)

-- The end of `saveTask`: the renaming; when it fails, the task file is removed, an error of which is
-- dropped, and the renaming is tried once more.
unfoldable pub commit_save : Text → List Disk → Disk → Run
unfolding rename_tmp retry_commit remove_file
commit_save path past disk =
    if disk.refuses path (file_exists disk path)
    then retry_commit path (remove_file path disk ∷ past) (remove_file path disk)
    else (rename_tmp path disk ∷ past, ok tt)

-- The backup, on the disk `removed` from which the old one is gone, and the end.
unfoldable pub back_up : Text → List Disk → Disk → Run
unfolding commit_save
back_up path past removed = elim (copy_to_backup path removed) [
  | ok copied ↦ commit_save path (copied ∷ (removed ∷ past)) copied
  | err e ↦ (removed ∷ past, err e)
]

-- The backup is made when the task file exists.
unfoldable pub backup_then_commit : Text → List Disk → Disk → Run
unfolding back_up
backup_then_commit path past disk =
    if file_exists disk path
    then back_up path past (remove_file (bak_of path) disk)
    else commit_save path past disk

-- The write to the `.tmp` file, which is open, and what follows. When the write or the flush fails, a
-- beginning of the text is left.
unfoldable pub write_then_commit : Text → Content → Disk → Option ℕ → Run
unfolding backup_then_commit
write_then_commit path text opened none =
    let written = put_file (tmp_of path) (some text) opened in
    backup_then_commit path (written ∷ (opened ∷ [])) written
write_then_commit path text opened (some count) = (
  put_file (tmp_of path) (some (take count text)) opened ∷ (opened ∷ []),
  throw ErrorCode.file_system_error (str "failed to flush task file: " ++ tmp_of path),
)

-- `saveTask` with the text that it writes: the `.tmp` file is made empty, and then written.
unfoldable pub save_text : Text → Content → Disk → Run
save_text path text disk =
    if disk.denied (tmp_of path)
    then (
      [],
      throw ErrorCode.permission_denied_error (str "failed to write task file: " ++ tmp_of path),
    )
    else write_then_commit path text (put_file (tmp_of path) (some []) disk)
        (disk.breaks_off (tmp_of path) text)

module _ (codec : TaskCodec) where
  open codec use {encode, decode}

  unfoldable pub save_task : Text → DownloadTask → Disk → Run
  save_task dir task disk = save_text (task_file dir task.id) (encode task) disk

  -- `tryLoadTaskFile`, by what the path holds: any exception gives no task.
  unfoldable pub decode_file : Option Content → Option DownloadTask
  decode_file none = none
  decode_file (some text) = elim (decode text) [ ok task ↦ some task | err e ↦ none ]

  -- `loadTask` of the task file `path`.
  unfoldable pub load_path : Text → Disk → Option DownloadTask
  load_path path disk = elim (decode_file (disk.files path)) [
    | some task ↦ some task
    | none ↦ decode_file (disk.files (bak_of path))
  ]

  unfoldable pub load_task : Text → Text → Disk → Result DownloadTask
  load_task dir id disk = elim (load_path (task_file dir id) disk) [
    | some task ↦ ok task
    | none ↦ throw ErrorCode.json_corrupted_error (str "task JSON is missing or corrupted: " ++ id)
  ]

-- `PersistenceStore::removeTask`.
unfoldable pub remove_task : Text → Text → Disk → Disk
unfolding remove_file
remove_task dir id disk =
    let path = task_file dir id in
    remove_file (tmp_of path) (remove_file (bak_of path) (remove_file path disk))
