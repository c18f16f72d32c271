-- ===== src/Persistence/Recovery.antt =====
-- `loadAllTasks` and `recoverTasks` of src/persistence/persistence_store.cpp. The names of the regular
-- files in the directory of the tasks, in the order in which the library lists them, are a parameter.
pub mod Settled
use cget.Prelude.{
  ℕ, ◌+◌, ◌-◌, ◌≡◌, ◌≢◌, refl, inl, inr, Bool, true, false, ◌&&◌, ◌||◌, not, Option, none, some,
  List, [], ◌∷◌, ◌++◌, Text, str, text_eq, leb, if◌then◌else◌, length, take, drop, All, Bool-cases,
}
use cget.Core.Types.{TaskStatus, DownloadTask, new_task}
use cget.Core.Types.Names.{task_status_eq}
use cget.Core.Errors.{Result, ok, err, ◌>>=◌, Result-cases}
use cget.Filesystem.Disk.{Disk}
use cget.Filesystem.Paths.{join_path}
use cget.Network.Scheme.{starts_with}
use cget.Persistence.Store.{TaskCodec, last_disk, save_task, load_task}
use cget.Persistence.Repair.{repair_from_disk}

-- The name ends in `.json`, which is then its extension.
abbrev pub has_json_extension : Text → Bool
has_json_extension name = leb 6 (length name) && text_eq (drop (length name - 5) name) (str ".json")

-- `isTaskJsonFile`.
unfoldable pub is_task_json_file : Text → Bool
is_task_json_file name = starts_with (str "task_") name && has_json_extension name

-- The stem of the name without `task_`.
unfoldable pub id_of_name : Text → Text
id_of_name name = drop 5 (take (length name - 5) name)

-- The task that stands for a file that cannot be read.
unfoldable pub corrupted_task : ℕ → Text → Text → DownloadTask
corrupted_task now dir name = record (new_task now) {
  id = id_of_name name;
  file_name = name;
  target_path = join_path dir name;
  status = TaskStatus.corrupted;
  last_error = some (str "task JSON is corrupted");
}

-- The loop of `std::sort` as an insertion sort by the time of creation.
unfoldable pub insert_by_created : DownloadTask → List DownloadTask → List DownloadTask
insert_by_created t [] = t ∷ []
insert_by_created t (u ∷ us) =
    let later = u ∷ insert_by_created t us in
    if leb t.created_at u.created_at then t ∷ (u ∷ us) else later

unfoldable pub sort_by_created : List DownloadTask → List DownloadTask
sort_by_created [] = []
sort_by_created (t ∷ ts) = insert_by_created t (sort_by_created ts)

module _ (codec : TaskCodec) (dir : Text) (now : ℕ) where
  -- The `try` of the loop.
  unfoldable pub load_or_corrupted : Disk → Text → DownloadTask
  load_or_corrupted store name = elim (load_task codec dir (id_of_name name) store) [
    | ok task ↦ task
    | err e ↦ corrupted_task now dir name
  ]

  unfoldable pub load_names : Disk → List Text → List DownloadTask
  load_names store [] = []
  load_names store (name ∷ names) =
      let rest = load_names store names in
      if is_task_json_file name then load_or_corrupted store name ∷ rest else rest

  -- `loadAllTasks`.
  unfoldable pub load_all_tasks : Disk → List Text → List DownloadTask
  load_all_tasks store names = sort_by_created (load_names store names)

  -- The loop of `recoverTasks`: the tasks, and the disks of the part files and of the task files. The
  -- disks that an exception leaves are not told.
  unfoldable pub recover_each :
      List DownloadTask → Disk → Disk → Result (List DownloadTask × (Disk × Disk))
  recover_each [] files store = ok ([], (files, store))
  recover_each (t ∷ ts) files store =
      let kept = recover_each ts files store >>= λ rest. ok (t ∷ rest.0, rest.1) in
      let repaired = repair_from_disk now t files >>= λ r.
      (let (disks, saved) = save_task codec dir r.0 store in
        saved >>= λ done.
        recover_each ts r.1 (last_disk store disks) >>= λ rest. ok (r.0 ∷ rest.0, rest.1)) in
      if task_status_eq t.status TaskStatus.corrupted then kept else repaired

  -- `recoverTasks`.
  unfoldable pub recover_tasks :
      List Text → Disk → Disk → Result (List DownloadTask × (Disk × Disk))
  recover_tasks names files store = recover_each (load_all_tasks store names) files store
