-- ===== src/Persistence/Recovery/Settled.antt =====
-- The statuses of the tasks after a recovery.
use cget.Prelude.{
  ℕ, ◌≡◌, ◌≢◌, refl, inl, inr, Bool, true, false, ◌||◌, List, [], ◌∷◌, Text, All, Bool-cases,
  if◌then◌else◌, subst, ◌==◌,
}
use cget.Core.Types.{TaskStatus, Chunk, DownloadTask}
use cget.Core.Types.Names.{task_status_eq}
use cget.Core.Errors.{ok, >>=-eq-ok, ok-injective}
use cget.Filesystem.Disk.{Disk}
use cget.Persistence.Store.{TaskCodec, last_disk, save_task}
use cget.Persistence.Repair.{
  repair_from_disk, repair_chunks, repair_empty, repaired_task, is_empty, is_unfinished_status,
}
use cget.Persistence.Recovery.{recover_each, recover_tasks, load_all_tasks}

abbrev IsIdleStatus : TaskStatus → Type 0
IsIdleStatus s = (s ≢ TaskStatus.downloading) × (s ≢ TaskStatus.retrying)

-- The task does not claim that a download of it is under way.
abbrev pub IsIdle : DownloadTask → Type 0
IsIdle t = IsIdleStatus t.status

other_status-IsIdleStatus :
    (s : TaskStatus)
    → (task_status_eq s TaskStatus.downloading || task_status_eq s TaskStatus.retrying) ≡ false
    → IsIdleStatus s
other_status-IsIdleStatus TaskStatus.downloading h = absurd cc
other_status-IsIdleStatus TaskStatus.retrying h = absurd cc
other_status-IsIdleStatus TaskStatus.created h = ((λ e. cc), (λ e. cc))
other_status-IsIdleStatus _ h = ((λ e. cc), (λ e. cc))

finished_status :
    (s : TaskStatus)
    → is_unfinished_status s ≡ false
    → (task_status_eq s TaskStatus.downloading || task_status_eq s TaskStatus.retrying) ≡ false
unfolding is_unfinished_status
finished_status TaskStatus.downloading h = cc
finished_status TaskStatus.retrying h = cc
finished_status TaskStatus.created h = refl
finished_status _ h = refl

repair_empty-IsIdle : (t : DownloadTask) → IsIdle (repair_empty t)
unfolding repair_empty
repair_empty-IsIdle t =
    elim (Bool-cases (
      task_status_eq t.status TaskStatus.downloading
      || task_status_eq t.status TaskStatus.retrying)) [
        | inr other ↦ rw (repair_empty, other) (other_status-IsIdleStatus t.status other)
        | inl busy ↦ elim (Bool-cases (t.file_size == 0)) [
          | inl unknown ↦ rw (repair_empty, busy, unknown) ((λ e. cc), (λ e. cc))
          | inr known ↦ rw (repair_empty, busy, known) ((λ e. cc), (λ e. cc))
        ]
      ]

settled_status :
    (done : Bool) → IsIdleStatus (if done then TaskStatus.completed else TaskStatus.paused)
settled_status true = ((λ e. cc), (λ e. cc))
settled_status false = ((λ e. cc), (λ e. cc))

repaired_task-IsIdle :
    (now : ℕ) (t : DownloadTask) (cs : List Chunk) → IsIdle (repaired_task now t cs)
unfolding repaired_task
repaired_task-IsIdle now t cs = elim (Bool-cases (is_unfinished_status t.status)) [
  | inl unfinished ↦ rw unfinished (settled_status _)
  | inr finished ↦
      rw finished (other_status-IsIdleStatus t.status (finished_status t.status finished))
]

repair_from_disk-IsIdle :
    (now : ℕ) (t : DownloadTask) (files : Disk) {r : DownloadTask × Disk}
    → repair_from_disk now t files ≡ ok r
    → IsIdle r.0
unfolding repair_from_disk
repair_from_disk-IsIdle now t files h = elim (Bool-cases (is_empty t.chunks)) [
  | inl none_left ↦
      subst (λ (x : DownloadTask × Disk). IsIdle x.0)
        (ok-injective (rw (repair_from_disk, none_left) at h)) (repair_empty-IsIdle t)
  | inr chunks ↦
      (let (done, ran, same) =
          >>=-eq-ok (repair_chunks t files t.chunks) _ (rw (repair_from_disk, chunks) at h) in
        subst (λ (x : DownloadTask × Disk). IsIdle x.0) (ok-injective same)
          (repaired_task-IsIdle now t done.0))
]

corrupted_idle : (s : TaskStatus) → task_status_eq s TaskStatus.corrupted ≡ true → IsIdleStatus s
corrupted_idle TaskStatus.corrupted h = ((λ e. cc), (λ e. cc))
corrupted_idle TaskStatus.created h = absurd cc
corrupted_idle _ h = absurd cc

module _ (codec : TaskCodec) (dir : Text) (now : ℕ) where
  recover_each-IsIdle :
      (ts : List DownloadTask) (files store : Disk) {r : List DownloadTask × (Disk × Disk)}
      → recover_each codec dir now ts files store ≡ ok r
      → All IsIdle r.0
  unfolding recover_each
  recover_each-IsIdle [] files store h =
      subst (λ (x : List DownloadTask × (Disk × Disk)). All IsIdle x.0) (ok-injective h) tt
  recover_each-IsIdle (t ∷ ts) files store h =
      elim (Bool-cases (task_status_eq t.status TaskStatus.corrupted)) [
        | inl corrupted ↦
            (let (rest, ran, same) =
                >>=-eq-ok (recover_each codec dir now ts files store) _ (rw corrupted at h) in
              subst (λ (x : List DownloadTask × (Disk × Disk)). All IsIdle x.0) (ok-injective same)
                (corrupted_idle t.status corrupted, recover_each-IsIdle ts files store ran))
        | inr readable ↦
            (let (r, repaired, h1) =
                >>=-eq-ok (repair_from_disk now t files) _ (rw readable at h) in
              let (done, saved, h2) = >>=-eq-ok (save_task codec dir r.0 store).1 _ h1 in
              let (rest, ran, same) =
                >>=-eq-ok
                  (recover_each codec dir now ts r.1
                    (last_disk store (save_task codec dir r.0 store).0))
                  _ h2 in
              subst (λ (x : List DownloadTask × (Disk × Disk)). All IsIdle x.0) (ok-injective same)
                (repair_from_disk-IsIdle now t files repaired, recover_each-IsIdle ts r.1 _ ran))
      ]

  -- When recoverTasks returns, no task that it gives is Downloading or Retrying, whatever the task files
  -- and the part files hold.
  pub recover_tasks-IsIdle :
      (names : List Text) (files store : Disk) {r : List DownloadTask × (Disk × Disk)}
      → recover_tasks codec dir now names files store ≡ ok r
      → All IsIdle r.0
  unfolding recover_tasks
  recover_tasks-IsIdle names files store h =
      recover_each-IsIdle (load_all_tasks codec dir now store names) files store h
