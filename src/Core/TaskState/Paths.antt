-- ===== src/Core/TaskState/Paths.antt =====
-- What the table of task states admits: sequences of statuses in which each change is allowed.
use cget.Prelude.{◌≡◌, ◌≢◌, refl, Bool, true, false, ◌||◌, List, [], ◌∷◌, arith}
use cget.Core.Types.{TaskStatus}
use cget.Core.Types.Names.{task_status_eq}
use cget.Core.TaskState.{is_valid_transition}

-- From `s` through the statuses of the list, each by a change that the table allows.
abbrev pub IsPath : TaskStatus → List TaskStatus → Type 0
IsPath s [] = Unit
IsPath s (t ∷ ts) = (is_valid_transition s t ≡ true) × IsPath t ts

abbrev pub final : TaskStatus → List TaskStatus → TaskStatus
final s [] = s
final s (t ∷ ts) = final t ts

abbrev pub visits : TaskStatus → List TaskStatus → Bool
visits a [] = false
visits a (t ∷ ts) = task_status_eq t a || visits a ts

-- Only a download leads to a completed task: every allowed path from a status other than Completed
-- and Downloading to Completed passes through Downloading.
pub path-completed-downloading :
    (s : TaskStatus) (ts : List TaskStatus)
    → IsPath s ts
    → s ≢ TaskStatus.completed
    → s ≢ TaskStatus.downloading
    → final s ts ≡ TaskStatus.completed
    → visits TaskStatus.downloading ts ≡ true
unfolding is_valid_transition
path-completed-downloading s [] p c d e = absurd (c e)
path-completed-downloading s (t ∷ ts) p c d e = ground (arith, path-completed-downloading t ts p.1)

-- The table never declares a task corrupted: no allowed path leads there from another status.
pub path_not_corrupted :
    (s : TaskStatus) (ts : List TaskStatus)
    → IsPath s ts
    → s ≢ TaskStatus.corrupted
    → final s ts ≢ TaskStatus.corrupted
unfolding is_valid_transition
path_not_corrupted s [] p h = h
path_not_corrupted s (t ∷ ts) p h = ground (arith, path_not_corrupted t ts p.1)

-- Whatever its status, a task can be removed by changes that the table allows.
pub removable :
    (s : TaskStatus) → (ts : List TaskStatus) × IsPath s ts × (final s ts ≡ TaskStatus.removed)
unfolding is_valid_transition
removable TaskStatus.created =
    (TaskStatus.failed ∷ TaskStatus.removed ∷ [], (refl, (refl, tt)), refl)
removable TaskStatus.pending =
    (TaskStatus.failed ∷ TaskStatus.removed ∷ [], (refl, (refl, tt)), refl)
removable TaskStatus.queued =
    (TaskStatus.failed ∷ TaskStatus.removed ∷ [], (refl, (refl, tt)), refl)
removable TaskStatus.downloading =
    (TaskStatus.failed ∷ TaskStatus.removed ∷ [], (refl, (refl, tt)), refl)
removable TaskStatus.retrying =
    (TaskStatus.failed ∷ TaskStatus.removed ∷ [], (refl, (refl, tt)), refl)
removable TaskStatus.removed = ([], tt, refl)
removable _ = (TaskStatus.removed ∷ [], (refl, tt), refl)
