-- ===== src/Core/Types/Names.antt =====
-- src/core/types.cpp: comparing the statuses, and their names in the task files. An unknown name
-- makes the source throw `std::invalid_argument`; here it is `none`.
use cget.Prelude.{ℕ, ◌≡◌, refl, Bool, Option, none, some, Text, str, text_eq, ◌==◌, if◌then◌else◌}
use cget.Core.Types.{TaskStatus, ChunkStatus}

-- The enumerators' values.
abbrev pub task_status_code : TaskStatus → ℕ
task_status_code TaskStatus.created = 0
task_status_code TaskStatus.pending = 1
task_status_code TaskStatus.queued = 2
task_status_code TaskStatus.downloading = 3
task_status_code TaskStatus.paused = 4
task_status_code TaskStatus.retrying = 5
task_status_code TaskStatus.failed = 6
task_status_code TaskStatus.completed = 7
task_status_code TaskStatus.cancelled = 8
task_status_code TaskStatus.removed = 9
task_status_code TaskStatus.corrupted = 10
task_status_code TaskStatus.pending_recovery = 11
task_status_code TaskStatus.metadata_mismatch = 12

abbrev pub chunk_status_code : ChunkStatus → ℕ
chunk_status_code ChunkStatus.pending = 0
chunk_status_code ChunkStatus.downloading = 1
chunk_status_code ChunkStatus.paused = 2
chunk_status_code ChunkStatus.completed = 3
chunk_status_code ChunkStatus.failed = 4

-- `operator==` of the two enumerations.
abbrev pub task_status_eq : TaskStatus → TaskStatus → Bool
task_status_eq a b = task_status_code a == task_status_code b

abbrev pub chunk_status_eq : ChunkStatus → ChunkStatus → Bool
chunk_status_eq a b = chunk_status_code a == chunk_status_code b

unfoldable pub task_status_to_string : TaskStatus → Text
task_status_to_string TaskStatus.created = str "Created"
task_status_to_string TaskStatus.pending = str "Pending"
task_status_to_string TaskStatus.queued = str "Queued"
task_status_to_string TaskStatus.downloading = str "Downloading"
task_status_to_string TaskStatus.paused = str "Paused"
task_status_to_string TaskStatus.retrying = str "Retrying"
task_status_to_string TaskStatus.failed = str "Failed"
task_status_to_string TaskStatus.completed = str "Completed"
task_status_to_string TaskStatus.cancelled = str "Cancelled"
task_status_to_string TaskStatus.removed = str "Removed"
task_status_to_string TaskStatus.corrupted = str "Corrupted"
task_status_to_string TaskStatus.pending_recovery = str "PendingRecovery"
task_status_to_string TaskStatus.metadata_mismatch = str "MetadataMismatch"

unfoldable pub chunk_status_to_string : ChunkStatus → Text
chunk_status_to_string ChunkStatus.pending = str "Pending"
chunk_status_to_string ChunkStatus.downloading = str "Downloading"
chunk_status_to_string ChunkStatus.paused = str "Paused"
chunk_status_to_string ChunkStatus.completed = str "Completed"
chunk_status_to_string ChunkStatus.failed = str "Failed"

unfoldable pub task_status_from_string : Text → Option TaskStatus
task_status_from_string value =
    if text_eq value (str "Created")
    then some TaskStatus.created
    else if text_eq value (str "Pending")
    then some TaskStatus.pending
    else if text_eq value (str "Queued")
    then some TaskStatus.queued
    else if text_eq value (str "Downloading")
    then some TaskStatus.downloading
    else if text_eq value (str "Paused")
    then some TaskStatus.paused
    else if text_eq value (str "Retrying")
    then some TaskStatus.retrying
    else if text_eq value (str "Failed")
    then some TaskStatus.failed
    else if text_eq value (str "Completed")
    then some TaskStatus.completed
    else if text_eq value (str "Cancelled")
    then some TaskStatus.cancelled
    else if text_eq value (str "Removed")
    then some TaskStatus.removed
    else if text_eq value (str "Corrupted")
    then some TaskStatus.corrupted
    else if text_eq value (str "PendingRecovery")
    then some TaskStatus.pending_recovery
    else if text_eq value (str "MetadataMismatch")
    then some TaskStatus.metadata_mismatch
    else none

unfoldable pub chunk_status_from_string : Text → Option ChunkStatus
chunk_status_from_string value =
    if text_eq value (str "Pending")
    then some ChunkStatus.pending
    else if text_eq value (str "Downloading")
    then some ChunkStatus.downloading
    else if text_eq value (str "Paused")
    then some ChunkStatus.paused
    else if text_eq value (str "Completed")
    then some ChunkStatus.completed
    else if text_eq value (str "Failed")
    then some ChunkStatus.failed
    else none

-- A task status written to a task file is read back as it was.
pub task_status-round_trip :
    (s : TaskStatus) → task_status_from_string (task_status_to_string s) ≡ some s
unfolding task_status_from_string task_status_to_string str text_eq
task_status-round_trip TaskStatus.created = refl
task_status-round_trip _ = refl

-- A chunk status written to a task file is read back as it was.
pub chunk_status-round_trip :
    (s : ChunkStatus) → chunk_status_from_string (chunk_status_to_string s) ≡ some s
unfolding chunk_status_from_string chunk_status_to_string str text_eq
chunk_status-round_trip ChunkStatus.pending = refl
chunk_status-round_trip _ = refl
