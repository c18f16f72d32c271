-- ===== src/Core/TaskState.antt =====
-- src/core/task_state.cpp: the table of the allowed changes of a task's status. The proofs are in
-- the children.
pub mod Paths
use cget.Prelude.{◌||◌, Bool, false, true, Option, none, some, if◌then◌else◌, Text, str, ◌++◌}
use cget.Core.Types.{TaskStatus}
use cget.Core.Types.Names.{task_status_eq, task_status_to_string}
use cget.Core.Errors.{CgetError, ErrorCode}

-- The `switch` of `isValidTransition`.
unfoldable pub allowed_next : TaskStatus → TaskStatus → Bool
allowed_next TaskStatus.created next =
    task_status_eq next TaskStatus.pending
    || task_status_eq next TaskStatus.queued
    || task_status_eq next TaskStatus.failed
allowed_next TaskStatus.pending next =
    task_status_eq next TaskStatus.queued
    || task_status_eq next TaskStatus.paused
    || task_status_eq next TaskStatus.failed
allowed_next TaskStatus.queued next =
    task_status_eq next TaskStatus.downloading
    || task_status_eq next TaskStatus.paused
    || task_status_eq next TaskStatus.cancelled
    || task_status_eq next TaskStatus.failed
allowed_next TaskStatus.downloading next =
    task_status_eq next TaskStatus.paused
    || task_status_eq next TaskStatus.retrying
    || task_status_eq next TaskStatus.failed
    || task_status_eq next TaskStatus.completed
    || task_status_eq next TaskStatus.cancelled
    || task_status_eq next TaskStatus.pending_recovery
    || task_status_eq next TaskStatus.metadata_mismatch
allowed_next TaskStatus.retrying next =
    task_status_eq next TaskStatus.queued
    || task_status_eq next TaskStatus.downloading
    || task_status_eq next TaskStatus.failed
    || task_status_eq next TaskStatus.paused
    || task_status_eq next TaskStatus.pending_recovery
allowed_next TaskStatus.paused next =
    task_status_eq next TaskStatus.queued
    || task_status_eq next TaskStatus.downloading
    || task_status_eq next TaskStatus.removed
    || task_status_eq next TaskStatus.failed
allowed_next TaskStatus.failed next =
    task_status_eq next TaskStatus.queued || task_status_eq next TaskStatus.removed
allowed_next TaskStatus.completed next = task_status_eq next TaskStatus.removed
allowed_next TaskStatus.cancelled next = task_status_eq next TaskStatus.removed
allowed_next TaskStatus.corrupted next = task_status_eq next TaskStatus.removed
allowed_next TaskStatus.pending_recovery next =
    task_status_eq next TaskStatus.paused
    || task_status_eq next TaskStatus.queued
    || task_status_eq next TaskStatus.removed
    || task_status_eq next TaskStatus.metadata_mismatch
    || task_status_eq next TaskStatus.failed
allowed_next TaskStatus.metadata_mismatch next =
    task_status_eq next TaskStatus.removed || task_status_eq next TaskStatus.failed
allowed_next TaskStatus.removed next = false

unfoldable pub is_valid_transition : TaskStatus → TaskStatus → Bool
unfolding allowed_next
is_valid_transition current next =
    if task_status_eq current next then true else allowed_next current next

-- `requireValidTransition`: `none` when it returns, and else the error that it throws.
unfoldable pub require_valid_transition : TaskStatus → TaskStatus → Option CgetError
unfolding is_valid_transition
require_valid_transition current next =
    if is_valid_transition current next
    then none
    else some (record {
      code = ErrorCode.invalid_state_transition_error;
      message =
          str "invalid task state transition from "
          ++ (task_status_to_string current ++ (str " to " ++ task_status_to_string next));
    })
