-- ===== src/Examples/Scheduler.antt =====
-- The theorems on the scheduler at concrete inputs.
use cget.Prelude.{
  inl, refl, ◌≡◌, ◌≤◌, false, List, [], ◌∷◌, some, Text, text_eq, length, arith, get_elem?,
}
use cget.Core.Types.{TaskStatus, ChunkStatus, Chunk, DownloadTask, chunk_size}
use cget.Scheduler.Quotas.{active_count}
use cget.Scheduler.Defs.{
  SchedulingPolicyType, SchedulerConfig, SchedulerState, Worker, limit_for, schedule_pass,
  task_order, unfinished, select_next_chunk, select_from, is_schedulable_chunk,
  has_schedulable_chunk, is_schedulable_status,
}
use cget.Scheduler.Steps.{start_run, Step, Reach}
use cget.Scheduler.Limits.{run_limits}
use cget.Scheduler.Limits.Counting.{count_workers}
use cget.Scheduler.Selection.{FirstWaiting, select_next_chunk-FirstWaiting}
use cget.Scheduler.Twice.{after_retry, two_workers_one_chunk}
use cget.Examples.Data.{one_chunk, one_task, part_a, two_chunks}

abbrev limits : SchedulerConfig
limits = record {
  max_global_workers = 1;
  max_concurrent_tasks = 1;
  max_chunks_per_task = 2;
  max_chunk_queue_size = 8;
  policy = SchedulingPolicyType.fifo;
}

abbrev queued : List DownloadTask
queued = one_task TaskStatus.queued 4 two_chunks ∷ []

abbrev first_pass : SchedulerState
first_pass =
    (schedule_pass limits (task_order limits.policy queued) (start_run limits queued) false).0

run_limits_example :
    (first_pass.busy_workers ≡ length first_pass.workers)
    × (length first_pass.workers ≤ 1)
    × (first_pass.active_tasks ≡ active_count first_pass.quotas)
    × (first_pass.active_tasks ≤ 1)
    × ((id : Text) → count_workers id first_pass.workers ≤ 2)
unfolding start_run limit_for unfinished has_schedulable_chunk is_schedulable_status
    is_schedulable_chunk chunk_size
run_limits_example =
    run_limits limits (λ id. 2) queued (refl, tt)
      (Reach.next Reach.here (Step.pass (start_run limits queued) refl refl))

-- A chunk that is done, and one that failed.
abbrev half_done : List Chunk
half_done =
    one_chunk 0 1 2 ChunkStatus.completed part_a ∷ one_chunk 2 3 1 ChunkStatus.failed part_a ∷ []

select_next_chunk-FirstWaiting_example : FirstWaiting half_done (some 1)
unfolding select_next_chunk select_from is_schedulable_chunk chunk_size
select_next_chunk-FirstWaiting_example =
    select_next_chunk-FirstWaiting (one_task TaskStatus.retrying 4 half_done)

-- The limits with two workers.
abbrev two_workers : SchedulerConfig
two_workers = record limits { max_global_workers = 2 }

abbrev one_waiting : Chunk
one_waiting = one_chunk 0 1 0 ChunkStatus.pending part_a

two_workers_one_chunk_example :
    let w : Worker = record { task_id = b't' ∷ []; chunk_vector_index = 0 } in
    let noted =
      after_retry (one_task TaskStatus.queued 2 (one_waiting ∷ [])) one_waiting 1 (b'm' ∷ []) in
    (one two : SchedulerState) × Reach two_workers
      (start_run two_workers (one_task TaskStatus.queued 2 (one_waiting ∷ []) ∷ []))
      one
    × (get_elem? one.workers 0 ≡ some w)
    × Step two_workers one (record one { tasks = noted ∷ [] })
    × Step two_workers (record one { tasks = noted ∷ [] }) two
    × (get_elem? two.workers 0 ≡ some w)
    × (get_elem? two.workers 1 ≡ some w)
unfolding limit_for text_eq
two_workers_one_chunk_example =
    two_workers_one_chunk two_workers (one_task TaskStatus.queued 2 (one_waiting ∷ [])) one_waiting
      1 (b'm' ∷ []) (omega arith) (omega arith) (omega arith) refl refl refl
      (record { idle = inl refl; range = omega arith; missing = omega arith })
