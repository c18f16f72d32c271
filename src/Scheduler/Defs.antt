-- ===== src/Scheduler/Defs.antt =====
-- The state of `Scheduler::run` and one pass of its loop, as in src/scheduler/scheduler.cpp. The
-- time stamps of the jobs and the worker utilisation, a `double` that is only shown, are left out.
use cget.Prelude.{
  ℕ, zero, suc, ◌+◌, Bool, true, false, not, ◌&&◌, ◌||◌, Option, none, some, List, [], ◌∷◌, ◌++◌,
  Text, text_eq, ltb, leb, ◌==◌, if◌then◌else◌, length, get_elem?, set, any_of, max,
}
use cget.Core.Types.{TaskStatus, ChunkStatus, Chunk, DownloadTask, chunk_size}
use cget.Core.Types.Names.{task_status_eq, chunk_status_eq}
use cget.Scheduler.Quotas.{TaskQuota, Quotas, quota_of, put_quota}

pub data SchedulingPolicyType : Type 0 where
  fifo small_task_first : SchedulingPolicyType

pub record SchedulerConfig : Type 0 where
  pub max_global_workers : ℕ
  pub max_concurrent_tasks : ℕ
  pub max_chunks_per_task : ℕ
  pub max_chunk_queue_size : ℕ
  pub policy : SchedulingPolicyType

pub record ChunkJob : Type 0 where
  pub task_id : Text
  pub chunk_index : ℕ
  pub priority : ℕ

pub record SchedulerSnapshot : Type 0 where
  pub total_workers : ℕ
  pub busy_workers : ℕ
  pub active_tasks : ℕ
  pub queued_tasks : ℕ
  pub task_queue_size : ℕ
  pub chunk_queue_size : ℕ
  pub max_chunks_per_task : ℕ
  pub policy : SchedulingPolicyType

-- A worker thread that has not yet left: the task's id, and the chunk's position in its vector.
pub record Worker : Type 0 where
  pub task_id : Text
  pub chunk_vector_index : ℕ

-- The variables of `run` with the members that it writes.
pub record SchedulerState : Type 0 where
  pub tasks : List DownloadTask
  pub quotas : Quotas
  pub workers : List Worker
  pub busy_workers : ℕ
  pub active_tasks : ℕ
  pub worker_failed : Bool
  pub snapshot : SchedulerSnapshot
  pub scheduled_jobs : List ChunkJob

-- `Scheduler::Scheduler`: the limits are at least 1.
unfoldable pub normalize_limits : SchedulerConfig → SchedulerConfig
normalize_limits c = record c {
  max_global_workers = max 1 c.max_global_workers;
  max_concurrent_tasks = max 1 c.max_concurrent_tasks;
  max_chunks_per_task = max 1 c.max_chunks_per_task;
}

unfoldable pub is_schedulable_status : TaskStatus → Bool
is_schedulable_status s =
    task_status_eq s TaskStatus.pending
    || task_status_eq s TaskStatus.queued
    || task_status_eq s TaskStatus.downloading
    || task_status_eq s TaskStatus.retrying
    || task_status_eq s TaskStatus.failed

-- The test on a chunk that `hasSchedulableChunk` and `selectNextChunk` share.
unfoldable pub is_schedulable_chunk : Chunk → Bool
is_schedulable_chunk c =
    (chunk_status_eq c.status ChunkStatus.pending
      || chunk_status_eq c.status ChunkStatus.paused
      || chunk_status_eq c.status ChunkStatus.failed)
    && ltb c.downloaded (chunk_size c)

unfoldable pub has_schedulable_chunk : DownloadTask → Bool
has_schedulable_chunk t =
    if is_schedulable_status t.status then any_of is_schedulable_chunk t.chunks else false

-- The loop of `selectNextChunk` from position `index` on.
unfoldable pub select_from : ℕ → List Chunk → Option ℕ
select_from index [] = none
select_from index (c ∷ cs) =
    if is_schedulable_chunk c then some index else select_from (index + 1) cs

unfoldable pub select_next_chunk : DownloadTask → Option ℕ
unfolding select_from
select_next_chunk t = select_from 0 t.chunks

abbrev running_of : SchedulerState → Text → ℕ
running_of s id = (quota_of id s.quotas).running_chunks

-- The lambda `unfinished`.
unfoldable pub unfinished : SchedulerState → Bool
unfinished s = any_of (λ t. has_schedulable_chunk t || ltb 0 (running_of s t.id)) s.tasks

-- The lambda `countQueuedTasks`.
unfoldable pub count_queued : Quotas → List DownloadTask → ℕ
count_queued quotas [] = 0
count_queued quotas (t ∷ ts) =
    (if has_schedulable_chunk t && (quota_of t.id quotas).running_chunks == 0 then 1 else 0)
    + count_queued quotas ts

-- The quota of a task: set up at its first use.
unfoldable pub limit_for : SchedulerConfig → DownloadTask → ℕ
limit_for c t =
    if t.scheduler_max_chunks == 0 then c.max_chunks_per_task else t.scheduler_max_chunks

unfoldable pub set_up_quota : SchedulerConfig → DownloadTask → TaskQuota → TaskQuota
unfolding limit_for
set_up_quota c t q =
    if text_eq q.task_id []
    then record q { task_id = t.id; max_concurrent_chunks = limit_for c t }
    else q

-- Starting a worker for the chunk `chunk` at position `ci` of the task `t` at position `ti`: the
-- statuses, the counters, the snapshot, the job list and the thread.
unfoldable pub start_worker :
    SchedulerState → ℕ → DownloadTask → TaskQuota → ℕ → Chunk → SchedulerState
start_worker s ti t q ci chunk =
    let started = record t {
      status = TaskStatus.downloading;
      chunks = set t.chunks ci (record chunk { status = ChunkStatus.downloading });
    } in
    let tasks = set s.tasks ti started in
    let quotas = put_quota t.id (record q { running_chunks = q.running_chunks + 1 }) s.quotas in
    let active_tasks = if q.running_chunks == 0 then s.active_tasks + 1 else s.active_tasks in
    let busy_workers = s.busy_workers + 1 in
    let queued = count_queued quotas tasks in
    record s {
      tasks = tasks;
      quotas = quotas;
      workers = s.workers ++ record { task_id = t.id; chunk_vector_index = ci } ∷ [];
      busy_workers = busy_workers;
      active_tasks = active_tasks;
      snapshot = record (s.snapshot) {
        busy_workers = busy_workers;
        active_tasks = active_tasks;
        queued_tasks = queued;
        task_queue_size = queued;
        chunk_queue_size = 0;
      };
      scheduled_jobs =
          s.scheduled_jobs
          ++ record { task_id = t.id; chunk_index = chunk.index; priority = t.scheduler_priority }
            ∷ [];
    }

-- A chunk that was selected: start its worker.
unfoldable pub start_selected :
    SchedulerState → ℕ → DownloadTask → TaskQuota → Option ℕ → SchedulerState × Bool
start_selected s ti t q none = (s, false)
start_selected s ti t q (some ci) = elim (get_elem? t.chunks ci) [
  | none ↦ (s, false)
  | some chunk ↦ (start_worker s ti t q ci chunk, true)
]

-- The body of the loop over the tasks, after the test on the busy workers: the new state, and
-- whether a worker was started.
unfoldable pub schedule_task :
    SchedulerConfig → SchedulerState → ℕ → DownloadTask → SchedulerState × Bool
schedule_task c s ti t =
    let q = set_up_quota c t (quota_of t.id s.quotas) in
    let s' = record s { quotas = put_quota t.id q s.quotas } in
    if not (has_schedulable_chunk t) || leb q.max_concurrent_chunks q.running_chunks
    then (s', false)
    else if q.running_chunks == 0 && leb c.max_concurrent_tasks s.active_tasks
    then (s', false)
    else start_selected s' ti t q (select_next_chunk t)

-- `std::iota` from `i`.
unfoldable pub iota : ℕ → ℕ → List ℕ
iota i zero = []
iota i (suc n) = i ∷ iota (i + 1) n

abbrev size_at : List DownloadTask → ℕ → ℕ
size_at tasks i = elim (get_elem? tasks i) [ none ↦ 0 | some t ↦ t.file_size ]

-- `std::stable_sort` by the file size, as an insertion sort.
unfoldable pub insert_by_size : List DownloadTask → ℕ → List ℕ → List ℕ
insert_by_size tasks i [] = i ∷ []
insert_by_size tasks i (j ∷ js) =
    if ltb (size_at tasks j) (size_at tasks i) then j ∷ insert_by_size tasks i js else i ∷ (j ∷ js)

unfoldable pub sort_by_size : List DownloadTask → List ℕ → List ℕ
unfolding insert_by_size
sort_by_size tasks [] = []
sort_by_size tasks (i ∷ is) = insert_by_size tasks i (sort_by_size tasks is)

unfoldable pub task_order : SchedulingPolicyType → List DownloadTask → List ℕ
unfolding iota sort_by_size
task_order fifo tasks = iota 0 (length tasks)
task_order small_task_first tasks = sort_by_size tasks (iota 0 (length tasks))

-- The loop over the tasks in the order `order`; `break` when every worker is busy.
unfoldable pub schedule_pass :
    SchedulerConfig → List ℕ → SchedulerState → Bool → SchedulerState × Bool
schedule_pass c [] s scheduled = (s, scheduled)
schedule_pass c (ti ∷ rest) s scheduled = elim (leb c.max_global_workers s.busy_workers) [
  | true ↦ (s, scheduled)
  | false ↦ elim (get_elem? s.tasks ti) [
    | none ↦ schedule_pass c rest s scheduled
    | some t ↦ let r = schedule_task c s ti t in schedule_pass c rest r.0 (scheduled || r.1)
  ]
]
