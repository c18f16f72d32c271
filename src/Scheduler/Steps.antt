-- ===== src/Scheduler/Steps.antt =====
-- The threads of `Scheduler::run` as a step relation. A step is one critical section: a pass of the
-- main loop, a write of a running executor, or the end of a worker.
use cget.Prelude.{
  ℕ, zero, suc, ◌+◌, ◌-◌, ◌≡◌, Bool, true, false, Option, none, some, List, [], ◌∷◌, Text, text_eq,
  ltb, ◌==◌, if◌then◌else◌, get_elem?, set, str, map,
}
use cget.Core.Types.{TaskStatus, ChunkStatus, Chunk, DownloadTask}
use cget.Core.Types.Names.{task_status_eq}
use cget.Scheduler.Quotas.{quota_of, put_quota}
use cget.Scheduler.Defs.{
  SchedulerConfig, SchedulerState, Worker, schedule_pass, task_order, unfinished, count_queued,
}

-- `std::find_if` for a task's id, as a position.
unfoldable pub find_task : Text → ℕ → List DownloadTask → Option ℕ
find_task id index [] = none
find_task id index (t ∷ ts) = if text_eq t.id id then some index else find_task id (index + 1) ts

unfoldable pub remove_at {ℓ} : {A : Type ℓ} → ℕ → List A → List A
remove_at i [] = []
remove_at zero (x ∷ xs) = xs
remove_at (suc i) (x ∷ xs) = x ∷ remove_at i xs

abbrev set_chunk_status : ChunkStatus → Chunk → Chunk
set_chunk_status status c = record c { status = status }

-- The `catch (...)` of a worker, on the task that it worked for.
unfoldable pub mark_failed : Worker → DownloadTask → DownloadTask
mark_failed w t = record t {
  chunks = elim (get_elem? t.chunks w.chunk_vector_index) [
    | none ↦ t.chunks
    | some chunk ↦ set t.chunks w.chunk_vector_index (set_chunk_status ChunkStatus.failed chunk)
  ];
  status = TaskStatus.failed;
  last_error = some (str "scheduled worker failed");
}

-- `mark_failed` on the task that `find_if` found.
unfoldable pub mark_found : Worker → Option ℕ → List DownloadTask → List DownloadTask
mark_found w none tasks = tasks
mark_found w (some ti) tasks = elim (get_elem? tasks ti) [
  | none ↦ tasks
  | some t ↦ set tasks ti (mark_failed w t)
]

unfoldable pub worker_threw : SchedulerState → Worker → SchedulerState
worker_threw s w = record s {
  worker_failed = true;
  tasks = mark_found w (find_task w.task_id 0 s.tasks) s.tasks;
}

-- The block under `doneLock`, for the worker at position `i`.
unfoldable pub worker_done : SchedulerState → ℕ → Worker → SchedulerState
worker_done s i w =
    let q = quota_of w.task_id s.quotas in
    let had_chunk = ltb 0 q.running_chunks in
    let quotas =
      if had_chunk
      then put_quota w.task_id (record q { running_chunks = q.running_chunks - 1 }) s.quotas
      else s.quotas in
    let active_tasks =
      if had_chunk
      then if q.running_chunks - 1 == 0
        then if ltb 0 s.active_tasks then s.active_tasks - 1 else s.active_tasks
        else s.active_tasks
      else s.active_tasks in
    let busy_workers = if ltb 0 s.busy_workers then s.busy_workers - 1 else s.busy_workers in
    let queued = count_queued quotas s.tasks in
    record s {
      quotas = quotas;
      workers = remove_at i s.workers;
      busy_workers = busy_workers;
      active_tasks = active_tasks;
      snapshot = record (s.snapshot) {
        busy_workers = busy_workers;
        active_tasks = active_tasks;
        queued_tasks = queued;
        task_queue_size = queued;
      };
    }

-- The end of a worker whose executor returned (`false`) or threw (`true`).
unfoldable pub finish_worker : SchedulerState → ℕ → Worker → Bool → SchedulerState
finish_worker s i w threw = worker_done (if threw then worker_threw s w else s) i w

-- The state at the loop's first round.
unfoldable pub start_run : SchedulerConfig → List DownloadTask → SchedulerState
start_run c tasks = record {
  tasks = tasks;
  quotas = [];
  workers = [];
  busy_workers = 0;
  active_tasks = 0;
  worker_failed = false;
  snapshot = record {
    total_workers = c.max_global_workers;
    busy_workers = 0;
    active_tasks = 0;
    queued_tasks = 0;
    task_queue_size = 0;
    chunk_queue_size = 0;
    max_chunks_per_task = c.max_chunks_per_task;
    policy = c.policy;
  };
  scheduled_jobs = [];
}

abbrev fail_downloading : DownloadTask → DownloadTask
fail_downloading t =
    if task_status_eq t.status TaskStatus.downloading
    then record t { status = TaskStatus.failed; last_error = some (str "scheduled worker failed") }
    else t

-- What follows the loop, when every worker has been joined.
unfoldable pub end_run : SchedulerState → SchedulerState
end_run s = record s {
  tasks = if s.worker_failed then map fail_downloading s.tasks else s.tasks;
  snapshot = record (s.snapshot) {
    busy_workers = 0;
    active_tasks = 0;
    queued_tasks = 0;
    task_queue_size = 0;
    chunk_queue_size = 0;
  };
}

-- An executor may write to the task that it was given, but not to its id or its chunk limit.
pub data Step (c : SchedulerConfig) : SchedulerState → SchedulerState → Type 0 where
  pass :
      (s : SchedulerState)
      → s.worker_failed ≡ false
      → unfinished s ≡ true
      → Step c s (schedule_pass c (task_order c.policy s.tasks) s false).0
  execute :
      (s : SchedulerState) (i ti : ℕ) (w : Worker) (t t' : DownloadTask)
      → get_elem? s.workers i ≡ some w
      → find_task w.task_id 0 s.tasks ≡ some ti
      → get_elem? s.tasks ti ≡ some t
      → t'.id ≡ t.id
      → t'.scheduler_max_chunks ≡ t.scheduler_max_chunks
      → Step c s (record s { tasks = set s.tasks ti t' })
  finish :
      (s : SchedulerState) (i : ℕ) (w : Worker) (threw : Bool)
      → get_elem? s.workers i ≡ some w
      → Step c s (finish_worker s i w threw)

pub data Reach (c : SchedulerConfig) (s : SchedulerState) : SchedulerState → Type 0 where
  here : Reach c s s
  next : {t u : SchedulerState} → Reach c s t → Step c t u → Reach c s u
