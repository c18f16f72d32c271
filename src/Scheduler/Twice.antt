-- ===== src/Scheduler/Twice.antt =====
-- A run of the scheduler in which two workers get the same chunk.
use cget.Prelude.{
  ℕ, inr, ◌≡◌, ◌<◌, refl, ◌∙◌, ap, subst, true, false, ◌&&◌, some, [], ◌∷◌, Text, text_eq,
  text_eq_refl, leb, ◌==◌, arith, get_elem?,
}
use cget.Core.Types.{TaskStatus, ChunkStatus, Chunk, DownloadTask}
use cget.Scheduler.Quotas.{TaskQuota, quota_of, put_quota, quota_of-put_quota_self}
use cget.Scheduler.Defs.{
  SchedulingPolicyType, SchedulerConfig, SchedulerState, Worker, is_schedulable_status,
  is_schedulable_chunk, has_schedulable_chunk, select_from, select_next_chunk, limit_for,
  set_up_quota, start_worker, start_selected, schedule_task, task_order, schedule_pass, unfinished,
}
use cget.Scheduler.Steps.{find_task, start_run, Step, Reach}
use cget.Scheduler.Selection.{Waits, Waits-is_schedulable_chunk}

order_one : (p : SchedulingPolicyType) (t : DownloadTask) → task_order p (t ∷ []) ≡ 0 ∷ []
unfolding task_order
order_one SchedulingPolicyType.fifo t = refl
order_one SchedulingPolicyType.small_task_first t = refl

module _ (c : SchedulerConfig) (t : DownloadTask) (chunk : Chunk) where
  -- A task with one chunk, which can be scheduled.
  record IsReady : Type 0 where
    chunks : t.chunks ≡ chunk ∷ []
    status : is_schedulable_status t.status ≡ true
    waits : is_schedulable_chunk chunk ≡ true

  ready-has : IsReady → has_schedulable_chunk t ≡ true
  unfolding has_schedulable_chunk
  ready-has r = rw (r.status, r.chunks, r.waits) refl

  ready-select : IsReady → select_next_chunk t ≡ some 0
  unfolding select_next_chunk
  ready-select r = rw (r.chunks, select_from, r.waits) refl

  -- The pass may start a worker for the task, whose quota is `q` once it is set up.
  record HasRoom (s : SchedulerState) (q : TaskQuota) : Type 0 where
    quota : set_up_quota c t (quota_of t.id s.quotas) ≡ q
    chunks : leb q.max_concurrent_chunks q.running_chunks ≡ false
    tasks : (q.running_chunks == 0 && leb c.max_concurrent_tasks s.active_tasks) ≡ false
    workers : leb c.max_global_workers s.busy_workers ≡ false

  abbrev started : SchedulerState → TaskQuota → SchedulerState
  started s q = start_worker (record s { quotas = put_quota t.id q s.quotas }) 0 t q 0 chunk

  selected :
      (s : SchedulerState) (q : TaskQuota)
      → get_elem? t.chunks 0 ≡ some chunk
      → start_selected s 0 t q (some 0) ≡ (start_worker s 0 t q 0 chunk, true)
  unfolding start_selected
  selected s q there = rw (there, start_selected) refl

  schedule_task_one :
      (s : SchedulerState) (q : TaskQuota)
      → IsReady
      → HasRoom s q
      → schedule_task c s 0 t ≡ (started s q, true)
  unfolding schedule_task
  schedule_task_one s q r room =
      rw (room.quota, ready-has r, room.chunks, room.tasks, ready-select r)
        (selected (record s { quotas = put_quota t.id q s.quotas }) q
          (ap (λ cs. get_elem? cs 0) r.chunks))

  pass_zero :
      (s : SchedulerState) (q : TaskQuota)
      → get_elem? s.tasks 0 ≡ some t
      → IsReady
      → HasRoom s q
      → (schedule_pass c (0 ∷ []) s false).0 ≡ started s q
  unfolding schedule_pass
  pass_zero s q there r room =
      rw (room.workers, schedule_pass, there, schedule_pass)
        (ap (λ x. x.0) (schedule_task_one s q r room))

  pass_one :
      (s : SchedulerState) (q : TaskQuota)
      → s.tasks ≡ t ∷ []
      → IsReady
      → HasRoom s q
      → (schedule_pass c (task_order c.policy s.tasks) s false).0 ≡ started s q
  pass_one s q alone r room =
      ap (λ order. (schedule_pass c order s false).0)
        (ap (task_order c.policy) alone ∙ order_one c.policy t)
      ∙ pass_zero s q (ap (λ ts. get_elem? ts 0) alone) r room

  unfinished_one : (s : SchedulerState) → s.tasks ≡ t ∷ [] → IsReady → unfinished s ≡ true
  unfolding unfinished
  unfinished_one s alone r = rw (alone, ready-has r) refl

  -- A step from a state with this one task starts a worker for its chunk.
  one-Step :
      (s : SchedulerState) (q : TaskQuota)
      → s.tasks ≡ t ∷ []
      → s.worker_failed ≡ false
      → IsReady
      → HasRoom s q
      → Step c s (started s q)
  one-Step s q alone fine r room =
      subst (Step c s) (pass_one s q alone r room) (Step.pass s fine (unfinished_one s alone r))

-- A task whose only chunk is `chunk`, after the engine has noted a failed attempt of the chunk that
-- another attempt follows (`note_retry` of Engine/Retry): the chunk is Failed and the task Retrying,
-- with the number of retries and the message.
abbrev pub after_retry : DownloadTask → Chunk → ℕ → Text → DownloadTask
after_retry t chunk retries message = record t {
  status = TaskStatus.retrying;
  last_error = some message;
  chunks = record chunk { status = ChunkStatus.failed; retry_count = retries } ∷ [];
}

-- The quota of the task when `running` workers have it.
abbrev quota_at : SchedulerConfig → DownloadTask → ℕ → TaskQuota
quota_at c t running = record {
  task_id = t.id;
  max_concurrent_chunks = limit_for c t;
  running_chunks = running;
  queued_chunks = 0;
}

first_room :
    (c : SchedulerConfig) (t : DownloadTask) (chunk : Chunk)
    → 1 < c.max_global_workers
    → 0 < c.max_concurrent_tasks
    → 1 < limit_for c t
    → HasRoom c t chunk (start_run c (t ∷ [])) (quota_at c t 0)
unfolding start_run set_up_quota quota_of text_eq
first_room c t chunk workers tasks chunks = record {
  quota = refl;
  chunks = ground (arith, chunks);
  tasks = ground (arith, tasks);
  workers = ground (arith, workers);
}

-- With one worker at work in the task there is room for another.
second_room :
    (c : SchedulerConfig) (t : DownloadTask) (chunk : Chunk) (again : DownloadTask) (failed : Chunk)
    → 1 < c.max_global_workers
    → 1 < limit_for c t
    → text_eq t.id [] ≡ false
    → again.id ≡ t.id
    → HasRoom c again failed
        (record (started c t chunk (start_run c (t ∷ [])) (quota_at c t 0)) { tasks = again ∷ [] })
        (quota_at c t 1)
unfolding start_run start_worker set_up_quota
second_room c t chunk again failed workers chunks named same = record {
  quota =
      ap (λ q. set_up_quota c again q)
        (ap
            (λ id.
              quota_of id (put_quota t.id (quota_at c t 1) (put_quota t.id (quota_at c t 0) [])))
            same
          ∙ quota_of-put_quota_self t.id (quota_at c t 1) (put_quota t.id (quota_at c t 0) []))
      ∙ rw (named, set_up_quota) refl;
  chunks = ground (arith, chunks);
  tasks = refl;
  workers = ground (arith, workers);
}

-- A scheduler that has room for two workers, two of them in one task, and a queued task with one chunk
-- that waits. Then the run can reach a state in which a worker has the chunk; from there the worker's note
-- of a failed attempt, after which it tries again, is a step; and from the state after that a step leads
-- to one in which two workers hold this one chunk.
pub two_workers_one_chunk :
    (c : SchedulerConfig) (t : DownloadTask) (chunk : Chunk) (retries : ℕ) (message : Text)
    → 1 < c.max_global_workers
    → 0 < c.max_concurrent_tasks
    → 1 < limit_for c t
    → text_eq t.id [] ≡ false
    → t.status ≡ TaskStatus.queued
    → t.chunks ≡ chunk ∷ []
    → Waits chunk
    → let w : Worker = record { task_id = t.id; chunk_vector_index = 0 } in
      (one two : SchedulerState) × Reach c (start_run c (t ∷ [])) one
      × (get_elem? one.workers 0 ≡ some w)
      × Step c one (record one { tasks = after_retry t chunk retries message ∷ [] })
      × Step c (record one { tasks = after_retry t chunk retries message ∷ [] }) two
      × (get_elem? two.workers 0 ≡ some w)
      × (get_elem? two.workers 1 ≡ some w)
unfolding start_worker is_schedulable_status find_task start_run
two_workers_one_chunk c t chunk retries message workers tasks chunks named queued one waits =
    let again = after_retry t chunk retries message in
    let failed : Chunk = record chunk { status = ChunkStatus.failed; retry_count = retries } in
    let s0 = start_run c (t ∷ []) in
    let s1 = started c t chunk s0 (quota_at c t 0) in
    let s2 = record s1 { tasks = again ∷ [] } in
    let ready : IsReady c t chunk = record {
      chunks = one;
      status = rw queued (refl);
      waits = Waits-is_schedulable_chunk chunk waits;
    } in
    let again_ready : IsReady c again failed = record {
      chunks = refl;
      status = refl;
      waits =
          Waits-is_schedulable_chunk failed
            (record { idle = inr (inr refl); range = waits.range; missing = waits.missing });
    } in
    (
      s1,
      started c again failed s2 (quota_at c t 1),
      Reach.next Reach.here (
          one-Step c t chunk s0 (quota_at c t 0) refl refl ready
            (first_room c t chunk workers tasks chunks)),
      refl,
      Step.execute s1 0 0 _ _ again refl (rw (text_eq_refl t.id) refl) refl refl refl,
      one-Step c again failed s2 (quota_at c t 1) refl refl again_ready
          (second_room c t chunk again failed workers chunks named refl),
      refl,
      refl,
    )
