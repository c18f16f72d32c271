-- ===== src/Scheduler/Limits.antt =====
-- The limits of the configuration hold in every reachable state of a run.
pub mod Counting
mod Invariant
mod Start
mod Done
use cget.Prelude.{
  ℕ, zero, suc, ◌+◌, ◌-◌, ◌≤◌, ◌<◌, ◌≡◌, refl, sym, ◌∙◌, ap, inl, inr, Bool, true, false, not, ◌&&◌,
  ◌||◌, Option, none, some, List, [], ◌∷◌, ◌++◌, Text, text_eq, text_eq_refl, text_eq_iff, ltb, leb,
  ◌==◌, if◌then◌else◌, length, length-append, get_elem?, set, All, arith, Bool-cases, Option-cases,
}
use cget.Core.Types.{DownloadTask, Chunk}
use cget.Scheduler.Quotas.{
  TaskQuota, quota_of, put_quota, quota_of-put_quota, quota_of-put_quota_self, is_active,
  active_count, active_count-put_quota,
}
use cget.Scheduler.Defs.{
  SchedulerConfig, SchedulerState, Worker, limit_for, set_up_quota, start_worker, start_selected,
  schedule_task, schedule_pass, has_schedulable_chunk, select_next_chunk, task_order,
}
use cget.Scheduler.Steps.{
  find_task, remove_at, mark_failed, mark_found, worker_threw, worker_done, finish_worker,
  start_run, Step, Reach,
}
use Counting.{
  count_workers, count_workers-append, count_workers-remove_at, length-remove_at, All-set,
  All-get_elem?,
}
use Invariant.{Inv, limit_for_same}
use Start.{schedule_pass-Inv}
use Done.{finish_worker-Inv}

module _ (c : SchedulerConfig) (limit : Text → ℕ) where
  -- Every step of the threads keeps the invariant.
  pub Step-Inv : {s t : SchedulerState} → Step c s t → Inv c limit s → Inv c limit t
  Step-Inv (Step.pass s ok more) v =
      schedule_pass-Inv c limit (task_order c.policy s.tasks) s false v
  Step-Inv (Step.execute s i ti w t t' hw ht there same_id same_max) v = record {
    busy = v.busy;
    busy_cap = v.busy_cap;
    active = v.active;
    active_cap = v.active_cap;
    counted = v.counted;
    quota_cap = v.quota_cap;
    quota_set = v.quota_set;
    agreed =
        All-set (λ t. limit_for c t ≡ limit t.id) s.tasks ti t' v.agreed
          (limit_for_same c t' t same_max
            ∙ All-get_elem? (λ t. limit_for c t ≡ limit t.id) s.tasks ti t v.agreed there
            ∙ ap limit (sym same_id));
  }
  Step-Inv (Step.finish s i w threw h) v = finish_worker-Inv c limit s i w threw v h

  start_run-Inv :
      (tasks : List DownloadTask)
      → All (λ t. limit_for c t ≡ limit t.id) tasks
      → Inv c limit (start_run c tasks)
  unfolding start_run quota_of active_count text_eq
  start_run-Inv tasks agree = record {
    busy = refl;
    busy_cap = omega arith;
    active = refl;
    active_cap = omega arith;
    counted = λ id. refl;
    quota_cap = λ id. omega arith;
    quota_set = λ id h. cc;
    agreed = agree;
  }

  Reach-Inv : {s t : SchedulerState} → Reach c s t → Inv c limit s → Inv c limit t
  Reach-Inv Reach.here v = v
  Reach-Inv (Reach.next r st) v = Step-Inv st (Reach-Inv r v)

  -- In every state that a run reaches, whatever the executors do and however the threads interleave:
  -- the count of busy workers is the number of threads that have not left, and at most
  -- `max_global_workers`; the count of active tasks is the number of tasks with a running chunk, and
  -- at most `max_concurrent_tasks`; and each task has at most as many running workers as its own
  -- limit allows. The hypothesis is that tasks with one id have one limit.
  pub run_limits :
      (tasks : List DownloadTask) {s : SchedulerState}
      → All (λ t. limit_for c t ≡ limit t.id) tasks
      → Reach c (start_run c tasks) s
      → (s.busy_workers ≡ length s.workers)
        × (length s.workers ≤ c.max_global_workers)
        × (s.active_tasks ≡ active_count s.quotas)
        × (s.active_tasks ≤ c.max_concurrent_tasks)
        × ((id : Text) → count_workers id s.workers ≤ limit id)
  run_limits tasks agree r =
      let v = Reach-Inv r (start_run-Inv tasks agree) in
      (
        v.busy,
        omega (arith, v.busy, v.busy_cap),
        v.active,
        v.active_cap,
        λ id. omega (arith, v.counted id, v.quota_cap id),
      )
