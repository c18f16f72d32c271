-- ===== src/Scheduler/Limits/Done.antt =====
-- The end of a worker keeps the invariant.
use cget.Prelude.{
  ℕ, ◌-◌, ◌<◌, ◌≡◌, refl, ◌∙◌, inl, inr, Bool, true, false, Option, none, some, List, Text,
  text_eq_refl, text_eq_iff, ltb, get_elem?, All, arith, Option-cases,
}
use cget.Core.Types.{DownloadTask}
use cget.Scheduler.Quotas.{quota_of, quota_of-put_quota, active_count-put_quota}
use cget.Scheduler.Defs.{SchedulerConfig, SchedulerState, Worker, limit_for}
use cget.Scheduler.Steps.{
  find_task, mark_failed, mark_found, worker_threw, worker_done, finish_worker,
}
use cget.Scheduler.Limits.Counting.{
  count_workers-remove_at, length-remove_at, All-set, All-get_elem?,
}
use cget.Scheduler.Limits.Invariant.{Inv, limit_for_same}

module _ (c : SchedulerConfig) (limit : Text → ℕ) where
  mark_found-agreed :
      (w : Worker) (o : Option ℕ) (tasks : List DownloadTask)
      → All (λ t. limit_for c t ≡ limit t.id) tasks
      → All (λ t. limit_for c t ≡ limit t.id) (mark_found w o tasks)
  unfolding mark_found mark_failed
  mark_found-agreed w none tasks h = h
  mark_found-agreed w (some ti) tasks h = elim (Option-cases (get_elem? tasks ti)) [
    | inl gone ↦ rw (gone, mark_found) h
    | inr (t, there) ↦
        rw (there, mark_found)
          (All-set (λ t. limit_for c t ≡ limit t.id) tasks ti _ h
            (limit_for_same c _ t refl
              ∙ All-get_elem? (λ t. limit_for c t ≡ limit t.id) tasks ti t h there))
  ]

  worker_threw-Inv :
      (s : SchedulerState) (w : Worker) → Inv c limit s → Inv c limit (worker_threw s w)
  unfolding worker_threw
  worker_threw-Inv s w v = record {
    busy = v.busy;
    busy_cap = v.busy_cap;
    active = v.active;
    active_cap = v.active_cap;
    counted = v.counted;
    quota_cap = v.quota_cap;
    quota_set = v.quota_set;
    agreed = mark_found-agreed w (find_task w.task_id 0 s.tasks) s.tasks v.agreed;
  }

  worker_done-Inv :
      (s : SchedulerState) (i : ℕ) (w : Worker)
      → Inv c limit s
      → get_elem? s.workers i ≡ some w
      → Inv c limit (worker_done s i w)
  unfolding worker_done
  worker_done-Inv s i w v h =
      let q = quota_of w.task_id s.quotas in
      let q' = record q { running_chunks = q.running_chunks - 1 } in
      let run : 0 < q.running_chunks = ground (
        arith,
        v.counted w.task_id,
        count_workers-remove_at w.task_id i s.workers h,
        text_eq_refl w.task_id,
      ) in
      let had : ltb 0 q.running_chunks ≡ true = ground arith in
      record {
        busy = ground (arith, length-remove_at i s.workers h, v.busy);
        busy_cap = ground (arith, v.busy_cap);
        active = ground (arith, active_count-put_quota w.task_id q' s.quotas, v.active);
        active_cap = ground (arith, v.active_cap);
        counted = λ j.
            rw (had, quota_of-put_quota)
              (ground (
                arith,
                text_eq_iff w.task_id j,
                v.counted j,
                count_workers-remove_at j i s.workers h,
              ));
        quota_cap = λ j.
            rw (had, quota_of-put_quota) (ground (arith, text_eq_iff w.task_id j, v.quota_cap j));
        quota_set = λ j.
            rw (had, quota_of-put_quota) (ground (arith, text_eq_iff w.task_id j, v.quota_set j));
        agreed = v.agreed;
      }

  pub finish_worker-Inv :
      (s : SchedulerState) (i : ℕ) (w : Worker) (threw : Bool)
      → Inv c limit s
      → get_elem? s.workers i ≡ some w
      → Inv c limit (finish_worker s i w threw)
  unfolding finish_worker
  finish_worker-Inv s i w true v h =
      worker_done-Inv (worker_threw s w) i w (worker_threw-Inv s w v) (unfold worker_threw in h)
  finish_worker-Inv s i w false v h = worker_done-Inv s i w v h
