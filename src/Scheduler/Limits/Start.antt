-- ===== src/Scheduler/Limits/Start.antt =====
-- A pass of the main loop keeps the invariant.
use cget.Prelude.{
  ℕ, ◌+◌, ◌<◌, ◌≡◌, refl, ◌∙◌, inl, inr, Bool, false, not, ◌&&◌, ◌||◌, Option, none, some, List, [],
  ◌∷◌, Text, text_eq_iff, leb, ◌==◌, length-append, get_elem?, arith, Bool-cases, Option-cases,
}
use cget.Core.Types.{DownloadTask, Chunk}
use cget.Scheduler.Quotas.{
  TaskQuota, quota_of, put_quota, quota_of-put_quota, quota_of-put_quota_self, is_active,
  active_count-put_quota,
}
use cget.Scheduler.Defs.{
  SchedulerConfig, SchedulerState, Worker, limit_for, set_up_quota, start_worker, start_selected,
  schedule_task, schedule_pass, has_schedulable_chunk, select_next_chunk,
}
use cget.Scheduler.Limits.Counting.{count_workers-append, All-set, All-get_elem?}
use cget.Scheduler.Limits.Invariant.{Inv, limit_for_same}

same_activity : (p q : TaskQuota) → q.running_chunks ≡ p.running_chunks → is_active q ≡ is_active p
same_activity p q e = rw e

room_left : (b : Bool) (m r : ℕ) → (not b || leb m r) ≡ false → r < m
room_left b m r h = ground arith

idle_left : (r m a : ℕ) → (r == 0 && leb m a) ≡ false → r ≡ 0 → a < m
idle_left r m a h e = ground arith

module _ (c : SchedulerConfig) (limit : Text → ℕ) where
  -- a quota that is set up keeps its count, and has the task's limit
  set_up-facts :
      (s : SchedulerState) (t : DownloadTask)
      → Inv c limit s
      → limit_for c t ≡ limit t.id
      → let q = set_up_quota c t (quota_of t.id s.quotas) in
        (q.running_chunks ≡ (quota_of t.id s.quotas).running_chunks)
        × (q.max_concurrent_chunks ≡ limit t.id)
  unfolding set_up_quota
  set_up-facts s t v e = ground (arith, v.quota_set t.id)

  put_running :
      (s : SchedulerState) (id : Text) (q : TaskQuota)
      → Inv c limit s
      → q.running_chunks ≡ (quota_of id s.quotas).running_chunks
      → q.max_concurrent_chunks ≡ limit id
      → Inv c limit (record s { quotas = put_quota id q s.quotas })
  put_running s id q v run lim = record {
    busy = v.busy;
    busy_cap = v.busy_cap;
    active =
        omega
          (arith, active_count-put_quota id q s.quotas, same_activity (quota_of id s.quotas) q run);
    active_cap = v.active_cap;
    counted = λ j. rw quota_of-put_quota (ground (arith, text_eq_iff id j, v.counted j));
    quota_cap = λ j. rw quota_of-put_quota (ground (arith, text_eq_iff id j, v.quota_cap j));
    quota_set = λ j. rw quota_of-put_quota (ground (arith, text_eq_iff id j, v.quota_set j));
    agreed = v.agreed;
  }

  start_worker-Inv :
      (s : SchedulerState) (ti : ℕ) (t : DownloadTask) (q : TaskQuota) (ci : ℕ) (chunk : Chunk)
      → Inv c limit s
      → quota_of t.id s.quotas ≡ q
      → q.running_chunks < limit t.id
      → q.max_concurrent_chunks ≡ limit t.id
      → s.busy_workers < c.max_global_workers
      → (q.running_chunks ≡ 0 → s.active_tasks < c.max_concurrent_tasks)
      → limit_for c t ≡ limit t.id
      → Inv c limit (start_worker s ti t q ci chunk)
  unfolding start_worker
  start_worker-Inv s ti t q ci chunk v e room lim free idle agree =
      let q' = record q { running_chunks = q.running_chunks + 1 } in
      let w : Worker = record { task_id = t.id; chunk_vector_index = ci } in
      record {
        busy = ground (arith, length-append s.workers (w ∷ []), v.busy);
        busy_cap = omega arith;
        active = ground (arith, active_count-put_quota t.id q' s.quotas, e);
        active_cap = ground (arith, v.active_cap);
        counted = λ j.
            rw (quota_of-put_quota, count_workers-append)
              (ground (arith, text_eq_iff t.id j, v.counted j, e));
        quota_cap = λ j. rw quota_of-put_quota (ground (arith, text_eq_iff t.id j, v.quota_cap j));
        quota_set = λ j. rw quota_of-put_quota (ground (arith, text_eq_iff t.id j, v.quota_set j));
        agreed =
            All-set (λ t. limit_for c t ≡ limit t.id) s.tasks ti _ v.agreed
              (limit_for_same c _ t refl ∙ agree);
      }

  start_selected-Inv :
      (s : SchedulerState) (ti : ℕ) (t : DownloadTask) (q : TaskQuota) (o : Option ℕ)
      → Inv c limit s
      → quota_of t.id s.quotas ≡ q
      → q.running_chunks < limit t.id
      → q.max_concurrent_chunks ≡ limit t.id
      → s.busy_workers < c.max_global_workers
      → (q.running_chunks ≡ 0 → s.active_tasks < c.max_concurrent_tasks)
      → limit_for c t ≡ limit t.id
      → Inv c limit (start_selected s ti t q o).0
  unfolding start_selected
  start_selected-Inv s ti t q none v e room lim free idle agree = v
  start_selected-Inv s ti t q (some ci) v e room lim free idle agree =
      elim (Option-cases (get_elem? t.chunks ci)) [
        | inl gone ↦ rw (gone, start_selected) v
        | inr (chunk, there) ↦
            rw (there, start_selected)
              (start_worker-Inv s ti t q ci chunk v e room lim free idle agree)
      ]

  schedule_task-Inv :
      (s : SchedulerState) (ti : ℕ) (t : DownloadTask)
      → Inv c limit s
      → s.busy_workers < c.max_global_workers
      → limit_for c t ≡ limit t.id
      → Inv c limit (schedule_task c s ti t).0
  unfolding schedule_task
  schedule_task-Inv s ti t v free agree =
      let q = set_up_quota c t (quota_of t.id s.quotas) in
      let facts = set_up-facts s t v agree in
      let s' = record s { quotas = put_quota t.id q s.quotas } in
      let v' = put_running s t.id q v facts.0 facts.1 in
      elim (Bool-cases
        (not (has_schedulable_chunk t) || leb q.max_concurrent_chunks q.running_chunks)) [
          | inl skip ↦ rw skip v'
          | inr wanted ↦
              rw wanted
                (elim (Bool-cases
                  (q.running_chunks == 0 && leb c.max_concurrent_tasks s.active_tasks)) [
                    | inl full ↦ rw full v'
                    | inr room ↦ rw room (
                        start_selected-Inv s' ti t q (select_next_chunk t) v'
                          (quota_of-put_quota_self t.id q s.quotas)
                          (rw (← facts.1) (room_left (has_schedulable_chunk t) _ _ wanted)) facts.1
                          free (idle_left _ _ _ room) agree)
                  ])
        ]

  pub schedule_pass-Inv :
      (order : List ℕ) (s : SchedulerState) (scheduled : Bool)
      → Inv c limit s
      → Inv c limit (schedule_pass c order s scheduled).0
  unfolding schedule_pass
  schedule_pass-Inv [] s scheduled v = v
  schedule_pass-Inv (ti ∷ order) s scheduled v =
      elim (Bool-cases (leb c.max_global_workers s.busy_workers)) [
        | inl full ↦ rw (full, schedule_pass) v
        | inr free ↦ elim (Option-cases (get_elem? s.tasks ti)) [
          | inl gone ↦ rw (free, gone, schedule_pass) (schedule_pass-Inv order s scheduled v)
          | inr (t, there) ↦
              rw (free, there, schedule_pass)
                (schedule_pass-Inv order _ _ (
                  schedule_task-Inv s ti t v (ground arith)
                    (All-get_elem? (λ t. limit_for c t ≡ limit t.id) s.tasks ti t v.agreed there)))
        ]
      ]
