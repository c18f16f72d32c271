-- ===== src/Scheduler/Limits/Invariant.antt =====
-- What holds between two critical sections of a run.
use cget.Prelude.{ℕ, ◌≤◌, ◌≡◌, false, [], Text, text_eq, length, All}
use cget.Core.Types.{DownloadTask}
use cget.Scheduler.Quotas.{quota_of, active_count}
use cget.Scheduler.Defs.{SchedulerConfig, SchedulerState, limit_for}
use cget.Scheduler.Limits.Counting.{count_workers}

-- `limit` gives each task's own limit by its id.
pub record Inv (c : SchedulerConfig) (limit : Text → ℕ) (s : SchedulerState) : Type 0 where
  pub busy : s.busy_workers ≡ length s.workers
  pub busy_cap : s.busy_workers ≤ c.max_global_workers
  pub active : s.active_tasks ≡ active_count s.quotas
  pub active_cap : s.active_tasks ≤ c.max_concurrent_tasks
  pub counted : (id : Text) → (quota_of id s.quotas).running_chunks ≡ count_workers id s.workers
  pub quota_cap : (id : Text) → (quota_of id s.quotas).running_chunks ≤ limit id
  pub quota_set :
      (id : Text)
      → text_eq (quota_of id s.quotas).task_id [] ≡ false
      → (quota_of id s.quotas).max_concurrent_chunks ≡ limit id
  pub agreed : All (λ t. limit_for c t ≡ limit t.id) s.tasks

module _ (c : SchedulerConfig) where
  pub limit_for_same :
      (t' t : DownloadTask)
      → t'.scheduler_max_chunks ≡ t.scheduler_max_chunks
      → limit_for c t' ≡ limit_for c t
  unfolding limit_for
  limit_for_same t' t e = rw e
