-- ===== src/Scheduler/Quotas.antt =====
-- The `std::unordered_map<TaskId, TaskQuota>` of `Scheduler::run`, as an association list. Reading
-- `quotas[id]` at a missing key gives the default quota; the entry that C++ inserts then is not kept,
-- since it reads the same as no entry.
use cget.Prelude.{
  ℕ, ◌+◌, ◌≡◌, refl, List, [], ◌∷◌, arith, Text, text_eq, text_eq_iff, text_eq_refl, ltb,
  if◌then◌else◌,
}

pub record TaskQuota : Type 0 where
  pub task_id : Text
  pub max_concurrent_chunks : ℕ
  pub running_chunks : ℕ
  pub queued_chunks : ℕ

abbrev pub no_quota : TaskQuota
no_quota = record { task_id = []; max_concurrent_chunks = 0; running_chunks = 0; queued_chunks = 0 }

abbrev pub Quotas : Type 0
Quotas = List (Text × TaskQuota)

unfoldable pub quota_of : Text → Quotas → TaskQuota
quota_of id [] = no_quota
quota_of id ((k, q) ∷ rest) = if text_eq k id then q else quota_of id rest

unfoldable pub put_quota : Text → TaskQuota → Quotas → Quotas
put_quota id q [] = (id, q) ∷ []
put_quota id q ((k, p) ∷ rest) =
    if text_eq k id then (k, q) ∷ rest else (k, p) ∷ put_quota id q rest

pub quota_of-put_quota :
    (id j : Text) (q : TaskQuota) (m : Quotas)
    → quota_of j (put_quota id q m) ≡ (if text_eq id j then q else quota_of j m)
unfolding quota_of put_quota
quota_of-put_quota id j q [] = refl
quota_of-put_quota id j q ((k, p) ∷ rest) =
    ground
      (arith, text_eq_iff k id, text_eq_iff k j, text_eq_iff id j, quota_of-put_quota id j q rest)

pub quota_of-put_quota_self :
    (id : Text) (q : TaskQuota) (m : Quotas) → quota_of id (put_quota id q m) ≡ q
quota_of-put_quota_self id q m = rw (quota_of-put_quota, text_eq_refl id)

abbrev pub is_active : TaskQuota → ℕ
is_active q = if ltb 0 q.running_chunks then 1 else 0

-- How many tasks have a running chunk.
unfoldable pub active_count : Quotas → ℕ
active_count [] = 0
active_count ((k, q) ∷ rest) = is_active q + active_count rest

-- A write of one quota changes the number of active tasks by that quota alone.
pub active_count-put_quota :
    (id : Text) (q : TaskQuota) (m : Quotas)
    → active_count (put_quota id q m) + is_active (quota_of id m) ≡ active_count m + is_active q
unfolding quota_of put_quota active_count
active_count-put_quota id q [] = ground arith
active_count-put_quota id q ((k, p) ∷ rest) = ground (arith, active_count-put_quota id q rest)
