-- ===== src/Examples/Core.antt =====
-- The theorems on the core types at concrete inputs.
use cget.Prelude.{refl, ◌≡◌, List, true, [], ◌∷◌, arith}
use cget.Core.Types.{TaskStatus}
use cget.Core.TaskState.{is_valid_transition}
use cget.Core.TaskState.Paths.{IsPath, final, visits, path-completed-downloading, removable}
use cget.Core.ChunkPlanner.{plan}
use cget.Core.ChunkPlanner.Cover.{Tiles, plan-Tiles}

path-completed-downloading_example :
    visits TaskStatus.downloading
      (TaskStatus.queued ∷ TaskStatus.downloading ∷ TaskStatus.completed ∷ [])
    ≡ true
unfolding is_valid_transition
path-completed-downloading_example =
    path-completed-downloading TaskStatus.created
      (TaskStatus.queued ∷ TaskStatus.downloading ∷ TaskStatus.completed ∷ [])
      (refl, (refl, (refl, tt))) (λ e. absurd (cc)) (λ e. absurd (cc)) refl

removable_example :
    (ts : List TaskStatus) × IsPath TaskStatus.retrying ts
    × (final TaskStatus.retrying ts ≡ TaskStatus.removed)
removable_example = removable TaskStatus.retrying

plan-Tiles_example : Tiles 0 (plan 10 3 8) 10
plan-Tiles_example = plan-Tiles 10 3 8 (omega arith)
