-- ===== src/Engine/Single/Range.antt =====
-- `downloadWithRange` of src/engine/download_engine.cpp without its threads: which chunks get a worker,
-- and what is done when all workers have been joined, by the errors that they left.
use cget.Prelude.{
  ◌≡◌, ◌≢◌, sym, ◌∙◌, inl, inr, Bool, true, false, ◌||◌, some, List, [], ◌∷◌, Text, str, leb,
  if◌then◌else◌, Bool-cases, all_of, any_of, map,
}
use cget.Core.Types.{TaskStatus, ChunkStatus, Chunk, RemoteFileInfo, chunk_size}
use cget.Core.Types.Names.{chunk_status_eq}
use cget.Core.Errors.{CgetError, ErrorCode}
use cget.Filesystem.Disk.{Content}
use cget.Filesystem.Merge.{merge_chunks}
use cget.Network.Http.{Transfer}
use cget.Engine.Session.{Context}
use cget.Engine.Finish.{Job, JobOutcome, save_job, set_failure, is_complete_chunk, after_merge}
use cget.Engine.Finish.Verdict.{
  Delivered, merge_chunks_size, after_merge-Delivered, not_completed, set_failure_status,
}
use cget.Engine.Single.{then_job, failure_status, download_single_stream}
use cget.Engine.Single.Delivery.{
  IsOpen, IsHonest, then_job-IsHonest, save_job-IsOpen, download_single_stream-Delivered,
}

-- The chunk is done already: no worker is started for it.
unfoldable pub is_downloaded : Chunk → Bool
is_downloaded c = chunk_status_eq c.status ChunkStatus.completed || leb (chunk_size c) c.downloaded

-- The loop that starts the workers, by what it does to the chunks that get none.
unfoldable pub skip_downloaded : List Chunk → List Chunk
skip_downloaded chunks =
    map (λ c. if is_downloaded c then record c { status = ChunkStatus.completed } else c) chunks

abbrev is_range_code : ErrorCode → Bool
is_range_code ErrorCode.range_not_supported_error = true
is_range_code _ = false

unfoldable pub is_range_error : CgetError → Bool
is_range_error e = is_range_code e.code

-- The task gives up its chunks for a download in one piece.
unfoldable pub fall_back : Job → Job
fall_back j = record j {
  task = record j.task {
    chunks = [];
    downloaded = 0;
    last_error = some (str "server ignored Range request; falling back to single-stream download");
  };
}

module _ (ctx : Context) (sha256 : Content → Text) where
  -- No worker left an error.
  unfoldable pub merge_range : Job → JobOutcome
  merge_range j =
      if all_of is_complete_chunk j.task.chunks
      then after_merge ctx sha256 j
          (merge_chunks j.disk j.task.chunks j.task.temp_dir j.task.target_path j.task.file_size)
      else set_failure ctx TaskStatus.failed (str "not all chunks completed") j

  -- What follows `worker.join()`; `transfer` is that of the fallback.
  unfoldable pub settle_range : RemoteFileInfo → Transfer → List CgetError → Job → JobOutcome
  settle_range info transfer [] j = merge_range j
  settle_range info transfer (e ∷ es) j =
      if any_of is_range_error (e ∷ es)
      then then_job (save_job ctx (fall_back j)) (download_single_stream ctx sha256 info transfer)
      else set_failure ctx (failure_status e.code) e.message j

  merge_range-IsHonest : (j : Job) → IsOpen j → IsHonest sha256 (merge_range j)
  unfolding merge_range
  merge_range-IsHonest j h done = elim (Bool-cases (all_of is_complete_chunk j.task.chunks)) [
    | inl all ↦
        rw (merge_range, all)
          (after_merge-Delivered ctx sha256 j _
            (merge_chunks_size j.disk j.task.chunks j.task.temp_dir j.task.target_path
              j.task.file_size)
            h (rw (merge_range, all) at done))
    | inr some_left ↦ absurd (
        let failed = rw (merge_range, some_left) at done in
        not_completed (sym (set_failure_status ctx sha256 TaskStatus.failed _ j) ∙ failed))
  ]

  failure_not_completed : (c : ErrorCode) → failure_status c ≢ TaskStatus.completed
  unfolding failure_status
  failure_not_completed ErrorCode.metadata_mismatch_error e = cc
  failure_not_completed ErrorCode.network_error e = cc
  failure_not_completed _ e = cc

  -- However the workers ended, a task that was not Completed before is Completed only when the target holds
  -- a file of its size, and of its checksum if one is expected.
  pub settle_range-Delivered :
      (info : RemoteFileInfo) (transfer : Transfer) (errors : List CgetError) (j : Job)
      → j.task.status ≢ TaskStatus.completed
      → (settle_range info transfer errors j).0.task.status ≡ TaskStatus.completed
      → Delivered sha256 (settle_range info transfer errors j).0
  unfolding settle_range fall_back
  settle_range-Delivered info transfer [] j h done = merge_range-IsHonest j h done
  settle_range-Delivered info transfer (e ∷ es) j h done =
      elim (Bool-cases (any_of is_range_error (e ∷ es))) [
        | inl ranged ↦
            rw (settle_range, ranged)
              (then_job-IsHonest sha256 (save_job ctx (fall_back j))
                (download_single_stream ctx sha256 info transfer)
                (save_job-IsOpen ctx (fall_back j) h)
                (λ k open_. download_single_stream-Delivered ctx sha256 info transfer k open_)
                (rw (settle_range, ranged) at done))
        | inr other ↦ absurd (
            let failed = rw (settle_range, other) at done in
            failure_not_completed e.code
              (sym (set_failure_status ctx sha256 (failure_status e.code) _ j) ∙ failed))
      ]
