-- ===== src/Engine/Metadata.antt =====
-- `metadataChanged`, `rememberMetadata`, `normalizedThreadCount` and `globalRateLimitFromConfig` of
-- src/engine/download_engine.cpp.
use cget.Prelude.{
  ℕ, ◌≡◌, refl, ◌≤◌, arith, Bool, false, ◌&&◌, ◌||◌, not, Option, none, some, [], Text, text_eq,
  text_eq_refl, ◌==◌, if◌then◌else◌,
}
use cget.Core.Types.{DownloadTask, RemoteFileInfo}
use cget.Config.Defs.{Config}
use cget.Config.Normalize.{clamp}

-- Two optional texts that are both there and differ.
unfoldable pub differ : Option Text → Option Text → Bool
differ (some a) (some b) = not (text_eq a b)
differ (some a) none = false
differ none b = false

unfoldable pub metadata_changed : DownloadTask → RemoteFileInfo → Bool
metadata_changed task info =
    not (task.file_size == 0) && not (info.file_size == 0) && not (task.file_size == info.file_size)
    || differ task.remote_etag info.etag
    || differ task.remote_last_modified info.last_modified

-- The new value when there is one.
unfoldable pub or_keep : Option Text → Option Text → Option Text
or_keep (some new) old = some new
or_keep none old = old

unfoldable pub remember_metadata : DownloadTask → RemoteFileInfo → DownloadTask
remember_metadata task info = record task {
  file_size = if info.file_size == 0 then task.file_size else info.file_size;
  remote_etag = or_keep info.etag task.remote_etag;
  remote_last_modified = or_keep info.last_modified task.remote_last_modified;
  final_url = if text_eq info.final_url [] then task.final_url else some info.final_url;
}

unfoldable pub normalized_thread_count : Config → DownloadTask → ℕ
normalized_thread_count config task =
    if task.requested_threads == 0
    then clamp 1 32 config.download.max_threads
    else clamp 1 32 task.requested_threads

unfoldable pub global_rate_limit_from_config : Config → Option ℕ
global_rate_limit_from_config config = elim config.rate_limit.global_bytes_per_sec [
  | some limit ↦ some limit
  | none ↦
      if config.download.max_download_rate_bytes_per_sec == 0
      then none
      else some config.download.max_download_rate_bytes_per_sec
]

differ-or_keep : (new old : Option Text) → differ (or_keep new old) new ≡ false
unfolding differ or_keep
differ-or_keep (some a) old = rw (text_eq_refl a) refl
differ-or_keep none (some b) = refl
differ-or_keep none none = refl

-- Whatever the task, once the metadata of the remote file are remembered, the same metadata no longer
-- count as changed, so a resumed download of an unchanged file goes on.
pub remember_metadata-unchanged :
    (task : DownloadTask) (info : RemoteFileInfo)
    → metadata_changed (remember_metadata task info) info ≡ false
unfolding metadata_changed remember_metadata
remember_metadata-unchanged task info =
    rw
      (
        differ-or_keep info.etag task.remote_etag,
        differ-or_keep info.last_modified task.remote_last_modified,
      )
      (ground arith)

-- The number of threads is from 1 to 32.
pub normalized_thread_count_bounds :
    (config : Config) (task : DownloadTask)
    → (1 ≤ normalized_thread_count config task) × (normalized_thread_count config task ≤ 32)
unfolding normalized_thread_count clamp
normalized_thread_count_bounds config task = ground arith
