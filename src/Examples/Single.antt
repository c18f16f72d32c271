-- ===== src/Examples/Single.antt =====
-- The theorems on a download in one piece at a concrete input.
use cget.Persistence.Store.{write_then_commit}
use cget.Engine.Single.Range.{fall_back}
use cget.Engine.Single.Range.{is_range_error}
use cget.Core.Errors.{CgetError, ErrorCode}
use cget.Engine.Single.Range.{settle_range, settle_range-Delivered}
use cget.Engine.Single.{failure_status}
use cget.Engine.Session.{recompute_downloaded}
use cget.Engine.Metadata.{remember_metadata}
use cget.Engine.Metadata.{or_keep}
use cget.Engine.Metadata.{normalized_thread_count}
use cget.Core.ChunkPlanner.{planned_end}
use cget.Core.ChunkPlanner.{planned_chunk}
use cget.Core.ChunkPlanner.{plan_threads}
use cget.Core.ChunkPlanner.{plan_from}
use cget.Core.ChunkPlanner.{plan}
use cget.Config.Normalize.{clamp}
use cget.Engine.Single.{plan_task}
use cget.Engine.Metadata.{differ}
use cget.Engine.Metadata.{metadata_changed}
use cget.Engine.Single.{prepare_begun}
use cget.Engine.Single.{begin_task}
use cget.Engine.Single.{catch_job}
use cget.Config.Defs.{default_config}
use cget.Core.Errors.{ok}
use cget.Prelude.{arith, length}
use cget.Engine.Single.{prepare_task}
use cget.Engine.Single.Prepare.{IsPlanned, prepare_task-IsPlanned}
use cget.Prelude.Decimal.{to_string}
use cget.Prelude.Decimal.{digits}
use cget.Persistence.Store.{copy_to_backup}
use cget.Persistence.Store.{commit_save}
use cget.Persistence.Store.{back_up}
use cget.Network.Http.{throw_for_http_status}
use cget.Network.Http.{throw_for_curl}
use cget.Filesystem.Paths.{part_path}
use cget.Filesystem.Paths.{is_path_traversal}
use cget.Filesystem.Paths.{components}
use cget.Filesystem.Merge.{read_part}
use cget.Filesystem.Merge.{merge_chunks}
use cget.Filesystem.Merge.{finish_merge}
use cget.Filesystem.Merge.{commit_merge}
use cget.Filesystem.Merge.{append_parts}
use cget.Filesystem.Disk.{truncate_content}
use cget.Filesystem.Disk.{resize}
use cget.Filesystem.Disk.{remove_file}
use cget.Filesystem.Disk.{file_size}
use cget.Engine.Single.{settle_single}
use cget.Engine.Single.{settle_chunks}
use cget.Engine.Single.{finish_single}
use cget.Engine.Single.{deliver_single}
use cget.Engine.Single.{count_first}
use cget.Engine.Retry.{append_file}
use cget.Engine.Finish.{verify_then_complete}
use cget.Engine.Finish.{set_failure}
use cget.Engine.Finish.{complete_job}
use cget.Engine.Finish.{checksum_of}
use cget.Engine.Finish.{after_merge}
use cget.Crypto.Hex.{lowercase_hex}
use cget.Network.Http.{perform}
use cget.Network.Http.{single_result}
use cget.Network.Http.{download_single}
use cget.Engine.Single.{stream_single}
use cget.Filesystem.Paths.{is_absolute}
use cget.Filesystem.Paths.{join_path}
use cget.Persistence.Store.{task_file}
use cget.Filesystem.Disk.{put_file}
use cget.Filesystem.Disk.{file_exists}
use cget.Persistence.Store.{backup_then_commit}
use cget.Engine.Single.{reset_single}
use cget.Persistence.Store.{save_text}
use cget.Persistence.Store.{save_task}
use cget.Engine.Finish.{save_job}
use cget.Filesystem.Disk.{truncate_file}
use cget.Prelude.{refl, ◌≡◌, true, false, [], ◌∷◌, some, none, str, text_eq}
use cget.Core.Types.{TaskStatus, RemoteFileInfo}
use cget.Network.Http.{Transfer, curl_ok}
use cget.Engine.Finish.{Job}
use cget.Engine.Finish.Verdict.{Delivered}
use cget.Engine.Single.{download_single_stream}
use cget.Engine.Single.Delivery.{download_single_stream-Delivered}
use cget.Examples.Data.{one_task, empty_disk}
use cget.Examples.Finish.{context, hash}

abbrev info : RemoteFileInfo
info = record {
  file_size = 4;
  supports_range = false;
  etag = none;
  last_modified = none;
  final_url = [];
}

-- The server sends the four bytes in two blocks.
abbrev two_blocks : Transfer
two_blocks = record {
  header_status = 200;
  blocks =
      record { bytes = 10 ∷ 11 ∷ []; flush = false }
      ∷ record { bytes = 12 ∷ 13 ∷ []; flush = true }
      ∷ [];
  result = curl_ok;
  response_code = 200;
}

abbrev job : Job
job = record {
  task = record (one_task TaskStatus.downloading 0 []) { expected_sha256 = some (b'E' ∷ []) };
  disk = empty_disk;
  store = empty_disk;
}

completes :
    (download_single_stream context hash info two_blocks job).0.task.status ≡ TaskStatus.completed
unfolding download_single_stream truncate_file save_job save_task save_text reset_single
    backup_then_commit file_exists put_file task_file join_path is_absolute stream_single
    download_single single_result perform lowercase_hex after_merge checksum_of complete_job
    set_failure verify_then_complete append_file count_first deliver_single finish_single
    settle_chunks settle_single file_size remove_file resize truncate_content append_parts
    commit_merge finish_merge merge_chunks read_part components is_path_traversal part_path
    throw_for_curl throw_for_http_status back_up commit_save copy_to_backup digits to_string text_eq
    str write_then_commit
completes = refl

download_single_stream-Delivered_example :
    Delivered hash (download_single_stream context hash info two_blocks job).0
download_single_stream-Delivered_example =
    download_single_stream-Delivered context hash info two_blocks job (λ e. absurd cc) completes

abbrev ranged_info : RemoteFileInfo
ranged_info = record {
  file_size = 10;
  supports_range = true;
  etag = none;
  last_modified = none;
  final_url = [];
}

prepare_task-IsPlanned_example :
    IsPlanned (prepare_task context default_config 8 (ok ranged_info) job).0.task
prepare_task-IsPlanned_example =
    prepare_task-IsPlanned context default_config 8 ranged_info job refl (omega arith) (omega arith)

-- Eight chunks are planned for the ten bytes.
eight_chunks : length (prepare_task context default_config 8 (ok ranged_info) job).0.task.chunks ≡ 8
unfolding prepare_task catch_job begin_task prepare_begun metadata_changed differ plan_task clamp
    plan plan_from plan_threads planned_chunk planned_end normalized_thread_count or_keep
    remember_metadata recompute_downloaded failure_status save_job save_task save_text
    backup_then_commit file_exists put_file text_eq task_file join_path is_absolute str
    default_config copy_to_backup remove_file write_then_commit
eight_chunks = refl

-- A server that ignores the range: the task falls back to a download in one piece.
abbrev range_error : CgetError
range_error = record { code = ErrorCode.range_not_supported_error; message = [] }

falls_back :
    (settle_range context hash info two_blocks (range_error ∷ []) job).0.task.status
    ≡ TaskStatus.completed
unfolding settle_range download_single_stream truncate_file save_job save_task save_text
    reset_single backup_then_commit file_exists put_file task_file join_path is_absolute
    stream_single download_single single_result perform lowercase_hex after_merge checksum_of
    complete_job set_failure verify_then_complete append_file count_first deliver_single
    finish_single settle_chunks settle_single file_size remove_file resize truncate_content
    append_parts commit_merge finish_merge merge_chunks read_part components is_path_traversal
    part_path throw_for_curl throw_for_http_status back_up commit_save copy_to_backup digits
    to_string text_eq str is_range_error fall_back write_then_commit
falls_back = refl

settle_range-Delivered_example :
    Delivered hash (settle_range context hash info two_blocks (range_error ∷ []) job).0
settle_range-Delivered_example =
    settle_range-Delivered context hash info two_blocks (range_error ∷ []) job (λ e. absurd cc)
      falls_back
