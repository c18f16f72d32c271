-- ===== src/Persistence/Codec/Layout.antt =====
-- The members of a stored task and of a stored chunk, in the order of their keys.
use cget.Prelude.{str}
use cget.Core.Types.{DownloadTask, Chunk}
use cget.Core.Types.Names.{task_status_to_string, chunk_status_to_string}
use cget.Json.Syntax.{Members, number, string, array, no_members, member, Numbers, put}
use cget.Persistence.Codec.{Clock, format_timestamp}
use cget.Prelude.{◌≡◌, refl, text_eq}
use cget.Json.Syntax.{text_less}
use cget.Persistence.Codec.Encode.{
  whole_json, text_or_null, whole_or_null, time_or_null, chunk_to_json, chunks_to_json,
  task_members,
}

abbrev pub chunk_layout : Numbers → Chunk → Members
chunk_layout n c =
    (member (str "downloaded") (whole_json n c.downloaded) (
      member (str "end") (whole_json n c.end) (
        member (str "index") (whole_json n c.index) (
          member (str "retry_count") (whole_json n c.retry_count) (
            member (str "start") (whole_json n c.start) (
              member (str "status") (string (chunk_status_to_string c.status))
                (member (str "temp_path") (string c.temp_path) no_members)))))))

abbrev pub task_layout : Numbers → Clock → DownloadTask → Members
task_layout n clock t =
    (member (str "chunks") (array (chunks_to_json n t.chunks)) (
      member (str "created_at") (string (format_timestamp clock t.created_at)) (
        member (str "downloaded") (whole_json n t.downloaded) (
          member (str "expected_sha256") (text_or_null t.expected_sha256) (
            member (str "failed_chunk_count") (whole_json n t.failed_chunks) (
              member (str "file_name") (string t.file_name) (
                member (str "file_size") (whole_json n t.file_size) (
                  member (str "final_url") (text_or_null t.final_url) (
                    member (str "id") (string t.id) (
                      member (str "last_error") (text_or_null t.last_error) (
                        member (str "peak_speed_bytes_per_sec") (number t.peak_speed_bytes_per_sec)
                          (member (str "remote_etag") (text_or_null t.remote_etag) (
                            member (str "remote_last_modified")
                              (text_or_null t.remote_last_modified)
                              (member (str "requested_threads") (whole_json n t.requested_threads) (
                                member (str "retry_count") (whole_json n t.persisted_retry_count) (
                                  member (str "scheduler_max_chunks")
                                    (whole_json n t.scheduler_max_chunks)
                                    (member (str "scheduler_priority")
                                      (whole_json n t.scheduler_priority)
                                      (member (str "started_at") (time_or_null clock t.started_at) (
                                        member (str "status")
                                          (string (task_status_to_string t.status))
                                          (member (str "target_path") (string t.target_path) (
                                            member (str "task_rate_limit_bytes_per_sec")
                                              (whole_or_null n t.task_rate_limit_bytes_per_sec)
                                              (member (str "temp_dir") (string t.temp_dir) (
                                                member (str "updated_at")
                                                  (string (format_timestamp clock t.updated_at))
                                                  (member (str "url") (string t.url)
                                                    no_members))))))))))))))))))))))))

pub chunk_to_json-layout : (n : Numbers) (c : Chunk) → chunk_to_json n c ≡ chunk_layout n c
unfolding chunk_to_json put text_less text_eq str
chunk_to_json-layout n c = refl

pub task_members-layout :
    (n : Numbers) (clock : Clock) (t : DownloadTask)
    → task_members n clock t ≡ task_layout n clock t
unfolding task_members put text_less text_eq str
task_members-layout n clock t = refl
