-- ===== src/Persistence/Codec/Encode.antt =====
-- `chunkToJson` and `taskToJson` of src/persistence/persistence_store.cpp.
use cget.Prelude.{ℕ, Option, none, some, List, [], ◌∷◌, Text, str}
use cget.Core.Types.{DownloadTask, Chunk}
use cget.Core.Types.Names.{task_status_to_string, chunk_status_to_string}
use cget.Json.Syntax.{
  Value, Items, Members, null, number, string, array, object, no_items, item, no_members, Numbers,
  put,
}
use cget.Json.Printer.{stringify}
use cget.Persistence.Codec.{Clock, format_timestamp}

abbrev pub text_or_null : Option Text → Value
text_or_null none = null
text_or_null (some text) = string text

module _ (n : Numbers) where
  -- `json::Value(std::uint64_t)`.
  abbrev pub whole_json : ℕ → Value
  whole_json x = number (n.of_u64 x)

  abbrev pub whole_or_null : Option ℕ → Value
  whole_or_null none = null
  whole_or_null (some x) = whole_json x

  -- `chunkToJson`.
  unfoldable pub chunk_to_json : Chunk → Members
  chunk_to_json c =
      let with_index = put (str "index") (whole_json c.index) no_members in
      let with_start = put (str "start") (whole_json c.start) with_index in
      let with_end = put (str "end") (whole_json c.end) with_start in
      let with_downloaded = put (str "downloaded") (whole_json c.downloaded) with_end in
      let with_status =
        put (str "status") (string (chunk_status_to_string c.status)) with_downloaded in
      let with_retries = put (str "retry_count") (whole_json c.retry_count) with_status in
      put (str "temp_path") (string c.temp_path) with_retries

  -- The array of the chunks.
  unfoldable pub chunks_to_json : List Chunk → Items
  chunks_to_json [] = no_items
  chunks_to_json (c ∷ cs) = item (object (chunk_to_json c)) (chunks_to_json cs)

abbrev pub time_or_null : Clock → Option ℕ → Value
time_or_null clock none = null
time_or_null clock (some time) = string (format_timestamp clock time)

module _ (n : Numbers) (clock : Clock) where
  -- The assignments to `root`, in three parts.
  unfoldable pub put_origin : DownloadTask → Members
  put_origin t =
      let with_id = put (str "id") (string t.id) no_members in
      let with_url = put (str "url") (string t.url) with_id in
      let with_name = put (str "file_name") (string t.file_name) with_url in
      let with_target = put (str "target_path") (string t.target_path) with_name in
      let with_dir = put (str "temp_dir") (string t.temp_dir) with_target in
      let with_status = put (str "status") (string (task_status_to_string t.status)) with_dir in
      let with_size = put (str "file_size") (whole_json n t.file_size) with_status in
      let with_downloaded = put (str "downloaded") (whole_json n t.downloaded) with_size in
      let with_created =
        put (str "created_at") (string (format_timestamp clock t.created_at)) with_downloaded in
      put (str "updated_at") (string (format_timestamp clock t.updated_at)) with_created

  unfoldable pub put_remote : DownloadTask → Members → Members
  put_remote t root =
      let with_started = put (str "started_at") (time_or_null clock t.started_at) root in
      let with_threads =
        put (str "requested_threads") (whole_json n t.requested_threads) with_started in
      let with_error = put (str "last_error") (text_or_null t.last_error) with_threads in
      let with_sum = put (str "expected_sha256") (text_or_null t.expected_sha256) with_error in
      let with_etag = put (str "remote_etag") (text_or_null t.remote_etag) with_sum in
      let with_modified =
        put (str "remote_last_modified") (text_or_null t.remote_last_modified) with_etag in
      let with_url = put (str "final_url") (text_or_null t.final_url) with_modified in
      put (str "task_rate_limit_bytes_per_sec") (whole_or_null n t.task_rate_limit_bytes_per_sec)
        with_url

  unfoldable pub put_scheduling : DownloadTask → Members → Members
  put_scheduling t root =
      let with_max = put (str "scheduler_max_chunks") (whole_json n t.scheduler_max_chunks) root in
      let with_priority =
        put (str "scheduler_priority") (whole_json n t.scheduler_priority) with_max in
      let with_peak =
        put (str "peak_speed_bytes_per_sec") (number t.peak_speed_bytes_per_sec) with_priority in
      let with_failed = put (str "failed_chunk_count") (whole_json n t.failed_chunks) with_peak in
      let with_retries =
        put (str "retry_count") (whole_json n t.persisted_retry_count) with_failed in
      put (str "chunks") (array (chunks_to_json n t.chunks)) with_retries

  unfoldable pub task_members : DownloadTask → Members
  unfolding put_origin put_remote put_scheduling
  task_members t = put_scheduling t (put_remote t (put_origin t))

  -- `taskToJson`.
  unfoldable pub task_to_json : DownloadTask → Text
  unfolding task_members
  task_to_json t = stringify n 2 (object (task_members t))
