-- ===== src/Persistence/Codec/Decode.antt =====
-- `taskFromJson` of src/persistence/persistence_store.cpp.
use cget.Prelude.{
  ℕ, true, false, ◌||◌, Option, none, some, List, [], ◌∷◌, ◌++◌, Text, str, ltb, u32, if◌then◌else◌,
}
use cget.Core.Types.{DownloadTask, Chunk, Double, chunk_size, new_task}
use cget.Core.Types.Names.{task_status_from_string, chunk_status_from_string}
use cget.Core.Errors.{Result, ok, err, ◌>>=◌, throw, ErrorCode}
use cget.Json.Syntax.{
  Value, Items, no_items, item, Numbers, at, contains_key, is_null, as_string, as_uint64, as_number,
  as_array, throw_runtime,
}
use cget.Json.Parser.{parse_json}
use cget.Persistence.Codec.{Clock, parse_timestamp}

-- `chunkStatusFromString` and `taskStatusFromString`, which throw on a name that is not one.
unfoldable pub read_status {ℓ} : {S : Type ℓ} → (Text → Option S) → Text → Text → Result S
read_status from_string kind text = elim (from_string text) [
  | none ↦ throw_runtime (str "unknown " ++ (kind ++ (str " status: " ++ text)))
  | some status ↦ ok status
]

unfoldable pub text_at : Value → Text → Result Text
text_at root key = do v ← at root key; as_string v

unfoldable pub number_at : Value → Text → Result Double
number_at root key = do v ← at root key; as_number v

-- `if (root.contains(key) && !root.at(key).isNull())`: the field keeps `none` otherwise.
unfoldable pub optional_at {ℓ} :
    {A : Type ℓ} → (Value → Text → Result A) → Value → Text → Result (Option A)
optional_at read_at root key = elim (contains_key root key) [
  | false ↦ ok none
  | true ↦
      at root key >>= λ v. if is_null v then ok none else (read_at root key >>= λ a. ok (some a))
]

-- `if (root.contains(key))`: the field keeps its default otherwise.
unfoldable pub default_at {ℓ} :
    {A : Type ℓ} → (Value → Text → Result A) → A → Value → Text → Result A
default_at read_at default root key = if contains_key root key then read_at root key else ok default

module _ (n : Numbers) where
  -- `asUint32`.
  unfoldable pub as_uint32 : Value → Result ℕ
  as_uint32 v = do x ← as_uint64 n v; ok (u32 x)

  unfoldable pub whole_at : Value → Text → Result ℕ
  whole_at root key = do v ← at root key; as_uint64 n v

  unfoldable pub word_at : Value → Text → Result ℕ
  word_at root key = do v ← at root key; as_uint32 v

  -- One round of the loop over the array of chunks.
  unfoldable pub chunk_from_json : Value → Result Chunk
  chunk_from_json v = do
    index ← whole_at v (str "index")
    start ← whole_at v (str "start")
    end ← whole_at v (str "end")
    downloaded ← whole_at v (str "downloaded")
    status_name ← text_at v (str "status")
    status ← read_status chunk_status_from_string (str "chunk") status_name
    retry_count ← word_at v (str "retry_count")
    temp_path ← text_at v (str "temp_path")
    let chunk : Chunk = record {
      index = index;
      start = start;
      end = end;
      downloaded = downloaded;
      status = status;
      retry_count = retry_count;
      temp_path = temp_path;
    }
    if ltb end start || ltb (chunk_size chunk) downloaded
        then throw ErrorCode.json_corrupted_error (str "invalid chunk range in task JSON")
        else ok chunk

  unfoldable pub chunks_from_json : Items → Result (List Chunk)
  chunks_from_json no_items = ok []
  chunks_from_json (item v vs) = do c ← chunk_from_json v; cs ← chunks_from_json vs; ok (c ∷ cs)

module _ (n : Numbers) (clock : Clock) where
  -- The fields that have to be there.
  unfoldable pub read_origin : Value → Result DownloadTask
  read_origin root = do
    id ← text_at root (str "id")
    url ← text_at root (str "url")
    file_name ← text_at root (str "file_name")
    target_path ← text_at root (str "target_path")
    temp_dir ← text_at root (str "temp_dir")
    status_name ← text_at root (str "status")
    status ← read_status task_status_from_string (str "task") status_name
    file_size ← whole_at n root (str "file_size")
    downloaded ← whole_at n root (str "downloaded")
    created ← text_at root (str "created_at")
    updated ← text_at root (str "updated_at")
    ok (record (new_task clock.now) {
      id = id;
      url = url;
      file_name = file_name;
      target_path = target_path;
      temp_dir = temp_dir;
      status = status;
      file_size = file_size;
      downloaded = downloaded;
      created_at = parse_timestamp clock created;
      updated_at = parse_timestamp clock updated;
    })

  unfoldable pub time_at : Value → Text → Result ℕ
  time_at root key = do text ← text_at root key; ok (parse_timestamp clock text)

  -- The fields that may be null.
  unfoldable pub read_remote : Value → DownloadTask → Result DownloadTask
  read_remote root task = do
    started_at ← optional_at time_at root (str "started_at")
    last_error ← optional_at text_at root (str "last_error")
    expected_sha256 ← optional_at text_at root (str "expected_sha256")
    remote_etag ← optional_at text_at root (str "remote_etag")
    remote_last_modified ← optional_at text_at root (str "remote_last_modified")
    final_url ← optional_at text_at root (str "final_url")
    limit ← optional_at (whole_at n) root (str "task_rate_limit_bytes_per_sec")
    ok (record task {
      started_at = started_at;
      last_error = last_error;
      expected_sha256 = expected_sha256;
      remote_etag = remote_etag;
      remote_last_modified = remote_last_modified;
      final_url = final_url;
      task_rate_limit_bytes_per_sec = limit;
    })

  -- The fields that older files do not have.
  unfoldable pub read_scheduling : Value → DownloadTask → Result DownloadTask
  read_scheduling root task = do
    max_chunks ← default_at (word_at n) task.scheduler_max_chunks root (str "scheduler_max_chunks")
    priority ← default_at (word_at n) task.scheduler_priority root (str "scheduler_priority")
    peak ← default_at number_at task.peak_speed_bytes_per_sec root (str "peak_speed_bytes_per_sec")
    failed ← default_at (word_at n) task.failed_chunks root (str "failed_chunk_count")
    retries ← default_at (word_at n) task.persisted_retry_count root (str "retry_count")
    threads ← default_at (word_at n) task.requested_threads root (str "requested_threads")
    ok (record task {
      scheduler_max_chunks = max_chunks;
      scheduler_priority = priority;
      peak_speed_bytes_per_sec = peak;
      failed_chunks = failed;
      persisted_retry_count = retries;
      requested_threads = threads;
    })

  unfoldable pub read_chunks : Value → DownloadTask → Result DownloadTask
  read_chunks root task = do
    v ← at root (str "chunks")
    items ← as_array v
    chunks ← chunks_from_json n items
    ok (record task { chunks = chunks })

  -- The body of the `try` of `taskFromJson`, after the parser.
  unfoldable pub task_from_value : Value → Result DownloadTask
  task_from_value root = do
    origin ← read_origin root
    remote ← read_remote root origin
    scheduled ← read_scheduling root remote
    read_chunks root scheduled

  -- `taskFromJson`: every exception leaves it as a `JsonCorruptedError`.
  unfoldable pub task_from_json : Text → Result DownloadTask
  task_from_json text = elim (parse_json n text >>= task_from_value) [
    | ok task ↦ ok task
    | err thrown ↦ throw ErrorCode.json_corrupted_error thrown.message
  ]
