-- ===== src/Persistence/Codec/Reads.antt =====
-- What the functions of `taskFromJson` read in the members of a stored task.
use cget.Prelude.{ℕ, ◌<◌, ◌≡◌, refl, true, Option, none, some, Text, str, text_eq, All}
use cget.Core.Types.{DownloadTask, new_task}
use cget.Core.Errors.{ok}
use cget.Json.Syntax.{
  Value, object, Numbers, at, contains_key, is_null, find, as_string, as_number, as_array,
  text_less,
}
use cget.Json.Texts.{IsReadable}
use cget.Json.Maps.{IsOrdered, are_ordered-IsOrdered}
use cget.Persistence.Codec.{Clock}
use cget.Persistence.Codec.Encode.{text_or_null, whole_or_null, time_or_null}
use cget.Persistence.Codec.Decode.{
  text_at, whole_at, word_at, number_at, optional_at, default_at, read_origin, time_at, read_remote,
  read_scheduling, read_chunks,
}
use cget.Persistence.Codec.Layout.{task_layout}
use cget.Persistence.Codec.Fields.{
  IsExact, NumberLaws, ClockLaws, IsWholeSecond, as_uint64-whole, as_uint32-whole,
  parse_timestamp-format_timestamp, read_status-task,
}
use cget.Persistence.Codec.Chunks.{IsStorableChunk, chunks_from_json-chunks_to_json}

-- A task whose numbers a `double` or a `std::uint32_t` holds, with times of whole seconds.
pub record IsStorableTask (n : Numbers) (clock : Clock) (t : DownloadTask) : Type 0 where
  pub size : IsExact t.file_size
  pub downloaded : IsExact t.downloaded
  pub created : IsWholeSecond clock t.created_at
  pub updated : IsWholeSecond clock t.updated_at
  pub started : (time : ℕ) → t.started_at ≡ some time → IsWholeSecond clock time
  pub limited : (x : ℕ) → t.task_rate_limit_bytes_per_sec ≡ some x → IsExact x
  pub max_chunks : t.scheduler_max_chunks < 4294967296
  pub priority : t.scheduler_priority < 4294967296
  pub peak : IsReadable n t.peak_speed_bytes_per_sec
  pub failed : t.failed_chunks < 4294967296
  pub retries : t.persisted_retry_count < 4294967296
  pub threads : t.requested_threads < 4294967296
  pub stored : All IsStorableChunk t.chunks

pub task_layout-IsOrdered :
    (n : Numbers) (clock : Clock) (t : DownloadTask) → IsOrdered (task_layout n clock t)
unfolding text_less str
task_layout-IsOrdered n clock t = are_ordered-IsOrdered (task_layout n clock t) refl

pub read_origin-layout :
    (n : Numbers) (clock : Clock)
    → NumberLaws n
    → ClockLaws clock
    → (t : DownloadTask) → IsStorableTask n clock t
    → read_origin n clock (object (task_layout n clock t))
      ≡ ok (record (new_task clock.now) {
        id = t.id;
        url = t.url;
        file_name = t.file_name;
        target_path = t.target_path;
        temp_dir = t.temp_dir;
        status = t.status;
        file_size = t.file_size;
        downloaded = t.downloaded;
        created_at = t.created_at;
        updated_at = t.updated_at;
      })
unfolding read_origin whole_at text_at at find text_eq str as_string
read_origin-layout n clock laws time t h =
    rw
      (
        read_status-task t.status,
        as_uint64-whole n laws t.file_size h.size,
        as_uint64-whole n laws t.downloaded h.downloaded,
        parse_timestamp-format_timestamp clock time t.created_at h.created,
        parse_timestamp-format_timestamp clock time t.updated_at h.updated,
      )
      refl

pub read_chunks-layout :
    (n : Numbers) (clock : Clock)
    → NumberLaws n
    → (t task : DownloadTask) → All IsStorableChunk t.chunks
    → read_chunks n clock (object (task_layout n clock t)) task
      ≡ ok (record task { chunks = t.chunks })
unfolding read_chunks at find text_eq str as_array
read_chunks-layout n clock laws t task hs =
    rw (chunks_from_json-chunks_to_json n laws t.chunks hs) refl

pub read_scheduling-layout :
    (n : Numbers) (clock : Clock)
    → NumberLaws n
    → (t task : DownloadTask) → IsStorableTask n clock t
    → read_scheduling n clock (object (task_layout n clock t)) task
      ≡ ok (record task {
        scheduler_max_chunks = t.scheduler_max_chunks;
        scheduler_priority = t.scheduler_priority;
        peak_speed_bytes_per_sec = t.peak_speed_bytes_per_sec;
        failed_chunks = t.failed_chunks;
        persisted_retry_count = t.persisted_retry_count;
        requested_threads = t.requested_threads;
      })
unfolding read_scheduling default_at word_at number_at contains_key at find text_eq str as_number
read_scheduling-layout n clock laws t task h =
    rw
      (
        as_uint32-whole n laws t.scheduler_max_chunks h.max_chunks,
        as_uint32-whole n laws t.scheduler_priority h.priority,
        as_uint32-whole n laws t.failed_chunks h.failed,
        as_uint32-whole n laws t.persisted_retry_count h.retries,
        as_uint32-whole n laws t.requested_threads h.threads,
      )
      refl

optional_text :
    (root : Value) (key : Text) (o : Option Text)
    → at root key ≡ ok (text_or_null o)
    → contains_key root key ≡ true
    → optional_at text_at root key ≡ ok o
unfolding optional_at text_at as_string is_null
optional_text root key none e h = rw (optional_at, h, e) refl
optional_text root key (some text) e h = rw (optional_at, h, e) refl

optional_time :
    (n : Numbers) (clock : Clock)
    → ClockLaws clock
    → (root : Value) (key : Text) (o : Option ℕ)
    → ((time : ℕ) → o ≡ some time → IsWholeSecond clock time)
    → at root key ≡ ok (time_or_null clock o)
    → contains_key root key ≡ true
    → optional_at (time_at n clock) root key ≡ ok o
unfolding optional_at time_at text_at as_string is_null
optional_time n clock laws root key none s e h = rw (optional_at, h, e) refl
optional_time n clock laws root key (some time) s e h =
    rw (optional_at, h, e, parse_timestamp-format_timestamp clock laws time (s time refl)) refl

optional_whole :
    (n : Numbers)
    → NumberLaws n
    → (root : Value) (key : Text) (o : Option ℕ) → ((x : ℕ) → o ≡ some x → IsExact x)
    → at root key ≡ ok (whole_or_null n o)
    → contains_key root key ≡ true
    → optional_at (whole_at n) root key ≡ ok o
unfolding optional_at whole_at is_null
optional_whole n laws root key none s e h = rw (optional_at, h, e) refl
optional_whole n laws root key (some x) s e h =
    rw (optional_at, h, e, as_uint64-whole n laws x (s x refl)) refl

pub read_remote-layout :
    (n : Numbers) (clock : Clock)
    → NumberLaws n
    → ClockLaws clock
    → (t task : DownloadTask) → IsStorableTask n clock t
    → read_remote n clock (object (task_layout n clock t)) task
      ≡ ok (record task {
        started_at = t.started_at;
        last_error = t.last_error;
        expected_sha256 = t.expected_sha256;
        remote_etag = t.remote_etag;
        remote_last_modified = t.remote_last_modified;
        final_url = t.final_url;
        task_rate_limit_bytes_per_sec = t.task_rate_limit_bytes_per_sec;
      })
unfolding read_remote at contains_key find text_eq str
read_remote-layout n clock laws time t task h =
    let root = object (task_layout n clock t) in
    rw
      (
        optional_time n clock time root (str "started_at") t.started_at h.started refl refl,
        optional_text root (str "last_error") t.last_error refl refl,
        optional_text root (str "expected_sha256") t.expected_sha256 refl refl,
        optional_text root (str "remote_etag") t.remote_etag refl refl,
        optional_text root (str "remote_last_modified") t.remote_last_modified refl refl,
        optional_text root (str "final_url") t.final_url refl refl,
        optional_whole n laws root (str "task_rate_limit_bytes_per_sec")
            t.task_rate_limit_bytes_per_sec h.limited refl refl,
      )
      refl
