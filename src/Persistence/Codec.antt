-- ===== src/Persistence/Codec.antt =====
-- The timestamps of src/core/types.cpp, and the texts of tasks of
-- src/persistence/persistence_store.cpp.
pub mod Encode
pub mod Decode
pub mod Fields
pub mod Layout
pub mod Chunks
pub mod Reads
pub mod RoundTrip
pub mod Accepted
use cget.Prelude.{
  ℕ, ◌+◌, ◌*◌, ◌/◌, Bool, true, false, ◌&&◌, ◌||◌, not, Option, none, some, List, [], ◌∷◌, ◌++◌,
  Text, str, ltb, u32, if◌then◌else◌,
}
use cget.Core.Types.{DownloadTask, Chunk, TaskStatus, ChunkStatus, Double, chunk_size, new_task}
use cget.Core.Types.Names.{
  task_status_to_string, chunk_status_to_string, task_status_from_string, chunk_status_from_string,
}
use cget.Core.Errors.{Result, ok, err, ◌>>=◌, throw, ErrorCode, CgetError}
use cget.Json.Syntax.{
  Value, Items, Members, null, bool, number, string, array, object, no_items, item, no_members,
  member, Numbers, put, at, contains_key, is_null, as_string, as_uint64, as_number, as_array,
  throw_runtime,
}
use cget.Json.Parser.{parse_json}
use cget.Json.Printer.{stringify}

-- The library's clock: `now` at the time of the call, `gmtime` with `std::put_time`, and
-- `std::get_time` with `timegm`. A `time_point` has `ticks` to the second.
pub record Clock : Type 0 where
  pub ticks : ℕ
  pub now : ℕ
  pub put_time : ℕ → Text
  pub get_time : Text → Option ℕ

module _ (clock : Clock) where
  open clock use {ticks, now, put_time, get_time}

  -- `formatTimestamp`.
  unfoldable pub format_timestamp : ℕ → Text
  format_timestamp time = put_time (time / ticks)

  -- `parseTimestamp`.
  unfoldable pub parse_timestamp : Text → ℕ
  parse_timestamp text = elim (get_time text) [ none ↦ now | some seconds ↦ seconds * ticks ]
