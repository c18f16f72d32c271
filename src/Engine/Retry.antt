-- ===== src/Engine/Retry.antt =====
-- `downloadChunkWithRetry`: the attempts of one worker at one chunk. What the network does at each
-- attempt is a parameter: the transfer that the request of a range leads to. The rate limiter only
-- delays, and is left out; so is the sleep between two attempts, whose length is `retry_delay`.
pub mod Part
pub mod Resume
pub mod Whole
pub mod ErrorBody
pub mod Delay
use cget.Prelude.{
  ℕ, zero, suc, ◌+◌, ◌*◌, ◌^◌, min, Bool, true, false, ◌||◌, not, some, List, [], ◌∷◌, ◌++◌, Text,
  str, text_eq, ltb, leb, ◌==◌, if◌then◌else◌, length, u32, u64,
}
use cget.Prelude.Decimal.{to_string}
use cget.Core.Types.{Chunk, DownloadTask, TaskStatus, ChunkStatus, chunk_size}
use cget.Core.Errors.{Result, ok, err, CgetError, throw, ErrorCode}
use cget.Filesystem.Paths.{chunk_path}
use cget.Filesystem.Disk.{Content, content_of, Disk, put_file, file_size, truncate_file}
use cget.Network.Http.{Block, Transfer, download_range}
use cget.Engine.Session.{
  Session, Outcome, continue_with, whole_task, recompute_downloaded, Context, persist_task,
}

-- The progress of the chunk is set to `n` bytes.
abbrev pub set_chunk_downloaded : ℕ → Session → Session
set_chunk_downloaded n s = record s { chunk = record s.chunk { downloaded = n } }

-- The part file is measured, and cut when it is too long.
unfoldable pub measure_part : Text → Session → Outcome
measure_part path s =
    let existing = file_size s.disk path in
    if ltb (chunk_size s.chunk) existing
    then elim (truncate_file s.disk path (chunk_size s.chunk)) [
      | ok cut ↦ (set_chunk_downloaded (chunk_size s.chunk) (record s { disk = cut }), ok tt)
      | err e ↦ (s, err e)
    ]
    else (set_chunk_downloaded existing s, ok tt)

-- The chunk is complete.
unfoldable pub complete_chunk : Session → Session
complete_chunk s =
    let done = record s { chunk = record s.chunk { status = ChunkStatus.completed } } in
    record done {
      task = record s.task { downloaded = recompute_downloaded 0 (whole_task done).chunks };
    }

-- Opening in append mode makes the file when it is not there.
unfoldable pub append_file : Text → Content → Disk → Disk
append_file path bytes disk = put_file path (some (content_of (disk.files path) ++ bytes)) disk

-- The text of the range that libcurl sends.
abbrev pub range_text : ℕ → ℕ → Text
range_text start end = to_string start ++ (b'-' ∷ to_string end)

-- The two callbacks on a block: it is written, counted, and at times the task is saved.
unfoldable pub deliver_block : Context → Text → Block → Session → Outcome
deliver_block ctx path b s =
    let written = record s {
      disk = append_file path b.bytes s.disk;
      chunk = record s.chunk { downloaded = u64 (s.chunk.downloaded + length b.bytes) };
      task = record s.task { downloaded = u64 (s.task.downloaded + length b.bytes) };
    } in
    if b.flush then persist_task ctx written else (written, ok tt)

-- The worker is about to ask for the rest of the chunk.
unfoldable pub mark_downloading : Session → Session
mark_downloading s = record s {
  chunk = record s.chunk { status = ChunkStatus.downloading };
  task = record s.task { status = TaskStatus.downloading };
}

-- The errors after which there is no further attempt.
unfoldable pub gives_up : ErrorCode → Bool
gives_up ErrorCode.range_not_supported_error = true
gives_up ErrorCode.metadata_mismatch_error = true
gives_up ErrorCode.http_status_error = true
gives_up _ = false

unfoldable pub fail_chunk : ℕ → Session → Session
fail_chunk retries s = record s {
  chunk = record s.chunk { status = ChunkStatus.failed; retry_count = retries };
}

-- The handler when another attempt follows.
unfoldable pub note_retry : ℕ → Text → Session → Session
note_retry retries message s = record (fail_chunk retries s) {
  task = record s.task { status = TaskStatus.retrying; last_error = some message };
}

module _ (ctx : Context) (transfer : ℕ → Text → Text → Transfer) where
  -- After the transfer: the part file must have the size of the chunk.
  unfoldable pub check_part : Text → Session → Outcome
  check_part path s =
      if file_size s.disk path == chunk_size s.chunk
      then persist_task ctx (complete_chunk (set_chunk_downloaded (chunk_size s.chunk) s))
      else (
        s,
        throw ErrorCode.network_error
            (str "chunk " ++ (to_string s.chunk.index ++ str " size mismatch after download")),
      )

  -- The transfer of the rest of the chunk in the attempt `n`.
  unfoldable pub fetch_rest : ℕ → Text → Session → Outcome
  fetch_rest n path s =
      let start = u64 (s.chunk.start + s.chunk.downloaded) in
      if s.disk.denied path
      then (s, throw ErrorCode.permission_denied_error (str "failed to open chunk file: " ++ path))
      else continue_with
          (persist_task ctx (mark_downloading (record s { disk = append_file path [] s.disk })))
          (λ ready.
            continue_with
              (download_range (deliver_block ctx path) s.task.url
                (transfer n s.task.url (range_text start s.chunk.end)) ready)
              (check_part path))

  -- The body of the loop inside `try`.
  unfoldable pub attempt_chunk : ℕ → Session → Outcome
  attempt_chunk n s = elim (chunk_path s.task s.chunk) [
    | err e ↦ (s, err e)
    | ok path ↦ continue_with (measure_part path s) (λ measured.
        if leb (chunk_size measured.chunk) measured.chunk.downloaded
        then (complete_chunk measured, ok tt)
        else fetch_rest n path measured)
  ]

  -- The loop from the attempt `n` on, when `rest` more may follow it.
  unfoldable pub retry_chunk : ℕ → ℕ → Session → Outcome
  retry_chunk zero n s =
      let (s', done) = attempt_chunk n s in
      elim done [ ok _ ↦ (s', ok tt) | err e ↦ (fail_chunk n s', err e) ]
  retry_chunk (suc rest) n s =
      let (s', done) = attempt_chunk n s in
      elim done [
        | ok _ ↦ (s', ok tt)
        | err e ↦ elim (gives_up e.code) [
          | true ↦ (fail_chunk n s', err e)
          | false ↦
              continue_with (persist_task ctx (note_retry (n + 1) e.message s'))
                (λ noted. retry_chunk rest (n + 1) noted)
        ]
      ]

  unfoldable pub download_chunk_with_retry : ℕ → Session → Outcome
  download_chunk_with_retry max_retries s = retry_chunk max_retries 0 s

-- The sleep after the attempt `n`, in milliseconds: the product is one of 32 bits.
unfoldable pub retry_delay : ℕ → ℕ → ℕ
retry_delay retry_base_delay_ms n = u32 (retry_base_delay_ms * u32 (2 ^ min n 10))
