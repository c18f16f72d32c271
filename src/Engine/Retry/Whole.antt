-- ===== src/Engine/Retry/Whole.antt =====
-- The part file that the attempts at a chunk leave.
use cget.Prelude.{
  ℕ, ◌+◌, ◌-◌, ◌≡◌, refl, sym, ◌∙◌, ◌≤◌, ◌<◌, some, Text, length, take, drop, u64_mod,
}
use cget.Core.Types.{Chunk, ChunkStatus, chunk_size}
use cget.Core.Errors.{ok}
use cget.Filesystem.Paths.{chunk_path}
use cget.Filesystem.Disk.{Content, content_of}
use cget.Filesystem.Merge.Assemble.{slice_of}
use cget.Network.Http.{Transfer}
use cget.Engine.Session.{Session, Context}
use cget.Engine.Retry.{range_text, retry_chunk, download_chunk_with_retry}
use cget.Engine.Retry.Part.{body, Begins}
use cget.Engine.Retry.Resume.{Sound, Fine, chunk_size-slice, retry_chunk-Fine}

-- The bytes that a transfer hands over, when it is asked for a range of the chunk, in any attempt,
-- begin the bytes of the file in that range.
abbrev pub Honest : (ℕ → Text → Text → Transfer) → Text → Chunk → Content → Type 0
Honest transfer url c file =
    (n a : ℕ)
    → c.start ≤ a
    → a ≤ c.end
    → Begins (body (transfer n url (range_text a c.end)).blocks)
        (take (c.end + 1 - a) (drop a file))

module _ (ctx : Context) (transfer : ℕ → Text → Text → Transfer) (max_retries : ℕ) (s : Session)
    (path : Text) (file : Content) (ordered : s.chunk.start ≤ s.chunk.end)
    (inside : s.chunk.end < length file) (small : length file < u64_mod)
    (honest : Honest transfer s.task.url s.chunk file) (named : chunk_path s.task s.chunk ≡ ok path)
    (begins : Begins (content_of (s.disk.files path)) (slice_of file s.chunk)) where
  worker_Sound : Sound ctx transfer path s.task.url s.chunk.start s.chunk.end file s
  worker_Sound = record { named = named; from = refl; first = refl; last = refl; begins = begins }

  run_Fine :
      Fine ctx transfer path s.task.url s.chunk.start s.chunk.end file
        (retry_chunk ctx transfer max_retries 0 s)
  run_Fine =
      retry_chunk-Fine ctx transfer path s.task.url s.chunk.start s.chunk.end file ordered inside
        small honest max_retries 0 s worker_Sound

  -- Suppose that the transfers hand over bytes of the file only, in their place, and that the part file
  -- holds the beginning of the chunk's bytes, as it does when it is missing. Then, however the
  -- attempts go, the part file still holds the beginning of the chunk's bytes, so that a later run
  -- can go on from it.
  pub download_chunk_with_retry-Begins :
      let after = (download_chunk_with_retry ctx transfer max_retries s).0 in
      Begins (content_of (after.disk.files path)) (slice_of file s.chunk)
  unfolding download_chunk_with_retry
  download_chunk_with_retry-Begins = run_Fine.0.begins

  -- Suppose that the transfers hand over bytes of the file only, in their place, that the part file
  -- holds the beginning of the chunk's bytes, and that the download of the chunk returns, after
  -- whatever number of attempts. Then the part file holds all of the chunk's bytes, and the chunk is
  -- Completed and counts as many bytes as it has.
  pub download_chunk_with_retry-Holds :
      (download_chunk_with_retry ctx transfer max_retries s).1 ≡ ok tt
      → let after = (download_chunk_with_retry ctx transfer max_retries s).0 in
        (after.disk.files path ≡ some (slice_of file s.chunk))
        × (after.chunk.status ≡ ChunkStatus.completed)
        × (after.chunk.downloaded ≡ chunk_size s.chunk)
  unfolding download_chunk_with_retry
  download_chunk_with_retry-Holds done =
      let c = run_Fine.1 done in
      (
        c.whole,
        c.closed,
        c.counted
            ∙ sym (
                chunk_size-slice ctx transfer path s.task.url s.chunk.start s.chunk.end file ordered
                  inside small s worker_Sound),
      )
