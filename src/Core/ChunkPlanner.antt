-- ===== src/Core/ChunkPlanner.antt =====
-- include/cget/core/chunk_planner.h and src/core/chunk_planner.cpp: `ChunkPlanner::plan`.
pub mod Cover
use cget.Prelude.{
  ℕ, zero, suc, ◌+◌, ◌-◌, ◌*◌, ◌/◌, ◌%◌, Bool, List, [], ◌∷◌, ◌++◌, str, u32, u64, u64_mod, ◌==◌,
  if◌then◌else◌, min, max,
}
use cget.Prelude.Decimal.{to_string}
use cget.Core.Types.{Chunk, ChunkStatus}

-- The number of workers: `hardware` is what `std::thread::hardware_concurrency()` returns.
unfoldable pub plan_threads : ℕ → ℕ → ℕ → ℕ
plan_threads file_size requested_threads hardware =
    let wanted =
      if requested_threads == 0
      then if hardware == 0 then 4 else min (u32 (hardware * 2)) 32
      else requested_threads in
    min (max 1 (min wanted 32)) file_size

unfoldable pub planned_chunk : ℕ → ℕ → ℕ → Chunk
planned_chunk index start end = record {
  index = index;
  start = start;
  end = end;
  downloaded = 0;
  status = ChunkStatus.pending;
  retry_count = 0;
  temp_path = str "chunk_" ++ (to_string index ++ str ".part");
}

-- The last byte of a round's chunk; the last chunk takes what is left of the file.
unfoldable pub planned_end : ℕ → ℕ → ℕ → ℕ → ℕ → ℕ
planned_end index threads chunk_size file_size start =
    if index == threads - 1
    then u64 (file_size + u64_mod - 1)
    else u64 (u64 (start + chunk_size) + u64_mod - 1)

-- The loop, with `rest` rounds left: `rest` is `threads - index`.
unfoldable pub plan_from : ℕ → ℕ → ℕ → ℕ → ℕ → ℕ → List Chunk
unfolding planned_chunk planned_end
plan_from zero index threads chunk_size file_size start = []
plan_from (suc rest) index threads chunk_size file_size start =
    let end = planned_end index threads chunk_size file_size start in
    planned_chunk index start end
    ∷ plan_from rest (index + 1) threads chunk_size file_size (u64 (end + 1))

unfoldable pub plan : ℕ → ℕ → ℕ → List Chunk
plan file_size requested_threads hardware =
    let threads = plan_threads file_size requested_threads hardware in
    if file_size == 0 then [] else plan_from threads 0 threads (file_size / threads) file_size 0
