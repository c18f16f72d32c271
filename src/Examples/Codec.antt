-- ===== src/Examples/Codec.antt =====
-- The theorems on the texts of tasks at concrete inputs.
use cget.Json.Scan.{fail}
use cget.Config.Bandwidth.{is_digit}
use cget.Json.Scan.{skip_whitespace}
use cget.Json.Parser.{start_of}
use cget.Json.Parser.{parse_value}
use cget.Json.Parser.{parse_fuel}
use cget.Json.Parser.{result_of}
use cget.Json.Parser.{parse_json}
use cget.Filesystem.Disk.{Disk, put_file, remove_file, file_exists}
use cget.Filesystem.Disk.Laws.{files-put_file_self}
use cget.Filesystem.Paths.{join_path, is_absolute}
use cget.Persistence.Store.{
  TaskCodec, task_file, save_task, save_text, write_then_commit, backup_then_commit, back_up,
  copy_to_backup, commit_save, last_disk, load_task, decode_file,
}
use cget.Persistence.Store.Crash.{decode_file-encode}
use cget.Persistence.Store.Saved.{save_task_ok}
use cget.Prelude.{some, none, text_eq, str, ◌≡◌, refl, [], ◌∷◌, arith, All}
use cget.Prelude.Decimal.{to_string}
use cget.Core.Types.{TaskStatus, ChunkStatus, Chunk, DownloadTask, chunk_size}
use cget.Core.Errors.{ok}
use cget.Persistence.Codec.{Clock}
use cget.Persistence.Codec.Encode.{task_to_json}
use cget.Persistence.Codec.Decode.{task_from_json}
use cget.Persistence.Codec.Fields.{NumberLaws, ClockLaws}
use cget.Persistence.Codec.Chunks.{IsStorableChunk}
use cget.Persistence.Codec.Reads.{IsStorableTask}
use cget.Persistence.Codec.RoundTrip.{json_codec, task_from_json-task_to_json}
use cget.Persistence.Codec.Accepted.{IsChunkRange, task_from_json-IsChunkRange}
use cget.Examples.Data.{one_chunk, one_task, part_a, empty_disk}
use cget.Examples.Persistence.{tasks_dir}
use cget.Examples.Json.{whole_numbers, whole_numbers-IsReadable, read_whole, read_whole-to_string}

abbrev second_clock : Clock
second_clock = record { ticks = 1; now = 0; put_time = to_string; get_time = read_whole }

whole_laws : NumberLaws whole_numbers
whole_laws = record {
  holds = λ x h. refl;
  whole = λ x h. refl;
  positive = λ x h. refl;
  reads = λ x h. read_whole-to_string x;
}

second_laws : ClockLaws second_clock
second_laws = record { ticking = omega arith; reads = λ s h. read_whole-to_string s }

abbrev half_chunk : Chunk
half_chunk = one_chunk 0 9 5 ChunkStatus.paused part_a

half_chunk-IsStorableChunk : IsStorableChunk half_chunk
unfolding chunk_size
half_chunk-IsStorableChunk = record {
  index = omega arith;
  start = omega arith;
  end = omega arith;
  downloaded = omega arith;
  retries = omega arith;
  forward = omega arith;
  within = omega arith;
}

abbrev half_task : DownloadTask
half_task = one_task TaskStatus.paused 10 (half_chunk ∷ [])

one_task-IsStorableTask :
    (status : TaskStatus)
    → IsStorableTask whole_numbers second_clock (one_task status 10 (half_chunk ∷ []))
one_task-IsStorableTask status = record {
  size = omega arith;
  downloaded = omega arith;
  created = (0, omega arith, omega arith);
  updated = (0, omega arith, omega arith);
  started = λ time e. absurd cc;
  limited = λ x e. absurd cc;
  max_chunks = omega arith;
  priority = omega arith;
  peak = whole_numbers-IsReadable 0;
  failed = omega arith;
  retries = omega arith;
  threads = omega arith;
  stored = (half_chunk-IsStorableChunk, tt);
}

half_task-IsStorableTask : IsStorableTask whole_numbers second_clock half_task
half_task-IsStorableTask = one_task-IsStorableTask TaskStatus.paused

task_from_json-task_to_json_example :
    task_from_json whole_numbers second_clock (task_to_json whole_numbers second_clock half_task)
    ≡ ok half_task
task_from_json-task_to_json_example =
    task_from_json-task_to_json whole_numbers second_clock whole_laws second_laws half_task
      half_task-IsStorableTask

half_task_read :
    task_from_json whole_numbers second_clock (task_to_json whole_numbers second_clock half_task)
    ≡ ok half_task
half_task_read =
    task_from_json-task_to_json whole_numbers second_clock whole_laws second_laws half_task
      half_task-IsStorableTask

task_from_json-IsChunkRange_example : All IsChunkRange (half_chunk ∷ [])
task_from_json-IsChunkRange_example =
    task_from_json-IsChunkRange whole_numbers second_clock
      (task_to_json whole_numbers second_clock half_task) half_task_read

abbrev json_store : TaskCodec
json_store = json_codec whole_numbers second_clock whole_laws second_laws

-- The disk holds the task `half_task` as the program writes it.
abbrev half_stored : Disk
half_stored =
    put_file (task_file tasks_dir (b't' ∷ [])) (some (json_store.encode half_task)) empty_disk

-- The task when its rest is asked for.
abbrev half_started : DownloadTask
half_started = record half_task { status = TaskStatus.queued }

half_saved : (save_task json_store tasks_dir half_started half_stored).1 ≡ ok tt
unfolding save_task save_text write_then_commit backup_then_commit back_up copy_to_backup
    commit_save remove_file put_file file_exists task_file join_path is_absolute text_eq str
half_saved = refl

half_there :
    half_stored.files (task_file tasks_dir (b't' ∷ [])) ≡ some (json_store.encode half_task)
half_there =
    files-put_file_self (task_file tasks_dir (b't' ∷ [])) (some (json_store.encode half_task))
      empty_disk

half_broken : decode_file json_store (some []) ≡ none
unfolding decode_file task_from_json parse_json result_of parse_fuel parse_value start_of
    skip_whitespace is_digit fail
half_broken = refl

half_started-IsStorableTask : IsStorableTask whole_numbers second_clock half_started
half_started-IsStorableTask = one_task-IsStorableTask TaskStatus.queued

half_decoded : decode_file json_store (some (json_store.encode half_task)) ≡ some half_task
half_decoded = decode_file-encode json_store half_task half_task-IsStorableTask

save_task_ok_example :
    let after = last_disk half_stored (save_task json_store tasks_dir half_started half_stored).0 in
    (load_task json_store tasks_dir (b't' ∷ []) after ≡ ok half_started)
    × (load_task json_store tasks_dir
          (b't' ∷ [])
          (put_file (task_file tasks_dir (b't' ∷ [])) (some []) after)
        ≡ ok half_task)
save_task_ok_example =
    save_task_ok json_store tasks_dir half_task half_started (json_store.encode half_task) []
      half_stored half_started-IsStorableTask half_saved half_there half_decoded half_broken
