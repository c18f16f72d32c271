-- ===== src/Filesystem/Merge.antt =====
-- `FileSystemService::mergeChunks`. The result comes with the disk, since a call that throws leaves
-- the temporary output behind.
pub mod Whole
pub mod Assemble
use cget.Prelude.{
  ℕ, Bool, true, false, not, Option, none, some, List, [], ◌∷◌, ◌++◌, Text, str, ◌==◌,
  if◌then◌else◌, length,
}
use cget.Core.Types.{Chunk}
use cget.Core.Errors.{Result, ok, err, throw, ErrorCode}
use cget.Filesystem.Paths.{part_path}
use cget.Filesystem.Disk.{Content, Disk, remove_file, put_file, file_exists}

-- The bytes of a part file; a missing one cannot be opened.
unfoldable pub read_part : Disk → Text → Result Content
read_part disk path = elim (disk.files path) [
  | none ↦ throw ErrorCode.file_system_error (str "missing chunk file: " ++ path)
  | some bytes ↦ ok bytes
]

-- The loop over the chunks: what has been written so far, and the error that ended it if one did.
unfoldable pub append_parts : Disk → Text → List Chunk → Content → Content × Result (Unit {0})
append_parts disk temp_dir [] out = (out, ok tt)
append_parts disk temp_dir (c ∷ cs) out = elim (part_path temp_dir c) [
  | err e ↦ (out, err e)
  | ok path ↦ elim (read_part disk path) [
    | err e ↦ (out, err e)
    | ok bytes ↦ append_parts disk temp_dir cs (out ++ bytes)
  ]
]

abbrev pub temp_target : Text → Text
temp_target target_path = target_path ++ str ".cget.tmp"

-- The output is complete: the target is removed, an error of which is dropped, and the output is
-- renamed to it, which can fail whether or not the target was removed.
unfoldable pub commit_merge : Disk → Text → Content → Result (Unit {0}) × Disk
commit_merge disk target_path out =
    let removed = remove_file target_path disk in
    if removed.refuses target_path (file_exists removed target_path)
    then (throw ErrorCode.file_system_error (str "failed to move merged file into place"), removed)
    else (ok tt, put_file (temp_target target_path) none (put_file target_path (some out) removed))

-- What follows the loop: the size check and the renaming.
unfoldable pub finish_merge :
    Disk → Text → ℕ → Content × Result (Unit {0}) → Result (Unit {0}) × Disk
unfolding commit_merge
finish_merge disk target_path expected_size (out, err e) =
    (err e, put_file (temp_target target_path) (some out) disk)
finish_merge disk target_path expected_size (out, ok _) =
    let written = put_file (temp_target target_path) (some out) disk in
    if length out == expected_size
    then commit_merge written target_path out
    else (throw ErrorCode.file_system_error (str "merged file size mismatch"), written)

-- Opening the output empties its file, before the parts are read.
unfoldable pub merge_chunks : Disk → List Chunk → Text → Text → ℕ → Result (Unit {0}) × Disk
merge_chunks disk chunks temp_dir target_path expected_size =
    if disk.denied (temp_target target_path)
    then (throw ErrorCode.permission_denied_error (str "failed to open output temp file"), disk)
    else finish_merge disk target_path expected_size
        (append_parts (put_file (temp_target target_path) (some []) disk) temp_dir chunks [])
