-- ===== src/Filesystem/Merge/Assemble.antt =====
-- Merging part files that hold the right bytes gives back the whole file.
use cget.Prelude.{
  ℕ, ◌+◌, ◌-◌, ◌≡◌, sym, ◌∙◌, ap, false, some, none, List, [], ◌∷◌, ◌++◌, Text, length, take, drop,
  Bool, text_eq, drop-drop, drop_all, take-append-drop, arith, All,
}
use cget.Core.Types.{Chunk}
use cget.Core.Errors.{ok}
use cget.Core.ChunkPlanner.Cover.{Tiles}
use cget.Filesystem.Paths.{part_path}
use cget.Filesystem.Disk.{Content, Disk}
use cget.Filesystem.Disk.Laws.{files-put_file}
use cget.Filesystem.Merge.{temp_target, merge_chunks}
use cget.Filesystem.Merge.Whole.{Parts, opened, merge_chunks_whole}

-- The bytes of `file` that the chunk stands for.
abbrev pub slice_of : Content → Chunk → Content
slice_of file c = take (c.end + 1 - c.start) (drop c.start file)

-- The part file of the chunk holds exactly its bytes of `file`.
abbrev pub Holds : Disk → Text → Content → Chunk → Type 0
Holds disk temp_dir file c =
    (path : Text) × (part_path temp_dir c ≡ ok path) × (disk.files path ≡ some (slice_of file c))

-- The part file of the chunk is not the temporary output of the merge.
abbrev pub IsApart : Text → Text → Chunk → Type 0
IsApart temp_dir target_path c =
    (path : Text) → part_path temp_dir c ≡ ok path → text_eq (temp_target target_path) path ≡ false

Holds-Parts :
    (disk : Disk) (temp_dir target_path : Text) (file : Content) (a : ℕ) (cs : List Chunk)
    → Tiles a cs (length file)
    → All (Holds disk temp_dir file) cs
    → All (IsApart temp_dir target_path) cs
    → Parts (opened disk target_path) temp_dir cs (drop a file)
Holds-Parts disk temp_dir target_path file a [] e h k = drop_all a file e
Holds-Parts disk temp_dir target_path file a (c ∷ cs) (begins, order, more)
      ((path, named, there), h) (apart, k) =
    (
      path,
      slice_of file c,
      drop (c.end + 1) file,
      named,
      rw (files-put_file, apart path named) there,
      Holds-Parts disk temp_dir target_path file (c.end + 1) cs more h k,
      sym (ap (λ i. drop i file) begins)
          ∙ (sym (take-append-drop (c.end + 1 - c.start) (drop c.start file))
              ∙ ap (λ r. slice_of file c ++ r)
                  (drop-drop c.start (c.end + 1 - c.start) (c.end + 1) file (omega arith))),
    )

-- When the chunks tile the file, each part file holds the bytes of its chunk and is not the temporary
-- output, and neither opening the temporary output nor renaming it to the target fails, the merge
-- succeeds, the target holds the file, and the temporary output is gone.
pub merge_chunks_assembles :
    (disk : Disk) (chunks : List Chunk) (temp_dir target_path : Text) (file : Content)
    → Tiles 0 chunks (length file)
    → All (Holds disk temp_dir file) chunks
    → All (IsApart temp_dir target_path) chunks
    → disk.denied (temp_target target_path) ≡ false
    → ((there : Bool) → disk.refuses target_path there ≡ false)
    → let (done, after) = merge_chunks disk chunks temp_dir target_path (length file) in
      (done ≡ ok tt)
      × (after.files target_path ≡ some file)
      × (after.files (temp_target target_path) ≡ none)
merge_chunks_assembles disk chunks temp_dir target_path file tiles holds apart writable movable =
    merge_chunks_whole disk chunks temp_dir target_path file
      (Holds-Parts disk temp_dir target_path file 0 chunks tiles holds apart) writable movable
