-- ===== src/Filesystem/Paths.antt =====
-- POSIX paths as byte strings: the components of a `std::filesystem::path`, its `operator/`, and the
-- guards of src/filesystem/filesystem_service.cpp.
pub mod Inside
use cget.Prelude.{
  ℕ, Bool, true, false, ◌||◌, List, [], ◌∷◌, ◌++◌, Text, str, text_eq, ◌==◌, if◌then◌else◌, any_of,
}
use cget.Core.Types.{DownloadTask, Chunk}
use cget.Core.Errors.{Result, ok, throw, ErrorCode}

-- The byte `c` in front of the first part.
abbrev pub extend_first : ℕ → List Text → List Text
extend_first c [] = (c ∷ []) ∷ []
extend_first c (p ∷ ps) = (c ∷ p) ∷ ps

-- The parts between the slashes. The iterator of the library also merges repeated slashes and gives
-- the root a part of its own, which no comparison with `..` can tell.
unfoldable pub components : Text → List Text
components [] = [] ∷ []
components (c ∷ cs) =
    let rest = components cs in if c == b'/' then [] ∷ rest else extend_first c rest

abbrev pub ends_in_slash : Text → Bool
ends_in_slash [] = false
ends_in_slash (c ∷ []) = c == b'/'
ends_in_slash (c ∷ (d ∷ cs)) = ends_in_slash (d ∷ cs)

unfoldable pub is_absolute : Text → Bool
is_absolute [] = false
is_absolute (c ∷ cs) = c == b'/'

-- `a / b`.
unfoldable pub join_path : Text → Text → Text
join_path a b =
    if is_absolute b then b else if text_eq a [] || ends_in_slash a then a ++ b else a ++ (b'/' ∷ b)

unfoldable pub is_path_traversal : Text → Bool
is_path_traversal path = any_of (λ part. text_eq part (str "..")) (components path)

-- The guard that `chunkPath` and `mergeChunks` share, and the path of the part file.
unfoldable pub part_path : Text → Chunk → Result Text
part_path temp_dir chunk =
    if is_path_traversal chunk.temp_path || is_absolute chunk.temp_path
    then throw ErrorCode.path_traversal_error (str "unsafe chunk temp path: " ++ chunk.temp_path)
    else ok (join_path temp_dir chunk.temp_path)

-- `FileSystemService::chunkPath`.
unfoldable pub chunk_path : DownloadTask → Chunk → Result Text
unfolding part_path
chunk_path task chunk = part_path task.temp_dir chunk
