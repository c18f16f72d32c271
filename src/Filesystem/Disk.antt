-- ===== src/Filesystem/Disk.antt =====
-- The files that the program touches, and the operations of src/filesystem/filesystem_service.cpp and
-- of the standard library on them. A disk says what each path holds, and which calls fail. Directories
-- are not modelled; making one never fails here.
pub mod Laws
use cget.Prelude.{
  ℕ, ◌-◌, Bool, true, false, not, Option, none, some, List, [], ◌∷◌, ◌++◌, Text, str, text_eq,
  if◌then◌else◌, length, is_some,
}
use cget.Core.Errors.{Result, ok, throw, ErrorCode}

abbrev pub Content : Type 0
Content = List ℕ

pub record Disk : Type 0 where
  pub files : Text → Option Content
  -- Opening the path for writing and removing it fail.
  pub denied : Text → Bool
  -- Renaming a file to the path fails, when a file is at the path or when none is: a system may not
  -- replace a file, and a path can be refused in both cases.
  pub refuses : Text → Bool → Bool
  -- The number of bytes after which a write of this content to the path fails, if it does. Only
  -- `saveTask` tests its write; the other writes are taken to succeed.
  pub breaks_off : Text → Content → Option ℕ

unfoldable pub put_file : Text → Option Content → Disk → Disk
put_file path content disk = record disk {
  files = λ p. if text_eq path p then content else disk.files p;
}

-- `std::filesystem::remove`, whose errors the program drops.
unfoldable pub remove_file : Text → Disk → Disk
remove_file path disk = if disk.denied path then disk else put_file path none disk

unfoldable pub file_exists : Disk → Text → Bool
file_exists disk path = is_some (disk.files path)

abbrev pub content_of : Option Content → Content
content_of none = []
content_of (some bytes) = bytes

-- `FileSystemService::fileSize`: 0 for a file that is not there.
unfoldable pub file_size : Disk → Text → ℕ
file_size disk path = length (content_of (disk.files path))

-- The first `n` bytes, filled with zeros up to `n`, as `resize_file` does.
unfoldable pub resize : ℕ → Content → Content
resize ℕ.zero bytes = []
resize (ℕ.suc n) [] = 0 ∷ resize n []
resize (ℕ.suc n) (b ∷ bytes) = b ∷ resize n bytes

-- `FileSystemService::truncateFile`, by what the path holds.
unfoldable pub truncate_content : Disk → Text → ℕ → Option Content → Result Disk
truncate_content disk path size none = ok disk
truncate_content disk path size (some bytes) =
    if disk.denied path
    then throw ErrorCode.file_system_error (str "failed to truncate file")
    else ok (put_file path (some (resize size bytes)) disk)

unfoldable pub truncate_file : Disk → Text → ℕ → Result Disk
unfolding truncate_content
truncate_file disk path size = truncate_content disk path size (disk.files path)
