-- ===== src/Examples/Filesystem.antt =====
-- The theorems on names, paths and files at concrete inputs.
use cget.Filesystem.Disk.{Disk, put_file, remove_file, file_exists}
use cget.Prelude.{
  sym, inl, true, false, refl, ◌≡◌, List, [], ◌∷◌, ◌++◌, some, none, Text, str, text_eq, arith,
}
use cget.Core.Errors.{Result, ok, ok-injective}
use cget.Core.Types.{ChunkStatus, TaskStatus}
use cget.Filesystem.Names.{sanitize_file_name, file_name_from_url}
use cget.Filesystem.Names.Safe.{IsSafeName, sanitize_file_name-IsSafeName, file_name_from_url_lem}
use cget.Filesystem.Paths.{
  components, is_absolute, join_path, is_path_traversal, part_path, chunk_path,
}
use cget.Filesystem.Paths.Inside.{walk, chunk_path_inside}
use cget.Filesystem.Merge.{
  temp_target, merge_chunks, append_parts, read_part, finish_merge, commit_merge,
}
use cget.Filesystem.Merge.Whole.{Unmoved, opened, merge_chunks_failed}
use cget.Filesystem.Merge.Assemble.{merge_chunks_assembles}
use cget.Examples.Data.{
  one_chunk, one_task, four_bytes, part_a, path_a, two_chunks, path_b, full_disk,
}

sanitize_file_name-IsSafeName_example : IsSafeName (sanitize_file_name (b'.' ∷ b'.' ∷ []))
sanitize_file_name-IsSafeName_example = sanitize_file_name-IsSafeName (b'.' ∷ b'.' ∷ [])

-- `h/a/b?c/d`
file_name_from_url_lem_example :
    let url : Text = b'h' ∷ b'/' ∷ b'a' ∷ b'/' ∷ b'b' ∷ b'?' ∷ b'c' ∷ b'/' ∷ b'd' ∷ [] in
    (file_name_from_url url ≡ sanitize_file_name (b'b' ∷ [])) × IsSafeName (file_name_from_url url)
file_name_from_url_lem_example =
    file_name_from_url_lem (b'h' ∷ b'/' ∷ b'a' ∷ []) (b'b' ∷ []) (b'?' ∷ b'c' ∷ b'/' ∷ b'd' ∷ [])
      (omega arith) (omega arith) (omega arith) (omega arith) (omega arith) (λ e. absurd (cc))
      (inl refl)

chunk_path_inside_example :
    (entered : List Text) × (walk [] (components path_a)
      ≡ entered ++ walk [] (components (b'd' ∷ [])))
unfolding chunk_path part_path is_path_traversal is_absolute components join_path text_eq str
chunk_path_inside_example =
    chunk_path_inside (one_task TaskStatus.downloading 4 two_chunks)
      (one_chunk 0 1 0 ChunkStatus.pending part_a) path_a refl

-- A path that is not the temporary output, however it is named.
pub other_path :
    (a p : Text)
    → text_eq (temp_target (b'o' ∷ [])) a ≡ false
    → ◌≡◌ {A = Result Text} (ok a) (ok p)
    → text_eq (temp_target (b'o' ∷ [])) p ≡ false
other_path a p apart same = rw (sym (ok-injective same)) apart

merge_chunks_assembles_example :
    let (done, after) = merge_chunks full_disk two_chunks (b'd' ∷ []) (b'o' ∷ []) 4 in
    (done ≡ ok tt)
    × (after.files (b'o' ∷ []) ≡ some four_bytes)
    × (after.files (temp_target (b'o' ∷ [])) ≡ none)
unfolding part_path is_path_traversal is_absolute components join_path text_eq str
merge_chunks_assembles_example =
    merge_chunks_assembles full_disk two_chunks (b'd' ∷ []) (b'o' ∷ []) four_bytes
      (refl, omega arith, (refl, omega arith, refl))
      ((path_a, refl, refl), ((path_b, refl, refl), tt))
      ((λ p e. other_path path_a p refl e), ((λ p e. other_path path_b p refl e), tt)) refl
      (λ there. refl)

-- A target that exists, and a system that refuses the renaming to it.
abbrev stuck_disk : Disk
stuck_disk = put_file (b'o' ∷ []) (some (9 ∷ [])) (record full_disk { refuses = λ p there. true })

merge_chunks_failed_example :
    Unmoved stuck_disk
      (b'o' ∷ [])
      4
      (append_parts (opened stuck_disk (b'o' ∷ [])) (b'd' ∷ []) two_chunks [])
      (merge_chunks stuck_disk two_chunks (b'd' ∷ []) (b'o' ∷ []) 4).1
unfolding merge_chunks append_parts read_part finish_merge commit_merge put_file remove_file
    file_exists part_path is_path_traversal is_absolute components join_path text_eq str
merge_chunks_failed_example =
    merge_chunks_failed stuck_disk two_chunks (b'd' ∷ []) (b'o' ∷ []) 4 (λ e. absurd (cc))
