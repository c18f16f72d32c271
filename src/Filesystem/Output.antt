-- ===== src/Filesystem/Output.antt =====
-- `resolveOutputPath` and `uniquePath` of src/filesystem/filesystem_service.cpp. What the standard
-- library says of a path is a parameter; making the directories never fails here.
use cget.Prelude.{
  ℕ, zero, suc, ◌≡◌, inl, inr, Bool, false, ◌&&◌, ◌||◌, not, Option, none, some, ◌++◌, Text, str,
  if◌then◌else◌, Bool-cases, subst,
}
use cget.Prelude.Decimal.{to_string}
use cget.Core.Errors.{Result, ok, throw, ErrorCode, ok-injective}
use cget.Filesystem.Disk.{Disk, file_exists}
use cget.Filesystem.Names.{sanitize_file_name}
use cget.Filesystem.Paths.{join_path, is_path_traversal, is_absolute}

-- `std::filesystem`: `absolute`, `is_directory`, and the parts of a path.
pub record PathLibrary : Type 0 where
  pub absolute : Text → Text
  pub is_directory : Text → Bool
  pub has_filename : Text → Bool
  pub parent_path : Text → Text
  pub stem : Text → Text
  pub extension : Text → Text

-- `outputPath.value_or(path)`.
abbrev pub output_or : Text → Option Text → Text
output_or path none = path
output_or path (some chosen) = chosen

module _ (lib : PathLibrary) (disk : Disk) where
  open lib use {absolute, is_directory, has_filename, parent_path, stem, extension}

  -- `std::filesystem::exists`.
  unfoldable pub path_exists : Text → Bool
  path_exists path = file_exists disk path || is_directory path

  -- The name with the number `index`.
  unfoldable pub numbered_path : Text → ℕ → Text
  numbered_path path index =
      join_path (parent_path path)
        (stem path ++ (str " (" ++ (to_string index ++ (str ")" ++ extension path))))

  -- The loop of `uniquePath`, when `count` numbers from `index` on are left.
  unfoldable pub unique_from : Text → ℕ → ℕ → Result Text
  unique_from path zero index =
      throw ErrorCode.file_already_exists_error (str "could not find non-conflicting output path")
  unique_from path (suc count) index =
      let later = unique_from path count (suc index) in
      if path_exists (numbered_path path index) then later else ok (numbered_path path index)

  -- `uniquePath`.
  unfoldable pub unique_path : Text → Result Text
  unfolding unique_from
  unique_path path = unique_from path 9999 1

  -- A directory gets the file name behind it.
  unfoldable pub with_file_name : Text → Text → Text
  with_file_name file_name target =
      if is_directory target && has_filename target || not (has_filename target)
      then join_path target (sanitize_file_name file_name)
      else target

  unfoldable pub settle_output : Bool → Text → Result Text
  settle_output force_overwrite target =
      if not force_overwrite && path_exists target then unique_path target else ok target

  -- `resolveOutputPath`; `downloads` is `downloadsDir()`.
  unfoldable pub resolve_output_path : Text → Option Text → Text → Bool → Result Text
  resolve_output_path downloads output_path file_name force_overwrite =
      let target = output_or (join_path downloads (sanitize_file_name file_name)) output_path in
      let named = with_file_name file_name target in
      if is_path_traversal target
      then throw ErrorCode.path_traversal_error (str "output path contains '..': " ++ target)
      else settle_output force_overwrite (if is_absolute named then named else absolute named)

  unique_from_free :
      (path : Text) (count index : ℕ) {p : Text}
      → unique_from path count index ≡ ok p
      → path_exists p ≡ false
  unfolding unique_from
  unique_from_free path zero index h = absurd cc
  unique_from_free path (suc count) index {p} h =
      elim (Bool-cases (path_exists (numbered_path path index))) [
        | inl taken ↦ unique_from_free path count (suc index) (rw taken at h)
        | inr free ↦ subst (λ q. path_exists q ≡ false) (ok-injective (rw free at h)) free
      ]

  settle_output_free :
      (target : Text) {p : Text} → settle_output false target ≡ ok p → path_exists p ≡ false
  unfolding settle_output unique_path
  settle_output_free target {p} h = elim (Bool-cases (path_exists target)) [
    | inl taken ↦ unique_from_free target 9999 1 (rw taken at h)
    | inr free ↦ subst (λ q. path_exists q ≡ false) (ok-injective (rw free at h)) free
  ]

  -- Without forceOverwrite, the path that resolveOutputPath gives for a download is one where nothing
  -- is yet.
  pub resolve_output_path_free :
      (downloads : Text) (output_path : Option Text) (file_name : Text) {p : Text}
      → resolve_output_path downloads output_path file_name false ≡ ok p
      → path_exists p ≡ false
  unfolding resolve_output_path
  resolve_output_path_free downloads output_path file_name {p} h =
      let target = output_or (join_path downloads (sanitize_file_name file_name)) output_path in
      elim (Bool-cases (is_path_traversal target)) [
        | inl unsafe ↦ (let failed = rw unsafe at h in absurd cc)
        | inr safe ↦ settle_output_free _ (rw safe at h)
      ]
