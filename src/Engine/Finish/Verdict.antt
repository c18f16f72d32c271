-- ===== src/Engine/Finish/Verdict.antt =====
-- When the end of a task makes it Completed.
use cget.Prelude.{
  ℕ, Bool, ◌≡◌, ◌≢◌, refl, sym, ◌∙◌, inl, inr, true, false, Option, none, some, List, Text, text_eq,
  text_eq_iff, length, subst, ◌==◌, ==_iff, Bool-cases, all_of, All,
}
use cget.Core.Types.{TaskStatus, Chunk}
use cget.Core.Errors.{Result, ok, err}
use cget.Core.ChunkPlanner.Cover.{Tiles}
use cget.Filesystem.Disk.{Content, Disk, put_file, remove_file, file_exists}
use cget.Filesystem.Disk.Laws.{files-put_file, files-put_file_self}
use cget.Filesystem.Merge.{temp_target, commit_merge, finish_merge, merge_chunks}
use cget.Filesystem.Merge.Assemble.{Holds, IsApart, merge_chunks_assembles}
use cget.Filesystem.Merge.Whole.{temp_target-ne}
use cget.Engine.Session.{Context}
use cget.Crypto.Hex.{lowercase_hex}
use cget.Engine.Finish.{
  Job, save_job, set_failure, checksum_of, is_settled, is_complete_chunk, complete_job,
  verify_then_complete, after_merge, finalize_prepared_task,
}

finish_merge_size :
    (disk : Disk) (target : Text) (size : ℕ) (read : Content × Result (Unit {0}))
    → (finish_merge disk target size read).0 ≡ ok tt
    → (content : Content) × ((finish_merge disk target size read).1.files target ≡ some content)
      × (length content ≡ size)
unfolding finish_merge commit_merge
finish_merge_size disk target size (out, err e) h = absurd (cc)
finish_merge_size disk target size (out, ok _) h = elim (Bool-cases (length out == size)) [
  | inr other ↦ let failed = rw other at h in absurd (cc)
  | inl same ↦
      let written = put_file (temp_target target) (some out) disk in
      let removed = remove_file target written in
      elim (Bool-cases (removed.refuses target (file_exists removed target))) [
        | inl refused ↦ let failed = rw (same, refused) at h in absurd (cc)
        | inr allowed ↦ (
          out,
          rw (same, allowed)
              (rw (files-put_file, temp_target-ne target)
                (files-put_file_self target (some out) _)),
          (==_iff _ _).0 same,
        )
      ]
]

pub merge_chunks_size :
    (disk : Disk) (chunks : List Chunk) (temp_dir target : Text) (size : ℕ)
    → (merge_chunks disk chunks temp_dir target size).0 ≡ ok tt
    → (content : Content) × ((merge_chunks disk chunks temp_dir target size).1.files target
        ≡ some content)
      × (length content ≡ size)
unfolding merge_chunks
merge_chunks_size disk chunks temp_dir target size h =
    elim (Bool-cases (disk.denied (temp_target target))) [
      | inl refused ↦ let failed = rw refused at h in absurd (cc)
      | inr allowed ↦ rw allowed (finish_merge_size disk target size _ (rw allowed at h))
    ]

-- The content has the checksum that is expected, if one is.
abbrev pub Matches : (Content → Text) → Option Text → Content → Type 0
Matches sha256 none content = Unit
Matches sha256 (some expected) content = sha256 content ≡ lowercase_hex expected

-- The target holds a file of the size and the checksum of the task.
abbrev pub Delivered : (Content → Text) → Job → Type 0
Delivered sha256 j =
    (content : Content) × (j.disk.files j.task.target_path ≡ some content)
    × (length content ≡ j.task.file_size)
    × Matches sha256 j.task.expected_sha256 content

pub not_completed {ℓ} : {A : Type ℓ} → TaskStatus.failed ≡ TaskStatus.completed → A
not_completed e = absurd (cc)

module _ (ctx : Context) (sha256 : Content → Text) where
  save_job_same :
      (j : Job)
      → ((save_job ctx j).0.disk ≡ j.disk)
        × ((save_job ctx j).0.task.status ≡ j.task.status)
        × ((save_job ctx j).0.task.target_path ≡ j.task.target_path)
        × ((save_job ctx j).0.task.file_size ≡ j.task.file_size)
        × ((save_job ctx j).0.task.expected_sha256 ≡ j.task.expected_sha256)
  unfolding save_job
  save_job_same j = (refl, refl, refl, refl, refl)

  complete_job-Delivered :
      (j : Job) → Delivered sha256 j → Delivered sha256 (complete_job ctx sha256 j).0
  unfolding complete_job save_job
  complete_job-Delivered j h = h

  pub set_failure_status :
      (status : TaskStatus) (message : Text) (j : Job)
      → (set_failure ctx status message j).0.task.status ≡ status
  unfolding set_failure save_job
  set_failure_status status message j = refl

  verify-Delivered :
      (expected : Option Text) (j : Job) (content : Content)
      → expected ≡ j.task.expected_sha256
      → j.disk.files j.task.target_path ≡ some content
      → length content ≡ j.task.file_size
      → j.task.status ≢ TaskStatus.completed
      → (verify_then_complete ctx sha256 expected j).0.task.status ≡ TaskStatus.completed
      → Delivered sha256 (verify_then_complete ctx sha256 expected j).0
  unfolding verify_then_complete checksum_of
  verify-Delivered none j content e there size other done =
      complete_job-Delivered j
        (content, there, size, subst (λ (o : Option Text). Matches sha256 o content) e tt)
  verify-Delivered (some expected) j content e there size other done =
      elim (Bool-cases (text_eq (sha256 content) (lowercase_hex expected))) [
        | inl same ↦
            rw (there, verify_then_complete, checksum_of, same)
              (complete_job-Delivered j (
                content,
                there,
                size,
                subst (λ (o : Option Text). Matches sha256 o content) e ((text_eq_iff _ _).0 same),
              ))
        | inr differs ↦
            let failed = rw (there, verify_then_complete, checksum_of, differs) at done in
            not_completed (sym (set_failure_status TaskStatus.failed _ j) ∙ failed)
      ]

  verify_whole :
      (expected : Option Text) (j : Job) (file : Content)
      → Matches sha256 expected file
      → j.disk.files j.task.target_path ≡ some file
      → let after = (verify_then_complete ctx sha256 expected j).0 in
        (after.task.status ≡ TaskStatus.completed)
        × (after.disk.files j.task.target_path ≡ some file)
  unfolding verify_then_complete checksum_of complete_job save_job
  verify_whole none j file matches there = (refl, there)
  verify_whole (some expected) j file matches there =
      rw
        (
          there,
          verify_then_complete,
          checksum_of,
          (text_eq_iff (sha256 file) (lowercase_hex expected)).1 matches,
        )
        (refl, there)

  after_merge_whole :
      (j : Job) (file : Content) (merged : Result (Unit {0}) × Disk)
      → merged.0 ≡ ok tt
      → merged.1.files j.task.target_path ≡ some file
      → Matches sha256 j.task.expected_sha256 file
      → let after = (after_merge ctx sha256 j merged).0 in
        (after.task.status ≡ TaskStatus.completed)
        × (after.disk.files j.task.target_path ≡ some file)
  unfolding after_merge
  after_merge_whole j file (err e, disk) done made matches = absurd (cc)
  after_merge_whole j file (ok _, disk) done made matches =
      verify_whole j.task.expected_sha256 (record j { disk = disk }) file matches made

  pub after_merge-Delivered :
      (j : Job) (merged : Result (Unit {0}) × Disk)
      → (merged.0 ≡ ok tt
          → (content : Content) × (merged.1.files j.task.target_path ≡ some content)
            × (length content ≡ j.task.file_size))
      → j.task.status ≢ TaskStatus.completed
      → (after_merge ctx sha256 j merged).0.task.status ≡ TaskStatus.completed
      → Delivered sha256 (after_merge ctx sha256 j merged).0
  unfolding after_merge
  after_merge-Delivered j (err e, disk) made other done = absurd (other done)
  after_merge-Delivered j (ok _, disk) made other done =
      let (content, there, size) = made refl in
      verify-Delivered j.task.expected_sha256 (record j { disk = disk }) content refl there size
        other done

  -- When the end of a task that was not Completed makes it Completed, the target holds a file of the
  -- size of the task, and this file has the expected checksum if one was given.
  pub finalize_prepared_task-Delivered :
      (j : Job)
      → j.task.status ≢ TaskStatus.completed
      → (finalize_prepared_task ctx sha256 j).0.task.status ≡ TaskStatus.completed
      → Delivered sha256 (finalize_prepared_task ctx sha256 j).0
  unfolding finalize_prepared_task
  finalize_prepared_task-Delivered j other done = elim (Bool-cases (is_settled j.task.status)) [
    | inl settled ↦ absurd (other (sym (save_job_same j).1 ∙ rw settled at done))
    | inr open_task ↦ elim (Bool-cases (all_of is_complete_chunk j.task.chunks)) [
      | inl all ↦
          rw (open_task, all)
            (after_merge-Delivered j _
              (merge_chunks_size j.disk j.task.chunks j.task.temp_dir j.task.target_path
                j.task.file_size)
              other (rw (open_task, all) at done))
      | inr some_left ↦
          let failed = rw (open_task, some_left) at done in
          not_completed (sym (set_failure_status TaskStatus.failed _ j) ∙ failed)
    ]
  ]

  -- When the chunks of an unsettled task tile the remote file, each is complete and each part file holds
  -- the bytes of its chunk and is not the temporary output of the merge, the expected checksum, if
  -- there is one, is that of the file, and neither opening the temporary output nor renaming it to
  -- the target fails, then the end of the task makes it Completed, and the
  -- target holds the remote file.
  pub finalize_prepared_task-whole :
      (j : Job) (file : Content)
      → is_settled j.task.status ≡ false
      → all_of is_complete_chunk j.task.chunks ≡ true
      → Tiles 0 j.task.chunks (length file)
      → All (Holds j.disk j.task.temp_dir file) j.task.chunks
      → All (IsApart j.task.temp_dir j.task.target_path) j.task.chunks
      → j.task.file_size ≡ length file
      → Matches sha256 j.task.expected_sha256 file
      → j.disk.denied (temp_target j.task.target_path) ≡ false
      → ((there : Bool) → j.disk.refuses j.task.target_path there ≡ false)
      → let after = (finalize_prepared_task ctx sha256 j).0 in
        (after.task.status ≡ TaskStatus.completed)
        × (after.disk.files j.task.target_path ≡ some file)
  unfolding finalize_prepared_task
  finalize_prepared_task-whole j file unsettled complete tiles holds apart size matches writable
        movable =
      let merged = merge_chunks j.disk j.task.chunks j.task.temp_dir j.task.target_path in
      let (done, made, _) : ((merged j.task.file_size).0 ≡ ok tt)
          × ((merged j.task.file_size).1.files j.task.target_path ≡ some file)
          × ((merged j.task.file_size).1.files (temp_target j.task.target_path) ≡ none) =
        subst
          (λ (n : ℕ).
            ((merged n).0 ≡ ok tt)
            × ((merged n).1.files j.task.target_path ≡ some file)
            × ((merged n).1.files (temp_target j.task.target_path) ≡ none))
          (sym size)
          (merge_chunks_assembles j.disk j.task.chunks j.task.temp_dir j.task.target_path file tiles
            holds apart writable movable) in
      rw (unsettled, complete)
        (after_merge_whole j file (merged j.task.file_size) done made matches)
