-- ===== src/Persistence/Store/Crash.antt =====
-- Saving a task is safe against a crash.
use cget.Prelude.{
  Bool, true, if◌then◌else◌, ℕ, none, [], sym, Option-cases, ◌≡◌, refl, ◌∙◌, ap, ◌⊎◌, inl, inr,
  false, Option, some, List, ◌∷◌, ◌++◌, Text, str, text_eq, text_eq_iff, length, length-append,
  arith, Bool-cases, All, All-map,
}
use mathlib.Core.List.{append_cancel_left}
use cget.Core.Types.{DownloadTask}
use cget.Filesystem.Disk.{remove_file, Content, Disk, put_file, file_exists}
use cget.Filesystem.Disk.Laws.{
  files-put_file, files-put_file_self, remove_file_self, remove_file_frame,
}
use cget.Persistence.Store.{
  Run, TaskCodec, task_file, bak_of, tmp_of, copy_to_backup, back_up, commit_save,
  backup_then_commit, save_text, save_task, decode_file, load_path, rename_tmp, retry_commit,
  write_then_commit,
}

suffix_lengths : (length (str ".bak") ≡ 4) × (length (str ".tmp") ≡ 4)
unfolding str
suffix_lengths = (refl, refl)

pub append-ne : (path suffix : Text) → length suffix ≡ 4 → text_eq (path ++ suffix) path ≡ false
append-ne path suffix h = elim (Bool-cases (text_eq (path ++ suffix) path)) [
  | inl same ↦ absurd (
      omega
        (arith, ap length ((text_eq_iff (path ++ suffix) path).0 same), length-append path suffix))
  | inr other ↦ other
]

bak_tmp_literals : text_eq (str ".bak") (str ".tmp") ≡ false
unfolding str text_eq
bak_tmp_literals = refl

pub bak-ne-tmp : (path : Text) → text_eq (bak_of path) (tmp_of path) ≡ false
bak-ne-tmp path = elim (Bool-cases (text_eq (bak_of path) (tmp_of path))) [
  | inl same ↦
      let e = append_cancel_left path _ _ ((text_eq_iff (bak_of path) (tmp_of path)).0 same) in
      cc (bak_tmp_literals, (text_eq_iff (str ".bak") (str ".tmp")).1 e)
  | inr other ↦ other
]

pub text_eq_sym : (a b : Text) → text_eq a b ≡ text_eq b a
text_eq_sym a b = ground (arith, text_eq_iff a b, text_eq_iff b a)

module _ (path : Text) where
  pub tmp-ne : text_eq (tmp_of path) path ≡ false
  tmp-ne = append-ne path (str ".tmp") suffix_lengths.1

  pub bak-ne : text_eq (bak_of path) path ≡ false
  bak-ne = append-ne path (str ".bak") suffix_lengths.0

  if_cases :
      (b : Bool) {x y : Run} (P : Run → Type 0)
      → (b ≡ true → P x)
      → (b ≡ false → P y)
      → P (if b then x else y)
  if_cases true P h k = h refl
  if_cases false P h k = k refl

  missing_file : (disk : Disk) (p : Text) → file_exists disk p ≡ false → disk.files p ≡ none
  unfolding file_exists
  missing_file disk p h = elim (Option-cases (disk.files p)) [
    | inl absent ↦ absent
    | inr (content, there) ↦ let seen = rw there at h in absurd (cc)
  ]

  -- The task file holds what it held, or the new text; or it is gone, and the backup holds what it held.
  abbrev pub Safe : Option Content → Content → Disk → Type 0
  Safe old text d =
      (d.files path ≡ old)
      ⊎ ((d.files path ≡ some text) ⊎ ((d.files path ≡ none) × (d.files (bak_of path) ≡ old)))

  pub rename_tmp-files :
      (disk : Disk)
      → ((rename_tmp path disk).files path ≡ disk.files (tmp_of path))
        × ((rename_tmp path disk).files (bak_of path) ≡ disk.files (bak_of path))
        × ((rename_tmp path disk).files (tmp_of path) ≡ none)
  unfolding rename_tmp
  rename_tmp-files disk =
      let moved = put_file path (disk.files (tmp_of path)) disk in
      (
        rw (files-put_file, tmp-ne) (files-put_file_self path (disk.files (tmp_of path)) disk),
        rw (files-put_file, text_eq_sym (tmp_of path) (bak_of path), bak-ne-tmp path)
            (rw (files-put_file, text_eq_sym path (bak_of path), bak-ne) refl),
        files-put_file_self (tmp_of path) none moved,
      )

  -- Removing the task file leaves the temporary file and the backup.
  pub remove_main-files :
      (disk : Disk)
      → ((remove_file path disk).files (tmp_of path) ≡ disk.files (tmp_of path))
        × ((remove_file path disk).files (bak_of path) ≡ disk.files (bak_of path))
  remove_main-files disk = (
    remove_file_frame path disk (tmp_of path) (text_eq_sym path (tmp_of path) ∙ tmp-ne),
    remove_file_frame path disk (bak_of path) (text_eq_sym path (bak_of path) ∙ bak-ne),
  )

  retry_commit-Safe :
      (old : Option Content) (text : Content) (past : List Disk) (disk : Disk)
      → disk.files (tmp_of path) ≡ some text
      → All (Safe old text) past
      → All (Safe old text) (retry_commit path past disk).0
  unfolding retry_commit
  retry_commit-Safe old text past disk written h =
      elim (Bool-cases (disk.refuses path (file_exists disk path))) [
        | inl refused ↦ rw refused h
        | inr allowed ↦ rw allowed (inr (inl ((rename_tmp-files disk).0 ∙ written)), h)
      ]

  removed-Safe :
      (old : Option Content) (text : Content) (disk : Disk)
      → disk.files path ≡ old
      → (disk.files (bak_of path) ≡ old) ⊎ (old ≡ none)
      → Safe old text (remove_file path disk)
  removed-Safe old text disk main (inr missing) = elim (remove_file_self path disk) [
    | inl there ↦ inl (there ∙ main)
    | inr gone ↦ inl (gone ∙ sym missing)
  ]
  removed-Safe old text disk main (inl kept) = elim (remove_file_self path disk) [
    | inl there ↦ inl (there ∙ main)
    | inr gone ↦ inr (inr (gone, (remove_main-files disk).1 ∙ kept))
  ]

  -- The backup holds what the task file held, or there was no task file.
  commit_save-Safe :
      (old : Option Content) (text : Content) (past : List Disk) (disk : Disk)
      → disk.files path ≡ old
      → (disk.files (bak_of path) ≡ old) ⊎ (old ≡ none)
      → disk.files (tmp_of path) ≡ some text
      → All (Safe old text) past
      → All (Safe old text) (commit_save path past disk).0
  unfolding commit_save
  commit_save-Safe old text past disk main kept written h =
      elim (Bool-cases (disk.refuses path (file_exists disk path))) [
        | inl refused ↦ rw refused (
            retry_commit-Safe old text (remove_file path disk ∷ past) (remove_file path disk)
              ((remove_main-files disk).0 ∙ written) (removed-Safe old text disk main kept, h))
        | inr allowed ↦ rw allowed (inr (inl ((rename_tmp-files disk).0 ∙ written)), h)
      ]

  back_up-Safe :
      (old : Option Content) (text : Content) (past : List Disk) (disk : Disk)
      → disk.files path ≡ old
      → disk.files (tmp_of path) ≡ some text
      → All (Safe old text) past
      → All (Safe old text) (back_up path past disk).0
  unfolding back_up copy_to_backup
  back_up-Safe old text past disk main written h = elim (Bool-cases (disk.denied (bak_of path))) [
    | inl refused ↦ rw (refused, back_up) (inl main, h)
    | inr allowed ↦
        let copied = put_file (bak_of path) (disk.files path) disk in
        let still : copied.files path ≡ old = rw (files-put_file, bak-ne) main in
        rw (allowed, back_up)
          (commit_save-Safe old text (copied ∷ (disk ∷ past)) copied still
            (inl (files-put_file_self (bak_of path) (disk.files path) disk ∙ main))
            (rw (files-put_file, bak-ne-tmp path) written) (inl still, (inl main, h)))
  ]

  backup_then_commit-Safe :
      (old : Option Content) (text : Content) (past : List Disk) (disk : Disk)
      → disk.files path ≡ old
      → disk.files (tmp_of path) ≡ some text
      → All (Safe old text) past
      → All (Safe old text) (backup_then_commit path past disk).0
  unfolding backup_then_commit
  backup_then_commit-Safe old text past disk main written h =
      if_cases (file_exists disk path) (λ (r : Run). All (Safe old text) (r.0))
        (λ there.
          back_up-Safe old text past (remove_file (bak_of path) disk)
            (remove_file_frame (bak_of path) disk path bak-ne ∙ main)
            (remove_file_frame (bak_of path) disk (tmp_of path) (bak-ne-tmp path) ∙ written) h)
        (λ absent.
          commit_save-Safe old text past disk main (inr (sym main ∙ missing_file disk path absent))
            written h)

  write_then_commit-Safe :
      (text : Content) (old : Option Content) (opened : Disk) (broken : Option ℕ)
      → opened.files path ≡ old
      → All (Safe old text) (write_then_commit path text opened broken).0
  unfolding write_then_commit
  write_then_commit-Safe text old opened (some count) main =
      (inl (rw (files-put_file, tmp-ne) main), (inl main, tt))
  write_then_commit-Safe text old opened none main =
      let written = put_file (tmp_of path) (some text) opened in
      let still : written.files path ≡ old = rw (files-put_file, tmp-ne) main in
      backup_then_commit-Safe old text (written ∷ (opened ∷ [])) written still
        (files-put_file_self (tmp_of path) (some text) opened) (inl still, (inl main, tt))

  save_text-Safe :
      (text : Content) (disk : Disk)
      → All (Safe (disk.files path) text) (save_text path text disk).0
  unfolding save_text
  save_text-Safe text disk = elim (Bool-cases (disk.denied (tmp_of path))) [
    | inl refused ↦ rw refused tt
    | inr allowed ↦ rw allowed (
        write_then_commit-Safe text (disk.files path) (put_file (tmp_of path) (some []) disk)
          (disk.breaks_off (tmp_of path) text) (rw (files-put_file, tmp-ne) refl))
  ]

pub load_main :
    (codec : TaskCodec) (path : Text) (d : Disk) (task : DownloadTask)
    → decode_file codec (d.files path) ≡ some task
    → load_path codec path d ≡ some task
unfolding load_path
load_main codec path d task e = rw (e, load_path)

pub load_bak :
    (codec : TaskCodec) (path : Text) (d : Disk)
    → decode_file codec (d.files path) ≡ none
    → load_path codec path d ≡ decode_file codec (d.files (bak_of path))
unfolding load_path
load_bak codec path d e = rw (e, load_path)

decode_missing : (codec : TaskCodec) → decode_file codec none ≡ none
unfolding decode_file
decode_missing codec = refl

pub decode_file-encode :
    (codec : TaskCodec) (task : DownloadTask)
    → codec.IsStorable task
    → decode_file codec (some (codec.encode task)) ≡ some task
unfolding decode_file
decode_file-encode codec task storable = rw (codec.decode-encode task storable, decode_file)

-- Suppose that the task file can be read before a save, as the task `old`, and that the new task can be
-- stored. Then on every disk that the save goes through, whichever calls fail and whether it succeeds
-- or not, loading gives the old task or the new one: no crash between two calls of the file system
-- loses the task, also when the task file is removed to rename once more and only the backup is left.
pub save_task_crash :
    (codec : TaskCodec) (dir : Text) (old new : DownloadTask) (disk : Disk)
    → codec.IsStorable new
    → decode_file codec (disk.files (task_file dir new.id)) ≡ some old
    → All
        (λ d.
          (load_path codec (task_file dir new.id) d ≡ some old)
          ⊎ (load_path codec (task_file dir new.id) d ≡ some new))
        (save_task codec dir new disk).0
unfolding save_task load_path
save_task_crash codec dir old new disk storable readable =
    All-map (Safe (task_file dir new.id) (disk.files (task_file dir new.id)) (codec.encode new))
      (λ d.
        (load_path codec (task_file dir new.id) d ≡ some old)
        ⊎ (load_path codec (task_file dir new.id) d ≡ some new))
      (save_task codec dir new disk).0 readers
      (save_text-Safe (task_file dir new.id) (codec.encode new) disk)
  where
    readers :
        (d : Disk)
        → Safe (task_file dir new.id) (disk.files (task_file dir new.id)) (codec.encode new) d
        → (load_path codec (task_file dir new.id) d ≡ some old)
          ⊎ (load_path codec (task_file dir new.id) d ≡ some new)
    readers d (inl same) = inl (load_main codec _ d old (ap (decode_file codec) same ∙ readable))
    readers d (inr (inr (gone, kept))) = inl (
        load_bak codec _ d (ap (decode_file codec) gone ∙ decode_missing codec)
        ∙ (ap (decode_file codec) kept ∙ readable))
    readers d (inr (inl fresh)) = inr (
        load_main codec _ d new
          (ap (decode_file codec) fresh ∙ decode_file-encode codec new storable))
