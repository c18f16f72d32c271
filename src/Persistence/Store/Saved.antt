-- ===== src/Persistence/Store/Saved.antt =====
-- What a successful save leaves, and the window in which a save can lose a task.
use cget.Prelude.{
  true, if◌then◌else◌, Bool, [], ◌≡◌, refl, ◌∙◌, ap, inl, inr, false, none, some, List, ◌∷◌, Text,
  Bool-cases, Option-cases, get_elem?,
}
use cget.Core.Types.{DownloadTask}
use cget.Core.Errors.{ok}
use cget.Filesystem.Disk.{remove_file, Content, Disk, put_file, file_exists}
use cget.Filesystem.Disk.Laws.{
  file_exists-missing, NothingFails, put_file-NothingFails, remove_file-NothingFails,
  files-put_file, files-put_file_self, remove_file_frame,
}
use cget.Persistence.Store.{
  TaskCodec, task_file, bak_of, tmp_of, copy_to_backup, back_up, commit_save, backup_then_commit,
  retry_commit, write_then_commit, save_text, save_task, decode_file, load_path, load_task,
  last_disk,
}
use cget.Persistence.Store.Crash.{
  bak-ne-tmp, tmp-ne, bak-ne, load_main, load_bak, decode_file-encode, text_eq_sym,
  rename_tmp-files, remove_main-files,
}

if_false {ℓ} : {A : Type ℓ} (b : Bool) (x y : A) → b ≡ false → (if b then x else y) ≡ y
if_false true x y h = absurd (cc)
if_false false x y h = refl

module _ (path : Text) where
  -- The files after a successful end of a save: the new text is at the task file, and nothing else
  -- changed.
  abbrev Committed : Disk → Disk → Type 0
  Committed disk after =
      (after.files path ≡ disk.files (tmp_of path))
      × (after.files (bak_of path) ≡ disk.files (bak_of path))
      × (after.files (tmp_of path) ≡ none)

  retry_commit_ok :
      (past : List Disk) (disk start : Disk)
      → (retry_commit path past disk).1 ≡ ok tt
      → Committed disk (last_disk start (retry_commit path past disk).0)
  unfolding retry_commit
  retry_commit_ok past disk start h =
      elim (Bool-cases (disk.refuses path (file_exists disk path))) [
        | inl refused ↦ let stopped = rw refused at h in absurd (cc)
        | inr allowed ↦ rw allowed (rename_tmp-files path disk)
      ]

  commit_save_ok :
      (past : List Disk) (disk start : Disk)
      → (commit_save path past disk).1 ≡ ok tt
      → Committed disk (last_disk start (commit_save path past disk).0)
  unfolding commit_save
  commit_save_ok past disk start h = elim (Bool-cases (disk.refuses path (file_exists disk path))) [
    | inl refused ↦
        let (tmp, bak) = remove_main-files path disk in
        let removed = remove_file path disk in
        let (main, backup, gone) =
          retry_commit_ok (removed ∷ past) removed start (rw refused at h) in
        rw refused (main ∙ tmp, backup ∙ bak, gone)
    | inr allowed ↦ rw allowed (rename_tmp-files path disk)
  ]

  back_up_ok :
      (past : List Disk) (disk start : Disk)
      → (back_up path past disk).1 ≡ ok tt
      → let after = last_disk start (back_up path past disk).0 in
        (after.files path ≡ disk.files (tmp_of path))
        × (after.files (bak_of path) ≡ disk.files path)
        × (after.files (tmp_of path) ≡ none)
  unfolding back_up copy_to_backup
  back_up_ok past disk start h = elim (Bool-cases (disk.denied (bak_of path))) [
    | inl refused ↦ let stopped = rw (refused, back_up) at h in cc
    | inr allowed ↦
        let copied = put_file (bak_of path) (disk.files path) disk in
        let (main, bak, tmp) =
          commit_save_ok (copied ∷ (disk ∷ past)) copied start (rw (allowed, back_up) at h) in
        rw (allowed, back_up)
          (
            main ∙ rw (files-put_file, bak-ne-tmp path) refl,
            bak ∙ files-put_file_self (bak_of path) (disk.files path) disk,
            tmp,
          )
  ]

  -- A save that succeeds has opened the temporary file and written all of the text.
  opened_ok :
      (text : Content) (disk : Disk)
      → (save_text path text disk).1 ≡ ok tt
      → disk.denied (tmp_of path) ≡ false
  unfolding save_text
  opened_ok text disk h = elim (Bool-cases (disk.denied (tmp_of path))) [
    | inl refused ↦ let stopped = rw refused at h in absurd (cc)
    | inr allowed ↦ allowed
  ]

  written_ok :
      (text : Content) (disk : Disk)
      → (save_text path text disk).1 ≡ ok tt
      → disk.breaks_off (tmp_of path) text ≡ none
  unfolding save_text write_then_commit
  written_ok text disk h = elim (Option-cases (disk.breaks_off (tmp_of path) text)) [
    | inr (count, broken) ↦
        let stopped = rw (opened_ok text disk h, broken, write_then_commit) at h in absurd (cc)
    | inl whole ↦ whole
  ]

  -- Without a task file there is no backup to make.
  backup_then_commit_new :
      (past : List Disk) (disk : Disk)
      → disk.files path ≡ none
      → backup_then_commit path past disk ≡ commit_save path past disk
  unfolding backup_then_commit
  backup_then_commit_new past disk missing = if_false _ _ _ (file_exists-missing disk path missing)

  save_text_new :
      (text : Content) (disk : Disk)
      → (save_text path text disk).1 ≡ ok tt
      → disk.files path ≡ none
      → (last_disk disk (save_text path text disk).0).files path ≡ some text
  unfolding save_text write_then_commit
  save_text_new text disk h missing =
      let allowed = opened_ok text disk h in
      let whole = written_ok text disk h in
      let opened = put_file (tmp_of path) (some []) disk in
      let written = put_file (tmp_of path) (some text) opened in
      let still : written.files path ≡ none =
        rw (files-put_file, tmp-ne path) (rw (files-put_file, tmp-ne path) missing) in
      let new_file = backup_then_commit_new (written ∷ (opened ∷ [])) written still in
      rw (allowed, whole, write_then_commit, new_file)
        ((commit_save_ok _ written disk (rw (allowed, whole, write_then_commit, new_file) at h)).0
          ∙ files-put_file_self (tmp_of path) (some text) opened)

  save_text_ok :
      (text old_text : Content) (disk : Disk)
      → (save_text path text disk).1 ≡ ok tt
      → disk.files path ≡ some old_text
      → let after = last_disk disk (save_text path text disk).0 in
        (after.files path ≡ some text)
        × (after.files (bak_of path) ≡ some old_text)
        × (after.files (tmp_of path) ≡ none)
  unfolding save_text backup_then_commit file_exists write_then_commit
  save_text_ok text old_text disk h there =
      let allowed = opened_ok text disk h in
      let whole = written_ok text disk h in
      let opened = put_file (tmp_of path) (some []) disk in
      let written = put_file (tmp_of path) (some text) opened in
      let kept : written.files path ≡ some old_text =
        rw (files-put_file, tmp-ne path) (rw (files-put_file, tmp-ne path) there) in
      let removed = remove_file (bak_of path) written in
      let (main, bak, tmp) =
        back_up_ok _ removed disk (rw (allowed, whole, write_then_commit, kept) at h) in
      rw (allowed, whole, write_then_commit, kept)
        (
          main
              ∙ (remove_file_frame (bak_of path) written (tmp_of path) (bak-ne-tmp path)
                  ∙ files-put_file_self (tmp_of path) (some text) opened),
          bak ∙ (remove_file_frame (bak_of path) written path (bak-ne path) ∙ kept),
          tmp,
        )

  save_text_main :
      (text : Content) (disk : Disk)
      → (save_text path text disk).1 ≡ ok tt
      → (last_disk disk (save_text path text disk).0).files path ≡ some text
  save_text_main text disk h = elim (Option-cases (disk.files path)) [
    | inr (old, there) ↦ (save_text_ok text old disk h there).0
    | inl missing ↦ save_text_new text disk h missing
  ]

  back_up_window :
      (past : List Disk) (disk : Disk)
      → NothingFails disk
      → get_elem? (back_up path past disk).0 1
        ≡ some (put_file (bak_of path) (disk.files path) disk)
  unfolding back_up copy_to_backup commit_save put_file
  back_up_window past disk free = rw (free.denied (bak_of path), back_up, free.refuses path _) refl

  save_text_window :
      (text spoilt : Content) (disk : Disk)
      → NothingFails disk
      → disk.files path ≡ some spoilt
      → let removed =
          remove_file
            (bak_of path)
            (put_file (tmp_of path) (some text) (put_file (tmp_of path) (some []) disk)) in
        get_elem? (save_text path text disk).0 1
        ≡ some (put_file (bak_of path) (removed.files path) removed)
  unfolding save_text backup_then_commit file_exists write_then_commit
  save_text_window text spoilt disk free there =
      let opened = put_file (tmp_of path) (some []) disk in
      let written = put_file (tmp_of path) (some text) opened in
      let kept : written.files path ≡ some spoilt =
        rw (files-put_file, tmp-ne path) (rw (files-put_file, tmp-ne path) there) in
      rw (free.denied (tmp_of path), free.breaks_off (tmp_of path) text, write_then_commit, kept)
        (back_up_window _ (remove_file (bak_of path) written) (
          remove_file-NothingFails (bak_of path) written (
            put_file-NothingFails (tmp_of path) (some text) opened
              (put_file-NothingFails (tmp_of path) (some []) disk free))))

load_task_of :
    (codec : TaskCodec) (dir id : Text) (d : Disk) {task : DownloadTask}
    → load_path codec (task_file dir id) d ≡ some task
    → load_task codec dir id d ≡ ok task
unfolding load_task
load_task_of codec dir id d e = rw (e, load_task)

-- After a save over an existing task file that succeeds, a task that the codec can store is loaded as it
-- was saved; and should the task file be spoilt later, with any text that is no task, loading gives
-- what the file held before the save. With the texts of the program a task can be stored when its
-- numbers fit and are exact as `double` numbers and its times are whole seconds; the time that a save
-- stamps need not be one.
pub save_task_ok :
    (codec : TaskCodec) (dir : Text) (old new : DownloadTask) (old_text spoilt : Content)
    (disk : Disk)
    → codec.IsStorable new
    → (save_task codec dir new disk).1 ≡ ok tt
    → disk.files (task_file dir new.id) ≡ some old_text
    → decode_file codec (some old_text) ≡ some old
    → decode_file codec (some spoilt) ≡ none
    → let after = last_disk disk (save_task codec dir new disk).0 in
      (load_task codec dir new.id after ≡ ok new)
      × (load_task codec dir new.id (put_file (task_file dir new.id) (some spoilt) after) ≡ ok old)
unfolding save_task
save_task_ok codec dir old new old_text spoilt disk storable done there readable broken =
    let path = task_file dir new.id in
    let after = last_disk disk (save_text path (codec.encode new) disk).0 in
    let (main, bak, tmp) = save_text_ok path (codec.encode new) old_text disk done there in
    let hurt = put_file path (some spoilt) after in
    (
      load_task_of codec dir new.id after (
          load_main codec path after new
            (ap (decode_file codec) main ∙ decode_file-encode codec new storable)),
      load_task_of codec dir new.id hurt (
          load_bak codec path hurt
            (ap (decode_file codec) (files-put_file_self path (some spoilt) after) ∙ broken)
          ∙ (ap (decode_file codec)
                (rw (files-put_file, text_eq_sym path (bak_of path), bak-ne path) bak)
              ∙ readable)),
    )

-- A save that succeeds, whether or not there was a task file.
pub save_task_loads :
    (codec : TaskCodec) (dir : Text) (new : DownloadTask) (disk : Disk)
    → codec.IsStorable new
    → (save_task codec dir new disk).1 ≡ ok tt
    → load_task codec dir new.id (last_disk disk (save_task codec dir new disk).0) ≡ ok new
unfolding save_task
save_task_loads codec dir new disk storable done =
    let path = task_file dir new.id in
    let after = last_disk disk (save_text path (codec.encode new) disk).0 in
    let main : after.files path ≡ some (codec.encode new) =
      save_text_main path (codec.encode new) disk done in
    load_task_of codec dir new.id after (
      load_main codec path after new
        (ap (decode_file codec) main ∙ decode_file-encode codec new storable))

-- The window: when the task file is spoilt but its backup can be read, and no call of the file system
-- fails, a save
-- removes the backup and copies the spoilt file over it before the new file is in place. On the disk
-- before the last one that it goes through nothing can be loaded.
pub save_task_window :
    (codec : TaskCodec) (dir : Text) (old new : DownloadTask) (spoilt : Content) (disk : Disk)
    → disk.files (task_file dir new.id) ≡ some spoilt
    → decode_file codec (some spoilt) ≡ none
    → load_task codec dir new.id disk ≡ ok old
    → NothingFails disk
    → (lost : Disk) × (get_elem? (save_task codec dir new disk).0 1 ≡ some lost)
      × (load_path codec (task_file dir new.id) lost ≡ none)
unfolding save_task
save_task_window codec dir old new spoilt disk there broken loads free =
    let path = task_file dir new.id in
    let opened = put_file (tmp_of path) (some []) disk in
    let written = put_file (tmp_of path) (some (codec.encode new)) opened in
    let removed = remove_file (bak_of path) written in
    let lost = put_file (bak_of path) (removed.files path) removed in
    let kept : written.files path ≡ some spoilt =
      rw (files-put_file, tmp-ne path) (rw (files-put_file, tmp-ne path) there) in
    let main = remove_file_frame (bak_of path) written path (bak-ne path) ∙ kept in
    let still : lost.files path ≡ some spoilt = rw (files-put_file, bak-ne) main in
    (
      lost,
      save_text_window path (codec.encode new) spoilt disk free there,
      load_bak codec path lost (ap (decode_file codec) still ∙ broken)
          ∙ (ap (decode_file codec)
                (files-put_file_self (bak_of path) (removed.files path) removed ∙ main)
              ∙ broken),
    )
