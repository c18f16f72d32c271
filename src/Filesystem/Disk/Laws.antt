-- ===== src/Filesystem/Disk/Laws.antt =====
-- Reading a disk after a write or a removal, the calls that fail on it, and the sizes that a truncation
-- leaves.
use cget.Prelude.{
  Bool, some, none, arith, ℕ, zero, suc, ◌≡◌, refl, sym, ◌∙◌, Bool-cases, inl, inr, false, ◌<◌,
  Option, ◌⊎◌, [], ◌∷◌, Text, text_eq, text_eq_refl, if◌then◌else◌, length, ap,
}
use cget.Core.Errors.{ok}
use cget.Filesystem.Disk.{
  file_exists, remove_file, content_of, truncate_content, truncate_file, file_size, Content, Disk,
  put_file, resize,
}

pub files-put_file :
    (path p : Text) (content : Option Content) (disk : Disk)
    → (put_file path content disk).files p ≡ (if text_eq path p then content else disk.files p)
unfolding put_file
files-put_file path p content disk = refl

pub files-put_file_self :
    (path : Text) (content : Option Content) (disk : Disk)
    → (put_file path content disk).files path ≡ content
files-put_file_self path content disk = rw (files-put_file, text_eq_refl path)

-- Writing and removing a file do not change which calls fail.
pub put_file_same :
    (path : Text) (content : Option Content) (disk : Disk)
    → ((put_file path content disk).denied ≡ disk.denied)
      × ((put_file path content disk).refuses ≡ disk.refuses)
      × ((put_file path content disk).breaks_off ≡ disk.breaks_off)
unfolding put_file
put_file_same path content disk = (refl, refl, refl)

pub remove_file_same :
    (path : Text) (disk : Disk)
    → ((remove_file path disk).denied ≡ disk.denied)
      × ((remove_file path disk).refuses ≡ disk.refuses)
      × ((remove_file path disk).breaks_off ≡ disk.breaks_off)
unfolding remove_file
remove_file_same path disk = elim (Bool-cases (disk.denied path)) [
  | inl refused ↦ rw refused (refl, refl, refl)
  | inr allowed ↦ rw allowed (put_file_same path none disk)
]

-- A removed file is gone, or it is still there when removing it is refused.
pub remove_file_self :
    (path : Text) (disk : Disk)
    → ((remove_file path disk).files path ≡ disk.files path)
      ⊎ ((remove_file path disk).files path ≡ none)
unfolding remove_file
remove_file_self path disk = elim (Bool-cases (disk.denied path)) [
  | inl refused ↦ inl (rw refused refl)
  | inr allowed ↦ inr (rw allowed (files-put_file_self path none disk))
]

pub remove_file_frame :
    (path : Text) (disk : Disk) (q : Text)
    → text_eq path q ≡ false
    → (remove_file path disk).files q ≡ disk.files q
unfolding remove_file
remove_file_frame path disk q other = elim (Bool-cases (disk.denied path)) [
  | inl refused ↦ rw refused refl
  | inr allowed ↦ rw (allowed, files-put_file, other) refl
]

pub length-resize : (n : ℕ) (bytes : Content) → length (resize n bytes) ≡ n
unfolding resize
length-resize zero bytes = refl
length-resize (suc n) [] = ap suc (length-resize n [])
length-resize (suc n) (b ∷ bytes) = ap suc (length-resize n bytes)

-- A file that was longer has the new size after a truncation, and no other file changes.
truncate_content_lem :
    (disk disk' : Disk) (path : Text) (size : ℕ) (content : Option Content)
    → truncate_content disk path size content ≡ ok disk'
    → size < length (content_of content)
    → (length (content_of (disk'.files path)) ≡ size)
      × ((q : Text) → text_eq path q ≡ false → disk'.files q ≡ disk.files q)
unfolding truncate_content
truncate_content_lem disk disk' path size none h lt = absurd (omega arith)
truncate_content_lem disk disk' path size (some bytes) h lt = elim (Bool-cases (disk.denied path)) [
  | inl refused ↦ let no_result = rw refused at h in cc
  | inr allowed ↦
      let cut : put_file path (some (resize size bytes)) disk ≡ disk' = ground arith in
      (
        ap (λ (d : Disk). length (content_of (d.files path))) (sym cut)
            ∙ (ap (λ o. length (content_of o))
                  (files-put_file_self path (some (resize size bytes)) disk)
                ∙ length-resize size bytes),
        λ q other. ap (λ (d : Disk). d.files q) (sym cut) ∙ rw (files-put_file, other),
      )
]

pub truncate_file_lem :
    (disk disk' : Disk) (path : Text) (size : ℕ)
    → truncate_file disk path size ≡ ok disk'
    → size < file_size disk path
    → (file_size disk' path ≡ size)
      × ((q : Text) → text_eq path q ≡ false → disk'.files q ≡ disk.files q)
unfolding truncate_file file_size
truncate_file_lem disk disk' path size h lt =
    truncate_content_lem disk disk' path size (disk.files path) h lt

pub file_exists-missing :
    (disk : Disk) (p : Text) → disk.files p ≡ none → file_exists disk p ≡ false
unfolding file_exists
file_exists-missing disk p missing = rw missing

-- No call of the file system fails.
pub record NothingFails (disk : Disk) : Type 0 where
  pub denied : (p : Text) → disk.denied p ≡ false
  pub refuses : (p : Text) (there : Bool) → disk.refuses p there ≡ false
  pub breaks_off : (p : Text) (text : Content) → disk.breaks_off p text ≡ none

pub put_file-NothingFails :
    (path : Text) (c : Option Content) (disk : Disk)
    → NothingFails disk
    → NothingFails (put_file path c disk)
put_file-NothingFails path c disk free =
    let (denied, refuses, breaks_off) = put_file_same path c disk in
    record {
      denied = λ p. rw denied (free.denied p);
      refuses = λ p there. rw refuses (free.refuses p there);
      breaks_off = λ p text. rw breaks_off (free.breaks_off p text);
    }

pub remove_file-NothingFails :
    (path : Text) (disk : Disk) → NothingFails disk → NothingFails (remove_file path disk)
remove_file-NothingFails path disk free =
    let (denied, refuses, breaks_off) = remove_file_same path disk in
    record {
      denied = λ p. rw denied (free.denied p);
      refuses = λ p there. rw refuses (free.refuses p there);
      breaks_off = λ p text. rw breaks_off (free.breaks_off p text);
    }
