-- ===== src/Filesystem/Merge/Whole.antt =====
-- What a merge leaves at the target path.
use cget.Prelude.{
  ℕ, ◌≡◌, ◌≢◌, refl, ◌∙◌, ap, inl, inr, false, none, some, List, [], ◌∷◌, ◌++◌, Text, str, text_eq,
  ◌⊎◌, Bool, ◌==◌, ==_iff, text_eq_iff, ==_refl, length, length-append, arith, Bool-cases,
}
use mathlib.Core.List.{append_assoc, append-nil}
use cget.Core.Types.{Chunk}
use cget.Core.Errors.{Result, ok, err}
use cget.Filesystem.Paths.{part_path}
use cget.Filesystem.Disk.{Content, Disk, remove_file, put_file, file_exists}
use cget.Filesystem.Disk.Laws.{
  files-put_file, files-put_file_self, put_file_same, remove_file_same, remove_file_self,
  remove_file_frame,
}
use cget.Filesystem.Merge.{
  read_part, append_parts, temp_target, commit_merge, finish_merge, merge_chunks,
}

-- The part files of the chunks, in their order, are there and hold these bytes.
abbrev pub Parts : Disk → Text → List Chunk → Content → Type 0
Parts disk temp_dir [] bytes = bytes ≡ []
Parts disk temp_dir (c ∷ cs) bytes =
    (path : Text) × (part : Content) × (rest : Content) × (part_path temp_dir c ≡ ok path)
    × (disk.files path ≡ some part)
    × Parts disk temp_dir cs rest
    × (bytes ≡ part ++ rest)

Parts-append_parts :
    (disk : Disk) (temp_dir : Text) (cs : List Chunk) (bytes out : Content)
    → Parts disk temp_dir cs bytes
    → append_parts disk temp_dir cs out ≡ (out ++ bytes, ok tt)
unfolding append_parts read_part
Parts-append_parts disk temp_dir [] bytes out e = rw (e, append-nil out)
Parts-append_parts disk temp_dir (c ∷ cs) bytes out (path, part, rest, named, there, more, e) =
    rw (named, there, e, append_parts, read_part)
      (Parts-append_parts disk temp_dir cs rest (out ++ part) more
        ∙ rw (append_assoc out part rest))

suffix_length : length (str ".cget.tmp") ≡ 9
unfolding str
suffix_length = refl

-- The temporary output is another file than the target.
pub temp_target-ne : (path : Text) → text_eq (temp_target path) path ≡ false
temp_target-ne path = elim (Bool-cases (text_eq (temp_target path) path)) [
  | inl same ↦ absurd (
      omega (
        arith,
        ap length ((text_eq_iff (temp_target path) path).0 same),
        length-append path (str ".cget.tmp"),
        suffix_length,
      ))
  | inr other ↦ other
]

target-ne-temp : (path : Text) → text_eq path (temp_target path) ≡ false
target-ne-temp path = ground (
  arith,
  temp_target-ne path,
  text_eq_iff path (temp_target path),
  text_eq_iff (temp_target path) path,
)

-- The disk once the temporary output is open, which empties it.
abbrev pub opened : Disk → Text → Disk
opened disk target_path = put_file (temp_target target_path) (some []) disk

commit_merge_whole :
    (disk : Disk) (target_path : Text) (out : Content)
    → ((there : Bool) → disk.refuses target_path there ≡ false)
    → let (done, after) = commit_merge disk target_path out in
      (done ≡ ok tt)
      × (after.files target_path ≡ some out)
      × (after.files (temp_target target_path) ≡ none)
unfolding commit_merge
commit_merge_whole disk target_path out movable =
    let removed = remove_file target_path disk in
    let moved = put_file target_path (some out) removed in
    let free : removed.refuses target_path (file_exists removed target_path) ≡ false =
      rw (remove_file_same target_path disk).1 (movable _) in
    rw free (
      refl,
      rw (files-put_file, temp_target-ne target_path)
          (files-put_file_self target_path (some out) removed),
      files-put_file_self (temp_target target_path) none moved,
    )

-- When the part files are there while the temporary output is open, and have the expected size
-- together, and neither opening the temporary output nor renaming to the target fails, the merge
-- succeeds: the target holds the parts in the order of the chunks, and the temporary file is gone.
pub merge_chunks_whole :
    (disk : Disk) (chunks : List Chunk) (temp_dir target_path : Text) (bytes : Content)
    → Parts (opened disk target_path) temp_dir chunks bytes
    → disk.denied (temp_target target_path) ≡ false
    → ((there : Bool) → disk.refuses target_path there ≡ false)
    → let (done, after) = merge_chunks disk chunks temp_dir target_path (length bytes) in
      (done ≡ ok tt)
      × (after.files target_path ≡ some bytes)
      × (after.files (temp_target target_path) ≡ none)
unfolding merge_chunks finish_merge
merge_chunks_whole disk chunks temp_dir target_path bytes parts writable movable =
    let read = Parts-append_parts (opened disk target_path) temp_dir chunks bytes [] parts in
    let written = put_file (temp_target target_path) (some bytes) disk in
    rw (writable, read, ==_refl (length bytes))
      (commit_merge_whole written target_path bytes
        (λ there. rw (put_file_same (temp_target target_path) (some bytes) disk).1 (movable there)))

-- What a failed merge leaves: the target is as it was; or it is gone, and the temporary output holds all
-- the bytes of the parts, as many as expected.
abbrev pub Unmoved : Disk → Text → ℕ → Content × Result (Unit {0}) → Disk → Type 0
Unmoved disk target_path size read after =
    (after.files target_path ≡ disk.files target_path)
    ⊎ ((after.files target_path ≡ none)
        × (after.files (temp_target target_path) ≡ some read.0)
        × (length read.0 ≡ size)
        × (read.1 ≡ ok tt))

finish_merge_failed :
    (disk : Disk) (target_path : Text) (size : ℕ) (read : Content × Result (Unit {0}))
    → (finish_merge disk target_path size read).0 ≢ ok tt
    → Unmoved disk target_path size read (finish_merge disk target_path size read).1
unfolding finish_merge commit_merge
finish_merge_failed disk target_path size (out, err e) h =
    inl (rw (files-put_file, temp_target-ne target_path))
finish_merge_failed disk target_path size (out, ok _) h =
    let written = put_file (temp_target target_path) (some out) disk in
    let removed = remove_file target_path written in
    let kept : written.files target_path ≡ disk.files target_path =
      rw (files-put_file, temp_target-ne target_path) refl in
    elim (Bool-cases (length out == size)) [
      | inr other ↦ rw other (inl kept)
      | inl same ↦
          elim (Bool-cases (removed.refuses target_path (file_exists removed target_path))) [
            | inr allowed ↦ absurd ((rw (same, allowed) at h) refl)
            | inl refused ↦
                rw (same, refused)
                  (elim (remove_file_self target_path written) [
                    | inl there ↦ inl (there ∙ kept)
                    | inr gone ↦ inr (
                      gone,
                      remove_file_frame target_path written (temp_target target_path)
                            (target-ne-temp target_path)
                          ∙ files-put_file_self (temp_target target_path) (some out) disk,
                      (==_iff _ _).0 same,
                      refl,
                    )
                  ])
          ]
    ]

-- A merge that fails leaves the target as it was, or it has removed the target and could not rename the
-- output to it: then the target is gone, every part was read, and the temporary output holds their
-- bytes, as many as expected.
pub merge_chunks_failed :
    (disk : Disk) (chunks : List Chunk) (temp_dir target_path : Text) (size : ℕ)
    → (merge_chunks disk chunks temp_dir target_path size).0 ≢ ok tt
    → Unmoved disk target_path size
        (append_parts (opened disk target_path) temp_dir chunks [])
        (merge_chunks disk chunks temp_dir target_path size).1
unfolding merge_chunks
merge_chunks_failed disk chunks temp_dir target_path size h =
    elim (Bool-cases (disk.denied (temp_target target_path))) [
      | inl refused ↦ rw refused (inl refl)
      | inr writable ↦ rw writable (
          finish_merge_failed disk target_path size
            (append_parts (opened disk target_path) temp_dir chunks [])
            (rw (writable, merge_chunks) at h))
    ]
