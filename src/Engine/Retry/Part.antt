-- ===== src/Engine/Retry/Part.antt =====
-- Beginnings of texts, and what the operations of a worker do to its part file.
use cget.Prelude.{
  ℕ, zero, suc, ◌-◌, ◌≡◌, refl, sym, ◌∙◌, ap, ◌≤◌, ◌<◌, Option, none, some, List, [], ◌∷◌, ◌++◌,
  Text, length, take, drop, length-append, arith,
}
use mathlib.Core.List.{append-nil}
use cget.Filesystem.Paths.{chunk_path, part_path}
use cget.Filesystem.Disk.{Content, content_of, Disk}
use cget.Filesystem.Disk.Laws.{files-put_file_self}
use cget.Network.Http.{Block}
use cget.Engine.Session.{Session, Context, persist_task}
use cget.Engine.Retry.{append_file}

-- The bytes of the blocks of a transfer.
abbrev pub body : List Block → Content
body [] = []
body (b ∷ bs) = b.bytes ++ body bs

-- `xs` is the beginning of `ys`.
abbrev pub Begins : Content → Content → Type 0
Begins xs ys = (rest : Content) × (xs ++ rest ≡ ys)

-- Whatever follows a beginning is what is left of the text.
pub rest_of_take :
    (xs rest ys : Content) (n m : ℕ)
    → m ≡ n - length xs
    → xs ++ rest ≡ take n ys
    → rest ≡ take m (drop (length xs) ys)
rest_of_take [] rest ys n m e h = let same : n ≡ m = omega arith in h ∙ ap (λ i. take i ys) same
rest_of_take (x ∷ xs) rest ys zero m e h = cc
rest_of_take (x ∷ xs) rest [] (suc n) m e h = cc
rest_of_take (x ∷ xs) rest (y ∷ ys) (suc n) m e h = rest_of_take xs rest ys n m (omega arith) cc

pub all_of_it :
    (o : Option Content) (whole : Content)
    → Begins (content_of o) whole
    → length whole ≤ length (content_of o)
    → 0 < length whole
    → o ≡ some whole
all_of_it none whole h le pos = absurd (omega arith)
all_of_it (some xs) whole ([], h) le pos = ap some (sym (append-nil xs) ∙ h)
all_of_it (some xs) whole (y ∷ ys, h) le pos =
    absurd (omega (arith, ap length h, length-append xs (y ∷ ys)))

pub held-append_file :
    (path : Text) (bytes : Content) (disk : Disk)
    → content_of ((append_file path bytes disk).files path) ≡ content_of (disk.files path) ++ bytes
unfolding append_file
held-append_file path bytes disk = ap content_of (files-put_file_self path _ disk)

-- The place of the part file does not depend on the counts.
pub chunk_path-counts :
    (s : Session) (m n : ℕ)
    → chunk_path (record s.task { downloaded = n }) (record s.chunk { downloaded = m })
      ≡ chunk_path s.task s.chunk
unfolding chunk_path part_path
chunk_path-counts s m n = refl

pub persist_task_disk : (ctx : Context) (s : Session) → (persist_task ctx s).0.disk ≡ s.disk
unfolding persist_task
persist_task_disk ctx s = refl
