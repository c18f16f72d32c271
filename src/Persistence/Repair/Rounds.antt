-- ===== src/Persistence/Repair/Rounds.antt =====
-- What one round of the repair does, and the loop over the chunks.
use cget.Prelude.{
  ◌⊎◌, ◌≢◌, ◌==◌, ==_iff, ℕ, ◌≤◌, ◌≡◌, refl, sym, ◌∙◌, ap, inl, inr, false, List, [], ◌∷◌, Text,
  text_eq, ltb, length, arith, Bool-cases, All, All-map, subst, ltb→lt, ltb-false,
}
use cget.Core.Types.{ChunkStatus, Chunk, DownloadTask, chunk_size}
use cget.Core.Errors.{Result, ok, >>=-eq-ok, ok-injective}
use cget.Filesystem.Paths.{chunk_path, part_path}
use cget.Filesystem.Disk.{Disk, file_size, truncate_file, content_of}
use cget.Filesystem.Disk.Laws.{truncate_file_lem}
use cget.Persistence.Repair.{set_progress, repaired_status, repair_chunk, repair_chunks}

-- The status of a chunk of which `count` of `size` bytes are on the disk.
abbrev pub Shows : ChunkStatus → ℕ → ℕ → Type 0
Shows status count size =
    ((count ≡ size) × (status ≡ ChunkStatus.completed))
    ⊎ (((count ≡ 0) × (count ≢ size) × (status ≡ ChunkStatus.pending))
        ⊎ ((count ≢ 0) × (count ≢ size) × (status ≡ ChunkStatus.paused)))

repaired_status-Shows : (count size : ℕ) → Shows (repaired_status count size) count size
unfolding repaired_status
repaired_status-Shows count size = elim (Bool-cases (count == size)) [
  | inl whole ↦ rw whole (inl ((==_iff count size).0 whole, refl))
  | inr part ↦
      let less : count ≢ size = λ e. absurd (ground (arith, part, e)) in
      elim (Bool-cases (count == 0)) [
        | inl nothing ↦ rw (part, nothing) (inr (inl ((==_iff count 0).0 nothing, less, refl)))
        | inr begun ↦
            rw (part, begun) (inr (inr (λ e. absurd (ground (arith, begun, e)), less, refl)))
      ]
]

-- The chunk's record agrees with its part file: as many bytes as the file has, not more than the
-- chunk has; and it is Completed when they are all there, Pending when there is none of them, and
-- Paused otherwise.
pub record Agrees (task : DownloadTask) (disk : Disk) (c : Chunk) : Type 0 where
  pub path : Text
  pub named : chunk_path task c ≡ ok path
  pub stored : c.downloaded ≡ file_size disk path
  pub within : c.downloaded ≤ chunk_size c
  pub shown : Shows c.status c.downloaded (chunk_size c)

-- What one round does: the chunk agrees with the new disk, and only its own part file changed.
pub record Repaired (task : DownloadTask) (disk : Disk) (c : Chunk) (r : Chunk × Disk)
    : Type 0 where
  pub agrees : Agrees task (r.1) (r.0)
  pub same_place : chunk_path task (r.0) ≡ chunk_path task c
  pub frame :
      (p q : Text) → chunk_path task c ≡ ok p → text_eq p q ≡ false → (r.1).files q ≡ disk.files q

set_progress_same :
    (task : DownloadTask) (c : Chunk) (n : ℕ)
    → (chunk_path task (set_progress c n) ≡ chunk_path task c)
      × (chunk_size (set_progress c n) ≡ chunk_size c)
      × ((set_progress c n).downloaded ≡ n)
      × ((set_progress c n).status ≡ repaired_status n (chunk_size c))
unfolding set_progress chunk_path part_path chunk_size
set_progress_same task c n = (refl, refl, refl, refl)

same_path : (r : Result Text) (p q : Text) → r ≡ ok p → r ≡ ok q → p ≡ q
same_path r p q e f = cc

progress-Repaired :
    (task : DownloadTask) (disk disk' : Disk) (c : Chunk) (path : Text) (n : ℕ)
    → chunk_path task c ≡ ok path
    → n ≡ file_size disk' path
    → n ≤ chunk_size c
    → ((q : Text) → text_eq path q ≡ false → disk'.files q ≡ disk.files q)
    → Repaired task disk c (set_progress c n, disk')
progress-Repaired task disk disk' c path n named stored within frame =
    let (place, size, count, shown) = set_progress_same task c n in
    record {
      agrees = record {
        path = path;
        named = place ∙ named;
        stored = count ∙ stored;
        within = omega (arith, count, size);
        shown =
            subst
              (λ (s : ChunkStatus).
                Shows s (set_progress c n).downloaded (chunk_size (set_progress c n)))
              (cc (shown, count, size))
              (repaired_status-Shows (set_progress c n).downloaded (chunk_size (set_progress c n)));
      };
      same_place = place;
      frame = λ p q e d.
          frame q (ap (λ t. text_eq t q) (same_path (chunk_path task c) path p named e) ∙ d);
    }

repair_chunk-Repaired :
    (task : DownloadTask) (disk : Disk) (c : Chunk) (r : Chunk × Disk)
    → repair_chunk task disk c ≡ ok r
    → Repaired task disk c r
unfolding repair_chunk
repair_chunk-Repaired task disk c r h =
    let (path, named, rest) = >>=-eq-ok (chunk_path task c) _ h in
    elim (Bool-cases (ltb (chunk_size c) (file_size disk path))) [
      | inl long ↦
          let (cut, done, last) =
            >>=-eq-ok (truncate_file disk path (chunk_size c)) _ (rw long at rest) in
          let (exact, frame) =
            truncate_file_lem disk cut path (chunk_size c) done (ltb→lt _ _ long) in
          subst (Repaired task disk c) (ok-injective last) (
            progress-Repaired task disk cut c path (chunk_size c) named (sym exact) (omega arith)
              frame)
      | inr short ↦ subst (Repaired task disk c) (ok-injective (rw short at rest)) (
          progress-Repaired task disk disk c path (file_size disk path) named refl
            (ltb-false _ _ short) (λ q _. refl))
    ]

-- The part files of the chunks have different paths.
abbrev pub DistinctPaths : DownloadTask → List Chunk → Type 0
DistinctPaths task [] = Unit
DistinctPaths task (c ∷ cs) =
    All
      (λ d.
        (p q : Text) → chunk_path task c ≡ ok p → chunk_path task d ≡ ok q → text_eq q p ≡ false)
      cs
    × DistinctPaths task cs

-- Another part file than those of the chunks stays as it is.
pub repair_chunks_frame :
    (task : DownloadTask) (disk : Disk) (cs : List Chunk) (r : List Chunk × Disk) (q : Text)
    → repair_chunks task disk cs ≡ ok r
    → All (λ d. (p : Text) → chunk_path task d ≡ ok p → text_eq p q ≡ false) cs
    → (r.1).files q ≡ disk.files q
unfolding repair_chunks
repair_chunks_frame task disk [] r q h d =
    ap (λ (x : List Chunk × Disk). (x.1).files q) (sym (ok-injective h))
repair_chunks_frame task disk (c ∷ cs) r q h d =
    let (first, one, rest) = >>=-eq-ok (repair_chunk task disk c) _ h in
    let (more, many, last) = >>=-eq-ok (repair_chunks task first.1 cs) _ rest in
    let fixed = repair_chunk-Repaired task disk c first one in
    let place = sym fixed.same_place ∙ fixed.agrees.named in
    ap (λ (x : List Chunk × Disk). (x.1).files q) (sym (ok-injective last))
    ∙ (repair_chunks_frame task first.1 cs more q many d.1
        ∙ fixed.frame fixed.agrees.path q place (d.0 fixed.agrees.path place))

Agrees-frame :
    (task : DownloadTask) (disk disk' : Disk) (c : Chunk) (a : Agrees task disk c)
    → disk'.files a.path ≡ disk.files a.path
    → Agrees task disk' c
unfolding file_size
Agrees-frame task disk disk' c a same = record {
  path = a.path;
  named = a.named;
  stored = a.stored ∙ ap (λ o. length (content_of o)) (sym same);
  within = a.within;
  shown = a.shown;
}

pub repair_chunks-Agrees :
    (task : DownloadTask) (disk : Disk) (cs : List Chunk) (r : List Chunk × Disk)
    → repair_chunks task disk cs ≡ ok r
    → DistinctPaths task cs
    → All (Agrees task (r.1)) (r.0)
unfolding repair_chunks
repair_chunks-Agrees task disk [] r h d =
    subst (λ (x : List Chunk × Disk). All (Agrees task (x.1)) (x.0)) (ok-injective h) tt
repair_chunks-Agrees task disk (c ∷ cs) r h d =
    let (first, one, rest) = >>=-eq-ok (repair_chunk task disk c) _ h in
    let (more, many, last) = >>=-eq-ok (repair_chunks task first.1 cs) _ rest in
    let fixed = repair_chunk-Repaired task disk c first one in
    let path = fixed.agrees.path in
    let place = sym fixed.same_place ∙ fixed.agrees.named in
    let kept = repair_chunks_frame task first.1 cs more path many (
      All-map
        (λ d.
          (p q : Text) → chunk_path task c ≡ ok p → chunk_path task d ≡ ok q → text_eq q p ≡ false)
        (λ d. (p : Text) → chunk_path task d ≡ ok p → text_eq p path ≡ false) cs
        (λ d f q e. f path q place e) d.0) in
    subst (λ (x : List Chunk × Disk). All (Agrees task (x.1)) (x.0)) (ok-injective last)
      (
        Agrees-frame task first.1 more.1 first.0 fixed.agrees kept,
        repair_chunks-Agrees task first.1 cs more many d.1,
      )
