-- ===== src/Scheduler/Selection.antt =====
-- Which chunk a pass picks.
use cget.Prelude.{
  ◌||◌, ltb, ◌⊎◌, ◌≤◌, ◌-◌, ◌%◌, ◌^◌, All, ℕ, zero, suc, ◌+◌, ◌<◌, ◌≡◌, refl, sym, subst, ◌∙◌, ap,
  inl, inr, true, false, Option, none, some, List, [], ◌∷◌, any_of, arith, Bool-cases,
}
use cget.Core.Types.{ChunkStatus, DownloadTask, Chunk, chunk_size}
use cget.Core.Types.Names.{chunk_status_eq}
use cget.Scheduler.Defs.{is_schedulable_chunk, select_from, select_next_chunk}

-- The chunk at position `i` can be scheduled and none before it can; or no chunk can.
abbrev IsFirst : List Chunk → Option ℕ → Type 0
IsFirst cs none = any_of is_schedulable_chunk cs ≡ false
IsFirst [] (some i) = ⊥
IsFirst (c ∷ cs) (some zero) = is_schedulable_chunk c ≡ true
IsFirst (c ∷ cs) (some (suc i)) = (is_schedulable_chunk c ≡ false) × IsFirst cs (some i)

abbrev shift : ℕ → Option ℕ → Option ℕ
shift k none = none
shift k (some i) = some (k + i)

abbrev Selects : ℕ → List Chunk → Option ℕ → Type 0
Selects k cs r = (o : Option ℕ) × (r ≡ shift k o) × IsFirst cs o

Selects-skip :
    (k : ℕ) (c : Chunk) (cs : List Chunk) (r : Option ℕ)
    → is_schedulable_chunk c ≡ false
    → Selects (k + 1) cs r
    → Selects k (c ∷ cs) r
Selects-skip k c cs r bad (none, e, first) = (none, e, rw bad first)
Selects-skip k c cs r bad (some i, e, first) =
    (some (suc i), e ∙ ap some (omega arith), (bad, first))

select_from-Selects : (k : ℕ) (cs : List Chunk) → Selects k cs (select_from k cs)
unfolding select_from
select_from-Selects k [] = (none, refl, refl)
select_from-Selects k (c ∷ cs) = elim (Bool-cases (is_schedulable_chunk c)) [
  | inl good ↦ (some 0, rw good (ap some (omega arith)), good)
  | inr bad ↦ rw bad (Selects-skip k c cs _ bad (select_from-Selects (k + 1) cs))
]

Selects-zero : (cs : List Chunk) (r : Option ℕ) → Selects 0 cs r → IsFirst cs r
Selects-zero cs r (none, e, first) = subst (IsFirst cs) (sym e) first
Selects-zero cs r (some i, e, first) = subst (IsFirst cs) (sym (e ∙ ap some (omega arith))) first

select_next_chunk-IsFirst : (t : DownloadTask) → IsFirst t.chunks (select_next_chunk t)
unfolding select_next_chunk
select_next_chunk-IsFirst t = Selects-zero t.chunks _ (select_from-Selects 0 t.chunks)

-- A chunk that waits for a worker: it is Pending, Paused or Failed, its range is not turned around, and
-- bytes of it are missing, where the bytes of the range are counted in 64 bits.
pub record Waits (c : Chunk) : Type 0 where
  pub idle :
      (c.status ≡ ChunkStatus.pending)
      ⊎ ((c.status ≡ ChunkStatus.paused) ⊎ (c.status ≡ ChunkStatus.failed))
  pub range : c.start ≤ c.end
  pub missing : c.downloaded < (c.end + 1 - c.start) % 2 ^ 64

idle_status :
    (s : ChunkStatus)
    → (chunk_status_eq s ChunkStatus.pending
        || chunk_status_eq s ChunkStatus.paused
        || chunk_status_eq s ChunkStatus.failed)
      ≡ true
    → (s ≡ ChunkStatus.pending) ⊎ ((s ≡ ChunkStatus.paused) ⊎ (s ≡ ChunkStatus.failed))
idle_status ChunkStatus.pending h = inl refl
idle_status ChunkStatus.downloading h = absurd (cc)
idle_status ChunkStatus.paused h = inr (inl refl)
idle_status ChunkStatus.completed h = absurd (cc)
idle_status ChunkStatus.failed h = inr (inr refl)

busy_status :
    (s : ChunkStatus)
    → (s ≡ ChunkStatus.pending) ⊎ ((s ≡ ChunkStatus.paused) ⊎ (s ≡ ChunkStatus.failed))
    → (chunk_status_eq s ChunkStatus.pending
        || chunk_status_eq s ChunkStatus.paused
        || chunk_status_eq s ChunkStatus.failed)
      ≡ true
busy_status s (inl e) = rw e refl
busy_status s (inr (inl e)) = rw e refl
busy_status s (inr (inr e)) = rw e refl

is_schedulable_chunk-Waits : (c : Chunk) → is_schedulable_chunk c ≡ true → Waits c
unfolding is_schedulable_chunk chunk_size
is_schedulable_chunk-Waits c h = elim (Bool-cases (ltb c.downloaded (chunk_size c))) [
  | inr full ↦ absurd (ground (arith, h, full))
  | inl short ↦ record {
    idle = idle_status c.status (ground (arith, h, short));
    range = ground (arith, short);
    missing = ground (arith, short);
  }
]

pub Waits-is_schedulable_chunk : (c : Chunk) → Waits c → is_schedulable_chunk c ≡ true
unfolding is_schedulable_chunk chunk_size
Waits-is_schedulable_chunk c w =
    let size : ltb c.downloaded (chunk_size c) ≡ true = ground (arith, w.range, w.missing) in
    rw (size, busy_status c.status w.idle) refl

-- A chunk waits at position `i` and none before it; or no chunk waits.
abbrev pub FirstWaiting : List Chunk → Option ℕ → Type 0
FirstWaiting cs none = All (λ c. ¬ Waits c) cs
FirstWaiting [] (some i) = ⊥
FirstWaiting (c ∷ cs) (some zero) = Waits c
FirstWaiting (c ∷ cs) (some (suc i)) = (¬ Waits c) × FirstWaiting cs (some i)

not_waiting : (c : Chunk) → is_schedulable_chunk c ≡ false → ¬ Waits c
not_waiting c bad = λ w. let good = Waits-is_schedulable_chunk c w in absurd (cc)

any_of_none : (cs : List Chunk) → any_of is_schedulable_chunk cs ≡ false → All (λ c. ¬ Waits c) cs
any_of_none [] h = tt
any_of_none (c ∷ cs) h = elim (Bool-cases (is_schedulable_chunk c)) [
  | inl good ↦ let found = rw good at h in absurd (cc)
  | inr bad ↦ (not_waiting c bad, any_of_none cs (rw bad at h))
]

IsFirst-FirstWaiting : (cs : List Chunk) (o : Option ℕ) → IsFirst cs o → FirstWaiting cs o
IsFirst-FirstWaiting cs none h = any_of_none cs h
IsFirst-FirstWaiting [] (some i) h = absurd h
IsFirst-FirstWaiting (c ∷ cs) (some zero) h = is_schedulable_chunk-Waits c h
IsFirst-FirstWaiting (c ∷ cs) (some (suc i)) (bad, h) =
    (not_waiting c bad, IsFirst-FirstWaiting cs (some i) h)

-- `selectNextChunk` returns the position of the first chunk that waits for a worker: one that is Pending,
-- Paused or Failed, whose range is not turned around and of which bytes are missing. It returns no
-- position exactly when no chunk is such.
pub select_next_chunk-FirstWaiting :
    (t : DownloadTask) → FirstWaiting t.chunks (select_next_chunk t)
select_next_chunk-FirstWaiting t = IsFirst-FirstWaiting t.chunks _ (select_next_chunk-IsFirst t)
