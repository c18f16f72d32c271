-- ===== src/Core/ChunkPlanner/Cover.antt =====
-- The chunks of a plan tile the file, and each has a part file of its own.
use native.Mathlib.Nat.{div-add-mod, div-eq-sub-div}
use cget.Prelude.{
  ℕ, zero, suc, ◌+◌, ◌*◌, ◌/◌, ◌≤◌, ◌<◌, ◌≡◌, refl, sym, inl, inr, List, [], ◌∷◌, arith, u64,
  u64_mod, ◌==◌, Bool-cases, length, Text, str, ◌++◌, ap, ==_iff, get_elem?, some,
}
use cget.Prelude.Decimal.{to_string, to_string-injective}
use mathlib.Core.Option.{some-injective}
use mathlib.Core.List.{append_cancel_left, append_cancel_right}
use cget.Core.Types.{Chunk, chunk_size}
use cget.Core.ChunkPlanner.{plan_threads, plan_from, planned_chunk, planned_end, plan}

-- The chunks are not empty, and each begins where the one before it ends.
abbrev pub Tiles : ℕ → List Chunk → ℕ → Type 0
Tiles a [] b = a ≡ b
Tiles a (c ∷ cs) b = (c.start ≡ a) × (c.start ≤ c.end) × Tiles (c.end + 1) cs b

abbrev pub total_size : List Chunk → ℕ
total_size [] = 0
total_size (c ∷ cs) = chunk_size c + total_size cs

pub Tiles-le : (a : ℕ) (cs : List Chunk) (b : ℕ) → Tiles a cs b → a ≤ b
Tiles-le a [] b h = omega arith
Tiles-le a (c ∷ cs) b h = omega (arith, Tiles-le (c.end + 1) cs b h.2)

-- Chunks that tile have sizes that add up to the length of the range.
pub Tiles-total_size :
    (a : ℕ) (cs : List Chunk) (b : ℕ) → Tiles a cs b → b < u64_mod → a + total_size cs ≡ b
unfolding chunk_size
Tiles-total_size a [] b h lt = omega arith
Tiles-total_size a (c ∷ cs) b h lt =
    ground (arith, Tiles-total_size (c.end + 1) cs b h.2, Tiles-le (c.end + 1) cs b h.2)

planned_end_last :
    (index threads chunk_size file_size start : ℕ)
    → index + 1 ≡ threads
    → 0 < file_size
    → file_size < u64_mod
    → planned_end index threads chunk_size file_size start + 1 ≡ file_size
unfolding planned_end
planned_end_last index threads chunk_size file_size start e pos lt = ground arith

planned_end_inner :
    (index threads chunk_size file_size start : ℕ)
    → index + 1 < threads
    → 0 < chunk_size
    → start + chunk_size < u64_mod
    → planned_end index threads chunk_size file_size start + 1 ≡ start + chunk_size
unfolding planned_end
planned_end_inner index threads chunk_size file_size start e pos lt = ground arith

plan_from-suc :
    (rest index threads chunk_size file_size start : ℕ)
    → plan_from (suc rest) index threads chunk_size file_size start
      ≡ planned_chunk index start (planned_end index threads chunk_size file_size start)
        ∷ plan_from rest
            (index + 1)
            threads
            chunk_size
            file_size
            (u64 (planned_end index threads chunk_size file_size start + 1))
unfolding plan_from
plan_from-suc rest index threads chunk_size file_size start = refl

plan_from-zero :
    (index threads chunk_size file_size start : ℕ)
    → plan_from zero index threads chunk_size file_size start ≡ []
unfolding plan_from
plan_from-zero index threads chunk_size file_size start = refl

plan_from-Tiles :
    (rest index threads chunk_size file_size start : ℕ)
    → index + suc rest ≡ threads
    → 0 < chunk_size
    → start + suc rest * chunk_size ≤ file_size
    → file_size < u64_mod
    → Tiles start (plan_from (suc rest) index threads chunk_size file_size start) file_size
unfolding planned_chunk
plan_from-Tiles zero index threads chunk_size file_size start e pos fits lt =
    let last =
      planned_end_last index threads chunk_size file_size start (omega arith) (omega arith) lt in
    rw (plan_from-suc, plan_from-zero) (refl, omega (arith, last), last)
plan_from-Tiles (suc rest) index threads chunk_size file_size start e pos fits lt =
    let inner =
      planned_end_inner index threads chunk_size file_size start (omega arith) pos (omega arith) in
    let whole : u64 (start + chunk_size) ≡ start + chunk_size = omega arith in
    rw plan_from-suc (
      refl,
      omega (arith, inner),
      rw (inner, whole)
          (plan_from-Tiles rest (index + 1) threads chunk_size file_size (start + chunk_size)
            (omega arith) pos (omega arith) lt),
    )

-- The number of chunks is between 1 and 32, and at most one for each byte.
pub plan_threads_bounds :
    (file_size requested_threads hardware : ℕ)
    → 0 < file_size
    → (0 < plan_threads file_size requested_threads hardware)
      × (plan_threads file_size requested_threads hardware ≤ 32)
      × (plan_threads file_size requested_threads hardware ≤ file_size)
unfolding plan_threads
plan_threads_bounds file_size requested_threads hardware h = ground arith

share_fits : (n t : ℕ) → 0 < t → t ≤ n → (0 < n / t) × (t * (n / t) ≤ n)
share_fits n t pos le = (omega (arith, div-eq-sub-div pos le), omega (arith, div-add-mod n t))

plan_from-Tiles_all :
    (threads file_size : ℕ)
    → 0 < threads
    → threads ≤ file_size
    → file_size < u64_mod
    → Tiles 0 (plan_from threads 0 threads (file_size / threads) file_size 0) file_size
plan_from-Tiles_all zero file_size pos le lt = elim pos [ ]
plan_from-Tiles_all (suc rest) file_size pos le lt =
    let share = share_fits file_size (suc rest) pos le in
    plan_from-Tiles rest 0 (suc rest) (file_size / suc rest) file_size 0 (omega arith) share.0
      (omega (arith, share.1)) lt

-- For a file size of 64 bits, whatever the number of threads asked for and the hardware, the planned
-- chunks are not empty, begin at byte 0, follow one another without gap or overlap, and end with
-- the file.
pub plan-Tiles :
    (file_size requested_threads hardware : ℕ)
    → file_size < u64_mod
    → Tiles 0 (plan file_size requested_threads hardware) file_size
unfolding plan
plan-Tiles file_size requested_threads hardware lt = elim (Bool-cases (file_size == 0)) [
  | inl empty ↦ rw empty (sym ((==_iff file_size 0).0 empty))
  | inr more ↦
      let bounds = plan_threads_bounds file_size requested_threads hardware (ground arith) in
      rw more (
        plan_from-Tiles_all (plan_threads file_size requested_threads hardware) file_size bounds.0
          bounds.2 lt)
]

-- For a file size of 64 bits the sizes of the planned chunks, in 64 bits, add up to the file size.
pub plan-total_size :
    (file_size requested_threads hardware : ℕ)
    → file_size < u64_mod
    → total_size (plan file_size requested_threads hardware) ≡ file_size
plan-total_size file_size requested_threads hardware lt = omega (
  arith,
  Tiles-total_size 0 (plan file_size requested_threads hardware) file_size
      (plan-Tiles file_size requested_threads hardware lt) lt,
)

length-plan_from :
    (rest index threads share file_size start : ℕ)
    → length (plan_from rest index threads share file_size start) ≡ rest
unfolding plan_from
length-plan_from zero index threads share file_size start = refl
length-plan_from (suc rest) index threads share file_size start =
    ap suc (length-plan_from rest (index + 1) threads share file_size _)

abbrev part_name : ℕ → Text
part_name i = str "chunk_" ++ (to_string i ++ str ".part")

plan_from-get_elem? :
    (rest index threads share file_size start i k : ℕ) {c : Chunk}
    → index + i ≡ k
    → get_elem? (plan_from rest index threads share file_size start) i ≡ some c
    → (c.index ≡ k) × (c.temp_path ≡ part_name k)
unfolding plan_from
plan_from-get_elem? zero index threads share file_size start i k e h = cc
plan_from-get_elem? (suc rest) index threads share file_size start zero k e h =
    let e' : index ≡ k = omega arith in
    let found = some-injective _ _ h in
    rw (← e') (sym (ap (λ (d : Chunk). d.index) found), sym (ap (λ (d : Chunk). d.temp_path) found))
plan_from-get_elem? (suc rest) index threads share file_size start (suc i) k e h =
    plan_from-get_elem? rest (index + 1) threads share file_size _ i k (omega arith) h

part_name-injective : (i j : ℕ) → part_name i ≡ part_name j → i ≡ j
part_name-injective i j e = to_string-injective i j (
    append_cancel_right (to_string i) (to_string j) (str ".part")
      (append_cancel_left (str "chunk_") _ _ e))

plan-nonempty :
    (file_size requested_threads hardware : ℕ)
    → 0 < file_size
    → (n : ℕ) × (n ≡ plan_threads file_size requested_threads hardware)
      × (plan file_size requested_threads hardware ≡ plan_from n 0 n (file_size / n) file_size 0)
unfolding plan
plan-nonempty zero requested_threads hardware pos = elim pos [ ]
plan-nonempty (suc n) requested_threads hardware pos =
    (plan_threads (suc n) requested_threads hardware, refl, ground arith)

-- A plan for a file that is not empty has as many chunks as the thread count says: from 1 to 32, and
-- not more than the file has bytes.
pub length-plan :
    (file_size requested_threads hardware : ℕ)
    → 0 < file_size
    → (length (plan file_size requested_threads hardware)
        ≡ plan_threads file_size requested_threads hardware)
      × (0 < length (plan file_size requested_threads hardware))
      × (length (plan file_size requested_threads hardware) ≤ 32)
      × (length (plan file_size requested_threads hardware) ≤ file_size)
length-plan file_size requested_threads hardware pos =
    let (n, e, p) = plan-nonempty file_size requested_threads hardware pos in
    let l = length-plan_from n 0 n (file_size / n) file_size 0 in
    let bounds = plan_threads_bounds file_size requested_threads hardware pos in
    rw (p, l) (e, omega arith, omega arith, omega arith)

-- In a plan for a file that is not empty, the chunk at position i has the index i, and two chunks
-- with the same part file are one.
pub plan_part_files :
    (file_size requested_threads hardware i j : ℕ) (c d : Chunk)
    → 0 < file_size
    → get_elem? (plan file_size requested_threads hardware) i ≡ some c
    → get_elem? (plan file_size requested_threads hardware) j ≡ some d
    → c.temp_path ≡ d.temp_path
    → (c.index ≡ i) × (d.index ≡ j) × (i ≡ j)
plan_part_files file_size requested_threads hardware i j c d pos hc hd e =
    let (n, _, p) = plan-nonempty file_size requested_threads hardware pos in
    let at_i =
      plan_from-get_elem? n 0 n (file_size / n) file_size 0 i i (omega arith) (rw p at hc) in
    let at_j =
      plan_from-get_elem? n 0 n (file_size / n) file_size 0 j j (omega arith) (rw p at hd) in
    (at_i.0, at_j.0, part_name-injective i j (cc (at_i.1, at_j.1, e)))
