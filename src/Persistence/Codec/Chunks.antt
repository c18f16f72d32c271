-- ===== src/Persistence/Codec/Chunks.antt =====
-- A chunk that is stored is read back as it was.
use cget.Prelude.{◌≤◌, ◌<◌, ◌≡◌, refl, false, List, [], ◌∷◌, str, text_eq, arith, ltb, All}
use cget.Core.Types.{Chunk, chunk_size}
use cget.Core.Errors.{ok}
use cget.Json.Syntax.{object, Numbers, at, find, as_string, text_less}
use cget.Json.Maps.{IsOrdered, are_ordered-IsOrdered}
use cget.Json.Reading.{ItemsPrintable, MembersPrintable}
use cget.Persistence.Codec.Encode.{chunks_to_json}
use cget.Persistence.Codec.Decode.{text_at, whole_at, word_at, chunk_from_json, chunks_from_json}
use cget.Persistence.Codec.Layout.{chunk_layout, chunk_to_json-layout}
use cget.Persistence.Codec.Fields.{
  IsExact, NumberLaws, as_uint64-whole, as_uint32-whole, whole-IsReadable_exact, read_status-chunk,
}

-- A chunk that `taskFromJson` accepts, with numbers that a `double` holds.
pub record IsStorableChunk (c : Chunk) : Type 0 where
  pub index : IsExact c.index
  pub start : IsExact c.start
  pub end : IsExact c.end
  pub downloaded : IsExact c.downloaded
  pub retries : c.retry_count < 4294967296
  pub forward : c.start ≤ c.end
  pub within : c.downloaded ≤ chunk_size c

pub chunk_layout-MembersPrintable :
    (n : Numbers)
    → NumberLaws n
    → (c : Chunk) → IsStorableChunk c
    → MembersPrintable n (chunk_layout n c)
chunk_layout-MembersPrintable n laws c h = (
  whole-IsReadable_exact n laws c.downloaded h.downloaded,
  (
    whole-IsReadable_exact n laws c.end h.end,
    (
      whole-IsReadable_exact n laws c.index h.index,
      (
        whole-IsReadable_exact n laws c.retry_count (omega (arith, h.retries)),
        (whole-IsReadable_exact n laws c.start h.start, (tt, (tt, tt))),
      ),
    ),
  ),
)

pub chunk_layout-IsOrdered : (n : Numbers) (c : Chunk) → IsOrdered (chunk_layout n c)
unfolding text_less str
chunk_layout-IsOrdered n c = are_ordered-IsOrdered (chunk_layout n c) refl

pub chunk_from_json-layout :
    (n : Numbers)
    → NumberLaws n
    → (c : Chunk) → IsStorableChunk c
    → chunk_from_json n (object (chunk_layout n c)) ≡ ok c
unfolding chunk_from_json whole_at text_at word_at at find text_eq str as_string
chunk_from_json-layout n laws c h =
    let not_before : ltb c.end c.start ≡ false = ground (arith, h.forward) in
    let fits : ltb (chunk_size c) c.downloaded ≡ false = ground (arith, h.within) in
    rw
      (
        as_uint64-whole n laws c.index h.index,
        as_uint64-whole n laws c.start h.start,
        as_uint64-whole n laws c.end h.end,
        as_uint64-whole n laws c.downloaded h.downloaded,
        read_status-chunk c.status,
        as_uint32-whole n laws c.retry_count h.retries,
        not_before,
        fits,
      )
      refl

pub chunks_to_json-ItemsPrintable :
    (n : Numbers)
    → NumberLaws n
    → (cs : List Chunk) → All IsStorableChunk cs
    → ItemsPrintable n (chunks_to_json n cs)
unfolding chunks_to_json
chunks_to_json-ItemsPrintable n laws [] hs = tt
chunks_to_json-ItemsPrintable n laws (c ∷ cs) (h, hs) = rw (chunk_to_json-layout n c) (
  (chunk_layout-IsOrdered n c, chunk_layout-MembersPrintable n laws c h),
  chunks_to_json-ItemsPrintable n laws cs hs,
)

pub chunks_from_json-chunks_to_json :
    (n : Numbers)
    → NumberLaws n
    → (cs : List Chunk) → All IsStorableChunk cs
    → chunks_from_json n (chunks_to_json n cs) ≡ ok cs
unfolding chunks_from_json chunks_to_json
chunks_from_json-chunks_to_json n laws [] hs = refl
chunks_from_json-chunks_to_json n laws (c ∷ cs) (h, hs) =
    rw
      (
        chunk_to_json-layout n c,
        chunk_from_json-layout n laws c h,
        chunks_from_json-chunks_to_json n laws cs hs,
      )
      refl
