-- ===== src/Crypto/Streaming.antt =====
-- The hash does not depend on how its input is cut into pieces.
use cget.Prelude.{
  ℕ, zero, suc, ◌+◌, ◌*◌, ◌≤◌, ◌<◌, ◌≡◌, refl, sym, ap, ◌∙◌, false, Bool-cases, inl, inr, some,
  List, [], ◌∷◌, ◌++◌, Text, arith, ◌==◌, length, length-append, length-drop, take, drop,
  take-append-drop, u64, u64_mod,
}
use cget.Core.Errors.{ok}
use cget.Crypto.Sha256.{
  Sha256, new_sha256, absorb_byte, absorb, update, final, sha256_string, read_pieces, sha256_file,
}

pub absorb-append :
    (xs ys : List ℕ) (sha : Sha256) → absorb (xs ++ ys) sha ≡ absorb ys (absorb xs sha)
unfolding absorb
absorb-append [] ys sha = refl
absorb-append (x ∷ xs) ys sha = absorb-append xs ys _

abbrev pub with_bits : ℕ → Sha256 → Sha256
with_bits bits sha = record sha { bit_length = bits }

byte_bits :
    (x bits : ℕ) (sha : Sha256)
    → (absorb_byte x (with_bits bits sha) ≡ with_bits bits (absorb_byte x sha))
      × ((absorb_byte x sha).bit_length ≡ sha.bit_length)
unfolding absorb_byte
byte_bits x bits sha = elim (Bool-cases (length (sha.buffer ++ x ∷ []) == 64)) [
  | inl full ↦ rw (absorb_byte, full) (refl, refl)
  | inr partial ↦ rw (absorb_byte, partial) (refl, refl)
]

-- The bytes that go in do not touch the count.
pub absorb_bits :
    (xs : List ℕ) (bits : ℕ) (sha : Sha256)
    → (absorb xs (with_bits bits sha) ≡ with_bits bits (absorb xs sha))
      × ((absorb xs sha).bit_length ≡ sha.bit_length)
unfolding absorb
absorb_bits [] bits sha = (refl, refl)
absorb_bits (x ∷ xs) bits sha =
    let (here, count) = byte_bits x bits sha in
    let (later, counts) = absorb_bits xs bits (absorb_byte x sha) in
    (ap (absorb xs) here ∙ later, counts ∙ count)

bits_of_append :
    (bits m n : ℕ) → u64 (u64 (bits + u64 (m * 8)) + u64 (n * 8)) ≡ u64 (bits + u64 ((m + n) * 8))
bits_of_append bits m n = omega arith

pub update-append :
    (xs ys : List ℕ) (sha : Sha256) → update (xs ++ ys) sha ≡ update ys (update xs sha)
unfolding update
update-append xs ys sha =
    let first = u64 (sha.bit_length + u64 (length xs * 8)) in
    let whole = u64 (sha.bit_length + u64 (length (xs ++ ys) * 8)) in
    let same : u64 ((absorb xs (with_bits first sha)).bit_length + u64 (length ys * 8)) ≡ whole =
      rw ((absorb_bits xs first (with_bits first sha)).1, length-append xs ys)
        (bits_of_append sha.bit_length (length xs) (length ys)) in
    absorb-append xs ys (with_bits whole sha)
    ∙ ap (absorb ys) (
        (absorb_bits xs whole sha).0
        ∙ (ap (with_bits whole) (sym (absorb_bits xs first sha).0)
            ∙ ap (λ b. with_bits b (absorb xs (with_bits first sha))) (sym same)))

update_nothing : (sha : Sha256) → sha.bit_length < u64_mod → update [] sha ≡ sha
unfolding update absorb
update_nothing sha b =
    let same : u64 (sha.bit_length + u64 (0 * 8)) ≡ sha.bit_length = omega arith in
    ap (λ bits. with_bits bits sha) same

update_bits : (xs : List ℕ) (sha : Sha256) → (update xs sha).bit_length < u64_mod
unfolding update
update_bits xs sha =
    let counted = u64 (sha.bit_length + u64 (length xs * 8)) in
    rw (absorb_bits xs 0 (with_bits counted sha)).1 (omega arith)

read_pieces_whole :
    (fuel : ℕ) (content : List ℕ) (sha : Sha256)
    → length content ≤ fuel
    → sha.bit_length < u64_mod
    → read_pieces fuel content sha ≡ update content sha
unfolding read_pieces
read_pieces_whole zero [] sha h b = sym (update_nothing sha b)
read_pieces_whole zero (c ∷ cs) sha h b = absurd (omega arith)
read_pieces_whole (suc fuel) [] sha h b = sym (update_nothing sha b)
read_pieces_whole (suc fuel) (c ∷ cs) sha h b =
    let content = c ∷ cs in
    let first = take 8192 content in
    let some_left : (length content == 0) ≡ false = ground arith in
    rw some_left (
      read_pieces_whole fuel (drop 8192 content) (update first sha)
        (omega (arith, length-drop 8192 content, h)) (update_bits first sha)
      ∙ (sym (update-append first (drop 8192 content) sha)
          ∙ ap (λ t. update t sha) (take-append-drop 8192 content)))

-- sha256File gives the hash of the content of the file as sha256String computes it in one piece.
pub sha256_file-sha256_string :
    (content path : Text) → sha256_file (some content) path ≡ ok (sha256_string content)
unfolding sha256_file sha256_string
sha256_file-sha256_string content path =
    ap (λ s. ok (final s))
      (read_pieces_whole (length content) content new_sha256 (omega arith) (omega arith))
