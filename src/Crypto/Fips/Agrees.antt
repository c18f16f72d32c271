-- ===== src/Crypto/Fips/Agrees.antt =====
-- The hash of src/crypto/sha256.cpp is the one of FIPS 180-4.
use cget.Prelude.{
  ℕ, zero, suc, ◌/◌, ◌%◌, ◌^◌, ◌≡◌, refl, sym, ap, ◌∙◌, List, [], ◌∷◌, Text, arith, length, take,
  drop,
}
use mathlib.Core.List.{append-nil}
use cget.Crypto.Words.{
  Hash, rotr, choose, majority, big_sigma0, big_sigma1, small_sigma0, small_sigma1, round_constants,
  load_words, word_back, extend_words, hash_round, hash_rounds, reverse_onto, transform,
}
use cget.Crypto.Sha256.{initial_hash, hex_digit, hex_word, hex_hash, sha256_string}
use cget.Crypto.Fips.{
  root_bits, square_root_word, cube_root_word, fips_constants, fips_initial, rotate_right, fips_ch,
  fips_maj, upper_sigma0, upper_sigma1, lower_sigma0, lower_sigma1, block_words, word_before,
  schedule_words, backwards, fips_round, fips_rounds, add_words, fips_block, padded, fips_blocks,
  lower_hex, print_hex, print_words, fips_sha256,
}
use cget.Crypto.Padding.{hash_blocks, sha256_string_lem}

constants_agree : fips_constants ≡ round_constants
unfolding fips_constants cube_root_word root_bits
constants_agree = refl

initial_agrees : fips_initial ≡ initial_hash
unfolding fips_initial square_root_word root_bits
initial_agrees = refl

words_agree : (block ws : List ℕ) → block_words block ws ≡ load_words block ws
unfolding block_words load_words
words_agree [] ws = refl
words_agree (p ∷ []) ws = refl
words_agree (p ∷ (q ∷ [])) ws = refl
words_agree (p ∷ (q ∷ (r ∷ []))) ws = refl
words_agree (p ∷ (q ∷ (r ∷ (s ∷ rest)))) ws = words_agree rest _

word_agrees : (i : ℕ) (ws : List ℕ) → word_before i ws ≡ word_back i ws
unfolding word_before word_back
word_agrees zero [] = refl
word_agrees (suc i) [] = refl
word_agrees zero (w ∷ ws) = refl
word_agrees (suc i) (w ∷ ws) = word_agrees i ws

schedule_agrees : (count : ℕ) (ws : List ℕ) → schedule_words count ws ≡ extend_words count ws
unfolding schedule_words extend_words lower_sigma0 lower_sigma1 small_sigma0 small_sigma1
    rotate_right rotr
schedule_agrees zero ws = refl
schedule_agrees (suc count) ws =
    rw (word_agrees 1 ws, word_agrees 6 ws, word_agrees 14 ws, word_agrees 15 ws)
      (schedule_agrees count _)

backwards_agrees : (ws later : List ℕ) → backwards ws later ≡ reverse_onto ws later
unfolding backwards reverse_onto
backwards_agrees [] later = refl
backwards_agrees (w ∷ ws) later = backwards_agrees ws (w ∷ later)

round_agrees : (k w : ℕ) (s : Hash) → fips_round k w s ≡ hash_round k w s
unfolding fips_round hash_round upper_sigma0 upper_sigma1 big_sigma0 big_sigma1 fips_ch choose
    fips_maj majority rotate_right rotr
round_agrees k w s = refl

rounds_agree : (ks ws : List ℕ) (s : Hash) → fips_rounds ks ws s ≡ hash_rounds ks ws s
unfolding fips_rounds hash_rounds
rounds_agree [] ws s = refl
rounds_agree (k ∷ ks) [] s = refl
rounds_agree (k ∷ ks) (w ∷ ws) s =
    ap (fips_rounds ks ws) (round_agrees k w s) ∙ rounds_agree ks ws (hash_round k w s)

block_agrees : (s : Hash) (block : List ℕ) → fips_block s block ≡ transform s block
unfolding fips_block transform add_words
block_agrees s block =
    let words = extend_words 48 (load_words block []) in
    let scheduled : schedule_words 48 (block_words block []) ≡ words =
      ap (schedule_words 48) (words_agree block []) ∙ schedule_agrees 48 (load_words block []) in
    ap (add_words s) (
      ap (λ ks. fips_rounds ks (backwards (schedule_words 48 (block_words block [])) []) s)
        constants_agree
      ∙ (ap (λ ws. fips_rounds round_constants (backwards ws []) s) scheduled
          ∙ (ap (λ ws. fips_rounds round_constants ws s) (backwards_agrees words [])
              ∙ rounds_agree round_constants (reverse_onto words []) s)))

blocks_agree :
    (count : ℕ) (s : Hash) (bytes : List ℕ) → fips_blocks count s bytes ≡ hash_blocks count s bytes
unfolding fips_blocks hash_blocks
blocks_agree zero s bytes = refl
blocks_agree (suc count) s bytes =
    ap (λ t. fips_blocks count t (drop 64 bytes)) (block_agrees s (take 64 bytes))
    ∙ blocks_agree count (transform s (take 64 bytes)) (drop 64 bytes)

lower_hex_agrees : (d : ℕ) → lower_hex d ≡ hex_digit d
lower_hex_agrees d = ground arith

print_agrees : (count word : ℕ) → print_hex count word ≡ hex_word count word
unfolding print_hex hex_word
print_agrees zero word = refl
print_agrees (suc count) word =
    ap (λ d. d ∷ print_hex count word) (lower_hex_agrees (word / 16 ^ count % 16))
    ∙ ap (◌∷◌ (hex_digit (word / 16 ^ count % 16))) (print_agrees count word)

print_words_agree :
    (s : Hash) → print_words (s.a ∷ s.b ∷ s.c ∷ s.d ∷ s.e ∷ s.f ∷ s.g ∷ s.h ∷ []) ≡ hex_hash s
unfolding print_words hex_hash
print_words_agree s = rw (
  print_agrees 8 s.a,
  print_agrees 8 s.b,
  print_agrees 8 s.c,
  print_agrees 8 s.d,
  print_agrees 8 s.e,
  print_agrees 8 s.f,
  print_agrees 8 s.g,
  print_agrees 8 s.h,
  append-nil (hex_word 8 s.h),
)

-- For every message, sha256String gives the hash that FIPS 180-4 defines, with the round constants and
-- the initial words computed from the roots of the prime numbers, as a hexadecimal text; and the padded
-- message is a whole number of blocks.
pub sha256_string-fips_sha256 :
    (message : Text)
    → (sha256_string message ≡ fips_sha256 message) × (length (padded message) % 64 ≡ 0)
unfolding fips_sha256
sha256_string-fips_sha256 message =
    let (hashed, whole) = sha256_string_lem message in
    let count = length (padded message) / 64 in
    (
      hashed
          ∙ (sym (ap (λ s. hex_hash (hash_blocks count s (padded message))) initial_agrees)
              ∙ (sym (ap hex_hash (blocks_agree count fips_initial (padded message)))
                  ∙ sym (print_words_agree (fips_blocks count fips_initial (padded message))))),
      whole,
    )
