-- ===== src/Crypto/Fips.antt =====
-- SHA-256 as FIPS 180-4 defines it, with nothing of src/crypto/sha256.cpp but the record of eight words:
-- the constants are computed from the prime numbers (4.2.2, 5.3.3), the functions on words are those of
-- 4.1.2, the message is padded as a whole (5.1.1), and each block goes through the message schedule and
-- the 64 rounds (6.2.2).
pub mod Agrees
use cget.Prelude.{
  ℕ, zero, suc, ◌+◌, ◌-◌, ◌*◌, ◌/◌, ◌%◌, ◌^◌, List, [], ◌∷◌, ◌++◌, Text, ltb, leb, length, take,
  drop, map, if◌then◌else◌,
}
use Prim.Native.Nat.{bit_and, bit_or, bit_xor}
use cget.Crypto.Words.{Hash}

-- The greatest number with these bits and `count` lower ones whose power `exponent` is at most `bound`.
unfoldable pub root_bits : ℕ → ℕ → ℕ → ℕ → ℕ
root_bits exponent bound zero root = root
root_bits exponent bound (suc count) root =
    let larger = root + 2 ^ count in
    root_bits exponent bound count (if leb (larger ^ exponent) bound then larger else root)

-- The first 32 bits of the fractional parts of the square root and of the cube root of `p`.
unfoldable pub square_root_word : ℕ → ℕ
unfolding root_bits
square_root_word p = root_bits 2 (p * 2 ^ 64) 40 0 % 2 ^ 32

unfoldable pub cube_root_word : ℕ → ℕ
unfolding root_bits
cube_root_word p = root_bits 3 (p * 2 ^ 96) 40 0 % 2 ^ 32

-- The first 64 prime numbers.
abbrev pub primes : List ℕ
primes =
    2 ∷ 3 ∷ 5 ∷ 7 ∷ 11 ∷ 13 ∷ 17 ∷ 19 ∷ 23 ∷ 29 ∷ 31 ∷ 37 ∷ 41 ∷ 43 ∷ 47 ∷ 53 ∷ 59 ∷ 61 ∷ 67 ∷ 71
    ∷ 73 ∷ 79 ∷ 83 ∷ 89 ∷ 97 ∷ 101 ∷ 103 ∷ 107 ∷ 109 ∷ 113 ∷ 127 ∷ 131 ∷ 137 ∷ 139 ∷ 149 ∷ 151 ∷ 157
    ∷ 163 ∷ 167 ∷ 173 ∷ 179 ∷ 181 ∷ 191 ∷ 193 ∷ 197 ∷ 199 ∷ 211 ∷ 223 ∷ 227 ∷ 229 ∷ 233 ∷ 239 ∷ 241
    ∷ 251 ∷ 257 ∷ 263 ∷ 269 ∷ 271 ∷ 277 ∷ 281 ∷ 283 ∷ 293 ∷ 307 ∷ 311 ∷ []

unfoldable pub fips_constants : List ℕ
unfolding cube_root_word
fips_constants = map cube_root_word primes

unfoldable pub fips_initial : Hash
unfolding square_root_word
fips_initial = record {
  a = square_root_word 2;
  b = square_root_word 3;
  c = square_root_word 5;
  d = square_root_word 7;
  e = square_root_word 11;
  f = square_root_word 13;
  g = square_root_word 17;
  h = square_root_word 19;
}

-- ROTR, Ch, Maj and the four functions on words.
unfoldable pub rotate_right : ℕ → ℕ → ℕ
rotate_right n x = bit_or (x / 2 ^ n) (x * 2 ^ (32 - n) % 2 ^ 32)

unfoldable pub fips_ch : ℕ → ℕ → ℕ → ℕ
fips_ch x y z = bit_xor (bit_and x y) (bit_and (2 ^ 32 - 1 - x) z)

unfoldable pub fips_maj : ℕ → ℕ → ℕ → ℕ
fips_maj x y z = bit_xor (bit_xor (bit_and x y) (bit_and x z)) (bit_and y z)

unfoldable pub upper_sigma0 : ℕ → ℕ
unfolding rotate_right
upper_sigma0 x = bit_xor (bit_xor (rotate_right 2 x) (rotate_right 13 x)) (rotate_right 22 x)

unfoldable pub upper_sigma1 : ℕ → ℕ
unfolding rotate_right
upper_sigma1 x = bit_xor (bit_xor (rotate_right 6 x) (rotate_right 11 x)) (rotate_right 25 x)

unfoldable pub lower_sigma0 : ℕ → ℕ
unfolding rotate_right
lower_sigma0 x = bit_xor (bit_xor (rotate_right 7 x) (rotate_right 18 x)) (x / 2 ^ 3)

unfoldable pub lower_sigma1 : ℕ → ℕ
unfolding rotate_right
lower_sigma1 x = bit_xor (bit_xor (rotate_right 17 x) (rotate_right 19 x)) (x / 2 ^ 10)

-- The words of a block, four bytes each with the first one on top, put before `later`, newest first.
unfoldable pub block_words : List ℕ → List ℕ → List ℕ
block_words (p ∷ (q ∷ (r ∷ (s ∷ rest)))) earlier =
    block_words rest (bit_or (bit_or (bit_or (p * 2 ^ 24) (q * 2 ^ 16)) (r * 2 ^ 8)) s ∷ earlier)
block_words _ earlier = earlier

-- W(t - 1 - i), where W(t - 1) is the newest of the words.
unfoldable pub word_before : ℕ → List ℕ → ℕ
word_before i [] = 0
word_before zero (w ∷ ws) = w
word_before (suc i) (w ∷ ws) = word_before i ws

-- W(t) is the sum of the words 2, 7, 15 and 16 places before, two of them changed.
unfoldable pub schedule_words : ℕ → List ℕ → List ℕ
schedule_words zero ws = ws
schedule_words (suc count) ws = schedule_words count (
    (lower_sigma1 (word_before 1 ws)
        + word_before 6 ws
        + lower_sigma0 (word_before 14 ws)
        + word_before 15 ws)
      % 2 ^ 32
    ∷ ws)

unfoldable pub backwards : List ℕ → List ℕ → List ℕ
backwards [] later = later
backwards (w ∷ ws) later = backwards ws (w ∷ later)

-- The step for the constant `k` and the word `w`.
unfoldable pub fips_round : ℕ → ℕ → Hash → Hash
fips_round k w s =
    let t1 = (s.h + upper_sigma1 s.e + fips_ch s.e s.f s.g + k + w) % 2 ^ 32 in
    let t2 = (upper_sigma0 s.a + fips_maj s.a s.b s.c) % 2 ^ 32 in
    record {
      h = s.g;
      g = s.f;
      f = s.e;
      e = (s.d + t1) % 2 ^ 32;
      d = s.c;
      c = s.b;
      b = s.a;
      a = (t1 + t2) % 2 ^ 32;
    }

unfoldable pub fips_rounds : List ℕ → List ℕ → Hash → Hash
fips_rounds (k ∷ ks) (w ∷ ws) s = fips_rounds ks ws (fips_round k w s)
fips_rounds _ _ s = s

unfoldable pub add_words : Hash → Hash → Hash
add_words x y = record {
  a = (x.a + y.a) % 2 ^ 32;
  b = (x.b + y.b) % 2 ^ 32;
  c = (x.c + y.c) % 2 ^ 32;
  d = (x.d + y.d) % 2 ^ 32;
  e = (x.e + y.e) % 2 ^ 32;
  f = (x.f + y.f) % 2 ^ 32;
  g = (x.g + y.g) % 2 ^ 32;
  h = (x.h + y.h) % 2 ^ 32;
}

unfoldable pub fips_block : Hash → List ℕ → Hash
unfolding add_words block_words schedule_words backwards fips_rounds
fips_block s block =
    add_words s
      (fips_rounds fips_constants (backwards (schedule_words 48 (block_words block [])) []) s)

unfoldable pub repeat_zero : ℕ → List ℕ
repeat_zero zero = []
repeat_zero (suc count) = 0 ∷ repeat_zero count

-- The lower `count` bytes of a number, the highest one first.
unfoldable pub big_endian : ℕ → ℕ → List ℕ
big_endian zero n = []
big_endian (suc count) n = n / 2 ^ (8 * count) % 256 ∷ big_endian count n

-- The message, a byte 0x80, as few zeros as fill the last block, and the length in bits in 8 bytes.
unfoldable pub padded : List ℕ → List ℕ
padded message =
    message
    ++ 0x80
      ∷ (repeat_zero ((119 - length message % 64) % 64)
          ++ big_endian 8 (length message * 8 % 2 ^ 64))

-- The blocks of 64 bytes, one after the other.
unfoldable pub fips_blocks : ℕ → Hash → List ℕ → Hash
fips_blocks zero s bytes = s
fips_blocks (suc count) s bytes = fips_blocks count (fips_block s (take 64 bytes)) (drop 64 bytes)

abbrev pub lower_hex : ℕ → ℕ
lower_hex d = if ltb d 10 then b'0' + d else b'a' + (d - 10)

-- The lower `count` hexadecimal digits of a word.
unfoldable pub print_hex : ℕ → ℕ → Text
print_hex zero word = []
print_hex (suc count) word = lower_hex (word / 16 ^ count % 16) ∷ print_hex count word

-- The words one after the other.
unfoldable pub print_words : List ℕ → Text
print_words [] = []
print_words (w ∷ ws) = print_hex 8 w ++ print_words ws

unfoldable pub fips_sha256 : Text → Text
fips_sha256 message =
    let s = fips_blocks (length (padded message) / 64) fips_initial (padded message) in
    print_words (s.a ∷ s.b ∷ s.c ∷ s.d ∷ s.e ∷ s.f ∷ s.g ∷ s.h ∷ [])
