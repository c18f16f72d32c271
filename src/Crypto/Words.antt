-- ===== src/Crypto/Words.antt =====
-- The functions on 32-bit words of src/crypto/sha256.cpp, and `Sha256::transform`.
use cget.Prelude.{ℕ, zero, suc, ◌+◌, ◌-◌, ◌*◌, ◌/◌, ◌^◌, List, [], ◌∷◌, u32}
use Prim.Native.Nat.{bit_and, bit_or, bit_xor}

unfoldable pub rotr : ℕ → ℕ → ℕ
rotr value bits = bit_or (value / 2 ^ bits) (u32 (value * 2 ^ (32 - bits)))

-- `~x` of a 32-bit word.
abbrev pub complement : ℕ → ℕ
complement x = 4294967295 - x

unfoldable pub choose : ℕ → ℕ → ℕ → ℕ
choose x y z = bit_xor (bit_and x y) (bit_and (complement x) z)

unfoldable pub majority : ℕ → ℕ → ℕ → ℕ
majority x y z = bit_xor (bit_xor (bit_and x y) (bit_and x z)) (bit_and y z)

unfoldable pub big_sigma0 : ℕ → ℕ
big_sigma0 x = bit_xor (bit_xor (rotr x 2) (rotr x 13)) (rotr x 22)

unfoldable pub big_sigma1 : ℕ → ℕ
big_sigma1 x = bit_xor (bit_xor (rotr x 6) (rotr x 11)) (rotr x 25)

unfoldable pub small_sigma0 : ℕ → ℕ
small_sigma0 x = bit_xor (bit_xor (rotr x 7) (rotr x 18)) (x / 2 ^ 3)

unfoldable pub small_sigma1 : ℕ → ℕ
small_sigma1 x = bit_xor (bit_xor (rotr x 17) (rotr x 19)) (x / 2 ^ 10)

-- `kRoundConstants`.
abbrev pub round_constants : List ℕ
round_constants =
    0x428a2f98 ∷ 0x71374491 ∷ 0xb5c0fbcf ∷ 0xe9b5dba5 ∷ 0x3956c25b ∷ 0x59f111f1 ∷ 0x923f82a4
    ∷ 0xab1c5ed5 ∷ 0xd807aa98 ∷ 0x12835b01 ∷ 0x243185be ∷ 0x550c7dc3 ∷ 0x72be5d74 ∷ 0x80deb1fe
    ∷ 0x9bdc06a7 ∷ 0xc19bf174 ∷ 0xe49b69c1 ∷ 0xefbe4786 ∷ 0x0fc19dc6 ∷ 0x240ca1cc ∷ 0x2de92c6f
    ∷ 0x4a7484aa ∷ 0x5cb0a9dc ∷ 0x76f988da ∷ 0x983e5152 ∷ 0xa831c66d ∷ 0xb00327c8 ∷ 0xbf597fc7
    ∷ 0xc6e00bf3 ∷ 0xd5a79147 ∷ 0x06ca6351 ∷ 0x14292967 ∷ 0x27b70a85 ∷ 0x2e1b2138 ∷ 0x4d2c6dfc
    ∷ 0x53380d13 ∷ 0x650a7354 ∷ 0x766a0abb ∷ 0x81c2c92e ∷ 0x92722c85 ∷ 0xa2bfe8a1 ∷ 0xa81a664b
    ∷ 0xc24b8b70 ∷ 0xc76c51a3 ∷ 0xd192e819 ∷ 0xd6990624 ∷ 0xf40e3585 ∷ 0x106aa070 ∷ 0x19a4c116
    ∷ 0x1e376c08 ∷ 0x2748774c ∷ 0x34b0bcb5 ∷ 0x391c0cb3 ∷ 0x4ed8aa4a ∷ 0x5b9cca4f ∷ 0x682e6ff3
    ∷ 0x748f82ee ∷ 0x78a5636f ∷ 0x84c87814 ∷ 0x8cc70208 ∷ 0x90befffa ∷ 0xa4506ceb ∷ 0xbef9a3f7
    ∷ 0xc67178f2 ∷ []

-- Eight words: `state_`, and the variables `a` to `h` of `transform`.
pub record Hash : Type 0 where
  pub a : ℕ
  pub b : ℕ
  pub c : ℕ
  pub d : ℕ
  pub e : ℕ
  pub f : ℕ
  pub g : ℕ
  pub h : ℕ

-- The first 16 words of a block, the last one first.
unfoldable pub load_words : List ℕ → List ℕ → List ℕ
load_words (p ∷ (q ∷ (r ∷ (s ∷ rest)))) words =
    load_words rest (bit_or (bit_or (bit_or (p * 2 ^ 24) (q * 2 ^ 16)) (r * 2 ^ 8)) s ∷ words)
load_words _ words = words

-- The word that was computed `back` words before the newest one.
unfoldable pub word_back : ℕ → List ℕ → ℕ
word_back back [] = 0
word_back zero (w ∷ ws) = w
word_back (suc back) (w ∷ ws) = word_back back ws

-- The rounds that are left of the loop from 16 to 64.
unfoldable pub extend_words : ℕ → List ℕ → List ℕ
extend_words zero words = words
extend_words (suc count) words = extend_words count (
    u32 (
      small_sigma1 (word_back 1 words)
      + word_back 6 words
      + small_sigma0 (word_back 14 words)
      + word_back 15 words)
    ∷ words)

-- One round of the main loop.
unfoldable pub hash_round : ℕ → ℕ → Hash → Hash
hash_round constant word s =
    let t1 = u32 (s.h + big_sigma1 s.e + choose s.e s.f s.g + constant + word) in
    let t2 = u32 (big_sigma0 s.a + majority s.a s.b s.c) in
    record {
      a = u32 (t1 + t2);
      b = s.a;
      c = s.b;
      d = s.c;
      e = u32 (s.d + t1);
      f = s.e;
      g = s.f;
      h = s.g;
    }

unfoldable pub hash_rounds : List ℕ → List ℕ → Hash → Hash
hash_rounds (k ∷ ks) (w ∷ ws) s = hash_rounds ks ws (hash_round k w s)
hash_rounds _ _ s = s

-- The words from the first one on.
unfoldable pub reverse_onto : List ℕ → List ℕ → List ℕ
reverse_onto [] later = later
reverse_onto (w ∷ ws) later = reverse_onto ws (w ∷ later)

-- `transform` on a block of 64 bytes.
unfoldable pub transform : Hash → List ℕ → Hash
unfolding load_words extend_words hash_rounds reverse_onto
transform s block =
    let words = reverse_onto (extend_words 48 (load_words block [])) [] in
    let r = hash_rounds round_constants words s in
    record {
      a = u32 (s.a + r.a);
      b = u32 (s.b + r.b);
      c = u32 (s.c + r.c);
      d = u32 (s.d + r.d);
      e = u32 (s.e + r.e);
      f = u32 (s.f + r.f);
      g = u32 (s.g + r.g);
      h = u32 (s.h + r.h);
    }
