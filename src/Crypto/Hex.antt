-- ===== src/Crypto/Hex.antt =====
-- `isSha256Hex` of src/crypto/sha256.cpp, and the form of the checksums.
use cget.Prelude.{
  map, ℕ, zero, suc, ◌+◌, ◌/◌, ◌%◌, ◌^◌, ◌<◌, ◌≡◌, refl, Bool, true, false, ◌&&◌, ◌||◌, [], ◌∷◌,
  ◌++◌, Text, arith, leb, ◌==◌, length, length-append, All, if◌then◌else◌,
}
use cget.Crypto.Words.{Hash}
use cget.Crypto.Sha256.{
  hex_digit, hex_word, hex_hash, final, finish_hash, update, new_sha256, sha256_string,
}

unfoldable pub is_hex_byte : ℕ → Bool
is_hex_byte c = leb b'0' c && leb c b'9' || leb b'a' c && leb c b'f' || leb b'A' c && leb c b'F'

-- The loop of `isSha256Hex`.
unfoldable pub are_hex_bytes : Text → Bool
are_hex_bytes [] = true
are_hex_bytes (c ∷ cs) = is_hex_byte c && are_hex_bytes cs

-- `isSha256Hex`.
unfoldable pub is_sha256_hex : Text → Bool
is_sha256_hex value = length value == 64 && are_hex_bytes value

-- `lowercaseHex`: only the letters `A` to `F` change.
unfoldable pub lowercase_hex : Text → Text
lowercase_hex value = map (λ c. if leb b'A' c && leb c b'F' then c + 32 else c) value

-- A digit as the checksums have it.
abbrev IsLowerHex : ℕ → Type 0
IsLowerHex c = (is_hex_byte c ≡ true) × ((leb b'A' c && leb c b'F') ≡ false)

hex_digit-IsLowerHex : (d : ℕ) → d < 16 → IsLowerHex (hex_digit d)
unfolding is_hex_byte
hex_digit-IsLowerHex d h = (ground arith, ground arith)

hex_word-IsLowerHex :
    (count word : ℕ) → (length (hex_word count word) ≡ count) × All IsLowerHex (hex_word count word)
unfolding hex_word
hex_word-IsLowerHex zero word = (refl, tt)
hex_word-IsLowerHex (suc count) word =
    let (size, digits) = hex_word-IsLowerHex count word in
    (omega (arith, size), (hex_digit-IsLowerHex (word / 16 ^ count % 16) (omega arith), digits))

all_append : (xs ys : Text) → All IsLowerHex xs → All IsLowerHex ys → All IsLowerHex (xs ++ ys)
all_append [] ys h k = k
all_append (x ∷ xs) ys (h, hs) k = (h, all_append xs ys hs k)

-- A word, and what follows it.
word_then :
    (word m n : ℕ) (rest : Text)
    → (length rest ≡ m) × All IsLowerHex rest
    → n ≡ 8 + m
    → (length (hex_word 8 word ++ rest) ≡ n) × All IsLowerHex (hex_word 8 word ++ rest)
word_then word m n rest (size, digits) e =
    let (eight, first) = hex_word-IsLowerHex 8 word in
    (
      omega (arith, length-append (hex_word 8 word) rest, eight),
      all_append (hex_word 8 word) rest first digits,
    )

hex_hash-IsLowerHex : (s : Hash) → (length (hex_hash s) ≡ 64) × All IsLowerHex (hex_hash s)
unfolding hex_hash
hex_hash-IsLowerHex s =
    word_then s.a 56 64 _
      (word_then s.b 48 56 _
        (word_then s.c 40 48 _
          (word_then s.d 32 40 _
            (word_then s.e 24 32 _
              (word_then s.f 16 24 _ (word_then s.g 8 16 _ (hex_word-IsLowerHex 8 s.h) refl) refl)
              refl)
            refl)
          refl)
        refl)
      refl

lower_hex_accepted :
    (t : Text) → All IsLowerHex t → (are_hex_bytes t ≡ true) × (lowercase_hex t ≡ t)
unfolding are_hex_bytes lowercase_hex
lower_hex_accepted [] h = (refl, refl)
lower_hex_accepted (c ∷ cs) ((hex, low), hs) =
    let (all_hex, same) = lower_hex_accepted cs hs in (rw (hex, all_hex) refl, rw (low, same) refl)

-- A checksum that sha256String gives is one that isSha256Hex accepts, and lowercaseHex leaves it as it
-- is.
pub sha256_string-accepted :
    (input : Text)
    → (is_sha256_hex (sha256_string input) ≡ true)
      × (lowercase_hex (sha256_string input) ≡ sha256_string input)
unfolding sha256_string final is_sha256_hex
sha256_string-accepted input =
    let (size, digits) = hex_hash-IsLowerHex (finish_hash (update input new_sha256)) in
    let (all_hex, same) =
      lower_hex_accepted (hex_hash (finish_hash (update input new_sha256))) digits in
    (rw (size, all_hex) refl, same)
